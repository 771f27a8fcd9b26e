-- ===== src/Db/Store.antt =====
-- RocksDB, as bindex-lib/src/db.rs uses it: an ordered key-value store with column families.
use bindex_rs.Common.{
  ℕ, ◌≡◌, ◌⊎◌, Bool, true, false, ◌&&◌, Option, none, some, List, [], ◌∷◌, if◌then◌else◌,
}
use bindex_rs.Common.Bytes.{bytes_eq, bytes_le}

-- The column families that are written and read (`COLUMN_FAMILIES` has three more).
pub data Cf : Type 0 where
  headers script_hash txpos txid : Cf

pub data Op : Type 0 where
  put : Cf → List ℕ → List ℕ → Op
  delete : Cf → List ℕ → Op

unfoldable pub cf_eq : Cf → Cf → Bool
cf_eq headers headers = true
cf_eq script_hash script_hash = true
cf_eq txpos txpos = true
cf_eq txid txid = true
cf_eq _ _ = false

-- What a batch of operations, the earlier first, makes of the value at a key.
unfoldable pub value_after : Cf → List ℕ → List Op → Option (List ℕ) → Option (List ℕ)
unfolding cf_eq bytes_eq
value_after cf k [] v = v
value_after cf k (put c j w ∷ ops) v =
    value_after cf k ops (if cf_eq c cf && bytes_eq j k then some w else v)
value_after cf k (delete c j ∷ ops) v =
    value_after cf k ops (if cf_eq c cf && bytes_eq j k then none else v)

-- The calls. `write` fails whole (`none`); an item of `scan` that is `none` is a failed read.
pub record Store : Type 1 where
  pub Db : Type 0
  pub get : Db → Cf → List ℕ → Option (List ℕ)
  -- Whether a call that reads one key succeeds; `get` is what is stored.
  pub readable : Db → Cf → List ℕ → Bool
  pub write : Db → List Op → Option Db
  pub scan : Db → Cf → List ℕ → List (Option (List ℕ × List ℕ))

abbrev pub Listed : List ℕ → List ℕ → List (Option (List ℕ × List ℕ)) → Type 0
Listed k v [] = ⊥
Listed k v (x ∷ xs) = (x ≡ some (k, v)) ⊎ Listed k v xs

-- Readable entries from `from` on, keys ascending.
abbrev pub InOrder : (List ℕ → Option (List ℕ)) → List ℕ → List (Option (List ℕ × List ℕ)) → Type 0
InOrder value from [] = Unit
InOrder value from (x ∷ xs) =
    (k : List ℕ) × (v : List ℕ) × (x ≡ some (k, v))
    × (bytes_le from k ≡ true)
    × (value k ≡ some v)
    × InOrder value k xs

-- What RocksDB documents of a store in working order: a batch takes effect as a whole, and a
-- forward scan from a key yields the entries from there on in key order, every one of them.
pub record IsOrdered (s : Store) : Type 0 where
  pub get-write :
      (db db' : s.Db) (ops : List Op) (cf : Cf) (k : List ℕ)
      → s.write db ops ≡ some db'
      → s.get db' cf k ≡ value_after cf k ops (s.get db cf k)
  pub scan_in_order :
      (db : s.Db) (cf : Cf) (from : List ℕ) → InOrder (s.get db cf) from (s.scan db cf from)
  pub scan_complete :
      (db : s.Db) (cf : Cf) (from k v : List ℕ)
      → s.get db cf k ≡ some v
      → bytes_le from k ≡ true
      → Listed k v (s.scan db cf from)

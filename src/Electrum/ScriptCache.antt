-- ===== src/Electrum/ScriptCache.antt =====
-- `ScriptCache` of bindex-electrum/src/chain.rs: folded scripts, the least recently used evicted first.
use bindex_rs.Common.{ℕ, zero, suc, Option, none, some, List, [], ◌∷◌, ltb, leb, if◌then◌else◌}
use bindex_rs.Common.{length}
use bindex_rs.Common.Bytes.{bytes_eq}
use bindex_rs.Chain.Reads.{TxBytesRef}
use bindex_rs.Electrum.Fold.{Fold, ScriptHistory}
use bindex_rs.Electrum.Maps.{lookup, set, unset}
use bindex_rs.Electrum.Mempool.View.{sub64, add64}
use bindex_rs.Electrum.Mempool.{ScriptHash}
pub mod Bounded
pub mod Entries

-- A script's fold, and the references that it was built from.
pub record CachedScript : Type 0 where
  pub refs : List TxBytesRef
  pub fold : Fold
  pub history : ScriptHistory

pub record Entry : Type 0 where
  pub cached : CachedScript
  pub used : ℕ

pub record ScriptCache : Type 0 where
  pub entries : List (ScriptHash × Entry)
  pub refs : ℕ
  pub max_refs : ℕ
  pub clock : ℕ

unfoldable pub new_cache : ℕ → ScriptCache
new_cache max_refs = record { entries = []; refs = 0; max_refs = max_refs; clock = 0 }

-- `self` with other entries and another count of references.
abbrev pub with_entries : ScriptCache → List (ScriptHash × Entry) → ℕ → ScriptCache
with_entries self entries refs = record {
  entries = entries;
  refs = refs;
  max_refs = self.max_refs;
  clock = self.clock;
}

abbrev pub tick : ScriptCache → ScriptCache
tick self = record {
  entries = self.entries;
  refs = self.refs;
  max_refs = self.max_refs;
  clock = add64 self.clock 1;
}

-- What `get` returns, and the cache that it leaves.
unfoldable pub get : ScriptCache → ScriptHash → Option CachedScript × ScriptCache
get self scripthash = elim (lookup bytes_eq scripthash self.entries) [
  | none ↦ (none, tick self)
  | some e ↦ (
    some e.cached,
    with_entries (tick self)
        (set bytes_eq scripthash (record { cached = e.cached; used = add64 self.clock 1 })
          self.entries)
        self.refs,
  )
]

-- The removal of an entry, with its references.
unfoldable pub forget : ScriptCache → ScriptHash → ScriptCache
unfolding sub64
forget self scripthash = elim (lookup bytes_eq scripthash self.entries) [
  | none ↦ self
  | some e ↦
      with_entries self (unset bytes_eq scripthash self.entries)
        (sub64 self.refs (length e.cached.refs))
]

-- Of an entry and the oldest one behind it, the older.
unfoldable pub older : ScriptHash → ℕ → Option (ScriptHash × ℕ) → Option (ScriptHash × ℕ)
older k used none = some (k, used)
older k used (some (j, other)) = if leb used other then some (k, used) else some (j, other)

-- The key that was used least recently.
unfoldable pub oldest : List (ScriptHash × Entry) → Option (ScriptHash × ℕ)
unfolding older
oldest [] = none
oldest ((k, e) ∷ entries) = older k e.used (oldest entries)

-- The loop of `put`: a round removes an entry, so as many rounds as there are entries are enough.
unfoldable pub evict : ℕ → ScriptCache → ScriptCache
unfolding forget oldest
evict zero self = self
evict (suc fuel) self =
    if ltb self.max_refs self.refs
    then (elim (oldest self.entries) [ none ↦ self | some k ↦ evict fuel (forget self k.0) ])
    else self

-- The cache with an entry whose key is not there.
unfoldable pub add : ScriptCache → ScriptHash → CachedScript → ScriptCache
add self scripthash cached =
    with_entries (tick self)
      (set bytes_eq scripthash (record { cached = cached; used = add64 self.clock 1 }) self.entries)
      (add64 self.refs (length cached.refs))

unfoldable pub put : ScriptCache → ScriptHash → CachedScript → ScriptCache
unfolding evict forget add
put self scripthash cached =
    let cleared = forget self scripthash in
    if ltb self.max_refs (length cached.refs)
    then cleared
    else evict (length (add cleared scripthash cached).entries) (add cleared scripthash cached)

-- ===== src/Index/Row.antt =====
-- `Prefix` and `HashPrefixRow` of bindex-lib/src/index/mod.rs: the key-only rows of the script hash
-- and txid tables.
use bindex_rs.Common.{
  ℕ, ◌≡◌, refl, ap, ◌&&◌, List, [], ◌∷◌, ◌++◌, arith, length, leb, ◌==◌, ◌≤◌, take, le→leb,
  slice_to, slice_from, slice_from-append,
}
use bindex_rs.Common.{Outcome, ok, ◌>>=◌}
use bindex_rs.Common.Bytes.{
  IsU32, bytes_eq, bytes_le, starts_with, u32_to_be_bytes, bytes_le-to_be_bytes,
  bytes_le-append_left,
}
use bindex_rs.Index.TxNum
use bindex_rs.Index.TxNum.{TxNum, deserialize-serialize}

-- `Prefix::LEN`
abbrev pub prefix_len : ℕ
prefix_len = 8

-- The first eight bytes of a hash.
unfoldable pub new_prefix : List ℕ → Outcome (List ℕ)
unfolding slice_to
new_prefix hash = slice_to prefix_len hash

pub record HashPrefixRow : Type 0 where
  pub key : List ℕ

unfoldable pub new : List ℕ → TxNum → HashPrefixRow
new prefix txnum = record { key = prefix ++ TxNum.serialize txnum }

unfoldable pub txnum : HashPrefixRow → Outcome TxNum
txnum row = do tail ← slice_from prefix_len row.key; TxNum.deserialize tail

-- A row gives back the number that it was made with.
pub txnum-new :
    (prefix : List ℕ) (n : TxNum)
    → length prefix ≡ prefix_len
    → IsU32 n
    → txnum (new prefix n) ≡ ok n
unfolding txnum new
txnum-new prefix n h k =
    rw (slice_from-append prefix_len prefix (TxNum.serialize n) h) (deserialize-serialize n k)

-- Of the rows of one prefix, key order is chronological order.
pub bytes_le-new :
    (prefix : List ℕ) (m n : TxNum)
    → IsU32 m
    → IsU32 n
    → bytes_le (new prefix m).key (new prefix n).key ≡ leb m n
unfolding new TxNum.serialize
bytes_le-new prefix m n h k =
    rw (bytes_le-append_left prefix (u32_to_be_bytes m) (u32_to_be_bytes n))
      (bytes_le-to_be_bytes m n h k)

-- `starts_with` on a row compares whole prefixes.
pub starts_with-new :
    (p q : List ℕ) (n : TxNum) → length p ≡ length q → starts_with (new p n).key q ≡ bytes_eq p q
unfolding new starts_with bytes_eq
starts_with-new [] [] n h = refl
starts_with-new [] (y ∷ q) n h = absurd (omega arith)
starts_with-new (x ∷ p) [] n h = absurd (omega arith)
starts_with-new (x ∷ p) (y ∷ q) n h = ap (λ t. x == y && t) (starts_with-new p q n (omega arith))

pub new_prefix_ok :
    (hash : List ℕ) → prefix_len ≤ length hash → new_prefix hash ≡ ok (take prefix_len hash)
unfolding new_prefix slice_to
new_prefix_ok hash h = rw (le→leb prefix_len (length hash) h)

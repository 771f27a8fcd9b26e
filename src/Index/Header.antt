-- ===== src/Index/Header.antt =====
-- bindex-lib/src/index/header.rs: header rows in memory and in the database.
use bindex_rs.Common.{ℕ, ◌^◌, ◌≡◌, List, ◌++◌, ltb, ◌==◌}
use bindex_rs.Common.{slice_to, slice_from, slice}
use bindex_rs.Common.{Outcome, ok, err, panic, ◌>>=◌, ◌>>◌, assert, expect}
use bindex_rs.Common.Bytes.{u32_to_be_bytes, u32_from_be_bytes}
use bindex_rs.Fmt.{Format, bitcoin, liquid, prev_blockhash}
use bindex_rs.Index.TxNum
use bindex_rs.Index.TxNum.{TxNum}
pub mod RoundTrip

pub record IndexedHeader : Type 0 where
  pub height : ℕ
  pub next_txnum : TxNum
  pub hash : List ℕ
  pub prev_blockhash : List ℕ

-- `BLOCK_HASH_LEN`
abbrev pub hash_len : ℕ
hash_len = 32

-- `IndexedHeader::from_block`, on the bytes of the block's header.
unfoldable pub from_block : ℕ → TxNum → List ℕ → List ℕ → Outcome IndexedHeader
from_block height next_txnum hash header = elim (prev_blockhash header) [
  | ok prev ↦
      ok (record { height = height; next_txnum = next_txnum; hash = hash; prev_blockhash = prev })
  | err e ↦ panic
  | panic ↦ panic
]

unfoldable pub key : Format → IndexedHeader → List ℕ
key bitcoin h = TxNum.serialize h.next_txnum
key liquid h = u32_to_be_bytes h.height

-- Key and value of the header's row.
unfoldable pub serialize : Format → IndexedHeader → List ℕ → List ℕ × List ℕ
unfolding key
serialize bitcoin h raw_header = (key bitcoin h, h.hash ++ raw_header)
serialize liquid h raw_header =
    (key liquid h, TxNum.serialize h.next_txnum ++ (h.hash ++ h.prev_blockhash))

-- `position` is the row's place in key order.
unfoldable pub deserialize : Format → List ℕ → List ℕ → ℕ → Outcome IndexedHeader
deserialize bitcoin key value position = do
  next_txnum ← TxNum.deserialize key
  hash ← slice_to hash_len value
  raw ← slice_from hash_len value
  prev ← elim (prev_blockhash raw) [ ok p ↦ ok p | err e ↦ panic | panic ↦ panic ]
  assert (ltb position (2 ^ 32))
  ok (record { height = position; next_txnum = next_txnum; hash = hash; prev_blockhash = prev })
deserialize liquid key value position = do
  height ← expect (u32_from_be_bytes key)
  assert (height == position)
  number ← slice_to 4 value
  next_txnum ← TxNum.deserialize number
  hash ← slice 4 36 value
  prev ← slice 36 68 value
  ok (record { height = height; next_txnum = next_txnum; hash = hash; prev_blockhash = prev })

-- `raw_from_value`
unfoldable pub raw_from_value : List ℕ → Outcome (List ℕ)
raw_from_value value = slice_from hash_len value

pub from_block_ok :
    (height : ℕ) (next_txnum : TxNum) (hash raw prev : List ℕ)
    → prev_blockhash raw ≡ ok prev
    → from_block height next_txnum hash raw
      ≡ ok (record { height = height; next_txnum = next_txnum; hash = hash; prev_blockhash = prev })
unfolding from_block
from_block_ok height next_txnum hash raw prev e = rw (e, from_block)

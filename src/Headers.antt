-- ===== src/Headers.antt =====
-- bindex-lib/src/headers.rs: the chain of header rows in memory.
use bindex_rs.Common.{
  ℕ, suc, ◌+◌, ◌-◌, ◌%◌, ◌^◌, Option, none, some, List, [], ◌∷◌, ◌++◌, ltb, leb, ◌==◌,
  if◌then◌else◌,
}
use bindex_rs.Common.{length, get_elem?, replicate, get_last?, head?, without_last}
use bindex_rs.Common.{missing, stale, Outcome, ok, err, ◌>>=◌, ◌>>◌, assert, expect, ok_or}
use bindex_rs.Common.Bytes.{bytes_eq}
use bindex_rs.Index.TxNum
use bindex_rs.Index.TxNum.{TxNum}
use bindex_rs.Index.Header.{IndexedHeader}
pub mod Linked
pub mod Find

pub record Headers : Type 0 where
  pub rows : List IndexedHeader

-- `BlockHash::all_zeros()`
unfoldable pub all_zeros : List ℕ
all_zeros = replicate 32 0

-- The loop of `new`, from the row at `height`, whose parent has the hash `block_hash`.
check_rows : List ℕ → ℕ → List IndexedHeader → Outcome (Unit {0})
check_rows block_hash height [] = ok tt
check_rows block_hash height (row ∷ rows) = do
  assert (bytes_eq row.prev_blockhash block_hash)
  assert (row.height == height)
  check_rows row.hash (height + 1) rows

unfoldable pub new : List IndexedHeader → Outcome Headers
unfolding check_rows
new rows = do check_rows all_zeros 0 rows; ok (record { rows = rows })

unfoldable pub hash_or_zeros : Option IndexedHeader → List ℕ
hash_or_zeros none = all_zeros
hash_or_zeros (some h) = h.hash

unfoldable pub tip_hash : Headers → List ℕ
unfolding hash_or_zeros
tip_hash self = hash_or_zeros (get_last? self.rows)

unfoldable pub tip_height : Headers → Option ℕ
tip_height self = if leb 1 (length self.rows) then some (length self.rows - 1) else none

unfoldable pub add : Headers → IndexedHeader → Outcome Headers
unfolding tip_hash
add self tip = do
  assert (bytes_eq tip.prev_blockhash (tip_hash self))
  assert (tip.height == length self.rows)
  ok (record { rows = self.rows ++ tip ∷ [] })

-- What `pop` returns, and the chain that it leaves.
unfoldable pub pop : Headers → Option IndexedHeader × Headers
pop self = (get_last? self.rows, record { rows = without_last self.rows })

unfoldable pub tip : Headers → Option IndexedHeader
tip self = get_last? self.rows

unfoldable pub genesis : Headers → Option IndexedHeader
genesis self = head? self.rows

unfoldable pub header_at_height : Headers → ℕ → Option IndexedHeader
header_at_height self height = get_elem? self.rows height

unfoldable pub block_hash_at_height : Headers → ℕ → Option (List ℕ)
block_hash_at_height self height = elim (header_at_height self height) [
  | none ↦ none
  | some h ↦ some h.hash
]

unfoldable pub get_header : Headers → List ℕ → ℕ → Outcome IndexedHeader
get_header self hash height = do
  header ← ok_or (get_elem? self.rows height) (missing hash height)
  if bytes_eq header.hash hash then ok header else err (stale hash height)

-- `Location` of bindex-lib/src/lib.rs
pub record Location : Type 0 where
  pub txnum : TxNum
  pub block_height : ℕ
  pub block_offset : ℕ
  pub indexed_header : IndexedHeader

-- `rows.partition_point(|header| header.next_txnum() <= txnum)`: the rows before the first one
-- that fails the test.
partition_point : TxNum → List IndexedHeader → ℕ
partition_point txnum [] = 0
partition_point txnum (row ∷ rows) =
    let rest = partition_point txnum rows in if leb row.next_txnum txnum then suc rest else 0

-- `height - 1` on a `usize`, which wraps at 0 in a release build.
before : ℕ → ℕ
before height = (height + 2 ^ 64 - 1) % 2 ^ 64

txnum_or_default : Option IndexedHeader → TxNum
txnum_or_default none = 0
txnum_or_default (some h) = h.next_txnum

unfoldable pub find_by_txnum : Headers → TxNum → Outcome Location
unfolding partition_point before txnum_or_default
find_by_txnum self txnum = do
  let block_height = partition_point txnum self.rows
  indexed_header ← expect (get_elem? self.rows block_height)
  assert (ltb txnum indexed_header.next_txnum)
  let prev_txnum = txnum_or_default (get_elem? self.rows (before block_height))
  block_offset ← expect (TxNum.offset_from txnum prev_txnum)
  ok (record {
    txnum = txnum;
    block_height = block_height;
    block_offset = block_offset;
    indexed_header = indexed_header;
  })

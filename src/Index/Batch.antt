-- ===== src/Index/Batch.antt =====
-- `BlockBytes`, `SpentBytes` and `Batch` of bindex-lib/src/index/mod.rs: all rows of one block.
pub mod Build
use bindex_rs.Common.{ℕ, ◌^◌, List, ltb, ◌==◌}
use bindex_rs.Common.{slice_to, slice_from, slice}
use bindex_rs.Common.{Outcome, ok, err, panic, ◌>>=◌, ◌>>◌, assert, expect}
use bindex_rs.Fmt.{Format, bitcoin, Consensus, header_len}
use bindex_rs.Index.TxNum
use bindex_rs.Index.TxNum.{TxNumRange}
use bindex_rs.Index.Row.{HashPrefixRow}
use bindex_rs.Index.Header
use bindex_rs.Index.Header.{IndexedHeader}
use bindex_rs.Index.TxPos.{TxBlockPosRow}
use bindex_rs.Index.Visit.{Parser}
use bindex_rs.Index.ScriptHash
use bindex_rs.Index.TxId
use bindex_rs.Index.TxVisit

-- `BlockBytes(data, header length)`
pub record BlockBytes : Type 0 where
  pub bytes : List ℕ
  pub header_length : ℕ

unfoldable pub new_block : Format → Consensus → List ℕ → Outcome BlockBytes
new_block format c bytes = elim (header_len format c bytes) [
  | ok n ↦ ok (record { bytes = bytes; header_length = n })
  | err e ↦ panic
  | panic ↦ panic
]

unfoldable pub header : BlockBytes → Outcome (List ℕ)
header self = slice_to self.header_length self.bytes

-- `parse_txs_count`
unfoldable pub parse_txs_count : Parser → List ℕ → Outcome ℕ
parse_txs_count p slice = do (n, _) ← expect (p.scan_len slice); assert (ltb n (2 ^ 32)); ok n

-- `BlockBytes::txs_count`
unfoldable pub txs_count : Parser → BlockBytes → Outcome ℕ
txs_count p self = do tail ← slice_from self.header_length self.bytes; parse_txs_count p tail

pub record Batch : Type 0 where
  pub scripthash_rows : List HashPrefixRow
  pub txid_rows : List HashPrefixRow
  pub txpos_rows : List TxBlockPosRow
  pub header : IndexedHeader
  pub raw_header : List ℕ

-- `Batch::build` of the Bitcoin format.
unfoldable pub build : Parser → ℕ → TxNumRange → List ℕ → BlockBytes → List ℕ → Outcome Batch
build p height txnum_range blockhash block spent = do
  scripthash ← ScriptHash.index bitcoin p block.bytes spent txnum_range.first
  txpos ← TxVisit.index p block.bytes txnum_range.first
  txid ← TxId.index p block.bytes txnum_range.first
  assert (txnum_range.next == scripthash.txnum)
  assert (txnum_range.next == txpos.next_txnum)
  assert (txnum_range.next == txid.next_txnum)
  raw ← header block
  indexed ← Header.from_block height txnum_range.next blockhash raw
  ok (record {
    scripthash_rows = scripthash.rows;
    txid_rows = txid.rows;
    txpos_rows = txpos.rows;
    header = indexed;
    raw_header = raw;
  })

-- ===== src/Index/TxVisit.antt =====
-- The visitor of bindex-lib/src/index/txpos.rs: the positions of a block's transactions.
pub mod Positions
use bindex_rs.Common.{ℕ, ◌%◌, ◌^◌, List, [], ◌∷◌, ◌++◌, ◌==◌, if◌then◌else◌}
use bindex_rs.Common.{length}
use bindex_rs.Common.{parse, leftover, Outcome, ok, err, ◌>>=◌, ◌>>◌, ok_or}
use bindex_rs.Common.Words.{add32}
use bindex_rs.Index.TxNum
use bindex_rs.Index.TxNum.{TxNum}
use bindex_rs.Index.TxPos.{TxBlockPos, TxBlockPosRow, chunkify}
use bindex_rs.Index.Visit.{Event, block_begin, tx_out, transaction, Parser, visit_all}

-- `TxPosVisitor`
pub record TxPosVisitor : Type 0 where
  pub positions : List (TxNum × TxBlockPos)
  pub tx_num : TxNum
  pub tx_offset : ℕ

-- `Header::SIZE`
abbrev pub header_size : ℕ
header_size = 80

-- `IndexedBlock<TxBlockPosRow>`
pub record IndexedPositions : Type 0 where
  pub next_txnum : TxNum
  pub rows : List TxBlockPosRow

module _ (p : Parser) where
  unfoldable pub visit : TxPosVisitor → Event → Outcome TxPosVisitor
  visit self (block_begin n) =
      ok (record self { tx_offset = add32 self.tx_offset (p.var_int_size n % 2 ^ 32) })
  visit self (tx_out script) = ok self
  visit self (transaction raw txid) = do
    let tx_size = length raw % 2 ^ 32
    next ← TxNum.increment_by self.tx_num 1
    ok (record {
      positions =
          self.positions ++ (self.tx_num, record { offset = self.tx_offset; size = tx_size }) ∷ [];
      tx_num = next;
      tx_offset = add32 self.tx_offset tx_size;
    })

  unfoldable pub index : List ℕ → TxNum → Outcome IndexedPositions
  index block txnum = do
    visitor ←
        visit_all visit (record { positions = []; tx_num = txnum; tx_offset = header_size })
          (p.visit_block block).0
    remaining ← ok_or (p.visit_block block).1 parse
    rows ←
        if length remaining == 0
        then chunkify visitor.positions
        else err (leftover (length remaining))
    ok (record { next_txnum = visitor.tx_num; rows = rows })

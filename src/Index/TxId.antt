-- ===== src/Index/TxId.antt =====
-- bindex-lib/src/index/txid.rs: the rows that find a transaction by its id.
pub mod Rows
use bindex_rs.Common.{ℕ, List, [], ◌∷◌, ◌++◌, ◌==◌, if◌then◌else◌}
use bindex_rs.Common.{length}
use bindex_rs.Common.{parse, leftover, Outcome, ok, err, ◌>>=◌, ◌>>◌, ok_or}
use bindex_rs.Index.TxNum
use bindex_rs.Index.TxNum.{TxNum}
use bindex_rs.Index.Row
use bindex_rs.Index.Row.{HashPrefixRow}
use bindex_rs.Index.Visit.{Event, block_begin, tx_out, transaction, Parser, visit_all}

-- `IndexedBlock<HashPrefixRow>`
pub record IndexedBlock : Type 0 where
  pub next_txnum : TxNum
  pub rows : List HashPrefixRow

unfoldable pub visit : IndexedBlock → Event → Outcome IndexedBlock
visit self (block_begin n) = ok self
visit self (tx_out script) = ok self
visit self (transaction raw txid) = do
  prefix ← Row.new_prefix txid
  next ← TxNum.increment_by self.next_txnum 1
  ok (record { next_txnum = next; rows = self.rows ++ Row.new prefix self.next_txnum ∷ [] })

unfoldable pub index : Parser → List ℕ → TxNum → Outcome IndexedBlock
index p block txnum = do
  result ← visit_all visit (record { next_txnum = txnum; rows = [] }) (p.visit_block block).0
  remaining ← ok_or (p.visit_block block).1 parse
  if length remaining == 0 then ok result else err (leftover (length remaining))

-- ===== src/Index/ScriptHash.antt =====
-- bindex-lib/src/index/scripthash.rs: the rows that find a script's transactions.
pub mod Rows
pub mod Spent
use bindex_rs.Common.{
  ℕ, zero, suc, ◌+◌, Bool, false, ◌||◌, List, [], ◌∷◌, ◌++◌, ◌==◌, if◌then◌else◌,
}
use bindex_rs.Common.{length, slice_from, slice}
use bindex_rs.Common.{parse, leftover, Outcome, ok, err, ◌>>=◌, ◌>>◌, assert, ok_or}
use bindex_rs.Fmt.{Format, bitcoin, liquid}
use bindex_rs.Index.TxNum
use bindex_rs.Index.TxNum.{TxNum}
use bindex_rs.Index.Row
use bindex_rs.Index.Row.{HashPrefixRow}
use bindex_rs.Index.Visit.{Event, block_begin, tx_out, transaction, Parser, visit_all}

-- `IndexVisitor`
pub record IndexVisitor : Type 0 where
  pub rows : List HashPrefixRow
  pub txnum : TxNum

unfoldable pub finish_tx : IndexVisitor → Outcome IndexVisitor
finish_tx self = do n ← TxNum.increment_by self.txnum 1; ok (record self { txnum = n })

module _ (format : Format) (p : Parser) where
  -- Scripts that get no row: OP_RETURN outputs, and empty scripts on Liquid.
  unfoldable pub is_skipped : List ℕ → Bool
  is_skipped script =
      p.is_op_return script || elim format [ bitcoin ↦ false | liquid ↦ length script == 0 ]

  unfoldable pub add_script : List HashPrefixRow → TxNum → List ℕ → Outcome (List HashPrefixRow)
  add_script rows txnum script =
      if is_skipped script
      then ok rows
      else do prefix ← Row.new_prefix (p.sha256 script); ok (rows ++ Row.new prefix txnum ∷ [])

  unfoldable pub add : IndexVisitor → List ℕ → Outcome IndexVisitor
  add self script = do
    rows ← add_script self.rows self.txnum script
    ok (record self { rows = rows })

  -- The visitor's methods; the calls that it does not override do nothing.
  unfoldable pub visit : IndexVisitor → Event → Outcome IndexVisitor
  visit self (block_begin n) = ok self
  visit self (tx_out script) = add self script
  visit self (transaction raw txid) = finish_tx self

  -- `add_block_rows`, with the rows that it leaves.
  unfoldable pub add_block_rows : List ℕ → TxNum → List HashPrefixRow → Outcome IndexVisitor
  unfolding visit_all visit
  add_block_rows block txnum rows = do
    visitor ← visit_all visit (record { rows = rows; txnum = txnum }) (p.visit_block block).0
    remaining ← ok_or (p.visit_block block).1 parse
    if length remaining == 0 then ok visitor else err (leftover (length remaining))

  -- The inner loop of `visit_spent`, for `count` outputs from `consumed` on.
  unfoldable pub visit_outputs : ℕ → List ℕ → ℕ → IndexVisitor → Outcome (ℕ × IndexVisitor)
  visit_outputs zero slice consumed visitor = ok (consumed, visitor)
  visit_outputs (suc count) slice consumed visitor = do
    tail ← slice_from consumed slice
    (script, used) ← ok_or (p.tx_out_script tail) parse
    visitor' ← add visitor script
    visit_outputs count slice (consumed + used) visitor'

  -- The outer loop, for `count` transactions.
  unfoldable pub visit_txs : ℕ → List ℕ → ℕ → IndexVisitor → Outcome (ℕ × IndexVisitor)
  visit_txs zero slice consumed visitor = ok (consumed, visitor)
  visit_txs (suc count) slice consumed visitor = do
    tail ← slice_from consumed slice
    (outputs_count, used) ← ok_or (p.scan_len tail) parse
    (consumed', visitor') ← visit_outputs outputs_count slice (consumed + used) visitor
    visitor'' ← finish_tx visitor'
    visit_txs count slice consumed' visitor''

  -- What is left of the input, and the visitor.
  unfoldable pub visit_spent : List ℕ → IndexVisitor → Outcome (List ℕ × IndexVisitor)
  visit_spent slice visitor = do
    (txs_count, used) ← ok_or (p.scan_len slice) parse
    (consumed, visitor') ← visit_txs txs_count slice used visitor
    tail ← slice_from consumed slice
    ok (tail, visitor')

  unfoldable pub add_spent_rows : List ℕ → TxNum → List HashPrefixRow → Outcome IndexVisitor
  add_spent_rows spent txnum rows = do
    (remaining, visitor) ← visit_spent spent (record { rows = rows; txnum = txnum })
    if length remaining == 0 then ok visitor else err (leftover (length remaining))

  -- `scripthash::index`, with `next_txnum` as the visitor's `txnum`.
  unfoldable pub index : List ℕ → List ℕ → TxNum → Outcome IndexVisitor
  index block spent txnum = do
    v1 ← add_block_rows block txnum []
    v2 ← add_spent_rows spent txnum v1.rows
    assert (v1.txnum == v2.txnum)
    ok v2

-- ===== src/Index/TxId/Rows.antt =====
-- The visitor of txid.rs makes one row for each transaction of a block.
use bindex_rs.Common.{
  ℕ, suc, ◌+◌, ◌^◌, ◌<◌, ◌≡◌, refl, ◌∙◌, some, List, [], ◌∷◌, ◌++◌, map, append_assoc, append-nil,
  arith,
}
use bindex_rs.Common.{length, take, All}
use bindex_rs.Common.{ok}
use bindex_rs.Index.TxNum.{TxNum, increment_by_fits}
use bindex_rs.Index.Row
use bindex_rs.Index.Row.{HashPrefixRow, prefix_len, new_prefix_ok}
use bindex_rs.Index.Visit.{
  tx_out, transaction, Parser, visit_all, TxTrace, tx_events, txs_events, block_events,
  visit_all-append,
}
use bindex_rs.Index.TxId.{IndexedBlock, visit, index}

-- The row of each transaction, numbered from `n` on.
abbrev pub txid_rows : TxNum → List TxTrace → List HashPrefixRow
txid_rows n [] = []
txid_rows n (t ∷ ts) = Row.new (take prefix_len t.txid) n ∷ txid_rows (n + 1) ts

visit_outs :
    (s : IndexedBlock) (scripts : List (List ℕ)) → visit_all visit s (map tx_out scripts) ≡ ok s
unfolding visit_all visit
visit_outs s [] = refl
visit_outs s (x ∷ xs) = visit_outs s xs

abbrev state : TxNum → List HashPrefixRow → IndexedBlock
state n rows = record { next_txnum = n; rows = rows }

visit_tx :
    (rows : List HashPrefixRow) (n : TxNum) (t : TxTrace)
    → n + 1 < 2 ^ 32
    → length t.txid ≡ 32
    → visit_all visit (state n rows) (tx_events t)
      ≡ ok (state (n + 1) (rows ++ Row.new (take prefix_len t.txid) n ∷ []))
visit_tx rows n t hn h =
    visit_all-append visit (state n rows) (map tx_out t.scripts) (transaction t.raw t.txid ∷ [])
    ∙ rw (visit_outs (state n rows) t.scripts) (
        unfold visit_all visit in
        rw (new_prefix_ok t.txid (omega arith)) (rw (increment_by_fits n 1 hn)))

visit_txs :
    (rows : List HashPrefixRow) (n : TxNum) (ts : List TxTrace)
    → n + length ts < 2 ^ 32
    → All (λ t. length t.txid ≡ 32) ts
    → visit_all visit (state n rows) (txs_events ts)
      ≡ ok (state (n + length ts) (rows ++ txid_rows n ts))
visit_txs rows n [] hn h = unfold visit_all in let e : n + 0 ≡ n = omega arith in rw (append-nil, e)
visit_txs rows n (t ∷ ts) hn h =
    visit_all-append visit (state n rows) (tx_events t) (txs_events ts)
    ∙ rw (visit_tx rows n t (omega arith) h.0) (
        visit_txs (rows ++ Row.new (take prefix_len t.txid) n ∷ []) (n + 1) ts (omega arith) h.1
        ∙ together)
  where
    together :
        ok (
          state
            (n + 1 + length ts)
            ((rows ++ Row.new (take prefix_len t.txid) n ∷ []) ++ txid_rows (n + 1) ts))
        ≡ ok (state (n + length (t ∷ ts)) (rows ++ txid_rows n (t ∷ ts)))
    together = let e : n + 1 + length ts ≡ n + suc (length ts) = omega arith in rw (append_assoc, e)

-- The index of a block that was parsed whole has exactly the row of each of its transactions, in
-- order, and the number behind the last.
pub index_rows :
    (p : Parser) (block : List ℕ) (first : TxNum) (ts : List TxTrace)
    → (p.visit_block block).0 ≡ block_events ts
    → (p.visit_block block).1 ≡ some []
    → first + length ts < 2 ^ 32
    → All (λ t. length t.txid ≡ 32) ts
    → index p block first
      ≡ ok (record { next_txnum = first + length ts; rows = txid_rows first ts })
unfolding index
index_rows p block first ts events whole fits ids = rw (events) (rw (visited) (rw (whole)))
  where
    visited :
        visit_all visit (state first []) (block_events ts)
        ≡ ok (state (first + length ts) (txid_rows first ts))
    visited = first_event (visit_txs [] first ts fits ids)
      where
        first_event :
            visit_all visit (state first []) (txs_events ts)
              ≡ ok (state (first + length ts) (txid_rows first ts))
            → visit_all visit (state first []) (block_events ts)
              ≡ ok (state (first + length ts) (txid_rows first ts))
        first_event h = unfold visit_all visit in h

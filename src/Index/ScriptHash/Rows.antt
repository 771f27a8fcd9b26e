-- ===== src/Index/ScriptHash/Rows.antt =====
-- The rows that scripthash.rs makes for a block and for the outputs that it spends.
use bindex_rs.Common.{
  ℕ, suc, ◌+◌, ◌^◌, ◌<◌, ◌≡◌, ◌∙◌, inl, inr, some, List, [], ◌∷◌, ◌++◌, map, append_assoc,
  append-nil, arith, if◌then◌else◌, Bool-cases,
}
use bindex_rs.Common.{length, take}
use bindex_rs.Common.{ok}
use bindex_rs.Fmt.{Format}
use bindex_rs.Index.TxNum.{TxNum, increment_by_fits}
use bindex_rs.Index.Row
use bindex_rs.Index.Row.{HashPrefixRow, prefix_len, new_prefix_ok}
use bindex_rs.Index.Visit.{
  tx_out, transaction, Parser, IsHashing, visit_all, TxTrace, tx_events, txs_events, block_events,
  visit_all-append,
}
use bindex_rs.Index.ScriptHash.{
  IndexVisitor, is_skipped, add_script, add, finish_tx, visit, add_block_rows,
}

abbrev pub state : List HashPrefixRow → TxNum → IndexVisitor
state rows n = record { rows = rows; txnum = n }

module _ (format : Format) (p : Parser) where
  -- The rows of the scripts of the transaction numbered `n`: none for those that are skipped.
  unfoldable pub script_rows : TxNum → List (List ℕ) → List HashPrefixRow
  script_rows n [] = []
  script_rows n (s ∷ ss) =
      let rest = script_rows n ss in
      if is_skipped format p s then rest else Row.new (take prefix_len (p.sha256 s)) n ∷ rest

  -- Of lists of scripts, one for each transaction from `n` on.
  abbrev pub rows_of : TxNum → List (List (List ℕ)) → List HashPrefixRow
  rows_of n [] = []
  rows_of n (ss ∷ sss) = script_rows n ss ++ rows_of (n + 1) sss

module _ (format : Format) (p : Parser) (hashing : IsHashing p) where
  pub add_lem :
      (rows : List HashPrefixRow) (n : TxNum) (s : List ℕ)
      → add format p (state rows n) s ≡ ok (state (rows ++ script_rows format p n (s ∷ [])) n)
  unfolding add add_script script_rows
  add_lem rows n s = elim (Bool-cases (is_skipped format p s)) [
    | inl skipped ↦ rw (skipped, append-nil)
    | inr kept ↦ rw kept (rw (new_prefix_ok (p.sha256 s) (omega (arith, hashing.sha256_size s))))
  ]

  pub script_rows-cons :
      (n : TxNum) (s : List ℕ) (ss : List (List ℕ))
      → script_rows format p n (s ∷ ss)
        ≡ script_rows format p n (s ∷ []) ++ script_rows format p n ss
  unfolding script_rows
  script_rows-cons n s ss = elim (Bool-cases (is_skipped format p s)) [
    | inl skipped ↦ rw skipped
    | inr kept ↦ rw kept
  ]

  visit_outs :
      (rows : List HashPrefixRow) (n : TxNum) (ss : List (List ℕ))
      → visit_all (visit format p) (state rows n) (map tx_out ss)
        ≡ ok (state (rows ++ script_rows format p n ss) n)
  visit_outs rows n [] = unfold visit_all script_rows in rw append-nil
  visit_outs rows n (s ∷ ss) =
      one_out
      ∙ visit_outs (rows ++ script_rows format p n (s ∷ [])) n ss
      ∙ rw (append_assoc, ← script_rows-cons n s ss)
    where
      one_out :
          visit_all (visit format p) (state rows n) (map tx_out (s ∷ ss))
          ≡ visit_all
              (visit format p)
              (state (rows ++ script_rows format p n (s ∷ [])) n)
              (map tx_out ss)
      one_out = unfold visit_all visit in rw (add_lem rows n s)

  visit_block_txs :
      (rows : List HashPrefixRow) (n : TxNum) (ts : List TxTrace)
      → n + length ts < 2 ^ 32
      → visit_all (visit format p) (state rows n) (txs_events ts)
        ≡ ok (state (rows ++ rows_of format p n (map (λ t. t.scripts) ts)) (n + length ts))
  visit_block_txs rows n [] hn =
      unfold visit_all in let e : n + 0 ≡ n = omega arith in rw (append-nil, e)
  visit_block_txs rows n (t ∷ ts) hn =
      visit_all-append (visit format p) (state rows n) (tx_events t) (txs_events ts)
      ∙ rw one_tx (
          visit_block_txs (rows ++ script_rows format p n t.scripts) (n + 1) ts (omega arith)
          ∙ together)
    where
      one_tx :
          visit_all (visit format p) (state rows n) (tx_events t)
          ≡ ok (state (rows ++ script_rows format p n t.scripts) (n + 1))
      one_tx =
          visit_all-append (visit format p) (state rows n) (map tx_out t.scripts)
            (transaction t.raw t.txid ∷ [])
          ∙ rw (visit_outs rows n t.scripts)
              (unfold visit_all visit finish_tx in rw (increment_by_fits n 1 (omega arith)))

      together :
          ok (
            state
              ((rows ++ script_rows format p n t.scripts)
                ++ rows_of format p (n + 1) (map (λ u. u.scripts) ts))
              (n + 1 + length ts))
          ≡ ok (
              state
                (rows ++ rows_of format p n (map (λ u. u.scripts) (t ∷ ts)))
                (n + length (t ∷ ts)))
      together =
          let e : n + 1 + length ts ≡ n + suc (length ts) = omega arith in rw (append_assoc, e)

  -- The block rows are exactly those of the scripts that its transactions pay, in order, each under
  -- its transaction's number; skipped scripts have none.
  pub add_block_rows_lem :
      (block : List ℕ) (first : TxNum) (rows : List HashPrefixRow) (ts : List TxTrace)
      → (p.visit_block block).0 ≡ block_events ts
      → (p.visit_block block).1 ≡ some []
      → first + length ts < 2 ^ 32
      → add_block_rows format p block first rows
        ≡ ok (record {
          rows = rows ++ rows_of format p first (map (λ t. t.scripts) ts);
          txnum = first + length ts;
        })
  unfolding add_block_rows
  add_block_rows_lem block first rows ts events whole fits = rw events (rw begun (rw whole))
    where
      begun :
          visit_all (visit format p) (state rows first) (block_events ts)
          ≡ ok
              (state (rows ++ rows_of format p first (map (λ t. t.scripts) ts)) (first + length ts))
      begun = first_event (visit_block_txs rows first ts fits)
        where
          first_event :
              visit_all (visit format p) (state rows first) (txs_events ts)
                ≡ ok (
                    state
                      (rows ++ rows_of format p first (map (λ t. t.scripts) ts))
                      (first + length ts))
              → visit_all (visit format p) (state rows first) (block_events ts)
                ≡ ok (
                    state
                      (rows ++ rows_of format p first (map (λ t. t.scripts) ts))
                      (first + length ts))
          first_event h = unfold visit_all visit in h

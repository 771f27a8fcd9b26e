-- ===== src/Index/ScriptHash/Spent.antt =====
-- The spent outputs of a block are indexed to the last, and with the block's own they make its rows.
use bindex_rs.Common.{
  ℕ, suc, ◌+◌, ◌^◌, ◌≤◌, ◌<◌, ◌≡◌, ◌∙◌, some, List, [], ◌∷◌, ◌++◌, map, append_assoc, append-nil,
  arith, le→leb, ==_refl,
}
use bindex_rs.Common.{length, drop, length-drop, slice_from, slice}
use bindex_rs.Common.{Outcome, ok}
use bindex_rs.Fmt.{Format}
use bindex_rs.Index.TxNum.{TxNum, increment_by_fits}
use bindex_rs.Index.Visit.{Parser, IsHashing, TxTrace, block_events}
use bindex_rs.Index.ScriptHash.{
  IndexVisitor, finish_tx, visit_outputs, visit_txs, visit_spent, add_spent_rows, index,
}
use bindex_rs.Index.ScriptHash.Rows.{
  state, script_rows, rows_of, add_lem, script_rows-cons, add_block_rows_lem,
}

-- The parser finds the scripts in `slice`, one output behind the other, from `pos` to `end`.
abbrev pub OutputsAt : Parser → List ℕ → ℕ → List (List ℕ) → ℕ → Type 0
OutputsAt p slice pos [] end = pos ≡ end
OutputsAt p slice pos (s ∷ ss) end =
    (used : ℕ) × (pos ≤ length slice)
    × (p.tx_out_script (drop pos slice) ≡ some (s, used))
    × OutputsAt p slice (pos + used) ss end

-- And so for one transaction behind the other, each with its count of outputs.
abbrev pub TxsAt : Parser → List ℕ → ℕ → List (List (List ℕ)) → ℕ → Type 0
TxsAt p slice pos [] end = pos ≡ end
TxsAt p slice pos (ss ∷ sss) end =
    (used : ℕ) × (mid : ℕ) × (pos ≤ length slice)
    × (p.scan_len (drop pos slice) ≡ some (length ss, used))
    × OutputsAt p slice (pos + used) ss mid
    × TxsAt p slice mid sss end

-- The bytes list the scripts of the outputs that each transaction spends, and nothing else.
abbrev pub ListsSpent : Parser → List ℕ → List (List (List ℕ)) → Type 0
ListsSpent p slice sss =
    (used : ℕ) × (p.scan_len slice ≡ some (length sss, used))
    × TxsAt p slice used sss (length slice)

slice_from_ok :
    (pos : ℕ) (slice : List ℕ) → pos ≤ length slice → slice_from pos slice ≡ ok (drop pos slice)
unfolding slice_from
slice_from_ok pos slice h = rw (le→leb pos (length slice) h)

module _ (format : Format) (p : Parser) (hashing : IsHashing p) (slice : List ℕ) where
  visit_outputs_lem :
      (ss : List (List ℕ)) (pos end : ℕ) (rows : List _) (n : TxNum)
      → OutputsAt p slice pos ss end
      → visit_outputs format p (length ss) slice pos (state rows n)
        ≡ ok (end, state (rows ++ script_rows format p n ss) n)
  unfolding visit_outputs
  visit_outputs_lem [] pos end rows n h = unfold script_rows in rw (append-nil, h)
  visit_outputs_lem (s ∷ ss) pos end rows n (used, inside, found, others) =
      rw (slice_from_ok pos slice inside) (
        rw found (
          rw (add_lem format p hashing rows n s) (
            visit_outputs_lem ss (pos + used) end (rows ++ script_rows format p n (s ∷ [])) n others
            ∙ rw (append_assoc, ← script_rows-cons format p hashing n s ss))))

  visit_txs_lem :
      (sss : List (List (List ℕ))) (pos end : ℕ) (rows : List _) (n : TxNum)
      → TxsAt p slice pos sss end
      → n + length sss < 2 ^ 32
      → visit_txs format p (length sss) slice pos (state rows n)
        ≡ ok (end, state (rows ++ rows_of format p n sss) (n + length sss))
  unfolding visit_txs
  visit_txs_lem [] pos end rows n h hn = let e : n + 0 ≡ n = omega arith in rw (append-nil, h, e)
  visit_txs_lem (ss ∷ sss) pos end rows n (used, mid, inside, found, outputs, others) hn =
      rw (slice_from_ok pos slice inside) (
        rw found (
          rw (visit_outputs_lem ss (pos + used) mid rows n outputs) (
            rw finished (
              visit_txs_lem sss mid end (rows ++ script_rows format p n ss) (n + 1) others
                (omega arith)
              ∙ together))))
    where
      finished :
          finish_tx (state (rows ++ script_rows format p n ss) n)
          ≡ ok (state (rows ++ script_rows format p n ss) (n + 1))
      finished = unfold finish_tx in rw (increment_by_fits n 1 (omega arith))

      together :
          ◌≡◌ {A = Outcome (ℕ × IndexVisitor)}
            (ok (
              end,
              state
                  ((rows ++ script_rows format p n ss) ++ rows_of format p (n + 1) sss)
                  (n + 1 + length sss),
            ))
            (ok (end, state (rows ++ rows_of format p n (ss ∷ sss)) (n + length (ss ∷ sss))))
      together =
          let e : n + 1 + length sss ≡ n + suc (length sss) = omega arith in rw (append_assoc, e)

  add_spent_rows_lem :
      (sss : List (List (List ℕ))) (rows : List _) (n : TxNum)
      → ListsSpent p slice sss
      → n + length sss < 2 ^ 32
      → add_spent_rows format p slice n rows
        ≡ ok (state (rows ++ rows_of format p n sss) (n + length sss))
  unfolding add_spent_rows visit_spent
  add_spent_rows_lem sss rows n (used, found, txs) hn = rw found (
      rw (visit_txs_lem sss used (length slice) rows n txs hn)
        (rw (slice_from_ok (length slice) slice (omega arith)) (rw drained)))
    where
      drained : length (drop (length slice) slice) ≡ 0
      drained = omega (arith, length-drop (length slice) slice)

-- For a block of transactions `ts` whose spent outputs are `spent_scripts`, one list for each
-- transaction, the rows are exactly those of the scripts that each transaction pays and then those
-- of the scripts that each spends from, under the transaction's number, in either format; only
-- skipped scripts have no row.
pub index-rows_of :
    (format : Format) (p : Parser) (block spent : List ℕ) (first : TxNum) (ts : List TxTrace)
    (spent_scripts : List (List (List ℕ)))
    → IsHashing p
    → (p.visit_block block).0 ≡ block_events ts
    → (p.visit_block block).1 ≡ some []
    → ListsSpent p spent spent_scripts
    → length spent_scripts ≡ length ts
    → first + length ts < 2 ^ 32
    → index format p block spent first
      ≡ ok (record {
        rows =
            rows_of format p first (map (λ t. t.scripts) ts)
            ++ rows_of format p first spent_scripts;
        txnum = first + length ts;
      })
unfolding index
index-rows_of format p block spent first ts spent_scripts hashing events whole lists same fits =
    rw (add_block_rows_lem format p hashing block first [] ts events whole fits) (
      rw
        (add_spent_rows_lem format p hashing spent spent_scripts
          (rows_of format p first (map (λ t. t.scripts) ts)) first lists (omega arith))
        (rw same (rw (==_refl (first + length ts)))))

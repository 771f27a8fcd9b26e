-- ===== src/Index/TxVisit/Positions.antt =====
-- The visitor of txpos.rs lists every transaction of a block at its place.
use bindex_rs.Common.{
  ℕ, zero, suc, ◌+◌, ◌%◌, ◌^◌, ◌<◌, ◌≡◌, refl, ap, ◌∙◌, some, List, [], ◌∷◌, ◌++◌, map,
  append_assoc, append-nil, arith, some_inj,
}
use bindex_rs.Common.{length, get_elem?, take}
use bindex_rs.Common.{ok}
use bindex_rs.Common.Words.{add32_fits}
use bindex_rs.Index.TxNum.{TxNum, increment_by_fits}
use bindex_rs.Index.TxPos.{TxBlockPos, TxBlockPosRow, chunkify, get_tx_block_pos}
use bindex_rs.Index.TxPos.Lookup.{Contiguous, Fit, first_from, chunkify_lookup}
use bindex_rs.Index.Visit.{
  tx_out, transaction, Parser, visit_all, TxTrace, tx_events, txs_events, block_events,
  visit_all-append,
}
use bindex_rs.Index.TxVisit.{TxPosVisitor, header_size, visit, index}

-- The size of the transactions together.
abbrev pub total_size : List TxTrace → ℕ
total_size [] = 0
total_size (t ∷ ts) = length t.raw + total_size ts

-- The transactions numbered from `n` on, one behind the other from `offset` on.
abbrev pub positions_of : TxNum → ℕ → List TxTrace → List (TxNum × TxBlockPos)
positions_of n offset [] = []
positions_of n offset (t ∷ ts) =
    (n, record { offset = offset; size = length t.raw })
    ∷ positions_of (n + 1) (offset + length t.raw) ts

Contiguous-positions_of : (n offset : ℕ) (ts : List TxTrace) → Contiguous (positions_of n offset ts)
Contiguous-positions_of n offset [] = tt
Contiguous-positions_of n offset (t ∷ []) = tt
Contiguous-positions_of n offset (t ∷ u ∷ ts) =
    (refl, refl, Contiguous-positions_of (n + 1) (offset + length t.raw) (u ∷ ts))

Fit-positions_of :
    (n offset : ℕ) (ts : List TxTrace)
    → offset + total_size ts < 2 ^ 32
    → Fit (positions_of n offset ts)
Fit-positions_of n offset [] h = tt
Fit-positions_of n offset (t ∷ ts) h =
    (omega arith, Fit-positions_of (n + 1) (offset + length t.raw) ts (omega arith))

abbrev state : List (TxNum × TxBlockPos) → TxNum → ℕ → TxPosVisitor
state positions n offset = record { positions = positions; tx_num = n; tx_offset = offset }

module _ (p : Parser) where
  visit_outs :
      (s : TxPosVisitor) (scripts : List (List ℕ))
      → visit_all (visit p) s (map tx_out scripts) ≡ ok s
  unfolding visit_all visit
  visit_outs s [] = refl
  visit_outs s (x ∷ xs) = visit_outs s xs

  visit_tx :
      (positions : List (TxNum × TxBlockPos)) (n offset : ℕ) (t : TxTrace)
      → n + 1 < 2 ^ 32
      → offset + length t.raw < 2 ^ 32
      → visit_all
          (visit p)
          (record { positions = positions; tx_num = n; tx_offset = offset })
          (tx_events t)
        ≡ ok (record {
          positions = positions ++ (n, record { offset = offset; size = length t.raw }) ∷ [];
          tx_num = n + 1;
          tx_offset = offset + length t.raw;
        })
  visit_tx positions n offset t hn ho =
      visit_all-append (visit p) start (map tx_out t.scripts) (transaction t.raw t.txid ∷ [])
      ∙ rw (visit_outs start t.scripts) last_step
    where
      start : TxPosVisitor
      start = record { positions = positions; tx_num = n; tx_offset = offset }

      size : length t.raw % 2 ^ 32 ≡ length t.raw
      size = omega arith

      last_step :
          visit_all (visit p) start (transaction t.raw t.txid ∷ [])
          ≡ ok (record {
            positions = positions ++ (n, record { offset = offset; size = length t.raw }) ∷ [];
            tx_num = n + 1;
            tx_offset = offset + length t.raw;
          })
      last_step =
          unfold visit_all visit in
          rw (increment_by_fits n 1 hn) (rw size (rw (add32_fits offset (length t.raw) ho)))

  visit_txs :
      (positions : List (TxNum × TxBlockPos)) (n offset : ℕ) (ts : List TxTrace)
      → n + length ts < 2 ^ 32
      → offset + total_size ts < 2 ^ 32
      → visit_all
          (visit p)
          (record { positions = positions; tx_num = n; tx_offset = offset })
          (txs_events ts)
        ≡ ok (record {
          positions = positions ++ positions_of n offset ts;
          tx_num = n + length ts;
          tx_offset = offset + total_size ts;
        })
  visit_txs positions n offset [] hn ho =
      unfold visit_all in
      let e : n + 0 ≡ n = omega arith in
      let f : offset + 0 ≡ offset = omega arith in rw (append-nil, e, f)
  visit_txs positions n offset (t ∷ ts) hn ho =
      visit_all-append (visit p) (record { positions = positions; tx_num = n; tx_offset = offset })
        (tx_events t) (txs_events ts)
      ∙ rw (visit_tx positions n offset t (omega arith) (omega arith)) (
          visit_txs (positions ++ (n, record { offset = offset; size = length t.raw }) ∷ []) (n + 1)
            (offset + length t.raw) ts (omega arith) (omega arith)
          ∙ together)
    where
      together :
          ok (
            state
              ((positions ++ (n, record { offset = offset; size = length t.raw }) ∷ [])
                ++ positions_of (n + 1) (offset + length t.raw) ts)
              (n + 1 + length ts)
              (offset + length t.raw + total_size ts))
          ≡ ok (
              state
                (positions ++ positions_of n offset (t ∷ ts))
                (n + length (t ∷ ts))
                (offset + total_size (t ∷ ts)))
      together =
          let e : n + 1 + length ts ≡ n + suc (length ts) = omega arith in
          let f : offset + length t.raw + total_size ts ≡ offset + (length t.raw + total_size ts) =
            omega arith in
          rw (append_assoc, e, f)

positions_at :
    (n offset : ℕ) (ts : List TxTrace) (k : ℕ) (t : TxTrace)
    → get_elem? ts k ≡ some t
    → get_elem? (positions_of n offset ts) k
      ≡ some (n + k, record { offset = offset + total_size (take k ts); size = length t.raw })
positions_at n offset [] k t e = cc
positions_at n offset (u ∷ ts) zero t e =
    let same : u ≡ t = some_inj e in
    let a : n + 0 ≡ n = omega arith in
    let b : offset + 0 ≡ offset = omega arith in
    rw (a, b) (ap (λ x. some (n, record { offset = offset; size = length x.raw })) same)
positions_at n offset (u ∷ ts) (suc k) t e =
    let a : n + suc k ≡ n + 1 + k = omega arith in
    let b : offset + (length u.raw + total_size (take k ts))
        ≡ offset + length u.raw + total_size (take k ts) =
      omega arith in
    rw (a, b) (positions_at (n + 1) (offset + length u.raw) ts k t e)

-- A block whose visit shows the transactions `ts` and leaves nothing over, small enough for 32-bit
-- offsets and numbers.
pub record IsVisited (p : Parser) (block : List ℕ) (first : TxNum) (ts : List TxTrace)
    : Type 0 where
  pub events : (p.visit_block block).0 ≡ block_events ts
  pub whole : (p.visit_block block).1 ≡ some []
  pub numbers_fit : first + length ts < 2 ^ 32
  pub offsets_fit : header_size + p.var_int_size (length ts) + total_size ts < 2 ^ 32

module _ (p : Parser) (block : List ℕ) (first : TxNum) (ts : List TxTrace)
    (v : IsVisited p block first ts) where
  -- Where the transactions begin.
  abbrev start : ℕ
  start = header_size + p.var_int_size (length ts)

  visited :
      visit_all
        (visit p)
        (record { positions = []; tx_num = first; tx_offset = header_size })
        (p.visit_block block).0
      ≡ ok (record {
        positions = positions_of first start ts;
        tx_num = first + length ts;
        tx_offset = start + total_size ts;
      })
  visited =
      rw (v.events) (begin_block (visit_txs p [] first start ts (v.numbers_fit) (v.offsets_fit)))
    where
      begin_block :
          visit_all (visit p) (state [] first start) (txs_events ts)
            ≡ ok (state (positions_of first start ts) (first + length ts) (start + total_size ts))
          → visit_all (visit p) (state [] first header_size) (block_events ts)
            ≡ ok (state (positions_of first start ts) (first + length ts) (start + total_size ts))
      begin_block h =
          let fit = v.offsets_fit in
          let z : p.var_int_size (length ts) % 2 ^ 32 ≡ p.var_int_size (length ts) = omega arith in
          unfold visit_all visit in
          rw (z, add32_fits header_size (p.var_int_size (length ts)) (omega arith)) h

  -- The index of such a block succeeds, and for each transaction the row that a scan from its
  -- number meets first gives the transaction's offset behind the header, the count and the
  -- transactions before it, and its size.
  pub index_lookup :
      (k : ℕ) (t : TxTrace)
      → get_elem? ts k ≡ some t
      → (rows : List TxBlockPosRow) × (row : TxBlockPosRow) × (index p block first
          ≡ ok (record { next_txnum = first + length ts; rows = rows }))
        × (first_from (first + k) rows ≡ some row)
        × (get_tx_block_pos row (first + k)
            ≡ ok (record {
              offset = header_size + p.var_int_size (length ts) + total_size (take k ts);
              size = length t.raw;
            }))
  index_lookup k t e =
      let (rows, row, made, first_row, found) =
        chunkify_lookup (positions_of first start ts) k
          (first + k, record { offset = start + total_size (take k ts); size = length t.raw })
          (Contiguous-positions_of first start ts) (Fit-positions_of first start ts (v.offsets_fit))
          (positions_at first start ts k t e) in
      (rows, row, indexed rows made, first_row, found)
    where
      indexed :
          (rows : List TxBlockPosRow)
          → chunkify (positions_of first start ts) ≡ ok rows
          → index p block first ≡ ok (record { next_txnum = first + length ts; rows = rows })
      indexed rows made = unfold index in rw visited (rw (v.whole) (rw made))

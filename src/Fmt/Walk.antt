-- ===== src/Fmt/Walk.antt =====
-- `walk_block` lists the transactions that tile the block.
use bindex_rs.Common.{
  ℕ, zero, suc, ◌+◌, ◌%◌, ◌^◌, ◌≤◌, ◌<◌, ◌≡◌, refl, sym, ap, subst, some, List, [], ◌∷◌, arith,
  ◌==◌, if◌then◌else◌,
}
use bindex_rs.Common.{length, drop, slice_from}
use bindex_rs.Common.{decode, malformed, ok, err, ◌>>=◌, ok_or, ok_inj, >>=-eq-ok, ok_or-eq-ok}
use mathlib.Core.Path.{subst₂}
use bindex_rs.Fmt.{Format, Consensus, DecodedTx, TxSummary, header_len, walk_loop, walk_block}

module _ (c : Consensus) (block : List ℕ) where
  -- The summaries of adjacent transactions from `pos` to `end`, each of what the decoder finds there.
  abbrev pub Tiles : ℕ → List TxSummary → ℕ → Type 0
  Tiles pos [] end = pos ≡ end
  Tiles pos (t ∷ ts) end =
      (t.offset ≡ pos)
      × (c.transaction (drop pos block)
          ≡ some (record { txid = t.txid; scripts = t.scripts; used = t.size }))
      × Tiles (pos + t.size) ts end

slice_from_inv :
    (pos : ℕ) (block tail : List ℕ) → slice_from pos block ≡ ok tail → tail ≡ drop pos block
unfolding slice_from
slice_from_inv pos block tail e = ground arith

-- The summary that a round pushes, before the casts to `u32` are known to be exact.
abbrev summary : ℕ → DecodedTx → TxSummary
summary pos tx = record {
  txid = tx.txid;
  offset = pos % 2 ^ 32;
  size = tx.used % 2 ^ 32;
  scripts = tx.scripts;
}

tile :
    (c : Consensus) (count pos end : ℕ) (block : List ℕ) (tx : DecodedTx) (ts : List TxSummary)
    → c.transaction (drop pos block) ≡ some tx
    → (pos + tx.used ≤ end)
      × (end < 2 ^ 32 → (length ts ≡ count) × Tiles c block (pos + tx.used) ts end)
    → (pos ≤ end)
      × (end < 2 ^ 32
          → (length (summary pos tx ∷ ts) ≡ suc count)
            × Tiles c block pos (summary pos tx ∷ ts) end)
tile c count pos end block tx ts at (le, tiles) = (omega arith, fits)
  where
    fits :
        end < 2 ^ 32
        → (length (summary pos tx ∷ ts) ≡ suc count) × Tiles c block pos (summary pos tx ∷ ts) end
    fits small =
        let (len, rest) = tiles small in
        let o : pos % 2 ^ 32 ≡ pos = omega arith in
        let s : tx.used % 2 ^ 32 ≡ tx.used = omega arith in
        (ap suc len, (o, rw s at_exact, rw s rest))
      where
        at_exact :
            c.transaction (drop pos block)
            ≡ some (record { txid = tx.txid; scripts = tx.scripts; used = tx.used })
        at_exact = at

walk_loop_step :
    (c : Consensus) (count pos : ℕ) (block : List ℕ) (r : List TxSummary × ℕ)
    → walk_loop c (suc count) pos block ≡ ok r
    → (tx : DecodedTx) × (r' : List TxSummary × ℕ) × (c.transaction (drop pos block) ≡ some tx)
      × (walk_loop c count (pos + tx.used) block ≡ ok r')
      × (r ≡ (summary pos tx ∷ r'.0, r'.1))
unfolding walk_loop
walk_loop_step c count pos block r e =
    let (tail, e1, k1) = >>=-eq-ok (slice_from pos block) _ e in
    after_slice tail (slice_from_inv pos block tail e1) k1
  where
    after_walk :
        (tx : DecodedTx)
        → c.transaction (drop pos block) ≡ some tx
        → (r' : List TxSummary × ℕ) → walk_loop c count (pos + tx.used) block ≡ ok r'
        → ok (summary pos tx ∷ r'.0, r'.1) ≡ ok r
        → (tx : DecodedTx) × (r' : List TxSummary × ℕ) × (c.transaction (drop pos block) ≡ some tx)
          × (walk_loop c count (pos + tx.used) block ≡ ok r')
          × (r ≡ (summary pos tx ∷ r'.0, r'.1))
    after_walk tx at r' e3 k3 = (tx, r', at, e3, sym (ok_inj k3))

    after_slice :
        (tail : List ℕ)
        → tail ≡ drop pos block
        → (ok_or (c.transaction tail) decode >>= λ tx.
            walk_loop c count (pos + tx.used) block >>= λ r'. ok (summary pos tx ∷ r'.0, r'.1))
          ≡ ok r
        → (tx : DecodedTx) × (r' : List TxSummary × ℕ) × (c.transaction (drop pos block) ≡ some tx)
          × (walk_loop c count (pos + tx.used) block ≡ ok r')
          × (r ≡ (summary pos tx ∷ r'.0, r'.1))
    after_slice tail is_tail k1 =
        let (tx, e2, k2) = >>=-eq-ok (ok_or (c.transaction tail) decode) _ k1 in
        let at =
          subst (λ t. c.transaction t ≡ some tx) is_tail
            (ok_or-eq-ok (c.transaction tail) decode e2) in
        let (r', e3, k3) = >>=-eq-ok (walk_loop c count (pos + tx.used) block) _ k2 in
        after_walk tx at r' e3 k3

walk_loop_none :
    (c : Consensus) (pos : ℕ) (block : List ℕ) (txs : List TxSummary) (end : ℕ)
    → walk_loop c zero pos block ≡ ok (txs, end)
    → (txs ≡ []) × (pos ≡ end)
unfolding walk_loop
walk_loop_none c pos block txs end e = ground (arith, e)

walk_loop-Tiles :
    (c : Consensus) (count pos : ℕ) (block : List ℕ) (txs : List TxSummary) (end : ℕ)
    → walk_loop c count pos block ≡ ok (txs, end)
    → (pos ≤ end) × (end < 2 ^ 32 → (length txs ≡ count) × Tiles c block pos txs end)
walk_loop-Tiles c zero pos block txs end e =
    let (same_txs, same_end) = walk_loop_none c pos block txs end e in
    (ground arith, λ small. rw same_txs (refl, same_end))
walk_loop-Tiles c (suc count) pos block txs end e =
    let (tx, r, at, rest, shape) = walk_loop_step c count pos block (txs, end) e in
    let same_txs : txs ≡ summary pos tx ∷ r.0 = ap (λ p. p.0) shape in
    let same_end : end ≡ r.1 = ap (λ p. p.1) shape in
    subst₂ (λ t n. (pos ≤ n) × (n < 2 ^ 32 → (length t ≡ suc count) × Tiles c block pos t n))
      (sym same_txs) (sym same_end)
      (tile c count pos r.1 block tx r.0 at
        (walk_loop-Tiles c count (pos + tx.used) block r.0 r.1 rest))

walk_block_end :
    (end len : ℕ) (block : List ℕ) (txs : List TxSummary) (r : ℕ × List TxSummary)
    → (if end == length block then ok (len, txs) else err malformed) ≡ ok r
    → (end ≡ length block) × (r.0 ≡ len) × (r.1 ≡ txs)
walk_block_end end len block txs r e = ground arith

-- What a success of `walk_block` means: a count and a first position were read behind the header,
-- and so many transactions tile the block from there to its end.
abbrev pub Walked : Format → Consensus → List ℕ → ℕ → List TxSummary → Type 0
Walked format c block len txs =
    (count : ℕ) × (used : ℕ) × (header_len format c block ≡ ok len)
    × (c.var_int (drop len block) ≡ some (count, used))
    × (length txs ≡ count)
    × Tiles c block (len + used) txs (length block)

module _ (format : Format) (c : Consensus) (block : List ℕ) (small : length block < 2 ^ 32) where
  after_count :
      (len : ℕ) (n : ℕ × ℕ) (r : ℕ × List TxSummary)
      → header_len format c block ≡ ok len
      → c.var_int (drop len block) ≡ some n
      → (walk_loop c n.0 (len + n.1) block >>= λ w.
          if w.1 == length block then ok (len, w.0) else err malformed)
        ≡ ok r
      → Walked format c block r.0 r.1
  after_count len n r el en e =
      let (w, walked, k) = >>=-eq-ok (walk_loop c n.0 (len + n.1) block) _ e in
      let (at_end, is_len, is_txs) = walk_block_end w.1 len block w.0 r k in
      let (_, tiles) = walk_loop-Tiles c n.0 (len + n.1) block w.0 w.1 walked in
      let (count, all) = tiles (rw at_end small) in
      subst₂ (λ l t. Walked format c block l t) (sym is_len) (sym is_txs)
        (n.0, n.1, el, en, count, subst (λ t. Tiles c block (len + n.1) w.0 t) at_end all)

  after_len :
      (len : ℕ) (tail : List ℕ) (r : ℕ × List TxSummary)
      → header_len format c block ≡ ok len
      → tail ≡ drop len block
      → (ok_or (c.var_int tail) decode >>= λ n. walk_loop c n.0 (len + n.1) block >>= λ w.
          if w.1 == length block then ok (len, w.0) else err malformed)
        ≡ ok r
      → Walked format c block r.0 r.1
  after_len len tail r el is_tail e =
      let (n, en, k) = >>=-eq-ok (ok_or (c.var_int tail) decode) _ e in
      after_count len n r el
        (subst (λ t. c.var_int t ≡ some n) is_tail (ok_or-eq-ok (c.var_int tail) decode en)) k

  -- On a block below 2^32 bytes: when `walk_block` succeeds, the transactions that it lists are as
  -- many as the block announces, lie one behind the other from behind the count to the end of the
  -- block, and are what the decoder finds at their offsets.
  pub walk_block_tiles :
      (len : ℕ) (txs : List TxSummary)
      → walk_block format c block ≡ ok (len, txs)
      → Walked format c block len txs
  unfolding walk_block
  walk_block_tiles len txs e =
      let (n, el, k) = >>=-eq-ok (header_len format c block) _ e in
      let (tail, et, k') = >>=-eq-ok (slice_from n block) _ k in
      after_len n tail (len, txs) el (slice_from_inv n block tail et) k'

-- ===== src/Electrum/History/Refines.antt =====
-- `script_history` of bindex-electrum/src/chain.rs, with its cache, against the fold over everything.
use bindex_rs.Common.{
  ℕ, zero, suc, ◌+◌, ◌≤◌, ◌<◌, ◌≡◌, refl, sym, ap, ◌∙◌, subst, fun_ext, inl, inr, Option, none,
  some, List, [], ◌∷◌, map, arith, some_inj, Bool-cases, Option-cases,
}
use bindex_rs.Common.{drop}
use bindex_rs.Common.{Outcome, ok, err, panic, ◌>>=◌, ok_inj, Outcome-cases}
use bindex_rs.Common.Bytes.{bytes_eq}
use bindex_rs.Index.TxPos.{VarInt}
use bindex_rs.Index.Visit.{Parser}
use bindex_rs.Db.Store.{Store}
use bindex_rs.Headers
use bindex_rs.Chain.Reads.{TxBytesRef}
use bindex_rs.Electrum.Mempool.{ScriptHash}
use bindex_rs.Electrum.Fold.{ParsedTx, Fold, ScriptHistory, empty_fold, apply, finish}
use bindex_rs.Electrum.ScriptCache.{ScriptCache, get}
use bindex_rs.Electrum.ScriptCache.Entries.{Each-get, Each-put}
use bindex_rs.Electrum.History.{script_refs}
use bindex_rs.Electrum.History.Fetched.{Serves}
use bindex_rs.Electrum.History.Sound.{whole_fold, IsFolded, IsSound}
use bindex_rs.Electrum.History.Batches.{fetch_tail-served}
use bindex_rs.Electrum.History.Resumed.{IsHistory, Continues, resume-Continues}
use bindex_rs.Electrum.History.Cached.{
  Round, Resume, answer, fold_on, resume, fetch_tail, apply_all, settle, fold_tail, history_round,
  history_rounds, script_history,
}

module _ (v : VarInt) (p : Parser) (s : Store) (parse_tx : List ℕ → Outcome ParsedTx)
    (from_script : List ℕ → ScriptHash) (body : TxBytesRef → List ℕ) (k : ScriptHash) where
  pub apply_all-map :
      (fold : Fold) (refs : List TxBytesRef)
      → apply_all v p s parse_tx from_script fold k refs (map body refs)
        ≡ whole_fold parse_tx from_script body k fold refs
  unfolding apply_all whole_fold
  apply_all-map fold [] = refl
  apply_all-map fold (r ∷ refs) =
      ap (λ rest. apply from_script parse_tx fold k r (body r) >>= rest)
        (fun_ext (λ (f : Fold). apply_all-map f refs))

  -- A step of the query keeps the cache sound, and a history that it returns has `Q`.
  abbrev Keeps : (ScriptHistory → Type 0) → Option (Outcome ScriptHistory) × ScriptCache → Type 0
  Keeps Q after =
      IsSound parse_tx from_script body after.1
      × ((history : ScriptHistory) → after.0 ≡ some (ok history) → Q history)

  settle-Keeps :
      (cache : ScriptCache) (refs : List TxBytesRef) (result : Outcome Fold)
      → IsSound parse_tx from_script body cache
      → whole_fold parse_tx from_script body k empty_fold refs ≡ result
      → Keeps
          (IsHistory parse_tx from_script body k refs)
          (settle v p s parse_tx from_script cache k refs result)
  unfolding settle
  settle-Keeps cache refs (err e) sound folded = (sound, λ history h. cc)
  settle-Keeps cache refs panic sound folded = (sound, λ history h. cc)
  settle-Keeps cache refs (ok fold) sound folded = (
    Each-put (λ j cached. IsFolded parse_tx from_script body j cached) cache k
        (record { refs = refs; fold = fold; history = finish fold }) sound
        (record { folded = folded; finished = refl }),
    λ history h. (fold, folded, sym (ok_inj (some_inj h))),
  )

  fold_tail-Keeps :
      (r : Round v p s) (cache : ScriptCache) (tip : List ℕ) (refs : List TxBytesRef)
      (from : Resume)
      → Serves body r.block_part
      → IsSound parse_tx from_script body cache
      → Continues parse_tx from_script body k refs from
      → Keeps
          (IsHistory parse_tx from_script body k refs)
          (fold_tail v p s parse_tx from_script r cache k tip refs from)
  unfolding fold_tail
  fold_tail-Keeps r cache tip refs (answer known) serves sound goes = (
    sound,
    λ history h. subst (IsHistory parse_tx from_script body k refs) (ok_inj (some_inj h)) goes,
  )
  fold_tail-Keeps r cache tip refs (fold_on fold start) serves sound goes =
      elim (Outcome-cases (fetch_tail v p s r refs start)) [
        | inr (inl (e, h)) ↦ rw (h, fold_tail) (sound, λ history g. cc)
        | inr (inr h) ↦ rw (h, fold_tail) (sound, λ history g. cc)
        | inl (raws, h) ↦ elim (Bool-cases (bytes_eq (Headers.tip_hash r.at_end.headers) tip)) [
          | inr f ↦ rw (h, fold_tail) (rw f (sound, λ history g. cc))
          | inl t ↦
              let bodies = fetch_tail-served v p s body r refs start raws serves h in
              let folded =
                goes
                ∙ sym (apply_all-map fold (drop start refs))
                ∙ ap (apply_all v p s parse_tx from_script fold k (drop start refs)) (sym bodies) in
              rw (h, fold_tail)
                (rw t (
                  settle-Keeps cache refs
                    (apply_all v p s parse_tx from_script fold k (drop start refs) raws) sound
                    folded))
        ]
      ]

  -- A history of the references that the index lists at the start of a round.
  abbrev pub IsListed : Round v p s → ScriptHistory → Type 0
  IsListed r history =
      (tip : List ℕ) × (refs : List TxBytesRef) × (script_refs v p s r.at_start k none
        ≡ ok (tip, refs))
      × IsHistory parse_tx from_script body k refs history

  history_round-Keeps :
      (r : Round v p s) (cache : ScriptCache)
      → Serves body r.block_part
      → IsSound parse_tx from_script body cache
      → Keeps (IsListed r) (history_round v p s parse_tx from_script r cache k)
  unfolding history_round
  history_round-Keeps r cache serves sound =
      elim (Outcome-cases (script_refs v p s r.at_start k none)) [
        | inr (inl (e, h)) ↦ rw (h, history_round) (sound, λ history g. cc)
        | inr (inr h) ↦ rw (h, history_round) (sound, λ history g. cc)
        | inl ((tip, refs), h) ↦
            let (kept, good) =
              Each-get (λ j cached. IsFolded parse_tx from_script body j cached) cache k sound in
            let (kept', is) =
              fold_tail-Keeps r (get cache k).1 tip refs (resume refs (get cache k).0) serves kept
                (resume-Continues parse_tx from_script body k refs (get cache k).0 good) in
            rw (h, history_round) (kept', λ history g. (tip, refs, refl, is history g))
      ]

  history_rounds_lem :
      (rounds : ℕ → Round v p s) (retries i : ℕ) (cache : ScriptCache)
      → ((j : ℕ) → Serves body (rounds j).block_part)
      → IsSound parse_tx from_script body cache
      → IsSound parse_tx from_script body
          (history_rounds v p s parse_tx from_script rounds retries i cache k).1
        × ((history : ScriptHistory)
            → (history_rounds v p s parse_tx from_script rounds retries i cache k).0 ≡ ok history
            → (j : ℕ) × (i ≤ j) × (j < i + retries) × IsListed (rounds j) history)
  unfolding history_rounds
  history_rounds_lem rounds zero i cache serves sound = (sound, λ history h. cc)
  history_rounds_lem rounds (suc retries) i cache serves sound =
      let after = history_round v p s parse_tx from_script (rounds i) cache k in
      let (kept, is) = history_round-Keeps (rounds i) cache (serves i) sound in
      elim (Option-cases after.0) [
        | inr (result, h) ↦
            rw (h, history_rounds)
              (kept, λ history g. (i, omega arith, omega arith, is history (h ∙ ap some g)))
        | inl h ↦
            let (sound', found) = history_rounds_lem rounds retries (suc i) after.1 serves kept in
            rw (h, history_rounds)
              (
                sound',
                λ history g. let (j, a, b, l) = found history g in (j, omega arith, omega arith, l),
              )
      ]

  module _ (rounds : ℕ → Round v p s) (cache : ScriptCache)
      (serves : (j : ℕ) → Serves body (rounds j).block_part)
      (sound : IsSound parse_tx from_script body cache) where
    -- A history that the query returns, from the cache or not, is the one that folding all the
    -- transactions gives that the index lists for the script at the start of one of its three rounds,
    -- when each cached fold is right and the node serves no other bodies than the referenced ones.
    pub script_history_refines :
        (history : ScriptHistory)
        → (script_history v p s parse_tx from_script rounds cache k).0 ≡ ok history
        → (j : ℕ) × (j < 3) × IsListed (rounds j) history
    unfolding script_history
    script_history_refines history h =
        let (j, a, b, l) = (history_rounds_lem rounds 3 0 cache serves sound).1 history h in
        (j, omega arith, l)

    -- Whatever the query returns, an error too, every fold that it leaves in the cache is the fold
    -- over the references that it is cached with, when that was so before and the node serves no other
    -- bodies than the referenced ones.
    pub script_history-IsSound :
        IsSound parse_tx from_script body
          (script_history v p s parse_tx from_script rounds cache k).1
    unfolding script_history
    script_history-IsSound = (history_rounds_lem rounds 3 0 cache serves sound).0

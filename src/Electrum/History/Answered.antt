-- ===== src/Electrum/History/Answered.antt =====
-- `script_history` of bindex-electrum/src/chain.rs answers when the chain stands still.
use bindex_rs.Common.{ℕ, ◌≡◌, refl, sym, ap, ◌∙◌, false, none, some, List}
use bindex_rs.Common.{drop}
use bindex_rs.Common.{Outcome, ok, ok_inj}
use bindex_rs.Common.Bytes.{bytes_eq_refl}
use bindex_rs.Index.TxPos.{VarInt}
use bindex_rs.Index.Visit.{Parser}
use bindex_rs.Db.Store.{Store}
use bindex_rs.Headers
use bindex_rs.Chain.Reads.{TxBytesRef}
use bindex_rs.Electrum.Mempool.{ScriptHash}
use bindex_rs.Electrum.Fold.{ParsedTx, Fold, empty_fold, finish}
use bindex_rs.Electrum.ScriptCache.{ScriptCache, get}
use bindex_rs.Electrum.ScriptCache.Entries.{Each-get}
use bindex_rs.Electrum.History.{script_refs}
use bindex_rs.Electrum.History.Sound.{whole_fold, IsFolded, IsSound}
use bindex_rs.Electrum.History.Fetched.{Answers}
use bindex_rs.Electrum.History.Refines.{apply_all-map}
use bindex_rs.Electrum.History.Batches.{fetch_tail_answered}
use bindex_rs.Electrum.History.Resumed.{Continues, Fits, resume-Continues, resume-Fits}
use bindex_rs.Electrum.History.Cached.{
  Round, Resume, answer, fold_on, resume, settle, fold_tail, history_round, history_rounds,
  script_history,
}

module _ (v : VarInt) (p : Parser) (s : Store) (parse_tx : List ℕ → Outcome ParsedTx)
    (from_script : List ℕ → ScriptHash) (body : TxBytesRef → List ℕ) (k : ScriptHash) where
  -- A round in which the chain does not move, the deadline does not pass, and the node serves the
  -- bodies that the index lists for the script.
  pub record IsCalm (r : Round v p s) (refs : List TxBytesRef) : Type 0 where
    pub listed : script_refs v p s r.at_start k none ≡ ok (Headers.tip_hash r.at_end.headers, refs)
    pub in_time : (i : ℕ) → r.expired i ≡ false
    pub served : Answers body r.block_part refs

  fold_tail_calm :
      (r : Round v p s) (refs : List TxBytesRef) (cache : ScriptCache) (from : Resume) (fold : Fold)
      → IsCalm r refs
      → Continues parse_tx from_script body k refs from
      → Fits parse_tx from_script body k refs from
      → whole_fold parse_tx from_script body k empty_fold refs ≡ ok fold
      → (fold_tail v p s parse_tx from_script r cache k
          (Headers.tip_hash r.at_end.headers)
          refs
          from).0
        ≡ some (ok (finish fold))
  unfolding fold_tail
  fold_tail_calm r refs cache (answer history) fold calm (same, f, e) fits folded =
      let agree : same ≡ fold = ok_inj (sym f ∙ folded) in
      ap (λ h. some (ok h)) (e ∙ ap finish agree)
  fold_tail_calm r refs cache (fold_on from start) fold calm goes fits folded =
      let fetched = fetch_tail_answered v p s body r refs start fits calm.in_time calm.served in
      let whole =
        apply_all-map v p s parse_tx from_script body k from (drop start refs)
        ∙ sym goes
        ∙ folded in
      rw (fetched, fold_tail)
        (rw (bytes_eq_refl (Headers.tip_hash r.at_end.headers)) (rw whole (unfold settle in refl)))

  history_round_calm :
      (r : Round v p s) (refs : List TxBytesRef) (cache : ScriptCache) (fold : Fold)
      → IsSound parse_tx from_script body cache
      → IsCalm r refs
      → whole_fold parse_tx from_script body k empty_fold refs ≡ ok fold
      → (history_round v p s parse_tx from_script r cache k).0 ≡ some (ok (finish fold))
  unfolding history_round
  history_round_calm r refs cache fold sound calm folded =
      let (kept, good) =
        Each-get (λ j cached. IsFolded parse_tx from_script body j cached) cache k sound in
      rw (calm.listed, history_round)
        (fold_tail_calm r refs (get cache k).1 (resume refs (get cache k).0) fold calm
          (resume-Continues parse_tx from_script body k refs (get cache k).0 good)
          (resume-Fits parse_tx from_script body k refs (get cache k).0) folded)

  -- When the chain stands still in the first round, the deadline does not pass, the node serves the
  -- bodies of the script's transactions and folding them all succeeds, the query returns the history
  -- of that fold, whatever right folds the cache holds.
  pub script_history_answers :
      (rounds : ℕ → Round v p s) (refs : List TxBytesRef) (cache : ScriptCache) (fold : Fold)
      → IsSound parse_tx from_script body cache
      → IsCalm (rounds 0) refs
      → whole_fold parse_tx from_script body k empty_fold refs ≡ ok fold
      → (script_history v p s parse_tx from_script rounds cache k).0 ≡ ok (finish fold)
  unfolding script_history history_rounds
  script_history_answers rounds refs cache fold sound calm folded =
      rw (history_round_calm (rounds 0) refs cache fold sound calm folded, history_rounds) refl

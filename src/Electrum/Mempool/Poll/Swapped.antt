-- ===== src/Electrum/Mempool/Poll/Swapped.antt =====
-- The transactions of the index after `poll_once` of bindex-electrum/src/mempool.rs.
use bindex_rs.Common.{
  ℕ, ◌≡◌, refl, sym, ap, ◌∙◌, ◌≢◌, ◌⊎◌, inl, inr, Bool, true, false, not, ◌&&◌, Option, none, some,
  List, if◌then◌else◌, Option-cases,
}
use bindex_rs.Common.{Outcome, ok}
use bindex_rs.Common.Bytes.{bytes_eq}
use bindex_rs.Electrum.Maps.{has}
use bindex_rs.Electrum.Mempool.{Txid, ScriptHash, MempoolTx, MempoolIndex, get}
use bindex_rs.Electrum.Mempool.Loops.{none_ne}
use bindex_rs.Electrum.Mempool.Build.{MempoolEntryInfo}
use bindex_rs.Electrum.Fold.{ParsedTx}
use bindex_rs.Electrum.Mempool.Poll.{
  MempoolNode, known_txids, current_txids, difference, arrivals_of, remove_each, poll_once,
}
use bindex_rs.Electrum.Mempool.Poll.Fetched.{IsNew, arrivals_of-IsNew}
use bindex_rs.Electrum.Mempool.Poll.Steps.{
  get-remove_each, get-insert_each, has-get, has-difference, arrived, arrived_other, arrived-some,
  IsArrival,
}

true_ne : true ≢ false
true_ne e = cc

gone :
    (known current : Bool) (o : Option MempoolTx)
    → current ≡ false
    → (known ≡ false → o ≡ none)
    → (if known && not current then none else o) ≡ none
gone true true o h k = cc
gone true false o h k = refl
gone false current o h k = k refl

kept :
    (known current : Bool) (o : Option MempoolTx)
    → current ≡ true
    → (if known && not current then none else o) ≡ o
kept true true o h = refl
kept true false o h = cc
kept false current o h = refl

never :
    (b : Bool) (o : Option MempoolTx) (tx : MempoolTx)
    → o ≡ none
    → (if b then none else o) ≡ some tx
    → ⊥
never true o tx e f = none_ne f
never false o tx e f = none_ne (sym e ∙ f)

-- After a refresh that got the node's mempool, a transaction of the index that is not in the node's
-- mempool is gone, one that is in it is as it was, and one that the index did not have before is in
-- the node's mempool and is what the body decodes to that the node serves under its id.
pub poll_once_swaps :
    (parse_tx : List ℕ → Outcome ParsedTx) (from_script : List ℕ → ScriptHash) (node : MempoolNode)
    (recent_cap workers : ℕ) (self : MempoolIndex) (entries : List (Option Txid × MempoolEntryInfo))
    (t : Txid)
    → node.mempool_contents ≡ ok (some entries)
    → (has bytes_eq t (current_txids entries) ≡ false
        → get (poll_once parse_tx from_script node recent_cap workers self).1 t ≡ none)
      × ((tx : MempoolTx)
          → has bytes_eq t (current_txids entries) ≡ true
          → get self t ≡ some tx
          → get (poll_once parse_tx from_script node recent_cap workers self).1 t ≡ some tx)
      × ((tx : MempoolTx)
          → get self t ≡ none
          → get (poll_once parse_tx from_script node recent_cap workers self).1 t ≡ some tx
          → IsArrival parse_tx from_script node (IsNew (known_txids self.txs) entries) t tx)
unfolding poll_once
poll_once_swaps parse_tx from_script node recent_cap workers self entries t contents =
    let known = known_txids self.txs in
    let current = current_txids entries in
    let removed = difference known current in
    let arrivals = arrivals_of parse_tx from_script node workers self entries in
    let new = arrivals_of-IsNew parse_tx from_script node workers self entries in
    let swapped =
      get-insert_each recent_cap (remove_each self removed) t arrivals
      ∙ ap (arrived t arrivals) (
          get-remove_each self t removed
          ∙ ap (λ b. if b then none else get self t) (has-difference t known current)) in
    let other = λ (b : Option MempoolTx) (away : IsNew known entries t → ⊥).
      arrived_other parse_tx from_script node (IsNew known entries) t arrivals b away new in
    rw (contents, poll_once)
      (
        λ h.
            swapped
            ∙ other
                (if has bytes_eq t known && not (has bytes_eq t current) then none else get self t)
                (λ n. true_ne (sym n.1 ∙ h))
            ∙ gone (has bytes_eq t known) (has bytes_eq t current) (get self t) h
                (λ k. unknown (Option-cases (get self t)) k),
        λ tx h e.
            swapped
            ∙ other
                (if has bytes_eq t known && not (has bytes_eq t current) then none else get self t)
                (λ n. true_ne (sym (has-get self t tx e) ∙ n.0))
            ∙ kept (has bytes_eq t known) (has bytes_eq t current) (get self t) h
            ∙ e,
        λ tx e f. arrival tx (has bytes_eq t known && not (has bytes_eq t current)) e (
            arrived-some parse_tx from_script node (IsNew known entries) t arrivals
              (if has bytes_eq t known && not (has bytes_eq t current) then none else get self t) tx
              new (sym swapped ∙ f)),
      )
  where
    unknown :
        ((get self t ≡ none) ⊎ ((tx : MempoolTx) × (get self t ≡ some tx)))
        → has bytes_eq t (known_txids self.txs) ≡ false
        → get self t ≡ none
    unknown (inl e) k = e
    unknown (inr (tx, e)) k = absurd (true_ne (sym (has-get self t tx e) ∙ k))

    arrival :
        (tx : MempoolTx) (b : Bool)
        → get self t ≡ none
        → ((if b then none else get self t) ≡ some tx)
          ⊎ IsArrival parse_tx from_script node (IsNew (known_txids self.txs) entries) t tx
        → IsArrival parse_tx from_script node (IsNew (known_txids self.txs) entries) t tx
    arrival tx b e (inl h) = absurd (never b (get self t) tx e h)
    arrival tx b e (inr a) = a

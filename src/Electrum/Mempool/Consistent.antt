-- ===== src/Electrum/Mempool/Consistent.antt =====
-- `insert` and `remove` of bindex-electrum/src/mempool.rs keep the three maps in step.
use bindex_rs.Common.{
  ◌≡◌, refl, sym, ap, ◌∙◌, subst, ◌↔◌, inl, inr, Bool, true, false, ◌&&◌, ◌||◌, Option, none, some,
  some_inj, if◌then◌else◌, Option-cases,
}
use bindex_rs.Common.Bytes.{bytes_eq, bytes_eq_iff}
use mathlib.Core.Path.{subst₂}
use bindex_rs.Electrum.Maps.{bytes_eq-IsEquality, has, lookup, lookup-set, lookup-unset}
use bindex_rs.Electrum.Mempool.{
  Txid, ScriptHash, OutPoint, MempoolTx, MempoolIndex, outpoint_eq, txids_of, insert, remove,
}
use bindex_rs.Electrum.Mempool.Loops.{
  false_ne, none_ne, lookup-add_spends, lookup-drop_spends, listed_add, listed_drop,
}

-- Whether `txid` is among the transactions of a script, by the script map and by the transactions.
unfoldable pub listed : MempoolIndex → ScriptHash → Txid → Bool
listed self s t = has bytes_eq t (txids_of s self.by_scripthash)

abbrev pub in_touches : ScriptHash → Option MempoolTx → Bool
in_touches s none = false
in_touches s (some tx) = has bytes_eq s tx.touches

abbrev pub in_spends : OutPoint → Option MempoolTx → Bool
in_spends o none = false
in_spends o (some tx) = has outpoint_eq o tx.spends

unfoldable pub touching : MempoolIndex → ScriptHash → Txid → Bool
touching self s t = in_touches s (lookup bytes_eq t self.txs)

unfoldable pub spending : MempoolIndex → OutPoint → Txid → Bool
spending self o t = in_spends o (lookup bytes_eq t self.txs)

pub record IsConsistent (self : MempoolIndex) : Type 0 where
  pub scripts : (s : ScriptHash) (t : Txid) → listed self s t ≡ touching self s t
  pub spends :
      (o : OutPoint) (t : Txid)
      → (lookup outpoint_eq o self.spent_prevouts ≡ some t) ↔ (spending self o t ≡ true)

insert_scripts :
    (eq : Bool) (s : ScriptHash) (tx : MempoolTx) (old : Option MempoolTx)
    → (eq ≡ true → old ≡ none)
    → ((has bytes_eq s tx.touches && eq) || in_touches s old)
      ≡ in_touches s (if eq then some tx else old)
insert_scripts true s tx old fresh = rw (fresh refl) (and_or (has bytes_eq s tx.touches))
  where
    and_or : (a : Bool) → ((a && true) || false) ≡ a
    and_or true = refl
    and_or false = refl
insert_scripts false s tx old fresh = none_here (has bytes_eq s tx.touches) (in_touches s old)
  where
    none_here : (a b : Bool) → ((a && false) || b) ≡ b
    none_here true b = refl
    none_here false b = refl

insert_spends :
    (eq spends : Bool) (o : OutPoint) (tx : MempoolTx) (t : Txid) (old : Option MempoolTx)
    (spent : Option Txid)
    → has outpoint_eq o tx.spends ≡ spends
    → ((eq ≡ true) ↔ (tx.txid ≡ t))
    → (eq ≡ true → old ≡ none)
    → (spends ≡ true → spent ≡ none)
    → ((spent ≡ some t) ↔ (in_spends o old ≡ true))
    → ((if spends then some tx.txid else spent) ≡ some t)
      ↔ (in_spends o (if eq then some tx else old) ≡ true)
insert_spends true true o tx t old spent e q fresh unspent c = (λ _. e, λ _. ap some (q.0 refl))
insert_spends true false o tx t old spent e q fresh unspent c = (
  λ h. absurd (false_ne (sym (ap (in_spends o) (fresh refl)) ∙ c.0 h)),
  λ h. absurd (false_ne (sym e ∙ h)),
)
insert_spends false true o tx t old spent e q fresh unspent c =
    (λ h. absurd (false_ne (q.1 (some_inj h))), λ h. absurd (none_ne (sym (unspent refl) ∙ c.1 h)))
insert_spends false false o tx t old spent e q fresh unspent c = c

-- `insert` of a transaction that is not there, and whose inputs no other one spends, keeps the maps
-- in step.
pub insert-IsConsistent :
    (self : MempoolIndex) (tx : MempoolTx)
    → IsConsistent self
    → lookup bytes_eq tx.txid self.txs ≡ none
    → ((o : OutPoint)
        → has outpoint_eq o tx.spends ≡ true
        → lookup outpoint_eq o self.spent_prevouts ≡ none)
    → IsConsistent (insert self tx)
unfolding insert listed touching spending
insert-IsConsistent self tx c fresh unspent = record {
  scripts = λ s t.
      listed_add s t tx.txid tx.touches self.by_scripthash
      ∙ ap (λ b. (has bytes_eq s tx.touches && bytes_eq tx.txid t) || b) (c.scripts s t)
      ∙ insert_scripts (bytes_eq tx.txid t) s tx (lookup bytes_eq t self.txs) (gone t)
      ∙ ap (in_touches s) (sym (lookup-set bytes_eq bytes_eq-IsEquality t tx.txid tx self.txs));
  spends = λ o t.
      subst₂ (λ x y. (x ≡ some t) ↔ (in_spends o y ≡ true))
        (sym (lookup-add_spends o tx.txid tx.spends self.spent_prevouts))
        (sym (lookup-set bytes_eq bytes_eq-IsEquality t tx.txid tx self.txs))
        (insert_spends (bytes_eq tx.txid t) (has outpoint_eq o tx.spends) o tx t
          (lookup bytes_eq t self.txs) (lookup outpoint_eq o self.spent_prevouts) refl
          (bytes_eq_iff tx.txid t) (gone t) (unspent o) (c.spends o t));
}
  where
    gone : (t : Txid) → bytes_eq tx.txid t ≡ true → lookup bytes_eq t self.txs ≡ none
    gone t e = subst (λ x. lookup bytes_eq x self.txs ≡ none) ((bytes_eq_iff tx.txid t).0 e) fresh

remove_scripts :
    (eq : Bool) (s : ScriptHash) (tx : MempoolTx) (old : Option MempoolTx)
    → (eq ≡ true → old ≡ some tx)
    → (if has bytes_eq s tx.touches && eq then false else in_touches s old)
      ≡ in_touches s (if eq then none else old)
remove_scripts true s tx old there = rw (there refl) (only (has bytes_eq s tx.touches))
  where
    only : (a : Bool) → (if a && true then false else a) ≡ false
    only true = refl
    only false = refl
remove_scripts false s tx old there = keep (has bytes_eq s tx.touches) (in_touches s old)
  where
    keep : (a b : Bool) → (if a && false then false else b) ≡ b
    keep true b = refl
    keep false b = refl

remove_spends :
    (eq spends : Bool) (o : OutPoint) (tx : MempoolTx) (txid t : Txid) (old : Option MempoolTx)
    (spent : Option Txid)
    → has outpoint_eq o tx.spends ≡ spends
    → ((eq ≡ true) ↔ (txid ≡ t))
    → (eq ≡ true → old ≡ some tx)
    → (spends ≡ true → spent ≡ some txid)
    → ((spent ≡ some t) ↔ (in_spends o old ≡ true))
    → ((if spends then none else spent) ≡ some t) ↔ (in_spends o (if eq then none else old) ≡ true)
remove_spends true true o tx txid t old spent e q there its c =
    (λ h. absurd (none_ne h), λ h. absurd (false_ne h))
remove_spends true false o tx txid t old spent e q there its c = (
  λ h. absurd (false_ne (sym e ∙ sym (ap (in_spends o) (there refl)) ∙ c.0 h)),
  λ h. absurd (false_ne h),
)
remove_spends false true o tx txid t old spent e q there its c =
    (λ h. absurd (none_ne h), λ h. absurd (false_ne (q.1 (some_inj (sym (its refl) ∙ c.1 h)))))
remove_spends false false o tx txid t old spent e q there its c = c

-- `remove` keeps the maps in step.
pub remove-IsConsistent :
    (self : MempoolIndex) (txid : Txid) → IsConsistent self → IsConsistent (remove self txid).1
unfolding remove listed touching spending
remove-IsConsistent self txid c = elim (Option-cases (lookup bytes_eq txid self.txs)) [
  | inl e ↦ rw (e, remove) c
  | inr (tx, e) ↦
      rw (e, remove)
        (record {
          scripts = λ s t.
              listed_drop s t txid tx.touches self.by_scripthash
              ∙ ap (λ b. if has bytes_eq s tx.touches && bytes_eq txid t then false else b)
                  (c.scripts s t)
              ∙ remove_scripts (bytes_eq txid t) s tx (lookup bytes_eq t self.txs) (there tx e t)
              ∙ ap (in_touches s) (sym (lookup-unset bytes_eq bytes_eq-IsEquality t txid self.txs));
          spends = λ o t.
              subst₂ (λ x y. (x ≡ some t) ↔ (in_spends o y ≡ true))
                (sym (lookup-drop_spends o tx.spends self.spent_prevouts))
                (sym (lookup-unset bytes_eq bytes_eq-IsEquality t txid self.txs))
                (remove_spends (bytes_eq txid t) (has outpoint_eq o tx.spends) o tx txid t
                  (lookup bytes_eq t self.txs) (lookup outpoint_eq o self.spent_prevouts) refl
                  (bytes_eq_iff txid t) (there tx e t)
                  (λ h. (c.spends o txid).1 (ap (in_spends o) e ∙ h)) (c.spends o t));
        })
]
  where
    there :
        (tx : MempoolTx)
        → lookup bytes_eq txid self.txs ≡ some tx
        → (t : Txid) → bytes_eq txid t ≡ true
        → lookup bytes_eq t self.txs ≡ some tx
    there tx e t q = subst (λ x. lookup bytes_eq x self.txs ≡ some tx) ((bytes_eq_iff txid t).0 q) e

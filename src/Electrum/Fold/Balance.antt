-- ===== src/Electrum/Fold/Balance.antt =====
-- The sums of `Fold` in bindex-electrum/src/chain.rs.
use bindex_rs.Common.{
  ℕ, ◌+◌, ◌%◌, ◌^◌, ◌≤◌, ◌≡◌, refl, ap, ◌∙◌, subst, ◌⊎◌, inl, inr, Bool, true, false, ◌||◌, Option,
  none, some, List, [], ◌∷◌, arith, ltb, if◌then◌else◌, ltb_false→le, Bool-cases, Option-cases,
}
use bindex_rs.Common.{length}
use bindex_rs.Common.Bytes.{bytes_eq}
use bindex_rs.Chain.Reads.{TxBytesRef}
use bindex_rs.Electrum.Maps.{lookup, set, unset, lookup-unset, Distinct, Distinct-unset, lookup-set}
use bindex_rs.Electrum.Mempool.{Txid, ScriptHash, OutPoint, outpoint_eq}
use bindex_rs.Electrum.Mempool.View.{add64}
use bindex_rs.Electrum.Mempool.Loops.{outpoint_eq-IsEquality}
use bindex_rs.Electrum.Fold.{
  TxOutView, ParsedTx, ScriptUtxo, Fold, Side, spend_all, fund, fund_all, apply_parsed,
}

abbrev pub live_total : List (OutPoint × ScriptUtxo) → ℕ
live_total [] = 0
live_total (e ∷ entries) = e.1.value + live_total entries

abbrev pub value_at : Option ScriptUtxo → ℕ
value_at none = 0
value_at (some u) = u.value

live_total-unset :
    (k : OutPoint) (m : List (OutPoint × ScriptUtxo))
    → Distinct outpoint_eq m
    → live_total (unset outpoint_eq k m) + value_at (lookup outpoint_eq k m) ≡ live_total m
unfolding unset lookup
live_total-unset k [] d = refl
live_total-unset k ((j, e) ∷ m) d = elim (Bool-cases (outpoint_eq j k)) [
  | inl t ↦
      let gone : value_at (lookup outpoint_eq k m) ≡ 0 =
        ap value_at
          (subst (λ x. lookup outpoint_eq x m ≡ none) ((outpoint_eq-IsEquality.iff j k).0 t) d.0) in
      rw t (omega (arith, live_total-unset k m d.1))
  | inr t ↦ rw t (omega (arith, live_total-unset k m d.1))
]

-- Each input that spends an output of the script finds it unspent, with the value it was paid with.
abbrev pub Spendable : List (OutPoint × ℕ) → List (OutPoint × ScriptUtxo) → List OutPoint → Type 0
Spendable funded live [] = Unit
Spendable funded live (o ∷ os) =
    ((lookup outpoint_eq o funded ≡ none) × Spendable funded live os)
    ⊎ ((u : ScriptUtxo) × (lookup outpoint_eq o funded ≡ some u.value)
        × (lookup outpoint_eq o live ≡ some u)
        × Spendable funded (unset outpoint_eq o live) os)

spend_all_lem :
    (os : List OutPoint) (side : Side)
    → Distinct outpoint_eq side.live
    → Spendable side.funded side.live os
    → ((spend_all os side).sum + live_total (spend_all os side).live) % 2 ^ 64
      ≡ (side.sum + live_total side.live) % 2 ^ 64
unfolding spend_all add64
spend_all_lem [] side d s = refl
spend_all_lem (o ∷ os) side d (inl (e, s)) = rw (e, spend_all) (spend_all_lem os side d s)
spend_all_lem (o ∷ os) side d (inr (u, e, l, s)) =
    let next : Side = record {
      sum = add64 side.sum u.value;
      count = side.count + 1;
      funded = side.funded;
      live = unset outpoint_eq o side.live;
    } in
    let rest =
      spend_all_lem os next (Distinct-unset outpoint_eq outpoint_eq-IsEquality o side.live d) s in
    let here = live_total-unset o side.live d in
    let value = ap value_at l in rw (e, spend_all) (omega (arith, rest, here, value))

spend_all-Distinct :
    (os : List OutPoint) (side : Side)
    → Distinct outpoint_eq side.live
    → Distinct outpoint_eq (spend_all os side).live
unfolding spend_all
spend_all-Distinct [] side d = d
spend_all-Distinct (o ∷ os) side d = elim (Option-cases (lookup outpoint_eq o side.funded)) [
  | inl e ↦ rw (e, spend_all) (spend_all-Distinct os side d)
  | inr (value, e) ↦
      rw (e, spend_all)
        (spend_all-Distinct os _ (Distinct-unset outpoint_eq outpoint_eq-IsEquality o side.live d))
]

lookup-spend_all :
    (os : List OutPoint) (side : Side) (k : OutPoint)
    → lookup outpoint_eq k side.live ≡ none
    → lookup outpoint_eq k (spend_all os side).live ≡ none
unfolding spend_all
lookup-spend_all [] side k h = h
lookup-spend_all (o ∷ os) side k h = elim (Option-cases (lookup outpoint_eq o side.funded)) [
  | inl e ↦ rw (e, spend_all) (lookup-spend_all os side k h)
  | inr (value, e) ↦
      rw (e, spend_all)
        (lookup-spend_all os _ k (
          lookup-unset outpoint_eq outpoint_eq-IsEquality k o side.live
          ∙ either (outpoint_eq o k) h))
]
  where
    either : (b : Bool) {r : Option ScriptUtxo} → r ≡ none → (if b then none else r) ≡ none
    either true e = refl
    either false e = e

-- A sum that no input added to.
spend_all_sum :
    (os : List OutPoint) (side : Side)
    → (side.count ≤ (spend_all os side).count)
      × ((spend_all os side).count ≡ side.count → (spend_all os side).sum ≡ side.sum)
unfolding spend_all
spend_all_sum [] side = (omega arith, λ e. refl)
spend_all_sum (o ∷ os) side = elim (Option-cases (lookup outpoint_eq o side.funded)) [
  | inl e ↦ rw (e, spend_all) (spend_all_sum os side)
  | inr (value, e) ↦
      let next : Side = record {
        sum = add64 side.sum value;
        count = side.count + 1;
        funded = side.funded;
        live = unset outpoint_eq o side.live;
      } in
      let (more, _) = spend_all_sum os next in
      rw (e, spend_all) (omega arith, λ c. absurd (omega arith))
]

if_false :
    (b : Bool) (u : ScriptUtxo) (r : Option ScriptUtxo)
    → b ≡ false
    → r ≡ none
    → (if b then some u else r) ≡ none
if_false true u r e h = cc
if_false false u r e h = h

module _ (from_script : List ℕ → ScriptHash) (s : ScriptHash) (txid : Txid)
    (reference : TxBytesRef) where
  live_total-fund :
      (vout : ℕ) (o : TxOutView) (side : Side)
      → Distinct outpoint_eq side.live
      → lookup outpoint_eq (record { txid = txid; vout = vout }) side.live ≡ none
      → (live_total (fund txid vout reference o side).live ≡ o.value + live_total side.live)
        × Distinct outpoint_eq (fund txid vout reference o side).live
  unfolding set
  live_total-fund vout o side d fresh =
      let k : OutPoint = record { txid = txid; vout = vout } in
      let rest = live_total-unset k side.live d in
      let none_there = ap value_at fresh in
      (
        omega arith,
        (
          lookup-unset outpoint_eq outpoint_eq-IsEquality k k side.live
              ∙ rw ((outpoint_eq-IsEquality.iff k k).1 refl),
          Distinct-unset outpoint_eq outpoint_eq-IsEquality k side.live d,
        ),
      )

  fund_all_sum :
      (vout : ℕ) (os : List TxOutView) (side : Side)
      → (side.count ≤ (fund_all from_script s txid vout reference os side).count)
        × ((fund_all from_script s txid vout reference os side).count ≡ side.count
            → (fund_all from_script s txid vout reference os side).sum ≡ side.sum)
  unfolding fund_all
  fund_all_sum vout [] side = (omega arith, λ e. refl)
  fund_all_sum vout (o ∷ os) side = elim (Bool-cases (bytes_eq (from_script o.script_pubkey) s)) [
    | inr t ↦ rw (t, fund_all) (fund_all_sum (vout + 1) os side)
    | inl t ↦
        let (more, _) = fund_all_sum (vout + 1) os (fund txid (vout % 2 ^ 32) reference o side) in
        rw (t, fund_all) (omega arith, λ c. absurd (omega arith))
  ]

  different :
      (v w : ℕ)
      → v + 1 ≤ w
      → outpoint_eq (record { txid = txid; vout = v }) (record { txid = txid; vout = w }) ≡ false
  different v w h =
      elim (Bool-cases
        (outpoint_eq (record { txid = txid; vout = v }) (record { txid = txid; vout = w }))) [
          | inr e ↦ e
          | inl e ↦
              let same =
                (outpoint_eq-IsEquality.iff (record { txid = txid; vout = v })
                    (record { txid = txid; vout = w })).0
                  e in
              absurd (omega (arith, ap (λ (o : OutPoint). o.vout) same))
        ]

  fund_all_lem :
      (vout : ℕ) (os : List TxOutView) (side : Side)
      → vout + length os ≤ 2 ^ 32
      → Distinct outpoint_eq side.live
      → ((v : ℕ)
          → vout ≤ v
          → lookup outpoint_eq (record { txid = txid; vout = v }) side.live ≡ none)
      → (live_total (fund_all from_script s txid vout reference os side).live + side.sum) % 2 ^ 64
        ≡ (live_total side.live + (fund_all from_script s txid vout reference os side).sum) % 2 ^ 64
  unfolding fund_all add64
  fund_all_lem vout [] side few d fresh = refl
  fund_all_lem vout (o ∷ os) side few d fresh =
      elim (Bool-cases (bytes_eq (from_script o.script_pubkey) s)) [
        | inr t ↦
            rw (t, fund_all)
              (fund_all_lem (vout + 1) os side (omega arith) d (λ v h. fresh v (omega arith)))
        | inl t ↦
            let small : vout % 2 ^ 32 ≡ vout = omega arith in
            let (total, distinct) = live_total-fund vout o side d (fresh vout (omega arith)) in
            let rest =
              fund_all_lem (vout + 1) os (fund txid vout reference o side) (omega arith) distinct
                (λ v h. later v h) in
            rw (t, fund_all) (rw small (omega (arith, rest, total)))
      ]
    where
      later :
          (v : ℕ)
          → vout + 1 ≤ v
          → lookup outpoint_eq
              (record { txid = txid; vout = v })
              (fund txid vout reference o side).live
            ≡ none
      later v h =
          lookup-set outpoint_eq outpoint_eq-IsEquality (record { txid = txid; vout = v })
            (record { txid = txid; vout = vout }) _ side.live
          ∙ if_false _ _ _ (different vout v h) (fresh v (omega arith))

or_false : (a b : Bool) → (a || b) ≡ false → (a ≡ false) × (b ≡ false)
or_false true b e = cc
or_false false b e = (refl, e)

-- The sums of what was ever paid and spent, and the outputs that are live, stay in balance when a
-- transaction of at most 2^32 outputs is folded in whose inputs find the outputs that they spend live
-- and whose own outputs are new.
pub apply_parsed_balance :
    (from_script : List ℕ → ScriptHash) (s : ScriptHash) (reference : TxBytesRef) (self : Fold)
    (tx : ParsedTx)
    → length tx.outputs ≤ 2 ^ 32
    → Distinct outpoint_eq self.live
    → Spendable self.funded self.live tx.inputs
    → ((v : ℕ) → lookup outpoint_eq (record { txid = tx.txid; vout = v }) self.live ≡ none)
    → (self.history.spent_txo_sum + live_total self.live) % 2 ^ 64
      ≡ self.history.funded_txo_sum % 2 ^ 64
    → ((apply_parsed from_script self s reference tx).history.spent_txo_sum
          + live_total (apply_parsed from_script self s reference tx).live)
        % 2 ^ 64
      ≡ (apply_parsed from_script self s reference tx).history.funded_txo_sum % 2 ^ 64
unfolding apply_parsed add64
apply_parsed_balance from_script s reference self tx few d spendable fresh balanced =
    let start : Side = record { sum = 0; count = 0; funded = self.funded; live = self.live } in
    let spent = spend_all tx.inputs start in
    let between : Side = record { sum = 0; count = 0; funded = spent.funded; live = spent.live } in
    let paid = fund_all from_script s tx.txid 0 reference tx.outputs between in
    let spends = spend_all_lem tx.inputs start d spendable in
    let pays =
      fund_all_lem from_script s tx.txid reference 0 tx.outputs between (omega arith)
        (spend_all-Distinct tx.inputs start d)
        (λ v h. lookup-spend_all tx.inputs start (record { txid = tx.txid; vout = v }) (fresh v)) in
    elim (Bool-cases (ltb 0 paid.count || ltb 0 spent.count)) [
      | inl t ↦ rw t (omega (arith, spends, pays, balanced))
      | inr t ↦
          let (p, q) = or_false (ltb 0 paid.count) (ltb 0 spent.count) t in
          let none_paid : paid.sum ≡ 0 =
            (fund_all_sum from_script s tx.txid reference 0 tx.outputs between).1
              (omega (arith, ltb_false→le 0 paid.count p)) in
          let none_spent : spent.sum ≡ 0 =
            (spend_all_sum tx.inputs start).1 (omega (arith, ltb_false→le 0 spent.count q)) in
          rw t (omega (arith, spends, pays, balanced, none_paid, none_spent))
    ]

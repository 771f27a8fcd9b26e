-- ===== src/Electrum/History/Spender/Scanned.antt =====
-- What one pass over a script's transactions finds of an outpoint's spender, for `find_spender` of
-- bindex-electrum/src/chain.rs.
use bindex_rs.Common.{
  ℕ, suc, ◌+◌, ◌%◌, ◌^◌, ◌≡◌, refl, sym, ap, ◌∙◌, subst, ◌≢◌, ◌⊎◌, inl, inr, true, false, Option,
  none, some, List, [], ◌∷◌, ◌++◌, map, append_assoc, arith, some_inj, Bool-cases, if_true,
  if_false, Option-cases,
}
use bindex_rs.Common.{get_elem?, All, All-append}
use bindex_rs.Common.{Outcome, ok, err, panic, ok_inj, Outcome-cases}
use bindex_rs.Common.Bytes.{bytes_eq, bytes_eq_iff}
use bindex_rs.Chain.Reads.{TxBytesRef}
use bindex_rs.Electrum.Mempool.{OutPoint, outpoint_eq}
use bindex_rs.Electrum.Mempool.Loops.{outpoint_eq-IsEquality}
use bindex_rs.Electrum.Fold.{ParsedTx}
use bindex_rs.Electrum.History.Spender.{Spender, position_from, spender_in, scan_bodies}

true_ne : true ≢ false
true_ne e = cc

position_from-none :
    (outpoint : OutPoint) (n : ℕ) (os : List OutPoint)
    → position_from outpoint n os ≡ none
    → All (λ o. o ≢ outpoint) os
unfolding position_from
position_from-none outpoint n [] e = tt
position_from-none outpoint n (o ∷ os) e =
    let rest = position_from outpoint (suc n) os in
    elim (Bool-cases (outpoint_eq o outpoint)) [
      | inl t ↦ let bad = if_true (outpoint_eq o outpoint) (some n) rest t e in cc
      | inr f ↦ (
        λ same. true_ne (sym ((outpoint_eq-IsEquality.iff o outpoint).1 same) ∙ f),
        position_from-none outpoint (suc n) os
            (if_false (outpoint_eq o outpoint) (some n) rest f e),
      )
    ]

position_from-some :
    (outpoint : OutPoint) (n : ℕ) (os : List OutPoint) (at : ℕ)
    → position_from outpoint n os ≡ some at
    → (i : ℕ) × (at ≡ n + i) × (get_elem? os i ≡ some outpoint)
unfolding position_from
position_from-some outpoint n [] at e = cc
position_from-some outpoint n (o ∷ os) at e =
    let rest = position_from outpoint (suc n) os in
    elim (Bool-cases (outpoint_eq o outpoint)) [
      | inl t ↦
          let here = some_inj (if_true (outpoint_eq o outpoint) (some n) rest t e) in
          (0, omega arith, ap some ((outpoint_eq-IsEquality.iff o outpoint).0 t))
      | inr f ↦
          let (i, a, b) =
            position_from-some outpoint (suc n) os at
              (if_false (outpoint_eq o outpoint) (some n) rest f e) in
          (suc i, omega arith, b)
    ]

-- A transaction that does not spend the outpoint, or is the one that funds it.
abbrev pub Idle : OutPoint → ParsedTx → Type 0
Idle outpoint tx = (tx.txid ≡ outpoint.txid) ⊎ All (λ o. o ≢ outpoint) tx.inputs

-- A transaction that spends the outpoint, with its place.
pub record IsSpender (outpoint : OutPoint) (r : TxBytesRef) (tx : ParsedTx) (found : Spender)
    : Type 0 where
  pub txid : found.txid ≡ tx.txid
  pub other : tx.txid ≢ outpoint.txid
  pub vin : (i : ℕ) × (found.vin ≡ i % 2 ^ 32) × (get_elem? tx.inputs i ≡ some outpoint)
  pub height : found.height ≡ r.block_height
  pub position : found.position ≡ r.block_position
  pub block_hash : found.block_hash ≡ r.block_hash

-- The spender at an input.
abbrev place : TxBytesRef → ParsedTx → ℕ → Spender
place r tx vin = record {
  txid = tx.txid;
  vin = vin % 2 ^ 32;
  height = r.block_height;
  position = r.block_position;
  block_hash = r.block_hash;
}

spender_in-none :
    (outpoint : OutPoint) (r : TxBytesRef) (tx : ParsedTx)
    → spender_in outpoint r tx ≡ none
    → Idle outpoint tx
unfolding spender_in
spender_in-none outpoint r tx e = elim (Bool-cases (bytes_eq tx.txid outpoint.txid)) [
  | inl t ↦ inl ((bytes_eq_iff tx.txid outpoint.txid).0 t)
  | inr f ↦ elim (Option-cases (position_from outpoint 0 tx.inputs)) [
    | inl h ↦ inr (position_from-none outpoint 0 tx.inputs h)
    | inr (at, h) ↦
        let bad : some (place r tx at) ≡ none = sym (rw f (rw (h, spender_in) refl)) ∙ e in cc
  ]
]

plain : (a i : ℕ) → a ≡ 0 + i → a ≡ i
plain a i e = omega arith

spender_in-some :
    (outpoint : OutPoint) (r : TxBytesRef) (tx : ParsedTx) (found : Spender)
    → spender_in outpoint r tx ≡ some found
    → IsSpender outpoint r tx found
unfolding spender_in
spender_in-some outpoint r tx found e = elim (Bool-cases (bytes_eq tx.txid outpoint.txid)) [
  | inl t ↦ let bad : none ≡ some found = sym (rw t refl) ∙ e in cc
  | inr f ↦ elim (Option-cases (position_from outpoint 0 tx.inputs)) [
    | inl h ↦ let bad : none ≡ some found = sym (rw f (rw (h, spender_in) refl)) ∙ e in cc
    | inr (at, h) ↦
        let same : place r tx at ≡ found = some_inj (sym (rw f (rw (h, spender_in) refl)) ∙ e) in
        let (i, a, b) = position_from-some outpoint 0 tx.inputs at h in
        subst (IsSpender outpoint r tx) same (record {
          txid = refl;
          other = λ funding. true_ne (sym ((bytes_eq_iff tx.txid outpoint.txid).1 funding) ∙ f);
          vin = (i, ap (λ n. n % 2 ^ 32) (plain at i a), b);
          height = refl;
          position = refl;
          block_hash = refl;
        })
  ]
]

-- What the whole of the references answers: none of them spends, or one does and none before it.
abbrev pub Scanned :
    (List ℕ → Outcome ParsedTx)
    → (TxBytesRef → List ℕ)
    → OutPoint
    → List TxBytesRef
    → Option Spender
    → Type 0
Scanned parse_tx body outpoint refs none =
    All (λ r. (tx : ParsedTx) × (parse_tx (body r) ≡ ok tx) × Idle outpoint tx) refs
Scanned parse_tx body outpoint refs (some found) =
    (before : List TxBytesRef) × (r : TxBytesRef) × (after : List TxBytesRef) × (tx : ParsedTx)
    × (refs ≡ before ++ r ∷ after)
    × All (λ b. (other : ParsedTx) × (parse_tx (body b) ≡ ok other) × Idle outpoint other) before
    × (parse_tx (body r) ≡ ok tx)
    × IsSpender outpoint r tx found

module _ (parse_tx : List ℕ → Outcome ParsedTx) (body : TxBytesRef → List ℕ)
    (outpoint : OutPoint) where
  -- References that do not spend, before others.
  pub Scanned-behind :
      (xs ys : List TxBytesRef) (found : Option Spender)
      → Scanned parse_tx body outpoint xs none
      → Scanned parse_tx body outpoint ys found
      → Scanned parse_tx body outpoint (xs ++ ys) found
  Scanned-behind xs ys none idle h =
      All-append (λ r. (tx : ParsedTx) × (parse_tx (body r) ≡ ok tx) × Idle outpoint tx) xs ys idle
        h
  Scanned-behind xs ys (some found) idle (before, r, after, tx, e, others, parsed, is) = (
    xs ++ before,
    r,
    after,
    tx,
    ap (λ l. xs ++ l) e ∙ sym (append_assoc xs before (r ∷ after)),
    All-append (λ b. (other : ParsedTx) × (parse_tx (body b) ≡ ok other) × Idle outpoint other) xs
        before idle others,
    parsed,
    is,
  )

  pub Scanned-ahead :
      (xs ys : List TxBytesRef) (found : Spender)
      → Scanned parse_tx body outpoint xs (some found)
      → Scanned parse_tx body outpoint (xs ++ ys) (some found)
  Scanned-ahead xs ys found (before, r, after, tx, e, others, parsed, is) = (
    before,
    r,
    after ++ ys,
    tx,
    ap (λ l. l ++ ys) e ∙ append_assoc before (r ∷ after) ys,
    others,
    parsed,
    is,
  )

  pub scan_bodies_lem :
      (refs : List TxBytesRef) (found : Option Spender)
      → scan_bodies parse_tx outpoint refs (map body refs) ≡ ok found
      → Scanned parse_tx body outpoint refs found
  unfolding scan_bodies
  scan_bodies_lem [] found e = subst (Scanned parse_tx body outpoint []) (ok_inj e) tt
  scan_bodies_lem (r ∷ refs) found e =
      let ih = scan_bodies_lem refs found in
      let rest = scan_bodies parse_tx outpoint refs (map body refs) in
      elim (Outcome-cases (parse_tx (body r))) [
        | inr (inl (x, h)) ↦ let bad : err x ≡ ok found = sym (rw h refl) ∙ e in cc
        | inr (inr h) ↦ let bad : panic ≡ ok found = sym (rw h refl) ∙ e in cc
        | inl (tx, h) ↦ elim (Option-cases (spender_in outpoint r tx)) [
          | inl f ↦
              let others : rest ≡ ok found = sym (rw h (rw f refl)) ∙ e in
              Scanned-behind (r ∷ []) refs found ((tx, h, spender_in-none outpoint r tx f), tt)
                (ih others)
          | inr (sp, f) ↦
              let same : some sp ≡ found = ok_inj (sym (rw h (rw f refl)) ∙ e) in
              subst (Scanned parse_tx body outpoint (r ∷ refs)) same
                ([], r, refs, tx, refl, tt, h, spender_in-some outpoint r tx sp f)
        ]
      ]

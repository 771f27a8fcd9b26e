-- ===== src/Electrum/Mempool/Build/Built.antt =====
-- What `build_tx` of bindex-electrum/src/mempool.rs makes of a body.
use bindex_rs.Common.{
  ℕ, zero, suc, ◌+◌, ◌%◌, ◌^◌, ◌≤◌, ◌≡◌, refl, sym, ap, ◌∙◌, ◌↔◌, ◌⊎◌, inl, inr, Bool, true, false,
  ◌||◌, some, List, [], ◌∷◌, arith, leb, some_inj, if◌then◌else◌, Bool-cases,
}
use bindex_rs.Common.{length, get_elem?}
use bindex_rs.Common.{Outcome, ok}
use bindex_rs.Common.Bytes.{bytes_eq, bytes_eq_iff, bytes_le}
use bindex_rs.Electrum.Maps.{has}
use bindex_rs.Electrum.Mempool.{
  insert_outpoint, ScriptHash, OutPoint, outpoint_eq, Output, MempoolTx,
}
use bindex_rs.Electrum.Mempool.Loops.{has-insert_txid, or_same, or_swap, outpoint_eq-IsEquality}
use bindex_rs.Electrum.Fold.{TxOutView, ParsedTx}
use bindex_rs.Electrum.Mempool.Build.{
  MempoolEntryInfo, collect, insert_before, touches_of, number_outputs, build_parsed, build_tx,
}

has-insert_outpoint :
    (t u : OutPoint) (us : List OutPoint)
    → has outpoint_eq t (insert_outpoint u us) ≡ (outpoint_eq u t || has outpoint_eq t us)
unfolding has insert_outpoint
has-insert_outpoint t u [] = refl
has-insert_outpoint t u (v ∷ us) = elim (Bool-cases (outpoint_eq u v)) [
  | inl e ↦ rw e (
      or_same (outpoint_eq u t) (outpoint_eq v t) (has outpoint_eq t us)
        (ap (λ x. outpoint_eq x t) ((outpoint_eq-IsEquality.iff u v).0 e)))
  | inr e ↦
      elim (Bool-cases
        (if bytes_eq u.txid v.txid then leb u.vout v.vout else bytes_le u.txid v.txid)) [
          | inl l ↦ rw (e, l)
          | inr l ↦
              rw (e, l, has-insert_outpoint t u us)
                (or_swap (outpoint_eq u t) (outpoint_eq v t) (has outpoint_eq t us))
        ]
]

-- The element is in the list.
abbrev pub Among {ℓ} : {A : Type ℓ} → A → List A → Type ℓ
Among a xs = (k : ℕ) × (get_elem? xs k ≡ some a)

Among-cons {ℓ} : {A : Type ℓ} (a x : A) (xs : List A) → Among a xs → Among a (x ∷ xs)
Among-cons a x xs (k, e) = (suc k, e)

Among-cases {ℓ} : {A : Type ℓ} (a x : A) (xs : List A) → Among a (x ∷ xs) → (x ≡ a) ⊎ Among a xs
Among-cases a x xs (zero, e) = inl (some_inj e)
Among-cases a x xs (suc k, e) = inr (k, e)

either_true : (b : Bool) {c : Bool} → (b || c) ≡ true → (b ≡ true) ⊎ (c ≡ true)
either_true true e = inl refl
either_true false e = inr e

or_true : (b c : Bool) → c ≡ true → (b || c) ≡ true
or_true true c e = refl
or_true false c e = e

-- A set that is collected has exactly the outpoints of the list.
has-collect :
    (o : OutPoint) (os : List OutPoint) → (has outpoint_eq o (collect os) ≡ true) ↔ Among o os
unfolding collect has
has-collect o [] = (λ e. cc, λ h. cc)
has-collect o (p ∷ os) =
    let (to, from) = has-collect o os in
    let added = has-insert_outpoint o p (collect os) in
    (
      λ e. elim (either_true (outpoint_eq p o) (sym added ∙ e)) [
        | inl t ↦ (0, ap some ((outpoint_eq-IsEquality.iff p o).0 t))
        | inr t ↦ Among-cons o p os (to t)
      ],
      λ a. added ∙ (elim (Among-cases o p os a) [
        | inl same ↦ rw ((outpoint_eq-IsEquality.iff p o).1 same)
        | inr rest ↦ or_true (outpoint_eq p o) (has outpoint_eq o (collect os)) (from rest)
      ]),
    )

-- What a transaction of the mempool is made of.
pub record IsBuilt (from_script : List ℕ → ScriptHash) (tx : ParsedTx) (m : MempoolTx)
    : Type 0 where
  pub named : m.txid ≡ tx.txid
  pub paid :
      (s : ScriptHash)
      → (has bytes_eq s m.touches ≡ true)
        ↔ ((o : TxOutView) × Among o tx.outputs × (from_script o.script_pubkey ≡ s))
  pub spent : (o : OutPoint) → (has outpoint_eq o m.spends ≡ true) ↔ Among o tx.inputs
  pub count : length m.outputs ≡ length tx.outputs
  pub numbered :
      (k : ℕ) (o : TxOutView)
      → get_elem? tx.outputs k ≡ some o
      → get_elem? m.outputs k
        ≡ some (record { vout = k; scripthash = from_script o.script_pubkey; value = o.value })

module _ (from_script : List ℕ → ScriptHash) where
  abbrev entry : ℕ → TxOutView → Output
  entry vout o = record { vout = vout; scripthash = from_script o.script_pubkey; value = o.value }

  -- Without wrap-around nothing is overwritten.
  number_outputs_step :
      (vout : ℕ) (o : TxOutView) (os : List TxOutView)
      → vout + length (o ∷ os) ≤ 2 ^ 32
      → number_outputs from_script vout (o ∷ os)
        ≡ entry vout o ∷ number_outputs from_script (vout + 1) os
  unfolding number_outputs insert_before
  number_outputs_step vout o [] fits =
      let small : vout % 2 ^ 32 ≡ vout = omega (arith, fits) in ap (λ n. entry n o ∷ []) small
  number_outputs_step vout o (x ∷ os) fits =
      let small : vout % 2 ^ 32 ≡ vout = omega (arith, fits) in
      let later = number_outputs_step (vout + 1) x os (omega (arith, fits)) in
      rw (small) (rw (later) (in_front vout o x (number_outputs from_script (vout + 1 + 1) os)))
    where
      in_front :
          (vout : ℕ) (o x : TxOutView) (rest : List Output)
          → insert_before (entry vout o) (entry (vout + 1) x ∷ rest)
            ≡ entry vout o ∷ entry (vout + 1) x ∷ rest
      in_front vout o x rest = ground arith

  number_outputs-get_elem? :
      (vout : ℕ) (os : List TxOutView) (k : ℕ) (o : TxOutView)
      → vout + length os ≤ 2 ^ 32
      → get_elem? os k ≡ some o
      → get_elem? (number_outputs from_script vout os) k ≡ some (entry (vout + k) o)
  number_outputs-get_elem? vout [] k o fits e = cc
  number_outputs-get_elem? vout (x ∷ os) zero o fits e =
      rw (number_outputs_step vout x os fits) (
        ap (λ n. some (entry n x)) (omega arith) ∙ ap (λ y. some (entry (vout + 0) y)) (some_inj e))
  number_outputs-get_elem? vout (x ∷ os) (suc k) o fits e =
      rw (number_outputs_step vout x os fits) (
        number_outputs-get_elem? (vout + 1) os k o (omega (arith, fits)) e
        ∙ ap (λ n. some (entry n o)) (omega arith))

  length-number_outputs :
      (vout : ℕ) (os : List TxOutView)
      → vout + length os ≤ 2 ^ 32
      → length (number_outputs from_script vout os) ≡ length os
  length-number_outputs vout [] fits = unfold number_outputs in refl
  length-number_outputs vout (o ∷ os) fits =
      rw (number_outputs_step vout o os fits)
        (ap suc (length-number_outputs (vout + 1) os (omega (arith, fits))))

  has-touches_of :
      (s : ScriptHash) (os : List TxOutView)
      → (has bytes_eq s (touches_of from_script os) ≡ true)
        ↔ ((o : TxOutView) × Among o os × (from_script o.script_pubkey ≡ s))
  unfolding touches_of has
  has-touches_of s [] = (λ e. cc, λ h. cc)
  has-touches_of s (x ∷ os) =
      let (to, from) = has-touches_of s os in
      let script = from_script x.script_pubkey in
      let added = has-insert_txid s script (touches_of from_script os) in
      (
        λ e. elim (either_true (bytes_eq script s) (sym added ∙ e)) [
          | inl t ↦ (x, (0, refl), (bytes_eq_iff script s).0 t)
          | inr t ↦ let (o, among, pays) = to t in (o, Among-cons o x os among, pays)
        ],
        λ h. added ∙ paying s x os from h,
      )
    where
      paying :
          (s : ScriptHash) (x : TxOutView) (os : List TxOutView)
          → (((o : TxOutView) × Among o os × (from_script o.script_pubkey ≡ s))
              → has bytes_eq s (touches_of from_script os) ≡ true)
          → ((o : TxOutView) × Among o (x ∷ os) × (from_script o.script_pubkey ≡ s))
          → (bytes_eq (from_script x.script_pubkey) s || has bytes_eq s (touches_of from_script os))
            ≡ true
      paying s x os from (o, among, pays) = elim (Among-cases o x os among) [
        | inl same ↦
            let t : bytes_eq (from_script x.script_pubkey) s ≡ true =
              (bytes_eq_iff (from_script x.script_pubkey) s).1
                (ap (λ (y : TxOutView). from_script y.script_pubkey) same ∙ pays) in
            rw t refl
        | inr rest ↦
            or_true (bytes_eq (from_script x.script_pubkey) s)
              (has bytes_eq s (touches_of from_script os)) (from (o, rest, pays))
      ]

  -- A transaction of the mempool has the id of the body; a script is among those that it touches
  -- exactly when one of the body's outputs pays it, an outpoint among those that it spends exactly
  -- when it is an input of the body; and its outputs are the body's, all of them, each under its
  -- number, with its script and value, when there are at most 2 ^ 32.
  pub build_tx_lem :
      (parse_tx : List ℕ → Outcome ParsedTx) (raw : List ℕ) (info : MempoolEntryInfo)
      (tx : ParsedTx)
      → parse_tx raw ≡ ok tx
      → length tx.outputs ≤ 2 ^ 32
      → (m : MempoolTx) × (build_tx from_script parse_tx raw info ≡ ok m)
        × (m.raw ≡ raw)
        × IsBuilt from_script tx m
  unfolding build_tx build_parsed
  build_tx_lem parse_tx raw info tx parsed fits = (
    build_parsed from_script raw info tx,
    rw (parsed) refl,
    refl,
    record {
      named = refl;
      paid = λ s. has-touches_of s tx.outputs;
      spent = λ o. has-collect o tx.inputs;
      count = length-number_outputs 0 tx.outputs (omega (arith, fits));
      numbered = λ k o e.
          let same : 0 + k ≡ k = omega arith in
          number_outputs-get_elem? 0 tx.outputs k o (omega (arith, fits)) e
          ∙ ap (λ n. some (entry n o)) same;
    },
  )

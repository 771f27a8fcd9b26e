-- ===== src/Electrum/Mempool/Poll/Steps.antt =====
-- What the loops of `poll_once` in bindex-electrum/src/mempool.rs make of the index.
use bindex_rs.Common.{
  ℕ, ◌≡◌, refl, sym, ap, ◌∙◌, subst, ◌≢◌, ◌⊎◌, inl, inr, Bool, true, false, not, ◌&&◌, ◌||◌, Option,
  none, some, List, [], ◌∷◌, some_inj, if◌then◌else◌, Bool-cases, if_true, if_false, Option-cases,
}
use bindex_rs.Common.{Outcome, ok}
use bindex_rs.Common.Bytes.{bytes_eq, bytes_eq_iff}
use bindex_rs.Electrum.Maps.{bytes_eq-IsEquality, has, lookup, lookup-set, lookup-unset}
use bindex_rs.Electrum.Mempool.{
  Txid, ScriptHash, MempoolTx, MempoolIndex, insert, remove, get, push_recent,
}
use bindex_rs.Electrum.Mempool.Build.{MempoolEntryInfo, build_tx}
use bindex_rs.Electrum.Fold.{ParsedTx}
use bindex_rs.Electrum.Mempool.Poll.{
  MempoolNode, known_txids, difference, remove_each, insert_each, recent_of,
}
use bindex_rs.Electrum.Mempool.Poll.Fetched.{Of}

get-remove :
    (self : MempoolIndex) (t u : Txid)
    → get (remove self u).1 t ≡ (if bytes_eq u t then none else get self t)
unfolding get remove
get-remove self t u = elim (Option-cases (lookup bytes_eq u self.txs)) [
  | inr (tx, e) ↦ rw (e, remove) (lookup-unset bytes_eq bytes_eq-IsEquality t u self.txs)
  | inl e ↦ rw (e, remove) (absent (Bool-cases (bytes_eq u t)) e)
]
  where
    absent :
        (bytes_eq u t ≡ true) ⊎ (bytes_eq u t ≡ false)
        → lookup bytes_eq u self.txs ≡ none
        → lookup bytes_eq t self.txs ≡ (if bytes_eq u t then none else lookup bytes_eq t self.txs)
    absent (inl h) e =
        rw h (subst (λ x. lookup bytes_eq x self.txs ≡ none) ((bytes_eq_iff u t).0 h) e)
    absent (inr h) e = rw h refl

pub get-remove_each :
    (self : MempoolIndex) (t : Txid) (ts : List Txid)
    → get (remove_each self ts) t ≡ (if has bytes_eq t ts then none else get self t)
unfolding remove_each has
get-remove_each self t [] = refl
get-remove_each self t (u ∷ us) =
    get-remove_each (remove self u).1 t us
    ∙ ap (λ g. if has bytes_eq t us then none else g) (get-remove self t u)
    ∙ joined (has bytes_eq t us) (bytes_eq u t) (get self t)
  where
    joined :
        (a b : Bool) (o : Option MempoolTx)
        → (if a then none else (if b then none else o)) ≡ (if b || a then none else o)
    joined true true o = refl
    joined true false o = refl
    joined false true o = refl
    joined false false o = refl

-- The last of the arrivals that has the id.
abbrev pub arrived :
    Txid → List (MempoolTx × MempoolEntryInfo) → Option MempoolTx → Option MempoolTx
arrived t [] before = before
arrived t ((tx, info) ∷ arrivals) before =
    arrived t arrivals (if bytes_eq tx.txid t then some tx else before)

pub get-insert_each :
    (cap : ℕ) (self : MempoolIndex) (t : Txid) (arrivals : List (MempoolTx × MempoolEntryInfo))
    → get (insert_each cap self arrivals) t ≡ arrived t arrivals (get self t)
unfolding insert_each
get-insert_each cap self t [] = refl
get-insert_each cap self t ((tx, info) ∷ arrivals) =
    get-insert_each cap (push_recent (insert self tx) (recent_of tx) cap) t arrivals
    ∙ ap (arrived t arrivals) (one self tx)
  where
    one :
        (self : MempoolIndex) (tx : MempoolTx)
        → get (push_recent (insert self tx) (recent_of tx) cap) t
          ≡ (if bytes_eq tx.txid t then some tx else get self t)
    one self tx =
        unfold get in
        unfold push_recent in
        unfold insert in lookup-set bytes_eq bytes_eq-IsEquality t tx.txid tx self.txs

true_ne : true ≢ false
true_ne e = cc

has-known_txids :
    (t : Txid) (m : List (Txid × MempoolTx))
    → (lookup bytes_eq t m ≡ none → has bytes_eq t (known_txids m) ≡ false)
      × ((tx : MempoolTx) → lookup bytes_eq t m ≡ some tx → has bytes_eq t (known_txids m) ≡ true)
unfolding lookup has known_txids
has-known_txids t [] = (λ e. refl, λ tx e. cc)
has-known_txids t ((u, x) ∷ m) =
    let (a, b) = has-known_txids t m in
    elim (Bool-cases (bytes_eq u t)) [
      | inl h ↦ (
        λ e. let bad = if_true (bytes_eq u t) (some x) (lookup bytes_eq t m) h e in cc,
        λ tx e. rw h refl,
      )
      | inr h ↦ (
        λ e. rw h (a (if_false (bytes_eq u t) (some x) (lookup bytes_eq t m) h e)),
        λ tx e. rw h (b tx (if_false (bytes_eq u t) (some x) (lookup bytes_eq t m) h e)),
      )
    ]

pub has-get :
    (self : MempoolIndex) (t : Txid) (tx : MempoolTx)
    → get self t ≡ some tx
    → has bytes_eq t (known_txids self.txs) ≡ true
unfolding get
has-get self t tx e = (has-known_txids t self.txs).1 tx e

pub has-difference :
    (t : Txid) (ts current : List Txid)
    → has bytes_eq t (difference ts current) ≡ (has bytes_eq t ts && not (has bytes_eq t current))
unfolding has difference
has-difference t [] current = refl
has-difference t (u ∷ us) current =
    let ih = has-difference t us current in
    elim (Bool-cases (has bytes_eq u current)) [
      | inr h ↦ rw h (
          ap (λ b. bytes_eq u t || b) ih
          ∙ kept (bytes_eq u t) (has bytes_eq t us) (has bytes_eq t current)
              (λ e. ap (λ x. has bytes_eq x current) (sym ((bytes_eq_iff u t).0 e)) ∙ h))
      | inl h ↦ rw h (
          ih
          ∙ gone (bytes_eq u t) (has bytes_eq t us) (has bytes_eq t current)
              (λ e. ap (λ x. has bytes_eq x current) (sym ((bytes_eq_iff u t).0 e)) ∙ h))
    ]
  where
    kept : (a b c : Bool) → (a ≡ true → c ≡ false) → (a || (b && not c)) ≡ ((a || b) && not c)
    kept true b c h = rw (h refl) refl
    kept false b c h = refl

    gone : (a b c : Bool) → (a ≡ true → c ≡ true) → (b && not c) ≡ ((a || b) && not c)
    gone true b c h = rw (h refl) (never b)
      where
        never : (b : Bool) → (b && false) ≡ false
        never true = refl
        never false = refl
    gone false b c h = refl

module _ (parse_tx : List ℕ → Outcome ParsedTx) (from_script : List ℕ → ScriptHash)
    (node : MempoolNode) (P : Txid → Type 0) where
  pub arrived_other :
      (t : Txid) (arrivals : List (MempoolTx × MempoolEntryInfo)) (before : Option MempoolTx)
      → (P t → ⊥)
      → Of parse_tx from_script node P arrivals
      → arrived t arrivals before ≡ before
  arrived_other t [] before away h = refl
  arrived_other t ((tx, info) ∷ arrivals) before away h = elim (Bool-cases (bytes_eq tx.txid t)) [
    | inl e ↦ absurd (away (subst P ((bytes_eq_iff tx.txid t).0 e) h.0.0))
    | inr e ↦ rw e (arrived_other t arrivals before away h.1)
  ]

  -- A transaction that the node serves under the id.
  abbrev pub IsArrival : Txid → MempoolTx → Type 0
  IsArrival t tx =
      (tx.txid ≡ t)
      × P t
      × ((raw : List ℕ) × (info : MempoolEntryInfo) × (node.tx_raw t ≡ ok raw)
          × (build_tx from_script parse_tx raw info ≡ ok tx))

  pub arrived-some :
      (t : Txid) (arrivals : List (MempoolTx × MempoolEntryInfo)) (before : Option MempoolTx)
      (tx : MempoolTx)
      → Of parse_tx from_script node P arrivals
      → arrived t arrivals before ≡ some tx
      → (before ≡ some tx) ⊎ IsArrival t tx
  arrived-some t [] before tx h e = inl e
  arrived-some t ((x, info) ∷ arrivals) before tx h e =
      elim (arrived-some t arrivals (if bytes_eq x.txid t then some x else before) tx h.1 e) [
        | inr a ↦ inr a
        | inl b ↦ elim (Bool-cases (bytes_eq x.txid t)) [
          | inr f ↦ inl (if_false (bytes_eq x.txid t) (some x) before f b)
          | inl f ↦
              let same = some_inj (if_true (bytes_eq x.txid t) (some x) before f b) in
              let id = (bytes_eq_iff x.txid t).0 f in
              let (p, (raw, c, d)) = h.0 in
              inr (
                ap (λ (y : MempoolTx). y.txid) (sym same) ∙ id,
                subst P id p,
                (raw, info, subst (λ i. node.tx_raw i ≡ ok raw) id c, d ∙ ap ok same),
              )
        ]
      ]

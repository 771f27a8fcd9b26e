-- ===== src/Electrum/Mempool/Loops.antt =====
-- What the loops of `insert` and `remove` in bindex-electrum/src/mempool.rs make of the maps.
use bindex_rs.Common.{
  ℕ, ◌≡◌, refl, sym, ap, ◌∙◌, subst, ◌≢◌, inl, inr, Bool, true, false, ◌&&◌, ◌||◌, Option, none,
  some, List, [], ◌∷◌, arith, ◌==◌, if◌then◌else◌, ==_iff, Bool-cases,
}
use bindex_rs.Common.Bytes.{bytes_eq, bytes_eq_iff, bytes_le}
use bindex_rs.Electrum.Maps.{
  bytes_eq-IsEquality, has, lookup, set, unset, remove_all, IsEquality, lookup-set, lookup-unset,
  has-remove_all,
}
use bindex_rs.Electrum.Mempool.{
  Txid, ScriptHash, OutPoint, outpoint_eq, insert_txid, or_empty, txids_of, add_touches, add_spends,
  drop_touch, drop_touches, drop_spends,
}

pub false_ne : false ≢ true
false_ne e = cc

pub none_ne {ℓ} : {A : Type ℓ} {a : A} → none ≢ some a
none_ne e = cc

pub and_split : (a b : Bool) → (a && b) ≡ true → (a ≡ true) × (b ≡ true)
and_split true b h = (refl, h)
and_split false b h = cc

pub or_same : (a b c : Bool) → a ≡ b → (b || c) ≡ (a || (b || c))
or_same true b c e = rw (← e)
or_same false b c e = refl

pub or_swap : (a b c : Bool) → (b || (a || c)) ≡ (a || (b || c))
or_swap true true c = refl
or_swap true false c = refl
or_swap false b c = refl

pub or_share : (h r u x : Bool) → ((h && u) || ((r && u) || x)) ≡ (((r || h) && u) || x)
or_share true true true x = refl
or_share true true false x = refl
or_share true false u x = ground (arith)
or_share false true u x = refl
or_share false false u x = refl

pub if_share :
    (h r u x : Bool)
    → (if h && u then false else (if r && u then false else x))
      ≡ (if (r || h) && u then false else x)
if_share true true true x = refl
if_share true true false x = refl
if_share true false u x = refl
if_share false true u x = refl
if_share false false u x = refl

pub outpoint_eq-IsEquality : IsEquality outpoint_eq
unfolding outpoint_eq
outpoint_eq-IsEquality = record {
  iff = λ a b. (
    λ h.
        let (p, q) = and_split (bytes_eq a.txid b.txid) (a.vout == b.vout) h in
        ap (λ (t : Txid). record { txid = t; vout = a.vout }) ((bytes_eq_iff a.txid b.txid).0 p)
        ∙ ap (λ (v : ℕ). record { txid = b.txid; vout = v }) ((==_iff a.vout b.vout).0 q),
    λ e. rw (
      (bytes_eq_iff a.txid b.txid).1 (ap (λ (o : OutPoint). o.txid) e),
      (==_iff a.vout b.vout).1 (ap (λ (o : OutPoint). o.vout) e),
    ),
  );
}

pub has-insert_txid :
    (t u : Txid) (us : List Txid)
    → has bytes_eq t (insert_txid u us) ≡ (bytes_eq u t || has bytes_eq t us)
unfolding has insert_txid
has-insert_txid t u [] = refl
has-insert_txid t u (v ∷ us) = elim (Bool-cases (bytes_eq u v)) [
  | inl e ↦ rw e (
      or_same (bytes_eq u t) (bytes_eq v t) (has bytes_eq t us)
        (ap (λ x. bytes_eq x t) ((bytes_eq_iff u v).0 e)))
  | inr e ↦ elim (Bool-cases (bytes_le u v)) [
    | inl l ↦ rw (e, l)
    | inr l ↦
        rw (e, l, has-insert_txid t u us)
          (or_swap (bytes_eq u t) (bytes_eq v t) (has bytes_eq t us))
  ]
]

pub lookup-add_spends :
    (o : OutPoint) (t : Txid) (os : List OutPoint) (spent : List (OutPoint × Txid))
    → lookup outpoint_eq o (add_spends t os spent)
      ≡ (if has outpoint_eq o os then some t else lookup outpoint_eq o spent)
unfolding add_spends has
lookup-add_spends o t [] spent = refl
lookup-add_spends o t (p ∷ os) spent =
    lookup-add_spends o t os (set outpoint_eq p t spent)
    ∙ rw (lookup-set outpoint_eq outpoint_eq-IsEquality o p t spent)
        (join (outpoint_eq p o) (has outpoint_eq o os) _ _)
  where
    join :
        (a b : Bool) (x y : Option Txid)
        → (if b then x else (if a then x else y)) ≡ (if a || b then x else y)
    join true true x y = refl
    join true false x y = refl
    join false true x y = refl
    join false false x y = refl

pub lookup-drop_spends :
    (o : OutPoint) (os : List OutPoint) (spent : List (OutPoint × Txid))
    → lookup outpoint_eq o (drop_spends os spent)
      ≡ (if has outpoint_eq o os then none else lookup outpoint_eq o spent)
unfolding drop_spends has
lookup-drop_spends o [] spent = refl
lookup-drop_spends o (p ∷ os) spent =
    lookup-drop_spends o os (unset outpoint_eq p spent)
    ∙ rw (lookup-unset outpoint_eq outpoint_eq-IsEquality o p spent)
        (join1 (outpoint_eq p o) (has outpoint_eq o os) _)
  where
    join1 :
        (a b : Bool) (y : Option Txid)
        → (if b then none else (if a then none else y)) ≡ (if a || b then none else y)
    join1 true true y = refl
    join1 true false y = refl
    join1 false true y = refl
    join1 false false y = refl

pub txids_of-set :
    (s r : ScriptHash) (us : List Txid) (by : List (ScriptHash × List Txid))
    → txids_of s (set bytes_eq r us by) ≡ (if bytes_eq r s then us else txids_of s by)
unfolding txids_of
txids_of-set s r us by =
    ap or_empty (lookup-set bytes_eq bytes_eq-IsEquality s r us by) ∙ out (bytes_eq r s)
  where
    out :
        (b : Bool)
        → or_empty (if b then some us else lookup bytes_eq s by)
          ≡ (if b then us else or_empty (lookup bytes_eq s by))
    out true = refl
    out false = refl

pub txids_of-unset :
    (s r : ScriptHash) (by : List (ScriptHash × List Txid))
    → txids_of s (unset bytes_eq r by) ≡ (if bytes_eq r s then [] else txids_of s by)
unfolding txids_of
txids_of-unset s r by =
    ap or_empty (lookup-unset bytes_eq bytes_eq-IsEquality s r by) ∙ out (bytes_eq r s)
  where
    out :
        (b : Bool)
        → or_empty (if b then none else lookup bytes_eq s by)
          ≡ (if b then [] else or_empty (lookup bytes_eq s by))
    out true = refl
    out false = refl

pub listed_set :
    (s r : ScriptHash) (t u : Txid) (by : List (ScriptHash × List Txid))
    → has bytes_eq t (txids_of s (set bytes_eq r (insert_txid u (txids_of r by)) by))
      ≡ ((bytes_eq r s && bytes_eq u t) || has bytes_eq t (txids_of s by))
listed_set s r t u by =
    rw (txids_of-set s r (insert_txid u (txids_of r by)) by) (elim (Bool-cases (bytes_eq r s)) [
      | inl e ↦ rw e (
          has-insert_txid t u (txids_of r by)
          ∙ ap (λ x. bytes_eq u t || has bytes_eq t (txids_of x by)) ((bytes_eq_iff r s).0 e))
      | inr e ↦ rw e
    ])

pub listed_drop_touch :
    (s r : ScriptHash) (t u : Txid) (by : List (ScriptHash × List Txid))
    → has bytes_eq t (txids_of s (drop_touch u r by))
      ≡ (if bytes_eq r s && bytes_eq u t then false else has bytes_eq t (txids_of s by))
unfolding drop_touch txids_of has
listed_drop_touch s r t u by = at (lookup bytes_eq r by) refl
  where
    -- The script itself is looked at in place of `r`.
    there :
        (o : Option (List Txid))
        → lookup bytes_eq r by ≡ o
        → bytes_eq r s ≡ true
        → lookup bytes_eq s by ≡ o
    there o e same = subst (λ x. lookup bytes_eq x by ≡ o) ((bytes_eq_iff r s).0 same) e

    gone :
        (b c : Bool) (kept : List Txid) (us old : List Txid)
        → (b ≡ true → old ≡ us)
        → has bytes_eq t kept ≡ (if c then false else has bytes_eq t us)
        → has bytes_eq t (if b then kept else old) ≡ (if b && c then false else has bytes_eq t old)
    gone true c kept us old same e =
        e ∙ ap (λ l. if c then false else has bytes_eq t l) (sym (same refl))
    gone false c kept us old same e = refl

    left :
        (us : List Txid) (kept : List Txid)
        → lookup bytes_eq r by ≡ some us
        → remove_all bytes_eq u us ≡ kept
        → has bytes_eq t (
            txids_of s
              (elim kept [ [] ↦ unset bytes_eq r by | v ∷ vs ↦ set bytes_eq r (v ∷ vs) by ]))
          ≡ (if bytes_eq r s && bytes_eq u t then false else has bytes_eq t (txids_of s by))
    left us [] e f =
        ap (has bytes_eq t) (txids_of-unset s r by)
        ∙ gone (bytes_eq r s) (bytes_eq u t) [] us (txids_of s by)
            (λ same. ap or_empty (there (some us) e same))
            (ap (has bytes_eq t) (sym f) ∙ has-remove_all bytes_eq bytes_eq-IsEquality t u us)
    left us (v ∷ vs) e f =
        ap (has bytes_eq t) (txids_of-set s r (v ∷ vs) by)
        ∙ gone (bytes_eq r s) (bytes_eq u t) (v ∷ vs) us (txids_of s by)
            (λ same. ap or_empty (there (some us) e same))
            (ap (has bytes_eq t) (sym f) ∙ has-remove_all bytes_eq bytes_eq-IsEquality t u us)

    absent :
        (b c : Bool) (old : List Txid)
        → (b ≡ true → old ≡ [])
        → has bytes_eq t old ≡ (if b && c then false else has bytes_eq t old)
    absent true true old e = ap (has bytes_eq t) (e refl)
    absent true false old e = refl
    absent false c old e = refl

    at :
        (o : Option (List Txid))
        → lookup bytes_eq r by ≡ o
        → has bytes_eq t (
            txids_of s (elim o [
              | none ↦ by
              | some txids ↦ elim (remove_all bytes_eq u txids) [
                | [] ↦ unset bytes_eq r by
                | v ∷ vs ↦ set bytes_eq r (v ∷ vs) by
              ]
            ]))
          ≡ (if bytes_eq r s && bytes_eq u t then false else has bytes_eq t (txids_of s by))
    at none e =
        absent (bytes_eq r s) (bytes_eq u t) (txids_of s by)
          (λ same. ap or_empty (there none e same))
    at (some us) e = left us (remove_all bytes_eq u us) e refl

pub listed_add :
    (s : ScriptHash) (t u : Txid) (ss : List ScriptHash) (by : List (ScriptHash × List Txid))
    → has bytes_eq t (txids_of s (add_touches u ss by))
      ≡ ((has bytes_eq s ss && bytes_eq u t) || has bytes_eq t (txids_of s by))
unfolding add_touches has
listed_add s t u [] by = refl
listed_add s t u (r ∷ ss) by =
    listed_add s t u ss (set bytes_eq r (insert_txid u (txids_of r by)) by)
    ∙ ap (λ b. (has bytes_eq s ss && bytes_eq u t) || b) (listed_set s r t u by)
    ∙ or_share (has bytes_eq s ss) (bytes_eq r s) (bytes_eq u t) (has bytes_eq t (txids_of s by))

pub listed_drop :
    (s : ScriptHash) (t u : Txid) (ss : List ScriptHash) (by : List (ScriptHash × List Txid))
    → has bytes_eq t (txids_of s (drop_touches u ss by))
      ≡ (if has bytes_eq s ss && bytes_eq u t then false else has bytes_eq t (txids_of s by))
unfolding drop_touches has
listed_drop s t u [] by = refl
listed_drop s t u (r ∷ ss) by =
    listed_drop s t u ss (drop_touch u r by)
    ∙ ap (λ b. if has bytes_eq s ss && bytes_eq u t then false else b)
        (listed_drop_touch s r t u by)
    ∙ if_share (has bytes_eq s ss) (bytes_eq r s) (bytes_eq u t) (has bytes_eq t (txids_of s by))

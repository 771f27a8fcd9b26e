-- ===== src/Electrum/History/Fetched.antt =====
-- `fetch_bodies` of bindex-electrum/src/chain.rs hands out what the node serves, in the references'
-- order.
use bindex_rs.Common.{
  ℕ, min, ◌≡◌, refl, sym, ap, ◌∙◌, subst, ◌≢◌, inl, inr, Bool, true, false, List, [], ◌∷◌, ◌++◌,
  map, ltb, if◌then◌else◌, Bool-cases, if_true, if_false,
}
use bindex_rs.Common.{length, All, chunks, flatten, flatten-chunks, All-split, map-append, slice}
use bindex_rs.Common.{deadline_passed, Outcome, ok, err, panic, ◌>>=◌, ok_inj, >>=-eq-ok}
use bindex_rs.Chain.Reads.{TxBytesRef}
use bindex_rs.Electrum.History.{
  BlockPart, fetch_body, fetch_each, join, collect, fetch_bodies, div_ceil,
}

-- The node never serves anything but the body that a reference stands for.
abbrev pub Serves : (TxBytesRef → List ℕ) → BlockPart → Type 0
Serves body block_part =
    (r : TxBytesRef) (raw : List ℕ) → fetch_body block_part r ≡ ok raw → raw ≡ body r

-- The node answers for each of the references.
abbrev pub Answers : (TxBytesRef → List ℕ) → BlockPart → List TxBytesRef → Type 0
Answers body block_part refs = All (λ r. fetch_body block_part r ≡ ok (body r)) refs

pub fetch_each-served :
    (body : TxBytesRef → List ℕ) (block_part : BlockPart) (refs : List TxBytesRef)
    (raws : List (List ℕ))
    → Serves body block_part
    → fetch_each block_part refs ≡ ok raws
    → raws ≡ map body refs
unfolding fetch_each
fetch_each-served body block_part [] raws serves e = sym (ok_inj e)
fetch_each-served body block_part (r ∷ refs) raws serves e =
    let (raw, a, e1) =
      >>=-eq-ok (fetch_body block_part r)
        (λ raw. fetch_each block_part refs >>= λ rest. ok (raw ∷ rest)) e in
    let (rest, b, e2) = >>=-eq-ok (fetch_each block_part refs) (λ rest. ok (raw ∷ rest)) e1 in
    let ih = fetch_each-served body block_part refs rest serves b in
    let h = serves r raw a in sym (ok_inj e2) ∙ (λ i. h i ∷ ih i)

-- Two results of `collect::<Result<Vec<_>, _>>()`, one behind the other.
abbrev append_ok : Outcome (List (List ℕ)) → Outcome (List (List ℕ)) → Outcome (List (List ℕ))
append_ok a b = a >>= λ x. b >>= λ y. ok (x ++ y)

cons_ok-append :
    (first : Outcome (List ℕ)) (a b c : Outcome (List (List ℕ)))
    → append_ok a b ≡ c
    → append_ok (first >>= λ raw. a >>= λ raws. ok (raw ∷ raws)) b
      ≡ (first >>= λ raw. c >>= λ raws. ok (raw ∷ raws))
cons_ok-append panic a b c e = refl
cons_ok-append (err f) a b c e = refl
cons_ok-append (ok raw) panic b c e = rw (← e) refl
cons_ok-append (ok raw) (err f) b c e = rw (← e) refl
cons_ok-append (ok raw) (ok x) panic c e = rw (← e) refl
cons_ok-append (ok raw) (ok x) (err f) c e = rw (← e) refl
cons_ok-append (ok raw) (ok x) (ok y) c e = rw (← e) refl

append_ok-nil : (b : Outcome (List (List ℕ))) → append_ok (ok []) b ≡ b
append_ok-nil panic = refl
append_ok-nil (err e) = refl
append_ok-nil (ok y) = refl

fetch_each-append :
    (block_part : BlockPart) (xs ys : List TxBytesRef)
    → append_ok (fetch_each block_part xs) (fetch_each block_part ys)
      ≡ fetch_each block_part (xs ++ ys)
unfolding fetch_each
fetch_each-append block_part [] ys = append_ok-nil (fetch_each block_part ys)
fetch_each-append block_part (r ∷ xs) ys =
    cons_ok-append (fetch_body block_part r) (fetch_each block_part xs) (fetch_each block_part ys)
      (fetch_each block_part (xs ++ ys)) (fetch_each-append block_part xs ys)

-- No call of the node's client panics.
abbrev pub NeverPanics : BlockPart → Type 0
NeverPanics block_part = (r : TxBytesRef) → fetch_body block_part r ≢ panic

fetch_each_returns :
    (block_part : BlockPart) (refs : List TxBytesRef)
    → NeverPanics block_part
    → join (fetch_each block_part refs) ≡ fetch_each block_part refs
unfolding join fetch_each
fetch_each_returns block_part [] calm = refl
fetch_each_returns block_part (r ∷ refs) calm =
    returned (fetch_body block_part r) (fetch_each block_part refs) (calm r)
      (fetch_each_returns block_part refs calm)
  where
    returned :
        (first : Outcome (List ℕ)) (rest : Outcome (List (List ℕ)))
        → first ≢ panic
        → join rest ≡ rest
        → join (first >>= λ raw. rest >>= λ raws. ok (raw ∷ raws))
          ≡ (first >>= λ raw. rest >>= λ raws. ok (raw ∷ raws))
    returned panic rest h e = absurd (h refl)
    returned (err f) rest h e = refl
    returned (ok raw) panic h e = cc
    returned (ok raw) (err f) h e = refl
    returned (ok raw) (ok raws) h e = refl

collect-fetch_each :
    (block_part : BlockPart) (slices : List (List TxBytesRef))
    → NeverPanics block_part
    → collect (map (λ slice. join (fetch_each block_part slice)) slices)
      ≡ fetch_each block_part (flatten slices)
unfolding collect
collect-fetch_each block_part [] calm = unfold fetch_each in refl
collect-fetch_each block_part (slice ∷ slices) calm =
    rw (fetch_each_returns block_part slice calm, collect-fetch_each block_part slices calm)
      (fetch_each-append block_part slice (flatten slices))

-- Before the deadline, and when no call of the client panics, fetching with up to eight workers
-- gives what one call after the other gives: the bodies in the order of the references, or the
-- error of the first call that fails. Behind the deadline it fails without a call.
pub fetch_bodies-eq-fetch_each :
    (block_part : BlockPart) (expired : Bool) (refs : List TxBytesRef)
    → NeverPanics block_part
    → fetch_bodies block_part expired refs
      ≡ (if expired then err deadline_passed else fetch_each block_part refs)
unfolding fetch_bodies
fetch_bodies-eq-fetch_each block_part true refs calm = refl
fetch_bodies-eq-fetch_each block_part false refs calm = elim (Bool-cases (ltb (length refs) 2)) [
  | inl t ↦ rw t refl
  | inr f ↦
      let chunk : ℕ = div_ceil (length refs) (min 8 (length refs)) in
      rw f (
        collect-fetch_each block_part (chunks chunk chunk [] refs) calm
        ∙ ap (fetch_each block_part) (flatten-chunks chunk chunk [] refs))
]

join-eq-ok :
    (first : Outcome (List (List ℕ))) (raws : List (List ℕ))
    → join first ≡ ok raws
    → first ≡ ok raws
unfolding join
join-eq-ok panic raws e = cc
join-eq-ok (err f) raws e = cc
join-eq-ok (ok x) raws e = e

module _ (body : TxBytesRef → List ℕ) (block_part : BlockPart) where
  collect-served :
      (slices : List (List TxBytesRef)) (raws : List (List ℕ))
      → Serves body block_part
      → collect (map (λ slice. join (fetch_each block_part slice)) slices) ≡ ok raws
      → raws ≡ map body (flatten slices)
  unfolding collect
  collect-served [] raws serves e = sym (ok_inj e)
  collect-served (slice ∷ slices) raws serves e =
      let others = collect (map (λ xs. join (fetch_each block_part xs)) slices) in
      let (x, a, e1) =
        >>=-eq-ok (join (fetch_each block_part slice)) (λ x. others >>= λ y. ok (x ++ y)) e in
      let (y, b, e2) = >>=-eq-ok others (λ y. ok (x ++ y)) e1 in
      let h =
        fetch_each-served body block_part slice x serves
          (join-eq-ok (fetch_each block_part slice) x a) in
      let k = collect-served slices y serves b in
      sym (ok_inj e2)
      ∙ ap (λ t. t ++ y) h
      ∙ ap (λ t. map body slice ++ t) k
      ∙ sym (map-append body slice (flatten slices))

  -- Bodies that come are those that the references stand for.
  pub fetch_bodies-served :
      (expired : Bool) (refs : List TxBytesRef) (raws : List (List ℕ))
      → Serves body block_part
      → fetch_bodies block_part expired refs ≡ ok raws
      → raws ≡ map body refs
  unfolding fetch_bodies
  fetch_bodies-served true refs raws serves e = cc
  fetch_bodies-served false refs raws serves e =
      let test = ltb (length refs) 2 in
      let chunk : ℕ = div_ceil (length refs) (min 8 (length refs)) in
      let slices = chunks chunk chunk [] refs in
      let one = fetch_each block_part refs in
      let many = collect (map (λ slice. join (fetch_each block_part slice)) slices) in
      elim (Bool-cases test) [
        | inl t ↦ fetch_each-served body block_part refs raws serves (if_true test one many t e)
        | inr f ↦
            collect-served slices raws serves (if_false test one many f e)
            ∙ ap (map body) (flatten-chunks chunk chunk [] refs)
      ]

  fetch_each_answered :
      (refs : List TxBytesRef)
      → Answers body block_part refs
      → fetch_each block_part refs ≡ ok (map body refs)
  unfolding fetch_each
  fetch_each_answered [] h = refl
  fetch_each_answered (r ∷ refs) h = rw (h.0, fetch_each_answered refs h.1) refl

  collect_answered :
      (slices : List (List TxBytesRef))
      → Answers body block_part (flatten slices)
      → collect (map (λ slice. join (fetch_each block_part slice)) slices)
        ≡ ok (map body (flatten slices))
  unfolding collect join
  collect_answered [] h = refl
  collect_answered (slice ∷ slices) h =
      let (a, b) =
        All-split (λ r. fetch_body block_part r ≡ ok (body r)) slice (flatten slices) h in
      rw (fetch_each_answered slice a, collect_answered slices b)
        (ap ok (sym (map-append body slice (flatten slices))))

  pub fetch_bodies_answered :
      (refs : List TxBytesRef)
      → Answers body block_part refs
      → fetch_bodies block_part false refs ≡ ok (map body refs)
  unfolding fetch_bodies
  fetch_bodies_answered refs h = elim (Bool-cases (ltb (length refs) 2)) [
    | inl t ↦ rw t (fetch_each_answered refs h)
    | inr f ↦
        let chunk : ℕ = div_ceil (length refs) (min 8 (length refs)) in
        let whole = flatten-chunks chunk chunk [] refs in
        rw f (
          collect_answered (chunks chunk chunk [] refs)
            (subst (Answers body block_part) (sym whole) h)
          ∙ ap (λ t. ok (map body t)) whole)
  ]

-- ===== src/Electrum/Maps.antt =====
-- Maps and sets of the server's indexes, as lists under a test of equality.
use bindex_rs.Common.{
  ◌≡◌, refl, sym, ap, ◌∙◌, ◌≢◌, ◌↔◌, inl, inr, Bool, true, false, ◌||◌, Option, none, some, List,
  [], ◌∷◌, arith, if◌then◌else◌, Bool-cases, ◌≤◌, ◌<◌, if_false,
}
use bindex_rs.Common.{length}
use bindex_rs.Common.Bytes.{bytes_eq, bytes_eq_iff}

true_ne : true ≢ false
true_ne e = cc

-- A test that holds on equal keys only, and on all of them.
pub record IsEquality {K : Type 0} (eq : K → K → Bool) : Type 0 where
  pub iff : (j k : K) → (eq j k ≡ true) ↔ (j ≡ k)

module _ {K : Type 0} (eq : K → K → Bool) where
  -- `set.contains(&k)`
  unfoldable pub has : K → List K → Bool
  has k [] = false
  has k (j ∷ js) = eq j k || has k js

  -- `map.get(&k)`
  unfoldable pub lookup {ℓ} : {V : Type ℓ} → K → List (K × V) → Option V
  lookup k [] = none
  lookup k ((j, v) ∷ m) = let rest = lookup k m in if eq j k then some v else rest

  -- `map.remove(&k)`
  unfoldable pub unset {ℓ} : {V : Type ℓ} → K → List (K × V) → List (K × V)
  unset k [] = []
  unset k ((j, v) ∷ m) = let rest = unset k m in if eq j k then rest else (j, v) ∷ rest

  -- `map.insert(k, v)`
  unfoldable pub set {ℓ} : {V : Type ℓ} → K → V → List (K × V) → List (K × V)
  unfolding unset
  set k v m = (k, v) ∷ unset k m

  unfoldable pub remove_all : K → List K → List K
  remove_all k [] = []
  remove_all k (j ∷ js) = let rest = remove_all k js in if eq j k then rest else j ∷ rest

  -- No key is there twice.
  abbrev pub Distinct {ℓ} : {V : Type ℓ} → List (K × V) → Type ℓ
  Distinct [] = Unit
  Distinct ((k, v) ∷ m) = (lookup k m ≡ none) × Distinct m

module _ {K : Type 0} (eq : K → K → Bool) (equality : IsEquality eq) where
  eq_refl : (k : K) → eq k k ≡ true
  eq_refl k = (equality.iff k k).1 refl

  -- Two keys that equal a third one are equal.
  eq_join : (i j k : K) → eq i j ≡ true → eq k j ≡ true → eq i k ≡ true
  eq_join i j k p q = (equality.iff i k).1 ((equality.iff i j).0 p ∙ sym ((equality.iff k j).0 q))

  unset_step {ℓ} :
      {V : Type ℓ} (ik ij kj : Bool) (v : V) (here rest : Option V) (others : List (K × V))
      (j i : K)
      → lookup eq j others ≡ rest
      → eq i j ≡ ij
      → (ik ≡ true → ij ≡ kj)
      → (ij ≡ true → kj ≡ true → ik ≡ true)
      → rest ≡ (if kj then none else here)
      → lookup eq j (if ik then others else (i, v) ∷ others)
        ≡ (if kj then none else (if ij then some v else here))
  unfolding lookup
  unset_step true ij true v here rest others j i e f p q h = e ∙ h
  unset_step true ij false v here rest others j i e f p q h = rw (p refl) (e ∙ h)
  unset_step false true true v here rest others j i e f p q h = absurd (true_ne (sym (q refl refl)))
  unset_step false true false v here rest others j i e f p q h = rw f
  unset_step false false kj v here rest others j i e f p q h = rw f (e ∙ h)

  has_step :
      (ik ij kj : Bool) (here rest : Bool) (others : List K) (j i : K)
      → has eq j others ≡ rest
      → eq i j ≡ ij
      → (ik ≡ true → ij ≡ kj)
      → (ij ≡ true → kj ≡ true → ik ≡ true)
      → rest ≡ (if kj then false else here)
      → has eq j (if ik then others else i ∷ others) ≡ (if kj then false else ij || here)
  unfolding has
  has_step true ij true here rest others j i e f p q h = e ∙ h
  has_step true ij false here rest others j i e f p q h = rw (p refl) (e ∙ h)
  has_step false true true here rest others j i e f p q h = absurd (true_ne (sym (q refl refl)))
  has_step false true false here rest others j i e f p q h = rw f
  has_step false false true here rest others j i e f p q h = rw f (e ∙ h)
  has_step false false false here rest others j i e f p q h = rw f (e ∙ h)

  pub lookup-unset {ℓ} :
      {V : Type ℓ} (j k : K) (m : List (K × V))
      → lookup eq j (unset eq k m) ≡ (if eq k j then none else lookup eq j m)
  unfolding lookup unset
  lookup-unset j k [] = ground arith
  lookup-unset j k ((i, v) ∷ m) =
      unset_step (eq i k) (eq i j) (eq k j) v (lookup eq j m) (lookup eq j (unset eq k m))
        (unset eq k m) j i refl refl (λ t. ap (λ x. eq x j) ((equality.iff i k).0 t))
        (λ g h. eq_join i j k g h) (lookup-unset j k m)

  pub lookup-set {ℓ} :
      {V : Type ℓ} (j k : K) (v : V) (m : List (K × V))
      → lookup eq j (set eq k v m) ≡ (if eq k j then some v else lookup eq j m)
  unfolding lookup set
  lookup-set j k v m = elim (Bool-cases (eq k j)) [
    | inl t ↦ rw t
    | inr f ↦ rw f (lookup-unset j k m ∙ rw f)
  ]

  pub has-remove_all :
      (j k : K) (js : List K)
      → has eq j (remove_all eq k js) ≡ (if eq k j then false else has eq j js)
  unfolding has remove_all
  has-remove_all j k [] = ground arith
  has-remove_all j k (i ∷ js) =
      has_step (eq i k) (eq i j) (eq k j) (has eq j js) (has eq j (remove_all eq k js))
        (remove_all eq k js) j i refl refl (λ t. ap (λ x. eq x j) ((equality.iff i k).0 t))
        (λ g h. eq_join i j k g h) (has-remove_all j k js)

  none_either {ℓ} :
      {V : Type ℓ} (b : Bool) (o : Option V) → o ≡ none → (if b then none else o) ≡ none
  none_either true o e = refl
  none_either false o e = e

  pub Distinct-unset {ℓ} :
      {V : Type ℓ} (k : K) (m : List (K × V)) → Distinct eq m → Distinct eq (unset eq k m)
  unfolding unset
  Distinct-unset k [] d = tt
  Distinct-unset k ((j, v) ∷ m) d = elim (Bool-cases (eq j k)) [
    | inl t ↦ rw t (Distinct-unset k m d.1)
    | inr f ↦
        rw f (lookup-unset j k m ∙ none_either (eq k j) (lookup eq j m) d.0, Distinct-unset k m d.1)
  ]

  pub Distinct-set {ℓ} :
      {V : Type ℓ} (k : K) (v : V) (m : List (K × V)) → Distinct eq m → Distinct eq (set eq k v m)
  unfolding set
  Distinct-set k v m d = (lookup-unset k k m ∙ rw (eq_refl k) refl, Distinct-unset k m d)

  pub length-unset {ℓ} : {V : Type ℓ} (k : K) (m : List (K × V)) → length (unset eq k m) ≤ length m
  unfolding unset
  length-unset k [] = ground arith
  length-unset k ((j, v) ∷ m) = ground (arith, length-unset k m)

  pub length-unset-some {ℓ} :
      {V : Type ℓ} (k : K) (m : List (K × V)) (v : V)
      → lookup eq k m ≡ some v
      → length (unset eq k m) < length m
  unfolding unset lookup
  length-unset-some k [] v e = cc
  length-unset-some k ((j, u) ∷ m) v e = elim (Bool-cases (eq j k)) [
    | inl t ↦ rw t (omega (arith, length-unset k m))
    | inr f ↦ rw f (omega (arith, length-unset-some k m v (if_false (eq j k) _ _ f e)))
  ]

pub bytes_eq-IsEquality : IsEquality bytes_eq
bytes_eq-IsEquality = record { iff = bytes_eq_iff }

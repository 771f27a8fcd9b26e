-- ===== src/Electrum/Protocol/Normal.antt =====
-- Versions that `ProtocolVersion::from_str` of bindex-electrum/src/protocol.rs gives: their order agrees
-- with their equality.
use bindex_rs.Common.{
  ℕ, zero, suc, ◌+◌, ◌≤◌, max, ◌≡◌, refl, sym, ap, ◌∙◌, ◌≢◌, ◌↔◌, inl, inr, true, false, none, some,
  List, [], ◌∷◌, arith, ◌==◌, some_inj, ==_iff, Bool-cases, Option-cases,
}
use bindex_rs.Common.{length}
use Prim.Native.Nat.{Ordering}
use mathlib.Core.Path.{subst₂}
use bindex_rs.Electrum.Protocol.{
  ProtocolVersion, first_or_zero, behind_first, cmp_places, cmp, onto, strip_zeros,
  parse_components, normal_version, from_str,
}
use bindex_rs.Rest.Text.{split}

-- No zero stands at the end.
abbrev Stripped : List ℕ → Type 0
Stripped [] = Unit
Stripped (c ∷ cs) = (cs ≡ [] → c ≢ 0) × Stripped cs

Stripped-onto : (c : ℕ) (cs : List ℕ) → Stripped cs → Stripped (onto c cs)
Stripped-onto c [] h = elim (Bool-cases (c == 0)) [
  | inl t ↦ rw t tt
  | inr f ↦ rw f (λ e z. let t = (==_iff c 0).1 z in true_ne (sym t ∙ f), tt)
]
  where
    true_ne : true ≢ false
    true_ne e = cc
Stripped-onto c (d ∷ ds) h = (λ e. cc, h)

Stripped-strip_zeros : (cs : List ℕ) → Stripped (strip_zeros cs)
unfolding strip_zeros
Stripped-strip_zeros [] = tt
Stripped-strip_zeros (c ∷ cs) = Stripped-onto c (strip_zeros cs) (Stripped-strip_zeros cs)

cmp_places_refl : (n : ℕ) (a : List ℕ) → cmp_places n a a ≡ Ordering.eq
unfolding cmp_places
cmp_places_refl zero a = refl
cmp_places_refl (suc n) a = ground (arith, cmp_places_refl n (behind_first a))

cmp_places-heads :
    (n : ℕ) (a b : List ℕ)
    → cmp_places (suc n) a b ≡ Ordering.eq
    → (first_or_zero a ≡ first_or_zero b)
      × (cmp_places n (behind_first a) (behind_first b) ≡ Ordering.eq)
unfolding cmp_places
cmp_places-heads n a b e = ground arith

equal_places :
    (n : ℕ) (a b : List ℕ)
    → length a ≤ n
    → length b ≤ n
    → Stripped a
    → Stripped b
    → cmp_places n a b ≡ Ordering.eq
    → a ≡ b
equal_places n [] [] h k s t e = refl
equal_places zero (x ∷ a) b h k s t e = absurd (omega arith)
equal_places zero [] (y ∷ b) h k s t e = absurd (omega arith)
equal_places (suc n) (x ∷ a) [] h k s t e =
    let (p, q) = cmp_places-heads n (x ∷ a) [] e in
    absurd (s.0 (equal_places n a [] (omega arith) (omega arith) s.1 tt q) p)
equal_places (suc n) [] (y ∷ b) h k s t e =
    let (p, q) = cmp_places-heads n [] (y ∷ b) e in
    absurd (t.0 (sym (equal_places n [] b (omega arith) (omega arith) tt t.1 q)) (sym p))
equal_places (suc n) (x ∷ a) (y ∷ b) h k s t e =
    let (p, q) = cmp_places-heads n (x ∷ a) (y ∷ b) e in
    let r = equal_places n a b (omega arith) (omega arith) s.1 t.1 q in λ i. p i ∷ r i

normal_same :
    (n a b : ℕ) (x : List ℕ) (c d : ℕ) (y : List ℕ)
    → length x + 2 ≤ n
    → length y + 2 ≤ n
    → Stripped x
    → Stripped y
    → cmp_places n (a ∷ b ∷ x) (c ∷ d ∷ y) ≡ Ordering.eq
    → ◌≡◌ {A = List ℕ} (a ∷ b ∷ x) (c ∷ d ∷ y)
normal_same zero a b x c d y l m h k e = absurd (omega arith)
normal_same (suc zero) a b x c d y l m h k e = absurd (omega arith)
normal_same (suc (suc n)) a b x c d y l m h k e =
    let (p, more) = cmp_places-heads (suc n) (a ∷ b ∷ x) (c ∷ d ∷ y) e in
    let (q, rest) = cmp_places-heads n (b ∷ x) (d ∷ y) more in
    let r = equal_places n x y (omega arith) (omega arith) h k rest in λ i. p i ∷ q i ∷ r i

-- A version with a major and a minor number, and no zero at the end behind those.
abbrev IsNormal : ProtocolVersion → Type 0
IsNormal v =
    (major : ℕ) × (minor : ℕ) × (rest : List ℕ) × (v.components ≡ major ∷ minor ∷ rest)
    × Stripped rest

from_str-IsNormal : (s : List ℕ) (v : ProtocolVersion) → from_str s ≡ some v → IsNormal v
unfolding from_str
from_str-IsNormal s v e = elim (Option-cases (parse_components (split b'.' s))) [
  | inl h ↦ let bad : none ≡ some v = sym (rw (h, from_str) refl) ∙ e in cc
  | inr (components, h) ↦
      let good : normal_version components ≡ some v = sym (rw (h, from_str) refl) ∙ e in
      normal components good
]
  where
    normal : (cs : List ℕ) → normal_version cs ≡ some v → IsNormal v
    normal [] e = cc
    normal (a ∷ []) e = cc
    normal (a ∷ b ∷ rest) e = (
      a,
      b,
      strip_zeros rest,
      ap (λ (w : ProtocolVersion). w.components) (sym (some_inj e)),
      Stripped-strip_zeros rest,
    )

-- Versions that are read compare as equal exactly when they are equal, although the comparison takes
-- missing places for zeros and equality does not.
pub cmp_parsed :
    (s t : List ℕ) (v w : ProtocolVersion)
    → from_str s ≡ some v
    → from_str t ≡ some w
    → (cmp v w ≡ Ordering.eq) ↔ (v ≡ w)
unfolding cmp
cmp_parsed s t v w e f =
    let (a, b, x, p, h) = from_str-IsNormal s v e in
    let (c, d, y, q, k) = from_str-IsNormal t w f in
    (
      λ g.
          let n : ℕ = max (length v.components) (length w.components) in
          let placed = subst₂ (λ l m. cmp_places n l m ≡ Ordering.eq) p q g in
          let same =
            normal_same n a b x c d y (omega (arith, ap length p)) (omega (arith, ap length q)) h k
              placed in
          λ i. record { components = (p ∙ same ∙ sym q) i },
      λ same.
          ap
            (λ (u : ProtocolVersion).
              cmp_places (max (length v.components) (length u.components)) v.components
                u.components)
            (sym same)
          ∙ cmp_places_refl (max (length v.components) (length v.components)) v.components,
    )

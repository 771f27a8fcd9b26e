-- ===== src/Electrum/Protocol/Order.antt =====
-- The order of protocol versions in bindex-electrum/src/protocol.rs, in which missing places are zero.
use bindex_rs.Common.{
  ℕ, zero, suc, ◌+◌, ◌≤◌, max, ◌≡◌, refl, sym, ◌∙◌, Bool, true, false, ◌&&◌, ◌||◌, List, [], ◌∷◌,
  arith, ltb, ◌==◌,
}
use bindex_rs.Common.{length}
use Prim.Native.Nat.{Ordering}
use bindex_rs.Electrum.Protocol.{
  ProtocolVersion, first_or_zero, behind_first, cmp_places, cmp, version_le,
}

-- `left` is not behind `right` in the first `n` places.
unfoldable le_places : ℕ → List ℕ → List ℕ → Bool
le_places zero left right = true
le_places (suc n) left right =
    let rest = le_places n (behind_first left) (behind_first right) in
    ltb (first_or_zero left) (first_or_zero right)
    || (first_or_zero left == first_or_zero right && rest)

abbrev is_le : Ordering → Bool
is_le Ordering.lt = true
is_le Ordering.eq = true
is_le Ordering.gt = false

cmp_places-le :
    (n : ℕ) (left right : List ℕ) → is_le (cmp_places n left right) ≡ le_places n left right
unfolding cmp_places le_places
cmp_places-le zero left right = refl
cmp_places-le (suc n) left right =
    ground (arith, cmp_places-le n (behind_first left) (behind_first right))

le_places_refl : (n : ℕ) (a : List ℕ) → le_places n a a ≡ true
unfolding le_places
le_places_refl zero a = refl
le_places_refl (suc n) a = ground (arith, le_places_refl n (behind_first a))

le_places_total : (n : ℕ) (a b : List ℕ) → le_places n a b ≡ false → le_places n b a ≡ true
unfolding le_places
le_places_total zero a b h = cc
le_places_total (suc n) a b h =
    ground (arith, h, le_places_total n (behind_first a) (behind_first b))

le_places_trans :
    (n : ℕ) (a b c : List ℕ)
    → le_places n a b ≡ true
    → le_places n b c ≡ true
    → le_places n a c ≡ true
unfolding le_places
le_places_trans zero a b c h k = refl
le_places_trans (suc n) a b c h k =
    ground (arith, h, k, le_places_trans n (behind_first a) (behind_first b) (behind_first c))

le_places_stable :
    (n m : ℕ) (a b : List ℕ)
    → length a ≤ n
    → length b ≤ n
    → n ≤ m
    → le_places m a b ≡ le_places n a b
unfolding le_places
le_places_stable zero m [] [] h k l = le_places_refl m []
le_places_stable zero m (x ∷ a) b h k l = absurd (omega arith)
le_places_stable zero m [] (y ∷ b) h k l = absurd (omega arith)
le_places_stable (suc n) zero a b h k l = absurd (omega arith)
le_places_stable (suc n) (suc m) a b h k l =
    rw
      (le_places_stable n m (behind_first a) (behind_first b) (shorter n a h) (shorter n b k)
        (omega arith))
      refl
  where
    shorter : (n : ℕ) (a : List ℕ) → length a ≤ suc n → length (behind_first a) ≤ n
    shorter n [] h = omega arith
    shorter n (x ∷ a) h = omega arith

version_le-le_places :
    (n : ℕ) (a b : ProtocolVersion)
    → length a.components ≤ n
    → length b.components ≤ n
    → version_le a b ≡ le_places n a.components b.components
unfolding version_le cmp
version_le-le_places n a b h k =
    let most = max (length a.components) (length b.components) in
    same (cmp_places most a.components b.components)
    ∙ cmp_places-le most a.components b.components
    ∙ sym (
        le_places_stable most n a.components b.components (omega arith) (omega arith) (omega arith))
  where
    same :
        (o : Ordering)
        → elim o [ Ordering.gt ↦ false | Ordering.eq ↦ true | Ordering.lt ↦ true ] ≡ is_le o
    same Ordering.lt = refl
    same Ordering.eq = refl
    same Ordering.gt = refl

pub version_le_refl : (a : ProtocolVersion) → version_le a a ≡ true
version_le_refl a =
    version_le-le_places (length a.components) a a (omega arith) (omega arith)
    ∙ le_places_refl (length a.components) a.components

pub version_le_total : (a b : ProtocolVersion) → version_le a b ≡ false → version_le b a ≡ true
version_le_total a b h =
    let n = length a.components + length b.components in
    version_le-le_places n b a (omega arith) (omega arith)
    ∙ le_places_total n a.components b.components
        (sym (version_le-le_places n a b (omega arith) (omega arith)) ∙ h)

pub version_le_trans :
    (a b c : ProtocolVersion)
    → version_le a b ≡ true
    → version_le b c ≡ true
    → version_le a c ≡ true
version_le_trans a b c h k =
    let n = length a.components + (length b.components + length c.components) in
    version_le-le_places n a c (omega arith) (omega arith)
    ∙ le_places_trans n a.components b.components c.components
        (sym (version_le-le_places n a b (omega arith) (omega arith)) ∙ h)
        (sym (version_le-le_places n b c (omega arith) (omega arith)) ∙ k)

-- ===== src/Common/Bytes.antt =====
-- Byte strings as lists of numbers, their equality and lexicographic order, and big-endian words.
use Prim.Native.Nat.{ℕ, ◌+◌, ◌*◌, ◌/◌, ◌%◌, ◌^◌, ◌<◌}
use mathlib.Core.Path.{◌≡◌, refl, ap}
use mathlib.Core.Logic.{◌↔◌}
use mathlib.Core.Bool.{Bool, true, false, ◌&&◌}
use mathlib.Core.Option.{Option, none, some}
use mathlib.Core.List.{List, [], ◌∷◌, ◌++◌}
use native.Mathlib.Omega.{arith}
use bindex_rs.Common.Tests.{ltb, leb, ◌==◌, if◌then◌else◌}
use bindex_rs.Common.Lists.{All, length}

abbrev pub IsByte : ℕ → Type 0
IsByte b = b < 256

abbrev pub IsU32 : ℕ → Type 0
IsU32 n = n < 2 ^ 32

-- `==` on byte strings
unfoldable pub bytes_eq : List ℕ → List ℕ → Bool
bytes_eq [] [] = true
bytes_eq [] (b ∷ bs) = false
bytes_eq (a ∷ as') [] = false
bytes_eq (a ∷ as') (b ∷ bs) = a == b && bytes_eq as' bs

bytes_eq→eq : (a b : List ℕ) → bytes_eq a b ≡ true → a ≡ b
unfolding bytes_eq
bytes_eq→eq [] [] h = refl
bytes_eq→eq [] (b ∷ bs) h = cc
bytes_eq→eq (a ∷ xs) [] h = cc
bytes_eq→eq (a ∷ xs) (b ∷ bs) h = ground (arith, bytes_eq→eq xs bs)

pub bytes_eq_refl : (a : List ℕ) → bytes_eq a a ≡ true
unfolding bytes_eq
bytes_eq_refl [] = refl
bytes_eq_refl (a ∷ xs) = ground (arith, bytes_eq_refl xs)

pub bytes_eq_iff : (a b : List ℕ) → (bytes_eq a b ≡ true) ↔ (a ≡ b)
bytes_eq_iff a b = (bytes_eq→eq a b, λ e. rw e (bytes_eq_refl b))

-- `<=` on byte slices, the order of RocksDB's keys
unfoldable pub bytes_le : List ℕ → List ℕ → Bool
bytes_le [] b = true
bytes_le (a ∷ xs) [] = false
bytes_le (a ∷ xs) (b ∷ bs) = if ltb a b then true else a == b && bytes_le xs bs

-- `key.starts_with(prefix)`
unfoldable pub starts_with : List ℕ → List ℕ → Bool
starts_with key [] = true
starts_with [] (p ∷ ps) = false
starts_with (k ∷ ks) (p ∷ ps) = k == p && starts_with ks ps

-- `u32::to_be_bytes` and `u32::from_be_bytes`
unfoldable pub u32_to_be_bytes : ℕ → List ℕ
u32_to_be_bytes n = n / 2 ^ 24 % 256 ∷ n / 2 ^ 16 % 256 ∷ n / 2 ^ 8 % 256 ∷ n % 256 ∷ []

unfoldable pub u32_from_be_bytes : List ℕ → Option ℕ
u32_from_be_bytes (a ∷ b ∷ c ∷ d ∷ []) = some (a * 2 ^ 24 + b * 2 ^ 16 + c * 2 ^ 8 + d)
u32_from_be_bytes _ = none

pub from-to_be_bytes : (n : ℕ) → IsU32 n → u32_from_be_bytes (u32_to_be_bytes n) ≡ some n
unfolding u32_from_be_bytes u32_to_be_bytes
from-to_be_bytes n h = ap some (omega arith)

pub to_be_bytes-IsByte : (n : ℕ) → All IsByte (u32_to_be_bytes n)
unfolding u32_to_be_bytes
to_be_bytes-IsByte n = omega arith

-- The order of two numbers by a leading digit, at the weights of a 32-bit word.
leb_by_24 :
    (m n : ℕ)
    → leb m n ≡ (
        if ltb (m / 2 ^ 24) (n / 2 ^ 24)
        then true
        else m / 2 ^ 24 == n / 2 ^ 24 && leb (m % 2 ^ 24) (n % 2 ^ 24))
leb_by_24 m n = ground arith

leb_by_16 :
    (m n : ℕ)
    → leb m n ≡ (
        if ltb (m / 2 ^ 16) (n / 2 ^ 16)
        then true
        else m / 2 ^ 16 == n / 2 ^ 16 && leb (m % 2 ^ 16) (n % 2 ^ 16))
leb_by_16 m n = ground arith

leb_by_8 :
    (m n : ℕ)
    → leb m n ≡ (
        if ltb (m / 2 ^ 8) (n / 2 ^ 8)
        then true
        else m / 2 ^ 8 == n / 2 ^ 8 && leb (m % 2 ^ 8) (n % 2 ^ 8))
leb_by_8 m n = ground arith

leb_last : (m n : ℕ) → leb m n ≡ (if ltb m n then true else m == n && true)
leb_last m n = ground arith

-- Big-endian words compare as byte strings as they compare as numbers.
pub bytes_le-to_be_bytes :
    (m n : ℕ) → IsU32 m → IsU32 n → bytes_le (u32_to_be_bytes m) (u32_to_be_bytes n) ≡ leb m n
unfolding bytes_le u32_to_be_bytes
bytes_le-to_be_bytes m n h k =
    let a : m / 2 ^ 24 % 256 ≡ m / 2 ^ 24 = omega arith in
    let b : n / 2 ^ 24 % 256 ≡ n / 2 ^ 24 = omega arith in
    let c : m / 2 ^ 16 % 256 ≡ m % 2 ^ 24 / 2 ^ 16 = omega arith in
    let d : n / 2 ^ 16 % 256 ≡ n % 2 ^ 24 / 2 ^ 16 = omega arith in
    let e : m / 2 ^ 8 % 256 ≡ m % 2 ^ 24 % 2 ^ 16 / 2 ^ 8 = omega arith in
    let f : n / 2 ^ 8 % 256 ≡ n % 2 ^ 24 % 2 ^ 16 / 2 ^ 8 = omega arith in
    let g : m % 256 ≡ m % 2 ^ 24 % 2 ^ 16 % 2 ^ 8 = omega arith in
    let i : n % 256 ≡ n % 2 ^ 24 % 2 ^ 16 % 2 ^ 8 = omega arith in
    rw (leb_by_24 m n) (
      rw (leb_by_16 (m % 2 ^ 24) (n % 2 ^ 24)) (
        rw (leb_by_8 (m % 2 ^ 24 % 2 ^ 16) (n % 2 ^ 24 % 2 ^ 16)) (
          rw (leb_last (m % 2 ^ 24 % 2 ^ 16 % 2 ^ 8) (n % 2 ^ 24 % 2 ^ 16 % 2 ^ 8))
            (rw (a, b, c, d, e, f, g, i) refl))))

-- A common prefix does not count.
pub bytes_le-append_left : (p a b : List ℕ) → bytes_le (p ++ a) (p ++ b) ≡ bytes_le a b
unfolding bytes_le
bytes_le-append_left [] a b = refl
bytes_le-append_left (x ∷ p) a b = ground (arith, bytes_le-append_left p a b)

pub starts_with-append : (p r : List ℕ) → starts_with (p ++ r) p ≡ true
unfolding starts_with
starts_with-append [] r = refl
starts_with-append (x ∷ p) r = ground (arith, starts_with-append p r)

pub bytes_le_refl : (a : List ℕ) → bytes_le a a ≡ true
unfolding bytes_le
bytes_le_refl [] = refl
bytes_le_refl (x ∷ a) = ground (arith, bytes_le_refl a)

pub bytes_le_trans :
    (a b c : List ℕ) → bytes_le a b ≡ true → bytes_le b c ≡ true → bytes_le a c ≡ true
unfolding bytes_le
bytes_le_trans [] b c h k = refl
bytes_le_trans (x ∷ a) [] c h k = cc
bytes_le_trans (x ∷ a) (y ∷ b) [] h k = cc
bytes_le_trans (x ∷ a) (y ∷ b) (z ∷ c) h k = ground (arith, bytes_le_trans a b c)

pub bytes_le_antisymm : (a b : List ℕ) → bytes_le a b ≡ true → bytes_le b a ≡ true → a ≡ b
unfolding bytes_le
bytes_le_antisymm [] [] h k = refl
bytes_le_antisymm [] (y ∷ b) h k = cc
bytes_le_antisymm (x ∷ a) [] h k = cc
bytes_le_antisymm (x ∷ a) (y ∷ b) h k = ground (arith, bytes_le_antisymm a b)

-- Heads of one length compare as the whole strings do.
pub bytes_le_heads :
    (a b x y : List ℕ)
    → length a ≡ length b
    → bytes_le (a ++ x) (b ++ y) ≡ true
    → bytes_le a b ≡ true
unfolding bytes_le
bytes_le_heads [] b x y e h = refl
bytes_le_heads (p ∷ a) [] x y e h = absurd (omega arith)
bytes_le_heads (p ∷ a) (q ∷ b) x y e h = ground (arith, bytes_le_heads a b x y)

-- ===== src/Common/Slices.antt =====
-- Slice expressions, which panic when a bound is past the end.
use Prim.Native.Nat.{ℕ, ◌+◌, ◌-◌}
use mathlib.Core.Path.{◌≡◌}
use mathlib.Core.List.{List, ◌++◌}
use native.Mathlib.Omega.{arith}
use bindex_rs.Common.Tests.{leb, le→leb, if◌then◌else◌}
use bindex_rs.Common.Lists.{length, take, drop, length-append, take-append_exact, drop-append_exact}
use bindex_rs.Common.Results.{Outcome, ok, panic}

module _ {ℓ} {A : Type ℓ} where
  -- `&xs[..n]`
  unfoldable pub slice_to : ℕ → List A → Outcome (List A)
  slice_to n xs = if leb n (length xs) then ok (take n xs) else panic

  -- `&xs[n..]`
  unfoldable pub slice_from : ℕ → List A → Outcome (List A)
  slice_from n xs = if leb n (length xs) then ok (drop n xs) else panic

  -- `&xs[a..b]`, for a ≤ b
  unfoldable pub slice : ℕ → ℕ → List A → Outcome (List A)
  slice a b xs = if leb b (length xs) then ok (take (b - a) (drop a xs)) else panic

  pub slice_to-append : (n : ℕ) (xs ys : List A) → length xs ≡ n → slice_to n (xs ++ ys) ≡ ok xs
  unfolding slice_to
  slice_to-append n xs ys h = rw (← h) (
      rw (le→leb (length xs) (length (xs ++ ys)) (omega (arith, length-append xs ys)))
        (rw take-append_exact))

  pub slice_from-append : (n : ℕ) (xs ys : List A) → length xs ≡ n → slice_from n (xs ++ ys) ≡ ok ys
  unfolding slice_from
  slice_from-append n xs ys h = rw (← h) (
      rw (le→leb (length xs) (length (xs ++ ys)) (omega (arith, length-append xs ys)))
        (rw drop-append_exact))

  pub slice-append :
      (a b : ℕ) (xs ys zs : List A)
      → length xs ≡ a
      → a + length ys ≡ b
      → slice a b (xs ++ (ys ++ zs)) ≡ ok ys
  unfolding slice
  slice-append a b xs ys zs h k =
      rw (← k, ← h)
        (rw
          (le→leb (length xs + length ys) (length (xs ++ (ys ++ zs)))
            (omega (arith, length-append xs (ys ++ zs), length-append ys zs)))
          (rw drop-append_exact (
            let e : length xs + length ys - length xs ≡ length ys = omega arith in
            rw e (rw take-append_exact))))

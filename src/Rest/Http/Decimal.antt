-- ===== src/Rest/Http/Decimal.antt =====
-- What it is for a text to be a number in decimal digits, and that `str.parse` reads it.
use bindex_rs.Common.{
  ℕ, ◌+◌, ◌-◌, ◌*◌, ◌^◌, ◌≤◌, ◌<◌, ◌≡◌, refl, sym, ap, ◌∙◌, subst, ◌↔◌, inl, inr, true, false, not,
  none, some, List, [], ◌∷◌, arith, ltb, some_inj, ltb→lt, lt→ltb, Bool-cases,
}
use bindex_rs.Common.{length, All}
use bindex_rs.Rest.Text.{any, is_ascii_digit, without_plus, parse_digits, parse_usize}

abbrev pub IsDigit : ℕ → Type 0
IsDigit c = (48 ≤ c) × (c ≤ 57)

-- The number that the digits make behind those that make `n`.
abbrev pub decimal : ℕ → List ℕ → ℕ
decimal n [] = n
decimal n (c ∷ cs) = decimal (n * 10 + (c - 48)) cs

-- The text is `n`, written in one digit or more and with nothing else; a number has 64 bits.
pub record IsDecimal (n : ℕ) (text : List ℕ) : Type 0 where
  pub written : 0 < length text
  pub digits : All IsDigit text
  pub value : decimal 0 text ≡ n
  pub fits : n < 2 ^ 64

digit_iff : (c : ℕ) → (is_ascii_digit c ≡ true) ↔ IsDigit c
digit_iff c = ground arith

decimal-le : (n : ℕ) (cs : List ℕ) → n ≤ decimal n cs
decimal-le n [] = omega arith
decimal-le n (c ∷ cs) = omega (arith, decimal-le (n * 10 + (c - 48)) cs)

parse_digits-some :
    (m : ℕ) (cs : List ℕ) (n : ℕ)
    → m < 2 ^ 64
    → parse_digits m cs ≡ some n
    → All IsDigit cs × (decimal m cs ≡ n) × (n < 2 ^ 64)
unfolding parse_digits
parse_digits-some m [] n small e = (tt, some_inj e, subst (λ k. k < 2 ^ 64) (some_inj e) small)
parse_digits-some m (c ∷ cs) n small e = elim (Bool-cases (is_ascii_digit c)) [
  | inr f ↦ let bad : none ≡ some n = sym (rw f refl) ∙ e in cc
  | inl t ↦ elim (Bool-cases (ltb (m * 10 + (c - 48)) (2 ^ 64))) [
    | inr f ↦ let bad : none ≡ some n = sym (rw t (rw f refl)) ∙ e in cc
    | inl u ↦
        let rest : parse_digits (m * 10 + (c - 48)) cs ≡ some n = sym (rw t (rw u refl)) ∙ e in
        let (digits, value, fits) =
          parse_digits-some (m * 10 + (c - 48)) cs n (ltb→lt (m * 10 + (c - 48)) (2 ^ 64) u) rest in
        (((digit_iff c).0 t, digits), value, fits)
  ]
]

parse_digits-IsDigit :
    (m : ℕ) (cs : List ℕ)
    → All IsDigit cs
    → decimal m cs < 2 ^ 64
    → parse_digits m cs ≡ some (decimal m cs)
unfolding parse_digits
parse_digits-IsDigit m [] digits fits = refl
parse_digits-IsDigit m (c ∷ cs) digits fits =
    let small : m * 10 + (c - 48) < 2 ^ 64 =
      omega (arith, decimal-le (m * 10 + (c - 48)) cs, fits) in
    rw ((digit_iff c).1 digits.0) (
      rw (lt→ltb (m * 10 + (c - 48)) (2 ^ 64) small)
        (parse_digits-IsDigit (m * 10 + (c - 48)) cs digits.1 fits))

without_plus_digit : (c : ℕ) (cs : List ℕ) → IsDigit c → without_plus (c ∷ cs) ≡ c ∷ cs
without_plus_digit c cs d = ground arith

any-not_digit : (cs : List ℕ) → All IsDigit cs → any (λ b. not (is_ascii_digit b)) cs ≡ false
unfolding any
any-not_digit [] d = refl
any-not_digit (c ∷ cs) d = rw ((digit_iff c).1 d.0) (any-not_digit cs d.1)

-- `parse` takes a text without other characters than digits to be `n` exactly when it is `n` in
-- decimal digits.
pub parse_usize-IsDecimal :
    (text : List ℕ) (n : ℕ)
    → any (λ b. not (is_ascii_digit b)) text ≡ false
    → parse_usize text ≡ some n
    → IsDecimal n text
unfolding parse_usize any
parse_usize-IsDecimal [] n plain e = cc
parse_usize-IsDecimal (c ∷ cs) n plain e = elim (Bool-cases (is_ascii_digit c)) [
  | inr f ↦ let bad : true ≡ false = sym (rw f refl) ∙ plain in cc
  | inl t ↦
      let same = without_plus_digit c cs ((digit_iff c).0 t) in
      let whole : parse_digits 0 (c ∷ cs) ≡ some n = sym (rw same refl) ∙ e in
      let (digits, value, fits) = parse_digits-some 0 (c ∷ cs) n (omega arith) whole in
      record { written = omega arith; digits = digits; value = value; fits = fits }
]

pub IsDecimal-parse_usize :
    (text : List ℕ) (n : ℕ)
    → IsDecimal n text
    → (parse_usize text ≡ some n) × (any (λ b. not (is_ascii_digit b)) text ≡ false)
unfolding parse_usize
IsDecimal-parse_usize [] n d = absurd (omega (arith, d.written))
IsDecimal-parse_usize (c ∷ cs) n d = (
  rw (without_plus_digit c cs d.digits.0) (
      parse_digits-IsDigit 0 (c ∷ cs) d.digits (subst (λ k. k < 2 ^ 64) (sym d.value) d.fits)
      ∙ ap some d.value),
  any-not_digit (c ∷ cs) d.digits,
)

-- ===== src/Rest/Text/Utf8.antt =====
-- Decoding the bytes of a string gives the string.
use bindex_rs.Common.{
  ℕ, ◌+◌, ◌/◌, ◌%◌, ◌≤◌, ◌<◌, ◌≡◌, refl, ap, ◌∙◌, ◌⊎◌, inl, inr, List, [], ◌∷◌, ◌++◌, arith, ltb,
  ltb→lt, ltb_false→le, Bool-cases,
}
use bindex_rs.Common.{All}
use bindex_rs.Rest.Text.{
  next_char, from_utf8_lossy, encode_char, as_bytes, sequence_len, second_low, second_high,
}

-- The code points that are characters.
abbrev pub IsScalar : ℕ → Type 0
IsScalar c = (c < 55296) ⊎ ((57343 < c) × (c < 1114112))

two_bytes :
    (c : ℕ) (rest : List ℕ)
    → 128 ≤ c
    → c < 2048
    → next_char (192 + c / 64) ((128 + c % 64) ∷ rest) ≡ (c, 1)
unfolding next_char sequence_len second_low second_high
two_bytes c rest a b = ground arith

three_bytes :
    (c : ℕ) (rest : List ℕ)
    → 2048 ≤ c
    → c < 65536
    → IsScalar c
    → next_char (224 + c / 4096) ((128 + (c / 64) % 64) ∷ (128 + c % 64) ∷ rest) ≡ (c, 2)
unfolding next_char sequence_len second_low second_high
three_bytes c rest a b s = ground arith

four_bytes :
    (c : ℕ) (rest : List ℕ)
    → 65536 ≤ c
    → c < 1114112
    → next_char
        (240 + c / 262144)
        ((128 + (c / 4096) % 64) ∷ (128 + (c / 64) % 64) ∷ (128 + c % 64) ∷ rest)
      ≡ (c, 3)
unfolding next_char sequence_len second_low second_high
four_bytes c rest a b = ground arith

one_byte : (c : ℕ) (rest : List ℕ) → c < 128 → next_char c rest ≡ (c, 0)
unfolding next_char sequence_len
one_byte c rest h = ground arith

from_utf8_lossy-encode_char :
    (c : ℕ) (rest : List ℕ)
    → IsScalar c
    → from_utf8_lossy 0 (encode_char c ++ rest) ≡ c ∷ from_utf8_lossy 0 rest
unfolding from_utf8_lossy encode_char
from_utf8_lossy-encode_char c rest s = elim (Bool-cases (ltb c 128)) [
  | inl t ↦ rw t (rw (one_byte c rest (ltb→lt c 128 t)) refl)
  | inr f ↦
      let low = ltb_false→le c 128 f in
      elim (Bool-cases (ltb c 2048)) [
        | inl t ↦ rw (f, t) (rw (two_bytes c rest low (ltb→lt c 2048 t)) refl)
        | inr g ↦
            let more = ltb_false→le c 2048 g in
            elim (Bool-cases (ltb c 65536)) [
              | inl t ↦ rw (f, g, t) (rw (three_bytes c rest more (ltb→lt c 65536 t) s) refl)
              | inr h ↦
                  rw (f, g, h) (rw (four_bytes c rest (ltb_false→le c 65536 h) (bound s)) refl)
            ]
      ]
]
  where
    bound : IsScalar c → c < 1114112
    bound (inl a) = omega arith
    bound (inr (a, b)) = b

-- The bytes of any string are decoded to that string.
pub from_utf8_lossy-as_bytes :
    (cs : List ℕ) → All IsScalar cs → from_utf8_lossy 0 (as_bytes cs) ≡ cs
unfolding as_bytes
from_utf8_lossy-as_bytes [] h = unfold from_utf8_lossy in refl
from_utf8_lossy-as_bytes (c ∷ cs) h =
    from_utf8_lossy-encode_char c (as_bytes cs) h.0
    ∙ ap (λ t. c ∷ t) (from_utf8_lossy-as_bytes cs h.1)

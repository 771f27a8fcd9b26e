-- ===== src/Rest/Http/Decode/RoundTrip.antt =====
-- What `percent_decode` of bindex-electrum/src/rest/http.rs makes of a string that was percent-encoded.
use bindex_rs.Common.{
  ℕ, ◌+◌, ◌/◌, ◌%◌, ◌<◌, ◌≡◌, refl, sym, ap, ◌∙◌, inl, inr, Bool, true, false, not, ◌&&◌, ◌||◌,
  none, some, List, [], ◌∷◌, arith, ltb, ◌==◌, if◌then◌else◌, ltb→lt, lt→ltb, Bool-cases,
}
use bindex_rs.Common.{All, All-append}
use bindex_rs.Common.Bytes.{IsByte}
use bindex_rs.Rest.Text.{from_utf8_lossy, as_bytes, encode_char, any}
use bindex_rs.Rest.Text.Utf8.{IsScalar, from_utf8_lossy-as_bytes}
use bindex_rs.Rest.Http.Decode.{hex_digit, escaped, percent_bytes, percent_decode}

-- The digit of a number below sixteen.
unfoldable pub hex_char : ℕ → ℕ
hex_char n = if ltb n 10 then n + 48 else n + 55

-- Each byte as it is where `keep` says so and it is a character other than `%`, else escaped.
unfoldable pub percent_encode : (ℕ → Bool) → List ℕ → List ℕ
unfolding hex_char
percent_encode keep [] = []
percent_encode keep (b ∷ bs) =
    let rest = percent_encode keep bs in
    if keep b && (ltb b 128 && not (b == b'%'))
    then b ∷ rest
    else b'%' ∷ hex_char (b / 16) ∷ hex_char (b % 16) ∷ rest

hex_digit-hex_char : (n : ℕ) → n < 16 → hex_digit (hex_char n) ≡ some n
unfolding hex_digit hex_char
hex_digit-hex_char n h = ground arith

escaped_plain : (b : ℕ) (bs : List ℕ) → (b == b'%') ≡ false → escaped b bs ≡ none
unfolding escaped
escaped_plain b [] h = refl
escaped_plain b (x ∷ []) h = refl
escaped_plain b (x ∷ y ∷ r) h = rw h refl

escaped_hex :
    (b : ℕ) (rest : List ℕ)
    → IsByte b
    → escaped b'%' (hex_char (b / 16) ∷ hex_char (b % 16) ∷ rest) ≡ some b
unfolding escaped
escaped_hex b rest h =
    rw (hex_digit-hex_char (b / 16) (omega arith))
      (rw (hex_digit-hex_char (b % 16) (omega arith)) (ap some (omega arith)))

percent_bytes_plain :
    (b : ℕ) (bs : List ℕ) → escaped b bs ≡ none → percent_bytes 0 (b ∷ bs) ≡ b ∷ percent_bytes 0 bs
unfolding percent_bytes
percent_bytes_plain b bs e = rw (e, percent_bytes) refl

percent_bytes_escape :
    (b x y value : ℕ) (bs : List ℕ)
    → escaped b (x ∷ y ∷ bs) ≡ some value
    → percent_bytes 0 (b ∷ x ∷ y ∷ bs) ≡ value ∷ percent_bytes 0 bs
unfolding percent_bytes
percent_bytes_escape b x y value bs e = rw (e, percent_bytes) refl

kept_plain :
    (keep low : Bool) (b : ℕ) → (keep && (low && not (b == b'%'))) ≡ true → (b == b'%') ≡ false
kept_plain true true b e = ground arith
kept_plain true false b e = cc
kept_plain false low b e = cc

percent_bytes-percent_encode :
    (keep : ℕ → Bool) (bs : List ℕ) → All IsByte bs → percent_bytes 0 (percent_encode keep bs) ≡ bs
unfolding percent_encode
percent_bytes-percent_encode keep [] h = unfold percent_bytes in refl
percent_bytes-percent_encode keep (b ∷ bs) h =
    let rest = percent_encode keep bs in
    let ih = percent_bytes-percent_encode keep bs h.1 in
    elim (Bool-cases (keep b && (ltb b 128 && not (b == b'%')))) [
      | inl t ↦ rw t (
          percent_bytes_plain b rest (escaped_plain b rest (kept_plain (keep b) (ltb b 128) b t))
          ∙ ap (λ l. b ∷ l) ih)
      | inr f ↦ rw f (
          percent_bytes_escape b'%' (hex_char (b / 16)) (hex_char (b % 16)) b rest
            (escaped_hex b rest h.0)
          ∙ ap (λ l. b ∷ l) ih)
    ]

-- Characters that are bytes, none of which is an escape.
percent_bytes_without : (bs : List ℕ) → any (λ c. c == b'%') bs ≡ false → percent_bytes 0 bs ≡ bs
unfolding any
percent_bytes_without [] h = unfold percent_bytes in refl
percent_bytes_without (b ∷ bs) h =
    let (here, rest) = neither (b == b'%') (any (λ c. c == b'%') bs) h in
    percent_bytes_plain b bs (escaped_plain b bs here)
    ∙ ap (λ l. b ∷ l) (percent_bytes_without bs rest)
  where
    neither : (x y : Bool) → (x || y) ≡ false → (x ≡ false) × (y ≡ false)
    neither true y e = cc
    neither false y e = (refl, e)

IsAscii : ℕ → Type 0
IsAscii c = c < 128

as_bytes_ascii : (cs : List ℕ) → All IsAscii cs → as_bytes cs ≡ cs
unfolding as_bytes encode_char IsAscii
as_bytes_ascii [] h = refl
as_bytes_ascii (c ∷ cs) h = rw (lt→ltb c 128 h.0) (ap (λ l. c ∷ l) (as_bytes_ascii cs h.1))

left : (x y : Bool) → (x && y) ≡ true → x ≡ true
left true y e = refl
left false y e = cc

hex_char-IsAscii : (n : ℕ) → n < 16 → IsAscii (hex_char n)
unfolding hex_char IsAscii
hex_char-IsAscii n h = ground arith

IsScalar-IsAscii : (cs : List ℕ) → All IsAscii cs → All IsScalar cs
unfolding IsAscii
IsScalar-IsAscii [] h = tt
IsScalar-IsAscii (c ∷ cs) h = (inl (omega arith), IsScalar-IsAscii cs h.1)

percent_encode-IsAscii :
    (keep : ℕ → Bool) (bs : List ℕ) → All IsByte bs → All IsAscii (percent_encode keep bs)
unfolding percent_encode IsAscii
percent_encode-IsAscii keep [] h = tt
percent_encode-IsAscii keep (b ∷ bs) h =
    elim (Bool-cases (keep b && (ltb b 128 && not (b == b'%')))) [
      | inl t ↦ rw t (low (keep b) b (not (b == b'%')) t, percent_encode-IsAscii keep bs h.1)
      | inr f ↦ rw f (
        omega arith,
        (
          hex_char-IsAscii (b / 16) (omega arith),
          (hex_char-IsAscii (b % 16) (omega arith), percent_encode-IsAscii keep bs h.1),
        ),
      )
    ]
  where
    low : (k : Bool) (c : ℕ) (p : Bool) → (k && (ltb c 128 && p)) ≡ true → c < 128
    low true c p e = ltb→lt c 128 (left (ltb c 128) p e)
    low false c p e = cc

encode_char-IsByte : (c : ℕ) → IsScalar c → All IsByte (encode_char c)
unfolding encode_char
encode_char-IsByte c s = elim (Bool-cases (ltb c 128)) [
  | inl t ↦ let low = ltb→lt c 128 t in rw t (omega arith, tt)
  | inr f ↦ elim (Bool-cases (ltb c 2048)) [
    | inl t ↦ let low = ltb→lt c 2048 t in rw (f, t) (omega arith, (omega arith, tt))
    | inr g ↦ elim (Bool-cases (ltb c 65536)) [
      | inl t ↦
          let low = ltb→lt c 65536 t in rw (f, g, t) (omega arith, (omega arith, (omega arith, tt)))
      | inr h ↦
          let top = bound s in
          rw (f, g, h) (omega arith, (omega arith, (omega arith, (omega arith, tt))))
    ]
  ]
]
  where
    bound : IsScalar c → c < 1114112
    bound (inl a) = omega arith
    bound (inr (a, b)) = b

as_bytes-IsByte : (cs : List ℕ) → All IsScalar cs → All IsByte (as_bytes cs)
unfolding as_bytes
as_bytes-IsByte [] h = tt
as_bytes-IsByte (c ∷ cs) h =
    All-append IsByte (encode_char c) (as_bytes cs) (encode_char-IsByte c h.0)
      (as_bytes-IsByte cs h.1)

-- A string whose bytes were percent-encoded, whichever of them but `%` and those past 127 were left
-- as they are, is decoded to that string.
pub percent_decode-percent_encode :
    (keep : ℕ → Bool) (cs : List ℕ)
    → All IsScalar cs
    → percent_decode (percent_encode keep (as_bytes cs)) ≡ cs
unfolding percent_decode
percent_decode-percent_encode keep cs h =
    let bytes = as_bytes-IsByte cs h in
    let text = percent_encode keep (as_bytes cs) in
    let ascii = as_bytes_ascii text (percent_encode-IsAscii keep (as_bytes cs) bytes) in
    let back = percent_bytes-percent_encode keep (as_bytes cs) bytes in
    elim (Bool-cases (any (λ c. c == b'%') text)) [
      | inl t ↦ rw t (
          ap (λ l. from_utf8_lossy 0 (percent_bytes 0 l)) ascii
          ∙ ap (from_utf8_lossy 0) back
          ∙ from_utf8_lossy-as_bytes cs h)
      | inr f ↦ rw f (
          sym (
            from_utf8_lossy-as_bytes text
              (IsScalar-IsAscii text (percent_encode-IsAscii keep (as_bytes cs) bytes)))
          ∙ ap (from_utf8_lossy 0) (ascii ∙ sym (percent_bytes_without text f) ∙ back)
          ∙ from_utf8_lossy-as_bytes cs h)
    ]

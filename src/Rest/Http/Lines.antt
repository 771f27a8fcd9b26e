-- ===== src/Rest/Http/Lines.antt =====
-- The lines of a request in bindex-electrum/src/rest/http.rs: what a line is, and a header.
use bindex_rs.Common.{
  ℕ, zero, suc, ◌≤◌, ◌<◌, ◌≡◌, refl, sym, ap, ◌∙◌, subst, ◌≢◌, inl, inr, Bool, true, false, ◌||◌,
  none, some, List, [], ◌∷◌, ◌++◌, arith, ◌==◌, some_inj, ==_iff, Bool-cases, Option-cases,
}
use bindex_rs.Common.{length, get_last?, All}
use bindex_rs.Rest.Text.{
  from_utf8_lossy, is_whitespace, is_empty, any, trim, trim_end_matches, split_once, onto_left,
  to_ascii_lowercase,
}
use bindex_rs.Rest.Http.{
  read, too_long, read_until, ends_line, line_of, read_line, is_line_end, parse_header,
}

-- A line of bytes: the only line feed stands at its end, and it has at most 65536 bytes.
pub record IsLine (raw : List ℕ) : Type 0 where
  pub text : List ℕ
  pub ends : raw ≡ text ++ 10 ∷ []
  pub single : All (λ b. b ≢ 10) text
  pub short : length raw ≤ 65536

-- A line without the carriage returns and line feeds at its end.
abbrev pub bare_line : List ℕ → List ℕ
bare_line line = trim_end_matches (λ c. c == 13 || c == 10) line

-- A header is written in a line: a name, which is not empty and has no white space in it, up to the
-- first colon, and a value behind it. The name is taken in lower case, the value without the white
-- space around it.
pub record IsHeader (line : List ℕ) (header : List ℕ × List ℕ) : Type 0 where
  pub name : List ℕ
  pub value : List ℕ
  pub cut : bare_line line ≡ name ++ b':' ∷ value
  pub first_colon : All (λ c. c ≢ b':') name
  pub named : 0 < length name
  pub unspaced : All (λ c. is_whitespace c ≡ false) name
  pub is : header ≡ (to_ascii_lowercase name, trim value)

either_false : (b c : Bool) → (b || c) ≡ false → (b ≡ false) × (c ≡ false)
either_false true c e = cc
either_false false c e = (refl, e)

not_equal : (a b : ℕ) → (a == b) ≡ false → a ≢ b
not_equal a b f e = ground arith

read_until-append :
    (limit : ℕ) (stream : List ℕ)
    → stream ≡ (read_until limit stream).0 ++ (read_until limit stream).1
unfolding read_until
read_until-append zero stream = refl
read_until-append (suc limit) [] = refl
read_until-append (suc limit) (b ∷ stream) = elim (Bool-cases (b == 10)) [
  | inl t ↦ rw t refl
  | inr t ↦ rw t (ap (λ l. b ∷ l) (read_until-append limit stream))
]

read_until-length : (limit : ℕ) (stream : List ℕ) → length (read_until limit stream).0 ≤ limit
unfolding read_until
read_until-length zero stream = omega arith
read_until-length (suc limit) [] = omega arith
read_until-length (suc limit) (b ∷ stream) = elim (Bool-cases (b == 10)) [
  | inl t ↦ rw t (omega arith)
  | inr t ↦ rw t (omega (arith, read_until-length limit stream))
]

read_until-single :
    (limit : ℕ) (stream : List ℕ)
    → ends_line (get_last? (read_until limit stream).0) ≡ true
    → (text : List ℕ) × ((read_until limit stream).0 ≡ text ++ 10 ∷ []) × All (λ b. b ≢ 10) text
unfolding read_until
read_until-single zero stream e = cc
read_until-single (suc limit) [] e = cc
read_until-single (suc limit) (b ∷ stream) e = elim (Bool-cases (b == 10)) [
  | inl t ↦ rw t ([], ap (λ n. n ∷ []) ((==_iff b 10).0 t), tt)
  | inr t ↦
      let last : ends_line (get_last? (b ∷ (read_until limit stream).0)) ≡ true =
        sym (rw t refl) ∙ e in
      let (text, ends, single) =
        read_until-single limit stream (behind b (read_until limit stream).0 t last) in
      rw t (b ∷ text, ap (λ l. b ∷ l) ends, (not_equal b 10 t, single))
]
  where
    behind :
        (b : ℕ) (more : List ℕ)
        → (b == 10) ≡ false
        → ends_line (get_last? (b ∷ more)) ≡ true
        → ends_line (get_last? more) ≡ true
    behind b [] f e = cc
    behind b (m ∷ more) f e = e

-- A line that is read is one of the stream's.
pub read_line-IsLine :
    (stream line : List ℕ)
    → (read_line stream).0 ≡ read line
    → (raw : List ℕ) × IsLine raw
      × (stream ≡ raw ++ (read_line stream).1)
      × (line ≡ from_utf8_lossy 0 raw)
unfolding read_line line_of
read_line-IsLine stream line e =
    let (last, is) = shape (read_until 65536 stream).0 e in
    let (text, ends, single) = read_until-single 65536 stream last in
    (
      (read_until 65536 stream).0,
      record { text = text; ends = ends; single = single; short = read_until-length 65536 stream },
      read_until-append 65536 stream,
      is,
    )
  where
    read_inj : (a b : List ℕ) → read a ≡ read b → a ≡ b
    read_inj a b e = cc

    shape :
        (buf : List ℕ)
        → line_of buf ≡ read line
        → (ends_line (get_last? buf) ≡ true) × (line ≡ from_utf8_lossy 0 buf)
    shape [] e = cc
    shape (b ∷ buf) e = elim (Bool-cases (ends_line (get_last? (b ∷ buf)))) [
      | inl t ↦
          let same : read (from_utf8_lossy 0 (b ∷ buf)) ≡ read line = sym (rw t refl) ∙ e in
          (t, sym (read_inj (from_utf8_lossy 0 (b ∷ buf)) line same))
      | inr t ↦ let bad : too_long ≡ read line = sym (rw t refl) ∙ e in cc
    ]

split_once-some :
    (at : ℕ) (cs name value : List ℕ)
    → split_once at cs ≡ some (name, value)
    → (cs ≡ name ++ at ∷ value) × All (λ c. c ≢ at) name
unfolding split_once
split_once-some at [] name value e = cc
split_once-some at (c ∷ cs) name value e = elim (Bool-cases (c == at)) [
  | inl t ↦
      let good : some ([], cs) ≡ some (name, value) = sym (rw t refl) ∙ e in
      subst (λ (p : List ℕ × List ℕ). (c ∷ cs ≡ p.0 ++ at ∷ p.1) × All (λ x. x ≢ at) p.0)
        (some_inj good) (ap (λ x. x ∷ cs) ((==_iff c at).0 t), tt)
  | inr t ↦
      let step : onto_left c (split_once at cs) ≡ some (name, value) = sym (rw t refl) ∙ e in
      elim (Option-cases (split_once at cs)) [
        | inl h ↦ let bad : none ≡ some (name, value) = ap (onto_left c) (sym h) ∙ step in cc
        | inr ((a, b), h) ↦
            let good : some (c ∷ a, b) ≡ some (name, value) = ap (onto_left c) (sym h) ∙ step in
            let (cut, plain) = split_once-some at cs a b h in
            subst (λ (p : List ℕ × List ℕ). (c ∷ cs ≡ p.0 ++ at ∷ p.1) × All (λ x. x ≢ at) p.0)
              (some_inj good) (ap (λ l. c ∷ l) cut, (not_equal c at t, plain))
      ]
]

any-none : (test : ℕ → Bool) (cs : List ℕ) → any test cs ≡ false → All (λ c. test c ≡ false) cs
unfolding any
any-none test [] e = tt
any-none test (c ∷ cs) e =
    let (here, rest) = either_false (test c) (any test cs) e in (here, any-none test cs rest)

pub empty : (cs : List ℕ) → is_empty cs ≡ true → cs ≡ []
empty [] e = refl
empty (c ∷ cs) e = cc

not_empty : (cs : List ℕ) → is_empty cs ≡ false → 0 < length cs
not_empty [] e = cc
not_empty (c ∷ cs) e = omega arith

pub parse_header-IsHeader :
    (line : List ℕ) (header : List ℕ × List ℕ)
    → parse_header line ≡ some (some header)
    → IsHeader line header
unfolding parse_header
parse_header-IsHeader line header e =
    elim (Bool-cases (is_empty (trim_end_matches is_line_end line))) [
      | inl t ↦ let bad : some none ≡ some (some header) = sym (rw t refl) ∙ e in cc
      | inr t ↦ elim (Option-cases (split_once b':' (trim_end_matches is_line_end line))) [
        | inl h ↦
            let bad : none ≡ some (some header) = sym (rw t (rw (h, parse_header) refl)) ∙ e in cc
        | inr ((name, value), h) ↦ elim (Bool-cases (is_empty name || any is_whitespace name)) [
          | inl u ↦
              let bad : none ≡ some (some header) =
                sym (rw t (rw (h, parse_header) (rw u refl))) ∙ e in
              cc
          | inr u ↦
              let good : some (some (to_ascii_lowercase name, trim value)) ≡ some (some header) =
                sym (rw t (rw (h, parse_header) (rw u refl))) ∙ e in
              let (cut, plain) =
                split_once-some b':' (trim_end_matches is_line_end line) name value h in
              let (full, unspaced) = either_false (is_empty name) (any is_whitespace name) u in
              record {
                name = name;
                value = value;
                cut = cut;
                first_colon = plain;
                named = not_empty name full;
                unspaced = any-none is_whitespace name unspaced;
                is = sym (some_inj (some_inj good));
              }
        ]
      ]
    ]

pub parse_header-last : (line : List ℕ) → parse_header line ≡ some none → bare_line line ≡ []
unfolding parse_header
parse_header-last line e = elim (Bool-cases (is_empty (trim_end_matches is_line_end line))) [
  | inl t ↦ empty (trim_end_matches is_line_end line) t
  | inr t ↦ elim (Option-cases (split_once b':' (trim_end_matches is_line_end line))) [
    | inl h ↦ let bad : none ≡ some none = sym (rw t (rw (h, parse_header) refl)) ∙ e in cc
    | inr ((name, value), h) ↦ elim (Bool-cases (is_empty name || any is_whitespace name)) [
      | inl u ↦ let bad : none ≡ some none = sym (rw t (rw (h, parse_header) (rw u refl))) ∙ e in cc
      | inr u ↦
          let bad : some (some (to_ascii_lowercase name, trim value)) ≡ some none =
            sym (rw t (rw (h, parse_header) (rw u refl))) ∙ e in
          cc
    ]
  ]
]

-- ===== src/Rest/Http/Length.antt =====
-- The body length of a request in bindex-electrum/src/rest/http.rs: everything ambiguous is refused.
use bindex_rs.Common.{
  ℕ, ◌≡◌, refl, sym, ap, ◌∙◌, subst, ◌↔◌, ◌⊎◌, inl, inr, Bool, false, not, Option, none, some, List,
  [], ◌∷◌, ◌++◌, ◌==◌, if◌then◌else◌, ==_iff, ==_refl, Bool-cases, Option-cases,
}
use bindex_rs.Common.{length, All}
use bindex_rs.Common.Bytes.{bytes_eq}
use bindex_rs.Rest.Text.{any, trim, split, is_ascii_digit, parse_usize}
use bindex_rs.Rest.Http.Decimal.{IsDecimal, parse_usize-IsDecimal, IsDecimal-parse_usize}
use bindex_rs.Rest.Http.{Message, invalid_length, conflicting_length}

-- `Result<usize, &'static str>`
pub data Length : Type 0 where
  length_ok : ℕ → Length
  refused : Message → Length

-- `content-length`
abbrev pub content_length_name : List ℕ
content_length_name =
    b'c' ∷ b'o' ∷ b'n' ∷ b't' ∷ b'e' ∷ b'n' ∷ b't' ∷ b'-' ∷ b'l' ∷ b'e' ∷ b'n' ∷ b'g' ∷ b't' ∷ b'h'
    ∷ []

-- The number of one field, when it is one in decimal digits.
unfoldable pub field_value : List ℕ → Option ℕ
unfolding trim parse_usize any
field_value raw = elim (parse_usize (trim raw)) [
  | none ↦ none
  | some value ↦ if any (λ b. not (is_ascii_digit b)) (trim raw) then none else some value
]

-- `Some(seen) if seen != value`
abbrev pub conflicts : Option ℕ → ℕ → Bool
conflicts none value = false
conflicts (some seen) value = not (seen == value)

abbrev pub length_or : Option ℕ → ℕ
length_or none = 0
length_or (some n) = n

-- The loop over the fields of one header: the length so far, or a refusal.
unfoldable pub add_fields : Option ℕ → List (List ℕ) → Option ℕ ⊎ Message
unfolding field_value
add_fields length [] = inl length
add_fields length (field ∷ fields) = elim (field_value field) [
  | none ↦ inr invalid_length
  | some value ↦
      let rest = add_fields (some value) fields in
      if conflicts length value then inr conflicting_length else rest
]

-- The loop over the headers.
unfoldable pub add_headers : Option ℕ → List (List ℕ × List ℕ) → Length
unfolding add_fields split
add_headers length [] = length_ok (length_or length)
add_headers length ((name, raw) ∷ headers) =
    let skipped = add_headers length headers in
    if bytes_eq name content_length_name
    then (elim (add_fields length (split b',' raw)) [
      | inl next ↦ add_headers next headers
      | inr message ↦ refused message
    ])
    else skipped

unfoldable pub content_length : List (List ℕ × List ℕ) → Length
unfolding add_headers
content_length headers = add_headers none headers

-- `content-length`
abbrev length_name : List ℕ
length_name = 99 ∷ 111 ∷ 110 ∷ 116 ∷ 101 ∷ 110 ∷ 116 ∷ 45 ∷ 108 ∷ 101 ∷ 110 ∷ 103 ∷ 116 ∷ 104 ∷ []

-- The fields of all the headers of that name, in their order.
abbrev pub fields_of : List (List ℕ × List ℕ) → List (List ℕ)
unfolding split
fields_of [] = []
fields_of ((name, raw) ∷ headers) =
    let rest = fields_of headers in
    if bytes_eq name length_name then split b',' raw ++ rest else rest

-- Every field is `n` in decimal digits, with white space around.
abbrev pub Says : ℕ → List (List ℕ) → Type 0
Says n fields = All (λ field. IsDecimal n (trim field)) fields

abbrev Agree : ℕ → List (List ℕ) → Type 0
Agree n fields = All (λ field. field_value field ≡ some n) fields

abbrev length_of : Option ℕ ⊎ Message → Length
length_of (inl length) = length_ok (length_or length)
length_of (inr message) = refused message

abbrev then_fields : Option ℕ ⊎ Message → List (List ℕ) → Option ℕ ⊎ Message
unfolding add_fields
then_fields (inl length) fields = add_fields length fields
then_fields (inr message) fields = inr message

add_fields-append :
    (length : Option ℕ) (xs ys : List (List ℕ))
    → add_fields length (xs ++ ys) ≡ then_fields (add_fields length xs) ys
unfolding add_fields then_fields
add_fields-append length [] ys = refl
add_fields-append length (f ∷ xs) ys = elim (Option-cases (field_value f)) [
  | inl h ↦ rw (h, add_fields) refl
  | inr (value, h) ↦ elim (Bool-cases (conflicts length value)) [
    | inl t ↦ rw (h, add_fields) (rw t refl)
    | inr t ↦ rw (h, add_fields) (rw t (add_fields-append (some value) xs ys))
  ]
]

add_headers-fields_of :
    (length : Option ℕ) (headers : List (List ℕ × List ℕ))
    → add_headers length headers ≡ length_of (add_fields length (fields_of headers))
unfolding add_headers fields_of
add_headers-fields_of length [] = unfold add_fields in refl
add_headers-fields_of length ((name, raw) ∷ headers) =
    elim (Bool-cases (bytes_eq name content_length_name)) [
      | inr t ↦ rw t (add_headers-fields_of length headers)
      | inl t ↦
          let whole = add_fields-append length (split b',' raw) (fields_of headers) in
          rw t (
            onward (λ next. add_headers-fields_of next headers) (add_fields length (split b',' raw))
            ∙ ap length_of (sym whole))
    ]
  where
    onward :
        ((next : Option ℕ)
          → add_headers next headers ≡ length_of (add_fields next (fields_of headers)))
        → (r : Option ℕ ⊎ Message)
        → elim r [ inl next ↦ add_headers next headers | inr message ↦ refused message ]
          ≡ length_of (then_fields r (fields_of headers))
    onward ih (inl next) = ih next
    onward ih (inr message) = refl

-- Fields behind a length that is known.
add_fields-some :
    (n : ℕ) (fields : List (List ℕ)) (result : Option ℕ)
    → add_fields (some n) fields ≡ inl result
    → Agree n fields × (result ≡ some n)
unfolding add_fields
add_fields-some n [] result e = (tt, cc)
add_fields-some n (f ∷ fields) result e = elim (Option-cases (field_value f)) [
  | inl h ↦ let bad : inr invalid_length ≡ inl result = sym (rw (h, add_fields) refl) ∙ e in cc
  | inr (value, h) ↦ elim (Bool-cases (n == value)) [
    | inr t ↦
        let bad : inr conflicting_length ≡ inl result = sym (rw (h, add_fields) (rw t refl)) ∙ e in
        cc
    | inl t ↦
        let same = (==_iff n value).0 t in
        let rest : add_fields (some value) fields ≡ inl result =
          sym (rw (h, add_fields) (rw t refl)) ∙ e in
        let (agree, is) =
          add_fields-some n fields result (ap (λ v. add_fields (some v) fields) same ∙ rest) in
        ((h ∙ ap some (sym same), agree), is)
  ]
]

add_fields-Agree :
    (n : ℕ) (fields : List (List ℕ)) → Agree n fields → add_fields (some n) fields ≡ inl (some n)
unfolding add_fields
add_fields-Agree n [] h = refl
add_fields-Agree n (f ∷ fields) h =
    rw (h.0, add_fields) (rw (==_refl n) (add_fields-Agree n fields h.1))

first :
    (n : ℕ) (f : List ℕ) (fields : List (List ℕ))
    → Agree n (f ∷ fields)
    → add_fields none (f ∷ fields) ≡ inl (some n)
unfolding add_fields
first n f fields h = rw (h.0, add_fields) (add_fields-Agree n fields h.1)

length_ok_inj : {m n : ℕ} → length_ok m ≡ length_ok n → m ≡ n
length_ok_inj e = cc

sum_cases :
    (r : Option ℕ ⊎ Message) → ((l : Option ℕ) × (r ≡ inl l)) ⊎ ((m : Message) × (r ≡ inr m))
sum_cases (inl l) = inl (l, refl)
sum_cases (inr m) = inr (m, refl)

add_fields-none :
    (n : ℕ) (f : List ℕ) (fields : List (List ℕ))
    → length_of (add_fields none (f ∷ fields)) ≡ length_ok n
    → Agree n (f ∷ fields)
unfolding add_fields
add_fields-none n f fields e = elim (Option-cases (field_value f)) [
  | inl h ↦ let bad : refused invalid_length ≡ length_ok n = sym (rw (h, add_fields) refl) ∙ e in cc
  | inr (value, h) ↦
      let rest : length_of (add_fields (some value) fields) ≡ length_ok n =
        sym (rw (h, add_fields) refl) ∙ e in
      elim (sum_cases (add_fields (some value) fields)) [
        | inr (m, g) ↦ let bad : refused m ≡ length_ok n = sym (ap length_of g) ∙ rest in cc
        | inl (l, g) ↦
            let (agree, is) = add_fields-some value fields l g in
            let same : value ≡ n = length_ok_inj (sym (ap length_of (g ∙ ap inl is)) ∙ rest) in
            subst (λ m. Agree m (f ∷ fields)) same (h, agree)
      ]
]

field_value-IsDecimal :
    (field : List ℕ) (n : ℕ) → field_value field ≡ some n → IsDecimal n (trim field)
unfolding field_value
field_value-IsDecimal field n e = elim (Option-cases (parse_usize (trim field))) [
  | inl h ↦ let bad : none ≡ some n = sym (rw (h, field_value) refl) ∙ e in cc
  | inr (value, h) ↦ elim (Bool-cases (any (λ b. not (is_ascii_digit b)) (trim field))) [
    | inl t ↦ let bad : none ≡ some n = sym (rw (h, field_value) (rw t refl)) ∙ e in cc
    | inr t ↦
        let same : some value ≡ some n = sym (rw (h, field_value) (rw t refl)) ∙ e in
        parse_usize-IsDecimal (trim field) n t (h ∙ same)
  ]
]

IsDecimal-field_value :
    (field : List ℕ) (n : ℕ) → IsDecimal n (trim field) → field_value field ≡ some n
unfolding field_value
IsDecimal-field_value field n d =
    let (read, plain) = IsDecimal-parse_usize (trim field) n d in
    rw (read, field_value) (rw plain refl)

Agree-Says : (n : ℕ) (fields : List (List ℕ)) → Agree n fields → Says n fields
Agree-Says n [] a = tt
Agree-Says n (f ∷ fields) a = (field_value-IsDecimal f n a.0, Agree-Says n fields a.1)

Says-Agree : (n : ℕ) (fields : List (List ℕ)) → Says n fields → Agree n fields
Says-Agree n [] a = tt
Says-Agree n (f ∷ fields) a = (IsDecimal-field_value f n a.0, Says-Agree n fields a.1)

-- A length is found exactly when every field of every header of that name is the same number, of 64
-- bits and in one decimal digit or more with nothing but white space around, and it is that number;
-- without such a header it is zero.
pub content_length_iff :
    (headers : List (List ℕ × List ℕ)) (n : ℕ)
    → (content_length headers ≡ length_ok n)
      ↔ (Says n (fields_of headers) × (fields_of headers ≡ [] → n ≡ 0))
unfolding content_length
content_length_iff headers n = (
  λ e.
      let (agree, zeroed) =
        found (fields_of headers) (sym (add_headers-fields_of none headers) ∙ e) in
      (Agree-Says n (fields_of headers) agree, zeroed),
  λ h.
      add_headers-fields_of none headers
      ∙ agreed (fields_of headers) (Says-Agree n (fields_of headers) h.0) h.1,
)
  where
    found :
        (fields : List (List ℕ))
        → length_of (add_fields none fields) ≡ length_ok n
        → Agree n fields × (fields ≡ [] → n ≡ 0)
    found [] e = (tt, λ same. sym (length_ok_inj (unfold add_fields in e)))
    found (f ∷ fields) e = (add_fields-none n f fields e, λ same. cc)

    agreed :
        (fields : List (List ℕ))
        → Agree n fields
        → (fields ≡ [] → n ≡ 0)
        → length_of (add_fields none fields) ≡ length_ok n
    agreed [] h z = unfold add_fields in ap length_ok (sym (z refl))
    agreed (f ∷ fields) h z = ap length_of (first n f fields h)

-- ===== src/Rest/Http/Read/Framed.antt =====
-- Where `read_request` of bindex-electrum/src/rest/http.rs takes a request to end.
use bindex_rs.Common.{
  ℕ, ◌≤◌, ◌<◌, ◌≡◌, refl, sym, ap, ◌∙◌, subst, ◌≢◌, ◌⊎◌, inl, inr, true, false, List, [], ◌∷◌, ◌++◌,
  arith, ltb, ◌==◌, ltb_false→le, ==_iff, Bool-cases, Option-cases,
}
use bindex_rs.Common.{length, take, drop, All, flatten, take-append-drop}
use bindex_rs.Common.Bytes.{bytes_eq, bytes_eq_iff}
use bindex_rs.Rest.Text.{from_utf8_lossy, trim}
use bindex_rs.Rest.Http.{
  HttpRequest, request, closed, invalid, Line, read, too_long, eof, first_line, RequestLine,
  Message, malformed_line, transfer_encoding_unsupported, body_too_large, parse_request_line,
  Headed, headed, ended, refused_headers, read_headers,
}
use bindex_rs.Rest.Http.Lines.{bare_line, IsLine}
use bindex_rs.Rest.Http.Length.{
  Length, length_ok, refused, content_length, fields_of, Says, content_length_iff,
}
use bindex_rs.Rest.Http.Read.{
  has_name, transfer_encoding, request_of, read_body, read_framed, after_headers, after_line,
  read_request,
}
use bindex_rs.Rest.Http.Read.Head.{Written, IsBegun, first_line-IsBegun, read_headers_lem}

request_inj : {a b : HttpRequest} → request a ≡ request b → a ≡ b
request_inj e = cc

invalid_ne : (m : Message) (r : HttpRequest) → invalid 400 m ≡ request r → ⊥
invalid_ne m r e = cc

-- `transfer-encoding`
abbrev pub framing_name : List ℕ
framing_name =
    116 ∷ 114 ∷ 97 ∷ 110 ∷ 115 ∷ 102 ∷ 101 ∷ 114 ∷ 45 ∷ 101 ∷ 110 ∷ 99 ∷ 111 ∷ 100 ∷ 105 ∷ 110 ∷ 103
    ∷ []

-- A request that is framed: the stream is what is passed over, the request line, a line for each
-- header, the line that ends them, the body, and what is left.
pub record IsFramed (max_body : ℕ) (stream : List ℕ) (r : HttpRequest) (rest : List ℕ)
    : Type 0 where
  pub skipped : List ℕ
  pub first : List ℕ
  pub lines : List (List ℕ)
  pub last : List ℕ
  pub headers : List (List ℕ × List ℕ)
  pub whole : stream ≡ skipped ++ (first ++ (flatten lines ++ (last ++ (r.body ++ rest))))
  pub blank :
      ((skipped ≡ []) × (trim (from_utf8_lossy 0 first) ≢ []))
      ⊎ (IsLine skipped × (trim (from_utf8_lossy 0 skipped) ≡ []))
  pub line : IsLine first
  pub written : Written lines headers
  pub ending : IsLine last
  pub bare : bare_line (from_utf8_lossy 0 last) ≡ []
  pub few : length headers < 100
  pub unencoded : All (λ h. h.0 ≢ framing_name) headers
  pub sized : Says (length r.body) (fields_of headers)
  pub unsized : fields_of headers ≡ [] → length r.body ≡ 0
  pub small : length r.body ≤ max_body

has_name-none :
    (name : List ℕ) (headers : List (List ℕ × List ℕ))
    → has_name name headers ≡ false
    → All (λ h. h.0 ≢ name) headers
unfolding has_name
has_name-none name [] e = tt
has_name-none name ((other, value) ∷ headers) e = elim (Bool-cases (bytes_eq other name)) [
  | inl t ↦ let bad : true ≡ false = sym (rw t refl) ∙ e in cc
  | inr t ↦
      let rest : has_name name headers ≡ false = sym (rw t refl) ∙ e in
      (
        λ same. let bad : true ≡ false = sym ((bytes_eq_iff other name).1 same) ∙ t in cc,
        has_name-none name headers rest,
      )
]

read_body-behind :
    (n : ℕ) (line : RequestLine) (headers : List (List ℕ × List ℕ)) (stream : List ℕ)
    (r : HttpRequest) (rest : List ℕ)
    → read_body n line headers stream ≡ (request r, rest)
    → (stream ≡ r.body ++ rest) × (length r.body ≡ n)
unfolding read_body
read_body-behind n line headers stream r rest e = elim (Bool-cases (length (take n stream) == n)) [
  | inr t ↦ let bad : (closed, drop n stream) ≡ (request r, rest) = sym (rw t refl) ∙ e in cc
  | inl t ↦
      let good : (request (request_of line headers (take n stream)), drop n stream)
          ≡ (request r, rest) =
        sym (rw t refl) ∙ e in
      let body = ap (λ (x : HttpRequest). x.body) (request_inj (ap (λ x. x.0) good)) in
      let left = ap (λ x. x.1) good in
      (
        sym (take-append-drop n stream)
            ∙ ap (λ b. b ++ drop n stream) (unfold request_of in body)
            ∙ ap (λ l. r.body ++ l) left,
        ap length (sym (unfold request_of in body)) ∙ (==_iff (length (take n stream)) n).0 t,
      )
]

Length-cases : (l : Length) → ((n : ℕ) × (l ≡ length_ok n)) ⊎ ((m : Message) × (l ≡ refused m))
Length-cases (length_ok n) = inl (n, refl)
Length-cases (refused m) = inr (m, refl)

read_framed-eq-request :
    (max_body : ℕ) (line : RequestLine) (headers : List (List ℕ × List ℕ)) (stream : List ℕ)
    (r : HttpRequest) (rest : List ℕ)
    → read_framed max_body line headers stream ≡ (request r, rest)
    → (stream ≡ r.body ++ rest)
      × (has_name transfer_encoding headers ≡ false)
      × (content_length headers ≡ length_ok (length r.body))
      × (length r.body ≤ max_body)
unfolding read_framed
read_framed-eq-request max_body line headers stream r rest e =
    elim (Bool-cases (has_name transfer_encoding headers)) [
      | inl t ↦
          let bad : (invalid 501 transfer_encoding_unsupported, stream) ≡ (request r, rest) =
            sym (rw t refl) ∙ e in
          cc
      | inr t ↦ elim (Length-cases (content_length headers)) [
        | inr (m, h) ↦
            let bad : (invalid 400 m, stream) ≡ (request r, rest) =
              sym (rw t (rw (h, read_framed) refl)) ∙ e in
            cc
        | inl (n, h) ↦ elim (Bool-cases (ltb max_body n)) [
          | inl f ↦
              let bad : (invalid 400 body_too_large, stream) ≡ (request r, rest) =
                sym (rw t (rw (h, read_framed) (rw f refl))) ∙ e in
              cc
          | inr f ↦
              let good : read_body n line headers stream ≡ (request r, rest) =
                sym (rw t (rw (h, read_framed) (rw f refl))) ∙ e in
              let (behind, size) = read_body-behind n line headers stream r rest good in
              let most = ltb_false→le max_body n f in
              (behind, t, h ∙ ap length_ok (sym size), omega arith)
        ]
      ]
    ]

-- A request that is read is framed: the stream is a blank line if it begins with one, the request
-- line, one line for each header, a line that is empty, the body, and what is left. The body's
-- length is what every Content-Length header says (zero without one) and is at most the bound; no
-- header is a Transfer-Encoding, and there are fewer than a hundred.
pub read_request-IsFramed :
    (max_body : ℕ) (stream : List ℕ) (r : HttpRequest) (rest : List ℕ)
    → read_request max_body stream ≡ (request r, rest)
    → IsFramed max_body stream r rest
unfolding read_request after_headers after_line
read_request-IsFramed max_body stream r rest e = behind_line (first_line stream) refl e
  where
    behind_headers :
        (line : RequestLine) (before : List ℕ) (h : Headed × List ℕ)
        → IsBegun stream before
        → read_headers 100 [] before ≡ h
        → after_headers max_body line h ≡ (request r, rest)
        → IsFramed max_body stream r rest
    behind_headers line before (headed all, after) begun h e =
        let (headers, same, b) = read_headers_lem 100 [] before all (ap (λ x. x.0) h) in
        let (behind, coding, size, small) =
          read_framed-eq-request max_body line headers after r rest
            (ap (λ hs. read_framed max_body line hs after) (sym same) ∙ e) in
        let (says, zeroed) = (content_length_iff headers (length r.body)).0 size in
        record {
          skipped = begun.skipped;
          first = begun.first;
          lines = b.lines;
          last = b.last;
          headers = headers;
          whole =
              begun.whole
              ∙ ap (λ l. begun.skipped ++ (begun.first ++ l))
                  (b.whole
                    ∙ ap (λ x. flatten b.lines ++ (b.last ++ x.1)) h
                    ∙ ap (λ l. flatten b.lines ++ (b.last ++ l)) behind);
          blank = begun.blank;
          line = begun.line;
          written = b.written;
          ending = b.line;
          bare = b.bare;
          few = b.few;
          unencoded = has_name-none transfer_encoding headers coding;
          sized = says;
          unsized = zeroed;
          small = small;
        }
    behind_headers line before (ended, after) begun h e = cc
    behind_headers line before (refused_headers m, after) begun h e = cc

    behind_line :
        (l : Line × List ℕ)
        → first_line stream ≡ l
        → after_line max_body l ≡ (request r, rest)
        → IsFramed max_body stream r rest
    behind_line (eof, after) h e = cc
    behind_line (too_long, after) h e = cc
    behind_line (read line, after) h e = elim (Option-cases (parse_request_line line)) [
      | inl f ↦
          let bad : (invalid 400 malformed_line, after) ≡ (request r, rest) =
            sym (rw (f, after_line) refl) ∙ e in
          absurd (invalid_ne malformed_line r (ap (λ x. x.0) bad))
      | inr (parts, f) ↦
          let good : after_headers max_body parts (read_headers 100 [] after) ≡ (request r, rest) =
            sym (rw (f, after_line) refl) ∙ e in
          behind_headers parts after (read_headers 100 [] after)
            (subst (IsBegun stream) (ap (λ x. x.1) h)
              (first_line-IsBegun stream line (ap (λ x. x.0) h)))
            refl good
    ]

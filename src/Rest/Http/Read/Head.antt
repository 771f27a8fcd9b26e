-- ===== src/Rest/Http/Read/Head.antt =====
-- The head of a request in bindex-electrum/src/rest/http.rs: the request line and the headers.
use bindex_rs.Common.{
  ℕ, zero, suc, ◌<◌, ◌≡◌, ◌≢◌, false, refl, sym, ap, ◌∙◌, subst, ◌⊎◌, inl, inr, true, none, some,
  List, [], ◌∷◌, ◌++◌, append_assoc, append-nil, arith, Bool-cases, Option-cases,
}
use bindex_rs.Common.{length, flatten}
use bindex_rs.Rest.Text.{from_utf8_lossy, is_empty, trim}
use bindex_rs.Rest.Http.{
  Line, read, too_long, eof, read_line, first_line, after_stray, header_too_long, malformed_header,
  parse_header, headed, ended, refused_headers, read_headers,
}
use bindex_rs.Rest.Http.Lines.{
  IsLine, IsHeader, bare_line, read_line-IsLine, parse_header-IsHeader, parse_header-last, empty,
}

-- The headers are those that stand in the lines, one in each.
abbrev pub Written : List (List ℕ) → List (List ℕ × List ℕ) → Type 0
Written [] [] = Unit
Written [] (h ∷ headers) = ⊥
Written (l ∷ lines) [] = ⊥
Written (l ∷ lines) (h ∷ headers) =
    IsLine l × IsHeader (from_utf8_lossy 0 l) h × Written lines headers

Line-cases : (l : Line) → ((line : List ℕ) × (l ≡ read line)) ⊎ ((l ≡ too_long) ⊎ (l ≡ eof))
Line-cases (read line) = inl (line, refl)
Line-cases too_long = inr (inl refl)
Line-cases eof = inr (inr refl)

headed_inj : {a b : List (List ℕ × List ℕ)} → headed a ≡ headed b → a ≡ b
headed_inj e = cc

read_inj : {a b : List ℕ} → read a ≡ read b → a ≡ b
read_inj e = cc

-- Where a stream has its first line, before `rest`: a blank line may be passed over.
pub record IsBegun (stream rest : List ℕ) : Type 0 where
  pub skipped : List ℕ
  pub first : List ℕ
  pub whole : stream ≡ skipped ++ (first ++ rest)
  pub blank :
      ((skipped ≡ []) × (trim (from_utf8_lossy 0 first) ≢ []))
      ⊎ (IsLine skipped × (trim (from_utf8_lossy 0 skipped) ≡ []))
  pub line : IsLine first

full : (cs : List ℕ) → is_empty cs ≡ false → cs ≢ []
full [] e = cc
full (c ∷ cs) e = λ same. cc

pub first_line-IsBegun :
    (stream line : List ℕ)
    → (first_line stream).0 ≡ read line
    → IsBegun stream (first_line stream).1
unfolding first_line
first_line-IsBegun stream line e = stray (read_line stream) refl e
  where
    direct :
        (text rest : List ℕ)
        → read_line stream ≡ (read text, rest)
        → is_empty (trim text) ≡ false
        → IsBegun stream rest
    direct text rest h t =
        let (raw, is, cut, same) = read_line-IsLine stream text (ap (λ x. x.0) h) in
        record {
          skipped = [];
          first = raw;
          whole = cut ∙ ap (λ x. raw ++ x.1) h;
          blank = inl (refl, subst (λ l. trim l ≢ []) same (full (trim text) t));
          line = is;
        }

    onward :
        (text rest : List ℕ)
        → read_line stream ≡ (read text, rest)
        → is_empty (trim text) ≡ true
        → (read_line rest).0 ≡ read line
        → IsBegun stream (read_line rest).1
    onward text rest h t e =
        let (raw, is, cut, same) = read_line-IsLine stream text (ap (λ x. x.0) h) in
        let (next, is_next, cut_next, _) = read_line-IsLine rest line e in
        record {
          skipped = raw;
          first = next;
          whole = cut ∙ ap (λ x. raw ++ x.1) h ∙ ap (λ l. raw ++ l) cut_next;
          blank = inr (is, subst (λ l. trim l ≡ []) same (empty (trim text) t));
          line = is_next;
        }

    stray :
        (l : Line × List ℕ)
        → read_line stream ≡ l
        → (after_stray l).0 ≡ read line
        → IsBegun stream (after_stray l).1
    stray (too_long, rest) h e = cc
    stray (eof, rest) h e = cc
    stray (read text, rest) h e = elim (Bool-cases (is_empty (trim text))) [
      | inl t ↦
          let next : (read_line rest).0 ≡ read line = sym (rw t refl) ∙ e in
          rw t (onward text rest h t next)
      | inr t ↦ rw t (direct text rest h t)
    ]

-- What the header lines of a stream are, before `rest`; `room` is more than their number.
pub record IsHeadedBy (room : ℕ) (stream rest : List ℕ) (headers : List (List ℕ × List ℕ))
    : Type 0 where
  pub lines : List (List ℕ)
  pub last : List ℕ
  pub whole : stream ≡ flatten lines ++ (last ++ rest)
  pub written : Written lines headers
  pub line : IsLine last
  pub bare : bare_line (from_utf8_lossy 0 last) ≡ []
  pub few : length headers < room

-- The headers that are read are those of the lines, behind the ones that were read before.
pub read_headers_lem :
    (room : ℕ) (before : List (List ℕ × List ℕ)) (stream : List ℕ) (all : List (List ℕ × List ℕ))
    → (read_headers room before stream).0 ≡ headed all
    → (headers : List (List ℕ × List ℕ)) × (all ≡ before ++ headers)
      × IsHeadedBy room stream (read_headers room before stream).1 headers
unfolding read_headers
read_headers_lem zero before stream all e = cc
read_headers_lem (suc room) before stream all e = elim (Line-cases (read_line stream).0) [
  | inr (inl h) ↦
      let bad : refused_headers header_too_long ≡ headed all =
        sym (rw (h, read_headers) refl) ∙ e in
      cc
  | inr (inr h) ↦ let bad : ended ≡ headed all = sym (rw (h, read_headers) refl) ∙ e in cc
  | inl (text, h) ↦
      let (raw, is, cut, same) = read_line-IsLine stream text h in
      elim (Option-cases (parse_header text)) [
        | inl f ↦
            let bad : refused_headers malformed_header ≡ headed all =
              sym (rw (h, read_headers) (rw (f, read_headers) refl)) ∙ e in
            cc
        | inr (none, f) ↦
            let good : headed before ≡ headed all =
              sym (rw (h, read_headers) (rw (f, read_headers) refl)) ∙ e in
            rw (h, read_headers)
              (rw (f, read_headers)
                (
                  [],
                  sym (headed_inj good) ∙ sym (append-nil before),
                  record {
                    lines = [];
                    last = raw;
                    whole = cut;
                    written = tt;
                    line = is;
                    bare = subst (λ l. bare_line l ≡ []) same (parse_header-last text f);
                    few = omega arith;
                  },
                ))
        | inr (some header, f) ↦
            let rest = (read_line stream).1 in
            let good : (read_headers room (before ++ header ∷ []) rest).0 ≡ headed all =
              sym (rw (h, read_headers) (rw (f, read_headers) refl)) ∙ e in
            let (more, joined, b) = read_headers_lem room (before ++ header ∷ []) rest all good in
            rw (h, read_headers)
              (rw (f, read_headers)
                (
                  header ∷ more,
                  joined ∙ append_assoc before (header ∷ []) more,
                  record {
                    lines = raw ∷ b.lines;
                    last = b.last;
                    whole =
                        cut
                        ∙ ap (λ l. raw ++ l) b.whole
                        ∙ sym (append_assoc raw (flatten b.lines) _);
                    written = (
                      is,
                      subst (λ l. IsHeader l header) same (parse_header-IsHeader text header f),
                      b.written,
                    );
                    line = b.line;
                    bare = b.bare;
                    few = omega (arith, b.few);
                  },
                ))
      ]
]

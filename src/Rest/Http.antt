-- ===== src/Rest/Http.antt =====
-- bindex-electrum/src/rest/http.rs: framing a request on a stream of bytes. What is left of the stream
-- is passed on; reading it does not fail here.
use bindex_rs.Common.{
  ℕ, zero, suc, Bool, false, not, ◌&&◌, ◌||◌, Option, none, some, List, [], ◌∷◌, ◌++◌, ◌==◌,
  if◌then◌else◌,
}
use bindex_rs.Common.{get_last?}
use bindex_rs.Rest.Text.{
  from_utf8_lossy, is_whitespace, is_empty, any, trim, trim_end, trim_end_matches, split,
  split_once, begins, to_ascii_lowercase, is_ascii_alphabetic,
}
pub mod Decimal
pub mod Lines
pub mod Length
pub mod Decode
pub mod Read

pub record HttpRequest : Type 0 where
  pub method : List ℕ
  pub path : List ℕ
  pub raw_target : List ℕ
  pub query : List (List ℕ × List ℕ)
  pub body : List ℕ
  pub keep_alive : Bool

-- The texts of the refusals.
pub data Message : Type 0 where
  line_too_long malformed_line too_many_headers header_too_long malformed_header : Message
  transfer_encoding_unsupported invalid_length conflicting_length body_too_large : Message

pub data ReadOutcome : Type 0 where
  request : HttpRequest → ReadOutcome
  closed : ReadOutcome
  invalid : ℕ → Message → ReadOutcome

pub data Line : Type 0 where
  read : List ℕ → Line
  too_long : Line
  eof : Line

-- `take(limit).read_until(b'\n')`: what is read, and what is left.
unfoldable pub read_until : ℕ → List ℕ → List ℕ × List ℕ
read_until zero stream = ([], stream)
read_until (suc limit) [] = ([], [])
read_until (suc limit) (b ∷ stream) =
    let more = read_until limit stream in if b == 10 then (b ∷ [], stream) else (b ∷ more.0, more.1)

abbrev pub ends_line : Option ℕ → Bool
ends_line none = false
ends_line (some b) = b == 10

abbrev pub line_of : List ℕ → Line
unfolding from_utf8_lossy
line_of [] = eof
line_of (b ∷ buf) =
    if ends_line (get_last? (b ∷ buf)) then read (from_utf8_lossy 0 (b ∷ buf)) else too_long

-- `read_line`, with `MAX_LINE`.
unfoldable pub read_line : List ℕ → Line × List ℕ
unfolding read_until line_of
read_line stream = (line_of (read_until 65536 stream).0, (read_until 65536 stream).1)

-- A stray empty line before a request is passed over once.
abbrev pub after_stray : Line × List ℕ → Line × List ℕ
unfolding trim
after_stray (read line, stream) =
    if is_empty (trim line) then read_line stream else (read line, stream)
after_stray (too_long, stream) = (too_long, stream)
after_stray (eof, stream) = (eof, stream)

unfoldable pub first_line : List ℕ → Line × List ℕ
unfolding read_line after_stray
first_line stream = after_stray (read_line stream)

-- `HTTP/` and `HTTP/1.1`
abbrev http_slash : List ℕ
http_slash = b'H' ∷ b'T' ∷ b'T' ∷ b'P' ∷ b'/' ∷ []

abbrev http_1_1 : List ℕ
http_1_1 = http_slash ++ b'1' ∷ b'.' ∷ b'1' ∷ []

abbrev http_1_0 : List ℕ
http_1_0 = http_slash ++ b'1' ∷ b'.' ∷ b'0' ∷ []

pub record RequestLine : Type 0 where
  pub method : List ℕ
  pub target : List ℕ
  pub version : List ℕ

abbrev line_parts : List (List ℕ) → Option RequestLine
line_parts (method ∷ target ∷ version ∷ []) =
    some (record { method = method; target = target; version = version })
line_parts (method ∷ target ∷ []) =
    some (record { method = method; target = target; version = http_1_1 })
line_parts _ = none

unfoldable pub well_formed : RequestLine → Bool
well_formed line =
    not (is_empty line.method)
    && (not (is_empty line.target)
        && (not (any (λ b. not (is_ascii_alphabetic b)) line.method)
            && begins line.version http_slash))

-- The parts of the request line, when it is well formed.
unfoldable pub parse_request_line : List ℕ → Option RequestLine
unfolding split trim_end well_formed
parse_request_line line = elim (line_parts (split b' ' (trim_end line))) [
  | none ↦ none
  | some parts ↦ if well_formed parts then some parts else none
]

-- The headers of a request, or why there are none: the stream ends, or they are refused with 400.
pub data Headed : Type 0 where
  headed : List (List ℕ × List ℕ) → Headed
  ended : Headed
  refused_headers : Message → Headed

abbrev pub is_line_end : ℕ → Bool
is_line_end c = c == 13 || c == 10

-- What the loop does with a line: the last one is empty (`some none`), others hold a header
-- (`some (some ..)`) or are malformed.
unfoldable pub parse_header : List ℕ → Option (Option (List ℕ × List ℕ))
unfolding trim_end_matches split_once any to_ascii_lowercase trim
parse_header raw =
    let line = trim_end_matches is_line_end raw in
    if is_empty line then some none else (elim (split_once b':' line) [
      | none ↦ none
      | some (name, value) ↦
          if is_empty name || any is_whitespace name
          then none
          else some (some (to_ascii_lowercase name, trim value))
    ])

-- The loop over the header lines, `room` short of `MAX_HEADERS`.
unfoldable pub read_headers : ℕ → List (List ℕ × List ℕ) → List ℕ → Headed × List ℕ
unfolding read_line parse_header
read_headers zero headers stream = (refused_headers too_many_headers, stream)
read_headers (suc room) headers stream = elim (read_line stream).0 [
  | eof ↦ (ended, (read_line stream).1)
  | too_long ↦ (refused_headers header_too_long, (read_line stream).1)
  | read line ↦ elim (parse_header line) [
    | none ↦ (refused_headers malformed_header, (read_line stream).1)
    | some none ↦ (headed headers, (read_line stream).1)
    | some (some header) ↦ read_headers room (headers ++ header ∷ []) (read_line stream).1
  ]
]

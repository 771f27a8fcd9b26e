-- ===== src/Rest/Http/Read.antt =====
-- `read_request` of bindex-electrum/src/rest/http.rs.
use bindex_rs.Common.{
  ℕ, Bool, true, false, not, ◌||◌, Option, none, some, List, [], ◌∷◌, ltb, ◌==◌, if◌then◌else◌,
}
use bindex_rs.Common.{length, take, drop}
use bindex_rs.Common.Bytes.{bytes_eq}
use bindex_rs.Rest.Text.{split_once, contains, to_ascii_lowercase}
use bindex_rs.Rest.Http.{
  HttpRequest, malformed_line, line_too_long, transfer_encoding_unsupported, body_too_large,
  ReadOutcome, request, closed, invalid, Line, read, too_long, eof, first_line, http_1_0,
  RequestLine, parse_request_line, Headed, headed, ended, refused_headers, read_headers,
}
use bindex_rs.Rest.Http.Length.{length_ok, refused, content_length}
use bindex_rs.Rest.Http.Decode.{percent_decode, parse_query}
pub mod Head
pub mod Framed

-- `transfer-encoding`
abbrev pub transfer_encoding : List ℕ
transfer_encoding =
    b't' ∷ b'r' ∷ b'a' ∷ b'n' ∷ b's' ∷ b'f' ∷ b'e' ∷ b'r' ∷ b'-' ∷ b'e' ∷ b'n' ∷ b'c' ∷ b'o' ∷ b'd'
    ∷ b'i' ∷ b'n' ∷ b'g' ∷ []

-- `connection`
abbrev connection : List ℕ
connection = b'c' ∷ b'o' ∷ b'n' ∷ b'n' ∷ b'e' ∷ b'c' ∷ b't' ∷ b'i' ∷ b'o' ∷ b'n' ∷ []

-- `close` and `keep-alive`
abbrev close_text : List ℕ
close_text = b'c' ∷ b'l' ∷ b'o' ∷ b's' ∷ b'e' ∷ []

abbrev keep_alive_text : List ℕ
keep_alive_text = b'k' ∷ b'e' ∷ b'e' ∷ b'p' ∷ b'-' ∷ b'a' ∷ b'l' ∷ b'i' ∷ b'v' ∷ b'e' ∷ []

unfoldable pub has_name : List ℕ → List (List ℕ × List ℕ) → Bool
has_name name [] = false
has_name name ((other, value) ∷ headers) = bytes_eq other name || has_name name headers

-- `connection_header`
unfoldable pub connection_header : List (List ℕ × List ℕ) → Option (List ℕ)
unfolding to_ascii_lowercase
connection_header [] = none
connection_header ((name, value) ∷ headers) =
    let rest = connection_header headers in
    if bytes_eq name connection then some (to_ascii_lowercase value) else rest

unfoldable pub keeps_alive : Option (List ℕ) → List ℕ → Bool
unfolding contains
keeps_alive none version = not (bytes_eq version http_1_0)
keeps_alive (some value) version =
    if contains value close_text
    then false
    else (if contains value keep_alive_text then true else not (bytes_eq version http_1_0))

-- The request's target, its query split off.
abbrev target_parts : List ℕ → List ℕ × Option (List ℕ)
unfolding split_once
target_parts target = elim (split_once b'?' target) [
  | none ↦ (target, none)
  | some (path, query) ↦ (path, some query)
]

abbrev query_of : Option (List ℕ) → List (List ℕ × List ℕ)
query_of none = []
query_of (some query) = parse_query query

unfoldable pub request_of : RequestLine → List (List ℕ × List ℕ) → List ℕ → HttpRequest
unfolding percent_decode parse_query connection_header keeps_alive target_parts
request_of line headers body = record {
  method = line.method;
  path = percent_decode (target_parts line.target).0;
  raw_target = (target_parts line.target).0;
  query = query_of (target_parts line.target).1;
  body = body;
  keep_alive = keeps_alive (connection_header headers) line.version;
}

-- The body of `n` bytes, when the peer sends as many.
unfoldable pub read_body : ℕ → RequestLine → List (List ℕ × List ℕ) → List ℕ → ReadOutcome × List ℕ
unfolding request_of
read_body n line headers stream =
    if length (take n stream) == n
    then (request (request_of line headers (take n stream)), drop n stream)
    else (closed, drop n stream)

-- What follows the headers.
unfoldable pub read_framed :
    ℕ → RequestLine → List (List ℕ × List ℕ) → List ℕ → ReadOutcome × List ℕ
unfolding has_name content_length read_body
read_framed max_body line headers stream =
    if has_name transfer_encoding headers
    then (invalid 501 transfer_encoding_unsupported, stream)
    else (elim (content_length headers) [
      | refused message ↦ (invalid 400 message, stream)
      | length_ok n ↦
          if ltb max_body n
          then (invalid 400 body_too_large, stream)
          else read_body n line headers stream
    ])

abbrev after_headers : ℕ → RequestLine → Headed × List ℕ → ReadOutcome × List ℕ
unfolding read_framed
after_headers max_body line (headed headers, stream) = read_framed max_body line headers stream
after_headers max_body line (ended, stream) = (closed, stream)
after_headers max_body line (refused_headers message, stream) = (invalid 400 message, stream)

-- What follows the request line; `MAX_HEADERS` is a hundred.
abbrev after_line : ℕ → Line × List ℕ → ReadOutcome × List ℕ
unfolding parse_request_line read_headers after_headers
after_line max_body (eof, stream) = (closed, stream)
after_line max_body (too_long, stream) = (invalid 400 line_too_long, stream)
after_line max_body (read line, stream) = elim (parse_request_line line) [
  | none ↦ (invalid 400 malformed_line, stream)
  | some parts ↦ after_headers max_body parts (read_headers 100 [] stream)
]

unfoldable pub read_request : ℕ → List ℕ → ReadOutcome × List ℕ
unfolding first_line after_line
read_request max_body stream = after_line max_body (first_line stream)

-- ===== src/Tests/Rest.antt =====
-- The REST API's parsing at concrete inputs.
use bindex_rs.Common.{ℕ, ◌≡◌, refl, ◌↔◌, inl, inr, Bool, true, leb, ◌&&◌, List, [], ◌∷◌, arith}
use bindex_rs.Common.Bytes.{bytes_eq}
use bindex_rs.Rest.Text.{as_bytes, split, trim, trim_start, trim_end, parse_usize, any}
use bindex_rs.Rest.Http.{HttpRequest, request, invalid_length}
use bindex_rs.Rest.Http.Length.{
  length_ok, refused, content_length, content_length_name, content_length_iff, fields_of, Says,
}
use bindex_rs.Rest.Http.Decode.{percent_decode}
use bindex_rs.Rest.Http.Decode.RoundTrip.{percent_encode, percent_decode-percent_encode}
use bindex_rs.Rest.Http.Read.{read_request}
use bindex_rs.Rest.Http.Read.Framed.{IsFramed, read_request-IsFramed}

-- Two headers with the lengths `5, 5` and `5`.
abbrev lengths : List (List ℕ × List ℕ)
lengths = (content_length_name, 53 ∷ 44 ∷ 32 ∷ 53 ∷ []) ∷ (content_length_name, 53 ∷ []) ∷ []

content_length_iff_example :
    (content_length lengths ≡ length_ok 5)
    ↔ (Says 5 (fields_of lengths) × (fields_of lengths ≡ [] → ◌≡◌ {A = ℕ} 5 0))
content_length_iff_example = content_length_iff lengths 5

-- A sign is refused, white space is not.
signed_length : content_length ((content_length_name, 43 ∷ 52 ∷ []) ∷ []) ≡ refused invalid_length
unfolding content_length split trim trim_start trim_end parse_usize any bytes_eq
signed_length = refl

spaced_length : content_length ((content_length_name, 32 ∷ 52 ∷ []) ∷ []) ≡ length_ok 4
unfolding content_length split trim trim_start trim_end parse_usize any bytes_eq
spaced_length = refl

-- Letters are left as they are.
abbrev letters : ℕ → Bool
letters b = leb 97 b && leb b 122

-- A string with `%`, a letter, and characters of two, three and four bytes.
percent_decode-percent_encode_example :
    percent_decode (percent_encode letters (as_bytes (97 ∷ 37 ∷ 233 ∷ 8364 ∷ 128512 ∷ [])))
    ≡ 97 ∷ 37 ∷ 233 ∷ 8364 ∷ 128512 ∷ []
percent_decode-percent_encode_example =
    percent_decode-percent_encode letters (97 ∷ 37 ∷ 233 ∷ 8364 ∷ 128512 ∷ []) (
      inl (omega arith),
      (inl (omega arith), (inl (omega arith), (inl (omega arith), (inr (omega arith), tt)))),
    )

-- A request with a body of four bytes, and the beginning of another one.
abbrev stream : List ℕ
stream =
    80 ∷ 79 ∷ 83 ∷ 84 ∷ 32 ∷ 47 ∷ 116 ∷ 120 ∷ 32 ∷ 72 ∷ 84 ∷ 84 ∷ 80 ∷ 47 ∷ 49 ∷ 46 ∷ 49 ∷ 13 ∷ 10
    ∷ 67 ∷ 111 ∷ 110 ∷ 116 ∷ 101 ∷ 110 ∷ 116 ∷ 45 ∷ 76 ∷ 101 ∷ 110 ∷ 103 ∷ 116 ∷ 104 ∷ 58 ∷ 32 ∷ 52
    ∷ 13 ∷ 10 ∷ 13 ∷ 10 ∷ 100 ∷ 101 ∷ 97 ∷ 100 ∷ 71 ∷ 69 ∷ 84 ∷ []

abbrev parsed : HttpRequest
parsed = record {
  method = 80 ∷ 79 ∷ 83 ∷ 84 ∷ [];
  path = 47 ∷ 116 ∷ 120 ∷ [];
  raw_target = 47 ∷ 116 ∷ 120 ∷ [];
  query = [];
  body = 100 ∷ 101 ∷ 97 ∷ 100 ∷ [];
  keep_alive = true;
}

parsed_ok : read_request 100 stream ≡ (request parsed, 71 ∷ 69 ∷ 84 ∷ [])
unfolding read_request bytes_eq
parsed_ok = refl

read_request-IsFramed_example : IsFramed 100 stream parsed (71 ∷ 69 ∷ 84 ∷ [])
read_request-IsFramed_example =
    read_request-IsFramed 100 stream parsed (71 ∷ 69 ∷ 84 ∷ []) parsed_ok

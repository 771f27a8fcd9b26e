-- ===== src/Rest/Http/Decode.antt =====
-- `percent_decode` and `parse_query` of bindex-electrum/src/rest/http.rs.
use bindex_rs.Common.{
  ℕ, zero, suc, ◌+◌, ◌-◌, ◌*◌, ◌%◌, ◌&&◌, Option, none, some, List, [], ◌∷◌, map, leb, ◌==◌,
  if◌then◌else◌,
}
use bindex_rs.Common.Bytes.{bytes_eq}
use bindex_rs.Electrum.Maps.{set}
use bindex_rs.Rest.Text.{from_utf8_lossy, as_bytes, any, is_empty, split, split_once}
pub mod RoundTrip

-- `char::to_digit(16)`
unfoldable pub hex_digit : ℕ → Option ℕ
hex_digit c =
    if leb 48 c && leb c 57
    then some (c - 48)
    else (if leb 97 c && leb c 102
        then some (c - 87)
        else (if leb 65 c && leb c 70 then some (c - 55) else none))

-- The byte that `%` and what stands behind it stand for.
unfoldable pub escaped : ℕ → List ℕ → Option ℕ
unfolding hex_digit
escaped b [] = none
escaped b (h ∷ []) = none
escaped b (h ∷ l ∷ rest) =
    if b == b'%'
    then (elim (hex_digit h) [
      | none ↦ none
      | some hi ↦ elim (hex_digit l) [ none ↦ none | some lo ↦ some ((hi * 16 + lo) % 256) ]
    ])
    else none

-- The loop over the bytes; `skip` of them belong to an escape.
unfoldable pub percent_bytes : ℕ → List ℕ → List ℕ
unfolding escaped
percent_bytes skip [] = []
percent_bytes (suc skip) (b ∷ bs) = percent_bytes skip bs
percent_bytes zero (b ∷ bs) =
    let plain = percent_bytes 0 bs in
    let behind = percent_bytes 2 bs in
    elim (escaped b bs) [ none ↦ b ∷ plain | some value ↦ value ∷ behind ]

unfoldable pub percent_decode : List ℕ → List ℕ
unfolding any as_bytes percent_bytes from_utf8_lossy
percent_decode input =
    if any (λ c. c == b'%') input
    then from_utf8_lossy 0 (percent_bytes 0 (as_bytes input))
    else input

-- A pair of `parse_query`, decoded.
abbrev pub pair_of : List ℕ → List ℕ × List ℕ
unfolding split_once percent_decode
pair_of pair = elim (split_once b'=' pair) [
  | some (key, value) ↦ (percent_decode key, percent_decode value)
  | none ↦ (percent_decode pair, [])
]

-- The collected map: a later pair replaces an earlier one of its key.
unfoldable pub collect_pairs : List (List ℕ × List ℕ) → List (List ℕ) → List (List ℕ × List ℕ)
unfolding pair_of set
collect_pairs map [] = map
collect_pairs map (pair ∷ pairs) =
    let skipped = collect_pairs map pairs in
    if is_empty pair
    then skipped
    else collect_pairs (set bytes_eq (pair_of pair).0 (pair_of pair).1 map) pairs

unfoldable pub parse_query : List ℕ → List (List ℕ × List ℕ)
unfolding split collect_pairs
parse_query query = collect_pairs [] (split b'&' query)

-- ===== src/Rest/Text.antt =====
-- What the REST API uses of `str`: a string is the list of its characters, each a code point.
use bindex_rs.Common.{
  ℕ, zero, suc, ◌+◌, ◌-◌, ◌*◌, ◌/◌, ◌%◌, ◌^◌, Bool, true, false, not, ◌&&◌, ◌||◌, Option, none,
  some, List, [], ◌∷◌, ◌++◌, ltb, leb, ◌==◌, if◌then◌else◌,
}
use bindex_rs.Common.{drop}
pub mod Utf8

-- One character and the number of bytes that it takes, or how many bytes make up what is no
-- character (`none`), by the table of well-formed sequences.
abbrev continues : ℕ → ℕ → List ℕ → Bool
continues low high [] = false
continues low high (b ∷ bs) = leb low b && leb b high

second_low : ℕ → ℕ
second_low b = if b == 224 then 160 else (if b == 240 then 144 else 128)

second_high : ℕ → ℕ
second_high b = if b == 237 then 159 else (if b == 244 then 143 else 191)

-- `char` of the bytes of a sequence of two, three or four.
abbrev byte_at : List ℕ → ℕ
byte_at [] = 0
byte_at (b ∷ bs) = b

-- How long the sequence is that a byte begins; zero when none begins so.
sequence_len : ℕ → ℕ
sequence_len b =
    if ltb b 128
    then 1
    else (if leb 194 b && leb b 223
        then 2
        else (if leb 224 b && leb b 239 then 3 else (if leb 240 b && leb b 244 then 4 else 0)))

-- The replacement character.
abbrev pub replacement : ℕ
replacement = 65533

-- The first character, and how many of the bytes behind the first one it takes.
unfoldable pub next_char : ℕ → List ℕ → ℕ × ℕ
unfolding second_low second_high sequence_len
next_char b rest =
    let n = sequence_len b in
    let second = continues (second_low b) (second_high b) rest in
    let third = continues 128 191 (drop 1 rest) in
    let fourth = continues 128 191 (drop 2 rest) in
    let c1 = byte_at rest % 64 in
    let c2 = byte_at (drop 1 rest) % 64 in
    let c3 = byte_at (drop 2 rest) % 64 in
    if n == 1
    then (b, 0)
    else (if n == 0 || not second
        then (replacement, 0)
        else (if n == 2
            then ((b % 32) * 64 + c1, 1)
            else (if not third
                then (replacement, 1)
                else (if n == 3
                    then ((b % 16) * 4096 + c1 * 64 + c2, 2)
                    else (if not fourth
                        then (replacement, 2)
                        else ((b % 8) * 262144 + c1 * 4096 + c2 * 64 + c3, 3))))))

-- `String::from_utf8_lossy`; `skip` bytes belong to the character before.
unfoldable pub from_utf8_lossy : ℕ → List ℕ → List ℕ
unfolding next_char
from_utf8_lossy skip [] = []
from_utf8_lossy (suc skip) (b ∷ bs) = from_utf8_lossy skip bs
from_utf8_lossy zero (b ∷ bs) = (next_char b bs).0 ∷ from_utf8_lossy (next_char b bs).1 bs

-- `str.as_bytes()`
unfoldable pub encode_char : ℕ → List ℕ
encode_char c =
    if ltb c 128
    then c ∷ []
    else (if ltb c 2048
        then (192 + c / 64) ∷ (128 + c % 64) ∷ []
        else (if ltb c 65536
            then (224 + c / 4096) ∷ (128 + (c / 64) % 64) ∷ (128 + c % 64) ∷ []
            else (240 + c / 262144)
              ∷ (128 + (c / 4096) % 64)
              ∷ (128 + (c / 64) % 64)
              ∷ (128 + c % 64)
              ∷ []))

unfoldable pub as_bytes : List ℕ → List ℕ
unfolding encode_char
as_bytes [] = []
as_bytes (c ∷ cs) = encode_char c ++ as_bytes cs

-- `char::is_whitespace`
abbrev pub is_whitespace : ℕ → Bool
is_whitespace c =
    (leb 9 c && leb c 13)
    || (c == 32
        || (c == 133
            || (c == 160
                || (c == 5760
                    || ((leb 8192 c && leb c 8202)
                        || (c == 8232
                            || (c == 8233 || (c == 8239 || (c == 8287 || c == 12288)))))))))

abbrev pub is_empty : List ℕ → Bool
is_empty [] = true
is_empty (c ∷ cs) = false

unfoldable pub any : (ℕ → Bool) → List ℕ → Bool
any test [] = false
any test (c ∷ cs) = test c || any test cs

unfoldable pub trim_start : List ℕ → List ℕ
trim_start [] = []
trim_start (c ∷ cs) = let rest = trim_start cs in if is_whitespace c then rest else c ∷ cs

-- `str.trim_end_matches(test)`
unfoldable pub trim_end_matches : (ℕ → Bool) → List ℕ → List ℕ
trim_end_matches test [] = []
trim_end_matches test (c ∷ cs) =
    let rest = trim_end_matches test cs in if test c && is_empty rest then [] else c ∷ rest

unfoldable pub trim_end : List ℕ → List ℕ
unfolding trim_end_matches
trim_end cs = trim_end_matches is_whitespace cs

unfoldable pub trim : List ℕ → List ℕ
unfolding trim_start trim_end
trim cs = trim_end (trim_start cs)

abbrev onto_first : ℕ → List (List ℕ) → List (List ℕ)
onto_first c [] = (c ∷ []) ∷ []
onto_first c (part ∷ parts) = (c ∷ part) ∷ parts

-- `str.split(c)`
unfoldable pub split : ℕ → List ℕ → List (List ℕ)
split at [] = [] ∷ []
split at (c ∷ cs) = let parts = split at cs in if c == at then [] ∷ parts else onto_first c parts

abbrev pub onto_left : ℕ → Option (List ℕ × List ℕ) → Option (List ℕ × List ℕ)
onto_left c none = none
onto_left c (some (a, b)) = some (c ∷ a, b)

-- `str.split_once(c)`
unfoldable pub split_once : ℕ → List ℕ → Option (List ℕ × List ℕ)
split_once at [] = none
split_once at (c ∷ cs) =
    let rest = split_once at cs in if c == at then some ([], cs) else onto_left c rest

unfoldable pub begins : List ℕ → List ℕ → Bool
begins cs [] = true
begins [] (d ∷ ds) = false
begins (c ∷ cs) (d ∷ ds) = c == d && begins cs ds

-- `str.contains(needle)`
unfoldable pub contains : List ℕ → List ℕ → Bool
unfolding begins
contains [] needle = begins [] needle
contains (c ∷ cs) needle = begins (c ∷ cs) needle || contains cs needle

abbrev lower : ℕ → ℕ
lower c = if leb 65 c && leb c 90 then c + 32 else c

-- `str.to_ascii_lowercase()`
unfoldable pub to_ascii_lowercase : List ℕ → List ℕ
to_ascii_lowercase [] = []
to_ascii_lowercase (c ∷ cs) = lower c ∷ to_ascii_lowercase cs

abbrev pub is_ascii_digit : ℕ → Bool
is_ascii_digit c = leb 48 c && leb c 57

abbrev pub is_ascii_alphabetic : ℕ → Bool
is_ascii_alphabetic c = (leb 65 c && leb c 90) || (leb 97 c && leb c 122)

-- The digits behind those that make `n`.
unfoldable pub parse_digits : ℕ → List ℕ → Option ℕ
parse_digits n [] = some n
parse_digits n (c ∷ cs) =
    let m = n * 10 + (c - 48) in
    let rest = parse_digits m cs in if is_ascii_digit c && ltb m (2 ^ 64) then rest else none

abbrev pub without_plus : List ℕ → List ℕ
without_plus [] = []
without_plus (c ∷ cs) = if c == 43 then cs else c ∷ cs

-- `str.parse::<usize>()`, on a machine of 64 bits.
unfoldable pub parse_usize : List ℕ → Option ℕ
unfolding parse_digits
parse_usize cs = if is_empty (without_plus cs) then none else parse_digits 0 (without_plus cs)

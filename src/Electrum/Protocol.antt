-- ===== src/Electrum/Protocol.antt =====
-- Protocol versions of bindex-electrum/src/protocol.rs: parsing, printing, order and negotiation.
use bindex_rs.Common.{
  ℕ, zero, suc, ◌^◌, max, Bool, true, false, Option, none, some, List, [], ◌∷◌, ltb, ◌==◌,
  if◌then◌else◌,
}
use bindex_rs.Common.{length}
use Prim.Native.Nat.{compare, Ordering}
use bindex_rs.Rest.Text.{split, is_empty, parse_usize}
pub mod Order
pub mod Negotiated
pub mod Normal

pub record ProtocolVersion : Type 0 where
  pub components : List ℕ

unfoldable pub new : ℕ → ℕ → ProtocolVersion
new major minor = record { components = major ∷ minor ∷ [] }

unfoldable pub v1_4 : ProtocolVersion
unfolding new
v1_4 = new 1 4

unfoldable pub v1_6 : ProtocolVersion
unfolding new
v1_6 = new 1 6

-- `components.get(0).unwrap_or(&0)`, and the components behind it.
abbrev first_or_zero : List ℕ → ℕ
first_or_zero [] = 0
first_or_zero (c ∷ cs) = c

abbrev behind_first : List ℕ → List ℕ
behind_first [] = []
behind_first (c ∷ cs) = cs

-- `Ord::cmp`, over `n` places.
unfoldable pub cmp_places : ℕ → List ℕ → List ℕ → Ordering
cmp_places zero left right = Ordering.eq
cmp_places (suc n) left right =
    let rest = cmp_places n (behind_first left) (behind_first right) in
    elim (compare (first_or_zero left) (first_or_zero right)) [
      | Ordering.eq ↦ rest
      | Ordering.lt ↦ Ordering.lt
      | Ordering.gt ↦ Ordering.gt
    ]

unfoldable pub cmp : ProtocolVersion → ProtocolVersion → Ordering
unfolding cmp_places
cmp self other =
    cmp_places (max (length self.components) (length other.components)) self.components
      other.components

-- `self <= other`
unfoldable pub version_le : ProtocolVersion → ProtocolVersion → Bool
unfolding cmp
version_le self other = elim (cmp self other) [
  | Ordering.gt ↦ false
  | Ordering.eq ↦ true
  | Ordering.lt ↦ true
]

-- `std::cmp::max(a, b)` and `std::cmp::min(a, b)`: of equal ones the second and the first.
unfoldable pub later : ProtocolVersion → ProtocolVersion → ProtocolVersion
unfolding version_le
later a b = if version_le a b then b else a

unfoldable pub earlier : ProtocolVersion → ProtocolVersion → ProtocolVersion
unfolding version_le
earlier a b = if version_le a b then a else b

abbrev least : Option ProtocolVersion → ProtocolVersion → ProtocolVersion
unfolding later
least none server_min = server_min
least (some v) server_min = later v server_min

abbrev greatest : Option ProtocolVersion → ProtocolVersion → ProtocolVersion
unfolding earlier
greatest none server_max = server_max
greatest (some v) server_max = earlier v server_max

unfoldable pub negotiate :
    Option ProtocolVersion
    → Option ProtocolVersion
    → ProtocolVersion
    → ProtocolVersion
    → Option ProtocolVersion
unfolding least greatest version_le
negotiate client_min client_max server_min server_max =
    if version_le (least client_min server_min) (greatest client_max server_max)
    then some (greatest client_max server_max)
    else none

unfoldable pub supports_1_6 : ProtocolVersion → Bool
unfolding version_le v1_6
supports_1_6 self = version_le v1_6 self

-- `components.pop()` while there are more than two and the last is zero: of the components behind
-- the first two, a zero with nothing but zeros behind it goes.
abbrev onto : ℕ → List ℕ → List ℕ
onto c [] = if c == 0 then [] else c ∷ []
onto c (d ∷ ds) = c ∷ d ∷ ds

unfoldable pub strip_zeros : List ℕ → List ℕ
strip_zeros [] = []
strip_zeros (c ∷ cs) = onto c (strip_zeros cs)

-- `part.parse::<u32>()` of a part that is not empty.
unfoldable pub parse_component : List ℕ → Option ℕ
unfolding parse_usize
parse_component part = if is_empty part then none else (elim (parse_usize part) [
  | none ↦ none
  | some n ↦ if ltb n (2 ^ 32) then some n else none
])

unfoldable pub parse_components : List (List ℕ) → Option (List ℕ)
unfolding parse_component
parse_components [] = some []
parse_components (part ∷ parts) = elim (parse_component part) [
  | none ↦ none
  | some c ↦ elim (parse_components parts) [ none ↦ none | some cs ↦ some (c ∷ cs) ]
]

abbrev normal_version : List ℕ → Option ProtocolVersion
normal_version (major ∷ minor ∷ rest) =
    some (record { components = major ∷ minor ∷ strip_zeros rest })
normal_version (major ∷ []) = none
normal_version [] = none

-- `ProtocolVersion::from_str`; what it returns as an error is a text.
unfoldable pub from_str : List ℕ → Option ProtocolVersion
unfolding split parse_components strip_zeros
from_str s = elim (parse_components (split b'.' s)) [
  | none ↦ none
  | some components ↦ normal_version components
]

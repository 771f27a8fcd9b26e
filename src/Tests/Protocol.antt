-- ===== src/Tests/Protocol.antt =====
-- Protocol versions at concrete inputs.
use Prim.Native.Nat.{Ordering}
use bindex_rs.Common.{◌≡◌, refl, ◌↔◌, true, none, some, [], ◌∷◌}
use bindex_rs.Electrum.Protocol.{ProtocolVersion, version_le, cmp, negotiate, from_str}
use bindex_rs.Electrum.Protocol.Negotiated.{Spoken, negotiate_lem}
use bindex_rs.Electrum.Protocol.Normal.{cmp_parsed}

abbrev version : ProtocolVersion
version = record { components = 1 ∷ 4 ∷ 2 ∷ [] }

abbrev six : ProtocolVersion
six = record { components = 1 ∷ 6 ∷ [] }

negotiate_lem_example :
    ((v : ProtocolVersion)
      → negotiate (some version) none version six ≡ some v
      → Spoken (some version) none version six v
        × ((w : ProtocolVersion)
            → Spoken (some version) none version six w
            → version_le w v ≡ true))
    × (negotiate (some version) none version six ≡ none
        → (w : ProtocolVersion) → Spoken (some version) none version six w
        → ⊥)
negotiate_lem_example = negotiate_lem (some version) none version six

-- `1.6.0` and `1.6`
long_six : from_str (49 ∷ 46 ∷ 54 ∷ 46 ∷ 48 ∷ []) ≡ some six
unfolding from_str
long_six = refl

short_six : from_str (49 ∷ 46 ∷ 54 ∷ []) ≡ some six
unfolding from_str
short_six = refl

cmp_parsed_example : (cmp six six ≡ Ordering.eq) ↔ (six ≡ six)
cmp_parsed_example =
    cmp_parsed (49 ∷ 46 ∷ 54 ∷ 46 ∷ 48 ∷ []) (49 ∷ 46 ∷ 54 ∷ []) six six long_six short_six

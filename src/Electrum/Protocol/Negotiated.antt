-- ===== src/Electrum/Protocol/Negotiated.antt =====
-- What `ProtocolVersion::negotiate` of bindex-electrum/src/protocol.rs settles on.
use bindex_rs.Common.{
  ◌≡◌, sym, ◌∙◌, subst, ◌≢◌, ◌↔◌, inl, inr, true, false, Option, none, some, some_inj, Bool-cases,
  if_true, if_false,
}
use bindex_rs.Electrum.Protocol.{
  ProtocolVersion, version_le, later, earlier, least, greatest, negotiate,
}
use bindex_rs.Electrum.Protocol.Order.{version_le_refl, version_le_total, version_le_trans}

later-bounds :
    (a b : ProtocolVersion) → (version_le a (later a b) ≡ true) × (version_le b (later a b) ≡ true)
unfolding later
later-bounds a b = elim (Bool-cases (version_le a b)) [
  | inl t ↦ rw t (t, version_le_refl b)
  | inr f ↦ rw f (version_le_refl a, version_le_total a b f)
]

later-least :
    (a b w : ProtocolVersion)
    → version_le a w ≡ true
    → version_le b w ≡ true
    → version_le (later a b) w ≡ true
unfolding later
later-least a b w h k = elim (Bool-cases (version_le a b)) [ inl t ↦ rw t k | inr f ↦ rw f h ]

earlier-bounds :
    (a b : ProtocolVersion)
    → (version_le (earlier a b) a ≡ true) × (version_le (earlier a b) b ≡ true)
unfolding earlier
earlier-bounds a b = elim (Bool-cases (version_le a b)) [
  | inl t ↦ rw t (version_le_refl a, t)
  | inr f ↦ rw f (version_le_total a b f, version_le_refl b)
]

earlier-greatest :
    (a b w : ProtocolVersion)
    → version_le w a ≡ true
    → version_le w b ≡ true
    → version_le w (earlier a b) ≡ true
unfolding earlier
earlier-greatest a b w h k = elim (Bool-cases (version_le a b)) [ inl t ↦ rw t h | inr f ↦ rw f k ]

-- What a bound that may be left out says.
abbrev pub AtLeast : Option ProtocolVersion → ProtocolVersion → Type 0
AtLeast none w = Unit
AtLeast (some v) w = version_le v w ≡ true

abbrev pub AtMost : Option ProtocolVersion → ProtocolVersion → Type 0
AtMost none w = Unit
AtMost (some v) w = version_le w v ≡ true

-- The client and the server both speak a version.
abbrev pub Spoken :
    Option ProtocolVersion
    → Option ProtocolVersion
    → ProtocolVersion
    → ProtocolVersion
    → ProtocolVersion
    → Type 0
Spoken client_min client_max server_min server_max w =
    AtLeast client_min w
    × AtMost client_max w
    × (version_le server_min w ≡ true)
    × (version_le w server_max ≡ true)

least-bounds :
    (o : Option ProtocolVersion) (server w : ProtocolVersion)
    → (version_le (least o server) w ≡ true) ↔ (AtLeast o w × (version_le server w ≡ true))
unfolding least
least-bounds none server w = (λ h. (tt, h), λ h. h.1)
least-bounds (some v) server w =
    let (a, b) = later-bounds v server in
    (
      λ h. (
        version_le_trans v (later v server) w a h,
        version_le_trans server (later v server) w b h,
      ),
      λ h. later-least v server w h.0 h.1,
    )

greatest-bounds :
    (o : Option ProtocolVersion) (server w : ProtocolVersion)
    → (version_le w (greatest o server) ≡ true) ↔ (AtMost o w × (version_le w server ≡ true))
unfolding greatest
greatest-bounds none server w = (λ h. (tt, h), λ h. h.1)
greatest-bounds (some v) server w =
    let (a, b) = earlier-bounds v server in
    (
      λ h. (
        version_le_trans w (earlier v server) v h a,
        version_le_trans w (earlier v server) server h b,
      ),
      λ h. earlier-greatest v server w h.0 h.1,
    )

-- A version that is settled on is spoken by both sides, within the bounds that the client gives, and
-- no later one is; when none is settled on, there is none that both speak.
pub negotiate_lem :
    (client_min client_max : Option ProtocolVersion) (server_min server_max : ProtocolVersion)
    → ((v : ProtocolVersion)
        → negotiate client_min client_max server_min server_max ≡ some v
        → Spoken client_min client_max server_min server_max v
          × ((w : ProtocolVersion)
              → Spoken client_min client_max server_min server_max w
              → version_le w v ≡ true))
      × (negotiate client_min client_max server_min server_max ≡ none
          → (w : ProtocolVersion) → Spoken client_min client_max server_min server_max w
          → ⊥)
unfolding negotiate
negotiate_lem client_min client_max server_min server_max =
    let low = least client_min server_min in
    let high = greatest client_max server_max in
    elim (Bool-cases (version_le low high)) [
      | inl t ↦ (
        λ v e.
            let same : high ≡ v = some_inj (if_true (version_le low high) (some high) none t e) in
            let (a, b) = (least-bounds client_min server_min high).0 t in
            let (c, d) = (greatest-bounds client_max server_max high).0 (version_le_refl high) in
            subst
              (λ x.
                Spoken client_min client_max server_min server_max x
                × ((w : ProtocolVersion)
                    → Spoken client_min client_max server_min server_max w
                    → version_le w x ≡ true))
              same
              ((a, c, b, d), λ w (p, q, r, s). (greatest-bounds client_max server_max w).1 (q, s)),
        λ e. let bad = if_true (version_le low high) (some high) none t e in cc,
      )
      | inr f ↦ (
        λ v e. let bad = if_false (version_le low high) (some high) none f e in cc,
        λ e w (p, q, r, s).
            let x = (least-bounds client_min server_min w).1 (p, r) in
            let y = (greatest-bounds client_max server_max w).1 (q, s) in
            true_ne (sym (version_le_trans low w high x y) ∙ f),
      )
    ]
  where
    true_ne : true ≢ false
    true_ne e = cc

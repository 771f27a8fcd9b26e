-- ===== src/Electrum/Session/Notified.antt =====
-- What `notifications` of bindex-electrum/src/server.rs leaves in a session.
use bindex_rs.Common.{
  ℕ, ◌≡◌, refl, sym, ap, ◌∙◌, ◌≢◌, inl, inr, Bool, true, false, not, Option, none, some, List, [],
  ◌∷◌, ◌==◌, ==_iff, ==_refl, Bool-cases,
}
use bindex_rs.Common.Bytes.{bytes_eq, bytes_eq_refl, bytes_eq_iff}
use mathlib.Core.Path.{ap₂}
use bindex_rs.Electrum.Fold.{ScriptHistory}
use bindex_rs.Electrum.Maps.{lookup}
use bindex_rs.Electrum.Mempool.{Txid, ScriptHash}
use bindex_rs.Electrum.Status.Written.{IsStatus, script_status-IsStatus}
use bindex_rs.Electrum.Session.{
  HeaderNotification, ScriptState, Session, Changes, Reads, tip_eq, status_eq, refreshed,
  send_status, notify_refreshed, notify_script, notify_scripts, notifications, status_now,
}

pub status_eq_sound : (a b : Option (List ℕ)) → status_eq a b ≡ true → a ≡ b
unfolding status_eq
status_eq_sound none none t = refl
status_eq_sound none (some b) t = cc
status_eq_sound (some a) none t = cc
status_eq_sound (some a) (some b) t = ap some ((bytes_eq_iff a b).0 t)

abbrev header_at : ℕ → List ℕ → HeaderNotification
header_at height hex = record { height = height; hex = hex }

not-not : (b : Bool) → not (not b) ≡ b
not-not true = refl
not-not false = refl

tip_eq_refl : (a : Option HeaderNotification) → tip_eq a a ≡ true
unfolding tip_eq
tip_eq_refl none = refl
tip_eq_refl (some a) = rw (==_refl a.height, bytes_eq_refl a.hex) refl

tip_eq_sound : (a b : Option HeaderNotification) → tip_eq a b ≡ true → a ≡ b
unfolding tip_eq
tip_eq_sound none none t = refl
tip_eq_sound none (some b) t = cc
tip_eq_sound (some a) none t = cc
tip_eq_sound (some a) (some b) t = elim (Bool-cases (a.height == b.height)) [
  | inr f ↦ let bad : false ≡ true = sym (rw f refl) ∙ t in cc
  | inl h ↦
      let hex : bytes_eq a.hex b.hex ≡ true = sym (rw h refl) ∙ t in
      ap₂ (λ x y. some (header_at x y)) ((==_iff a.height b.height).0 h)
        ((bytes_eq_iff a.hex b.hex).0 hex)
]

tip_eq_same : (a b : Option HeaderNotification) → a ≡ b → tip_eq a b ≡ true
tip_eq_same a b e = ap (tip_eq a) (sym e) ∙ tip_eq_refl a

tip_eq_other : (a b : Option HeaderNotification) → a ≢ b → tip_eq a b ≡ false
tip_eq_other a b ne = elim (Bool-cases (tip_eq a b)) [
  | inl t ↦ absurd (ne (tip_eq_sound a b t))
  | inr f ↦ f
]

abbrev pub state_of : ScriptHistory → Option (List ℕ) → ScriptState
state_of confirmed status = record { confirmed = confirmed; status = status }

send_status_lem :
    (s : ScriptHash) (confirmed : ScriptHistory) (status : Option (List ℕ)) (state : ScriptState)
    → (send_status s confirmed status state).0 ≡ state_of confirmed status
unfolding send_status
send_status_lem s confirmed status state = elim (Bool-cases (status_eq status state.status)) [
  | inl t ↦ rw t (ap (λ x. state_of confirmed x) (sym (status_eq_sound status state.status t)))
  | inr f ↦ rw f refl
]

module _ (to_string : Txid → List ℕ) (sha256 : List ℕ → List ℕ) (reads : Reads) where
  abbrev pub state_after : Bool → ScriptHash → Option ScriptState → Option ScriptState
  state_after changed s none = none
  state_after changed s (some state) = some (notify_script to_string sha256 reads changed s state).0

  pub lookup-notify_scripts :
      (changed : Bool) (s : ScriptHash) (m : List (ScriptHash × ScriptState))
      → lookup bytes_eq s (notify_scripts to_string sha256 reads changed m).0
        ≡ state_after changed s (lookup bytes_eq s m)
  unfolding notify_scripts lookup
  lookup-notify_scripts changed s [] = refl
  lookup-notify_scripts changed s ((j, state) ∷ m) = elim (Bool-cases (bytes_eq j s)) [
    | inl t ↦ rw t (
        ap (λ x. some (notify_script to_string sha256 reads changed x state).0)
          ((bytes_eq_iff j s).0 t))
    | inr f ↦ rw f (lookup-notify_scripts changed s m)
  ]

  pub notify_script-some :
      (changed : Bool) (s : ScriptHash) (state : ScriptState) (confirmed : ScriptHistory)
      → refreshed reads changed s state ≡ some confirmed
      → (notify_script to_string sha256 reads changed s state).0
        ≡ state_of confirmed (status_now to_string sha256 reads s confirmed)
  unfolding notify_script notify_refreshed
  notify_script-some changed s state confirmed e =
      rw e (send_status_lem s confirmed (status_now to_string sha256 reads s confirmed) state)

  pub notify_script-none :
      (changed : Bool) (s : ScriptHash) (state : ScriptState)
      → refreshed reads changed s state ≡ none
      → notify_script to_string sha256 reads changed s state ≡ (state, [])
  unfolding notify_script notify_refreshed
  notify_script-none changed s state e = rw e refl

  status_now-IsStatus :
      (s : ScriptHash) (confirmed : ScriptHistory)
      → IsStatus to_string sha256
          (reads.mempool s)
          s
          confirmed
          (status_now to_string sha256 reads s confirmed)
  unfolding status_now
  status_now-IsStatus s confirmed =
      script_status-IsStatus to_string sha256 (reads.mempool s) s confirmed

  -- The state of a script has this history, and the status that it and the mempool give.
  abbrev pub IsCurrent : ScriptHash → ScriptHistory → Option ScriptState → Type 0
  IsCurrent s confirmed now =
      (state : ScriptState) × (now ≡ some state)
      × (state.confirmed ≡ confirmed)
      × IsStatus to_string sha256 (reads.mempool s) s confirmed state.status

  notified_lem :
      (session : Session) (changes : Changes) (s : ScriptHash) (state : ScriptState) (moved : Bool)
      (confirmed : ScriptHistory)
      → tip_eq changes.tip session.checked_tip ≡ not moved
      → lookup bytes_eq s session.scripthashes ≡ some state
      → refreshed reads moved s state ≡ some confirmed
      → IsCurrent s confirmed
          (lookup bytes_eq s (notifications to_string sha256 reads session changes).0.scripthashes)
  unfolding notifications
  notified_lem session changes s state moved confirmed t e f = (
    state_of confirmed (status_now to_string sha256 reads s confirmed),
    rw t (
        lookup-notify_scripts (not (not moved)) s session.scripthashes
        ∙ ap (state_after (not (not moved)) s) e
        ∙ ap some (
            ap (λ b. (notify_script to_string sha256 reads b s state).0) (not-not moved)
            ∙ notify_script-some moved s state confirmed f)),
    refl,
    status_now-IsStatus s confirmed,
  )

  -- After a change every subscribed script is still subscribed. If the tip is the one that the
  -- session was last checked at, the script has the history that it had; if not, the one that is
  -- read now; and its status is none if neither that history nor the mempool has a transaction of
  -- the script, else the hash of the text that lists each with its height. A script whose
  -- history could not be read is left as it was. The tip is taken for checked in every case.
  pub notifications_lem :
      (session : Session) (changes : Changes) (s : ScriptHash) (state : ScriptState)
      → lookup bytes_eq s session.scripthashes ≡ some state
      → let next = (notifications to_string sha256 reads session changes).0 in
        let now = lookup bytes_eq s next.scripthashes in
        (changes.tip ≡ session.checked_tip → IsCurrent s state.confirmed now)
        × ((confirmed : ScriptHistory)
            → changes.tip ≢ session.checked_tip
            → reads.confirmed s ≡ some confirmed
            → IsCurrent s confirmed now)
        × (changes.tip ≢ session.checked_tip → reads.confirmed s ≡ none → now ≡ some state)
        × (next.checked_tip ≡ changes.tip)
  unfolding notifications refreshed
  notifications_lem session changes s state e = (
    λ same.
        notified_lem session changes s state false state.confirmed
          (tip_eq_same changes.tip session.checked_tip same) e refl,
    λ confirmed moved f.
        notified_lem session changes s state true confirmed
          (tip_eq_other changes.tip session.checked_tip moved) e f,
    λ moved f. rw (tip_eq_other changes.tip session.checked_tip moved) (
        lookup-notify_scripts true s session.scripthashes
        ∙ ap (state_after true s) e
        ∙ ap (λ x. some x.0) (notify_script-none true s state f)),
    refl,
  )

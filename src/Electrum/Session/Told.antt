-- ===== src/Electrum/Session/Told.antt =====
-- What `notifications` tells a client keeps it in agreement with its session.
use bindex_rs.Common.{
  ℕ, ◌≡◌, refl, sym, ap, ◌∙◌, ◌⊎◌, inl, inr, not, ◌&&◌, Option, none, some, List, Bool-cases,
  Option-cases,
}
use bindex_rs.Common.Bytes.{bytes_eq}
use bindex_rs.Electrum.Maps.{lookup}
use bindex_rs.Electrum.Mempool.{Txid, ScriptHash}
use bindex_rs.Electrum.Session.{
  HeaderNotification, ScriptState, Session, Changes, Config, Reads, tip_eq, notify_header,
  notify_scripts, notifications,
}
use bindex_rs.Electrum.Session.Notified.{lookup-notify_scripts, state_after}
use bindex_rs.Electrum.Session.Client.{Client, hear, hear_all, status_of, Agrees}
use bindex_rs.Electrum.Session.Heard.{
  hear_all-append, heard_header, heard_others, heard_own, notify_scripts-Distinct,
  length-notify_scripts,
}

header_statuses :
    (session : Session) (tip : Option HeaderNotification) (c : Client)
    → (hear_all c (notify_header session tip).1).statuses ≡ c.statuses
unfolding notify_header hear_all hear
header_statuses session none c = refl
header_statuses session (some tip) c =
    elim (Bool-cases (session.header_subscribed && not (tip_eq (some tip) session.last_header))) [
      | inl t ↦ rw t refl
      | inr f ↦ rw f refl
    ]

header_header :
    (session : Session) (tip : Option HeaderNotification) (c : Client)
    → c.header ≡ session.last_header
    → (hear_all c (notify_header session tip).1).header ≡ (notify_header session tip).0.last_header
unfolding notify_header hear_all hear
header_header session none c e = e
header_header session (some tip) c e =
    elim (Bool-cases (session.header_subscribed && not (tip_eq (some tip) session.last_header))) [
      | inl t ↦ rw t refl
      | inr f ↦ rw f e
    ]

module _ (to_string : Txid → List ℕ) (sha256 : List ℕ → List ℕ) (config : Config) where
  pub notified-Agrees :
      (session : Session) (c : Client) (reads : Reads) (changes : Changes)
      → Agrees config session c
      → Agrees config
          (notifications to_string sha256 reads session changes).0
          (hear_all c (notifications to_string sha256 reads session changes).1)
  unfolding notifications
  notified-Agrees session c reads changes a =
      let moved = not (tip_eq changes.tip session.checked_tip) in
      let m = session.scripthashes in
      let headed = (notify_header session changes.tip).1 in
      let split = hear_all-append c headed (notify_scripts to_string sha256 reads moved m).1 in
      record {
        distinct = notify_scripts-Distinct to_string sha256 reads moved m a.distinct;
        limited = rw (length-notify_scripts to_string sha256 reads moved m) a.limited;
        statuses = λ s.
            ap (λ x. lookup bytes_eq s x.statuses) split
            ∙ told s (Option-cases (lookup bytes_eq s m));
        header =
            ap (λ x. x.header) split
            ∙ heard_header to_string sha256 reads moved m (hear_all c headed)
            ∙ header_header session changes.tip c a.header;
      }
    where
      next : ScriptHash → Option ScriptState → Option ScriptState
      next s o =
          state_after to_string sha256 reads (not (tip_eq changes.tip session.checked_tip)) s o

      after :
          (s : ScriptHash)
          → lookup bytes_eq s
              (notify_scripts to_string sha256 reads
                (not (tip_eq changes.tip session.checked_tip))
                session.scripthashes).0
            ≡ state_after to_string sha256 reads
                (not (tip_eq changes.tip session.checked_tip))
                s
                (lookup bytes_eq s session.scripthashes)
      after s =
          lookup-notify_scripts to_string sha256 reads
            (not (tip_eq changes.tip session.checked_tip)) s session.scripthashes

      told :
          (s : ScriptHash)
          → ((lookup bytes_eq s session.scripthashes ≡ none)
              ⊎ ((state : ScriptState) × (lookup bytes_eq s session.scripthashes ≡ some state)))
          → lookup bytes_eq s
              (hear_all
                (hear_all c (notify_header session changes.tip).1)
                (notify_scripts to_string sha256 reads
                  (not (tip_eq changes.tip session.checked_tip))
                  session.scripthashes).1).statuses
            ≡ status_of (
                lookup bytes_eq s
                  (notify_scripts to_string sha256 reads
                    (not (tip_eq changes.tip session.checked_tip))
                    session.scripthashes).0)
      told s (inl e) =
          heard_others to_string sha256 reads (not (tip_eq changes.tip session.checked_tip)) s
            session.scripthashes _ e
          ∙ ap (lookup bytes_eq s) (header_statuses session changes.tip c)
          ∙ a.statuses s
          ∙ ap status_of e
          ∙ sym (ap status_of (after s ∙ ap (next s) e))
      told s (inr (state, e)) =
          heard_own to_string sha256 reads (not (tip_eq changes.tip session.checked_tip)) s
            session.scripthashes _ state a.distinct e
            (ap (lookup bytes_eq s) (header_statuses session changes.tip c)
              ∙ a.statuses s
              ∙ ap status_of e)
          ∙ sym (ap status_of (after s ∙ ap (next s) e))

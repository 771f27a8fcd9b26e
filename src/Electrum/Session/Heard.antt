-- ===== src/Electrum/Session/Heard.antt =====
-- What the messages of `notifications` tell a client.
use bindex_rs.Common.{
  ℕ, suc, ◌≡◌, refl, sym, ap, ◌∙◌, subst, inl, inr, Bool, false, Option, none, some, List, [], ◌∷◌,
  ◌++◌, some_inj, Bool-cases, if_true, if_false, Option-cases,
}
use bindex_rs.Common.{length}
use bindex_rs.Common.Bytes.{bytes_eq, bytes_eq_refl, bytes_eq_iff}
use bindex_rs.Electrum.Fold.{ScriptHistory}
use bindex_rs.Electrum.Maps.{bytes_eq-IsEquality, lookup, lookup-set, Distinct}
use bindex_rs.Electrum.Mempool.{Txid, ScriptHash}
use bindex_rs.Electrum.Session.{
  ScriptState, Reads, Notification, scripthash_notification, status_eq, refreshed, send_status,
  notify_refreshed, notify_script, notify_scripts, status_now,
}
use bindex_rs.Electrum.Session.Notified.{lookup-notify_scripts}
use bindex_rs.Electrum.Session.Client.{Client, hear, hear_all}

pub hear_all-append :
    (client : Client) (xs ys : List Notification)
    → hear_all client (xs ++ ys) ≡ hear_all (hear_all client xs) ys
unfolding hear_all
hear_all-append client [] ys = refl
hear_all-append client (x ∷ xs) ys = hear_all-append (hear client x) xs ys

-- The messages of one script, sent on the session's status of it.
record IsHeard (s : ScriptHash) (state : ScriptState) (client : Client)
    (result : ScriptState × List Notification) : Type 0 where
  others :
      (j : ScriptHash)
      → bytes_eq s j ≡ false
      → lookup bytes_eq j (hear_all client result.1).statuses ≡ lookup bytes_eq j client.statuses
  own :
      lookup bytes_eq s client.statuses ≡ some state.status
      → lookup bytes_eq s (hear_all client result.1).statuses ≡ some result.0.status
  header : (hear_all client result.1).header ≡ client.header

silent-IsHeard :
    (s : ScriptHash) (state : ScriptState) (client : Client) (next : ScriptState)
    → next.status ≡ state.status
    → IsHeard s state client (next, [])
unfolding hear_all
silent-IsHeard s state client next e = record {
  others = λ j f. refl;
  own = λ h. h ∙ ap some (sym e);
  header = refl;
}

send_status-IsHeard :
    (s : ScriptHash) (confirmed : ScriptHistory) (status : Option (List ℕ)) (state : ScriptState)
    (client : Client)
    → IsHeard s state client (send_status s confirmed status state)
unfolding send_status
send_status-IsHeard s confirmed status state client =
    elim (Bool-cases (status_eq status state.status)) [
      | inl t ↦ rw t (silent-IsHeard s state client _ refl)
      | inr f ↦ rw f (told)
    ]
  where
    told :
        IsHeard s state client
          (record { confirmed = confirmed; status = status }, scripthash_notification s status ∷ [])
    told =
        unfold hear_all in
        unfold hear in
        record {
          others =
              λ j f. lookup-set bytes_eq bytes_eq-IsEquality j s status client.statuses ∙ rw f refl;
          own = λ h.
              lookup-set bytes_eq bytes_eq-IsEquality s s status client.statuses
              ∙ rw (bytes_eq_refl s) refl;
          header = refl;
        }

module _ (to_string : Txid → List ℕ) (sha256 : List ℕ → List ℕ) (reads : Reads) (moved : Bool) where
  notify_script-IsHeard :
      (s : ScriptHash) (state : ScriptState) (c : Client)
      → IsHeard s state c (notify_script to_string sha256 reads moved s state)
  unfolding notify_script notify_refreshed
  notify_script-IsHeard s state c = elim (Option-cases (refreshed reads moved s state)) [
    | inl e ↦ rw e (silent-IsHeard s state c state refl)
    | inr (confirmed, e) ↦
        rw e
          (send_status-IsHeard s confirmed (status_now to_string sha256 reads s confirmed) state c)
  ]

  hear_step :
      (s : ScriptHash) (state : ScriptState) (m : List (ScriptHash × ScriptState)) (c : Client)
      → hear_all c (notify_scripts to_string sha256 reads moved ((s, state) ∷ m)).1
        ≡ hear_all
            (hear_all c (notify_script to_string sha256 reads moved s state).1)
            (notify_scripts to_string sha256 reads moved m).1
  unfolding notify_scripts
  hear_step s state m c = hear_all-append c (notify_script to_string sha256 reads moved s state).1 _

  pub heard_header :
      (m : List (ScriptHash × ScriptState)) (c : Client)
      → (hear_all c (notify_scripts to_string sha256 reads moved m).1).header ≡ c.header
  unfolding notify_scripts hear_all
  heard_header [] c = refl
  heard_header ((s, state) ∷ m) c =
      ap (λ x. x.header) (hear_step s state m c)
      ∙ heard_header m _
      ∙ (notify_script-IsHeard s state c).header

  pub heard_others :
      (j : ScriptHash) (m : List (ScriptHash × ScriptState)) (c : Client)
      → lookup bytes_eq j m ≡ none
      → lookup bytes_eq j (hear_all c (notify_scripts to_string sha256 reads moved m).1).statuses
        ≡ lookup bytes_eq j c.statuses
  unfolding notify_scripts hear_all lookup
  heard_others j [] c e = refl
  heard_others j ((s, state) ∷ m) c e = elim (Bool-cases (bytes_eq s j)) [
    | inl t ↦ let clash : some state ≡ none = if_true (bytes_eq s j) (some state) _ t e in cc
    | inr f ↦
        ap (λ x. lookup bytes_eq j x.statuses) (hear_step s state m c)
        ∙ heard_others j m _ (if_false (bytes_eq s j) (some state) _ f e)
        ∙ (notify_script-IsHeard s state c).others j f
  ]

  pub heard_own :
      (j : ScriptHash) (m : List (ScriptHash × ScriptState)) (c : Client) (state : ScriptState)
      → Distinct bytes_eq m
      → lookup bytes_eq j m ≡ some state
      → lookup bytes_eq j c.statuses ≡ some state.status
      → lookup bytes_eq j (hear_all c (notify_scripts to_string sha256 reads moved m).1).statuses
        ≡ some (notify_script to_string sha256 reads moved j state).0.status
  unfolding lookup
  heard_own j [] c state d e h = cc
  heard_own j ((s, first) ∷ m) c state d e h = elim (Bool-cases (bytes_eq s j)) [
    | inl t ↦
        let same : first ≡ state = some_inj (if_true (bytes_eq s j) (some first) _ t e) in
        let key : s ≡ j = (bytes_eq_iff s j).0 t in
        let own : IsHeard j state c (notify_script to_string sha256 reads moved j state) =
          notify_script-IsHeard j state c in
        ap (λ x. lookup bytes_eq j x.statuses) (hear_step s first m c)
        ∙ heard_others j m _ (subst (λ x. lookup bytes_eq x m ≡ none) key d.0)
        ∙ rw (key, same) (own.own h)
    | inr f ↦
        ap (λ x. lookup bytes_eq j x.statuses) (hear_step s first m c)
        ∙ heard_own j m _ state d.1 (if_false (bytes_eq s j) (some first) _ f e)
            ((notify_script-IsHeard s first c).others j f ∙ h)
  ]

  pub notify_scripts-Distinct :
      (m : List (ScriptHash × ScriptState))
      → Distinct bytes_eq m
      → Distinct bytes_eq (notify_scripts to_string sha256 reads moved m).0
  unfolding notify_scripts
  notify_scripts-Distinct [] d = tt
  notify_scripts-Distinct ((s, state) ∷ m) d = (
    lookup-notify_scripts to_string sha256 reads moved s m ∙ rw (d.0) refl,
    notify_scripts-Distinct m d.1,
  )

  pub length-notify_scripts :
      (m : List (ScriptHash × ScriptState))
      → length (notify_scripts to_string sha256 reads moved m).0 ≡ length m
  unfolding notify_scripts
  length-notify_scripts [] = refl
  length-notify_scripts ((s, state) ∷ m) = ap suc (length-notify_scripts m)

-- ===== src/Electrum/Session/Agreed.antt =====
-- What a client was told agrees with its session.
use bindex_rs.Common.{
  ℕ, suc, ◌≤◌, ◌≡◌, refl, sym, ap, ◌∙◌, inl, inr, Bool, true, false, Option, none, some, List, [],
  arith, leb, if◌then◌else◌, Bool-cases, Option-cases,
}
use bindex_rs.Common.{length}
use bindex_rs.Common.Bytes.{bytes_eq}
use bindex_rs.Electrum.Fold.{ScriptHistory}
use bindex_rs.Electrum.Maps.{
  bytes_eq-IsEquality, lookup, set, unset, lookup-unset, lookup-set, Distinct-unset, Distinct-set,
  length-unset, length-unset-some,
}
use bindex_rs.Electrum.Protocol.{ProtocolVersion, negotiate}
use bindex_rs.Electrum.Mempool.{Txid, ScriptHash}
use bindex_rs.Electrum.Session.{
  HeaderNotification, ScriptState, Session, Changes, Config, Reads, Request, server_version,
  add_peer, headers_subscribe, scripthash_subscribe, scripthash_unsubscribe, removed_reply, connect,
  new_session, status_now, settle_version, subscribe_headers, subscribe_script, over_limit,
  is_subscribed, dispatch,
}
use bindex_rs.Electrum.Session.Notified.{state_of}
use bindex_rs.Electrum.Session.Client.{
  Client, hear_header, hear_status, hear_removed, hear_reply, Run, connected, answered, notified,
  status_of, Agrees,
}
use bindex_rs.Electrum.Session.Told.{notified-Agrees}

set_both :
    (j s : ScriptHash) (status : Option (List ℕ)) (m : List (ScriptHash × ScriptState))
    (known : List (ScriptHash × Option (List ℕ))) (state : ScriptState)
    → status ≡ state.status
    → lookup bytes_eq j known ≡ status_of (lookup bytes_eq j m)
    → lookup bytes_eq j (set bytes_eq s status known)
      ≡ status_of (lookup bytes_eq j (set bytes_eq s state m))
set_both j s status m known state e h =
    rw (lookup-set bytes_eq bytes_eq-IsEquality j s status known)
      (rw (lookup-set bytes_eq bytes_eq-IsEquality j s state m) (both (bytes_eq s j)))
  where
    both :
        (b : Bool)
        → (if b then some status else lookup bytes_eq j known)
          ≡ status_of (if b then some state else lookup bytes_eq j m)
    both true = ap some e
    both false = h

unset_both :
    (j s : ScriptHash) (m : List (ScriptHash × ScriptState))
    (known : List (ScriptHash × Option (List ℕ)))
    → lookup bytes_eq j known ≡ status_of (lookup bytes_eq j m)
    → lookup bytes_eq j (unset bytes_eq s known)
      ≡ status_of (lookup bytes_eq j (unset bytes_eq s m))
unset_both j s m known h =
    rw (lookup-unset bytes_eq bytes_eq-IsEquality j s known)
      (rw (lookup-unset bytes_eq bytes_eq-IsEquality j s m) (both (bytes_eq s j)))
  where
    both :
        (b : Bool)
        → (if b then none else lookup bytes_eq j known)
          ≡ status_of (if b then none else lookup bytes_eq j m)
    both true = refl
    both false = h

module _ (to_string : Txid → List ℕ) (sha256 : List ℕ → List ℕ) (config : Config) where
  room_left :
      (session : Session) (s : ScriptHash)
      → over_limit config session s ≡ false
      → length session.scripthashes ≤ config.max_subscriptions_per_session
      → suc (length (unset bytes_eq s session.scripthashes)) ≤ config.max_subscriptions_per_session
  unfolding over_limit
  room_left session s room bound = elim (Option-cases (lookup bytes_eq s session.scripthashes)) [
    | inl e ↦
        let free : leb config.max_subscriptions_per_session (length session.scripthashes) ≡ false =
          sym (rw (e, over_limit) refl) ∙ room in
        let shrunk = length-unset bytes_eq bytes_eq-IsEquality s session.scripthashes in
        ground (arith, free, shrunk)
    | inr (state, e) ↦
        let shrunk =
          length-unset-some bytes_eq bytes_eq-IsEquality s session.scripthashes state e in
        omega (arith, shrunk, bound)
  ]

  connected-Agrees :
      (changes : Changes)
      → Agrees config (connect config changes) (record { statuses = []; header = none })
  unfolding connect new_session lookup
  connected-Agrees changes = record {
    distinct = tt;
    limited = omega arith;
    statuses = λ s. refl;
    header = refl;
  }

  subscribed-Agrees :
      (session : Session) (c : Client) (reads : Reads) (s : ScriptHash)
      (confirmed : Option ScriptHistory)
      → over_limit config session s ≡ false
      → Agrees config session c
      → Agrees config
          (subscribe_script to_string sha256 reads session s confirmed).0
          (hear_status c s (subscribe_script to_string sha256 reads session s confirmed).1)
  unfolding subscribe_script hear_status
  subscribed-Agrees session c reads s none room a = a
  subscribed-Agrees session c reads s (some confirmed) room a = record {
    distinct =
        Distinct-set bytes_eq bytes_eq-IsEquality s
          (state_of confirmed (status_now to_string sha256 reads s confirmed)) session.scripthashes
          a.distinct;
    limited = room_left session s room a.limited;
    statuses = λ j.
        set_both j s _ session.scripthashes c.statuses
          (state_of confirmed (status_now to_string sha256 reads s confirmed)) refl (a.statuses j);
    header = a.header;
  }

  unsubscribed-Agrees :
      (session : Session) (c : Client) (s : ScriptHash) (removed : Bool)
      → Agrees config session c
      → Agrees config
          (record session { scripthashes = unset bytes_eq s session.scripthashes })
          (hear_removed c s (removed_reply removed))
  unfolding hear_removed
  unsubscribed-Agrees session c s removed a = record {
    distinct = Distinct-unset bytes_eq bytes_eq-IsEquality s session.scripthashes a.distinct;
    limited =
        omega (arith, length-unset bytes_eq bytes_eq-IsEquality s session.scripthashes, a.limited);
    statuses = λ j. unset_both j s session.scripthashes c.statuses (a.statuses j);
    header = a.header;
  }

  headers-Agrees :
      (session : Session) (c : Client) (tip : Option (Option HeaderNotification))
      → Agrees config session c
      → Agrees config
          (subscribe_headers session tip).0
          (hear_header c (subscribe_headers session tip).1)
  unfolding subscribe_headers hear_header
  headers-Agrees session c none a = a
  headers-Agrees session c (some none) a = a
  headers-Agrees session c (some (some tip)) a = record {
    distinct = a.distinct;
    limited = a.limited;
    statuses = a.statuses;
    header = refl;
  }

  settled-Agrees :
      (session : Session) (c : Client) (version : Option ProtocolVersion)
      → Agrees config session c
      → Agrees config (settle_version session version).0 c
  unfolding settle_version
  settled-Agrees session c none a = a
  settled-Agrees session c (some version) a = record {
    distinct = a.distinct;
    limited = a.limited;
    statuses = a.statuses;
    header = a.header;
  }

  dispatch-Agrees :
      (session : Session) (c : Client) (reads : Reads) (request : Request)
      → Agrees config session c
      → Agrees config
          (dispatch to_string sha256 config reads session request).0
          (hear_reply c request (dispatch to_string sha256 config reads session request).1)
  unfolding dispatch hear_reply
  dispatch-Agrees session c reads (server_version low high) a =
      settled-Agrees session c (negotiate low high config.protocol_min config.protocol_max) a
  dispatch-Agrees session c reads (add_peer peer) a = record {
    distinct = a.distinct;
    limited = a.limited;
    statuses = a.statuses;
    header = a.header;
  }
  dispatch-Agrees session c reads headers_subscribe a = headers-Agrees session c reads.tip a
  dispatch-Agrees session c reads (scripthash_subscribe s) a =
      elim (Bool-cases (over_limit config session s)) [
        | inl t ↦ rw t a
        | inr f ↦ rw f (subscribed-Agrees session c reads s (reads.confirmed s) f a)
      ]
  dispatch-Agrees session c reads (scripthash_unsubscribe s) a =
      unsubscribed-Agrees session c s (is_subscribed s session) a

  -- Whatever requests that carry an id a session answers and whatever changes it is told of, with
  -- any outcome of the reads, the client knows: the last status that it was told of each script,
  -- by a reply or a notification and not unsubscribed since, is the one that the session has, it
  -- was told one of exactly the subscribed scripts, and the last tip it was told is the session's;
  -- and the subscriptions are of distinct scripts and within the limit.
  pub Run-Agrees :
      (session : Session) (c : Client)
      → Run to_string sha256 config session c
      → Agrees config session c
  Run-Agrees session c (connected changes) = connected-Agrees changes
  Run-Agrees session c (answered run reads request) =
      dispatch-Agrees _ _ reads request (Run-Agrees _ _ run)
  Run-Agrees session c (notified run reads changes) =
      notified-Agrees to_string sha256 config _ _ reads changes (Run-Agrees _ _ run)

-- ===== src/Electrum/Session.antt =====
-- One client's connection: bindex-electrum/src/session.rs, and what `handle_stream`, `dispatch`,
-- `server_version`, `scripthash_subscribe` and `notifications` of bindex-electrum/src/server.rs do
-- to it.
use bindex_rs.Common.{
  ℕ, Bool, true, false, not, ◌&&◌, Option, none, some, List, [], ◌∷◌, ◌++◌, leb, ◌==◌,
  if◌then◌else◌,
}
use bindex_rs.Common.{length}
use bindex_rs.Common.Bytes.{bytes_eq}
use bindex_rs.Electrum.Fold.{ScriptHistory}
use bindex_rs.Electrum.Maps.{has, lookup, set, unset}
use bindex_rs.Electrum.Mempool.{Txid, ScriptHash, MempoolIndex}
use bindex_rs.Electrum.Protocol.{ProtocolVersion, negotiate}
use bindex_rs.Electrum.Status.{script_status}
pub mod Notified
pub mod Client
pub mod Heard
pub mod Told
pub mod Agreed

pub record HeaderNotification : Type 0 where
  pub height : ℕ
  pub hex : List ℕ

pub record ScriptState : Type 0 where
  pub confirmed : ScriptHistory
  pub status : Option (List ℕ)

pub record Session : Type 0 where
  pub negotiated_protocol : ProtocolVersion
  pub header_subscribed : Bool
  pub last_header : Option HeaderNotification
  pub checked_tip : Option HeaderNotification
  pub scripthashes : List (ScriptHash × ScriptState)
  pub peers_seen : List (List ℕ)

unfoldable pub new_session : ProtocolVersion → Session
new_session protocol = record {
  negotiated_protocol = protocol;
  header_subscribed = false;
  last_header = none;
  checked_tip = none;
  scripthashes = [];
  peers_seen = [];
}

pub record Changes : Type 0 where
  pub tip : Option HeaderNotification
  pub mempool : ℕ

pub record Config : Type 0 where
  pub protocol_min : ProtocolVersion
  pub protocol_max : ProtocolVersion
  pub max_subscriptions_per_session : ℕ

-- What the reads of the chain and of the mempool answer while one request or change is handled,
-- which is any answer: `none` where they fail. The mempool may be another one for each script.
pub record Reads : Type 0 where
  pub tip : Option (Option HeaderNotification)
  pub confirmed : ScriptHash → Option ScriptHistory
  pub mempool : ScriptHash → MempoolIndex

-- The text that `notification` builds of these.
pub data Notification : Type 0 where
  headers_notification : HeaderNotification → Notification
  scripthash_notification : ScriptHash → Option (List ℕ) → Notification

-- `==` on tips and on statuses.
unfoldable pub tip_eq : Option HeaderNotification → Option HeaderNotification → Bool
tip_eq none none = true
tip_eq none (some b) = false
tip_eq (some a) none = false
tip_eq (some a) (some b) = a.height == b.height && bytes_eq a.hex b.hex

unfoldable pub status_eq : Option (List ℕ) → Option (List ℕ) → Bool
status_eq none none = true
status_eq none (some b) = false
status_eq (some a) none = false
status_eq (some a) (some b) = bytes_eq a b

-- The beginning of `handle_stream`.
unfoldable pub connect : Config → Changes → Session
unfolding new_session
connect config changes = record (new_session config.protocol_max) { checked_tip = changes.tip }

-- The beginning of `notifications`.
unfoldable pub notify_header : Session → Option HeaderNotification → Session × List Notification
unfolding tip_eq
notify_header session none = (session, [])
notify_header session (some tip) =
    if session.header_subscribed && not (tip_eq (some tip) session.last_header)
    then (record session { last_header = some tip }, headers_notification tip ∷ [])
    else (session, [])

-- The confirmed history that one round of the loop goes on with; `none` at `continue`.
unfoldable pub refreshed : Reads → Bool → ScriptHash → ScriptState → Option ScriptHistory
refreshed reads true scripthash state = reads.confirmed scripthash
refreshed reads false scripthash state = some state.confirmed

-- The end of one round of the loop.
unfoldable pub send_status :
    ScriptHash → ScriptHistory → Option (List ℕ) → ScriptState → ScriptState × List Notification
unfolding status_eq
send_status scripthash confirmed status state =
    if status_eq status state.status
    then (record { confirmed = confirmed; status = state.status }, [])
    else (
      record { confirmed = confirmed; status = status },
      scripthash_notification scripthash status ∷ [],
    )

-- The requests that change the session, with their parameters read; the last two may be
-- missing in `server.version`.
pub data Request : Type 0 where
  server_version : Option ProtocolVersion → Option ProtocolVersion → Request
  add_peer : List ℕ → Request
  headers_subscribe : Request
  scripthash_subscribe : ScriptHash → Request
  scripthash_unsubscribe : ScriptHash → Request

pub data Reply : Type 0 where
  version_reply : ProtocolVersion → Reply
  peer_reply : Reply
  header_reply : HeaderNotification → Reply
  status_reply : Option (List ℕ) → Reply
  removed_reply : Bool → Reply
  -- `ProtocolError::Server`
  server_error : Reply

unfoldable pub settle_version : Session → Option ProtocolVersion → Session × Reply
settle_version session none = (session, server_error)
settle_version session (some version) =
    (record session { negotiated_protocol = version }, version_reply version)

unfoldable pub subscribe_headers : Session → Option (Option HeaderNotification) → Session × Reply
subscribe_headers session none = (session, server_error)
subscribe_headers session (some none) = (session, server_error)
subscribe_headers session (some (some tip)) =
    (record session { header_subscribed = true; last_header = some tip }, header_reply tip)

-- The guard of `scripthash_subscribe`.
unfoldable pub over_limit : Config → Session → ScriptHash → Bool
over_limit config session scripthash = elim (lookup bytes_eq scripthash session.scripthashes) [
  | none ↦ leb config.max_subscriptions_per_session (length session.scripthashes)
  | some state ↦ false
]

unfoldable pub insert_peer : List ℕ → List (List ℕ) → List (List ℕ)
insert_peer peer peers = if has bytes_eq peer peers then peers else peer ∷ peers

unfoldable pub is_subscribed : ScriptHash → Session → Bool
is_subscribed scripthash session = elim (lookup bytes_eq scripthash session.scripthashes) [
  | none ↦ false
  | some state ↦ true
]

-- `Txid::to_string` is the parameter `to_string`, and the hash of a text `sha256`.
module _ (to_string : Txid → List ℕ) (sha256 : List ℕ → List ℕ) where
  unfoldable pub status_now : Reads → ScriptHash → ScriptHistory → Option (List ℕ)
  unfolding script_status
  status_now reads scripthash confirmed =
      script_status to_string sha256 (reads.mempool scripthash) scripthash confirmed

  unfoldable pub notify_refreshed :
      Reads → ScriptHash → ScriptState → Option ScriptHistory → ScriptState × List Notification
  unfolding send_status status_now
  notify_refreshed reads scripthash state none = (state, [])
  notify_refreshed reads scripthash state (some confirmed) =
      send_status scripthash confirmed (status_now reads scripthash confirmed) state

  -- One round of the loop of `notifications`.
  unfoldable pub notify_script :
      Reads → Bool → ScriptHash → ScriptState → ScriptState × List Notification
  unfolding notify_refreshed refreshed
  notify_script reads tip_changed scripthash state =
      notify_refreshed reads scripthash state (refreshed reads tip_changed scripthash state)

  unfoldable pub notify_scripts :
      Reads
      → Bool
      → List (ScriptHash × ScriptState)
      → List (ScriptHash × ScriptState) × List Notification
  unfolding notify_script
  notify_scripts reads tip_changed [] = ([], [])
  notify_scripts reads tip_changed ((scripthash, state) ∷ scripts) =
      let one = notify_script reads tip_changed scripthash state in
      let rest = notify_scripts reads tip_changed scripts in
      ((scripthash, one.0) ∷ rest.0, one.1 ++ rest.1)

  unfoldable pub notifications : Reads → Session → Changes → Session × List Notification
  unfolding notify_header notify_scripts tip_eq
  notifications reads session changes =
      let headed = notify_header session changes.tip in
      let tip_changed = not (tip_eq changes.tip session.checked_tip) in
      let scripts = notify_scripts reads tip_changed session.scripthashes in
      (
        record headed.0 { checked_tip = changes.tip; scripthashes = scripts.0 },
        headed.1 ++ scripts.1,
      )

  -- The end of `scripthash_subscribe`.
  unfoldable pub subscribe_script :
      Reads → Session → ScriptHash → Option ScriptHistory → Session × Reply
  unfolding status_now set
  subscribe_script reads session scripthash none = (session, server_error)
  subscribe_script reads session scripthash (some confirmed) =
      let status = status_now reads scripthash confirmed in
      let state : ScriptState = record { confirmed = confirmed; status = status } in
      (
        record session { scripthashes = set bytes_eq scripthash state session.scripthashes },
        status_reply status,
      )

  unfoldable pub dispatch : Config → Reads → Session → Request → Session × Reply
  unfolding settle_version insert_peer subscribe_headers over_limit subscribe_script is_subscribed
      unset negotiate
  dispatch config reads session (server_version client_min client_max) =
      settle_version session
        (negotiate client_min client_max config.protocol_min config.protocol_max)
  dispatch config reads session (add_peer peer) =
      (record session { peers_seen = insert_peer peer session.peers_seen }, peer_reply)
  dispatch config reads session headers_subscribe = subscribe_headers session reads.tip
  dispatch config reads session (scripthash_subscribe scripthash) =
      if over_limit config session scripthash
      then (session, server_error)
      else subscribe_script reads session scripthash (reads.confirmed scripthash)
  dispatch config reads session (scripthash_unsubscribe scripthash) = (
    record session { scripthashes = unset bytes_eq scripthash session.scripthashes },
    removed_reply (is_subscribed scripthash session),
  )

-- ===== src/Electrum/Session/Client.antt =====
-- A client of the server: what it takes from the messages that `handle_stream` of
-- bindex-electrum/src/server.rs sends it, and the runs of a session with it.
use bindex_rs.Common.{ℕ, ◌≤◌, ◌≡◌, Option, none, some, List, [], ◌∷◌}
use bindex_rs.Common.{length}
use bindex_rs.Common.Bytes.{bytes_eq}
use bindex_rs.Electrum.Maps.{lookup, set, unset, Distinct}
use bindex_rs.Electrum.Mempool.{Txid, ScriptHash}
use bindex_rs.Electrum.Session.{
  HeaderNotification, ScriptState, Session, Changes, Config, Reads, Notification,
  headers_notification, scripthash_notification, Request, server_version, add_peer,
  headers_subscribe, scripthash_subscribe, scripthash_unsubscribe, Reply, header_reply,
  status_reply, removed_reply, connect, notifications, dispatch,
}

-- The statuses that the client was last told, and the tip.
pub record Client : Type 0 where
  pub statuses : List (ScriptHash × Option (List ℕ))
  pub header : Option HeaderNotification

unfoldable pub hear : Client → Notification → Client
hear client (headers_notification tip) = record client { header = some tip }
hear client (scripthash_notification s status) = record client {
  statuses = set bytes_eq s status client.statuses;
}

unfoldable pub hear_all : Client → List Notification → Client
hear_all client [] = client
hear_all client (n ∷ ns) = hear_all (hear client n) ns

unfoldable pub hear_header : Client → Reply → Client
hear_header client (header_reply tip) = record client { header = some tip }
hear_header client other = client

unfoldable pub hear_status : Client → ScriptHash → Reply → Client
hear_status client s (status_reply status) = record client {
  statuses = set bytes_eq s status client.statuses;
}
hear_status client s other = client

unfoldable pub hear_removed : Client → ScriptHash → Reply → Client
hear_removed client s (removed_reply removed) = record client {
  statuses = unset bytes_eq s client.statuses;
}
hear_removed client s other = client

-- What the client takes from the reply to its request.
unfoldable pub hear_reply : Client → Request → Reply → Client
unfolding hear_header hear_status hear_removed
hear_reply client (server_version client_min client_max) reply = client
hear_reply client (add_peer peer) reply = client
hear_reply client headers_subscribe reply = hear_header client reply
hear_reply client (scripthash_subscribe s) reply = hear_status client s reply
hear_reply client (scripthash_unsubscribe s) reply = hear_removed client s reply

-- The rounds of the loop of `handle_stream`, for requests that carry an id, which are answered.
pub data Run (to_string : Txid → List ℕ) (sha256 : List ℕ → List ℕ) (config : Config)
    : Session → Client → Type 0 where
  connected :
      (changes : Changes)
      → Run to_string sha256 config
          (connect config changes)
          (record { statuses = []; header = none })
  answered :
      {session : Session} {client : Client}
      → Run to_string sha256 config session client
      → (reads : Reads) (request : Request)
      → Run to_string sha256 config
          (dispatch to_string sha256 config reads session request).0
          (hear_reply client request (dispatch to_string sha256 config reads session request).1)
  notified :
      {session : Session} {client : Client}
      → Run to_string sha256 config session client
      → (reads : Reads) (changes : Changes)
      → Run to_string sha256 config
          (notifications to_string sha256 reads session changes).0
          (hear_all client (notifications to_string sha256 reads session changes).1)

abbrev pub status_of : Option ScriptState → Option (Option (List ℕ))
status_of none = none
status_of (some state) = some state.status

-- The client knows the status of each script as the session has it, and the tip.
pub record Agrees (config : Config) (session : Session) (client : Client) : Type 0 where
  pub distinct : Distinct bytes_eq session.scripthashes
  pub limited : length session.scripthashes ≤ config.max_subscriptions_per_session
  pub statuses :
      (s : ScriptHash)
      → lookup bytes_eq s client.statuses ≡ status_of (lookup bytes_eq s session.scripthashes)
  pub header : client.header ≡ session.last_header

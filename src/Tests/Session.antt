-- ===== src/Tests/Session.antt =====
-- A session at concrete requests and changes.
use bindex_rs.Common.{ℕ, ◌≡◌, refl, ◌≢◌, false, none, some, List, [], ◌∷◌, ◌-◌, ◌^◌}
use bindex_rs.Common.Bytes.{bytes_eq}
use bindex_rs.Electrum.Fold.{ScriptHistoryRow, ScriptHistory}
use bindex_rs.Electrum.Maps.{lookup}
use bindex_rs.Electrum.Mempool.{Txid, MempoolIndex}
use bindex_rs.Electrum.Protocol.{ProtocolVersion}
use bindex_rs.Electrum.Status.{i64_to_string, scripthash_status}
use bindex_rs.Electrum.Session.{
  Session, Changes, Config, Reads, scripthash_subscribe, scripthash_notification, connect,
  over_limit, dispatch, notifications,
}
use bindex_rs.Electrum.Session.Client.{
  Client, hear_all, hear_reply, Run, connected, answered, notified, Agrees,
}
use bindex_rs.Electrum.Session.Notified.{state_of, IsCurrent, notifications_lem}
use bindex_rs.Electrum.Session.Agreed.{Run-Agrees}

abbrev version : ProtocolVersion
version = record { components = 1 ∷ 4 ∷ [] }

abbrev config : Config
config = record {
  protocol_min = version;
  protocol_max = version;
  max_subscriptions_per_session = 1;
}

abbrev row : ScriptHistoryRow
row = record {
  txid = 7 ∷ [];
  height = 5;
  position = 1;
  funded = 50;
  funded_count = 1;
  spent = 0;
  spent_count = 0;
}

abbrev history : List ScriptHistoryRow → ScriptHistory
history rows = record {
  rows = rows;
  utxos = [];
  funded_txo_count = 0;
  funded_txo_sum = 0;
  spent_txo_count = 0;
  spent_txo_sum = 0;
  peak_live_utxos = 0;
}

abbrev empty : MempoolIndex
empty = record { txs = []; by_scripthash = []; spent_prevouts = []; recent = [] }

-- A transaction id is its own text, and a text its own hash.
abbrev same : List ℕ → List ℕ
same bytes = bytes

abbrev script : List ℕ
script = 3 ∷ []

-- Before the block that pays the script, and after it.
abbrev before : Reads
before = record { tip = some none; confirmed = λ s. some (history []); mempool = λ s. empty }

abbrev after : Reads
after = record { tip = some none; confirmed = λ s. some (history (row ∷ [])); mempool = λ s. empty }

abbrev old : Changes
old = record { tip = none; mempool = 0 }

abbrev new : Changes
new = record { tip = some (record { height = 5; hex = [] }); mempool = 0 }

minus_one : i64_to_string (2 ^ 64 - 1) ≡ b'-' ∷ b'1' ∷ []
unfolding i64_to_string
minus_one = refl

-- `<7>:105:`
paid_status :
    scripthash_status same (record { tx_hash = 7 ∷ []; height = 105; fee = none } ∷ [])
    ≡ some (7 ∷ b':' ∷ b'1' ∷ b'0' ∷ b'5' ∷ b':' ∷ [])
unfolding scripthash_status
paid_status = refl

abbrev subscribed : Session
subscribed = record {
  negotiated_protocol = version;
  header_subscribed = false;
  last_header = none;
  checked_tip = none;
  scripthashes = (script, state_of (history []) none) ∷ [];
  peers_seen = [];
}

subscribe :
    (dispatch same same config before (connect config old) (scripthash_subscribe script)).0
    ≡ subscribed
unfolding dispatch connect over_limit bindex_rs.Electrum.Mempool.View.present
    bindex_rs.Electrum.Mempool.View.not_mined bindex_rs.Electrum.Mempool.View.script_txids lookup
    bindex_rs.Electrum.Mempool.funding_txids
subscribe = refl

told :
    (notifications same same after subscribed new).1
    ≡ scripthash_notification script (some (7 ∷ b':' ∷ b'5' ∷ b':' ∷ [])) ∷ []
unfolding notifications bindex_rs.Electrum.Mempool.View.present
    bindex_rs.Electrum.Mempool.View.not_mined bindex_rs.Electrum.Mempool.View.script_txids
    bindex_rs.Electrum.Mempool.funding_txids
told = refl

found : lookup bytes_eq script subscribed.scripthashes ≡ some (state_of (history []) none)
unfolding lookup bytes_eq
found = refl

notifications_lem_example :
    let next = (notifications same same after subscribed new).0 in
    let now = lookup bytes_eq script next.scripthashes in
    (new.tip ≡ subscribed.checked_tip → IsCurrent same same after script (history []) now)
    × ((confirmed : ScriptHistory)
        → new.tip ≢ subscribed.checked_tip
        → after.confirmed script ≡ some confirmed
        → IsCurrent same same after script confirmed now)
    × (new.tip ≢ subscribed.checked_tip
        → after.confirmed script ≡ none
        → now ≡ some (state_of (history []) none))
    × (next.checked_tip ≡ new.tip)
notifications_lem_example =
    notifications_lem same same after subscribed new script (state_of (history []) none) found

abbrev answer : Session × Client
answer =
    let first = connect config old in
    let reply = dispatch same same config before first (scripthash_subscribe script) in
    (
      reply.0,
      hear_reply (record { statuses = []; header = none }) (scripthash_subscribe script) reply.1,
    )

run :
    Run same same config
      (notifications same same after answer.0 new).0
      (hear_all answer.1 (notifications same same after answer.0 new).1)
run = notified (answered (connected old) before (scripthash_subscribe script)) after new

Run-Agrees_example :
    Agrees config
      (notifications same same after answer.0 new).0
      (hear_all answer.1 (notifications same same after answer.0 new).1)
Run-Agrees_example =
    Run-Agrees same same config (notifications same same after answer.0 new).0
      (hear_all answer.1 (notifications same same after answer.0 new).1) run

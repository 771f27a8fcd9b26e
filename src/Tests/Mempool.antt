-- ===== src/Tests/Mempool.antt =====
-- A refresh of the mempool at a concrete node.
use bindex_rs.Common.{ℕ, ◌≡◌, refl, true, false, Option, none, some, List, [], ◌∷◌, if◌then◌else◌}
use bindex_rs.Common.{malformed, Outcome, ok, err}
use bindex_rs.Common.Bytes.{bytes_eq}
use bindex_rs.Electrum.Maps.{has}
use bindex_rs.Electrum.Mempool.{Txid, MempoolTx, MempoolIndex, get}
use bindex_rs.Electrum.Mempool.Build.{MempoolEntryInfo}
use bindex_rs.Electrum.Mempool.Poll.{MempoolNode, known_txids, current_txids, poll_once}
use bindex_rs.Electrum.Mempool.Poll.Fetched.{IsNew}
use bindex_rs.Electrum.Mempool.Poll.Steps.{IsArrival}
use bindex_rs.Electrum.Mempool.Poll.Swapped.{poll_once_swaps}
use bindex_rs.Electrum.Fold.{ParsedTx}

abbrev info : MempoolEntryInfo
info = record { fee = 3; vsize = 101; ancestor_fees = 3; ancestor_vsize = 101; time = 5 }

-- A body is the id of its transaction.
abbrev parse_tx : List ℕ → Outcome ParsedTx
parse_tx raw = ok (record { txid = raw; inputs = []; outputs = []; weight = 400 })

abbrev tx : MempoolTx
tx = record {
  txid = 7 ∷ [];
  raw = [];
  fee = 10;
  vsize = 100;
  ancestor_fees = 10;
  ancestor_vsize = 100;
  time = 1;
  touches = [];
  spends = [];
  outputs = [];
}

abbrev self : MempoolIndex
self = record { txs = (7 ∷ [], tx) ∷ []; by_scripthash = []; spent_prevouts = []; recent = [] }

-- The node still has 7, and 8 is new; the body of 9 is gone.
abbrev entries : List (Option Txid × MempoolEntryInfo)
entries = (some (7 ∷ []), info) ∷ (none, info) ∷ (some (8 ∷ []), info) ∷ (some (9 ∷ []), info) ∷ []

abbrev node : MempoolNode
node = record {
  mempool_contents = ok (some entries);
  tx_raw = λ t. if bytes_eq t (9 ∷ []) then err malformed else ok t;
}

poll_once_swaps_example :
    (has bytes_eq (8 ∷ []) (current_txids entries) ≡ false
      → get (poll_once parse_tx (λ s. s) node 10 2 self).1 (8 ∷ []) ≡ none)
    × ((tx : MempoolTx)
        → has bytes_eq (8 ∷ []) (current_txids entries) ≡ true
        → get self (8 ∷ []) ≡ some tx
        → get (poll_once parse_tx (λ s. s) node 10 2 self).1 (8 ∷ []) ≡ some tx)
    × ((tx : MempoolTx)
        → get self (8 ∷ []) ≡ none
        → get (poll_once parse_tx (λ s. s) node 10 2 self).1 (8 ∷ []) ≡ some tx
        → IsArrival parse_tx (λ s. s) node (IsNew (known_txids self.txs) entries) (8 ∷ []) tx)
poll_once_swaps_example = poll_once_swaps parse_tx (λ s. s) node 10 2 self entries (8 ∷ []) refl

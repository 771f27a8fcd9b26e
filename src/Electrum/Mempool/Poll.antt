-- ===== src/Electrum/Mempool/Poll.antt =====
-- `poll_once` of bindex-electrum/src/mempool.rs: one refresh of the mempool index.
use bindex_rs.Common.{
  ℕ, ◌+◌, ◌-◌, ◌/◌, min, max, Option, none, some, List, [], ◌∷◌, ◌++◌, map, leb, if◌then◌else◌,
}
use bindex_rs.Common.{length, chunks, slice}
use bindex_rs.Common.{malformed, Outcome, ok, err, panic, ◌>>=◌}
use bindex_rs.Common.Bytes.{bytes_eq}
use bindex_rs.Electrum.Maps.{has}
use bindex_rs.Electrum.Mempool.{
  Txid, ScriptHash, Output, MempoolTx, RecentTx, MempoolIndex, insert_txid, insert, remove,
  push_recent,
}
use bindex_rs.Electrum.Mempool.View.{add64, sort_by}
use bindex_rs.Electrum.Mempool.Build.{MempoolEntryInfo, build_tx}
use bindex_rs.Electrum.Fold.{ParsedTx}
pub mod Fetched
pub mod Steps
pub mod Swapped

-- What the node answers: the members of the object of its mempool (`none` when it is no object), a
-- name that is no transaction id as `none`, each with the entry of `parse_entry`; and bodies.
pub record MempoolNode : Type 0 where
  pub mempool_contents : Outcome (Option (List (Option Txid × MempoolEntryInfo)))
  pub tx_raw : Txid → Outcome (List ℕ)

unfoldable pub known_txids : List (Txid × MempoolTx) → List Txid
known_txids [] = []
known_txids ((t, tx) ∷ txs) = t ∷ known_txids txs

-- The set `current`.
unfoldable pub current_txids : List (Option Txid × MempoolEntryInfo) → List Txid
unfolding insert_txid
current_txids [] = []
current_txids ((none, info) ∷ entries) = current_txids entries
current_txids ((some t, info) ∷ entries) = insert_txid t (current_txids entries)

unfoldable pub wanted_txids :
    List Txid → List (Option Txid × MempoolEntryInfo) → List (Txid × MempoolEntryInfo)
unfolding has
wanted_txids known [] = []
wanted_txids known ((none, info) ∷ entries) = wanted_txids known entries
wanted_txids known ((some t, info) ∷ entries) =
    let rest = wanted_txids known entries in if has bytes_eq t known then rest else (t, info) ∷ rest

-- `known.difference(&current)`
unfoldable pub difference : List Txid → List Txid → List Txid
unfolding has
difference [] current = []
difference (t ∷ ts) current =
    let rest = difference ts current in if has bytes_eq t current then rest else t ∷ rest

module _ (parse_tx : List ℕ → Outcome ParsedTx) (from_script : List ℕ → ScriptHash) where
  -- A wanted transaction whose body is there and decodes to it, before the others of its worker; the
  -- worker goes on when it is not, and ends with a panic.
  unfoldable pub keep_fetched :
      Txid
      → MempoolEntryInfo
      → Outcome MempoolTx
      → Outcome (List (MempoolTx × MempoolEntryInfo))
      → Outcome (List (MempoolTx × MempoolEntryInfo))
  keep_fetched txid info (err e) rest = rest
  keep_fetched txid info panic rest = panic
  keep_fetched txid info (ok tx) rest =
      if bytes_eq tx.txid txid then (rest >>= λ out. ok ((tx, info) ∷ out)) else rest

  -- The loop of a worker.
  unfoldable pub fetch_slice :
      MempoolNode → List (Txid × MempoolEntryInfo) → Outcome (List (MempoolTx × MempoolEntryInfo))
  unfolding keep_fetched build_tx
  fetch_slice node [] = ok []
  fetch_slice node ((txid, info) ∷ slice) =
      keep_fetched txid info (node.tx_raw txid >>= λ raw. build_tx from_script parse_tx raw info)
        (fetch_slice node slice)

  -- `filter_map(|handle| handle.join().ok()).flatten()`
  unfoldable pub join_all :
      List (Outcome (List (MempoolTx × MempoolEntryInfo))) → List (MempoolTx × MempoolEntryInfo)
  join_all [] = []
  join_all (ok out ∷ handles) = out ++ join_all handles
  join_all (err e ∷ handles) = join_all handles
  join_all (panic ∷ handles) = join_all handles

  unfoldable pub fetch_wanted :
      MempoolNode → ℕ → List (Txid × MempoolEntryInfo) → List (MempoolTx × MempoolEntryInfo)
  unfolding fetch_slice join_all
  fetch_wanted node workers wanted =
      let n = min (max workers 1) (max (length wanted) 1) in
      let chunk = max ((length wanted + (n - 1)) / n) 1 in
      join_all (map (λ slice. fetch_slice node slice) (chunks chunk chunk [] wanted))

unfoldable pub remove_each : MempoolIndex → List Txid → MempoolIndex
unfolding remove
remove_each self [] = self
remove_each self (t ∷ ts) = remove_each (remove self t).1 ts

-- `MempoolTx::value`
unfoldable pub value_of : List Output → ℕ
unfolding add64
value_of [] = 0
value_of (o ∷ os) = add64 o.value (value_of os)

unfoldable pub recent_of : MempoolTx → RecentTx
unfolding value_of
recent_of tx = record {
  txid = tx.txid;
  fee = tx.fee;
  vsize = tx.vsize;
  value = value_of tx.outputs;
}

-- The loop over the arrivals.
unfoldable pub insert_each : ℕ → MempoolIndex → List (MempoolTx × MempoolEntryInfo) → MempoolIndex
unfolding insert push_recent recent_of
insert_each recent_cap self [] = self
insert_each recent_cap self ((tx, info) ∷ arrivals) =
    insert_each recent_cap (push_recent (insert self tx) (recent_of tx) recent_cap) arrivals

module _ (parse_tx : List ℕ → Outcome ParsedTx) (from_script : List ℕ → ScriptHash) where
  unfoldable pub arrivals_of :
      MempoolNode
      → ℕ
      → MempoolIndex
      → List (Option Txid × MempoolEntryInfo)
      → List (MempoolTx × MempoolEntryInfo)
  unfolding wanted_txids fetch_wanted sort_by known_txids
  arrivals_of node workers self entries =
      sort_by (λ a b. leb a.1.time b.1.time)
        (fetch_wanted parse_tx from_script node workers
          (wanted_txids (known_txids self.txs) entries))

  -- The counts of added and removed transactions, and the index that is left; nothing else writes
  -- the index between its reading and its writing.
  unfoldable pub poll_once : MempoolNode → ℕ → ℕ → MempoolIndex → Outcome (ℕ × ℕ) × MempoolIndex
  unfolding current_txids difference remove_each insert_each arrivals_of
  poll_once node recent_cap workers self = elim node.mempool_contents [
    | err e ↦ (err e, self)
    | panic ↦ (panic, self)
    | ok none ↦ (err malformed, self)
    | ok (some entries) ↦
        let removed = difference (known_txids self.txs) (current_txids entries) in
        let arrivals = arrivals_of node workers self entries in
        (
          ok (length arrivals, length removed),
          insert_each recent_cap (remove_each self removed) arrivals,
        )
  ]

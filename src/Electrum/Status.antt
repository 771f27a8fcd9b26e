-- ===== src/Electrum/Status.antt =====
-- A script's status as the Electrum protocol has it: `HistoryEntry` and `scripthash_status` of
-- bindex-electrum/src/protocol.rs, `history_entries`, `mempool_view` and `script_status` of
-- bindex-electrum/src/server.rs.
use bindex_rs.Common.{
  ℕ, zero, suc, ◌+◌, ◌-◌, ◌/◌, ◌%◌, ◌^◌, Option, none, some, List, [], ◌∷◌, ◌++◌, map, ltb,
  if◌then◌else◌,
}
use bindex_rs.Electrum.Fold.{ScriptHistoryRow, ScriptUtxo, ScriptHistory}
use bindex_rs.Electrum.Mempool.{Txid, ScriptHash, MempoolIndex}
use bindex_rs.Electrum.Mempool.View.{MempoolEntry, ScriptMempool, script_view}
pub mod Written

pub record HistoryEntry : Type 0 where
  pub tx_hash : List ℕ
  -- An `i64`, as its bits.
  pub height : ℕ
  pub fee : Option ℕ

-- `u64::to_string`, the digits in front of `tail`; twenty digits are enough.
unfoldable pub digits : ℕ → ℕ → List ℕ → List ℕ
digits zero n tail = tail
digits (suc fuel) n tail =
    let rest = digits fuel (n / 10) ((b'0' + n % 10) ∷ tail) in
    if ltb n 10 then (b'0' + n) ∷ tail else rest

-- `i64::to_string`
unfoldable pub i64_to_string : ℕ → List ℕ
unfolding digits
i64_to_string n = if ltb n (2 ^ 63) then digits 20 n [] else b'-' ∷ digits 20 (2 ^ 64 - n) []

-- The loop that builds `payload`.
unfoldable pub payload : List HistoryEntry → List ℕ
unfolding i64_to_string
payload [] = []
payload (item ∷ items) =
    item.tx_hash ++ (b':' ∷ (i64_to_string item.height ++ (b':' ∷ payload items)))

-- The hash of a text, in hexadecimal, is the parameter `sha256`.
unfoldable pub scripthash_status : (List ℕ → List ℕ) → List HistoryEntry → Option (List ℕ)
unfolding payload
scripthash_status sha256 [] = none
scripthash_status sha256 (item ∷ items) = some (sha256 (payload (item ∷ items)))

-- `Txid::to_string` is the parameter `to_string`.
module _ (to_string : Txid → List ℕ) where
  unfoldable pub history_entries : ScriptHistory → ScriptMempool → List HistoryEntry
  history_entries confirmed mempool =
      map
        (λ (row : ScriptHistoryRow). record {
          tx_hash = to_string row.txid;
          height = row.height;
          fee = none;
        })
        confirmed.rows
      ++ map
          (λ (entry : MempoolEntry). record {
            tx_hash = entry.tx_hash;
            height = entry.height;
            fee = some entry.fee;
          })
          mempool.entries

  -- `mempool` is the index under its lock.
  unfoldable pub mempool_view : MempoolIndex → ScriptHash → ScriptHistory → ScriptMempool
  unfolding script_view
  mempool_view mempool scripthash confirmed =
      script_view to_string mempool scripthash
        (map (λ (utxo : ScriptUtxo). (utxo.outpoint, utxo.value)) confirmed.utxos)
        (map (λ (row : ScriptHistoryRow). row.txid) confirmed.rows)

  unfoldable pub script_status :
      (List ℕ → List ℕ) → MempoolIndex → ScriptHash → ScriptHistory → Option (List ℕ)
  unfolding scripthash_status history_entries mempool_view
  script_status sha256 mempool scripthash confirmed =
      scripthash_status sha256
        (history_entries confirmed (mempool_view mempool scripthash confirmed))

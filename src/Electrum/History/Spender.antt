-- ===== src/Electrum/History/Spender.antt =====
-- `ChainAdapter::find_spender` of bindex-electrum/src/chain.rs: the confirmed transaction that spends an
-- outpoint, looked for batch by batch.
use bindex_rs.Common.{ℕ, zero, suc, ◌%◌, ◌^◌, Option, none, some, List, [], ◌∷◌, if◌then◌else◌}
use bindex_rs.Common.{chunks}
use bindex_rs.Common.{chain_moved, Outcome, ok, err, ◌>>=◌, ◌>>◌}
use bindex_rs.Common.Bytes.{bytes_eq}
use bindex_rs.Index.TxPos.{VarInt}
use bindex_rs.Index.Visit.{Parser}
use bindex_rs.Db.Store.{Store}
use bindex_rs.Headers
use bindex_rs.Chain.Reads.{TxBytesRef}
use bindex_rs.Electrum.Mempool.{Txid, ScriptHash, OutPoint, outpoint_eq}
use bindex_rs.Electrum.Fold.{ParsedTx}
use bindex_rs.Electrum.History.{script_refs, fetch_bodies}
use bindex_rs.Electrum.History.Cached.{Round}
pub mod Scanned
pub mod Found

pub record Spender : Type 0 where
  pub txid : Txid
  pub vin : ℕ
  pub height : ℕ
  pub position : ℕ
  pub block_hash : List ℕ

-- `tx.inputs.iter().position(|input| *input == outpoint)`, counted from `n`.
unfoldable pub position_from : OutPoint → ℕ → List OutPoint → Option ℕ
position_from outpoint n [] = none
position_from outpoint n (o ∷ os) =
    let rest = position_from outpoint (suc n) os in if outpoint_eq o outpoint then some n else rest

-- What the loop does with a body: nothing of it when it is the funding transaction.
unfoldable pub spender_in : OutPoint → TxBytesRef → ParsedTx → Option Spender
unfolding position_from
spender_in outpoint r tx =
    if bytes_eq tx.txid outpoint.txid then none else (elim (position_from outpoint 0 tx.inputs) [
      | none ↦ none
      | some vin ↦ some (record {
        txid = tx.txid;
        vin = vin % 2 ^ 32;
        height = r.block_height;
        position = r.block_position;
        block_hash = r.block_hash;
      })
    ])

-- `break 'scan` with a spender, the rest of the loop without.
abbrev pub found_or : Option Spender → Outcome (Option Spender) → Outcome (Option Spender)
found_or none rest = rest
found_or (some found) rest = ok (some found)

-- The loop over `batch.iter().zip(bodies)`.
unfoldable pub scan_bodies :
    (List ℕ → Outcome ParsedTx)
    → OutPoint
    → List TxBytesRef
    → List (List ℕ)
    → Outcome (Option Spender)
unfolding spender_in
scan_bodies parse_tx outpoint [] raws = ok none
scan_bodies parse_tx outpoint (r ∷ refs) [] = ok none
scan_bodies parse_tx outpoint (r ∷ refs) (raw ∷ raws) = do
  tx ← parse_tx raw
  found_or (spender_in outpoint r tx) (scan_bodies parse_tx outpoint refs raws)

module _ (v : VarInt) (p : Parser) (s : Store) (parse_tx : List ℕ → Outcome ParsedTx) where
  -- The loop over the batches, from the i-th on.
  unfoldable pub scan_batches :
      Round v p s → OutPoint → ℕ → List (List TxBytesRef) → Outcome (Option Spender)
  unfolding scan_bodies fetch_bodies
  scan_batches r outpoint i [] = ok none
  scan_batches r outpoint i (batch ∷ batches) = do
    bodies ← fetch_bodies r.block_part (r.expired i) batch
    found ← scan_bodies parse_tx outpoint batch bodies
    found_or found (scan_batches r outpoint (suc i) batches)

  -- A round: `ok none` when the chain moved under it.
  unfoldable pub spender_round :
      Round v p s → OutPoint → ScriptHash → ℕ → Outcome (Option (Option Spender))
  unfolding scan_batches
  spender_round r outpoint scripthash funding_height = do
    listed ← script_refs v p s r.at_start scripthash (some funding_height)
    found ← scan_batches r outpoint 0 (chunks 512 512 [] listed.1)
    ok (if bytes_eq (Headers.tip_hash r.at_end.headers) listed.0 then some found else none)

  unfoldable pub spender_rounds :
      (ℕ → Round v p s) → ℕ → ℕ → OutPoint → ScriptHash → ℕ → Outcome (Option Spender)
  unfolding spender_round
  spender_rounds rounds zero i outpoint scripthash funding_height = err chain_moved
  spender_rounds rounds (suc retries) i outpoint scripthash funding_height = do
    let rest = spender_rounds rounds retries (suc i) outpoint scripthash funding_height
    result ← spender_round (rounds i) outpoint scripthash funding_height
    elim result [ none ↦ rest | some found ↦ ok found ]

  -- `find_spender`: `rounds i` is what its i-th round meets, of `REORG_RETRIES`.
  unfoldable pub find_spender :
      (ℕ → Round v p s) → OutPoint → ScriptHash → ℕ → Outcome (Option Spender)
  unfolding spender_rounds
  find_spender rounds outpoint scripthash funding_height =
      spender_rounds rounds 3 0 outpoint scripthash funding_height

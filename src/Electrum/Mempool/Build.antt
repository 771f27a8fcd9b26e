-- ===== src/Electrum/Mempool/Build.antt =====
-- `build_tx` of bindex-electrum/src/mempool.rs.
use bindex_rs.Common.{ℕ, ◌+◌, ◌/◌, ◌%◌, ◌^◌, List, [], ◌∷◌, ltb, ◌==◌, if◌then◌else◌}
use bindex_rs.Common.{Outcome, ok, ◌>>=◌}
use bindex_rs.Electrum.Mempool.{
  insert_outpoint, ScriptHash, OutPoint, Output, MempoolTx, insert_txid,
}
use bindex_rs.Electrum.Fold.{TxOutView, ParsedTx}
pub mod Built

pub record MempoolEntryInfo : Type 0 where
  pub fee : ℕ
  pub vsize : ℕ
  pub ancestor_fees : ℕ
  pub ancestor_vsize : ℕ
  pub time : ℕ

-- The set of the outpoints of a list.
unfoldable pub collect : List OutPoint → List OutPoint
unfolding insert_outpoint
collect [] = []
collect (o ∷ os) = insert_outpoint o (collect os)

-- An entry is put into a map that later entries of the sequence are in already.
unfoldable pub insert_before : Output → List Output → List Output
insert_before o [] = o ∷ []
insert_before o (p ∷ ps) =
    let rest = insert_before o ps in
    if o.vout == p.vout then p ∷ ps else (if ltb o.vout p.vout then o ∷ p ∷ ps else p ∷ rest)

module _ (from_script : List ℕ → ScriptHash) where
  -- The set `touches`: the order of insertion does not show.
  unfoldable pub touches_of : List TxOutView → List ScriptHash
  unfolding insert_txid
  touches_of [] = []
  touches_of (o ∷ os) = insert_txid (from_script o.script_pubkey) (touches_of os)

  -- The map `outputs`, in the order of its keys, from number `vout` on (`vout as u32`): of two
  -- outputs with one key the later one stays.
  unfoldable pub number_outputs : ℕ → List TxOutView → List Output
  unfolding insert_before
  number_outputs vout [] = []
  number_outputs vout (o ∷ os) =
      insert_before
        (record { vout = vout % 2 ^ 32; scripthash = from_script o.script_pubkey; value = o.value })
        (number_outputs (vout + 1) os)

  unfoldable pub build_parsed : List ℕ → MempoolEntryInfo → ParsedTx → MempoolTx
  unfolding touches_of number_outputs collect
  build_parsed raw info tx = record {
    txid = tx.txid;
    raw = raw;
    fee = info.fee;
    vsize = tx.weight / 4;
    ancestor_fees = info.ancestor_fees;
    ancestor_vsize = info.ancestor_vsize;
    time = info.time;
    touches = touches_of tx.outputs;
    spends = collect tx.inputs;
    outputs = number_outputs 0 tx.outputs;
  }

  -- `build_tx`, with `parse_tx` for `fmt::parse_tx`.
  unfoldable pub build_tx :
      (List ℕ → Outcome ParsedTx) → List ℕ → MempoolEntryInfo → Outcome MempoolTx
  unfolding build_parsed
  build_tx parse_tx raw info = do tx ← parse_tx raw; ok (build_parsed raw info tx)

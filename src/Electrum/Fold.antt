-- ===== src/Electrum/Fold.antt =====
-- `Fold` of bindex-electrum/src/chain.rs: a script's confirmed history, one transaction after the other.
use bindex_rs.Common.{
  ℕ, ◌+◌, ◌%◌, ◌^◌, max, Bool, ◌||◌, none, some, List, [], ◌∷◌, ◌++◌, map, ltb, leb, ◌==◌,
  if◌then◌else◌,
}
use bindex_rs.Common.{length}
use bindex_rs.Common.{Outcome, ok, ◌>>=◌, ◌>>◌}
use bindex_rs.Common.Bytes.{bytes_eq, bytes_le}
use bindex_rs.Chain.Reads.{TxBytesRef}
use bindex_rs.Electrum.Maps.{lookup, set, unset}
use bindex_rs.Electrum.Mempool.{Txid, ScriptHash, OutPoint, outpoint_eq}
use bindex_rs.Electrum.Mempool.View.{add64, sort_by}
pub mod Balance

-- What `fmt::parse_tx` gives of a transaction.
pub record TxOutView : Type 0 where
  pub script_pubkey : List ℕ
  pub value : ℕ

pub record ParsedTx : Type 0 where
  pub txid : Txid
  pub inputs : List OutPoint
  pub outputs : List TxOutView
  pub weight : ℕ

pub record ScriptHistoryRow : Type 0 where
  pub txid : Txid
  pub height : ℕ
  pub position : ℕ
  pub funded : ℕ
  pub funded_count : ℕ
  pub spent : ℕ
  pub spent_count : ℕ

pub record ScriptUtxo : Type 0 where
  pub outpoint : OutPoint
  pub value : ℕ
  pub height : ℕ
  pub position : ℕ

pub record ScriptHistory : Type 0 where
  pub rows : List ScriptHistoryRow
  pub utxos : List ScriptUtxo
  pub funded_txo_count : ℕ
  pub funded_txo_sum : ℕ
  pub spent_txo_count : ℕ
  pub spent_txo_sum : ℕ
  pub peak_live_utxos : ℕ

pub record Fold : Type 0 where
  pub history : ScriptHistory
  pub funded : List (OutPoint × ℕ)
  pub live : List (OutPoint × ScriptUtxo)

unfoldable pub empty_fold : Fold
empty_fold = record {
  history = record {
    rows = [];
    utxos = [];
    funded_txo_count = 0;
    funded_txo_sum = 0;
    spent_txo_count = 0;
    spent_txo_sum = 0;
    peak_live_utxos = 0;
  };
  funded = [];
  live = [];
}

-- What the two loops of `apply` change: a sum and a count of the row, and the two maps.
pub record Side : Type 0 where
  pub sum : ℕ
  pub count : ℕ
  pub funded : List (OutPoint × ℕ)
  pub live : List (OutPoint × ScriptUtxo)

-- The loop over the inputs.
unfoldable pub spend_all : List OutPoint → Side → Side
unfolding add64
spend_all [] side = side
spend_all (o ∷ os) side = elim (lookup outpoint_eq o side.funded) [
  | none ↦ spend_all os side
  | some value ↦ spend_all os (record {
    sum = add64 side.sum value;
    count = side.count + 1;
    funded = side.funded;
    live = unset outpoint_eq o side.live;
  })
]

-- An output that pays the script, as it is recorded.
abbrev pub fund : Txid → ℕ → TxBytesRef → TxOutView → Side → Side
fund txid vout reference output side =
    let outpoint : OutPoint = record { txid = txid; vout = vout } in
    record {
      sum = add64 side.sum output.value;
      count = side.count + 1;
      funded = set outpoint_eq outpoint output.value side.funded;
      live =
          set outpoint_eq outpoint
            (record {
              outpoint = outpoint;
              value = output.value;
              height = reference.block_height;
              position = reference.block_position;
            })
            side.live;
    }

module _ (from_script : List ℕ → ScriptHash) where
  -- The loop over the outputs, from number `vout` on (`vout as u32`).
  unfoldable pub fund_all : ScriptHash → Txid → ℕ → TxBytesRef → List TxOutView → Side → Side
  unfolding add64
  fund_all s txid vout reference [] side = side
  fund_all s txid vout reference (o ∷ os) side =
      if bytes_eq (from_script o.script_pubkey) s
      then fund_all s txid (vout + 1) reference os (fund txid (vout % 2 ^ 32) reference o side)
      else fund_all s txid (vout + 1) reference os side

  unfoldable pub apply_parsed : Fold → ScriptHash → TxBytesRef → ParsedTx → Fold
  unfolding spend_all fund_all
  apply_parsed self s reference tx =
      let spent =
        spend_all tx.inputs
          (record { sum = 0; count = 0; funded = self.funded; live = self.live }) in
      let paid =
        fund_all s tx.txid 0 reference tx.outputs
          (record { sum = 0; count = 0; funded = spent.funded; live = spent.live }) in
      let history = self.history in
      let peak = max history.peak_live_utxos (length paid.live) in
      record {
        history =
            if ltb 0 paid.count || ltb 0 spent.count
            then record {
              rows =
                  history.rows
                  ++ record {
                    txid = tx.txid;
                    height = reference.block_height;
                    position = reference.block_position;
                    funded = paid.sum;
                    funded_count = paid.count;
                    spent = spent.sum;
                    spent_count = spent.count;
                  }
                    ∷ [];
              utxos = history.utxos;
              funded_txo_count = history.funded_txo_count + paid.count;
              funded_txo_sum = add64 history.funded_txo_sum paid.sum;
              spent_txo_count = history.spent_txo_count + spent.count;
              spent_txo_sum = add64 history.spent_txo_sum spent.sum;
              peak_live_utxos = peak;
            }
            else record {
              rows = history.rows;
              utxos = history.utxos;
              funded_txo_count = history.funded_txo_count;
              funded_txo_sum = history.funded_txo_sum;
              spent_txo_count = history.spent_txo_count;
              spent_txo_sum = history.spent_txo_sum;
              peak_live_utxos = peak;
            };
        funded = paid.funded;
        live = paid.live;
      }

  -- `Fold::apply`, with `parse_tx` for `fmt::parse_tx`.
  unfoldable pub apply :
      (List ℕ → Outcome ParsedTx) → Fold → ScriptHash → TxBytesRef → List ℕ → Outcome Fold
  unfolding apply_parsed
  apply parse_tx self s reference raw = do tx ← parse_tx raw; ok (apply_parsed self s reference tx)

unfoldable pub row_le : ScriptHistoryRow → ScriptHistoryRow → Bool
row_le a b = if a.height == b.height then leb a.position b.position else ltb a.height b.height

unfoldable pub utxo_le : OutPoint × ScriptUtxo → OutPoint × ScriptUtxo → Bool
utxo_le a b =
    if bytes_eq a.0.txid b.0.txid then leb a.0.vout b.0.vout else bytes_le a.0.txid b.0.txid

-- `Fold::finish`; the values of the ordered map come in the order of its keys.
unfoldable pub finish : Fold → ScriptHistory
unfolding sort_by row_le utxo_le
finish self =
    let history = self.history in
    record {
      rows = sort_by row_le history.rows;
      utxos = map (λ e. e.1) (sort_by utxo_le self.live);
      funded_txo_count = history.funded_txo_count;
      funded_txo_sum = history.funded_txo_sum;
      spent_txo_count = history.spent_txo_count;
      spent_txo_sum = history.spent_txo_sum;
      peak_live_utxos = history.peak_live_utxos;
    }

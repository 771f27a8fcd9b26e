-- ===== src/Electrum/Mempool/View.antt =====
-- `script_txids` and `script_view` of bindex-electrum/src/mempool.rs: a script's share of the mempool.
use bindex_rs.Common.{
  ℕ, ◌+◌, ◌-◌, ◌%◌, ◌^◌, Bool, false, not, ◌||◌, none, some, List, [], ◌∷◌, ◌++◌, map, ltb, leb,
  ◌==◌, if◌then◌else◌,
}
use bindex_rs.Common.Bytes.{bytes_eq, bytes_le}
use bindex_rs.Electrum.Maps.{has}
use bindex_rs.Electrum.Mempool.{
  insert_outpoint, Txid, ScriptHash, OutPoint, Output, MempoolTx, MempoolIndex, insert_txid,
  funding_txids, spender, get,
}
pub mod Balance

pub record MempoolEntry : Type 0 where
  pub tx_hash : List ℕ
  -- An `i64`, as its bits.
  pub height : ℕ
  pub fee : ℕ

pub record ScriptMempool : Type 0 where
  pub entries : List MempoolEntry
  -- An `i64`, as its bits.
  pub balance_delta : ℕ
  pub utxos : List (OutPoint × ℕ)
  pub spent_confirmed : List OutPoint

-- `i64` arithmetic of a release build, which wraps.
unfoldable pub add64 : ℕ → ℕ → ℕ
add64 a b = (a + b) % 2 ^ 64

unfoldable pub sub64 : ℕ → ℕ → ℕ
sub64 a b = (a + (2 ^ 64 - b % 2 ^ 64)) % 2 ^ 64

-- A stable sort.
unfoldable pub insert_by {ℓ} : {A : Type ℓ} → (A → A → Bool) → A → List A → List A
insert_by le x [] = x ∷ []
insert_by le x (y ∷ ys) = let rest = insert_by le x ys in if le x y then x ∷ y ∷ ys else y ∷ rest

unfoldable pub sort_by {ℓ} : {A : Type ℓ} → (A → A → Bool) → List A → List A
unfolding insert_by
sort_by le [] = []
sort_by le (x ∷ xs) = insert_by le x (sort_by le xs)

-- The transactions that the index still has.
unfoldable pub present : MempoolIndex → List Txid → List MempoolTx
present self [] = []
present self (t ∷ ts) =
    let rest = present self ts in elim (get self t) [ none ↦ rest | some tx ↦ tx ∷ rest ]

-- The outputs of a transaction that pay a script.
unfoldable pub paying : ScriptHash → Txid → List Output → List (OutPoint × ℕ)
paying s t [] = []
paying s t (o ∷ os) =
    let rest = paying s t os in
    if bytes_eq o.scripthash s then (record { txid = t; vout = o.vout }, o.value) ∷ rest else rest

unfoldable pub outputs_to : ScriptHash → List MempoolTx → List (OutPoint × ℕ)
unfolding paying
outputs_to s [] = []
outputs_to s (tx ∷ txs) = paying s tx.txid tx.outputs ++ outputs_to s txs

unfoldable pub add_spenders : MempoolIndex → List OutPoint → List Txid → List Txid
add_spenders self [] txids = txids
add_spenders self (o ∷ os) txids =
    add_spenders self os (elim (spender self o) [ none ↦ txids | some t ↦ insert_txid t txids ])

unfoldable pub script_txids : MempoolIndex → ScriptHash → List OutPoint → List Txid
unfolding add_spenders present outputs_to
script_txids self s confirmed_outputs =
    add_spenders self
      (confirmed_outputs ++ map (λ o. o.0) (outputs_to s (present self (funding_txids self s))))
      (funding_txids self s)

unfoldable pub not_mined : List Txid → List Txid → List Txid
not_mined mined [] = []
not_mined mined (t ∷ ts) =
    let rest = not_mined mined ts in if has bytes_eq t mined then rest else t ∷ rest

-- An input of the transaction is an output of the mempool.
unfoldable pub unconfirmed_parent : MempoolIndex → List Txid → List OutPoint → Bool
unconfirmed_parent self mined [] = false
unconfirmed_parent self mined (o ∷ os) =
    (elim (get self o.txid) [ none ↦ false | some tx ↦ not (has bytes_eq o.txid mined) ])
    || unconfirmed_parent self mined os

-- The closure `spent`.
unfoldable pub is_spent : MempoolIndex → List Txid → OutPoint → Bool
is_spent self mined o = elim (spender self o) [ none ↦ false | some t ↦ not (has bytes_eq t mined) ]

unfoldable pub pay_all : List (OutPoint × ℕ) → ℕ → ℕ
unfolding add64
pay_all [] balance = balance
pay_all (o ∷ os) balance = pay_all os (add64 balance o.1)

-- The loop over the confirmed outputs, which collects those that are spent.
unfoldable pub settle_confirmed : (OutPoint → Bool) → List (OutPoint × ℕ) → ℕ → List OutPoint × ℕ
unfolding sub64 insert_outpoint
settle_confirmed spent [] balance = ([], balance)
settle_confirmed spent (o ∷ os) balance =
    let taken = settle_confirmed spent os (sub64 balance o.1) in
    let kept = settle_confirmed spent os balance in
    if spent o.0 then (insert_outpoint o.0 taken.0, taken.1) else kept

-- The loop over the outputs of the mempool, which collects those that are not spent.
unfoldable pub settle_outputs :
    (OutPoint → Bool) → List (OutPoint × ℕ) → ℕ → List (OutPoint × ℕ) × ℕ
unfolding sub64
settle_outputs spent [] balance = ([], balance)
settle_outputs spent (o ∷ os) balance =
    let taken = settle_outputs spent os (sub64 balance o.1) in
    let kept = settle_outputs spent os balance in if spent o.0 then taken else (o ∷ kept.0, kept.1)

-- `Txid::to_string` is the parameter `to_string`.
module _ (to_string : Txid → List ℕ) where
  unfoldable pub entry_of : MempoolIndex → List Txid → MempoolTx → MempoolEntry
  unfolding unconfirmed_parent
  entry_of self mined tx = record {
    tx_hash = to_string tx.txid;
    height = if unconfirmed_parent self mined tx.spends then 2 ^ 64 - 1 else 0;
    fee = tx.fee;
  }

  -- The order of `entries`: height 0 before -1, then by text.
  unfoldable pub entry_le : MempoolEntry → MempoolEntry → Bool
  entry_le a b =
      if a.height == b.height then bytes_le a.tx_hash b.tx_hash else ltb a.height b.height

  unfoldable pub utxo_le : OutPoint × ℕ → OutPoint × ℕ → Bool
  utxo_le a b =
      if bytes_eq (to_string a.0.txid) (to_string b.0.txid)
      then leb a.0.vout b.0.vout
      else bytes_le (to_string a.0.txid) (to_string b.0.txid)

  unfoldable pub script_view :
      MempoolIndex → ScriptHash → List (OutPoint × ℕ) → List Txid → ScriptMempool
  unfolding entry_of entry_le utxo_le sort_by pay_all settle_confirmed settle_outputs is_spent
  script_view self s confirmed_utxos mined =
      let txs =
        present self (not_mined mined (script_txids self s (map (λ o. o.0) confirmed_utxos))) in
      let outputs = outputs_to s txs in
      let spent = is_spent self mined in
      let confirmed = settle_confirmed spent confirmed_utxos (pay_all outputs 0) in
      let unconfirmed = settle_outputs spent outputs confirmed.1 in
      record {
        entries = sort_by entry_le (map (entry_of self mined) txs);
        balance_delta = unconfirmed.1;
        utxos = sort_by utxo_le unconfirmed.0;
        spent_confirmed = confirmed.0;
      }

  -- `entries`
  unfoldable pub entries : MempoolIndex → ScriptHash → List MempoolEntry
  entries self s =
      map (λ (tx : MempoolTx). record { tx_hash = to_string tx.txid; height = 0; fee = tx.fee })
        (present self (funding_txids self s))

-- `outputs_of`
unfoldable pub outputs_of : MempoolIndex → ScriptHash → List (OutPoint × ℕ)
unfolding sort_by
outputs_of self s =
    sort_by
      (λ a b.
        if bytes_eq a.0.txid b.0.txid then leb a.0.vout b.0.vout else bytes_le a.0.txid b.0.txid)
      (outputs_to s (present self (funding_txids self s)))

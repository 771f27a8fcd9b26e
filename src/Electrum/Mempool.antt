-- ===== src/Electrum/Mempool.antt =====
-- bindex-electrum/src/mempool.rs: the index of the mempool.
use bindex_rs.Common.{
  ℕ, ◌+◌, ◌%◌, ◌^◌, Bool, ◌&&◌, Option, none, some, List, [], ◌∷◌, leb, ◌==◌, if◌then◌else◌,
}
use bindex_rs.Common.{length, take}
use bindex_rs.Common.Bytes.{bytes_eq, bytes_le}
use bindex_rs.Electrum.Maps.{lookup, set, unset, remove_all}
pub mod Loops
pub mod Consistent
pub mod View
pub mod Build
pub mod Poll

abbrev pub Txid : Type 0
Txid = List ℕ

abbrev pub ScriptHash : Type 0
ScriptHash = List ℕ

pub record OutPoint : Type 0 where
  pub txid : Txid
  pub vout : ℕ

unfoldable pub outpoint_eq : OutPoint → OutPoint → Bool
outpoint_eq a b = bytes_eq a.txid b.txid && a.vout == b.vout

pub record Output : Type 0 where
  pub vout : ℕ
  pub scripthash : ScriptHash
  pub value : ℕ

-- Sets and ordered maps are listed in order.
pub record MempoolTx : Type 0 where
  pub txid : Txid
  pub raw : List ℕ
  pub fee : ℕ
  pub vsize : ℕ
  pub ancestor_fees : ℕ
  pub ancestor_vsize : ℕ
  pub time : ℕ
  pub touches : List ScriptHash
  pub spends : List OutPoint
  pub outputs : List Output

pub record RecentTx : Type 0 where
  pub txid : Txid
  pub fee : ℕ
  pub vsize : ℕ
  pub value : ℕ

pub record MempoolIndex : Type 0 where
  pub txs : List (Txid × MempoolTx)
  pub by_scripthash : List (ScriptHash × List Txid)
  pub spent_prevouts : List (OutPoint × Txid)
  pub recent : List RecentTx

-- `BTreeSet::insert`
unfoldable pub insert_txid : Txid → List Txid → List Txid
insert_txid t [] = t ∷ []
insert_txid t (u ∷ us) =
    let rest = insert_txid t us in
    if bytes_eq t u then u ∷ us else (if bytes_le t u then t ∷ u ∷ us else u ∷ rest)

-- The same for a set of outpoints, in their order.
unfoldable pub insert_outpoint : OutPoint → List OutPoint → List OutPoint
insert_outpoint o [] = o ∷ []
insert_outpoint o (p ∷ ps) =
    let rest = insert_outpoint o ps in
    if outpoint_eq o p
    then p ∷ ps
    else (if (if bytes_eq o.txid p.txid then leb o.vout p.vout else bytes_le o.txid p.txid)
        then o ∷ p ∷ ps
        else p ∷ rest)

-- `unwrap_or_default()`
abbrev pub or_empty : Option (List Txid) → List Txid
or_empty none = []
or_empty (some txids) = txids

-- `get(..).cloned().unwrap_or_default()`
unfoldable pub txids_of : ScriptHash → List (ScriptHash × List Txid) → List Txid
unfolding lookup
txids_of s by = or_empty (lookup bytes_eq s by)

-- The loops of `insert`.
unfoldable pub add_touches :
    Txid → List ScriptHash → List (ScriptHash × List Txid) → List (ScriptHash × List Txid)
unfolding txids_of insert_txid
add_touches t [] by = by
add_touches t (s ∷ ss) by = add_touches t ss (set bytes_eq s (insert_txid t (txids_of s by)) by)

unfoldable pub add_spends : Txid → List OutPoint → List (OutPoint × Txid) → List (OutPoint × Txid)
add_spends t [] spent = spent
add_spends t (o ∷ os) spent = add_spends t os (set outpoint_eq o t spent)

unfoldable pub insert : MempoolIndex → MempoolTx → MempoolIndex
unfolding add_touches add_spends
insert self tx = record {
  txs = set bytes_eq tx.txid tx self.txs;
  by_scripthash = add_touches tx.txid tx.touches self.by_scripthash;
  spent_prevouts = add_spends tx.txid tx.spends self.spent_prevouts;
  recent = self.recent;
}

-- One script of the loop of `remove`.
unfoldable pub drop_touch :
    Txid → ScriptHash → List (ScriptHash × List Txid) → List (ScriptHash × List Txid)
drop_touch t s by = elim (lookup bytes_eq s by) [
  | none ↦ by
  | some txids ↦ elim (remove_all bytes_eq t txids) [
    | [] ↦ unset bytes_eq s by
    | u ∷ us ↦ set bytes_eq s (u ∷ us) by
  ]
]

unfoldable pub drop_touches :
    Txid → List ScriptHash → List (ScriptHash × List Txid) → List (ScriptHash × List Txid)
unfolding drop_touch
drop_touches t [] by = by
drop_touches t (s ∷ ss) by = drop_touches t ss (drop_touch t s by)

unfoldable pub drop_spends : List OutPoint → List (OutPoint × Txid) → List (OutPoint × Txid)
drop_spends [] spent = spent
drop_spends (o ∷ os) spent = drop_spends os (unset outpoint_eq o spent)

-- The transaction that `remove` returns, and the index that it leaves.
unfoldable pub remove : MempoolIndex → Txid → Option MempoolTx × MempoolIndex
unfolding drop_touches drop_spends
remove self txid = elim (lookup bytes_eq txid self.txs) [
  | none ↦ (none, self)
  | some tx ↦ (
    some tx,
    record {
      txs = unset bytes_eq txid self.txs;
      by_scripthash = drop_touches txid tx.touches self.by_scripthash;
      spent_prevouts = drop_spends tx.spends self.spent_prevouts;
      recent = self.recent;
    },
  )
]

unfoldable pub insert_all : MempoolIndex → List MempoolTx → MempoolIndex
unfolding insert
insert_all self [] = self
insert_all self (tx ∷ txs) = insert_all (insert self tx) txs

unfoldable pub replace_all : MempoolIndex → List MempoolTx → MempoolIndex
unfolding insert_all
replace_all self txs =
    insert_all (record { txs = []; by_scripthash = []; spent_prevouts = []; recent = self.recent })
      txs

unfoldable pub spender : MempoolIndex → OutPoint → Option Txid
spender self outpoint = lookup outpoint_eq outpoint self.spent_prevouts

unfoldable pub funding_txids : MempoolIndex → ScriptHash → List Txid
unfolding txids_of
funding_txids self scripthash = txids_of scripthash self.by_scripthash

unfoldable pub get : MempoolIndex → Txid → Option MempoolTx
get self txid = lookup bytes_eq txid self.txs

-- `push_recent`: the newest first, and no more than `cap`.
unfoldable pub push_recent : MempoolIndex → RecentTx → ℕ → MempoolIndex
push_recent self entry cap = record {
  txs = self.txs;
  by_scripthash = self.by_scripthash;
  spent_prevouts = self.spent_prevouts;
  recent = take cap (entry ∷ self.recent);
}

-- `totals`: count, size and fees, the two sums in a `u64`.
unfoldable pub sums : List (Txid × MempoolTx) → ℕ × ℕ
sums [] = (0, 0)
sums ((t, tx) ∷ txs) =
    let rest = sums txs in ((tx.vsize + rest.0) % 2 ^ 64, (tx.fee + rest.1) % 2 ^ 64)

unfoldable pub totals : MempoolIndex → ℕ × ℕ × ℕ
unfolding sums
totals self = (length self.txs, (sums self.txs).0, (sums self.txs).1)

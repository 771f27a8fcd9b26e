-- ===== src/Tests/Electrum.antt =====
-- The server's logic at concrete inputs.
use bindex_rs.Common.{
  inr, ℕ, ◌+◌, ◌%◌, ◌^◌, ◌≤◌, ◌≡◌, refl, true, false, none, some, List, [], ◌∷◌, arith,
}
use bindex_rs.Common.{ok, replicate}
use bindex_rs.Common.Bytes.{bytes_eq}
use bindex_rs.Electrum.Maps.{has, lookup}
use bindex_rs.Electrum.Merkle.{Proof, branch_and_root}
use bindex_rs.Electrum.Merkle.Root.{fold_branch, root_of, branch_and_root_lem}
use bindex_rs.Electrum.Mempool.{OutPoint, Txid, MempoolTx, MempoolIndex, txids_of, insert, remove}
use bindex_rs.Electrum.Mempool.Consistent.{
  IsConsistent, listed, touching, spending, insert-IsConsistent, remove-IsConsistent,
}
use bindex_rs.Electrum.Mempool.{outpoint_eq}
use bindex_rs.Electrum.Fold.{ParsedTx, Fold, empty_fold, apply_parsed}
use bindex_rs.Chain.Reads.{TxBytesRef}
use bindex_rs.Electrum.Fold.Balance.{live_total, Spendable, apply_parsed_balance}
use bindex_rs.Common.Bytes.{bytes_eq}
use bindex_rs.Electrum.Mempool.Build.{MempoolEntryInfo, build_tx}
use bindex_rs.Electrum.Mempool.Build.Built.{IsBuilt, build_tx_lem}
use bindex_rs.Electrum.ScriptCache.{CachedScript, ScriptCache, put}
use bindex_rs.Electrum.ScriptCache.Bounded.{IsCounted, put-IsCounted}

-- A sum in the place of a hash.
sum : List ℕ → List ℕ
sum [] = 0 ∷ []
sum (b ∷ bs) = (b + 1) ∷ bs

abbrev leaves : List (List ℕ)
leaves = (1 ∷ []) ∷ (2 ∷ []) ∷ (3 ∷ []) ∷ []

branch_and_root_lem_example :
    (proof : Proof) × (branch_and_root sum leaves 2 ≡ some (ok proof))
    × (fold_branch sum (3 ∷ []) 2 proof.branch ≡ proof.root)
    × (proof.root ≡ root_of sum 3 leaves)
branch_and_root_lem_example = branch_and_root_lem sum leaves 2 (3 ∷ []) refl

abbrev no_txs : MempoolIndex
no_txs = record { txs = []; by_scripthash = []; spent_prevouts = []; recent = [] }

no_txs-IsConsistent : IsConsistent no_txs
unfolding listed touching spending has lookup txids_of
no_txs-IsConsistent = record {
  scripts = λ s t. refl;
  spends = λ o t. (λ h. absurd (none_ne h), λ h. absurd (false_ne h));
}
  where
    none_ne : {t : Txid} → ¬ (none ≡ some t)
    none_ne e = cc

    false_ne : ¬ (false ≡ true)
    false_ne e = cc

abbrev tx : MempoolTx
tx = record {
  txid = 7 ∷ [];
  raw = [];
  fee = 10;
  vsize = 100;
  ancestor_fees = 10;
  ancestor_vsize = 100;
  time = 1;
  touches = (1 ∷ []) ∷ (2 ∷ []) ∷ [];
  spends = record { txid = 5 ∷ []; vout = 0 } ∷ [];
  outputs =
      record { vout = 0; scripthash = 1 ∷ []; value = 30 }
      ∷ record { vout = 1; scripthash = 2 ∷ []; value = 40 }
      ∷ [];
}

insert-IsConsistent_example : IsConsistent (insert no_txs tx)
insert-IsConsistent_example =
    insert-IsConsistent no_txs tx no_txs-IsConsistent (unfold lookup in refl)
      (λ o h. unfold lookup in refl)

one_tx-IsConsistent : IsConsistent (insert no_txs tx)
one_tx-IsConsistent =
    insert-IsConsistent no_txs tx no_txs-IsConsistent (unfold lookup in refl)
      (λ o h. unfold lookup in refl)

remove-IsConsistent_example : IsConsistent (remove (insert no_txs tx) (7 ∷ [])).1
remove-IsConsistent_example = remove-IsConsistent (insert no_txs tx) (7 ∷ []) one_tx-IsConsistent

abbrev confirmed : List (OutPoint × ℕ)
confirmed = (record { txid = 5 ∷ []; vout = 0 }, 100) ∷ []

abbrev reference : TxBytesRef
reference = record {
  block_hash = 7 ∷ [];
  block_height = 2;
  block_position = 1;
  offset = 81;
  size = 200;
}

abbrev cached : CachedScript
unfolding empty_fold
cached = record { refs = replicate 4 reference; fold = empty_fold; history = empty_fold.history }

-- A cache of ten references with two scripts of four each.
abbrev cache : ScriptCache
cache = record {
  entries =
      (1 ∷ [], record { cached = cached; used = 1 })
      ∷ (2 ∷ [], record { cached = cached; used = 2 })
      ∷ [];
  refs = 8;
  max_refs = 10;
  clock = 2;
}

cache-IsCounted : IsCounted cache
unfolding lookup bytes_eq cached
cache-IsCounted = record { distinct = (refl, (refl, tt)); counted = refl }

put-IsCounted_example :
    IsCounted (put cache (3 ∷ []) cached)
    × ((put cache (3 ∷ []) cached).refs ≤ (put cache (3 ∷ []) cached).max_refs)
    × ((put cache (3 ∷ []) cached).max_refs ≡ 10)
put-IsCounted_example =
    put-IsCounted cache (3 ∷ []) cached cache-IsCounted (omega arith) (omega arith)

abbrev parsed : ParsedTx
parsed = record {
  txid = 9 ∷ [];
  inputs = record { txid = 5 ∷ []; vout = 0 } ∷ [];
  outputs =
      record { script_pubkey = 1 ∷ []; value = 30 }
      ∷ record { script_pubkey = 2 ∷ []; value = 12 }
      ∷ [];
  weight = 400;
}

abbrev info : MempoolEntryInfo
info = record { fee = 3; vsize = 101; ancestor_fees = 3; ancestor_vsize = 101; time = 5 }

build_tx_lem_example :
    (m : MempoolTx) × (build_tx (λ s. s) (λ raw. ok parsed) (1 ∷ []) info ≡ ok m)
    × (m.raw ≡ 1 ∷ [])
    × IsBuilt (λ s. s) parsed m
build_tx_lem_example =
    build_tx_lem (λ s. s) (λ raw. ok parsed) (1 ∷ []) info parsed refl (omega arith)

-- A fold that holds one output of 45.
abbrev fold : Fold
fold = record {
  history = record {
    rows = [];
    utxos = [];
    funded_txo_count = 1;
    funded_txo_sum = 45;
    spent_txo_count = 0;
    spent_txo_sum = 0;
    peak_live_utxos = 1;
  };
  funded = (record { txid = 5 ∷ []; vout = 0 }, 45) ∷ [];
  live =
      (
        record { txid = 5 ∷ []; vout = 0 },
        record {
          outpoint = record { txid = 5 ∷ []; vout = 0 };
          value = 45;
          height = 1;
          position = 0;
        },
      )
      ∷ [];
}

not_live : (v : ℕ) → lookup outpoint_eq (record { txid = 9 ∷ []; vout = v }) fold.live ≡ none
unfolding lookup outpoint_eq bytes_eq
not_live v = refl

spendable : Spendable fold.funded fold.live parsed.inputs
unfolding lookup outpoint_eq bytes_eq
spendable = inr (
  record { outpoint = record { txid = 5 ∷ []; vout = 0 }; value = 45; height = 1; position = 0 },
  refl,
  refl,
  tt,
)

apply_parsed_balance_example :
    ((apply_parsed (λ s. s) fold (1 ∷ []) reference parsed).history.spent_txo_sum
        + live_total (apply_parsed (λ s. s) fold (1 ∷ []) reference parsed).live)
      % 2 ^ 64
    ≡ (apply_parsed (λ s. s) fold (1 ∷ []) reference parsed).history.funded_txo_sum % 2 ^ 64
apply_parsed_balance_example =
    apply_parsed_balance (λ s. s) (1 ∷ []) reference fold parsed (omega arith)
      (unfold lookup in (refl, tt)) spendable not_live (omega arith)

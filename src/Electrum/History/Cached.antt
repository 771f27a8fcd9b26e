-- ===== src/Electrum/History/Cached.antt =====
-- `ChainAdapter::script_history` of bindex-electrum/src/chain.rs: a script's history, folded on from
-- the cached fold where the index still lists what that one was built from.
use bindex_rs.Common.{
  ℕ, zero, suc, Bool, Option, none, some, List, [], ◌∷◌, ◌++◌, ◌==◌, if◌then◌else◌,
}
use bindex_rs.Common.{length, drop, chunks, slice_from}
use bindex_rs.Common.{chain_moved, Outcome, ok, err, panic, ◌>>=◌}
use bindex_rs.Common.Bytes.{bytes_eq}
use bindex_rs.Index.TxPos.{VarInt}
use bindex_rs.Index.Visit.{Parser}
use bindex_rs.Db.Store.{Store}
use bindex_rs.Headers
use bindex_rs.Chain.{IndexedChain}
use bindex_rs.Chain.Reads.{TxBytesRef}
use bindex_rs.Electrum.Mempool.{ScriptHash}
use bindex_rs.Electrum.Fold.{ParsedTx, Fold, ScriptHistory, empty_fold, apply, finish}
use bindex_rs.Electrum.ScriptCache.{CachedScript, ScriptCache, get, put}
use bindex_rs.Electrum.History.{begins_with, script_refs, BlockPart, fetch_bodies}

-- What a round of a query meets: the index at its start and at its end, which refreshes may have
-- moved between, whether the deadline has passed before the i-th batch, and the node.
pub record Round (v : VarInt) (p : Parser) (s : Store) : Type 0 where
  pub at_start : IndexedChain v p s
  pub at_end : IndexedChain v p s
  pub expired : ℕ → Bool
  pub block_part : BlockPart

-- Whether the cached history is the answer, or which fold is continued from which reference.
pub data Resume : Type 0 where
  answer : ScriptHistory → Resume
  fold_on : Fold → ℕ → Resume

unfoldable pub resume : List TxBytesRef → Option CachedScript → Resume
unfolding begins_with
resume refs none = fold_on empty_fold 0
resume refs (some cached) =
    if begins_with refs cached.refs
    then (if length refs == length cached.refs
        then answer cached.history
        else fold_on cached.fold (length cached.refs))
    else fold_on empty_fold 0

module _ (v : VarInt) (p : Parser) (s : Store) where
  -- The loop over the batches, from the i-th on.
  unfoldable pub fetch_batches : Round v p s → ℕ → List (List TxBytesRef) → Outcome (List (List ℕ))
  unfolding fetch_bodies
  fetch_batches r i [] = ok []
  fetch_batches r i (batch ∷ batches) = do
    bodies ← fetch_bodies r.block_part (r.expired i) batch
    rest ← fetch_batches r (suc i) batches
    ok (bodies ++ rest)

  -- The bodies of `&refs[start..]`, in batches of `FETCH_BATCH`.
  unfoldable pub fetch_tail : Round v p s → List TxBytesRef → ℕ → Outcome (List (List ℕ))
  unfolding fetch_batches
  fetch_tail r refs start = do
    tail ← slice_from start refs
    fetch_batches r 0 (chunks 512 512 [] tail)

  module _ (parse_tx : List ℕ → Outcome ParsedTx) (from_script : List ℕ → ScriptHash) where
    -- The loop over `tail.iter().zip(&bodies)`.
    unfoldable pub apply_all : Fold → ScriptHash → List TxBytesRef → List (List ℕ) → Outcome Fold
    unfolding apply
    apply_all fold scripthash [] raws = ok fold
    apply_all fold scripthash (r ∷ refs) [] = ok fold
    apply_all fold scripthash (r ∷ refs) (raw ∷ raws) = do
      next ← apply from_script parse_tx fold scripthash r raw
      apply_all next scripthash refs raws

    -- The end of a round: an error, or the history, which goes into the cache.
    unfoldable pub settle :
        ScriptCache
        → ScriptHash
        → List TxBytesRef
        → Outcome Fold
        → Option (Outcome ScriptHistory) × ScriptCache
    unfolding put finish
    settle cache scripthash refs (err e) = (some (err e), cache)
    settle cache scripthash refs panic = (some panic, cache)
    settle cache scripthash refs (ok fold) = (
      some (ok (finish fold)),
      put cache scripthash (record { refs = refs; fold = fold; history = finish fold }),
    )

    unfoldable pub fold_tail :
        Round v p s
        → ScriptCache
        → ScriptHash
        → List ℕ
        → List TxBytesRef
        → Resume
        → Option (Outcome ScriptHistory) × ScriptCache
    unfolding settle fetch_tail apply_all
    fold_tail r cache scripthash tip refs (answer history) = (some (ok history), cache)
    fold_tail r cache scripthash tip refs (fold_on fold start) = elim (fetch_tail r refs start) [
      | err e ↦ (some (err e), cache)
      | panic ↦ (some panic, cache)
      | ok bodies ↦
          if bytes_eq (Headers.tip_hash r.at_end.headers) tip
          then settle cache scripthash refs (apply_all fold scripthash (drop start refs) bodies)
          else (none, cache)
    ]

    -- A round: `none` when the chain moved under it.
    unfoldable pub history_round :
        Round v p s → ScriptCache → ScriptHash → Option (Outcome ScriptHistory) × ScriptCache
    unfolding resume fold_tail get
    history_round r cache scripthash = elim (script_refs v p s r.at_start scripthash none) [
      | err e ↦ (some (err e), cache)
      | panic ↦ (some panic, cache)
      | ok (tip, refs) ↦
          fold_tail r (get cache scripthash).1 scripthash tip refs
            (resume refs (get cache scripthash).0)
    ]

    unfoldable pub history_rounds :
        (ℕ → Round v p s) → ℕ → ℕ → ScriptCache → ScriptHash → Outcome ScriptHistory × ScriptCache
    unfolding history_round
    history_rounds rounds zero i cache scripthash = (err chain_moved, cache)
    history_rounds rounds (suc retries) i cache scripthash =
        let rest =
          history_rounds rounds retries (suc i) (history_round (rounds i) cache scripthash).1
            scripthash in
        elim (history_round (rounds i) cache scripthash).0 [
          | some result ↦ (result, (history_round (rounds i) cache scripthash).1)
          | none ↦ rest
        ]

    -- `script_history`: `rounds i` is what its i-th round meets, of `REORG_RETRIES`.
    unfoldable pub script_history :
        (ℕ → Round v p s) → ScriptCache → ScriptHash → Outcome ScriptHistory × ScriptCache
    unfolding history_rounds
    script_history rounds cache scripthash = history_rounds rounds 3 0 cache scripthash

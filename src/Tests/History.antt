-- ===== src/Tests/History.antt =====
-- The queries over a script's transactions on a small index.
use bindex_rs.Common.{
  ℕ, ◌+◌, ◌<◌, ◌≡◌, refl, sym, ◌≢◌, inl, inr, Bool, true, false, Option, none, some, List, [], ◌∷◌,
  arith, ◌==◌, if◌then◌else◌, ok_inj,
}
use bindex_rs.Common.{length, replicate}
use bindex_rs.Common.{malformed, deadline_passed, Outcome, ok, err, panic}
use bindex_rs.Common.Bytes.{bytes_eq}
use bindex_rs.Db.Store.{script_hash, txpos, put}
use bindex_rs.Headers
use bindex_rs.Chain.{IndexedChain}
use bindex_rs.Chain.Reads.{TxBytesRef}
use bindex_rs.Electrum.Mempool.{ScriptHash, OutPoint}
use bindex_rs.Electrum.Fold.{ParsedTx, Fold, ScriptHistory, empty_fold, finish}
use bindex_rs.Electrum.ScriptCache.{ScriptCache}
use bindex_rs.Electrum.History.{script_refs, BlockPart, fetch_body, fetch_each, fetch_bodies}
use bindex_rs.Electrum.History.Fetched.{Serves, fetch_bodies-eq-fetch_each}
use bindex_rs.Electrum.History.Cached.{Round, script_history}
use bindex_rs.Electrum.History.Sound.{whole_fold, IsSound}
use bindex_rs.Electrum.History.Refines.{IsListed, script_history_refines, script_history-IsSound}
use bindex_rs.Electrum.History.Answered.{IsCalm, script_history_answers}
use bindex_rs.Electrum.History.Spender.{Spender, find_spender}
use bindex_rs.Electrum.History.Spender.Found.{IsAnswer, find_spender_finds}
use bindex_rs.Tests.Data.{parser, var_int}
use bindex_rs.Tests.Store.{log_store}
use bindex_rs.Tests.Headers.{two_blocks}

abbrev script : ScriptHash
script = replicate 32 7

-- Transactions 0 and 2 touch the script; the rows of positions are one for each block.
stored : log_store.Db
unfolding log_store
stored =
    put script_hash (7 ∷ 7 ∷ 7 ∷ 7 ∷ 7 ∷ 7 ∷ 7 ∷ 7 ∷ 0 ∷ 0 ∷ 0 ∷ 0 ∷ []) []
    ∷ put script_hash (7 ∷ 7 ∷ 7 ∷ 7 ∷ 7 ∷ 7 ∷ 7 ∷ 7 ∷ 0 ∷ 0 ∷ 0 ∷ 2 ∷ []) []
    ∷ put txpos (0 ∷ 0 ∷ 0 ∷ 0 ∷ []) (1 ∷ 10 ∷ 81 ∷ 0 ∷ [])
    ∷ put txpos (0 ∷ 0 ∷ 0 ∷ 3 ∷ []) (3 ∷ 20 ∷ 81 ∷ 0 ∷ 0 ∷ 0 ∷ [])
    ∷ []

abbrev chain : IndexedChain var_int parser log_store
chain = record { genesis_hash = replicate 32 1; headers = two_blocks; store = stored }

abbrev funding : TxBytesRef
funding = record {
  block_hash = replicate 32 1;
  block_height = 0;
  block_position = 0;
  offset = 81;
  size = 10;
}

abbrev spending : TxBytesRef
spending = record {
  block_hash = replicate 32 2;
  block_height = 1;
  block_position = 1;
  offset = 101;
  size = 20;
}

-- The bytes of a part are its place.
abbrev block_part : BlockPart
block_part hash offset size = ok (offset ∷ size ∷ [])

abbrev body : TxBytesRef → List ℕ
body r = r.offset ∷ r.size ∷ []

-- One transaction pays the script 50, another one spends that.
abbrev parse_tx : List ℕ → Outcome ParsedTx
parse_tx raw =
    if bytes_eq raw (81 ∷ 10 ∷ [])
    then ok (record {
      txid = 3 ∷ [];
      inputs = [];
      outputs = record { script_pubkey = script; value = 50 } ∷ [];
      weight = 400;
    })
    else (if bytes_eq raw (101 ∷ 20 ∷ [])
        then ok (record {
          txid = 4 ∷ [];
          inputs = record { txid = 8 ∷ []; vout = 1 } ∷ record { txid = 3 ∷ []; vout = 0 } ∷ [];
          outputs = record { script_pubkey = []; value = 49 } ∷ [];
          weight = 400;
        })
        else err malformed)

abbrev round : Round var_int parser log_store
round = record { at_start = chain; at_end = chain; expired = λ i. false; block_part = block_part }

fold_of : List TxBytesRef → Fold
fold_of refs = elim (whole_fold parse_tx (λ s. s) body script empty_fold refs) [
  | ok f ↦ f
  | err e ↦ empty_fold
  | panic ↦ empty_fold
]

one_folded :
    whole_fold parse_tx (λ s. s) body script empty_fold (funding ∷ []) ≡ ok (fold_of (funding ∷ []))
unfolding fold_of whole_fold bindex_rs.Electrum.Fold.apply bytes_eq
one_folded = refl

-- A cache with the fold over the first transaction.
cache : ScriptCache
unfolding empty_fold
cache = record {
  entries =
      (
        script,
        record {
          cached = record {
            refs = funding ∷ [];
            fold = fold_of (funding ∷ []);
            history = finish (fold_of (funding ∷ []));
          };
          used = 1;
        },
      )
      ∷ [];
  refs = 1;
  max_refs = 10;
  clock = 1;
}

cache-IsSound : IsSound parse_tx (λ s. s) body cache
unfolding cache
cache-IsSound = (record { folded = one_folded; finished = refl }, tt)

listed :
    script_refs var_int parser log_store chain script none
    ≡ ok (Headers.tip_hash two_blocks, funding ∷ spending ∷ [])
unfolding stored script_refs log_store bindex_rs.Chain.locations_by_scripthash
    bindex_rs.Db.scan_by_script_hash bindex_rs.Index.Row.new_prefix
    bindex_rs.Electrum.History.to_bindex bindex_rs.Db.scan_loop bindex_rs.Common.Bytes.bytes_le
    bindex_rs.Index.Row.new bindex_rs.Index.TxNum.serialize bindex_rs.Common.Bytes.u32_to_be_bytes
    bindex_rs.Common.Bytes.starts_with bindex_rs.Index.Row.txnum bindex_rs.Common.slice_from
    bindex_rs.Index.TxNum.deserialize bindex_rs.Common.Bytes.u32_from_be_bytes Headers.find_by_txnum
    bindex_rs.Index.TxNum.offset_from bindex_rs.Electrum.Mempool.View.sort_by
    bindex_rs.Chain.Reads.tx_bytes_ref bindex_rs.Chain.locate_all bytes_eq bindex_rs.Common.slice_to
    bindex_rs.Common.Words.add32 bindex_rs.Common.Words.sub32 bindex_rs.Db.Store.cf_eq
    bindex_rs.Db.Store.value_after bindex_rs.Db.get_tx_block_pos bindex_rs.Db.insert_key
    bindex_rs.Db.sort_keys bindex_rs.Electrum.History.dedup bindex_rs.Electrum.History.dedup_after
    bindex_rs.Electrum.History.refs_of bindex_rs.Electrum.Mempool.View.insert_by Headers.all_zeros
    Headers.hash_or_zeros Headers.header_at_height Headers.tip_hash
    bindex_rs.Index.TxPos.checked_sub bindex_rs.Index.TxPos.decode_deltas
    bindex_rs.Index.TxPos.decode_offsets bindex_rs.Index.TxPos.decode_u32
    bindex_rs.Index.TxPos.deserialize bindex_rs.Index.TxPos.get_in_offsets
    bindex_rs.Index.TxPos.get_tx_block_pos bindex_rs.Index.TxPos.to_u32 bindex_rs.Tests.Data.read
listed = refl

serves : Serves body block_part
unfolding fetch_body
serves r raw e = sym (ok_inj e)

calm : IsCalm var_int parser log_store parse_tx (λ s. s) body script round (funding ∷ spending ∷ [])
unfolding fetch_body
calm = record { listed = listed; in_time = λ i. refl; served = (refl, (refl, tt)) }

both_folded :
    whole_fold parse_tx (λ s. s) body script empty_fold (funding ∷ spending ∷ [])
    ≡ ok (fold_of (funding ∷ spending ∷ []))
unfolding fold_of whole_fold bindex_rs.Electrum.Fold.apply bytes_eq
both_folded = refl

answered :
    (script_history var_int parser log_store parse_tx (λ s. s) (λ i. round) cache script).0
    ≡ ok (finish (fold_of (funding ∷ spending ∷ [])))
answered =
    script_history_answers var_int parser log_store parse_tx (λ s. s) body script (λ i. round)
      (funding ∷ spending ∷ []) cache (fold_of (funding ∷ spending ∷ [])) cache-IsSound calm
      both_folded

script_history_answers_example :
    (script_history var_int parser log_store parse_tx (λ s. s) (λ i. round) cache script).0
    ≡ ok (finish (fold_of (funding ∷ spending ∷ [])))
script_history_answers_example =
    script_history_answers var_int parser log_store parse_tx (λ s. s) body script (λ i. round)
      (funding ∷ spending ∷ []) cache (fold_of (funding ∷ spending ∷ [])) cache-IsSound calm
      both_folded

script_history_refines_example :
    (j : ℕ) × (j < 3)
    × IsListed var_int parser log_store parse_tx
        (λ s. s)
        body
        script
        round
        (finish (fold_of (funding ∷ spending ∷ [])))
script_history_refines_example =
    script_history_refines var_int parser log_store parse_tx (λ s. s) body script (λ i. round) cache
      (λ j. serves) cache-IsSound (finish (fold_of (funding ∷ spending ∷ []))) answered

script_history-IsSound_example :
    IsSound parse_tx
      (λ s. s)
      body
      (script_history var_int parser log_store parse_tx (λ s. s) (λ i. round) cache script).1
script_history-IsSound_example =
    script_history-IsSound var_int parser log_store parse_tx (λ s. s) body script (λ i. round) cache
      (λ j. serves) cache-IsSound

never_panics : (r : TxBytesRef) → fetch_body block_part r ≢ panic
unfolding fetch_body
never_panics r e = cc

fetch_bodies-eq-fetch_each_example :
    fetch_bodies block_part false (funding ∷ spending ∷ funding ∷ [])
    ≡ fetch_each block_part (funding ∷ spending ∷ funding ∷ [])
fetch_bodies-eq-fetch_each_example =
    fetch_bodies-eq-fetch_each block_part false (funding ∷ spending ∷ funding ∷ []) never_panics

-- The output that the second transaction spends with its second input.
abbrev paid : OutPoint
paid = record { txid = 3 ∷ []; vout = 0 }

abbrev spender : Spender
spender = record { txid = 4 ∷ []; vin = 1; height = 1; position = 1; block_hash = replicate 32 2 }

found :
    find_spender var_int parser log_store parse_tx (λ i. round) paid script 0 ≡ ok (some spender)
unfolding find_spender stored script_refs log_store bindex_rs.Chain.locations_by_scripthash
    bindex_rs.Db.scan_by_script_hash bindex_rs.Index.Row.new_prefix
    bindex_rs.Electrum.History.to_bindex bindex_rs.Db.scan_loop bindex_rs.Common.Bytes.bytes_le
    bindex_rs.Index.Row.new bindex_rs.Index.TxNum.serialize bindex_rs.Common.Bytes.u32_to_be_bytes
    bindex_rs.Common.Bytes.starts_with bindex_rs.Index.Row.txnum bindex_rs.Common.slice_from
    bindex_rs.Index.TxNum.deserialize bindex_rs.Common.Bytes.u32_from_be_bytes Headers.find_by_txnum
    bindex_rs.Index.TxNum.offset_from bindex_rs.Electrum.Mempool.View.sort_by
    bindex_rs.Chain.Reads.tx_bytes_ref bindex_rs.Chain.locate_all bytes_eq bindex_rs.Common.slice_to
    bindex_rs.Common.Words.add32 bindex_rs.Common.Words.sub32 bindex_rs.Db.Store.cf_eq
    bindex_rs.Db.Store.value_after bindex_rs.Db.get_tx_block_pos bindex_rs.Db.insert_key
    bindex_rs.Db.sort_keys bindex_rs.Electrum.History.dedup bindex_rs.Electrum.History.dedup_after
    bindex_rs.Electrum.History.refs_of bindex_rs.Electrum.Mempool.View.insert_by Headers.all_zeros
    Headers.hash_or_zeros Headers.header_at_height Headers.tip_hash
    bindex_rs.Index.TxPos.checked_sub bindex_rs.Index.TxPos.decode_deltas
    bindex_rs.Index.TxPos.decode_offsets bindex_rs.Index.TxPos.decode_u32
    bindex_rs.Index.TxPos.deserialize bindex_rs.Index.TxPos.get_in_offsets
    bindex_rs.Index.TxPos.get_tx_block_pos bindex_rs.Index.TxPos.to_u32 bindex_rs.Tests.Data.read
    bindex_rs.Electrum.Mempool.outpoint_eq
found = refl

find_spender_finds_example :
    (j : ℕ) × (j < 3)
    × IsAnswer var_int parser log_store parse_tx body paid round script 0 (some spender)
find_spender_finds_example =
    find_spender_finds var_int parser log_store parse_tx body paid (λ i. round) script 0
      (some spender) (λ j. serves) found

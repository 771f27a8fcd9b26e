-- ===== src/Tests/Chain.antt =====
-- The chain over a concrete node, parser and store.
use bindex_rs.Common.{
  ℕ, zero, suc, ◌+◌, ◌-◌, ◌*◌, ◌/◌, ◌%◌, ◌^◌, ◌≤◌, ◌<◌, min, max, ◌≡◌, refl, sym, ap, ◌∙◌, subst,
  ◌≢◌, ◌↔◌, ◌⊎◌, inl, inr, Bool, true, false, not, ◌&&◌, ◌||◌, Option, none, some, List, [], ◌∷◌,
  ◌++◌, map, append_assoc, append-nil, arith, ltb, leb, ◌==◌, some_inj, if◌then◌else◌, ltb→lt,
  lt→ltb, leb→le, le→leb, lt→leb_false, ltb_false→le, ==_iff, ==_refl, tests, Bool-cases,
  Option-cases,
}
use bindex_rs.Common.{
  length, get_elem?, take, drop, replicate, get_last?, head?, without_last, All, length-append,
  length-replicate, take-append_exact, drop-append_exact, take-append-drop, length-take,
  length-drop, get_elem?-append_right, get_elem?-append_left, get_elem?-none, get_elem?-some,
  get_last?-append, without_last-append, get_last?-snoc, get_last?-eq-get_elem?, All-append,
  length-map, slice_to, slice_from, slice, slice_to-append, slice_from-append, slice-append,
}
use bindex_rs.Common.{
  Error, client, not_supported, parse, decode, rocksdb, malformed, leftover, chain_mismatch,
  missing, stale, Outcome, ok, err, panic, ◌>>=◌, ◌>>◌, assert, expect, ok_or, ok_inj, >>=-eq-ok,
  assert-eq-ok, Outcome-cases, expect-eq-ok, ok_or-eq-ok,
}
use bindex_rs.Common.Bytes.{bytes_eq, bytes_le, u32_to_be_bytes, u32_from_be_bytes}
use bindex_rs.Fmt.{bitcoin}
use bindex_rs.Index.Header
use bindex_rs.Index.Header.{IndexedHeader}
use bindex_rs.Index.Batch.{Batch, BlockBytes}
use bindex_rs.Headers.{Headers, all_zeros, tip}
use bindex_rs.Headers.Linked.{IsChain}
use bindex_rs.Db
use bindex_rs.Db.Store.{put, headers}
use bindex_rs.Chain.{
  IndexedChain, fetch_new_headers, index_new, sync, refresh_secondary, all_linked, add_all,
}
use bindex_rs.Chain.Indexing.{
  Node, PerBlockData, Stats, Builder, new_builder, check_windows, index, index_chunks,
}
use bindex_rs.Chain.Linked.{headers_of, hashes_of}
use bindex_rs.Chain.Appended.{index-IsChain}
use bindex_rs.Chain.Sync.{no_stats, fetch_new_headers_ends, index_new_appends, sync_ends}
use bindex_rs.Chain.Refresh.{refresh_secondary_appends}
use bindex_rs.Tests.Data.{zeros, header_bytes, two_txs, two_spent, parser, var_int}
use bindex_rs.Tests.Store.{log_store}
use bindex_rs.Tests.Headers.{
  row0, row1, one_block, two_blocks, one_block-IsChain, two_blocks-IsChain,
}

abbrev block_bytes : BlockBytes
block_bytes = record { bytes = header_bytes (zeros 32) ++ two_txs; header_length = 80 }

-- A node that knows no block after the one that it is asked about.
abbrev node : Node
node = record {
  get_headers = λ hash limit. ok (hash ∷ []);
  get_block_bytes = λ hash. ok block_bytes;
  get_spent_bytes = λ hash. ok two_spent;
}

abbrev two_data : List PerBlockData
two_data =
    record {
      blockhash = replicate 32 5;
      block_bytes = block_bytes;
      spent_bytes = two_spent;
      txs_count = 2;
    }
    ∷ record {
      blockhash = replicate 32 6;
      block_bytes = block_bytes;
      spent_bytes = two_spent;
      txs_count = 2;
    }
    ∷ []

builder : Builder
unfolding new_builder
builder = elim (new_builder (some row1) two_data) [
  | ok b ↦ b
  | err e ↦ record { items = []; tip = [] }
  | panic ↦ record { items = []; tip = [] }
]

builder_ok : new_builder (some row1) two_data ≡ ok builder
unfolding builder new_builder bindex_rs.Index.TxNum.increment_by bindex_rs.Index.TxNum.new_range
builder_ok = refl

abbrev no_blocks : Headers
no_blocks = record { rows = [] }

no_blocks-IsChain : IsChain no_blocks
no_blocks-IsChain = record { linked = tt }

abbrev genesis : List (List ℕ)
genesis = replicate 32 9 ∷ []

empty : log_store.Db
unfolding log_store
empty = []

abbrev fresh : IndexedChain var_int parser log_store
fresh = record { genesis_hash = replicate 32 9; headers = no_blocks; store = empty }

run : Outcome (List Batch × Stats)
run = index parser node no_blocks genesis (no_stats var_int parser log_store fresh)

built : List Batch
unfolding run index
built = elim run [ ok r ↦ r.0 | err e ↦ [] | panic ↦ [] ]

after : Stats
unfolding run index
after = elim run [
  | ok r ↦ r.1
  | err e ↦ record { tip = []; indexed_blocks = 0; size_read = 0 }
  | panic ↦ record { tip = []; indexed_blocks = 0; size_read = 0 }
]

run_ok :
    index parser node no_blocks genesis (no_stats var_int parser log_store fresh)
    ≡ ok (built, after)
unfolding built after run index index_chunks bindex_rs.Chain.Indexing.fetch_data
    bindex_rs.Index.Batch.txs_count slice_from bindex_rs.Index.Batch.parse_txs_count parser
    bindex_rs.Index.TxNum.increment_by tip bindex_rs.Index.TxNum.new_range
    bindex_rs.Index.Batch.build bindex_rs.Index.ScriptHash.index
    bindex_rs.Index.ScriptHash.add_block_rows bindex_rs.Index.ScriptHash.add
    bindex_rs.Index.ScriptHash.add_script bindex_rs.Index.ScriptHash.is_skipped
    bindex_rs.Index.Row.new_prefix bindex_rs.Index.ScriptHash.finish_tx
    bindex_rs.Index.ScriptHash.add_spent_rows bindex_rs.Chain.Indexing.add_stats
    bindex_rs.Chain.Indexing.build bindex_rs.Chain.Indexing.build_items
    bindex_rs.Chain.Indexing.check_parents check_windows bindex_rs.Chain.Indexing.fetch_all
    bindex_rs.Chain.Indexing.last_header new_builder bindex_rs.Chain.Indexing.next_height
    bindex_rs.Chain.Indexing.next_number bindex_rs.Chain.Indexing.number_items bytes_eq bytes_le
    u32_from_be_bytes u32_to_be_bytes slice_to bindex_rs.Common.Words.add32
    bindex_rs.Fmt.prev_blockhash all_zeros bindex_rs.Headers.hash_or_zeros
    bindex_rs.Headers.tip_hash bindex_rs.Index.Batch.header Header.from_block
    bindex_rs.Index.Row.new bindex_rs.Index.ScriptHash.visit
    bindex_rs.Index.ScriptHash.visit_outputs bindex_rs.Index.ScriptHash.visit_spent
    bindex_rs.Index.ScriptHash.visit_txs bindex_rs.Index.TxId.index bindex_rs.Index.TxId.visit
    bindex_rs.Index.TxNum.adjacent bindex_rs.Index.TxNum.offset_from bindex_rs.Index.TxNum.serialize
    bindex_rs.Index.TxPos.check_positions bindex_rs.Index.TxPos.chunk_row
    bindex_rs.Index.TxPos.chunk_rows bindex_rs.Index.TxPos.chunkify bindex_rs.Index.TxVisit.index
    bindex_rs.Index.TxVisit.visit bindex_rs.Index.Visit.visit_all
run_ok = refl

index-IsChain_example :
    IsChain (record { rows = no_blocks.rows ++ headers_of built })
    × (hashes_of (headers_of built) ≡ genesis)
    × (add_all no_blocks (headers_of built)
        ≡ ok (record { rows = no_blocks.rows ++ headers_of built }))
index-IsChain_example =
    index-IsChain parser node no_blocks genesis built (no_stats var_int parser log_store fresh)
      after no_blocks-IsChain (omega arith) run_ok

stored : log_store.Db
unfolding log_store Db.write
stored = elim (Db.write bitcoin var_int log_store empty built) [
  | ok db ↦ db
  | err e ↦ empty
  | panic ↦ empty
]

stored_ok : Db.write bitcoin var_int log_store empty built ≡ ok stored
unfolding stored Db.write Db.batch_ops Db.serialize_rows log_store built run index index_chunks
    bindex_rs.Chain.Indexing.fetch_data bindex_rs.Index.Batch.txs_count slice_from
    bindex_rs.Index.Batch.parse_txs_count parser bindex_rs.Index.TxNum.increment_by tip
    bindex_rs.Index.TxNum.new_range bindex_rs.Index.Batch.build bindex_rs.Index.ScriptHash.index
    bindex_rs.Index.ScriptHash.add_block_rows bindex_rs.Index.ScriptHash.add
    bindex_rs.Index.ScriptHash.add_script bindex_rs.Index.ScriptHash.is_skipped
    bindex_rs.Index.Row.new_prefix bindex_rs.Index.ScriptHash.finish_tx
    bindex_rs.Index.ScriptHash.add_spent_rows bindex_rs.Chain.Indexing.add_stats
    bindex_rs.Chain.Indexing.build bindex_rs.Chain.Indexing.build_items
    bindex_rs.Chain.Indexing.check_parents check_windows bindex_rs.Chain.Indexing.fetch_all
    bindex_rs.Chain.Indexing.last_header new_builder bindex_rs.Chain.Indexing.next_height
    bindex_rs.Chain.Indexing.next_number bindex_rs.Chain.Indexing.number_items bytes_eq bytes_le
    u32_from_be_bytes u32_to_be_bytes slice_to bindex_rs.Common.Words.add32
    bindex_rs.Fmt.prev_blockhash all_zeros bindex_rs.Headers.hash_or_zeros
    bindex_rs.Headers.tip_hash bindex_rs.Index.Batch.header Header.from_block
    bindex_rs.Index.Row.new bindex_rs.Index.ScriptHash.visit
    bindex_rs.Index.ScriptHash.visit_outputs bindex_rs.Index.ScriptHash.visit_spent
    bindex_rs.Index.ScriptHash.visit_txs bindex_rs.Index.TxId.index bindex_rs.Index.TxId.visit
    bindex_rs.Index.TxNum.adjacent bindex_rs.Index.TxNum.offset_from bindex_rs.Index.TxNum.serialize
    bindex_rs.Index.TxPos.check_positions bindex_rs.Index.TxPos.chunk_row
    bindex_rs.Index.TxPos.chunk_rows bindex_rs.Index.TxPos.chunkify bindex_rs.Index.TxVisit.index
    bindex_rs.Index.TxVisit.visit bindex_rs.Index.Visit.visit_all Header.serialize Header.key
    bindex_rs.Index.TxPos.serialize bindex_rs.Index.TxPos.encode Db.insert_key Db.sort_keys
stored_ok = refl

index_new_appends_example :
    (index_new var_int parser log_store node genesis true fresh ≡ (
      ok after,
      record {
        genesis_hash = replicate 32 9;
        headers = record { rows = no_blocks.rows ++ headers_of built };
        store = stored;
      },
    ))
    × IsChain (record { rows = no_blocks.rows ++ headers_of built })
    × (hashes_of (headers_of built) ≡ genesis)
index_new_appends_example =
    index_new_appends var_int parser log_store node genesis true fresh built after stored
      no_blocks-IsChain (omega arith) run_ok stored_ok

abbrev two_chain : IndexedChain var_int parser log_store
two_chain = record { genesis_hash = replicate 32 1; headers = two_blocks; store = empty }

fetch_new_headers_ends_example :
    (result : Outcome (List (List ℕ) × ℕ)) × (self' : IndexedChain var_int parser log_store)
    × (fetch_new_headers var_int parser log_store (λ i. node) 10 two_chain ≡ some (result, self'))
    × IsChain self'.headers
    × (length self'.headers.rows ≤ 2)
fetch_new_headers_ends_example =
    fetch_new_headers_ends var_int parser log_store (λ i. node) 10 two_chain two_blocks-IsChain

one_answer :
    (hash : List ℕ) (hashes : List (List ℕ)) → ok (hash ∷ []) ≡ ok hashes → length hashes ≤ 0 + 1
one_answer hash hashes e = omega (arith, ap length (ok_inj e))

sync_ends_example :
    (result : Outcome Stats) × (self' : IndexedChain var_int parser log_store) × (sync var_int
        parser log_store
        (λ i. node)
        node
        0
        true
        two_chain
      ≡ some (result, self'))
    × IsChain self'.headers
sync_ends_example =
    sync_ends var_int parser log_store (λ i. node) node 0 true two_chain two_blocks-IsChain
      (λ i hash hashes e. one_answer hash hashes e) (omega arith)

-- The primary's rows of both blocks, for a secondary that has read the first.
primary : log_store.Db
unfolding log_store
primary =
    put headers (Header.serialize bitcoin row0 (header_bytes (zeros 32))).0
      (Header.serialize bitcoin row0 (header_bytes (zeros 32))).1
    ∷ put headers (Header.serialize bitcoin row1 (header_bytes (replicate 32 1))).0
        (Header.serialize bitcoin row1 (header_bytes (replicate 32 1))).1
    ∷ []

abbrev secondary : IndexedChain var_int parser log_store
secondary = record { genesis_hash = replicate 32 1; headers = one_block; store = empty }

rows_read :
    Db.headers_from bitcoin log_store primary (Header.key bitcoin row0) 0 ≡ ok (row0 ∷ row1 ∷ [])
unfolding primary log_store Db.headers_from Header.serialize Header.deserialize Header.key slice_to
    slice_from bytes_le bindex_rs.Index.TxNum.serialize u32_to_be_bytes
    bindex_rs.Index.TxNum.deserialize u32_from_be_bytes bindex_rs.Fmt.prev_blockhash
rows_read = refl

refresh_secondary_appends_example :
    (refresh_secondary var_int parser log_store (ok primary) secondary ≡ (
      ok tt,
      record {
        genesis_hash = replicate 32 1;
        headers = record { rows = one_block.rows ++ row1 ∷ [] };
        store = primary;
      },
    ))
    × IsChain (record { rows = one_block.rows ++ row1 ∷ [] })
unfolding bytes_eq
refresh_secondary_appends_example =
    refresh_secondary_appends var_int parser log_store secondary primary row0 row0 (row1 ∷ [])
      one_block-IsChain (unfold tip in refl) rows_read refl (unfold all_linked in refl)

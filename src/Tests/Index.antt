-- ===== src/Tests/Index.antt =====
-- The index of a block of two transactions.
use bindex_rs.Common.{ℕ, ◌+◌, ◌≡◌, refl, some, List, [], ◌∷◌, ◌++◌, map, arith}
use bindex_rs.Common.{replicate, slice_to}
use bindex_rs.Common.{ok}
use bindex_rs.Fmt.{bitcoin, prev_blockhash}
use bindex_rs.Index.TxPos.{TxBlockPosRow, chunkify, get_tx_block_pos}
use bindex_rs.Index.TxPos.Lookup.{Positions, first_from, chunkify_lookup}
use bindex_rs.Index.ScriptHash
use bindex_rs.Index.ScriptHash.Rows.{rows_of}
use bindex_rs.Index.ScriptHash.Spent.{ListsSpent, index-rows_of}
use bindex_rs.Index.TxId.Rows.{txid_rows}
use bindex_rs.Index.TxVisit.{header_size}
use bindex_rs.Index.TxVisit.Positions.{IsVisited, total_size}
use bindex_rs.Index.Batch.{BlockBytes, header, build}
use bindex_rs.Index.Batch.Build.{IsIndexable, build_lem}
use bindex_rs.Tests.Data.{
  zeros, header_bytes, two_txs, two_traces, two_spent, parser, parser-IsHashing,
}

abbrev three_positions : Positions
three_positions =
    (10, record { offset = 81; size = 4 })
    ∷ (11, record { offset = 85; size = 5 })
    ∷ (12, record { offset = 90; size = 6 })
    ∷ []

chunkify_lookup_example :
    (rows : List TxBlockPosRow) × (row : TxBlockPosRow) × (chunkify three_positions ≡ ok rows)
    × (first_from 11 rows ≡ some row)
    × (get_tx_block_pos row 11 ≡ ok (record { offset = 85; size = 5 }))
chunkify_lookup_example =
    chunkify_lookup three_positions 1 (11, record { offset = 85; size = 5 })
      (refl, refl, (refl, refl, tt)) (omega arith, (omega arith, (omega arith, tt))) refl

abbrev block : List ℕ
block = header_bytes (zeros 32) ++ two_txs

abbrev spent_scripts : List (List (List ℕ))
spent_scripts = [] ∷ ((83 ∷ 84 ∷ []) ∷ []) ∷ []

lists_spent : ListsSpent parser two_spent spent_scripts
unfolding parser
lists_spent = (
  1,
  refl,
  (1, 2, omega arith, refl, refl, (1, 6, omega arith, refl, (3, omega arith, refl, refl), refl)),
)

visited : IsVisited parser block 7 two_traces
unfolding parser
visited = record {
  events = refl;
  whole = refl;
  numbers_fit = omega arith;
  offsets_fit = omega arith;
}

index-rows_of_example :
    ScriptHash.index bitcoin parser block two_spent 7
    ≡ ok (record {
      rows =
          rows_of bitcoin parser 7 (map (λ t. t.scripts) two_traces)
          ++ rows_of bitcoin parser 7 spent_scripts;
      txnum = 9;
    })
index-rows_of_example =
    index-rows_of bitcoin parser block two_spent 7 two_traces spent_scripts parser-IsHashing
      (visited.events) (visited.whole) lists_spent refl (omega arith)

abbrev block_bytes : BlockBytes
block_bytes = record { bytes = block; header_length = 80 }

indexable :
    IsIndexable parser block_bytes two_spent 7 two_traces spent_scripts
      (header_bytes (zeros 32))
      (zeros 32)
indexable = record {
  hashing = parser-IsHashing;
  visited = visited;
  ids = (refl, (refl, tt));
  spends = lists_spent;
  same_count = refl;
  header_bytes = unfold header slice_to in refl;
  parent = unfold prev_blockhash in refl;
}

build_lem_example :
    (rows : List TxBlockPosRow) × (row : TxBlockPosRow) × (build parser 5
        (record { first = 7; next = 9; len = 2 })
        (replicate 32 1)
        block_bytes
        two_spent
      ≡ ok (record {
        scripthash_rows =
            rows_of bitcoin parser 7 (map (λ u. u.scripts) two_traces)
            ++ rows_of bitcoin parser 7 spent_scripts;
        txid_rows = txid_rows 7 two_traces;
        txpos_rows = rows;
        header = record {
          height = 5;
          next_txnum = 9;
          hash = replicate 32 1;
          prev_blockhash = zeros 32;
        };
        raw_header = header_bytes (zeros 32);
      }))
    × (first_from 7 rows ≡ some row)
    × (get_tx_block_pos row 7
        ≡ ok (record { offset = header_size + parser.var_int_size 2 + total_size []; size = 3 }))
build_lem_example =
    build_lem parser 5 (replicate 32 1) block_bytes two_spent 7 two_traces spent_scripts
      (header_bytes (zeros 32)) (zeros 32) 0
      (record { scripts = (81 ∷ []) ∷ []; raw = 3 ∷ 81 ∷ 0 ∷ []; txid = replicate 32 81 }) indexable
      refl

-- ===== src/Index/Batch/Build.antt =====
-- `Batch::build` on a well-formed block.
use bindex_rs.Common.{ℕ, ◌+◌, ◌≡◌, some, List, ◌++◌, map, ==_refl}
use bindex_rs.Common.{length, get_elem?, take, All}
use bindex_rs.Common.{ok}
use bindex_rs.Fmt.{bitcoin, prev_blockhash}
use bindex_rs.Index.TxNum.{TxNum}
use bindex_rs.Index.Header
use bindex_rs.Index.TxPos.{TxBlockPosRow, get_tx_block_pos}
use bindex_rs.Index.TxPos.Lookup.{first_from}
use bindex_rs.Index.Visit.{Parser, IsHashing, TxTrace}
use bindex_rs.Index.ScriptHash.Rows.{rows_of}
use bindex_rs.Index.ScriptHash.Spent.{ListsSpent, index-rows_of}
use bindex_rs.Index.TxId.Rows.{txid_rows, index_rows}
use bindex_rs.Index.TxVisit
use bindex_rs.Index.TxVisit.Positions.{IsVisited, total_size, index_lookup}
use bindex_rs.Index.TxVisit.{header_size}
use bindex_rs.Index.Batch.{BlockBytes, header, build}

-- A block that the parser reads whole as `ts`, with the outputs that it spends, one list for each
-- transaction; `raw` is its header, which names the parent `prev`.
pub record IsIndexable (p : Parser) (block : BlockBytes) (spent : List ℕ) (first : TxNum)
    (ts : List TxTrace) (spent_scripts : List (List (List ℕ))) (raw prev : List ℕ) : Type 0 where
  pub hashing : IsHashing p
  pub visited : IsVisited p block.bytes first ts
  pub ids : All (λ t. length t.txid ≡ 32) ts
  pub spends : ListsSpent p spent spent_scripts
  pub same_count : length spent_scripts ≡ length ts
  pub header_bytes : header block ≡ ok raw
  pub parent : prev_blockhash raw ≡ ok prev

-- On a well-formed block, `build` succeeds, whichever transaction number `k` is asked for: the
-- batch has the script and id rows of all transactions and no others, the position rows give the
-- k-th transaction its place in the block, and the header row has the given height and hash, the
-- next number and the parent's hash.
pub build_lem :
    (p : Parser) (height : ℕ) (blockhash : List ℕ) (block : BlockBytes) (spent : List ℕ)
    (first : TxNum) (ts : List TxTrace) (spent_scripts : List (List (List ℕ))) (raw prev : List ℕ)
    (k : ℕ) (t : TxTrace)
    → IsIndexable p block spent first ts spent_scripts raw prev
    → get_elem? ts k ≡ some t
    → (rows : List TxBlockPosRow) × (row : TxBlockPosRow) × (build p height
          (record { first = first; next = first + length ts; len = length ts })
          blockhash
          block
          spent
        ≡ ok (record {
          scripthash_rows =
              rows_of bitcoin p first (map (λ u. u.scripts) ts)
              ++ rows_of bitcoin p first spent_scripts;
          txid_rows = txid_rows first ts;
          txpos_rows = rows;
          header = record {
            height = height;
            next_txnum = first + length ts;
            hash = blockhash;
            prev_blockhash = prev;
          };
          raw_header = raw;
        }))
      × (first_from (first + k) rows ≡ some row)
      × (get_tx_block_pos row (first + k)
          ≡ ok (record {
            offset = header_size + p.var_int_size (length ts) + total_size (take k ts);
            size = length t.raw;
          }))
build_lem p height blockhash block spent first ts spent_scripts raw prev k t b e =
    let v = b.visited in
    let (rows, row, positions, first_row, found) = index_lookup p block.bytes first ts v k t e in
    (rows, row, built rows positions, first_row, found)
  where
    built :
        (rows : List TxBlockPosRow)
        → TxVisit.index p block.bytes first
          ≡ ok (record { next_txnum = first + length ts; rows = rows })
        → build p height
            (record { first = first; next = first + length ts; len = length ts })
            blockhash
            block
            spent
          ≡ ok (record {
            scripthash_rows =
                rows_of bitcoin p first (map (λ u. u.scripts) ts)
                ++ rows_of bitcoin p first spent_scripts;
            txid_rows = txid_rows first ts;
            txpos_rows = rows;
            header = record {
              height = height;
              next_txnum = first + length ts;
              hash = blockhash;
              prev_blockhash = prev;
            };
            raw_header = raw;
          })
    built rows positions =
        unfold build in
        let v = b.visited in
        rw
          (index-rows_of bitcoin p block.bytes spent first ts spent_scripts b.hashing v.events
            v.whole b.spends b.same_count v.numbers_fit)
          (rw positions (
            rw (index_rows p block.bytes first ts v.events v.whole v.numbers_fit b.ids) (
              rw (==_refl (first + length ts)) (
                rw (b.header_bytes) (
                  rw (
                    Header.from_block_ok height (first + length ts) blockhash raw prev
                      b.parent))))))

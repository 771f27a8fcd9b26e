-- ===== src/Chain/Indexing.antt =====
-- `Builder`, `fetch_data` and `index` of bindex-lib/src/chain.rs: from block hashes to batches.
use bindex_rs.Common.{chunks, ℕ, ◌+◌, Option, none, some, List, [], ◌∷◌, ◌++◌, ◌==◌}
use bindex_rs.Common.{length, get_last?}
use bindex_rs.Common.{Outcome, ok, ◌>>=◌, ◌>>◌, assert}
use bindex_rs.Common.Bytes.{bytes_eq}
use bindex_rs.Common.Words.{add32}
use bindex_rs.Index.TxNum
use bindex_rs.Index.TxNum.{TxNum, TxNumRange}
use bindex_rs.Index.Header.{IndexedHeader}
use bindex_rs.Index.Visit.{Parser}
use bindex_rs.Index.Batch
use bindex_rs.Index.Batch.{Batch, BlockBytes}
use bindex_rs.Headers
use bindex_rs.Headers.{Headers, hash_or_zeros}

-- The node, through the client: each call returns what it asks for or fails.
pub record Node : Type 0 where
  pub get_headers : List ℕ → ℕ → Outcome (List (List ℕ))
  pub get_block_bytes : List ℕ → Outcome BlockBytes
  pub get_spent_bytes : List ℕ → Outcome (List ℕ)

pub record PerBlockData : Type 0 where
  pub blockhash : List ℕ
  pub block_bytes : BlockBytes
  pub spent_bytes : List ℕ
  pub txs_count : ℕ

pub record Item : Type 0 where
  pub height : ℕ
  pub range : TxNumRange
  pub block : PerBlockData

-- `tip.map_or(0, |header| header.height() + 1)` and the two defaults beside it.
unfoldable pub next_height : Option IndexedHeader → ℕ
next_height none = 0
next_height (some h) = add32 h.height 1

unfoldable pub next_number : Option IndexedHeader → TxNum
next_number none = 0
next_number (some h) = h.next_txnum

-- The closure of `Builder::new` over the blocks, with its two counters.
unfoldable pub number_items : TxNum → ℕ → List PerBlockData → Outcome (List Item)
number_items next_txnum height [] = ok []
number_items next_txnum height (block ∷ rest) = do
  next ← TxNum.increment_by next_txnum block.txs_count
  range ← TxNum.new_range next_txnum next
  items ← number_items next (add32 height 1) rest
  ok (record { height = height; range = range; block = block } ∷ items)

pub record Builder : Type 0 where
  pub items : List Item
  pub tip : List ℕ

unfoldable pub new_builder : Option IndexedHeader → List PerBlockData → Outcome Builder
unfolding number_items next_number next_height hash_or_zeros
new_builder tip blocks = do
  items ← number_items (next_number tip) (next_height tip) blocks
  ok (record { items = items; tip = hash_or_zeros tip })

-- The checks on `windows(2)`.
unfoldable pub check_windows : List Item → Outcome (Unit {0})
check_windows [] = ok tt
check_windows (a ∷ []) = ok tt
check_windows (a ∷ b ∷ items) = do
  assert (TxNum.adjacent a.range b.range)
  assert (add32 a.height 1 == b.height)
  check_windows (b ∷ items)

-- The parallel map, with the first failure in the order of the blocks.
unfoldable pub build_items : Parser → List Item → Outcome (List Batch)
build_items p [] = ok []
build_items p (i ∷ items) = do
  assert (i.range.len == i.block.txs_count)
  batch ← Batch.build p i.height i.range i.block.blockhash i.block.block_bytes i.block.spent_bytes
  batches ← build_items p items
  ok (batch ∷ batches)

unfoldable pub check_parents : List ℕ → List Batch → Outcome (Unit {0})
check_parents tip [] = ok tt
check_parents tip (b ∷ batches) = do
  assert (bytes_eq tip b.header.prev_blockhash)
  check_parents b.header.hash batches

-- `Builder::build`
unfoldable pub build : Parser → Builder → Outcome (List Batch)
unfolding check_windows build_items check_parents
build p self = do
  check_windows self.items
  batches ← build_items p self.items
  check_parents self.tip batches
  ok batches

-- `fetch_data`
unfoldable pub fetch_data : Parser → Node → List ℕ → Outcome PerBlockData
fetch_data p node blockhash = do
  block_bytes ← node.get_block_bytes blockhash
  spent_bytes ← node.get_spent_bytes blockhash
  txs_count ← Batch.txs_count p block_bytes
  spent_count ← Batch.parse_txs_count p spent_bytes
  assert (txs_count == spent_count)
  ok (record {
    blockhash = blockhash;
    block_bytes = block_bytes;
    spent_bytes = spent_bytes;
    txs_count = txs_count;
  })

unfoldable pub fetch_all : Parser → Node → List (List ℕ) → Outcome (List PerBlockData)
fetch_all p node [] = ok []
fetch_all p node (hash ∷ hashes) = do
  block ← fetch_data p node hash
  rest ← fetch_all p node hashes
  ok (block ∷ rest)

pub record Stats : Type 0 where
  pub tip : List ℕ
  pub indexed_blocks : ℕ
  pub size_read : ℕ

unfoldable pub add_stats : Stats → List PerBlockData → Stats
add_stats stats [] = stats
add_stats stats (item ∷ items) =
    add_stats
      (record {
        tip = item.blockhash;
        indexed_blocks = stats.indexed_blocks + 1;
        size_read = stats.size_read + (length item.block_bytes.bytes + length item.spent_bytes);
      })
      items

unfoldable pub last_header : Headers → List Batch → Option IndexedHeader
last_header headers batches = elim (get_last? batches) [
  | none ↦ Headers.tip headers
  | some b ↦ some b.header
]

-- The loop of `index` over the chunks of the hashes.
unfoldable pub index_chunks :
    Parser
    → Node
    → Headers
    → List Batch
    → Stats
    → List (List (List ℕ))
    → Outcome (List Batch × Stats)
unfolding last_header add_stats fetch_all build new_builder
index_chunks p node headers batches stats [] = ok (batches, stats)
index_chunks p node headers batches stats (chunk ∷ rest) = do
  items ← fetch_all p node chunk
  builder ← new_builder (last_header headers batches) items
  built ← build p builder
  index_chunks p node headers (batches ++ built) (add_stats stats items) rest

unfoldable pub index :
    Parser → Node → Headers → List (List ℕ) → Stats → Outcome (List Batch × Stats)
unfolding index_chunks
index p node headers hashes stats = index_chunks p node headers [] stats (chunks 10 10 [] hashes)

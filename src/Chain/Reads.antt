-- ===== src/Chain/Reads.antt =====
-- Reads of bindex-lib/src/chain.rs that go by height or by location.
use bindex_rs.Common.{
  ℕ, zero, suc, ◌+◌, ◌-◌, min, Option, none, some, List, [], ◌∷◌, ltb, ◌==◌, if◌then◌else◌,
}
use bindex_rs.Common.{head?}
use bindex_rs.Common.{missing, Outcome, ok, ◌>>=◌, expect, ok_or}
use bindex_rs.Fmt.{bitcoin}
use bindex_rs.Index.TxNum
use bindex_rs.Index.TxNum.{TxNum}
use bindex_rs.Index.Header
use bindex_rs.Index.Header.{IndexedHeader}
use bindex_rs.Index.TxPos.{VarInt, TxBlockPos}
use bindex_rs.Index.Visit.{Parser}
use bindex_rs.Db
use bindex_rs.Db.Store.{Store}
use bindex_rs.Headers
use bindex_rs.Headers.{Location}
use bindex_rs.Chain.{IndexedChain}

-- `TxBytesRef` of bindex-lib/src/lib.rs
pub record TxBytesRef : Type 0 where
  pub block_hash : List ℕ
  pub block_height : ℕ
  pub block_position : ℕ
  pub offset : ℕ
  pub size : ℕ

module _ (v : VarInt) (p : Parser) (s : Store) where
  unfoldable pub tx_bytes_ref : IndexedChain v p s → Location → Outcome TxBytesRef
  tx_bytes_ref self location = do
    pos ← Db.get_tx_block_pos s self.store v location.txnum
    ok (record {
      block_hash = location.indexed_header.hash;
      block_height = location.block_height;
      block_position = location.block_offset;
      offset = pos.offset;
      size = pos.size;
    })

  -- `get_tx_bytes`, with the client's `get_block_part`.
  unfoldable pub get_tx_bytes :
      (List ℕ → TxBlockPos → Outcome (List ℕ)) → IndexedChain v p s → Location → Outcome (List ℕ)
  get_tx_bytes get_block_part self location = do
    pos ← Db.get_tx_block_pos s self.store v location.txnum
    get_block_part location.indexed_header.hash pos

  -- The loop of `block_txids_at_height`, with `fmt::txid` as `txid`.
  unfoldable pub txids_from :
      (List ℕ → TxBlockPos → Outcome (List ℕ))
      → (List ℕ → Outcome (List ℕ))
      → IndexedChain v p s
      → ℕ
      → TxNum
      → Outcome (List (List ℕ))
  unfolding get_tx_bytes
  txids_from get_block_part txid self zero txnum = ok []
  txids_from get_block_part txid self (suc count) txnum = do
    location ← Headers.find_by_txnum self.headers txnum
    raw ← get_tx_bytes get_block_part self location
    id ← txid raw
    next ← TxNum.increment_by txnum 1
    ids ← txids_from get_block_part txid self count next
    ok (id ∷ ids)

  unfoldable pub block_txids_at_height :
      (List ℕ → TxBlockPos → Outcome (List ℕ))
      → (List ℕ → Outcome (List ℕ))
      → IndexedChain v p s
      → ℕ
      → Outcome (Option (List (List ℕ)))
  unfolding txids_from
  block_txids_at_height get_block_part txid self height =
      elim (Headers.header_at_height self.headers height) [
        | none ↦ ok none
        | some header ↦ do
          let first =
              (if ltb 0 height
                then (elim (Headers.header_at_height self.headers (height - 1)) [
                  | none ↦ 0
                  | some h ↦ h.next_txnum
                ])
                else 0)
          txs_count ← expect (TxNum.offset_from header.next_txnum first)
          txids ← txids_from get_block_part txid self txs_count first
          ok (some txids)
      ]

  -- The loop of `block_headers_raw` in the Bitcoin build.
  unfoldable pub raw_headers_from : IndexedChain v p s → ℕ → ℕ → Outcome (List (List ℕ))
  raw_headers_from self height zero = ok []
  raw_headers_from self height (suc count) = do
    header ← expect (Headers.header_at_height self.headers height)
    stored ← Db.get_header_value s self.store (Header.key bitcoin header)
    value ← ok_or stored (missing header.hash height)
    raw ← Header.raw_from_value value
    raws ← raw_headers_from self (height + 1) count
    ok (raw ∷ raws)

  unfoldable pub block_headers_raw : IndexedChain v p s → ℕ → ℕ → Outcome (List (List ℕ))
  unfolding raw_headers_from
  block_headers_raw self start count = elim (Headers.header_at_height self.headers start) [
    | none ↦ ok []
    | some first ↦
        let available : ℕ = elim (Headers.tip_height self.headers) [
          | none ↦ 0
          | some tip ↦ tip + 1 - start
        ] in
        if min count available == 0
        then ok []
        else raw_headers_from self start (min count available)
  ]

  unfoldable pub block_header_raw_at_height : IndexedChain v p s → ℕ → Outcome (Option (List ℕ))
  unfolding block_headers_raw
  block_header_raw_at_height self height = do
    raws ← block_headers_raw self height 1
    ok (head? raws)

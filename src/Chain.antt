-- ===== src/Chain.antt =====
-- bindex-lib/src/chain.rs: the indexed chain, which follows the node or a primary's database.
use bindex_rs.Common.{
  ℕ, zero, suc, ◌+◌, Bool, true, ◌&&◌, Option, none, some, List, [], ◌∷◌, map, if◌then◌else◌,
}
use bindex_rs.Common.{length, slice_from}
use bindex_rs.Common.{rocksdb, Outcome, ok, err, panic, ◌>>=◌, ◌>>◌}
use bindex_rs.Common.Bytes.{bytes_eq}
use bindex_rs.Fmt.{bitcoin}
use bindex_rs.Index.TxNum
use bindex_rs.Index.TxNum.{TxNum}
use bindex_rs.Index.Header
use bindex_rs.Index.Header.{IndexedHeader}
use bindex_rs.Index.TxPos.{VarInt}
use bindex_rs.Index.Visit.{Parser}
use bindex_rs.Headers
use bindex_rs.Headers.{Headers, Location, all_zeros}
use bindex_rs.Db
use bindex_rs.Db.Store
pub mod Indexing
pub mod Windows
pub mod Linked
pub mod Appended
pub mod Sync
pub mod Refresh
pub mod Reads
use Indexing.{Node, Stats, index}

-- The rows of `refresh_secondary` hang together.
unfoldable pub all_linked : List IndexedHeader → Bool
all_linked [] = true
all_linked (a ∷ []) = true
all_linked (a ∷ b ∷ rows) = bytes_eq b.prev_blockhash a.hash && all_linked (b ∷ rows)

unfoldable pub add_all : Headers → List IndexedHeader → Outcome Headers
add_all headers [] = ok headers
add_all headers (row ∷ rows) = do next ← Headers.add headers row; add_all next rows

-- The headers that the loop leaves, which stops at the first failure.
unfoldable pub added : Headers → List IndexedHeader → Headers
added headers [] = headers
added headers (row ∷ rows) = elim (Headers.add headers row) [
  | ok next ↦ added next rows
  | err e ↦ headers
  | panic ↦ headers
]

module _ (v : VarInt) (p : Parser) (s : Store.Store) where
  pub record IndexedChain : Type 0 where
    pub genesis_hash : List ℕ
    pub headers : Headers
    pub store : s.Db

  -- `self` with other headers and another store.
  abbrev pub with : IndexedChain → Headers → s.Db → IndexedChain
  with self headers db = record { genesis_hash = self.genesis_hash; headers = headers; store = db }

  -- The end of `drop_tip`, with what the store's `delete` gave.
  unfoldable pub dropped :
      List ℕ → IndexedChain → Headers → Outcome s.Db → Outcome (List ℕ) × IndexedChain
  dropped hash self rest (ok db) = (ok hash, with self rest db)
  dropped hash self rest (err e) = (err e, with self rest self.store)
  dropped hash self rest panic = (panic, with self rest self.store)

  -- `drop_tip`: what it returns, and the chain it leaves, on an error too.
  unfoldable pub drop_tip : Node → IndexedChain → Outcome (List ℕ) × IndexedChain
  unfolding dropped
  drop_tip node self = elim (Headers.pop self.headers).0 [
    | none ↦ (panic, self)
    | some old_tip ↦ dropped old_tip.hash self (Headers.pop self.headers).1 (
        index p node (Headers.pop self.headers).1 (old_tip.hash ∷ [])
          (record { tip = []; indexed_blocks = 0; size_read = 0 })
        >>= λ batches. Db.delete_rows bitcoin v s self.store batches.0)
  ]

  -- The hash to ask the node for, and how many of the hashes it answers with are skipped.
  unfoldable pub fetch_from : IndexedChain → List ℕ × ℕ
  fetch_from self =
      if bytes_eq (Headers.tip_hash self.headers) all_zeros
      then (self.genesis_hash, 0)
      else (Headers.tip_hash self.headers, 1)

  -- The loop of `fetch_new_headers`, at most `fuel` times round (`none` when that is not enough):
  -- `rounds i` is the node at its i-th question.
  unfoldable pub fetch_loop :
      (ℕ → Node) → ℕ → ℕ → ℕ → IndexedChain → Option (Outcome (List (List ℕ) × ℕ) × IndexedChain)
  unfolding drop_tip fetch_from
  fetch_loop rounds zero round limit self = none
  fetch_loop rounds (suc fuel) round limit self =
      elim ((rounds round).get_headers (fetch_from self).0 limit) [
        | err e ↦ some (err e, self)
        | panic ↦ some (panic, self)
        | ok (hash ∷ hashes) ↦ some (ok (hash ∷ hashes, (fetch_from self).1), self)
        | ok [] ↦
            let rest = (drop_tip (rounds round) self).1 in
            elim (drop_tip (rounds round) self).0 [
              | ok dropped ↦
                  if bytes_eq (fetch_from self).0 dropped
                  then fetch_loop rounds fuel (suc round) limit rest
                  else some (panic, rest)
              | err e ↦ some (err e, rest)
              | panic ↦ some (panic, rest)
            ]
      ]

  unfoldable pub fetch_new_headers :
      (ℕ → Node) → ℕ → IndexedChain → Option (Outcome (List (List ℕ) × ℕ) × IndexedChain)
  unfolding fetch_loop
  fetch_new_headers rounds limit self =
      fetch_loop rounds (length self.headers.rows + 1) 0 limit self

  -- The part of `sync` behind `fetch_new_headers`; `upkeep` says whether the `flush` (after
  -- indexed blocks) or the `start_compactions` (after none) at its end succeeds.
  unfoldable pub index_new :
      Node → List (List ℕ) → Bool → IndexedChain → Outcome Stats × IndexedChain
  unfolding add_all added index
  index_new node hashes upkeep self =
      elim (index p node self.headers hashes
        (record { tip = Headers.tip_hash self.headers; indexed_blocks = 0; size_read = 0 })) [
          | err e ↦ (err e, self)
          | panic ↦ (panic, self)
          | ok (batches, stats) ↦ elim (Db.write bitcoin v s self.store batches) [
            | err e ↦ (err e, self)
            | panic ↦ (panic, self)
            | ok db ↦ elim (add_all self.headers (map (λ b. b.header) batches)) [
              | err e ↦ (err e, with self (added self.headers (map (λ b. b.header) batches)) db)
              | panic ↦ (panic, with self (added self.headers (map (λ b. b.header) batches)) db)
              | ok headers ↦ (if upkeep then ok stats else err rocksdb, with self headers db)
            ]
          ]
        ]

  -- `sync`: `node` answers for the blocks.
  unfoldable pub sync :
      (ℕ → Node) → Node → ℕ → Bool → IndexedChain → Option (Outcome Stats × IndexedChain)
  unfolding fetch_new_headers index_new
  sync rounds node limit upkeep self = elim (fetch_new_headers rounds limit self) [
    | none ↦ none
    | some (err e, rest) ↦ some (err e, rest)
    | some (panic, rest) ↦ some (panic, rest)
    | some (ok (hashes, to_skip), rest) ↦ some (elim (slice_from to_skip hashes) [
      | ok new_hashes ↦ index_new node new_hashes upkeep rest
      | err e ↦ (err e, rest)
      | panic ↦ (panic, rest)
    ])
  ]

  unfoldable pub reload : IndexedChain → s.Db → Outcome (Unit {0}) × IndexedChain
  reload self db = elim (Db.all_headers bitcoin s db >>= Headers.new) [
    | ok headers ↦ (ok tt, with self headers db)
    | err e ↦ (err e, with self self.headers db)
    | panic ↦ (panic, with self self.headers db)
  ]

  -- `refresh_secondary`: `primary` is what catching up with the primary gives.
  unfoldable pub refresh_secondary : Outcome s.Db → IndexedChain → Outcome (Unit {0}) × IndexedChain
  unfolding all_linked add_all added reload
  refresh_secondary (err e) self = (err e, self)
  refresh_secondary panic self = (panic, self)
  refresh_secondary (ok db) self = elim (Headers.tip self.headers) [
    | none ↦ reload self db
    | some tip ↦ elim (Db.headers_from bitcoin s db (Header.key bitcoin tip) tip.height) [
      | err e ↦ (err e, with self self.headers db)
      | panic ↦ (panic, with self self.headers db)
      | ok [] ↦ reload self db
      | ok (row ∷ rows) ↦
          if bytes_eq row.hash tip.hash && all_linked (row ∷ rows)
          then (elim (add_all self.headers rows) [
            | ok headers ↦ (ok tt, with self headers db)
            | err e ↦ (err e, with self (added self.headers rows) db)
            | panic ↦ (panic, with self (added self.headers rows) db)
          ])
          else reload self db
    ]
  ]

  -- The locations of `locations_by_scripthash` and `locations_by_txid`, all of them computed.
  unfoldable pub locate_all : Headers → List TxNum → Outcome (List Location)
  locate_all headers [] = ok []
  locate_all headers (n ∷ ns) = do
    location ← Headers.find_by_txnum headers n
    locations ← locate_all headers ns
    ok (location ∷ locations)

  unfoldable pub locations_by_scripthash :
      IndexedChain → List ℕ → Option IndexedHeader → Outcome (List Location)
  unfolding locate_all
  locations_by_scripthash self script_hash latest_header = do
    txnums ←
        Db.scan_by_script_hash s self.store script_hash
          (elim latest_header [ none ↦ 0 | some h ↦ h.next_txnum ])
    locate_all self.headers txnums

  unfoldable pub locations_by_txid : IndexedChain → List ℕ → Outcome (List Location)
  unfolding locate_all
  locations_by_txid self txid = do
    txnums ← Db.scan_by_txid s self.store txid
    locate_all self.headers txnums

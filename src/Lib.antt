-- ===== src/Lib.antt =====
-- Verification of bindex, an index of the Bitcoin (or Liquid) chain: bindex-lib follows a node,
-- indexes its blocks into a RocksDB database and looks transactions up by script hash and by id;
-- servers and tools stand on top of it.
--
-- Files, and the code they are about:
--   Common            lists, slices, bytes, 32-bit words, and `Outcome`: a value, an error or a panic
--   Fmt               bindex-lib/src/fmt.rs: split_headers, walk_block, prev_blockhash, header_len
--   Index.TxNum, Row  bindex-lib/src/index/mod.rs: TxNum, TxNumRange, Prefix, HashPrefixRow
--   Index.Header      bindex-lib/src/index/header.rs, both row layouts
--   Index.TxPos       bindex-lib/src/index/txpos.rs: the delta code of offsets, chunks, lookup
--   Index.Visit       the visitor that bitcoin_slices drives over a block, as a list of events
--   Index.ScriptHash  bindex-lib/src/index/scripthash.rs
--   Index.TxId        bindex-lib/src/index/txid.rs
--   Index.TxVisit     bindex-lib/src/index/txpos.rs: TxPosVisitor and index
--   Index.Batch       bindex-lib/src/index/mod.rs: BlockBytes, Batch::build of the Bitcoin build
--   Headers           bindex-lib/src/headers.rs
--   Db                bindex-lib/src/db.rs, over Db.Store, an ordered store with column families
--   Chain             bindex-lib/src/chain.rs: Builder and index (Chain.Indexing), drop_tip,
--                     fetch_new_headers, sync, refresh_secondary, the lookups of locations,
--                     the reads by height and location (Chain.Reads)
--   Electrum.Merkle   bindex-electrum/src/merkle.rs
--   Electrum.Mempool  bindex-electrum/src/mempool.rs, over the maps and sets of Electrum.Maps
--   Electrum.Fold     `Fold` of bindex-electrum/src/chain.rs
--   Electrum.ScriptCache   `ScriptCache` of bindex-electrum/src/chain.rs
--   Electrum.History  bindex-electrum/src/chain.rs: script_refs and fetch_bodies, script_history
--                     (History.Cached) and find_spender (History.Spender)
--   Electrum.Mempool.Poll  poll_once of bindex-electrum/src/mempool.rs
--   Electrum.Protocol bindex-electrum/src/protocol.rs: protocol versions
--   Electrum.Status   the status of a script: scripthash_status of bindex-electrum/src/protocol.rs,
--                     history_entries and script_status of bindex-electrum/src/server.rs
--   Electrum.Session  bindex-electrum/src/session.rs, and notifications and dispatch of
--                     bindex-electrum/src/server.rs; Session.Client is the other end
--   Rest.Text         what the REST API uses of `str` and `String`, over code points and UTF-8
--   Rest.Http         bindex-electrum/src/rest/http.rs: requests and their lines, body lengths,
--                     percent decoding
--   Tests             concrete inputs: a store with the laws, a parser, blocks, chains
--
-- How they interact: `sync` asks the node for hashes, `index` makes batches of their blocks with the
-- three indexers, the tables take the rows, and the headers take the header rows. A lookup scans the
-- script or id table for transaction numbers, finds the block of a number in the headers, and the
-- place in the block in the position table. The server resolves a script's transactions to places in
-- blocks, fetches their bodies from the node with the index released, and folds them into a history,
-- which it caches; a round of such a query meets the index at its start and at its end, and is done
-- again when the tip has moved between. A session keeps the history and the status of each script
-- that it is subscribed to; a change of the tip or the mempool goes through them, and its reads may
-- give anything.
--
-- A function that changes the state of the indexed chain returns its result beside the state that it
-- leaves, on an error too. A panic is an outcome of its own. Bytes are numbers, and 32-bit arithmetic
-- that can wrap is written with its remainder; overflow that the source checks is a panic.
--
-- Fuel: `split_headers` runs for as many rounds as there are bytes, `fetch_new_headers` for one round
-- more than there are headers, and chunks are made for as many rounds as there are positions. The
-- Merkle loop runs for as many levels as there are leaves, the eviction of the script cache for as
-- many rounds as there are entries. That this is enough is proved.
--
-- Parameters, with what the code relies on as hypotheses: the decoders of rust-bitcoin and
-- rust-elements (`Consensus`), bitcoin_slices and SHA-256 (`Parser`), the variable-length integer
-- (`VarInt`), RocksDB (`Store`), and the node behind its client (`Node`, `BlockPart`, `MempoolNode`). The parallel maps of
-- the library are sequential here, with the first failure in the order of the blocks; the fetches of
-- the server keep their workers. A machine has 64 bits.
--
-- Not modelled: opening databases and connections, logging, the HTTP client, the SQLite cache, the
-- I/O of the servers and tools, the failure of an allocation (so `walk_block` reserves nothing for its
-- count), the conversion of a script hash that has not 32 bytes, locks, JSON, floating-point
-- histograms, and the Liquid build of Batch::build.
pub mod Common
pub mod Fmt
pub mod Index
pub mod Headers
pub mod Db
pub mod Chain
pub mod Electrum
pub mod Rest
pub mod Tests

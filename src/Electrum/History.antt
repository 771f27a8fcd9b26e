-- ===== src/Electrum/History.antt =====
-- The queries of `ChainAdapter` in bindex-electrum/src/chain.rs that read a script's transactions:
-- `script_refs`, `fetch_bodies`, `script_history` and `find_spender`.
use bindex_rs.Common.{
  ℕ, ◌+◌, ◌-◌, ◌/◌, min, Bool, true, false, ◌&&◌, Option, none, some, List, [], ◌∷◌, ◌++◌, map, ltb,
  leb, ◌==◌, if◌then◌else◌,
}
use bindex_rs.Common.{length, chunks, slice}
use bindex_rs.Common.{deadline_passed, worker_panicked, Outcome, ok, err, panic, ◌>>=◌, ◌>>◌}
use bindex_rs.Common.Bytes.{bytes_eq}
use bindex_rs.Index.TxPos.{VarInt}
use bindex_rs.Index.Visit.{Parser}
use bindex_rs.Index.Header.{IndexedHeader}
use bindex_rs.Db.Store.{Store}
use bindex_rs.Headers
use bindex_rs.Headers.{Location}
use bindex_rs.Chain.{IndexedChain, locations_by_scripthash}
use bindex_rs.Chain.Reads.{TxBytesRef, tx_bytes_ref}
use bindex_rs.Electrum.Mempool.{ScriptHash}
use bindex_rs.Electrum.Mempool.View.{sort_by}
pub mod Cached
pub mod Resumed
pub mod Batches
pub mod Refines
pub mod Answered
pub mod Spender
pub mod Sound
pub mod Fetched

abbrev pub ref_eq : TxBytesRef → TxBytesRef → Bool
ref_eq a b =
    bytes_eq a.block_hash b.block_hash
    && (a.block_height == b.block_height
        && (a.block_position == b.block_position && (a.offset == b.offset && a.size == b.size)))

-- `refs.starts_with(&cached.refs)`
unfoldable pub begins_with : List TxBytesRef → List TxBytesRef → Bool
begins_with refs [] = true
begins_with [] (c ∷ cs) = false
begins_with (r ∷ refs) (c ∷ cs) = ref_eq r c && begins_with refs cs

-- `ElectrumScripthash::to_bindex`: the hash is shown backward.
unfoldable pub to_bindex : ScriptHash → List ℕ
to_bindex [] = []
to_bindex (b ∷ bs) = to_bindex bs ++ b ∷ []

abbrev header_eq : IndexedHeader → IndexedHeader → Bool
header_eq a b =
    a.height == b.height
    && (a.next_txnum == b.next_txnum
        && (bytes_eq a.hash b.hash && bytes_eq a.prev_blockhash b.prev_blockhash))

abbrev pub location_eq : Location → Location → Bool
location_eq a b =
    a.txnum == b.txnum
    && (a.block_height == b.block_height
        && (a.block_offset == b.block_offset && header_eq a.indexed_header b.indexed_header))

-- `locations.dedup()`, behind a location that is kept.
unfoldable pub dedup_after : Location → List Location → List Location
dedup_after kept [] = []
dedup_after kept (l ∷ ls) =
    let rest = dedup_after l ls in if location_eq l kept then rest else l ∷ rest

unfoldable pub dedup : List Location → List Location
unfolding dedup_after
dedup [] = []
dedup (l ∷ ls) = l ∷ dedup_after l ls

module _ (v : VarInt) (p : Parser) (s : Store) where
  unfoldable pub refs_of : IndexedChain v p s → List Location → Outcome (List TxBytesRef)
  refs_of chain [] = ok []
  refs_of chain (l ∷ ls) = do r ← tx_bytes_ref v p s chain l; rs ← refs_of chain ls; ok (r ∷ rs)

  -- The tip, and the references of a script's transactions from a height on.
  unfoldable pub script_refs :
      IndexedChain v p s → ScriptHash → Option ℕ → Outcome (List ℕ × List TxBytesRef)
  unfolding refs_of dedup
  script_refs chain scripthash from_height = do
    let previous : Option IndexedHeader = elim from_height [
      | none ↦ none
      | some height ↦
          if height == 0 then none else Headers.header_at_height chain.headers (height - 1)
    ]
    locations ← locations_by_scripthash v p s chain (to_bindex scripthash) previous
    refs ← refs_of chain (dedup (sort_by (λ a b. leb a.txnum b.txnum) locations))
    ok (Headers.tip_hash chain.headers, refs)

-- The node's answer to `core.block_part(hash, offset, size)`.
abbrev pub BlockPart : Type 0
BlockPart = List ℕ → ℕ → ℕ → Outcome (List ℕ)

unfoldable pub fetch_body : BlockPart → TxBytesRef → Outcome (List ℕ)
fetch_body block_part r = block_part r.block_hash r.offset r.size

-- `refs.iter().map(|r| self.fetch_body(r)).collect()`
unfoldable pub fetch_each : BlockPart → List TxBytesRef → Outcome (List (List ℕ))
unfolding fetch_body
fetch_each block_part [] = ok []
fetch_each block_part (r ∷ refs) = do
  raw ← fetch_body block_part r
  raws ← fetch_each block_part refs
  ok (raw ∷ raws)

-- `handle.join().unwrap_or(Err(Error::Worker))`
unfoldable pub join : Outcome (List (List ℕ)) → Outcome (List (List ℕ))
join panic = err worker_panicked
join (err e) = err e
join (ok raws) = ok raws

-- The loop over what the workers return.
unfoldable pub collect : List (Outcome (List (List ℕ))) → Outcome (List (List ℕ))
collect [] = ok []
collect (batch ∷ batches) = do raws ← batch; rest ← collect batches; ok (raws ++ rest)

unfoldable pub div_ceil : ℕ → ℕ → ℕ
div_ceil a b = (a + (b - 1)) / b

-- `fetch_bodies`; `expired` says whether the deadline has passed when it is called.
unfoldable pub fetch_bodies : BlockPart → Bool → List TxBytesRef → Outcome (List (List ℕ))
unfolding fetch_each join collect div_ceil
fetch_bodies block_part expired refs =
    if expired
    then err deadline_passed
    else (if ltb (length refs) 2
        then fetch_each block_part refs
        else (let chunk = div_ceil (length refs) (min 8 (length refs)) in
            collect
              (map (λ slice. join (fetch_each block_part slice)) (chunks chunk chunk [] refs))))

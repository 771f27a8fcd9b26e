-- ===== src/Chain/Sync.antt =====
-- `fetch_new_headers` and `sync` of bindex-lib/src/chain.rs: they end, and keep the chain a chain.
use bindex_rs.Common.{
  ℕ, zero, suc, ◌+◌, ◌^◌, ◌≤◌, ◌<◌, ◌≡◌, refl, sym, ap, ◌∙◌, subst, ◌⊎◌, inl, inr, Bool, none, some,
  List, [], ◌∷◌, ◌++◌, arith, leb, if◌then◌else◌, Bool-cases,
}
use bindex_rs.Common.{
  length, drop, get_last?, without_last, length-drop, get_elem?-some, get_last?-eq-get_elem?,
  slice_from,
}
use bindex_rs.Common.{rocksdb, Outcome, ok, err, panic, ◌>>=◌, ok_inj, Outcome-cases}
use bindex_rs.Common.Bytes.{bytes_eq}
use bindex_rs.Fmt.{bitcoin}
use bindex_rs.Index.TxPos.{VarInt}
use bindex_rs.Index.Header.{IndexedHeader}
use bindex_rs.Index.Visit.{Parser}
use bindex_rs.Index.Batch.{Batch}
use bindex_rs.Db
use bindex_rs.Db.Store.{Store}
use bindex_rs.Headers.{Headers, pop, tip_hash}
use bindex_rs.Headers.Linked.{IsChain, pop-IsChain}
use bindex_rs.Chain.{
  IndexedChain, dropped, drop_tip, fetch_from, fetch_loop, fetch_new_headers, index_new, sync,
}
use bindex_rs.Chain.Indexing.{Node, Stats, index}
use bindex_rs.Chain.Linked.{headers_of, hashes_of}
use bindex_rs.Chain.Appended.{index-IsChain}

length-without_last {ℓ} :
    {A : Type ℓ} (x : A) (xs : List A) → suc (length (without_last (x ∷ xs))) ≡ length (x ∷ xs)
length-without_last x [] = refl
length-without_last x (y ∷ xs) = ap suc (length-without_last y xs)

last_cases :
    (rows : List IndexedHeader)
    → (get_last? rows ≡ none)
      ⊎ ((h : IndexedHeader) × (get_last? rows ≡ some h)
          × (suc (length (without_last rows)) ≡ length rows))
last_cases [] = inl refl
last_cases (r ∷ rows) =
    let (h, e) = get_elem?-some (r ∷ rows) (length rows) (omega arith) in
    inr (h, get_last?-eq-get_elem? r rows ∙ e, length-without_last r rows)

slice_from-length :
    (n : ℕ) (hashes rest : List (List ℕ))
    → slice_from n hashes ≡ ok rest
    → length rest ≤ length hashes
unfolding slice_from
slice_from-length n hashes rest e = elim (Bool-cases (leb n (length hashes))) [
  | inl t ↦
      let whole : ok (drop n hashes) ≡ ok rest = sym (rw t) ∙ e in
      omega (arith, ap length (ok_inj whole), length-drop n hashes)
  | inr t ↦ let none_left : panic ≡ ok rest = sym (rw t) ∙ e in cc
]

module _ (v : VarInt) (p : Parser) (s : Store) where
  dropped_headers :
      (hash : List ℕ) (self : IndexedChain v p s) (rest : Headers) (o : Outcome s.Db)
      → (dropped v p s hash self rest o).1.headers ≡ rest
  unfolding dropped
  dropped_headers hash self rest (ok db) = refl
  dropped_headers hash self rest (err e) = refl
  dropped_headers hash self rest panic = refl

  -- On every branch the chain stays one and does not grow; it has lost its tip when the call succeeds.
  pub drop_tip_lem :
      (node : Node) (self : IndexedChain v p s)
      → IsChain self.headers
      → IsChain (drop_tip v p s node self).1.headers
        × (length (drop_tip v p s node self).1.headers.rows ≤ length self.headers.rows)
        × ((h : List ℕ)
            → (drop_tip v p s node self).0 ≡ ok h
            → length (drop_tip v p s node self).1.headers.rows < length self.headers.rows)
  unfolding drop_tip pop
  drop_tip_lem node self c = elim (last_cases self.headers.rows) [
    | inl e ↦ rw (e, drop_tip, pop) (c, omega arith, λ h e. cc)
    | inr (h, e, n) ↦
        let popped : (drop_tip v p s node self).1.headers ≡ (pop self.headers).1 =
          rw (e, drop_tip, pop)
            (dropped_headers h.hash self (pop self.headers).1 (
              index p node (pop self.headers).1 (h.hash ∷ [])
                (record { tip = []; indexed_blocks = 0; size_read = 0 })
              >>= λ batches. Db.delete_rows bitcoin v s self.store batches.0)) in
        let shorter : suc (length (pop self.headers).1.rows) ≡ length self.headers.rows =
          unfold pop in n in
        let count = ap (λ (r : Headers). length r.rows) popped in
        (subst IsChain (sym popped) (pop-IsChain self.headers c), omega arith, λ _ _. omega arith)
  ]

  -- The hashes of a successful result are the node's answer to one of the questions.
  abbrev pub Answered : (ℕ → Node) → ℕ → Outcome (List (List ℕ) × ℕ) → Type 0
  Answered rounds limit (ok (hashes, to_skip)) =
      (i : ℕ) × (hash : List ℕ) × ((rounds i).get_headers hash limit ≡ ok hashes)
  Answered rounds limit (err e) = Unit
  Answered rounds limit panic = Unit

  fetch_loop_lem :
      (rounds : ℕ → Node) (fuel round limit : ℕ) (self : IndexedChain v p s)
      → IsChain self.headers
      → length self.headers.rows < fuel
      → (result : Outcome (List (List ℕ) × ℕ)) × (self' : IndexedChain v p s) × (fetch_loop v p s
            rounds fuel round limit self
          ≡ some (result, self'))
        × IsChain self'.headers
        × (length self'.headers.rows ≤ length self.headers.rows)
        × Answered rounds limit result
  unfolding fetch_loop
  fetch_loop_lem rounds zero round limit self c fuel = absurd (omega arith)
  fetch_loop_lem rounds (suc fuel) round limit self c enough =
      elim (Outcome-cases ((rounds round).get_headers (fetch_from v p s self).0 limit)) [
        | inr (inl (e, q)) ↦ (err e, self, rw (q, fetch_loop), c, omega arith, tt)
        | inr (inr q) ↦ (panic, self, rw (q, fetch_loop), c, omega arith, tt)
        | inl ((h ∷ hs), q) ↦ (
          ok (h ∷ hs, (fetch_from v p s self).1),
          self,
          rw (q, fetch_loop),
          c,
          omega arith,
          (round, (fetch_from v p s self).0, q),
        )
        | inl ([], q) ↦
            let rest = (drop_tip v p s (rounds round) self).1 in
            let (k, n, less) = drop_tip_lem (rounds round) self c in
            elim (Outcome-cases (drop_tip v p s (rounds round) self).0) [
              | inr (inl (e, w)) ↦ (err e, rest, rw (q, fetch_loop) (rw (w, fetch_loop)), k, n, tt)
              | inr (inr w) ↦ (panic, rest, rw (q, fetch_loop) (rw (w, fetch_loop)), k, n, tt)
              | inl (h, w) ↦
                  let (result, self', done, k', n', a) =
                    fetch_loop_lem rounds fuel (suc round) limit rest k (omega (arith, less h w)) in
                  elim (Bool-cases (bytes_eq (fetch_from v p s self).0 h)) [
                    | inl t ↦ (
                      result,
                      self',
                      rw (q, fetch_loop) (rw (w, fetch_loop) (rw t done)),
                      k',
                      omega arith,
                      a,
                    )
                    | inr t ↦
                        (panic, rest, rw (q, fetch_loop) (rw (w, fetch_loop) (rw t)), k, n, tt)
                  ]
            ]
      ]

  -- `fetch_new_headers` ends, whatever the node answers, with a chain that is at most shorter: each
  -- round that finds the tip rolled back drops it, and no chain is dropped past its first block.
  pub fetch_new_headers_ends :
      (rounds : ℕ → Node) (limit : ℕ) (self : IndexedChain v p s)
      → IsChain self.headers
      → (result : Outcome (List (List ℕ) × ℕ)) × (self' : IndexedChain v p s) × (fetch_new_headers v
            p s rounds limit self
          ≡ some (result, self'))
        × IsChain self'.headers
        × (length self'.headers.rows ≤ length self.headers.rows)
  unfolding fetch_new_headers
  fetch_new_headers_ends rounds limit self c =
      let (result, self', done, k, n, _) =
        fetch_loop_lem rounds (length self.headers.rows + 1) 0 limit self c (omega arith) in
      (result, self', done, k, n)

  abbrev pub no_stats : IndexedChain v p s → Stats
  no_stats self = record { tip = tip_hash self.headers; indexed_blocks = 0; size_read = 0 }

  -- When the blocks of the new hashes can be indexed and written, the rest of `sync` cannot fail but
  -- in the upkeep of the store: the chain grows by exactly these blocks and stays a chain.
  pub index_new_appends :
      (node : Node) (hashes : List (List ℕ)) (upkeep : Bool) (self : IndexedChain v p s)
      (batches : List Batch) (stats : Stats) (db : s.Db)
      → IsChain self.headers
      → length self.headers.rows + length hashes < 2 ^ 32
      → index p node self.headers hashes (no_stats self) ≡ ok (batches, stats)
      → Db.write bitcoin v s self.store batches ≡ ok db
      → (index_new v p s node hashes upkeep self ≡ (
        if upkeep then ok stats else err rocksdb,
        record {
          genesis_hash = self.genesis_hash;
          headers = record { rows = self.headers.rows ++ headers_of batches };
          store = db;
        },
      ))
        × IsChain (record { rows = self.headers.rows ++ headers_of batches })
        × (hashes_of (headers_of batches) ≡ hashes)
  unfolding index_new
  index_new_appends node hashes upkeep self batches stats db c fits indexed written =
      let (chain, same, added) =
        index-IsChain p node self.headers hashes batches (no_stats self) stats c fits indexed in
      (rw (indexed, index_new) (rw (written, index_new) (rw (added, index_new))), chain, same)

  index_new_keeps :
      (node : Node) (hashes : List (List ℕ)) (upkeep : Bool) (self : IndexedChain v p s)
      → IsChain self.headers
      → length self.headers.rows + length hashes < 2 ^ 32
      → IsChain (index_new v p s node hashes upkeep self).1.headers
  unfolding index_new
  index_new_keeps node hashes upkeep self c fits =
      elim (Outcome-cases (index p node self.headers hashes (no_stats self))) [
        | inr (inl (e, q)) ↦ rw (q, index_new) c
        | inr (inr q) ↦ rw (q, index_new) c
        | inl ((batches, stats), q) ↦
            elim (Outcome-cases (Db.write bitcoin v s self.store batches)) [
              | inr (inl (e, w)) ↦ rw (q, index_new) (rw (w, index_new) c)
              | inr (inr w) ↦ rw (q, index_new) (rw (w, index_new) c)
              | inl (db, w) ↦
                  let (same, chain, _) =
                    index_new_appends node hashes upkeep self batches stats db c fits q w in
                  subst (λ r. IsChain r.1.headers) (sym same) chain
            ]
      ]

  -- `sync` ends and keeps the chain a chain on every branch, a rollback, a failed download and a
  -- failed write included, if the node returns no more headers than the client asks it for, which is
  -- one more than the limit, and heights fit a `u32`.
  pub sync_ends :
      (rounds : ℕ → Node) (node : Node) (limit : ℕ) (upkeep : Bool) (self : IndexedChain v p s)
      → IsChain self.headers
      → ((i : ℕ) (hash : List ℕ) (hashes : List (List ℕ))
          → (rounds i).get_headers hash limit ≡ ok hashes
          → length hashes ≤ limit + 1)
      → length self.headers.rows + limit + 1 < 2 ^ 32
      → (result : Outcome Stats) × (self' : IndexedChain v p s) × (sync v p s rounds node limit
            upkeep self
          ≡ some (result, self'))
        × IsChain self'.headers
  unfolding sync fetch_new_headers
  sync_ends rounds node limit upkeep self c bounded fits =
      let (result, rest, done, k, n, a) =
        fetch_loop_lem rounds (length self.headers.rows + 1) 0 limit self c (omega arith) in
      at result rest done k n a
    where
      at :
          (result : Outcome (List (List ℕ) × ℕ)) (rest : IndexedChain v p s)
          → fetch_loop v p s rounds (length self.headers.rows + 1) 0 limit self
            ≡ some (result, rest)
          → IsChain rest.headers
          → length rest.headers.rows ≤ length self.headers.rows
          → Answered rounds limit result
          → (out : Outcome Stats) × (self' : IndexedChain v p s) × (sync v p s rounds node limit
                upkeep self
              ≡ some (out, self'))
            × IsChain self'.headers
      at (err e) rest done k n a = (err e, rest, rw (done, sync), k)
      at panic rest done k n a = (panic, rest, rw (done, sync), k)
      at (ok (hashes, to_skip)) rest done k n (i, hash, answer) =
          elim (Outcome-cases (slice_from to_skip hashes)) [
            | inr (inl (e, q)) ↦ (err e, rest, rw (done, sync) (rw (q, sync)), k)
            | inr (inr q) ↦ (panic, rest, rw (done, sync) (rw (q, sync)), k)
            | inl (new_hashes, q) ↦
                let count = bounded i hash hashes answer in
                (
                  (index_new v p s node new_hashes upkeep rest).0,
                  (index_new v p s node new_hashes upkeep rest).1,
                  rw (done, sync) (rw (q, sync)),
                  index_new_keeps node new_hashes upkeep rest k
                      (omega (arith, slice_from-length to_skip hashes new_hashes q)),
                )
          ]

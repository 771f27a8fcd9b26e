-- ===== src/Chain/Appended.antt =====
-- What `index` of bindex-lib/src/chain.rs returns can be added to the chain.
use bindex_rs.Common.{
  chunks, flatten, flatten-chunks, ℕ, ◌+◌, ◌^◌, ◌<◌, ◌≡◌, refl, sym, ap, ◌∙◌, subst, Option, none,
  some, List, [], ◌∷◌, ◌++◌, map, append_assoc, append-nil, arith, ==_iff,
}
use bindex_rs.Common.{length, get_last?, length-append, length-map}
use bindex_rs.Common.{ok, ok_inj, >>=-eq-ok}
use bindex_rs.Common.Bytes.{bytes_eq_iff}
use bindex_rs.Index.Header.{IndexedHeader}
use bindex_rs.Index.Visit.{Parser}
use bindex_rs.Index.Batch.{Batch}
use bindex_rs.Headers.{Headers, all_zeros, tip, tip_hash, add}
use bindex_rs.Headers.Linked.{Linked, IsChain, tip_from, tip_of_rows}
use bindex_rs.Chain.{add_all}
use bindex_rs.Chain.Indexing.{
  Node, PerBlockData, Stats, Builder, new_builder, build, fetch_all, last_header, index_chunks,
  index, add_stats,
}
use bindex_rs.Chain.Linked.{headers_of, hashes_of, Linked-build, fetch_all-block_hashes}

get_last?-concat {ℓ} :
    {A : Type ℓ} (xs : List A) (y : A) (ys : List A) → get_last? (xs ++ y ∷ ys) ≡ get_last? (y ∷ ys)
get_last?-concat [] y ys = refl
get_last?-concat (x ∷ []) y ys = refl
get_last?-concat (x ∷ z ∷ xs) y ys = get_last?-concat (z ∷ xs) y ys

last_of_batches :
    (o : Option IndexedHeader) (b : Batch) (bs : List Batch)
    → elim (get_last? (b ∷ bs)) [ none ↦ o | some c ↦ some c.header ]
      ≡ get_last? (headers_of (b ∷ bs))
last_of_batches o b [] = refl
last_of_batches o b (c ∷ bs) = last_of_batches o c bs

last_header_lem :
    (headers : Headers) (batches : List Batch)
    → last_header headers batches ≡ get_last? (headers.rows ++ headers_of batches)
unfolding last_header tip
last_header_lem headers [] = ap get_last? (sym (append-nil headers.rows))
last_header_lem headers (b ∷ bs) =
    last_of_batches (get_last? headers.rows) b bs
    ∙ sym (get_last?-concat headers.rows b.header (headers_of bs))

map-append {ℓ κ} :
    {A : Type ℓ} {B : Type κ} (f : A → B) (xs ys : List A) → map f (xs ++ ys) ≡ map f xs ++ map f ys
map-append f [] ys = refl
map-append f (x ∷ xs) ys = ap (λ l. f x ∷ l) (map-append f xs ys)

rows_append :
    (rows : List IndexedHeader) (batches built : List Batch)
    → rows ++ headers_of (batches ++ built) ≡ (rows ++ headers_of batches) ++ headers_of built
rows_append rows batches built =
    ap (λ l. rows ++ l) (map-append (λ b. b.header) batches built)
    ∙ sym (append_assoc rows (headers_of batches) (headers_of built))

length-headers_of :
    (bs : List Batch) (hashes : List (List ℕ))
    → hashes_of (headers_of bs) ≡ hashes
    → length (headers_of bs) ≡ length hashes
length-headers_of bs hashes e =
    sym (length-map (λ (h : IndexedHeader). h.hash) (headers_of bs)) ∙ ap length e

-- One round of the loop of `index`.
one_round :
    (p : Parser) (node : Node) (headers : Headers) (batches built : List Batch)
    (part : List (List ℕ)) (blocks : List PerBlockData) (builder : Builder)
    → Linked all_zeros 0 (headers.rows ++ headers_of batches)
    → length (headers.rows ++ headers_of batches) + length part < 2 ^ 32
    → fetch_all p node part ≡ ok blocks
    → new_builder (last_header headers batches) blocks ≡ ok builder
    → build p builder ≡ ok built
    → Linked all_zeros 0 (headers.rows ++ headers_of (batches ++ built))
      × (hashes_of (headers_of (batches ++ built)) ≡ hashes_of (headers_of batches) ++ part)
      × (length (headers.rows ++ headers_of (batches ++ built))
          ≡ length (headers.rows ++ headers_of batches) + length part)
one_round p node headers batches built part blocks builder l fits fetched made b =
    let R = headers.rows ++ headers_of batches in
    let same = fetch_all-block_hashes p node part blocks fetched in
    let count : length blocks ≡ length part =
      sym (length-map (λ (d : PerBlockData). d.blockhash) blocks) ∙ ap length same in
    let (k, h) =
      Linked-build p R blocks builder built l
        (subst (λ o. new_builder o blocks ≡ ok builder) (last_header_lem headers batches) made) b
        (rw count fits) in
    let hashes : hashes_of (headers_of built) ≡ part = h ∙ same in
    (
      subst (Linked all_zeros 0) (sym (rows_append headers.rows batches built)) k,
      ap hashes_of (map-append (λ b. b.header) batches built)
          ∙ map-append (λ h. h.hash) (headers_of batches) (headers_of built)
          ∙ ap (λ l. hashes_of (headers_of batches) ++ l) hashes,
      ap length (rows_append headers.rows batches built)
          ∙ length-append R (headers_of built)
          ∙ ap (λ n. length R + n) (length-headers_of built part hashes),
    )

-- The loop of `index`, with the batches of earlier rounds.
index_chunks_lem :
    (p : Parser) (node : Node) (headers : Headers) (batches out : List Batch) (stats after : Stats)
    (parts : List (List (List ℕ)))
    → Linked all_zeros 0 (headers.rows ++ headers_of batches)
    → length (headers.rows ++ headers_of batches) + length (flatten parts) < 2 ^ 32
    → index_chunks p node headers batches stats parts ≡ ok (out, after)
    → Linked all_zeros 0 (headers.rows ++ headers_of out)
      × (hashes_of (headers_of out) ≡ hashes_of (headers_of batches) ++ flatten parts)
unfolding index_chunks
index_chunks_lem p node headers batches out stats after [] l fits e =
    subst
      (λ b.
        Linked all_zeros 0 (headers.rows ++ headers_of b)
        × (hashes_of (headers_of b) ≡ hashes_of (headers_of batches) ++ []))
      (ap (λ x. x.0) (ok_inj e)) (l, sym (append-nil (hashes_of (headers_of batches))))
index_chunks_lem p node headers batches out stats after (part ∷ parts) l fits e =
    let (blocks, fetched, e1) = >>=-eq-ok (fetch_all p node part) _ e in
    let (builder, made, e2) = >>=-eq-ok (new_builder (last_header headers batches) blocks) _ e1 in
    let (built, b, rest) = >>=-eq-ok (build p builder) _ e2 in
    let (k, h, n) =
      one_round p node headers batches built part blocks builder l
        (shorter _ part (flatten parts) fits) fetched made b in
    let (k', h') =
      index_chunks_lem p node headers (batches ++ built) out (add_stats stats blocks) after parts k
        (longer _ _ part (flatten parts) n fits) rest in
    (
      k',
      h'
          ∙ ap (λ l. l ++ flatten parts) h
          ∙ append_assoc (hashes_of (headers_of batches)) part (flatten parts),
    )
  where
    shorter :
        (m : ℕ) (xs ys : List (List ℕ)) → m + length (xs ++ ys) < 2 ^ 32 → m + length xs < 2 ^ 32
    shorter m xs ys h = omega (arith, length-append xs ys)

    longer :
        (m k : ℕ) (xs ys : List (List ℕ))
        → k ≡ m + length xs
        → m + length (xs ++ ys) < 2 ^ 32
        → k + length ys < 2 ^ 32
    longer m k xs ys e h = omega (arith, length-append xs ys)

pub Linked-middle :
    (hash : List ℕ) (height : ℕ) (rows : List IndexedHeader) (h : IndexedHeader)
    (more : List IndexedHeader)
    → Linked hash height (rows ++ h ∷ more)
    → (h.prev_blockhash ≡ tip_from hash rows) × (h.height ≡ height + length rows)
unfolding tip_from
Linked-middle hash height [] h more l = (l.0, l.1 ∙ omega arith)
Linked-middle hash height (r ∷ rows) h more l =
    let (p, q) = Linked-middle r.hash (height + 1) rows h more l.2 in (p, q ∙ omega arith)

pub add_ok :
    (rows : List IndexedHeader) (h : IndexedHeader)
    → h.prev_blockhash ≡ tip_hash (record { rows = rows })
    → h.height ≡ length rows
    → add (record { rows = rows }) h ≡ ok (record { rows = rows ++ h ∷ [] })
unfolding add
add_ok rows h p q =
    rw ((bytes_eq_iff h.prev_blockhash (tip_hash (record { rows = rows }))).1 p)
      (rw ((==_iff h.height (length rows)).1 q))

-- Rows that go on from a chain are all accepted.
pub add_all_lem :
    (rows more : List IndexedHeader)
    → Linked all_zeros 0 (rows ++ more)
    → add_all (record { rows = rows }) more ≡ ok (record { rows = rows ++ more })
unfolding add_all
add_all_lem rows [] l =
    ap (λ (r : List IndexedHeader). ok (record { rows = r })) (sym (append-nil rows))
add_all_lem rows (h ∷ more) l =
    let (p, q) = Linked-middle all_zeros 0 rows h more l in
    let accepted =
      add_ok rows h (p ∙ sym (tip_of_rows rows) ∙ unfold tip_hash in refl) (q ∙ omega arith) in
    rw accepted (
      add_all_lem (rows ++ h ∷ []) more
        (subst (Linked all_zeros 0) (sym (append_assoc rows (h ∷ []) more)) l)
      ∙ ap (λ (r : List IndexedHeader). ok (record { rows = r })) (append_assoc rows (h ∷ []) more))

-- When the blocks of `hashes` are indexed on top of a chain, what comes out are batches of exactly
-- these blocks in order, whose headers make the chain longer.
pub index-IsChain :
    (p : Parser) (node : Node) (headers : Headers) (hashes : List (List ℕ)) (batches : List Batch)
    (stats after : Stats)
    → IsChain headers
    → length headers.rows + length hashes < 2 ^ 32
    → index p node headers hashes stats ≡ ok (batches, after)
    → IsChain (record { rows = headers.rows ++ headers_of batches })
      × (hashes_of (headers_of batches) ≡ hashes)
      × (add_all headers (headers_of batches)
          ≡ ok (record { rows = headers.rows ++ headers_of batches }))
unfolding index
index-IsChain p node headers hashes batches stats after chain fits e =
    let whole = flatten-chunks 10 10 [] hashes in
    let (l, h) =
      index_chunks_lem p node headers [] batches stats after (chunks 10 10 [] hashes)
        (subst (Linked all_zeros 0) (sym (append-nil headers.rows)) chain.linked)
        (subst (λ r. length r + length (flatten (chunks 10 10 [] hashes)) < 2 ^ 32)
          (sym (append-nil headers.rows))
          (subst (λ r. length headers.rows + length r < 2 ^ 32) (sym whole) fits))
        e in
    (record { linked = l }, h ∙ whole, add_all_lem headers.rows (headers_of batches) l)

-- ===== src/Chain/Linked.antt =====
-- The batches of `index` in bindex-lib/src/chain.rs go on from the chain's tip.
use bindex_rs.Common.{
  ℕ, ◌+◌, ◌^◌, ◌<◌, ◌≡◌, refl, sym, ap, ◌∙◌, subst, List, [], ◌∷◌, ◌++◌, map, arith, ◌==◌,
}
use bindex_rs.Common.{length, get_last?, get_elem?-some, get_last?-eq-get_elem?}
use bindex_rs.Common.{Outcome, ok, err, panic, ◌>>=◌, ◌>>◌, assert, ok_inj, >>=-eq-ok, assert-eq-ok}
use bindex_rs.Common.Bytes.{bytes_eq, bytes_eq_iff}
use bindex_rs.Common.Words.{add32, add32_fits}
use bindex_rs.Fmt.{bitcoin, prev_blockhash}
use bindex_rs.Index.TxNum
use bindex_rs.Index.TxNum.{
  TxNum, TxNumRange, new_range-increment_by, new_range, increment_by, adjacent,
}
use bindex_rs.Index.Header
use bindex_rs.Index.Header.{IndexedHeader, from_block}
use bindex_rs.Index.Visit.{Parser}
use bindex_rs.Index.ScriptHash
use bindex_rs.Index.ScriptHash.{IndexVisitor}
use bindex_rs.Index.TxId
use bindex_rs.Index.TxId.{IndexedBlock}
use bindex_rs.Index.TxVisit
use bindex_rs.Index.TxVisit.{IndexedPositions}
use bindex_rs.Index.Batch.{Batch, BlockBytes}
use bindex_rs.Index.Batch as BatchOf
use bindex_rs.Headers.{all_zeros, hash_or_zeros}
use bindex_rs.Headers.Linked.{Linked, tip_from, tip_of_rows, Linked-get_elem?}
use bindex_rs.Chain.Indexing.{
  Node, PerBlockData, Item, Builder, number_items, new_builder, check_windows, build_items,
  check_parents, build, next_height, next_number, fetch_data, fetch_all,
}

abbrev pub headers_of : List Batch → List IndexedHeader
headers_of = map (λ b. b.header)

abbrev pub hashes_of : List IndexedHeader → List (List ℕ)
hashes_of = map (λ h. h.hash)

pub Linked-concat :
    (hash : List ℕ) (height : ℕ) (xs ys : List IndexedHeader)
    → Linked hash height xs
    → Linked (tip_from hash xs) (height + length xs) ys
    → Linked hash height (xs ++ ys)
unfolding tip_from
Linked-concat hash height [] ys l k = subst (λ n. Linked hash n ys) (omega arith) k
Linked-concat hash height (x ∷ xs) ys l k = (
  l.0,
  l.1,
  Linked-concat x.hash (height + 1) xs ys l.2
      (subst (λ n. Linked (tip_from x.hash xs) n ys) (omega arith) k),
)

-- The height behind the last of the rows of a chain.
pub next_height-last :
    (rows : List IndexedHeader)
    → Linked all_zeros 0 rows
    → length rows < 2 ^ 32
    → next_height (get_last? rows) ≡ length rows
unfolding next_height
next_height-last [] l fits = refl
next_height-last (r ∷ rows) l fits =
    let (h, e) = get_elem?-some (r ∷ rows) (length rows) (omega arith) in
    let same : h.height ≡ length rows =
      Linked-get_elem? all_zeros 0 (r ∷ rows) (length rows) h l e ∙ omega arith in
    rw (get_last?-eq-get_elem? r rows) (
      ap next_height e
      ∙ ap (λ n. add32 n 1) same
      ∙ add32_fits (length rows) 1 (omega arith)
      ∙ omega arith)

from_block_lem :
    (height : ℕ) (n : TxNum) (hash raw : List ℕ) (h : IndexedHeader)
    → from_block height n hash raw ≡ ok h
    → (h.height ≡ height) × (h.hash ≡ hash) × (h.next_txnum ≡ n)
unfolding from_block
from_block_lem height n hash raw h e = of (prev_blockhash raw) e
  where
    of :
        (o : Outcome (List ℕ))
        → elim o [
          | ok prev ↦
              ok (record { height = height; next_txnum = n; hash = hash; prev_blockhash = prev })
          | err e ↦ panic
          | panic ↦ panic
        ]
          ≡ ok h
        → (h.height ≡ height) × (h.hash ≡ hash) × (h.next_txnum ≡ n)
    of (ok prev) e =
        let same = ok_inj e in
        (
          sym (ap (λ x. x.height) same),
          sym (ap (λ x. x.hash) same),
          sym (ap (λ x. x.next_txnum) same),
        )
    of (err x) e = cc
    of panic e = cc

-- What a batch's header has from the arguments of `Batch::build`.
build_header :
    (p : Parser) (height : ℕ) (range : TxNumRange) (hash : List ℕ) (block : BlockBytes)
    (spent : List ℕ) (b : Batch)
    → BatchOf.build p height range hash block spent ≡ ok b
    → (b.header.height ≡ height) × (b.header.hash ≡ hash) × (b.header.next_txnum ≡ range.next)
unfolding BatchOf.build
build_header p height range hash block spent b h =
    of (ScriptHash.index bitcoin p block.bytes spent range.first)
      (TxVisit.index p block.bytes range.first) (TxId.index p block.bytes range.first)
      (BatchOf.header block) h
  where
    of :
        (a : Outcome IndexVisitor) (t : Outcome IndexedPositions) (i : Outcome IndexedBlock)
        (r : Outcome (List ℕ))
        → (do
          scripthash ← a
          txpos ← t
          txid ← i
          assert (range.next == scripthash.txnum)
          assert (range.next == txpos.next_txnum)
          assert (range.next == txid.next_txnum)
          raw ← r
          indexed ← Header.from_block height range.next hash raw
          ok (record {
            scripthash_rows = scripthash.rows;
            txid_rows = txid.rows;
            txpos_rows = txpos.rows;
            header = indexed;
            raw_header = raw;
          }))
          ≡ ok b
        → (b.header.height ≡ height) × (b.header.hash ≡ hash) × (b.header.next_txnum ≡ range.next)
    of (ok a) (ok t) (ok i) (ok raw) e =
        let (_, e1) = assert-eq-ok (range.next == a.txnum) _ e in
        let (_, e2) = assert-eq-ok (range.next == t.next_txnum) _ e1 in
        let (_, e3) = assert-eq-ok (range.next == i.next_txnum) _ e2 in
        let (h, made, same) = >>=-eq-ok (Header.from_block height range.next hash raw) _ e3 in
        subst
          (λ (c : Batch).
            (c.header.height ≡ height)
            × (c.header.hash ≡ hash)
            × (c.header.next_txnum ≡ range.next))
          (ok_inj same) (from_block_lem height range.next hash raw h made)
    of (ok a) (ok t) (ok i) (err x) e =
        let (_, e1) = assert-eq-ok (range.next == a.txnum) _ e in
        let (_, e2) = assert-eq-ok (range.next == t.next_txnum) _ e1 in
        let (_, e3) = assert-eq-ok (range.next == i.next_txnum) _ e2 in cc
    of (ok a) (ok t) (ok i) panic e =
        let (_, e1) = assert-eq-ok (range.next == a.txnum) _ e in
        let (_, e2) = assert-eq-ok (range.next == t.next_txnum) _ e1 in
        let (_, e3) = assert-eq-ok (range.next == i.next_txnum) _ e2 in cc
    of (ok a) (ok t) (err x) r e = cc
    of (ok a) (ok t) panic r e = cc
    of (ok a) (err x) i r e = cc
    of (ok a) panic i r e = cc
    of (err x) t i r e = cc
    of panic t i r e = cc

abbrev pub block_hashes : List PerBlockData → List (List ℕ)
block_hashes = map (λ d. d.blockhash)

-- The batches of numbered blocks whose parents were checked.
Linked-build_items :
    (p : Parser) (n : TxNum) (height : ℕ) (tip : List ℕ) (blocks : List PerBlockData)
    (items : List Item) (batches : List Batch)
    → number_items n height blocks ≡ ok items
    → build_items p items ≡ ok batches
    → check_parents tip batches ≡ ok tt
    → height + length blocks < 2 ^ 32
    → Linked tip height (headers_of batches)
      × (hashes_of (headers_of batches) ≡ block_hashes blocks)
unfolding number_items build_items check_parents
Linked-build_items p n height tip [] items batches numbered built checked fits =
    let none_left : batches ≡ [] =
      sym (ok_inj (subst (λ i. build_items p i ≡ ok batches) (sym (ok_inj numbered)) built)) in
    subst (λ b. Linked tip height (headers_of b) × (hashes_of (headers_of b) ≡ [])) (sym none_left)
      (tt, refl)
Linked-build_items p n height tip (d ∷ blocks) items batches numbered built checked fits =
    let (next, _, e1) = >>=-eq-ok (TxNum.increment_by n d.txs_count) _ numbered in
    let (range, _, e2) = >>=-eq-ok (TxNum.new_range n next) _ e1 in
    let (rest, r, same) = >>=-eq-ok (number_items next (add32 height 1) blocks) _ e2 in
    first
      (λ next rest tip bs r made c.
        Linked-build_items p next (height + 1) tip blocks rest bs r made c (omega arith))
      next range rest r (subst (λ i. build_items p i ≡ ok batches) (sym (ok_inj same)) built)
  where
    -- The statement for the other blocks.
    Others : Type 0
    Others =
        (next : TxNum) (rest : List Item) (tip : List ℕ) (bs : List Batch)
        → number_items next (height + 1) blocks ≡ ok rest
        → build_items p rest ≡ ok bs
        → check_parents tip bs ≡ ok tt
        → Linked tip (height + 1) (headers_of bs)
          × (hashes_of (headers_of bs) ≡ block_hashes blocks)

    last :
        Others
        → (next : TxNum) (rest : List Item) (b : Batch) (bs : List Batch)
        → number_items next (add32 height 1) blocks ≡ ok rest
        → build_items p rest ≡ ok bs
        → (b.header.height ≡ height) × (b.header.hash ≡ d.blockhash)
        → check_parents tip (b ∷ bs) ≡ ok tt
        → Linked tip height (headers_of (b ∷ bs))
          × (hashes_of (headers_of (b ∷ bs)) ≡ block_hashes (d ∷ blocks))
    last ih next rest b bs r made (h, k) c =
        let (parent, c') = assert-eq-ok (bytes_eq tip b.header.prev_blockhash) _ c in
        let (l, m) =
          ih next rest b.header.hash bs
            (subst (λ m. number_items next m blocks ≡ ok rest) (add32_fits height 1 (omega arith))
              r)
            made c' in
        ((sym ((bytes_eq_iff tip b.header.prev_blockhash).0 parent), h, l), rw (k, m))

    first :
        Others
        → (next : TxNum) (range : TxNumRange) (rest : List Item)
        → number_items next (add32 height 1) blocks ≡ ok rest
        → build_items p (record { height = height; range = range; block = d } ∷ rest) ≡ ok batches
        → Linked tip height (headers_of batches)
          × (hashes_of (headers_of batches) ≡ block_hashes (d ∷ blocks))
    first ih next range rest r b =
        let (_, b1) = assert-eq-ok (range.len == d.txs_count) _ b in
        let (batch, made, b2) =
          >>=-eq-ok (BatchOf.build p height range d.blockhash d.block_bytes d.spent_bytes) _ b1 in
        let (bs, more, same) = >>=-eq-ok (build_items p rest) _ b2 in
        let (h, k, _) =
          build_header p height range d.blockhash d.block_bytes d.spent_bytes batch made in
        subst
          (λ l.
            Linked tip height (headers_of l)
            × (hashes_of (headers_of l) ≡ block_hashes (d ∷ blocks)))
          (ok_inj same)
          (last ih next rest batch bs r more (h, k)
            (subst (λ l. check_parents tip l ≡ ok tt) (sym (ok_inj same)) checked))

fetch_data_hash :
    (p : Parser) (node : Node) (hash : List ℕ) (d : PerBlockData)
    → fetch_data p node hash ≡ ok d
    → d.blockhash ≡ hash
unfolding fetch_data
fetch_data_hash p node hash d e =
    let (block, _, e1) = >>=-eq-ok (node.get_block_bytes hash) _ e in
    let (spent, _, e2) = >>=-eq-ok (node.get_spent_bytes hash) _ e1 in
    let (n, _, e3) = >>=-eq-ok (BatchOf.txs_count p block) _ e2 in
    let (m, _, e4) = >>=-eq-ok (BatchOf.parse_txs_count p spent) _ e3 in
    let (_, same) = assert-eq-ok (n == m) _ e4 in sym (ap (λ x. x.blockhash) (ok_inj same))

-- The blocks that are fetched are those asked for.
pub fetch_all-block_hashes :
    (p : Parser) (node : Node) (hashes : List (List ℕ)) (blocks : List PerBlockData)
    → fetch_all p node hashes ≡ ok blocks
    → block_hashes blocks ≡ hashes
unfolding fetch_all
fetch_all-block_hashes p node [] blocks e = sym (ap block_hashes (ok_inj e))
fetch_all-block_hashes p node (hash ∷ hashes) blocks e =
    let (d, fetched, e1) = >>=-eq-ok (fetch_data p node hash) _ e in
    let (rest, r, same) = >>=-eq-ok (fetch_all p node hashes) _ e1 in
    sym (ap block_hashes (ok_inj same))
    ∙ rw (fetch_data_hash p node hash d fetched, fetch_all-block_hashes p node hashes rest r)

-- One round of the loop of `index`: the chain's rows with those of the batches so far are `rows`.
pub Linked-build :
    (p : Parser) (rows : List IndexedHeader) (blocks : List PerBlockData) (builder : Builder)
    (batches : List Batch)
    → Linked all_zeros 0 rows
    → new_builder (get_last? rows) blocks ≡ ok builder
    → build p builder ≡ ok batches
    → length rows + length blocks < 2 ^ 32
    → Linked all_zeros 0 (rows ++ headers_of batches)
      × (hashes_of (headers_of batches) ≡ block_hashes blocks)
unfolding new_builder build
Linked-build p rows blocks builder batches l made built fits =
    let (items, numbered, same) =
      >>=-eq-ok (number_items (next_number (get_last? rows)) (next_height (get_last? rows)) blocks)
        _ made in
    let (_, _, b1) = >>=-eq-ok (check_windows builder.items) _ built in
    let (bs, more, b2) = >>=-eq-ok (build_items p builder.items) _ b1 in
    let (_, checked, b3) = >>=-eq-ok (check_parents builder.tip bs) _ b2 in
    let (k, hashes) =
      at items bs
        (subst (λ h. number_items (next_number (get_last? rows)) h blocks ≡ ok items)
          (next_height-last rows l (omega arith)) numbered)
        (subst (λ (b : Builder). build_items p b.items ≡ ok bs) (sym (ok_inj same)) more)
        (subst (λ (b : Builder). check_parents b.tip bs ≡ ok tt) (sym (ok_inj same)) checked) in
    subst
      (λ c.
        Linked all_zeros 0 (rows ++ headers_of c)
        × (hashes_of (headers_of c) ≡ block_hashes blocks))
      (ok_inj b3) (Linked-concat all_zeros 0 rows (headers_of bs) l k, hashes)
  where
    at :
        (items : List Item) (bs : List Batch)
        → number_items (next_number (get_last? rows)) (length rows) blocks ≡ ok items
        → build_items p items ≡ ok bs
        → check_parents (hash_or_zeros (get_last? rows)) bs ≡ ok tt
        → Linked (tip_from all_zeros rows) (0 + length rows) (headers_of bs)
          × (hashes_of (headers_of bs) ≡ block_hashes blocks)
    at items bs n b c =
        let (k, h) =
          Linked-build_items p (next_number (get_last? rows)) (length rows)
            (tip_from all_zeros rows) blocks items bs n b
            (subst (λ t. check_parents t bs ≡ ok tt) (tip_of_rows rows) c) fits in
        (subst (λ m. Linked (tip_from all_zeros rows) m (headers_of bs)) (omega arith) k, h)

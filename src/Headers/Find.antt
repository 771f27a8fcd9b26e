-- ===== src/Headers/Find.antt =====
-- `find_by_txnum`: the block of a transaction number.
use bindex_rs.Common.{
  ℕ, zero, suc, ◌+◌, ◌-◌, ◌%◌, ◌^◌, ◌≤◌, ◌<◌, ◌≡◌, refl, ap, inl, inr, some, List, [], ◌∷◌, arith,
  ltb, ltb→lt, lt→ltb, le→leb, lt→leb_false, Bool-cases,
}
use bindex_rs.Common.{length, get_elem?, get_last?, get_elem?-none}
use bindex_rs.Common.{ok, panic}
use bindex_rs.Index.TxNum
use bindex_rs.Index.TxNum.{TxNum}
use bindex_rs.Index.Header.{IndexedHeader}
use bindex_rs.Headers.{
  Headers, Location, header_at_height, partition_point, before, txnum_or_default, find_by_txnum,
  tip,
}

-- Each row's `next_txnum` is at least that of the row before, the first at least `base`.
abbrev pub Ascending : TxNum → List IndexedHeader → Type 0
Ascending base [] = Unit
Ascending base (row ∷ rows) = (base ≤ row.next_txnum) × Ascending row.next_txnum rows

-- The number of the first transaction of the block at a height.
abbrev pub first_txnum : TxNum → List IndexedHeader → ℕ → TxNum
first_txnum base rows zero = base
first_txnum base [] (suc i) = base
first_txnum base (row ∷ rows) (suc i) = first_txnum row.next_txnum rows i

first_txnum-le :
    (base : TxNum) (rows : List IndexedHeader) (i : ℕ)
    → Ascending base rows
    → base ≤ first_txnum base rows i
first_txnum-le base rows zero a = omega arith
first_txnum-le base [] (suc i) a = omega arith
first_txnum-le base (row ∷ rows) (suc i) a = omega (arith, first_txnum-le row.next_txnum rows i a.1)

partition_point_lem :
    (base : TxNum) (rows : List IndexedHeader) (i : ℕ) (t : TxNum) (h : IndexedHeader)
    → Ascending base rows
    → get_elem? rows i ≡ some h
    → first_txnum base rows i ≤ t
    → t < h.next_txnum
    → partition_point t rows ≡ i
unfolding partition_point
partition_point_lem base [] i t h a e lo hi = cc
partition_point_lem base (r ∷ rows) zero t h a e lo hi =
    let same : r.next_txnum ≡ h.next_txnum = cc in rw (lt→leb_false r.next_txnum t (omega arith))
partition_point_lem base (r ∷ rows) (suc i) t h a e lo hi =
    rw (le→leb r.next_txnum t (omega (arith, first_txnum-le r.next_txnum rows i a.1)))
      (ap suc (partition_point_lem r.next_txnum rows i t h a.1 e lo hi))

-- The row before height `i` holds its first number.
row_before :
    (base : TxNum) (rows : List IndexedHeader) (i : ℕ)
    → suc i ≤ length rows
    → txnum_or_default (get_elem? rows i) ≡ first_txnum base rows (suc i)
unfolding txnum_or_default
row_before base [] i h = absurd (omega arith)
row_before base (r ∷ rows) zero h = refl
row_before base (r ∷ rows) (suc i) h = row_before r.next_txnum rows i (omega arith)

prev_txnum :
    (rows : List IndexedHeader) (i : ℕ)
    → length rows < 2 ^ 64
    → i ≤ length rows
    → txnum_or_default (get_elem? rows (before i)) ≡ first_txnum 0 rows i
unfolding before
prev_txnum rows zero h k =
    rw (get_elem?-none rows ((0 + 2 ^ 64 - 1) % 2 ^ 64) (omega arith))
      (unfold txnum_or_default in refl)
prev_txnum rows (suc i) h k =
    let e : (suc i + 2 ^ 64 - 1) % 2 ^ 64 ≡ i = omega arith in rw e (row_before 0 rows i k)

get_elem?→lt :
    (rows : List IndexedHeader) (i : ℕ) {h : IndexedHeader}
    → get_elem? rows i ≡ some h
    → i < length rows
get_elem?→lt [] i e = cc
get_elem?→lt (r ∷ rows) zero e = omega arith
get_elem?→lt (r ∷ rows) (suc i) e = omega (arith, get_elem?→lt rows i e)

-- In an ascending chain, a number from the first of the block at height `i` up to, but not
-- including, that block's `next_txnum` is located at height `i`, at its distance from the first.
pub find_by_txnum_lem :
    (self : Headers) (i : ℕ) (t : TxNum) (h : IndexedHeader)
    → Ascending 0 self.rows
    → length self.rows < 2 ^ 64
    → header_at_height self i ≡ some h
    → first_txnum 0 self.rows i ≤ t
    → t < h.next_txnum
    → find_by_txnum self t
      ≡ ok (record {
        txnum = t;
        block_height = i;
        block_offset = t - first_txnum 0 self.rows i;
        indexed_header = h;
      })
unfolding find_by_txnum header_at_height TxNum.offset_from
find_by_txnum_lem self i t h a small e lo hi =
    rw (partition_point_lem 0 self.rows i t h a e lo hi) (
      rw e (
        rw (lt→ltb t h.next_txnum hi) (
          rw (prev_txnum self.rows i small (omega (arith, get_elem?→lt self.rows i e)))
            (rw (le→leb (first_txnum 0 self.rows i) t lo)))))

-- A number below the last row's falls into the block of some row.
block_of :
    (base : TxNum) (rows : List IndexedHeader) (t : TxNum) (top : IndexedHeader)
    → base ≤ t
    → get_last? rows ≡ some top
    → t < top.next_txnum
    → (i : ℕ) × (h : IndexedHeader) × (get_elem? rows i ≡ some h)
      × (first_txnum base rows i ≤ t)
      × (t < h.next_txnum)
block_of base [] t top lo e hi = cc
block_of base (r ∷ []) t top lo e hi = (0, r, refl, lo, ground arith)
block_of base (r ∷ s ∷ rows) t top lo e hi = elim (Bool-cases (ltb t r.next_txnum)) [
  | inl here ↦ (0, r, refl, lo, ltb→lt t r.next_txnum here)
  | inr later ↦
      let (i, h, at_i, from, upto) = block_of r.next_txnum (s ∷ rows) t top (ground arith) e hi in
      (suc i, h, at_i, from, upto)
]

last_some :
    (x : IndexedHeader) (xs : List IndexedHeader)
    → (top : IndexedHeader) × (get_last? (x ∷ xs) ≡ some top)
last_some x [] = (x, refl)
last_some x (y ∷ r) = last_some y r

get_last?-ge :
    (base : TxNum) (rows : List IndexedHeader) (top : IndexedHeader)
    → Ascending base rows
    → get_last? rows ≡ some top
    → base ≤ top.next_txnum
get_last?-ge base [] top a e = cc
get_last?-ge base (r ∷ []) top a e = ground arith
get_last?-ge base (r ∷ s ∷ rows) top a e =
    omega (arith, get_last?-ge r.next_txnum (s ∷ rows) top a.1 e)

partition_point_all :
    (base : TxNum) (rows : List IndexedHeader) (t : TxNum)
    → Ascending base rows
    → ((top : IndexedHeader) → get_last? rows ≡ some top → top.next_txnum ≤ t)
    → partition_point t rows ≡ length rows
unfolding partition_point
partition_point_all base [] t a below = refl
partition_point_all base (r ∷ []) t a below = rw (le→leb r.next_txnum t (below r refl))
partition_point_all base (r ∷ s ∷ rows) t a below =
    let rest = partition_point_all r.next_txnum (s ∷ rows) t a.1 below in
    let (top, is_last) = last_some s rows in
    let bound = get_last?-ge r.next_txnum (s ∷ rows) top a.1 is_last in
    let low : r.next_txnum ≤ t = omega (arith, below top is_last) in ground (arith, rest, low)

module _ (self : Headers) (t : TxNum) (top : IndexedHeader) (a : Ascending 0 self.rows)
    (small : length self.rows < 2 ^ 64) (e : tip self ≡ some top) where
  -- In an ascending chain of fewer than 2^64 rows, every number below the tip's `next_txnum` is
  -- located: at a height whose row is returned, among that block's numbers, at its distance from
  -- the block's first.
  pub find_by_txnum_inside :
      t < top.next_txnum
      → (loc : Location) × (find_by_txnum self t ≡ ok loc)
        × (header_at_height self loc.block_height ≡ some loc.indexed_header)
        × (first_txnum 0 self.rows loc.block_height + loc.block_offset ≡ t)
        × (t < loc.indexed_header.next_txnum)
  unfolding tip header_at_height
  find_by_txnum_inside inside =
      let (i, h, at_i, from, upto) = block_of 0 self.rows t top (omega arith) e inside in
      (
        record {
          txnum = t;
          block_height = i;
          block_offset = t - first_txnum 0 self.rows i;
          indexed_header = h;
        },
        find_by_txnum_lem self i t h a small at_i from upto,
        at_i,
        omega arith,
        upto,
      )

  -- In an ascending chain the lookup of a number that is not below the tip's `next_txnum` panics.
  pub find_by_txnum_outside : top.next_txnum ≤ t → find_by_txnum self t ≡ panic
  unfolding tip find_by_txnum
  find_by_txnum_outside outside =
      rw (partition_point_all 0 self.rows t a (λ other is_last. ground arith))
        (rw (get_elem?-none self.rows (length self.rows) (omega arith)))

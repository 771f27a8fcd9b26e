-- ===== src/Index/TxPos/Lookup.antt =====
-- Rows made by `chunkify` give back every position that went in.
use bindex_rs.Common.{
  ℕ, zero, suc, ◌+◌, ◌-◌, ◌^◌, ◌≤◌, ◌<◌, ◌≡◌, refl, sym, ap, ◌∙◌, inl, inr, Option, none, some,
  List, [], ◌∷◌, ◌++◌, map, arith, ltb, leb, some_inj, if◌then◌else◌, ltb→lt, le→leb, lt→leb_false,
  ltb_false→le, ==_iff, Bool-cases,
}
use bindex_rs.Common.{
  length, get_elem?, take, drop, get_last?, All, length-take, length-drop, get_last?-eq-get_elem?,
}
use bindex_rs.Common.{ok, ok_inj}
use bindex_rs.Common.Words.{add32, sub32, add32_fits, sub32_fits}
use bindex_rs.Index.TxNum.{TxNum}
use bindex_rs.Index.TxPos.{
  TxBlockPos, Offsets, TxBlockPosRow, check_positions, chunk_row, chunk_rows, chunkify,
  get_tx_block_pos,
}

abbrev pub Positions : Type 0
Positions = List (TxNum × TxBlockPos)

-- Consecutive numbers, each transaction beginning where the one before it ends.
abbrev pub Contiguous : Positions → Type 0
Contiguous [] = Unit
Contiguous (p ∷ []) = Unit
Contiguous (p ∷ q ∷ r) = (q.0 ≡ p.0 + 1) × (q.1.offset ≡ p.1.offset + p.1.size) × Contiguous (q ∷ r)

-- Every transaction ends below 2^32.
abbrev pub Fit : Positions → Type 0
Fit = All (λ p. p.1.offset + p.1.size < 2 ^ 32)

-- The row that a scan from the key of `n` meets first.
abbrev pub first_from : TxNum → List TxBlockPosRow → Option TxBlockPosRow
first_from n [] = none
first_from n (row ∷ rows) =
    let rest = first_from n rows in if leb n row.last_txnum then some row else rest

Contiguous-tail : (p : TxNum × TxBlockPos) (ps : Positions) → Contiguous (p ∷ ps) → Contiguous ps
Contiguous-tail p [] h = tt
Contiguous-tail p (q ∷ r) h = h.2

Contiguous-drop : (n : ℕ) (ps : Positions) → Contiguous ps → Contiguous (drop n ps)
Contiguous-drop zero ps h = h
Contiguous-drop (suc n) [] h = tt
Contiguous-drop (suc n) (p ∷ ps) h = Contiguous-drop n ps (Contiguous-tail p ps h)

Contiguous-take : (n : ℕ) (ps : Positions) → Contiguous ps → Contiguous (take n ps)
Contiguous-take zero ps h = tt
Contiguous-take (suc n) [] h = tt
Contiguous-take (suc zero) (p ∷ ps) h = tt
Contiguous-take (suc (suc n)) (p ∷ []) h = tt
Contiguous-take (suc (suc n)) (p ∷ q ∷ r) h = (h.0, h.1, Contiguous-take (suc n) (q ∷ r) h.2)

-- The number of the entry at an index.
number_at :
    (p : TxNum × TxBlockPos) (ps : Positions) (i : ℕ) (q : TxNum × TxBlockPos)
    → Contiguous (p ∷ ps)
    → get_elem? (p ∷ ps) i ≡ some q
    → q.0 ≡ p.0 + i
number_at p ps zero q h e = ground arith
number_at p [] (suc i) q h e = cc
number_at p (r ∷ ps) (suc i) q h e = omega (arith, number_at r ps i q h.2 e)

-- The last entry of a chunk.
last_number :
    (p : TxNum × TxBlockPos) (ps : Positions) (q : TxNum × TxBlockPos)
    → Contiguous (p ∷ ps)
    → get_last? (p ∷ ps) ≡ some q
    → q.0 ≡ p.0 + length ps
last_number p ps q h e = number_at p ps (length ps) q h (sym (get_last?-eq-get_elem? p ps) ∙ e)

-- The offsets of a chunk, with the end of its last transaction.
offsets_of : Positions → Offsets
offsets_of [] = []
offsets_of (p ∷ []) = p.1.offset ∷ add32 p.1.offset p.1.size ∷ []
offsets_of (p ∷ q ∷ r) = p.1.offset ∷ offsets_of (q ∷ r)

offsets_end :
    (p : TxNum × TxBlockPos) (ps : Positions) (q : TxNum × TxBlockPos)
    → get_last? (p ∷ ps) ≡ some q
    → map (λ x. x.1.offset) (p ∷ ps) ++ add32 q.1.offset q.1.size ∷ [] ≡ offsets_of (p ∷ ps)
unfolding offsets_of
offsets_end p [] q e =
    let same : p ≡ q = some_inj e in
    ap (λ x. p.1.offset ∷ add32 x.1.offset x.1.size ∷ []) (sym same)
offsets_end p (r ∷ ps) q e = ap (λ t. p.1.offset ∷ t) (offsets_end r ps q e)

chunk_row_lem :
    (p : TxNum × TxBlockPos) (ps : Positions) (q : TxNum × TxBlockPos)
    → get_last? (p ∷ ps) ≡ some q
    → chunk_row (p ∷ ps) ≡ ok (record { last_txnum = q.0; offsets = offsets_of (p ∷ ps) })
unfolding chunk_row
chunk_row_lem p ps q e =
    rw e (ap (λ t. ok (record { last_txnum = q.0; offsets = t })) (offsets_end p ps q e))

length-offsets_of :
    (p : TxNum × TxBlockPos) (ps : Positions) → length (offsets_of (p ∷ ps)) ≡ length ps + 2
unfolding offsets_of
length-offsets_of p [] = omega arith
length-offsets_of p (q ∷ r) = omega (arith, length-offsets_of q r)

first_offset :
    (p : TxNum × TxBlockPos) (ps : Positions) → get_elem? (offsets_of (p ∷ ps)) 0 ≡ some p.1.offset
unfolding offsets_of
first_offset p [] = refl
first_offset p (q ∷ r) = refl

offsets_at :
    (p : TxNum × TxBlockPos) (ps : Positions) (i : ℕ) (q : TxNum × TxBlockPos)
    → Contiguous (p ∷ ps)
    → Fit (p ∷ ps)
    → get_elem? (p ∷ ps) i ≡ some q
    → (get_elem? (offsets_of (p ∷ ps)) i ≡ some q.1.offset)
      × (get_elem? (offsets_of (p ∷ ps)) (suc i) ≡ some (q.1.offset + q.1.size))
unfolding offsets_of
offsets_at p [] zero q c f e =
    let same : p ≡ q = some_inj e in
    rw (← same) (refl, ap some (add32_fits p.1.offset p.1.size f.0))
offsets_at p [] (suc i) q c f e = cc
offsets_at p (r ∷ ps) zero q c f e =
    let same : p ≡ q = some_inj e in rw (← same) (refl, first_offset r ps ∙ ap some c.1)
offsets_at p (r ∷ ps) (suc i) q c f e = offsets_at r ps i q c.2 f.1 e

Fit-get :
    (ps : Positions) (i : ℕ) (q : TxNum × TxBlockPos)
    → Fit ps
    → get_elem? ps i ≡ some q
    → q.1.offset + q.1.size < 2 ^ 32
Fit-get [] i q f e = cc
Fit-get (p ∷ ps) zero q f e = let same : p ≡ q = some_inj e in rw (← same) f.0
Fit-get (p ∷ ps) (suc i) q f e = Fit-get ps i q f.1 e

get_elem?→lt :
    (ps : Positions) (i : ℕ) (q : TxNum × TxBlockPos) → get_elem? ps i ≡ some q → i < length ps
get_elem?→lt [] i q e = cc
get_elem?→lt (p ∷ ps) zero q e = omega arith
get_elem?→lt (p ∷ ps) (suc i) q e = omega (arith, get_elem?→lt ps i q e)

-- The row of a chunk gives back the entry at every index of the chunk.
in_row :
    (p : TxNum × TxBlockPos) (ps : Positions) (i : ℕ) (q l : TxNum × TxBlockPos)
    → Contiguous (p ∷ ps)
    → Fit (p ∷ ps)
    → get_last? (p ∷ ps) ≡ some l
    → get_elem? (p ∷ ps) i ≡ some q
    → (q.0 ≤ l.0)
      × (get_tx_block_pos (record { last_txnum = l.0; offsets = offsets_of (p ∷ ps) }) q.0 ≡ ok q.1)
unfolding get_tx_block_pos
in_row p ps i q l c f el e =
    let n = number_at p ps i q c e in
    let m = last_number p ps l c el in
    let inside = get_elem?→lt (p ∷ ps) i q e in
    let size = length-offsets_of p ps in
    let delta : l.0 - q.0 ≡ length ps - i = omega arith in
    let at : length ps + 2 - 1 - (length ps - i + 1) ≡ i = omega arith in
    let (begin, end) = offsets_at p ps i q c f e in
    let next : i + 1 ≡ suc i = omega arith in
    let fits = Fit-get (p ∷ ps) i q f e in
    let width : sub32 (q.1.offset + q.1.size) q.1.offset ≡ q.1.size =
      sub32_fits (q.1.offset + q.1.size) q.1.offset fits (omega arith) ∙ omega arith in
    (
      omega arith,
      rw size (
          rw (le→leb 1 (length ps + 2) (omega arith)) (
            rw (le→leb q.0 l.0 (omega arith)) (
              rw delta (
                rw (le→leb (length ps - i + 1) (length ps + 2 - 1) (omega arith))
                  (rw at (rw begin (rw next (rw end (rw width))))))))),
    )

get_elem?-take : (n : ℕ) (ps : Positions) (i : ℕ) → i < n → get_elem? (take n ps) i ≡ get_elem? ps i
get_elem?-take zero ps i h = elim h [ ]
get_elem?-take (suc n) [] i h = refl
get_elem?-take (suc n) (p ∷ ps) zero h = refl
get_elem?-take (suc n) (p ∷ ps) (suc i) h = get_elem?-take n ps i (omega arith)

get_elem?-drop :
    (n : ℕ) (ps : Positions) (i : ℕ) → n ≤ i → get_elem? (drop n ps) (i - n) ≡ get_elem? ps i
get_elem?-drop zero ps i h = ap (get_elem? ps) (omega arith)
get_elem?-drop (suc n) [] i h = refl
get_elem?-drop (suc n) (p ∷ ps) zero h = absurd (omega arith)
get_elem?-drop (suc n) (p ∷ ps) (suc i) h =
    let e : suc i - suc n ≡ i - n = omega arith in rw e (get_elem?-drop n ps i (omega arith))

Fit-take : (n : ℕ) (ps : Positions) → Fit ps → Fit (take n ps)
Fit-take zero ps f = tt
Fit-take (suc n) [] f = tt
Fit-take (suc n) (p ∷ ps) f = (f.0, Fit-take n ps f.1)

Fit-drop : (n : ℕ) (ps : Positions) → Fit ps → Fit (drop n ps)
Fit-drop zero ps f = f
Fit-drop (suc n) [] f = tt
Fit-drop (suc n) (p ∷ ps) f = Fit-drop n ps f.1

last_some :
    (p : TxNum × TxBlockPos) (ps : Positions)
    → (l : TxNum × TxBlockPos) × (get_last? (p ∷ ps) ≡ some l)
last_some p [] = (p, refl)
last_some p (q ∷ r) = last_some q r

abbrev row_of : TxNum × TxBlockPos → Positions → TxNum × TxBlockPos → TxBlockPosRow
row_of p ps l = record { last_txnum = l.0; offsets = offsets_of (p ∷ ps) }

-- One round of the loop over the chunks.
chunk_rows_step :
    (fuel : ℕ) (p : TxNum × TxBlockPos) (ps : Positions) (l : TxNum × TxBlockPos)
    (rows : List TxBlockPosRow)
    → get_last? (p ∷ take 63 ps) ≡ some l
    → chunk_rows fuel (drop 63 ps) ≡ ok rows
    → chunk_rows (suc fuel) (p ∷ ps) ≡ ok (row_of p (take 63 ps) l ∷ rows)
unfolding chunk_rows
chunk_rows_step fuel p ps l rows el e = rw (chunk_row_lem p (take 63 ps) l el) (rw e)

-- With a round for each entry, the chunks are all made.
chunk_rows_total :
    (fuel : ℕ) (ps : Positions)
    → length ps ≤ fuel
    → (rows : List TxBlockPosRow) × (chunk_rows fuel ps ≡ ok rows)
chunk_rows_total fuel [] h = ([], unfold chunk_rows in refl)
chunk_rows_total zero (p ∷ ps) h = absurd (omega arith)
chunk_rows_total (suc fuel) (p ∷ ps) h =
    let (l, el) = last_some p (take 63 ps) in
    let (rows, e) = chunk_rows_total fuel (drop 63 ps) (omega (arith, length-drop 63 ps)) in
    (row_of p (take 63 ps) l ∷ rows, chunk_rows_step fuel p ps l rows el e)

chunk_rows_lookup :
    (fuel : ℕ) (ps : Positions) (i : ℕ) (q : TxNum × TxBlockPos) (rows : List TxBlockPosRow)
    → length ps ≤ fuel
    → Contiguous ps
    → Fit ps
    → chunk_rows fuel ps ≡ ok rows
    → get_elem? ps i ≡ some q
    → (row : TxBlockPosRow) × (first_from q.0 rows ≡ some row) × (get_tx_block_pos row q.0 ≡ ok q.1)
chunk_rows_lookup fuel [] i q rows h c f er e = cc
chunk_rows_lookup zero (p ∷ ps) i q rows h c f er e = absurd (omega arith)
chunk_rows_lookup (suc fuel) (p ∷ ps) i q rows h c f er e =
    let room : length (drop 63 ps) ≤ fuel = omega (arith, length-drop 63 ps) in
    let (l, el) = last_some p (take 63 ps) in
    let (rows', e') = chunk_rows_total fuel (drop 63 ps) room in
    let shape : rows ≡ row_of p (take 63 ps) l ∷ rows' =
      ok_inj (sym er ∙ chunk_rows_step fuel p ps l rows' el e') in
    rw shape (elim (Bool-cases (ltb i 64)) [
      | inl near ↦
          let (le, found) =
            in_row p (take 63 ps) i q l (Contiguous-take 64 (p ∷ ps) c) (Fit-take 64 (p ∷ ps) f) el
              (get_elem?-take 64 (p ∷ ps) i (ltb→lt i 64 near) ∙ e) in
          (row_of p (take 63 ps) l, rw (le→leb q.0 l.0 le), found)
      | inr far ↦
          let past : 64 ≤ i = ltb_false→le i 64 far in
          let (row, first, found) =
            chunk_rows_lookup fuel (drop 63 ps) (i - 64) q rows' room
              (Contiguous-drop 63 ps (Contiguous-tail p ps c)) (Fit-drop 63 ps f.1) e'
              (get_elem?-drop 64 (p ∷ ps) i past ∙ e) in
          let before : l.0 < q.0 = omega (
            arith,
            number_at p ps i q c e,
            last_number p (take 63 ps) l (Contiguous-take 64 (p ∷ ps) c) el,
            length-take 63 ps,
          ) in
          (row, rw (lt→leb_false q.0 l.0 before) first, found)
    ])

check_positions_pass : (ps : Positions) → Contiguous ps → Fit ps → check_positions ps ≡ ok tt
unfolding check_positions
check_positions_pass [] c f = refl
check_positions_pass (p ∷ []) c f = refl
check_positions_pass (p ∷ q ∷ r) c f =
    let step : q.0 - p.0 ≡ 1 = omega (arith, c.0) in
    rw (le→leb p.0 q.0 (omega (arith, c.0))) (
      rw step (
        rw (add32_fits p.1.offset p.1.size f.0) (
          rw ((==_iff (p.1.offset + p.1.size) q.1.offset).1 (sym c.1))
            (check_positions_pass (q ∷ r) c.2 f.1))))

-- For contiguous positions that end below 2^32, `chunkify` succeeds, and for every one of them the
-- first row whose key is not below its number gives back its offset and size.
pub chunkify_lookup :
    (ps : Positions) (i : ℕ) (q : TxNum × TxBlockPos)
    → Contiguous ps
    → Fit ps
    → get_elem? ps i ≡ some q
    → (rows : List TxBlockPosRow) × (row : TxBlockPosRow) × (chunkify ps ≡ ok rows)
      × (first_from q.0 rows ≡ some row)
      × (get_tx_block_pos row q.0 ≡ ok q.1)
unfolding chunkify
chunkify_lookup ps i q c f e =
    let (rows, made) = chunk_rows_total (length ps) ps (omega arith) in
    let (row, first, found) = chunk_rows_lookup (length ps) ps i q rows (omega arith) c f made e in
    (rows, row, rw (check_positions_pass ps c f) made, first, found)

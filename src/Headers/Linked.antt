-- ===== src/Headers/Linked.antt =====
-- The invariant of the header chain: each row at its height, above its parent.
use bindex_rs.Common.{
  ℕ, zero, suc, ◌+◌, ◌≡◌, refl, sym, ◌∙◌, subst, ◌↔◌, ◌⊎◌, inl, inr, some, List, [], ◌∷◌, ◌++◌,
  arith, ◌==◌, ==_iff,
}
use bindex_rs.Common.{
  length, get_elem?, get_last?, without_last, get_last?-append, without_last-append,
}
use bindex_rs.Common.{ok, panic, assert-eq-ok, ok_inj}
use bindex_rs.Common.Bytes.{bytes_eq, bytes_eq_iff}
use bindex_rs.Index.Header.{IndexedHeader}
use bindex_rs.Headers.{
  Headers, all_zeros, check_rows, new, hash_or_zeros, tip_hash, add, pop, header_at_height,
}

-- Rows that follow a block with the hash `hash`, the first of them at `height`.
abbrev pub Linked : List ℕ → ℕ → List IndexedHeader → Type 0
Linked hash height [] = Unit
Linked hash height (row ∷ rows) =
    (row.prev_blockhash ≡ hash) × (row.height ≡ height) × Linked row.hash (height + 1) rows

pub record IsChain (self : Headers) : Type 0 where
  pub linked : Linked all_zeros 0 self.rows

check_rows→Linked :
    (hash : List ℕ) (height : ℕ) (rows : List IndexedHeader)
    → check_rows hash height rows ≡ ok tt
    → Linked hash height rows
unfolding check_rows
check_rows→Linked hash height [] h = tt
check_rows→Linked hash height (row ∷ rows) h =
    let (p, k) = assert-eq-ok (bytes_eq row.prev_blockhash hash) _ h in
    let (q, l) = assert-eq-ok (row.height == height) _ k in
    (
      (bytes_eq_iff row.prev_blockhash hash).0 p,
      (==_iff row.height height).0 q,
      check_rows→Linked row.hash (height + 1) rows l,
    )

Linked→check_rows :
    (hash : List ℕ) (height : ℕ) (rows : List IndexedHeader)
    → Linked hash height rows
    → check_rows hash height rows ≡ ok tt
unfolding check_rows
Linked→check_rows hash height [] h = refl
Linked→check_rows hash height (row ∷ rows) (p, q, l) =
    rw ((bytes_eq_iff row.prev_blockhash hash).1 p)
      (rw ((==_iff row.height height).1 q) (Linked→check_rows row.hash (height + 1) rows l))

check_rows_cases :
    (hash : List ℕ) (height : ℕ) (rows : List IndexedHeader)
    → (check_rows hash height rows ≡ ok tt) ⊎ (check_rows hash height rows ≡ panic)
unfolding check_rows
check_rows_cases hash height [] = inl refl
check_rows_cases hash height (row ∷ rows) =
    ground (arith, check_rows_cases row.hash (height + 1) rows)

-- `new` accepts exactly the lists of rows that form a chain from the zero hash at height 0, and
-- keeps the rows; on every other list it panics.
pub new_iff :
    (rows : List IndexedHeader)
    → ((new rows ≡ ok (record { rows = rows })) ↔ IsChain (record { rows = rows }))
      × ((new rows ≡ panic) ↔ (¬ IsChain (record { rows = rows })))
unfolding new
new_iff rows = elim (check_rows_cases all_zeros 0 rows) [
  | inl e ↦
      let chain : IsChain (record { rows = rows }) = record {
        linked = check_rows→Linked all_zeros 0 rows e;
      } in
      ((λ _. chain, λ _. rw e), (λ p. ground (arith, e), λ no_chain. absurd (no_chain chain)))
  | inr e ↦
      let no_chain : ¬ IsChain (record { rows = rows }) =
        λ c. cc (e, Linked→check_rows all_zeros 0 rows c.linked) in
      ((λ p. ground (arith, e), λ c. absurd (no_chain c)), (λ _. no_chain, λ _. rw e))
]

pub new-IsChain :
    (rows : List IndexedHeader) (headers : Headers) → new rows ≡ ok headers → IsChain headers
unfolding new
new-IsChain rows headers e = elim (check_rows_cases all_zeros 0 rows) [
  | inl f ↦
      let kept : ok (record { rows = rows }) ≡ ok headers = sym (rw f) ∙ e in
      subst IsChain (ok_inj kept) (record { linked = check_rows→Linked all_zeros 0 rows f })
  | inr f ↦ let refused : panic ≡ ok headers = sym (rw f) ∙ e in cc
]

-- The hash that the next row must name.
unfoldable pub tip_from : List ℕ → List IndexedHeader → List ℕ
tip_from hash [] = hash
tip_from hash (row ∷ rows) = tip_from row.hash rows

tip_from-last :
    (hash : List ℕ) (row : IndexedHeader) (rows : List IndexedHeader)
    → hash_or_zeros (get_last? (row ∷ rows)) ≡ tip_from hash (row ∷ rows)
unfolding hash_or_zeros tip_from
tip_from-last hash row [] = refl
tip_from-last hash row (r ∷ rows) = tip_from-last row.hash r rows

pub tip_of_rows :
    (rows : List IndexedHeader) → hash_or_zeros (get_last? rows) ≡ tip_from all_zeros rows
unfolding hash_or_zeros tip_from
tip_of_rows [] = refl
tip_of_rows (r ∷ rows) = tip_from-last all_zeros r rows

pub Linked-append :
    (hash : List ℕ) (height : ℕ) (rows : List IndexedHeader) (t : IndexedHeader)
    → Linked hash height rows
    → t.prev_blockhash ≡ tip_from hash rows
    → t.height ≡ height + length rows
    → Linked hash height (rows ++ t ∷ [])
unfolding tip_from
Linked-append hash height [] t h p q = (p, omega arith, tt)
Linked-append hash height (r ∷ rows) t h p q =
    (h.0, h.1, Linked-append r.hash (height + 1) rows t h.2 p (omega arith))

Linked-without_last :
    (hash : List ℕ) (height : ℕ) (rows : List IndexedHeader)
    → Linked hash height rows
    → Linked hash height (without_last rows)
Linked-without_last hash height [] h = tt
Linked-without_last hash height (r ∷ []) h = tt
Linked-without_last hash height (r ∷ s ∷ rows) h =
    (h.0, h.1, Linked-without_last r.hash (height + 1) (s ∷ rows) h.2)

-- A chain stays a chain when `add` accepts a row, which then stands behind the others, and a
-- `pop` right after gives back that row and the chain before.
pub add-IsChain :
    (self self' : Headers) (t : IndexedHeader)
    → IsChain self
    → add self t ≡ ok self'
    → IsChain self' × (self'.rows ≡ self.rows ++ t ∷ []) × (pop self' ≡ (some t, self))
unfolding add pop tip_hash
add-IsChain self self' t c h =
    let (p, k) = assert-eq-ok (bytes_eq t.prev_blockhash (tip_hash self)) _ h in
    let (q, l) = assert-eq-ok (t.height == length self.rows) _ k in
    let grown : record { rows = self.rows ++ t ∷ [] } ≡ self' = cc in
    rw (← grown) (
      record {
        linked =
            Linked-append all_zeros 0 self.rows t c.linked
              ((bytes_eq_iff t.prev_blockhash (tip_hash self)).0 p ∙ tip_of_rows self.rows)
              (ground arith);
      },
      refl,
      rw (get_last?-append, without_last-append),
    )

-- `add` accepts a row exactly when it names the tip as its parent and has the next height.
pub add_accepts :
    (self : Headers) (t : IndexedHeader)
    → ((self' : Headers) × (add self t ≡ ok self'))
      ↔ ((t.prev_blockhash ≡ tip_hash self) × (t.height ≡ length self.rows))
unfolding add
add_accepts self t = (
  λ (self', h).
      let (p, k) = assert-eq-ok (bytes_eq t.prev_blockhash (tip_hash self)) _ h in
      let (q, l) = assert-eq-ok (t.height == length self.rows) _ k in
      (
        (bytes_eq_iff t.prev_blockhash (tip_hash self)).0 p,
        (==_iff t.height (length self.rows)).0 q,
      ),
  λ (p, q). (
    record { rows = self.rows ++ t ∷ [] },
    rw ((bytes_eq_iff t.prev_blockhash (tip_hash self)).1 p)
        (rw ((==_iff t.height (length self.rows)).1 q)),
  ),
)

pub pop-IsChain : (self : Headers) → IsChain self → IsChain (pop self).1
unfolding pop
pop-IsChain self c = record { linked = Linked-without_last all_zeros 0 self.rows c.linked }

pub Linked-get_elem? :
    (hash : List ℕ) (height : ℕ) (rows : List IndexedHeader) (i : ℕ) (h : IndexedHeader)
    → Linked hash height rows
    → get_elem? rows i ≡ some h
    → h.height ≡ height + i
Linked-get_elem? hash height [] i h l e = cc
Linked-get_elem? hash height (r ∷ rows) zero h l e = ground (arith, l.1)
Linked-get_elem? hash height (r ∷ rows) (suc i) h l e =
    omega (arith, Linked-get_elem? r.hash (height + 1) rows i h l.2 e)

-- In a chain the row at a height has that height.
pub height-header_at_height :
    (self : Headers) (i : ℕ) (h : IndexedHeader)
    → IsChain self
    → header_at_height self i ≡ some h
    → h.height ≡ i
unfolding header_at_height
height-header_at_height self i h c e =
    omega (arith, Linked-get_elem? all_zeros 0 self.rows i h c.linked e)

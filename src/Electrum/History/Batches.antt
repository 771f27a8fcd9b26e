-- ===== src/Electrum/History/Batches.antt =====
-- The batches of bodies that a round of `script_history` in bindex-electrum/src/chain.rs fetches.
use bindex_rs.Common.{
  ℕ, suc, ◌≤◌, ◌≡◌, refl, sym, ap, ◌∙◌, subst, Bool, true, false, List, [], ◌∷◌, ◌++◌, map, leb,
  if◌then◌else◌, le→leb,
}
use bindex_rs.Common.{
  length, drop, chunks, flatten, flatten-chunks, All-split, All-drop, map-append, slice_from,
}
use bindex_rs.Common.{ok, panic, ◌>>=◌, ok_inj, >>=-eq-ok}
use bindex_rs.Index.TxPos.{VarInt}
use bindex_rs.Index.Visit.{Parser}
use bindex_rs.Db.Store.{Store}
use bindex_rs.Chain.Reads.{TxBytesRef}
use bindex_rs.Electrum.History.{fetch_bodies}
use bindex_rs.Electrum.History.{fetch_body}
use bindex_rs.Electrum.History.Fetched.{Serves, Answers, fetch_bodies-served, fetch_bodies_answered}
use bindex_rs.Electrum.History.Cached.{Round, fetch_batches, fetch_tail}

module _ (v : VarInt) (p : Parser) (s : Store) (body : TxBytesRef → List ℕ) (r : Round v p s) where
  pub fetch_batches-served :
      (i : ℕ) (batches : List (List TxBytesRef)) (raws : List (List ℕ))
      → Serves body r.block_part
      → fetch_batches v p s r i batches ≡ ok raws
      → raws ≡ map body (flatten batches)
  unfolding fetch_batches
  fetch_batches-served i [] raws serves e = sym (ok_inj e)
  fetch_batches-served i (b ∷ bs) raws serves e =
      let first = fetch_bodies r.block_part (r.expired i) b in
      let rest = fetch_batches v p s r (suc i) bs in
      let (x, a, e1) = >>=-eq-ok first (λ x. rest >>= λ y. ok (x ++ y)) e in
      let (y, c, e2) = >>=-eq-ok rest (λ y. ok (x ++ y)) e1 in
      let h = fetch_bodies-served body r.block_part (r.expired i) b x serves a in
      let k = fetch_batches-served (suc i) bs y serves c in
      sym (ok_inj e2)
      ∙ ap (λ t. t ++ y) h
      ∙ ap (λ t. map body b ++ t) k
      ∙ sym (map-append body b (flatten bs))

  pub fetch_tail-served :
      (refs : List TxBytesRef) (start : ℕ) (raws : List (List ℕ))
      → Serves body r.block_part
      → fetch_tail v p s r refs start ≡ ok raws
      → raws ≡ map body (drop start refs)
  unfolding fetch_tail slice_from
  fetch_tail-served refs start raws serves e =
      let fetch = λ (tail : List TxBytesRef). fetch_batches v p s r 0 (chunks 512 512 [] tail) in
      let (tail, a, e1) = >>=-eq-ok (slice_from start refs) fetch e in
      let whole = flatten-chunks 512 512 [] tail in
      fetch_batches-served 0 (chunks 512 512 [] tail) raws serves e1
      ∙ ap (map body) (whole ∙ sym (tail_of (leb start (length refs)) (drop start refs) tail a))
    where
      tail_of :
          (b : Bool) (xs ys : List TxBytesRef) → (if b then ok xs else panic) ≡ ok ys → xs ≡ ys
      tail_of true xs ys e = ok_inj e
      tail_of false xs ys e = cc

  pub fetch_batches_answered :
      (i : ℕ) (batches : List (List TxBytesRef))
      → ((j : ℕ) → r.expired j ≡ false)
      → Answers body r.block_part (flatten batches)
      → fetch_batches v p s r i batches ≡ ok (map body (flatten batches))
  unfolding fetch_batches
  fetch_batches_answered i [] calm h = refl
  fetch_batches_answered i (b ∷ bs) calm h =
      let (x, y) = All-split (λ r'. fetch_body r.block_part r' ≡ ok (body r')) b (flatten bs) h in
      rw
        (
          calm i,
          fetch_bodies_answered body r.block_part b x,
          fetch_batches_answered (suc i) bs calm y,
        )
        (ap ok (sym (map-append body b (flatten bs))))

  pub fetch_tail_answered :
      (refs : List TxBytesRef) (start : ℕ)
      → start ≤ length refs
      → ((j : ℕ) → r.expired j ≡ false)
      → Answers body r.block_part refs
      → fetch_tail v p s r refs start ≡ ok (map body (drop start refs))
  unfolding fetch_tail slice_from
  fetch_tail_answered refs start fits calm h =
      let tail = drop start refs in
      let whole = flatten-chunks 512 512 [] tail in
      let there = All-drop (λ r'. fetch_body r.block_part r' ≡ ok (body r')) start refs h in
      rw (le→leb start (length refs) fits) (
        fetch_batches_answered 0 (chunks 512 512 [] tail) calm
          (subst (Answers body r.block_part) (sym whole) there)
        ∙ ap (λ t. ok (map body t)) whole)

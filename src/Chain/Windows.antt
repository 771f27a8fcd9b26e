-- ===== src/Chain/Windows.antt =====
-- The numbering of blocks by `Builder::new` of bindex-lib/src/chain.rs.
use bindex_rs.Common.{ℕ, ◌≡◌, refl, sym, ap, ◌∙◌, subst, Option, List, [], ◌∷◌, ==_iff}
use bindex_rs.Common.{ok, expect, ok_inj, >>=-eq-ok}
use bindex_rs.Common.Words.{add32}
use bindex_rs.Index.TxNum
use bindex_rs.Index.TxNum.{TxNum, TxNumRange, new_range, adjacent}
use bindex_rs.Index.Header.{IndexedHeader}
use bindex_rs.Chain.Indexing.{
  PerBlockData, Item, Builder, number_items, new_builder, check_windows, next_height, next_number,
}

new_range_lem :
    (first next : TxNum) (range : TxNumRange)
    → new_range first next ≡ ok range
    → (range.first ≡ first) × (range.next ≡ next)
unfolding new_range
new_range_lem first next range e =
    let (len, _, same) = >>=-eq-ok (expect (TxNum.offset_from next first)) _ e in
    (sym (ap (λ r. r.first) (ok_inj same)), sym (ap (λ r. r.next) (ok_inj same)))

-- What follows an item starts at the number and the height behind it.
windows_cons :
    (i : Item) (n : TxNum) (h : ℕ) (blocks : List PerBlockData) (rest : List Item)
    → number_items n h blocks ≡ ok rest
    → i.range.next ≡ n
    → add32 i.height 1 ≡ h
    → check_windows rest ≡ ok tt
    → check_windows (i ∷ rest) ≡ ok tt
unfolding number_items check_windows adjacent
windows_cons i n h [] rest e p q c = subst (λ r. check_windows (i ∷ r) ≡ ok tt) (ok_inj e) refl
windows_cons i n h (d ∷ blocks) rest e p q c =
    let (next, _, e1) = >>=-eq-ok (TxNum.increment_by n d.txs_count) _ e in
    let (range, r, e2) = >>=-eq-ok (TxNum.new_range n next) _ e1 in
    let (items, _, same) = >>=-eq-ok (number_items next (add32 h 1) blocks) _ e2 in
    subst (λ l. check_windows (i ∷ l) ≡ ok tt) (ok_inj same)
      (rw ((==_iff i.range.next range.first).1 (p ∙ sym (new_range_lem n next range r).0)) (
        rw ((==_iff (add32 i.height 1) h).1 q)
          (subst (λ l. check_windows l ≡ ok tt) (sym (ok_inj same)) c)))

windows :
    (n : TxNum) (h : ℕ) (blocks : List PerBlockData) (items : List Item)
    → number_items n h blocks ≡ ok items
    → check_windows items ≡ ok tt
unfolding number_items
windows n h [] items e =
    subst (λ l. check_windows l ≡ ok tt) (ok_inj e) (unfold check_windows in refl)
windows n h (d ∷ blocks) items e =
    let (next, _, e1) = >>=-eq-ok (TxNum.increment_by n d.txs_count) _ e in
    let (range, r, e2) = >>=-eq-ok (TxNum.new_range n next) _ e1 in
    let (rest, more, same) = >>=-eq-ok (number_items next (add32 h 1) blocks) _ e2 in
    subst (λ l. check_windows l ≡ ok tt) (ok_inj same)
      (windows_cons (record { height = h; range = range; block = d }) next (add32 h 1) blocks rest
        more (new_range_lem n next range r).1 refl (windows next (add32 h 1) blocks rest more))

-- The heights and the transaction numbers that `Builder::new` gives go on without a gap, so the
-- checks of `Builder::build` on neighbouring blocks never fail.
pub check_windows-new_builder :
    (tip : Option IndexedHeader) (blocks : List PerBlockData) (builder : Builder)
    → new_builder tip blocks ≡ ok builder
    → check_windows builder.items ≡ ok tt
unfolding new_builder
check_windows-new_builder tip blocks builder e =
    let (items, numbered, same) =
      >>=-eq-ok (number_items (next_number tip) (next_height tip) blocks) _ e in
    subst (λ (b : Builder). check_windows b.items ≡ ok tt) (ok_inj same)
      (windows (next_number tip) (next_height tip) blocks items numbered)

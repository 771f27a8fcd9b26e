-- ===== src/Electrum/ScriptCache/Bounded.antt =====
-- The bound of `ScriptCache` in bindex-electrum/src/chain.rs.
use bindex_rs.Common.{
  ℕ, zero, suc, ◌+◌, ◌-◌, ◌^◌, ◌≤◌, ◌<◌, max, ◌≡◌, refl, sym, ap, ◌∙◌, subst, ◌≢◌, inl, inr, Option,
  none, some, List, [], ◌∷◌, arith, ltb, leb, some_inj, if◌then◌else◌, ltb_false→le, Bool-cases,
  Option-cases,
}
use bindex_rs.Common.{length}
use bindex_rs.Common.Bytes.{bytes_eq, bytes_eq_refl, bytes_eq_iff}
use bindex_rs.Electrum.Maps.{
  bytes_eq-IsEquality, lookup, set, unset, lookup-unset, Distinct, Distinct-unset,
}
use bindex_rs.Electrum.Mempool.View.{sub64, add64}
use bindex_rs.Electrum.Mempool.{ScriptHash}
use bindex_rs.Electrum.ScriptCache.{
  CachedScript, Entry, ScriptCache, forget, older, add, oldest, evict, put,
}

abbrev pub refs_of : List (ScriptHash × Entry) → ℕ
refs_of [] = 0
refs_of ((k, e) ∷ entries) = length e.cached.refs + refs_of entries

abbrev pub refs_at : Option Entry → ℕ
refs_at none = 0
refs_at (some e) = length e.cached.refs

-- The count of references is that of the entries.
pub record IsCounted (self : ScriptCache) : Type 0 where
  pub distinct : Distinct bytes_eq self.entries
  pub counted : self.refs ≡ refs_of self.entries

refs_of-unset :
    (k : ScriptHash) (m : List (ScriptHash × Entry))
    → Distinct bytes_eq m
    → refs_of (unset bytes_eq k m) + refs_at (lookup bytes_eq k m) ≡ refs_of m
unfolding unset lookup
refs_of-unset k [] d = refl
refs_of-unset k ((j, e) ∷ m) d = elim (Bool-cases (bytes_eq j k)) [
  | inl t ↦
      let gone : refs_at (lookup bytes_eq k m) ≡ 0 =
        ap refs_at (subst (λ x. lookup bytes_eq x m ≡ none) ((bytes_eq_iff j k).0 t) d.0) in
      rw t (omega (arith, refs_of-unset k m d.1))
  | inr t ↦ rw t (omega (arith, refs_of-unset k m d.1))
]

length-unset_le :
    (k : ScriptHash) (m : List (ScriptHash × Entry)) → length (unset bytes_eq k m) ≤ length m
unfolding unset
length-unset_le k [] = omega arith
length-unset_le k ((j, x) ∷ m) = elim (Bool-cases (bytes_eq j k)) [
  | inl t ↦ rw t (omega (arith, length-unset_le k m))
  | inr t ↦ rw t (omega (arith, length-unset_le k m))
]

length-unset :
    (k : ScriptHash) (e : Entry) (m : List (ScriptHash × Entry))
    → lookup bytes_eq k m ≡ some e
    → length (unset bytes_eq k m) < length m
unfolding unset lookup
length-unset k e [] f = cc
length-unset k e ((j, x) ∷ m) f = elim (Bool-cases (bytes_eq j k)) [
  | inl t ↦ rw t (omega (arith, length-unset_le k m))
  | inr t ↦ rw t (omega (arith, length-unset k e m (sym (rw t) ∙ f)))
]

sub64_fits : (a b : ℕ) → a < 2 ^ 64 → b ≤ a → sub64 a b ≡ a - b
unfolding sub64
sub64_fits a b h k = omega arith

add64_fits : (a b : ℕ) → a + b < 2 ^ 64 → add64 a b ≡ a + b
unfolding add64
add64_fits a b h = omega arith

unset-absent :
    (k : ScriptHash) (m : List (ScriptHash × Entry))
    → lookup bytes_eq k m ≡ none
    → m ≡ unset bytes_eq k m
unfolding unset lookup
unset-absent k [] e = refl
unset-absent k ((j, x) ∷ m) e = elim (Bool-cases (bytes_eq j k)) [
  | inl t ↦ let found : some x ≡ none = sym (rw t) ∙ e in cc
  | inr t ↦ rw t (ap (λ l. (j, x) ∷ l) (unset-absent k m (sym (rw t) ∙ e)))
]

forget_lem :
    (self : ScriptCache) (k : ScriptHash)
    → IsCounted self
    → self.refs < 2 ^ 64
    → IsCounted (forget self k)
      × ((forget self k).refs ≤ self.refs)
      × ((forget self k).max_refs ≡ self.max_refs)
      × ((forget self k).entries ≡ unset bytes_eq k self.entries)
unfolding forget
forget_lem self k c fits = elim (Option-cases (lookup bytes_eq k self.entries)) [
  | inl e ↦ rw (e, forget) (c, omega arith, refl, unset-absent k self.entries e)
  | inr (x, e) ↦
      let sum = refs_of-unset k self.entries c.distinct in
      let here : refs_at (lookup bytes_eq k self.entries) ≡ length x.cached.refs = ap refs_at e in
      let less : sub64 self.refs (length x.cached.refs) ≡ self.refs - length x.cached.refs =
        sub64_fits self.refs (length x.cached.refs) fits (omega (arith, c.counted)) in
      rw (e, forget)
        (
          record {
            distinct = Distinct-unset bytes_eq bytes_eq-IsEquality k self.entries c.distinct;
            counted = less ∙ omega (arith, c.counted);
          },
          omega arith,
          refl,
          refl,
        )
]

none_ne {ℓ} : {A : Type ℓ} {a : A} → none ≢ some a
none_ne e = cc

oldest-none : (m : List (ScriptHash × Entry)) → oldest m ≡ none → refs_of m ≡ 0
unfolding oldest older
oldest-none [] e = refl
oldest-none ((k, x) ∷ m) e = absurd (never (oldest m) e)
  where
    never : (o : Option (ScriptHash × ℕ)) → older k x.used o ≡ none → ⊥
    never none h = none_ne (sym h)
    never (some (j, u)) h = elim (Bool-cases (leb x.used u)) [
      | inl t ↦ let e : some (k, x.used) ≡ none = sym (rw t) ∙ h in cc
      | inr t ↦ let e : some (j, u) ≡ none = sym (rw t) ∙ h in cc
    ]

no_entries : (m : List (ScriptHash × Entry)) → length m ≤ 0 → refs_of m ≡ 0
no_entries [] h = refl
no_entries (x ∷ m) h = absurd (omega arith)

oldest-lookup :
    (m : List (ScriptHash × Entry)) (k : ScriptHash) (used : ℕ)
    → oldest m ≡ some (k, used)
    → (e : Entry) × (lookup bytes_eq k m ≡ some e)
unfolding oldest older lookup
oldest-lookup [] k used f = cc
oldest-lookup ((j, x) ∷ m) k used f = at (λ g. oldest-lookup m k used g) (oldest m) refl f
  where
    head : j ≡ k → (e : Entry) × ((if bytes_eq j k then some x else lookup bytes_eq k m) ≡ some e)
    head same = (x, rw ((bytes_eq_iff j k).1 same))

    tail :
        (e : Entry) × (lookup bytes_eq k m ≡ some e)
        → (e : Entry) × ((if bytes_eq j k then some x else lookup bytes_eq k m) ≡ some e)
    tail (e, g) = elim (Bool-cases (bytes_eq j k)) [ inl t ↦ (x, rw t) | inr t ↦ (e, rw t g) ]

    at :
        (oldest m ≡ some (k, used) → (e : Entry) × (lookup bytes_eq k m ≡ some e))
        → (o : Option (ScriptHash × ℕ)) → oldest m ≡ o
        → older j x.used o ≡ some (k, used)
        → (e : Entry) × ((if bytes_eq j k then some x else lookup bytes_eq k m) ≡ some e)
    at others none g f = head (ap (λ p. p.0) (some_inj f))
    at others (some (i, u)) g f = elim (Bool-cases (leb x.used u)) [
      | inl t ↦
          let first : some (j, x.used) ≡ some (k, used) = sym (rw t) ∙ f in
          head (ap (λ p. p.0) (some_inj first))
      | inr t ↦ let rest : some (i, u) ≡ some (k, used) = sym (rw t) ∙ f in tail (others (g ∙ rest))
    ]

-- With a round for each entry the loop ends within the bound.
evict_lem :
    (fuel : ℕ) (self : ScriptCache)
    → IsCounted self
    → self.refs < 2 ^ 64
    → length self.entries ≤ fuel
    → IsCounted (evict fuel self)
      × ((evict fuel self).refs ≤ self.max_refs)
      × ((evict fuel self).max_refs ≡ self.max_refs)
unfolding evict
evict_lem zero self c fits enough =
    (c, omega (arith, c.counted, no_entries self.entries enough), refl)
evict_lem (suc fuel) self c fits enough = elim (Bool-cases (ltb self.max_refs self.refs)) [
  | inr t ↦ rw (t, evict) (c, ltb_false→le self.max_refs self.refs t, refl)
  | inl t ↦ elim (Option-cases (oldest self.entries)) [
    | inl e ↦
        rw (t, evict)
          (rw (e, evict) (c, omega (arith, c.counted, oldest-none self.entries e), refl))
    | inr ((k, used), e) ↦
        let (x, f) = oldest-lookup self.entries k used e in
        let (c', less, same, left) = forget_lem self k c fits in
        let (done, bound, max) =
          evict_lem fuel (forget self k) c' (omega arith)
            (omega (arith, ap length left, length-unset k x self.entries f)) in
        rw (t, evict) (rw (e, evict) (done, omega arith, max ∙ same))
  ]
]

add_lem :
    (self : ScriptCache) (k : ScriptHash) (cached : CachedScript)
    → IsCounted self
    → lookup bytes_eq k self.entries ≡ none
    → self.refs + length cached.refs < 2 ^ 64
    → IsCounted (add self k cached)
      × ((add self k cached).refs < 2 ^ 64)
      × ((add self k cached).max_refs ≡ self.max_refs)
unfolding add set
add_lem self k cached c fresh fits =
    let sum = add64_fits self.refs (length cached.refs) fits in
    let same = unset-absent k self.entries fresh in
    (
      record {
        distinct =
            subst (λ m. (lookup bytes_eq k m ≡ none) × Distinct bytes_eq m) same
              (fresh, c.distinct);
        counted = sum ∙ omega (arith, c.counted, ap refs_of same);
      },
      omega arith,
      refl,
    )

-- `put` keeps the count of references right and within the bound, whatever has to be evicted, if the
-- bound is below 2^63.
pub put-IsCounted :
    (self : ScriptCache) (k : ScriptHash) (cached : CachedScript)
    → IsCounted self
    → self.refs ≤ self.max_refs
    → self.max_refs < 2 ^ 63
    → IsCounted (put self k cached)
      × ((put self k cached).refs ≤ (put self k cached).max_refs)
      × ((put self k cached).max_refs ≡ self.max_refs)
unfolding put
put-IsCounted self k cached c bound small =
    let (c', less, same, left) = forget_lem self k c (omega arith) in
    elim (Bool-cases (ltb self.max_refs (length cached.refs))) [
      | inl t ↦ rw (t, put) (c', omega arith, same)
      | inr t ↦
          let fits = ltb_false→le self.max_refs (length cached.refs) t in
          let absent : lookup bytes_eq k (forget self k).entries ≡ none =
            ap (lookup bytes_eq k) left
            ∙ lookup-unset bytes_eq bytes_eq-IsEquality k k self.entries
            ∙ rw (bytes_eq_refl k) in
          let (counted, small', max) = add_lem (forget self k) k cached c' absent (omega arith) in
          let done =
            evict_lem (length (add (forget self k) k cached).entries) (add (forget self k) k cached)
              counted small' (omega arith) in
          rw (t, put)
            (
              done.0,
              subst
                  (λ n.
                    (evict (length (add (forget self k) k cached).entries)
                      (add (forget self k) k cached)).refs
                    ≤ n)
                  (sym (done.2)) (done.1),
              done.2 ∙ max ∙ same,
            )
    ]

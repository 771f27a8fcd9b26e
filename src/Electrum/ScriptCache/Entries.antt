-- ===== src/Electrum/ScriptCache/Entries.antt =====
-- What holds of every entry of `ScriptCache` in bindex-electrum/src/chain.rs, through its operations.
use bindex_rs.Common.{
  ℕ, zero, suc, ◌≡◌, subst, inl, inr, some, List, [], ◌∷◌, ltb, some_inj, Bool-cases, if_true,
  if_false, Option-cases,
}
use bindex_rs.Common.{length, All}
use bindex_rs.Common.Bytes.{bytes_eq, bytes_eq_iff}
use bindex_rs.Electrum.Maps.{lookup, set, unset}
use bindex_rs.Electrum.Mempool.{ScriptHash}
use bindex_rs.Electrum.ScriptCache.{
  CachedScript, Entry, ScriptCache, get, forget, oldest, evict, add, put,
}

module _ (P : ScriptHash → CachedScript → Type 0) where
  abbrev pub Each : List (ScriptHash × Entry) → Type 0
  Each entries = All (λ (e : ScriptHash × Entry). P e.0 e.1.cached) entries

  Each-unset : (k : ScriptHash) (m : List (ScriptHash × Entry)) → Each m → Each (unset bytes_eq k m)
  unfolding unset
  Each-unset k [] h = tt
  Each-unset k ((j, x) ∷ m) h = elim (Bool-cases (bytes_eq j k)) [
    | inl t ↦ rw t (Each-unset k m h.1)
    | inr f ↦ rw f (h.0, Each-unset k m h.1)
  ]

  Each-lookup :
      (k : ScriptHash) (m : List (ScriptHash × Entry)) (e : Entry)
      → lookup bytes_eq k m ≡ some e
      → Each m
      → P k e.cached
  unfolding lookup
  Each-lookup k [] e found h = cc
  Each-lookup k ((j, x) ∷ m) e found h = elim (Bool-cases (bytes_eq j k)) [
    | inl t ↦
        let same : x ≡ e =
          some_inj (if_true (bytes_eq j k) (some x) (lookup bytes_eq k m) t found) in
        subst (λ y. P k y.cached) same (subst (λ i. P i x.cached) ((bytes_eq_iff j k).0 t) h.0)
    | inr f ↦ Each-lookup k m e (if_false (bytes_eq j k) (some x) (lookup bytes_eq k m) f found) h.1
  ]

  -- The entry that `get` returns is one of those, and so are those that it leaves.
  pub Each-get :
      (self : ScriptCache) (k : ScriptHash)
      → Each self.entries
      → Each (get self k).1.entries
        × ((cached : CachedScript) → (get self k).0 ≡ some cached → P k cached)
  unfolding get
  Each-get self k h = elim (Option-cases (lookup bytes_eq k self.entries)) [
    | inl e ↦ rw (e, get) (h, λ cached f. cc)
    | inr (x, e) ↦
        let here = Each-lookup k self.entries x e h in
        rw (e, get)
          (
            unfold set in (here, Each-unset k self.entries h),
            λ cached f. subst (P k) (some_inj f) here,
          )
  ]

  Each-forget :
      (self : ScriptCache) (k : ScriptHash) → Each self.entries → Each (forget self k).entries
  unfolding forget
  Each-forget self k h = elim (Option-cases (lookup bytes_eq k self.entries)) [
    | inl e ↦ rw (e, forget) h
    | inr (x, e) ↦ rw (e, forget) (Each-unset k self.entries h)
  ]

  Each-evict : (fuel : ℕ) (self : ScriptCache) → Each self.entries → Each (evict fuel self).entries
  unfolding evict
  Each-evict zero self h = h
  Each-evict (suc fuel) self h = elim (Bool-cases (ltb self.max_refs self.refs)) [
    | inr t ↦ rw (t, evict) h
    | inl t ↦ elim (Option-cases (oldest self.entries)) [
      | inl e ↦ rw (t, evict) (rw (e, evict) h)
      | inr (k, e) ↦
          rw (t, evict) (rw (e, evict) (Each-evict fuel (forget self k.0) (Each-forget self k.0 h)))
    ]
  ]

  -- With the entry that `put` adds, whatever it evicts.
  pub Each-put :
      (self : ScriptCache) (k : ScriptHash) (cached : CachedScript)
      → Each self.entries
      → P k cached
      → Each (put self k cached).entries
  unfolding put
  Each-put self k cached h new =
      let cleared = Each-forget self k h in
      elim (Bool-cases (ltb self.max_refs (length cached.refs))) [
        | inl t ↦ rw (t, put) cleared
        | inr t ↦
            rw (t, put)
              (Each-evict (length (add (forget self k) k cached).entries)
                (add (forget self k) k cached)
                (unfold add in unfold set in (new, Each-unset k (forget self k).entries cleared)))
      ]

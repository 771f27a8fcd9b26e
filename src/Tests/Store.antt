-- ===== src/Tests/Store.antt =====
-- A store that keeps its operations, with the laws of a store in working order.
use bindex_rs.Common.{
  ℕ, ◌≡◌, refl, sym, ◌∙◌, subst, ◌⊎◌, inl, inr, Bool, true, false, ◌&&◌, ◌||◌, Option, none, some,
  List, [], ◌∷◌, ◌++◌, arith, some_inj, if◌then◌else◌, Bool-cases, Option-cases,
}
use bindex_rs.Common.Bytes.{bytes_eq, bytes_eq_iff, bytes_le, bytes_le_trans}
use bindex_rs.Db.Store.{Cf, Op, put, delete, cf_eq, value_after, Store, Listed, InOrder, IsOrdered}
use bindex_rs.Db.{insert_key, sort_keys}
use bindex_rs.Db.Writes.{has_key, has_key-sort_keys, value_after-append}

keys_in : Cf → List Op → List (List ℕ)
keys_in cf [] = []
keys_in cf (put c k w ∷ ops) = k ∷ keys_in cf ops
keys_in cf (delete c k ∷ ops) = keys_in cf ops

entries : (List ℕ → Option (List ℕ)) → List ℕ → List (List ℕ) → List (Option (List ℕ × List ℕ))
entries value from [] = []
entries value from (k ∷ ks) =
    let rest = entries value from ks in
    if bytes_le from k then (elim (value k) [ none ↦ rest | some v ↦ some (k, v) ∷ rest ]) else rest

unfoldable pub log_store : Store
unfolding keys_in entries value_after sort_keys
log_store = record {
  Db = List Op;
  get = λ db cf k. value_after cf k db none;
  readable = λ db cf k. true;
  write = λ db ops. some (db ++ ops);
  scan = λ db cf from. entries (λ k. value_after cf k db none) from (sort_keys (keys_in cf db));
}

bytes_le_total : (j k : List ℕ) → bytes_le j k ≡ false → bytes_le k j ≡ true
unfolding bytes_le
bytes_le_total [] k h = cc
bytes_le_total (a ∷ j) [] h = refl
bytes_le_total (a ∷ j) (b ∷ k) h = ground (arith, bytes_le_total j k)

Ordered : List ℕ → List (List ℕ) → Type 0
Ordered from [] = Unit
Ordered from (k ∷ ks) = (bytes_le from k ≡ true) × Ordered k ks

Ordered-insert_key :
    (from k : List ℕ) (ks : List (List ℕ))
    → bytes_le from k ≡ true
    → Ordered from ks
    → Ordered from (insert_key k ks)
unfolding Ordered insert_key
Ordered-insert_key from k [] h o = (h, tt)
Ordered-insert_key from k (j ∷ js) h o = elim (Bool-cases (bytes_le k j)) [
  | inl t ↦ rw t (h, (t, o.1))
  | inr t ↦ rw t (o.0, Ordered-insert_key j k js (bytes_le_total k j t) o.1)
]

Ordered-sort_keys : (ks : List (List ℕ)) → Ordered [] (sort_keys ks)
unfolding Ordered sort_keys bytes_le
Ordered-sort_keys [] = tt
Ordered-sort_keys (k ∷ ks) = Ordered-insert_key [] k (sort_keys ks) refl (Ordered-sort_keys ks)

InOrder-entries :
    (value : List ℕ → Option (List ℕ)) (from base low : List ℕ) (ks : List (List ℕ))
    → ((k : List ℕ) → bytes_le from k ≡ true → bytes_le low k ≡ true → bytes_le base k ≡ true)
    → Ordered low ks
    → InOrder value base (entries value from ks)
unfolding Ordered entries
InOrder-entries value from base low [] h o = tt
InOrder-entries value from base low (k ∷ ks) h o =
    let skipped =
      InOrder-entries value from base k ks (λ x p q. h x p (bytes_le_trans low k x o.0 q)) o.1 in
    elim (Bool-cases (bytes_le from k)) [
      | inr t ↦ rw (t, entries) skipped
      | inl t ↦ elim (Option-cases (value k)) [
        | inl e ↦ rw (t, entries) (rw (e, entries) skipped)
        | inr (v, e) ↦
            rw (t, entries)
              (subst
                (λ r. InOrder value base (elim r [
                  | none ↦ entries value from ks
                  | some w ↦ some (k, w) ∷ entries value from ks
                ]))
                (sym e)
                (k, v, refl, h k t o.0, e, InOrder-entries value from k k ks (λ x p q. q) o.1))
      ]
    ]

Listed-entries :
    (value : List ℕ → Option (List ℕ)) (from k v : List ℕ) (ks : List (List ℕ))
    → value k ≡ some v
    → bytes_le from k ≡ true
    → has_key k ks ≡ true
    → Listed k v (entries value from ks)
unfolding entries has_key
Listed-entries value from k v [] e l h = cc
Listed-entries value from k v (j ∷ js) e l h = elim (Bool-cases (bytes_eq j k)) [
  | inl t ↦
      let same : j ≡ k = (bytes_eq_iff j k).0 t in
      subst (λ i. Listed k v (entries value from (i ∷ js))) (sym same)
        (rw (l, entries)
          (subst
            (λ r. Listed k v (elim r [
              | none ↦ entries value from js
              | some w ↦ some (k, w) ∷ entries value from js
            ]))
            (sym e) (inl refl)))
  | inr t ↦
      let others = Listed-entries value from k v js e l (sym (rw t) ∙ h) in
      elim (Bool-cases (bytes_le from j)) [
        | inr u ↦ rw (u, entries) others
        | inl u ↦ elim (Option-cases (value j)) [
          | inl n ↦ rw (u, entries) (rw (n, entries) others)
          | inr (w, n) ↦
              rw (u, entries)
                (subst
                  (λ r. Listed k v (elim r [
                    | none ↦ entries value from js
                    | some x ↦ some (j, x) ∷ entries value from js
                  ]))
                  (sym n) (inr others))
        ]
      ]
]

put_here :
    (a b rest : Bool) (x v : List ℕ) (w : Option (List ℕ))
    → (if a && b then some x else w) ≡ some v
    → ((b || rest) ≡ true) ⊎ (w ≡ some v)
put_here true true rest x v w e = inl refl
put_here true false rest x v w e = inr e
put_here false b rest x v w e = inr e

not_deleted :
    (b : Bool) (v : List ℕ) (w : Option (List ℕ)) → (if b then none else w) ≡ some v → w ≡ some v
not_deleted true v w e = cc
not_deleted false v w e = e

or_right : (b c : Bool) → c ≡ true → (b || c) ≡ true
or_right true c e = refl
or_right false c e = e

has_key-value_after :
    (cf : Cf) (k v : List ℕ) (ops : List Op) (w : Option (List ℕ))
    → value_after cf k ops w ≡ some v
    → (has_key k (keys_in cf ops) ≡ true) ⊎ (w ≡ some v)
unfolding value_after has_key keys_in
has_key-value_after cf k v [] w e = inr e
has_key-value_after cf k v (put c j x ∷ ops) w e =
    elim (has_key-value_after cf k v ops (if cf_eq c cf && bytes_eq j k then some x else w) e) [
      | inl t ↦ inl (or_right (bytes_eq j k) (has_key k (keys_in cf ops)) t)
      | inr f ↦ put_here (cf_eq c cf) (bytes_eq j k) (has_key k (keys_in cf ops)) x v w f
    ]
has_key-value_after cf k v (delete c j ∷ ops) w e =
    elim (has_key-value_after cf k v ops (if cf_eq c cf && bytes_eq j k then none else w) e) [
      | inl t ↦ inl t
      | inr f ↦ inr (not_deleted (cf_eq c cf && bytes_eq j k) v w f)
    ]

pub log_store-IsOrdered : IsOrdered log_store
unfolding log_store
log_store-IsOrdered = record {
  get-write = λ db db' ops cf k e.
      subst (λ d. value_after cf k d none ≡ value_after cf k ops (value_after cf k db none))
        (some_inj e) (value_after-append cf k db ops none);
  scan_in_order = λ db cf from.
      InOrder-entries (λ k. value_after cf k db none) from from [] (sort_keys (keys_in cf db))
        (λ k p q. p) (Ordered-sort_keys (keys_in cf db));
  scan_complete = λ db cf from k v e l.
      Listed-entries (λ k. value_after cf k db none) from k v (sort_keys (keys_in cf db)) e l
        (has_key-sort_keys k (keys_in cf db)
          ∙ at_key db cf k v (has_key-value_after cf k v db none e));
}
  where
    at_key :
        (db : List Op) (cf : Cf) (k v : List ℕ)
        → (has_key k (keys_in cf db) ≡ true) ⊎ (none ≡ some v)
        → has_key k (keys_in cf db) ≡ true
    at_key db cf k v (inl e) = e
    at_key db cf k v (inr e) = cc

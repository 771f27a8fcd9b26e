-- ===== src/Electrum/Merkle/Root.antt =====
-- A branch of bindex-electrum/src/merkle.rs leads from its leaf to the root.
use bindex_rs.Common.{
  ℕ, zero, suc, ◌+◌, ◌-◌, ◌*◌, ◌/◌, ◌%◌, ◌≤◌, ◌<◌, ◌≡◌, sym, ap, ◌∙◌, subst, inl, inr, none, some,
  List, [], ◌∷◌, ◌++◌, append-nil, arith, ltb, ◌==◌, some_inj, if◌then◌else◌, ltb→lt, lt→ltb,
  le→leb, ltb_false→le, ==_iff, Bool-cases,
}
use bindex_rs.Common.{
  length, get_elem?, length-append, get_elem?-append_left, get_elem?-some, get_last?-eq-get_elem?,
}
use bindex_rs.Common.{ok}
use bindex_rs.Electrum.Merkle.{Proof, pad, next_level, sibling, climb_levels, branch_and_root}

module _ (hash : List ℕ → List ℕ) where
  -- What a client computes from a leaf, its index and the branch.
  abbrev pub fold_branch : List ℕ → ℕ → List (List ℕ) → List ℕ
  fold_branch leaf index [] = leaf
  fold_branch leaf index (s ∷ branch) =
      fold_branch (if index % 2 == 0 then hash (leaf ++ s) else hash (s ++ leaf)) (index / 2) branch

  next_level-get_elem? :
      (xs : List (List ℕ)) (k : ℕ) (a b : List ℕ)
      → get_elem? xs (2 * k) ≡ some a
      → get_elem? xs (2 * k + 1) ≡ some b
      → get_elem? (next_level hash xs) k ≡ some (hash (a ++ b))
  unfolding next_level
  next_level-get_elem? [] k a b e f = cc
  next_level-get_elem? (x ∷ []) zero a b e f = cc
  next_level-get_elem? (x ∷ []) (suc k) a b e f =
      let even : 2 * suc k ≡ suc (suc (2 * k)) = omega arith in
      let past : none ≡ some a = subst (λ n. get_elem? (x ∷ []) n ≡ some a) even e in cc
  next_level-get_elem? (x ∷ y ∷ xs) zero a b e f = rw (← some_inj e, ← some_inj f)
  next_level-get_elem? (x ∷ y ∷ xs) (suc k) a b e f =
      let even : 2 * suc k ≡ suc (suc (2 * k)) = omega arith in
      let odd : 2 * suc k + 1 ≡ suc (suc (2 * k + 1)) = omega arith in
      next_level-get_elem? xs k a b (subst (λ n. get_elem? (x ∷ y ∷ xs) n ≡ some a) even e)
        (subst (λ n. get_elem? (x ∷ y ∷ xs) n ≡ some b) odd f)

  length-next_level :
      (xs : List (List ℕ)) → length xs ≡ 2 * length (next_level hash xs) + length xs % 2
  unfolding next_level
  length-next_level [] = omega arith
  length-next_level (x ∷ []) = omega arith
  length-next_level (x ∷ y ∷ xs) = omega (arith, length-next_level xs)

  -- Padding to an even length.
  pad_lem :
      (x : List ℕ) (xs : List (List ℕ))
      → (t : List (List ℕ)) × (pad hash (x ∷ xs) ≡ (x ∷ xs) ++ t) × (length t ≡ length (x ∷ xs) % 2)
  unfolding pad
  pad_lem x xs = elim (Bool-cases (length (x ∷ xs) % 2 == 1)) [
    | inl odd ↦
        let (l, e) = get_elem?-some (x ∷ xs) (length xs) (omega arith) in
        let one = (==_iff (length (x ∷ xs) % 2) 1).0 odd in
        (l ∷ [], rw odd (rw (get_last?-eq-get_elem? x xs ∙ e)), omega arith)
    | inr even ↦ ([], rw even (sym (append-nil (x ∷ xs))), ground (arith, even))
  ]

  -- The root without a branch.
  unfoldable pub root_of : ℕ → List (List ℕ) → List ℕ
  root_of zero level = []
  root_of (suc fuel) level =
      let rest = root_of fuel (next_level hash (pad hash level)) in
      if ltb 1 (length level) then rest else (elim level [ [] ↦ [] | x ∷ xs ↦ x ])

  get_elem?-lt : (xs : List (List ℕ)) (i : ℕ) (a : List ℕ) → get_elem? xs i ≡ some a → i < length xs
  get_elem?-lt [] i a e = cc
  get_elem?-lt (x ∷ xs) zero a e = omega arith
  get_elem?-lt (x ∷ xs) (suc i) a e = omega (arith, get_elem?-lt xs i a e)

  -- The parent of the leaf at `index` and its sibling.
  parent :
      (P : List (List ℕ)) (index : ℕ) (leaf : List ℕ)
      → length P % 2 ≡ 0
      → get_elem? P index ≡ some leaf
      → (s : List ℕ) × (get_elem? P (sibling hash index) ≡ some s)
        × (get_elem? (next_level hash P) (index / 2)
            ≡ some (if index % 2 == 0 then hash (leaf ++ s) else hash (s ++ leaf)))
  unfolding sibling
  parent P index leaf even e = elim (Bool-cases (index % 2 == 0)) [
    | inl t ↦
        let zero_rest = (==_iff (index % 2) 0).0 t in
        let lt = get_elem?-lt P index leaf e in
        let (s, f) = get_elem?-some P (index + 1) (omega arith) in
        let here : 2 * (index / 2) ≡ index = omega arith in
        (
          s,
          rw t f,
          rw t (
              next_level-get_elem? P (index / 2) leaf s
                (subst (λ n. get_elem? P n ≡ some leaf) (sym here) e)
                (subst (λ n. get_elem? P (n + 1) ≡ some s) (sym here) f)),
        )
    | inr t ↦
        let one_rest : index % 2 ≡ 1 = ground (arith, t) in
        let lt = get_elem?-lt P index leaf e in
        let (s, f) = get_elem?-some P (index - 1) (omega arith) in
        let before : 2 * (index / 2) ≡ index - 1 = omega arith in
        let here : 2 * (index / 2) + 1 ≡ index = omega arith in
        (
          s,
          rw t f,
          rw t (
              next_level-get_elem? P (index / 2) s leaf
                (subst (λ n. get_elem? P n ≡ some s) (sym before) f)
                (subst (λ n. get_elem? P n ≡ some leaf) (sym here) e)),
        )
  ]

  climb_lem :
      (fuel : ℕ) (level : List (List ℕ)) (index : ℕ) (leaf : List ℕ)
      → length level ≤ fuel
      → get_elem? level index ≡ some leaf
      → (proof : Proof) × (climb_levels hash fuel level index ≡ some (ok proof))
        × (fold_branch leaf index proof.branch ≡ proof.root)
        × (proof.root ≡ root_of fuel level)
  unfolding climb_levels root_of
  climb_lem fuel [] index leaf enough e = cc
  climb_lem zero (x ∷ xs) index leaf enough e = absurd (omega arith)
  climb_lem (suc fuel) (x ∷ xs) index leaf enough e = elim (Bool-cases (ltb 1 (length (x ∷ xs)))) [
    | inr t ↦
        let lt = get_elem?-lt (x ∷ xs) index leaf e in
        let top : index ≡ 0 = omega (arith, ltb_false→le 1 (length (x ∷ xs)) t) in
        let same : x ≡ leaf = some_inj (subst (λ i. get_elem? (x ∷ xs) i ≡ some leaf) top e) in
        (record { branch = []; root = x }, rw t, sym same, rw t)
    | inl t ↦
        let (tail, padded, n) = pad_lem x xs in
        let many = ltb→lt 1 (length (x ∷ xs)) t in
        let size : length (pad hash (x ∷ xs)) ≡ length (x ∷ xs) + length (x ∷ xs) % 2 =
          ap length padded ∙ length-append (x ∷ xs) tail ∙ omega arith in
        let at : get_elem? (pad hash (x ∷ xs)) index ≡ some leaf =
          ap (λ l. get_elem? l index) padded
          ∙ get_elem?-append_left (x ∷ xs) tail index (get_elem?-lt (x ∷ xs) index leaf e)
          ∙ e in
        let (s, f, up) = parent (pad hash (x ∷ xs)) index leaf (omega arith) at in
        let (proof, made, folds, root) =
          climb_lem fuel (next_level hash (pad hash (x ∷ xs))) (index / 2) _
            (omega (arith, length-next_level (pad hash (x ∷ xs)))) up in
        (
          record { branch = s ∷ proof.branch; root = proof.root },
          rw (t, climb_levels) (rw (f, climb_levels) (rw (made, climb_levels))),
          folds,
          rw t root,
        )
  ]

  -- For every leaf the branch is made, folding it from the leaf gives the root, and the root is that
  -- of the whole tree, whatever the index.
  pub branch_and_root_lem :
      (leaves : List (List ℕ)) (index : ℕ) (leaf : List ℕ)
      → get_elem? leaves index ≡ some leaf
      → (proof : Proof) × (branch_and_root hash leaves index ≡ some (ok proof))
        × (fold_branch leaf index proof.branch ≡ proof.root)
        × (proof.root ≡ root_of (length leaves) leaves)
  unfolding branch_and_root
  branch_and_root_lem leaves index leaf e =
      let (proof, made, folds, root) =
        climb_lem (length leaves) leaves index leaf (omega arith) e in
      let lt = get_elem?-lt leaves index leaf e in
      (
        proof,
        rw (le→leb 1 (length leaves) (omega arith)) (rw (lt→ltb index (length leaves) lt) made),
        folds,
        root,
      )

-- ===== src/Electrum/Merkle.antt =====
-- bindex-electrum/src/merkle.rs: the Merkle branch of a leaf, and the root.
use bindex_rs.Common.{
  ℕ, zero, suc, ◌+◌, ◌-◌, ◌/◌, ◌%◌, ◌&&◌, Option, none, some, List, [], ◌∷◌, ◌++◌, ltb, leb, ◌==◌,
  if◌then◌else◌,
}
use bindex_rs.Common.{length, get_elem?, get_last?, head?}
use bindex_rs.Common.{Outcome, ok, err, panic, ◌>>=◌, ◌>>◌, expect}
pub mod Root

pub record Proof : Type 0 where
  pub branch : List (List ℕ)
  pub root : List ℕ

-- `sha256d` of 64 bytes is the parameter `hash`.
module _ (hash : List ℕ → List ℕ) where
  -- The level with its last hash doubled if its length is odd.
  unfoldable pub pad : List (List ℕ) → List (List ℕ)
  pad level =
      if length level % 2 == 1
      then (elim (get_last? level) [ none ↦ level | some l ↦ level ++ l ∷ [] ])
      else level

  -- The hashes of `chunks_exact(2)`.
  unfoldable pub next_level : List (List ℕ) → List (List ℕ)
  next_level [] = []
  next_level (a ∷ []) = []
  next_level (a ∷ b ∷ rest) = hash (a ++ b) ∷ next_level rest

  unfoldable pub sibling : ℕ → ℕ
  sibling index = if index % 2 == 0 then index + 1 else index - 1

  -- The loop, with at most `fuel` levels (`none` when that is not enough).
  unfoldable pub climb_levels : ℕ → List (List ℕ) → ℕ → Option (Outcome Proof)
  unfolding pad sibling
  climb_levels zero level index = none
  climb_levels (suc fuel) level index =
      let rest = climb_levels fuel (next_level (pad level)) (index / 2) in
      if ltb 1 (length level)
      then (elim (get_elem? (pad level) (sibling index)) [
        | none ↦ some panic
        | some s ↦ elim rest [
          | none ↦ none
          | some (ok proof) ↦ some (ok (record { branch = s ∷ proof.branch; root = proof.root }))
          | some (err e) ↦ some (err e)
          | some panic ↦ some panic
        ]
      ])
      else some (do root ← expect (head? level); ok (record { branch = []; root = root }))

  unfoldable pub branch_and_root : List (List ℕ) → ℕ → Option (Outcome Proof)
  unfolding climb_levels
  branch_and_root leaves index =
      if leb 1 (length leaves) && ltb index (length leaves)
      then climb_levels (length leaves) leaves index
      else some panic

-- ===== src/Electrum/History/Sound.antt =====
-- What `script_history` of bindex-electrum/src/chain.rs relies on: a cached fold is the fold over the
-- references that it is cached with.
use bindex_rs.Common.{
  ℕ, ◌≡◌, refl, ap, ◌∙◌, fun_ext, Bool, true, false, ◌&&◌, List, [], ◌∷◌, ◌++◌, ◌==◌, ==_iff,
}
use bindex_rs.Common.{length, drop}
use bindex_rs.Common.{Outcome, ok, err, panic, ◌>>=◌}
use bindex_rs.Common.Bytes.{bytes_eq, bytes_eq_iff}
use bindex_rs.Chain.Reads.{TxBytesRef}
use bindex_rs.Electrum.Mempool.{ScriptHash}
use bindex_rs.Electrum.Fold.{ParsedTx, Fold, empty_fold, apply, finish}
use bindex_rs.Electrum.ScriptCache.{CachedScript, ScriptCache}
use bindex_rs.Electrum.ScriptCache.Entries.{Each}
use bindex_rs.Electrum.History.{ref_eq, begins_with}

module _ (parse_tx : List ℕ → Outcome ParsedTx) (from_script : List ℕ → ScriptHash)
    (body : TxBytesRef → List ℕ) (scripthash : ScriptHash) where
  -- The history folded in one go, with no cache: each transaction's body after the one before.
  unfoldable pub whole_fold : Fold → List TxBytesRef → Outcome Fold
  whole_fold fold [] = ok fold
  whole_fold fold (r ∷ refs) = do
    next ← apply from_script parse_tx fold scripthash r (body r)
    whole_fold next refs

  then_assoc :
      (first : Outcome Fold) (rest more : Fold → Outcome Fold)
      → (first >>= λ f. rest f >>= more) ≡ ((first >>= rest) >>= more)
  then_assoc panic rest more = refl
  then_assoc (err e) rest more = refl
  then_assoc (ok f) rest more = refl

  -- A longer history is folded on from where a shorter one stopped.
  pub whole_fold-append :
      (fold : Fold) (xs ys : List TxBytesRef)
      → whole_fold fold (xs ++ ys) ≡ (whole_fold fold xs >>= λ f. whole_fold f ys)
  unfolding whole_fold
  whole_fold-append fold [] ys = refl
  whole_fold-append fold (r ∷ xs) ys =
      let first = apply from_script parse_tx fold scripthash r (body r) in
      ap (λ k. first >>= k) (fun_ext (λ (f : Fold). whole_fold-append f xs ys))
      ∙ then_assoc first (λ f. whole_fold f xs) (λ f. whole_fold f ys)

  -- A cached script was folded over its references.
  pub record IsFolded (cached : CachedScript) : Type 0 where
    pub folded : whole_fold empty_fold cached.refs ≡ ok cached.fold
    pub finished : cached.history ≡ finish cached.fold

module _ (parse_tx : List ℕ → Outcome ParsedTx) (from_script : List ℕ → ScriptHash)
    (body : TxBytesRef → List ℕ) where
  abbrev pub IsSound : ScriptCache → Type 0
  IsSound cache = Each (λ k cached. IsFolded parse_tx from_script body k cached) cache.entries

and_true : (a b : Bool) → (a && b) ≡ true → (a ≡ true) × (b ≡ true)
and_true true b e = (refl, e)
and_true false b e = cc

ref_eq→≡ : (a b : TxBytesRef) → ref_eq a b ≡ true → a ≡ b
ref_eq→≡ a b e =
    let (h1, e1) = and_true (bytes_eq a.block_hash b.block_hash) _ e in
    let (h2, e2) = and_true (a.block_height == b.block_height) _ e1 in
    let (h3, e3) = and_true (a.block_position == b.block_position) _ e2 in
    let (h4, h5) = and_true (a.offset == b.offset) (a.size == b.size) e3 in
    let p1 = (bytes_eq_iff a.block_hash b.block_hash).0 h1 in
    let p2 = (==_iff a.block_height b.block_height).0 h2 in
    let p3 = (==_iff a.block_position b.block_position).0 h3 in
    let p4 = (==_iff a.offset b.offset).0 h4 in
    let p5 = (==_iff a.size b.size).0 h5 in
    λ i. record {
      block_hash = p1 i;
      block_height = p2 i;
      block_position = p3 i;
      offset = p4 i;
      size = p5 i;
    }

-- References that begin with others are those, with the rest behind them.
pub begins_with-split :
    (refs prefix : List TxBytesRef)
    → begins_with refs prefix ≡ true
    → refs ≡ prefix ++ drop (length prefix) refs
unfolding begins_with
begins_with-split refs [] e = refl
begins_with-split [] (c ∷ cs) e = cc
begins_with-split (r ∷ refs) (c ∷ cs) e =
    let (a, b) = and_true (ref_eq r c) (begins_with refs cs) e in
    let head = ref_eq→≡ r c a in let tail = begins_with-split refs cs b in λ i. head i ∷ tail i

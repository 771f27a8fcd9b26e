-- ===== src/Electrum/History/Resumed.antt =====
-- Where a round of `script_history` in bindex-electrum/src/chain.rs goes on from.
use bindex_rs.Common.{
  ℕ, ◌≤◌, ◌≡◌, refl, ap, ◌∙◌, inl, inr, Option, none, some, List, [], ◌∷◌, ◌++◌, append-nil, arith,
  ◌==◌, ==_iff, Bool-cases,
}
use bindex_rs.Common.{length, drop, length-append, length-drop}
use bindex_rs.Common.{Outcome, ok, ◌>>=◌}
use bindex_rs.Chain.Reads.{TxBytesRef}
use bindex_rs.Electrum.Mempool.{ScriptHash}
use bindex_rs.Electrum.Fold.{ParsedTx, Fold, ScriptHistory, empty_fold, finish}
use bindex_rs.Electrum.ScriptCache.{CachedScript}
use bindex_rs.Electrum.History.{begins_with}
use bindex_rs.Electrum.History.Sound.{whole_fold, whole_fold-append, IsFolded, begins_with-split}
use bindex_rs.Electrum.History.Cached.{Resume, answer, fold_on, resume}

module _ (parse_tx : List ℕ → Outcome ParsedTx) (from_script : List ℕ → ScriptHash)
    (body : TxBytesRef → List ℕ) (k : ScriptHash) where
  -- The history that folding all of the transactions gives.
  abbrev pub IsHistory : List TxBytesRef → ScriptHistory → Type 0
  IsHistory refs history =
      (fold : Fold) × (whole_fold parse_tx from_script body k empty_fold refs ≡ ok fold)
      × (history ≡ finish fold)

  -- What a round may go on from.
  abbrev pub Continues : List TxBytesRef → Resume → Type 0
  Continues refs (answer history) = IsHistory refs history
  Continues refs (fold_on fold start) =
      whole_fold parse_tx from_script body k empty_fold refs
      ≡ whole_fold parse_tx from_script body k fold (drop start refs)

  pub resume-Continues :
      (refs : List TxBytesRef) (o : Option CachedScript)
      → ((cached : CachedScript) → o ≡ some cached → IsFolded parse_tx from_script body k cached)
      → Continues refs (resume refs o)
  unfolding resume
  resume-Continues refs none h = refl
  resume-Continues refs (some cached) h =
      let folded = h cached refl in
      elim (Bool-cases (begins_with refs cached.refs)) [
        | inr f ↦ rw f refl
        | inl t ↦
            let split = begins_with-split refs cached.refs t in
            elim (Bool-cases (length refs == length cached.refs)) [
              | inr f ↦
                  rw (t, f)
                    (ap (whole_fold parse_tx from_script body k empty_fold) split
                      ∙ whole_fold-append parse_tx from_script body k empty_fold cached.refs
                          (drop (length cached.refs) refs)
                      ∙ ap
                          (λ g. g >>= λ x.
                            whole_fold parse_tx from_script body k x
                              (drop (length cached.refs) refs))
                          folded.folded)
              | inl e ↦
                  rw (t, e)
                    (
                      cached.fold,
                      ap (whole_fold parse_tx from_script body k empty_fold) (
                            split
                            ∙ ap (λ l. cached.refs ++ l)
                                (nothing (length cached.refs) refs
                                  ((==_iff (length refs) (length cached.refs)).0 e))
                            ∙ append-nil cached.refs)
                          ∙ folded.folded,
                      folded.finished,
                    )
            ]
      ]
    where
      nothing : (n : ℕ) (xs : List TxBytesRef) → length xs ≡ n → drop n xs ≡ []
      nothing n xs e = empty (drop n xs) (length-drop n xs ∙ omega arith)
        where
          empty : (ys : List TxBytesRef) → length ys ≡ 0 → ys ≡ []
          empty [] e = refl
          empty (y ∷ ys) e = absurd (omega arith)

  -- A cached fold that is continued stands for no more references than there are.
  abbrev pub Fits : List TxBytesRef → Resume → Type 0
  Fits refs (answer history) = Unit
  Fits refs (fold_on fold start) = start ≤ length refs

  pub resume-Fits : (refs : List TxBytesRef) (o : Option CachedScript) → Fits refs (resume refs o)
  unfolding resume
  resume-Fits refs none = omega arith
  resume-Fits refs (some cached) = elim (Bool-cases (begins_with refs cached.refs)) [
    | inr f ↦ rw f (omega arith)
    | inl t ↦
        let split = begins_with-split refs cached.refs t in
        let enough = ap length split ∙ length-append cached.refs (drop (length cached.refs) refs) in
        elim (Bool-cases (length refs == length cached.refs)) [
          | inr f ↦ rw (t, f) (omega arith)
          | inl e ↦ rw (t, e) tt
        ]
  ]

-- ===== src/Electrum/History/Spender/Found.antt =====
-- What `find_spender` of bindex-electrum/src/chain.rs finds.
use bindex_rs.Common.{
  ℕ, zero, suc, ◌+◌, ◌<◌, ◌≡◌, refl, sym, ap, ◌∙◌, subst, Bool, true, false, Option, none, some,
  List, [], ◌∷◌, ◌++◌, arith, some_inj, if◌then◌else◌,
}
use bindex_rs.Common.{chunks, flatten, flatten-chunks}
use bindex_rs.Common.{Outcome, ok, ◌>>=◌, ok_inj, >>=-eq-ok}
use bindex_rs.Common.Bytes.{bytes_eq, bytes_eq_iff}
use bindex_rs.Index.TxPos.{VarInt}
use bindex_rs.Index.Visit.{Parser}
use bindex_rs.Db.Store.{Store}
use bindex_rs.Headers
use bindex_rs.Chain.Reads.{TxBytesRef}
use bindex_rs.Electrum.Mempool.{ScriptHash, OutPoint}
use bindex_rs.Electrum.Fold.{ParsedTx}
use bindex_rs.Electrum.History.{script_refs, fetch_bodies}
use bindex_rs.Electrum.History.Fetched.{Serves, fetch_bodies-served}
use bindex_rs.Electrum.History.Cached.{Round}
use bindex_rs.Electrum.History.Spender.{
  Spender, scan_bodies, scan_batches, spender_round, spender_rounds, found_or, find_spender,
}
use bindex_rs.Electrum.History.Spender.Scanned.{
  Scanned, Scanned-behind, Scanned-ahead, scan_bodies_lem,
}

module _ (v : VarInt) (p : Parser) (s : Store) (parse_tx : List ℕ → Outcome ParsedTx)
    (body : TxBytesRef → List ℕ) (outpoint : OutPoint) where
  scan_batches_lem :
      (r : Round v p s) (i : ℕ) (batches : List (List TxBytesRef)) (found : Option Spender)
      → Serves body r.block_part
      → scan_batches v p s parse_tx r outpoint i batches ≡ ok found
      → Scanned parse_tx body outpoint (flatten batches) found
  unfolding scan_batches
  scan_batches_lem r i [] found serves e = subst (Scanned parse_tx body outpoint []) (ok_inj e) tt
  scan_batches_lem r i (b ∷ bs) found serves e =
      let rest = scan_batches v p s parse_tx r outpoint (suc i) bs in
      let (raws, a, e1) =
        >>=-eq-ok (fetch_bodies r.block_part (r.expired i) b)
          (λ raws. scan_bodies parse_tx outpoint b raws >>= λ o. found_or o rest) e in
      let (first, c, e2) =
        >>=-eq-ok (scan_bodies parse_tx outpoint b raws) (λ o. found_or o rest) e1 in
      let same = fetch_bodies-served body r.block_part (r.expired i) b raws serves a in
      let here =
        scan_bodies_lem parse_tx body outpoint b first
          (ap (scan_bodies parse_tx outpoint b) (sym same) ∙ c) in
      joined first here e2 (λ g. scan_batches_lem r (suc i) bs found serves g)
    where
      joined :
          (o : Option Spender)
          → Scanned parse_tx body outpoint b o
          → found_or o (scan_batches v p s parse_tx r outpoint (suc i) bs) ≡ ok found
          → (scan_batches v p s parse_tx r outpoint (suc i) bs ≡ ok found
              → Scanned parse_tx body outpoint (flatten bs) found)
          → Scanned parse_tx body outpoint (b ++ flatten bs) found
      joined none here g more =
          Scanned-behind parse_tx body outpoint b (flatten bs) found here (more g)
      joined (some sp) here g more =
          subst (Scanned parse_tx body outpoint (b ++ flatten bs)) (ok_inj g)
            (Scanned-ahead parse_tx body outpoint b (flatten bs) sp here)

  -- A round whose chain did not move, and what the references that it lists answer.
  abbrev pub IsAnswer : Round v p s → ScriptHash → ℕ → Option Spender → Type 0
  IsAnswer r k height found =
      (refs : List TxBytesRef) × (script_refs v p s r.at_start k (some height)
        ≡ ok (Headers.tip_hash r.at_end.headers, refs))
      × Scanned parse_tx body outpoint refs found

  spender_round_lem :
      (r : Round v p s) (k : ScriptHash) (height : ℕ) (found : Option Spender)
      → Serves body r.block_part
      → spender_round v p s parse_tx r outpoint k height ≡ ok (some found)
      → IsAnswer r k height found
  unfolding spender_round
  spender_round_lem r k height found serves e =
      let after = Headers.tip_hash r.at_end.headers in
      let scan = λ (refs : List TxBytesRef).
        scan_batches v p s parse_tx r outpoint 0 (chunks 512 512 [] refs) in
      let (listed, a, e1) =
        >>=-eq-ok (script_refs v p s r.at_start k (some height))
          (λ listed. scan listed.1 >>= λ o. ok (if bytes_eq after listed.0 then some o else none))
          e in
      let (o, b, e2) =
        >>=-eq-ok (scan listed.1) (λ o. ok (if bytes_eq after listed.0 then some o else none)) e1 in
      let (t, f) = taken (bytes_eq after listed.0) o (ok_inj e2) in
      let whole = flatten-chunks 512 512 [] listed.1 in
      (
        listed.1,
        a ∙ ap (λ h. ok (h, listed.1)) (sym ((bytes_eq_iff after listed.0).0 t)),
        subst (λ l. Scanned parse_tx body outpoint l found) whole
            (scan_batches_lem r 0 (chunks 512 512 [] listed.1) found serves (b ∙ ap ok f)),
      )
    where
      taken :
          (t : Bool) (o : Option Spender)
          → (if t then some o else none) ≡ some found
          → (t ≡ true) × (o ≡ found)
      taken true o e = (refl, some_inj e)
      taken false o e = cc

  spender_rounds_lem :
      (rounds : ℕ → Round v p s) (k : ScriptHash) (height retries i : ℕ) (found : Option Spender)
      → ((j : ℕ) → Serves body (rounds j).block_part)
      → spender_rounds v p s parse_tx rounds retries i outpoint k height ≡ ok found
      → (j : ℕ) × (j < i + retries) × IsAnswer (rounds j) k height found
  unfolding spender_rounds
  spender_rounds_lem rounds k height zero i found serves e = cc
  spender_rounds_lem rounds k height (suc retries) i found serves e =
      let rest = spender_rounds v p s parse_tx rounds retries (suc i) outpoint k height in
      let (result, a, e1) =
        >>=-eq-ok (spender_round v p s parse_tx (rounds i) outpoint k height)
          (λ result. elim result [ none ↦ rest | some found ↦ ok found ]) e in
      at result a e1 (λ g. spender_rounds_lem rounds k height retries (suc i) found serves g)
    where
      at :
          (result : Option (Option Spender))
          → spender_round v p s parse_tx (rounds i) outpoint k height ≡ ok result
          → elim result [
            | none ↦ spender_rounds v p s parse_tx rounds retries (suc i) outpoint k height
            | some found ↦ ok found
          ]
            ≡ ok found
          → (spender_rounds v p s parse_tx rounds retries (suc i) outpoint k height ≡ ok found
              → (j : ℕ) × (j < suc i + retries) × IsAnswer (rounds j) k height found)
          → (j : ℕ) × (j < i + suc retries) × IsAnswer (rounds j) k height found
      at none a g more = let (j, b, c) = more g in (j, omega arith, c)
      at (some o) a g more = (
        i,
        omega arith,
        spender_round_lem (rounds i) k height found (serves i)
            (a ∙ ap (λ x. ok (some x)) (ok_inj g)),
      )

  -- An answer of the query is that of one of its three rounds, in which the chain did not move: when
  -- it names a spender, it is the first of the transactions listed from the funding block on that
  -- has the outpoint among its inputs, with the number of that input and the transaction's place, and
  -- is not the funding transaction; when it names none, no listed transaction is one. The node is to
  -- serve no other bodies than the referenced ones.
  pub find_spender_finds :
      (rounds : ℕ → Round v p s) (k : ScriptHash) (height : ℕ) (found : Option Spender)
      → ((j : ℕ) → Serves body (rounds j).block_part)
      → find_spender v p s parse_tx rounds outpoint k height ≡ ok found
      → (j : ℕ) × (j < 3) × IsAnswer (rounds j) k height found
  unfolding find_spender
  find_spender_finds rounds k height found serves e =
      let (j, a, b) = spender_rounds_lem rounds k height 3 0 found serves e in (j, omega arith, b)

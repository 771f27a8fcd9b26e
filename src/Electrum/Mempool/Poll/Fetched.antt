-- ===== src/Electrum/Mempool/Poll/Fetched.antt =====
-- What `poll_once` of bindex-electrum/src/mempool.rs fetches: only what it wants.
use bindex_rs.Common.{
  ℕ, ◌+◌, ◌-◌, ◌/◌, min, max, ◌≡◌, refl, sym, ap, ◌∙◌, subst, inl, inr, Bool, true, false, ◌||◌,
  Option, none, some, List, [], ◌∷◌, map, leb, Bool-cases, if_true, if_false,
}
use bindex_rs.Common.{length, All, chunks, flatten, flatten-chunks, All-split, All-append, slice}
use bindex_rs.Common.{Outcome, ok, err, panic, ◌>>=◌, ok_inj, >>=-eq-ok, Outcome-cases}
use bindex_rs.Common.Bytes.{bytes_eq, bytes_eq_refl, bytes_eq_iff}
use bindex_rs.Electrum.Maps.{has}
use bindex_rs.Electrum.Mempool.{Txid, ScriptHash, MempoolTx, MempoolIndex}
use bindex_rs.Electrum.Mempool.View.{insert_by, sort_by}
use bindex_rs.Electrum.Mempool.Build.{MempoolEntryInfo, build_tx}
use bindex_rs.Electrum.Fold.{ParsedTx}
use bindex_rs.Electrum.Mempool.Loops.{has-insert_txid}
use bindex_rs.Electrum.Mempool.Poll.{
  MempoolNode, known_txids, current_txids, wanted_txids, keep_fetched, fetch_slice, join_all,
  fetch_wanted, arrivals_of,
}

module _ (parse_tx : List ℕ → Outcome ParsedTx) (from_script : List ℕ → ScriptHash)
    (node : MempoolNode) (P : Txid → Type 0) where
  abbrev Wanted : List (Txid × MempoolEntryInfo) → Type 0
  Wanted wanted = All (λ (w : Txid × MempoolEntryInfo). P w.0) wanted

  -- A transaction that the node serves and that decodes so.
  abbrev pub IsServed : MempoolTx × MempoolEntryInfo → Type 0
  IsServed f =
      (raw : List ℕ) × (node.tx_raw f.0.txid ≡ ok raw)
      × (build_tx from_script parse_tx raw f.1 ≡ ok f.0)

  -- Such transactions, whose ids have `P`.
  abbrev pub Of : List (MempoolTx × MempoolEntryInfo) → Type 0
  Of fetched = All (λ (f : MempoolTx × MempoolEntryInfo). P f.0.txid × IsServed f) fetched

  keep_fetched-Of :
      (txid : Txid) (info : MempoolEntryInfo) (built : Outcome MempoolTx)
      (rest : Outcome (List (MempoolTx × MempoolEntryInfo)))
      → P txid
      → ((tx : MempoolTx)
          → built ≡ ok tx
          → (raw : List ℕ) × (node.tx_raw txid ≡ ok raw)
            × (build_tx from_script parse_tx raw info ≡ ok tx))
      → ((out : List (MempoolTx × MempoolEntryInfo)) → rest ≡ ok out → Of out)
      → (out : List (MempoolTx × MempoolEntryInfo))
      → keep_fetched parse_tx from_script txid info built rest ≡ ok out
      → Of out
  unfolding keep_fetched
  keep_fetched-Of txid info (err e) rest h got ih out k = ih out k
  keep_fetched-Of txid info panic rest h got ih out k = cc
  keep_fetched-Of txid info (ok tx) rest h got ih out k =
      elim (Bool-cases (bytes_eq tx.txid txid)) [
        | inr t ↦ ih out (if_false (bytes_eq tx.txid txid) _ rest t k)
        | inl t ↦
            let e = if_true (bytes_eq tx.txid txid) (rest >>= λ o. ok ((tx, info) ∷ o)) rest t k in
            let (others, a, b) = >>=-eq-ok rest (λ o. ok ((tx, info) ∷ o)) e in
            let same = sym ((bytes_eq_iff tx.txid txid).0 t) in
            let (raw, c, d) = got tx refl in
            subst Of (ok_inj b)
              ((subst P same h, (raw, subst (λ i. node.tx_raw i ≡ ok raw) same c, d)), ih others a)
      ]

  fetch_slice-Of :
      (slice : List (Txid × MempoolEntryInfo)) (out : List (MempoolTx × MempoolEntryInfo))
      → Wanted slice
      → fetch_slice parse_tx from_script node slice ≡ ok out
      → Of out
  unfolding fetch_slice
  fetch_slice-Of [] out h e = subst Of (ok_inj e) tt
  fetch_slice-Of ((txid, info) ∷ slice) out h e =
      keep_fetched-Of txid info (node.tx_raw txid >>= λ raw. build_tx from_script parse_tx raw info)
        (fetch_slice parse_tx from_script node slice) h.0
        (λ tx e. >>=-eq-ok (node.tx_raw txid) (λ raw. build_tx from_script parse_tx raw info) e)
        (λ rest k. fetch_slice-Of slice rest h.1 k) out e

  join_all-Of :
      (slices : List (List (Txid × MempoolEntryInfo)))
      → Wanted (flatten slices)
      → Of (
          join_all parse_tx from_script
            (map (λ slice. fetch_slice parse_tx from_script node slice) slices))
  unfolding join_all
  join_all-Of [] h = tt
  join_all-Of (slice ∷ slices) h =
      let (a, b) = All-split (λ (w : Txid × MempoolEntryInfo). P w.0) slice (flatten slices) h in
      let more = join_all-Of slices b in
      elim (Outcome-cases (fetch_slice parse_tx from_script node slice)) [
        | inl (out, e) ↦
            rw (e, join_all)
              (All-append (λ (f : MempoolTx × MempoolEntryInfo). P f.0.txid × IsServed f) out _
                (fetch_slice-Of slice out a e) more)
        | inr (inl (x, e)) ↦ rw (e, join_all) more
        | inr (inr e) ↦ rw (e, join_all) more
      ]

  pub fetch_wanted-Of :
      (workers : ℕ) (wanted : List (Txid × MempoolEntryInfo))
      → Wanted wanted
      → Of (fetch_wanted parse_tx from_script node workers wanted)
  unfolding fetch_wanted
  fetch_wanted-Of workers wanted h =
      let n : ℕ = min (max workers 1) (max (length wanted) 1) in
      let chunk : ℕ = max ((length wanted + (n - 1)) / n) 1 in
      join_all-Of (chunks chunk chunk [] wanted)
        (subst Wanted (sym (flatten-chunks chunk chunk [] wanted)) h)

All-insert_by :
    (P : MempoolTx × MempoolEntryInfo → Type 0)
    (le : MempoolTx × MempoolEntryInfo → MempoolTx × MempoolEntryInfo → Bool)
    (x : MempoolTx × MempoolEntryInfo) (ys : List (MempoolTx × MempoolEntryInfo))
    → P x
    → All P ys
    → All P (insert_by le x ys)
unfolding insert_by
All-insert_by P le x [] h k = (h, tt)
All-insert_by P le x (y ∷ ys) h k = elim (Bool-cases (le x y)) [
  | inl t ↦ rw t (h, k)
  | inr f ↦ rw f (k.0, All-insert_by P le x ys h k.1)
]

All-sort_by :
    (P : MempoolTx × MempoolEntryInfo → Type 0)
    (le : MempoolTx × MempoolEntryInfo → MempoolTx × MempoolEntryInfo → Bool)
    (xs : List (MempoolTx × MempoolEntryInfo))
    → All P xs
    → All P (sort_by le xs)
unfolding sort_by
All-sort_by P le [] h = tt
All-sort_by P le (x ∷ xs) h = All-insert_by P le x (sort_by le xs) h.0 (All-sort_by P le xs h.1)

-- A transaction of the node that the index does not know.
abbrev pub IsNew : List Txid → List (Option Txid × MempoolEntryInfo) → Txid → Type 0
IsNew known entries t =
    (has bytes_eq t known ≡ false) × (has bytes_eq t (current_txids entries) ≡ true)

or_true : (b : Bool) → (b || true) ≡ true
or_true true = refl
or_true false = refl

wanted_txids-IsNew :
    (known : List Txid) (entries : List (Option Txid × MempoolEntryInfo))
    → All (λ (w : Txid × MempoolEntryInfo). IsNew known entries w.0) (wanted_txids known entries)
unfolding wanted_txids current_txids
wanted_txids-IsNew known [] = tt
wanted_txids-IsNew known ((none, info) ∷ entries) = wanted_txids-IsNew known entries
wanted_txids-IsNew known ((some t, info) ∷ entries) =
    let more = wider (wanted_txids known entries) (wanted_txids-IsNew known entries) in
    elim (Bool-cases (has bytes_eq t known)) [
      | inl e ↦ rw e more
      | inr e ↦
          rw e ((e, has-insert_txid t t (current_txids entries) ∙ rw (bytes_eq_refl t) refl), more)
    ]
  where
    wider :
        (ws : List (Txid × MempoolEntryInfo))
        → All (λ (w : Txid × MempoolEntryInfo). IsNew known entries w.0) ws
        → All (λ (w : Txid × MempoolEntryInfo). IsNew known ((some t, info) ∷ entries) w.0) ws
    wider [] h = tt
    wider (w ∷ ws) h = (
      (
        h.0.0,
        has-insert_txid w.0 t (current_txids entries)
            ∙ ap (λ b. bytes_eq t w.0 || b) h.0.1
            ∙ or_true (bytes_eq t w.0),
      ),
      wider ws h.1,
    )

-- What arrives is new, and what the node serves for it.
pub arrivals_of-IsNew :
    (parse_tx : List ℕ → Outcome ParsedTx) (from_script : List ℕ → ScriptHash) (node : MempoolNode)
    (workers : ℕ) (self : MempoolIndex) (entries : List (Option Txid × MempoolEntryInfo))
    → Of parse_tx from_script node
        (IsNew (known_txids self.txs) entries)
        (arrivals_of parse_tx from_script node workers self entries)
unfolding arrivals_of
arrivals_of-IsNew parse_tx from_script node workers self entries =
    let known = known_txids self.txs in
    All-sort_by
      (λ (f : MempoolTx × MempoolEntryInfo).
        IsNew known entries f.0.txid × IsServed parse_tx from_script node (IsNew known entries) f)
      (λ a b. leb a.1.time b.1.time)
      (fetch_wanted parse_tx from_script node workers (wanted_txids known entries))
      (fetch_wanted-Of parse_tx from_script node (IsNew known entries) workers
        (wanted_txids known entries) (wanted_txids-IsNew known entries))

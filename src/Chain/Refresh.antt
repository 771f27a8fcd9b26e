-- ===== src/Chain/Refresh.antt =====
-- `refresh_secondary` of bindex-lib/src/chain.rs.
use bindex_rs.Common.{
  ℕ, suc, ◌+◌, ◌^◌, ◌≡◌, sym, ap, ◌∙◌, subst, inl, inr, true, false, ◌&&◌, Option, some, List, [],
  ◌∷◌, ◌++◌, arith, ltb, Bool-cases, Option-cases,
}
use bindex_rs.Common.{length, get_last?, get_last?-eq-get_elem?, slice_to, slice_from}
use bindex_rs.Common.{
  rocksdb, Outcome, ok, err, panic, ◌>>=◌, ok_or, ok_inj, >>=-eq-ok, assert-eq-ok, Outcome-cases,
}
use bindex_rs.Common.Bytes.{bytes_eq, bytes_eq_iff}
use bindex_rs.Fmt.{bitcoin, prev_blockhash}
use bindex_rs.Index.TxNum
use bindex_rs.Index.Header
use bindex_rs.Index.Header.{IndexedHeader, deserialize}
use bindex_rs.Index.TxPos.{VarInt}
use bindex_rs.Index.Visit.{Parser}
use bindex_rs.Db
use bindex_rs.Db.{rows_from}
use bindex_rs.Db.Store.{Store}
use bindex_rs.Headers.{Headers, new, tip, all_zeros, hash_or_zeros, add}
use bindex_rs.Headers.Linked.{
  Linked, IsChain, new-IsChain, Linked-get_elem?, add-IsChain, tip_from, tip_of_rows,
}
use bindex_rs.Chain.{IndexedChain, reload, refresh_secondary, add_all, added, all_linked}
use bindex_rs.Chain.Linked.{Linked-concat}
use bindex_rs.Chain.Appended.{add_all_lem}

-- Rows that `add_all` accepts leave a chain.
add_all-IsChain :
    (self self' : Headers) (rows : List IndexedHeader)
    → IsChain self
    → add_all self rows ≡ ok self'
    → IsChain self'
unfolding add_all
add_all-IsChain self self' [] c e = subst IsChain (ok_inj e) c
add_all-IsChain self self' (r ∷ rows) c e =
    let (next, added, rest) = >>=-eq-ok (add self r) _ e in
    add_all-IsChain next self' rows (add-IsChain self next r c added).0 rest

added-IsChain :
    (self : Headers) (rows : List IndexedHeader) → IsChain self → IsChain (added self rows)
unfolding added
added-IsChain self [] c = c
added-IsChain self (r ∷ rows) c = elim (Outcome-cases (add self r)) [
  | inl (next, e) ↦ rw (e, added) (added-IsChain next rows (add-IsChain self next r c e).0)
  | inr (inl (x, e)) ↦ rw (e, added) c
  | inr (inr e) ↦ rw (e, added) c
]

deserialize-height :
    (key value : List ℕ) (position : ℕ) (h : IndexedHeader)
    → deserialize bitcoin key value position ≡ ok h
    → h.height ≡ position
unfolding deserialize
deserialize-height key value position h e =
    let (n, _, e1) = >>=-eq-ok (TxNum.deserialize key) _ e in
    let (hash, _, e2) = >>=-eq-ok (slice_to 32 value) _ e1 in
    let (raw, _, e3) = >>=-eq-ok (slice_from 32 value) _ e2 in
    let (prev, _, e4) =
      >>=-eq-ok (elim (prev_blockhash raw) [ ok p ↦ ok p | err e ↦ panic | panic ↦ panic ]) _ e3 in
    let (_, same) = assert-eq-ok (ltb position (2 ^ 32)) _ e4 in
    sym (ap (λ (x : IndexedHeader). x.height) (ok_inj same))

abbrev pub Heights : ℕ → List IndexedHeader → Type 0
Heights n [] = Unit
Heights n (r ∷ rows) = (r.height ≡ n) × Heights (n + 1) rows

rows_from-Heights :
    (position : ℕ) (items : List (Option (List ℕ × List ℕ))) (rows : List IndexedHeader)
    → rows_from bitcoin position items ≡ ok rows
    → Heights position rows
unfolding rows_from
rows_from-Heights position [] rows e = subst (Heights position) (ok_inj e) tt
rows_from-Heights position (item ∷ items) rows e =
    let ((key, value), _, e1) = >>=-eq-ok (ok_or item rocksdb) _ e in
    let (r, read, e2) = >>=-eq-ok (deserialize bitcoin key value position) _ e1 in
    let (rest, more, same) = >>=-eq-ok (rows_from bitcoin (position + 1) items) _ e2 in
    subst (Heights position) (ok_inj same) (
      deserialize-height key value position r read,
      rows_from-Heights (position + 1) items rest more,
    )

all_linked-Linked :
    (row : IndexedHeader) (rows : List IndexedHeader) (n : ℕ)
    → all_linked (row ∷ rows) ≡ true
    → Heights n rows
    → Linked row.hash n rows
unfolding all_linked
all_linked-Linked row [] n e h = tt
all_linked-Linked row (r ∷ rows) n e h = elim (Bool-cases (bytes_eq r.prev_blockhash row.hash)) [
  | inl t ↦
      let rest : all_linked (r ∷ rows) ≡ true = sym (rw t) ∙ e in
      ((bytes_eq_iff r.prev_blockhash row.hash).0 t, h.0, all_linked-Linked r rows (n + 1) rest h.1)
  | inr t ↦ let none_left : false ≡ true = sym (rw t) ∙ e in cc
]

-- The rows behind the tip's, added to the chain.
longer :
    (chain : List IndexedHeader) (t row : IndexedHeader) (rows : List IndexedHeader)
    → Linked all_zeros 0 chain
    → get_last? chain ≡ some t
    → Heights t.height (row ∷ rows)
    → row.hash ≡ t.hash
    → all_linked (row ∷ rows) ≡ true
    → Linked all_zeros 0 (chain ++ rows)
unfolding hash_or_zeros
longer [] t row rows l e h same linked = cc
longer (r ∷ chain) t row rows l e h same linked =
    let top : t.height ≡ length chain =
      Linked-get_elem? all_zeros 0 (r ∷ chain) (length chain) t l
        (sym (get_last?-eq-get_elem? r chain) ∙ e)
      ∙ omega arith in
    let named : hash_or_zeros (get_last? (r ∷ chain)) ≡ t.hash = ap hash_or_zeros e in
    let hash : row.hash ≡ tip_from all_zeros (r ∷ chain) =
      same ∙ sym named ∙ tip_of_rows (r ∷ chain) in
    Linked-concat all_zeros 0 (r ∷ chain) rows l (
      subst (λ x. Linked x (0 + suc (length chain)) rows) hash
        (subst (λ n. Linked row.hash n rows) (omega arith)
          (all_linked-Linked row rows (t.height + 1) linked h.1)))

module _ (v : VarInt) (p : Parser) (s : Store) where
  reload-IsChain :
      (self : IndexedChain v p s) (db : s.Db)
      → IsChain self.headers
      → IsChain (reload v p s self db).1.headers
  unfolding reload
  reload-IsChain self db c = elim (Outcome-cases (Db.all_headers bitcoin s db >>= new)) [
    | inl (headers, e) ↦
        let (rows, _, made) = >>=-eq-ok (Db.all_headers bitcoin s db) new e in
        rw (e, reload) (new-IsChain rows headers made)
    | inr (inl (x, e)) ↦ rw (e, reload) c
    | inr (inr e) ↦ rw (e, reload) c
  ]

  -- A refresh keeps the chain a chain on every branch: the new rows are added, or all rows are read
  -- again, or the refresh fails.
  pub refresh_secondary-IsChain :
      (primary : Outcome s.Db) (self : IndexedChain v p s)
      → IsChain self.headers
      → IsChain (refresh_secondary v p s primary self).1.headers
  unfolding refresh_secondary
  refresh_secondary-IsChain (err e) self c = c
  refresh_secondary-IsChain panic self c = c
  refresh_secondary-IsChain (ok db) self c = elim (Option-cases (tip self.headers)) [
    | inl e ↦ rw (e, refresh_secondary) (reload-IsChain self db c)
    | inr (t, e) ↦
        elim (Outcome-cases (Db.headers_from bitcoin s db (Header.key bitcoin t) t.height)) [
          | inr (inl (x, f)) ↦ rw (e, refresh_secondary) (rw (f, refresh_secondary) c)
          | inr (inr f) ↦ rw (e, refresh_secondary) (rw (f, refresh_secondary) c)
          | inl ([], f) ↦
              rw (e, refresh_secondary) (rw (f, refresh_secondary) (reload-IsChain self db c))
          | inl (row ∷ rows, f) ↦
              elim (Bool-cases (bytes_eq row.hash t.hash && all_linked (row ∷ rows))) [
                | inr g ↦
                    rw (e, refresh_secondary)
                      (rw (f, refresh_secondary)
                        (rw (g, refresh_secondary) (reload-IsChain self db c)))
                | inl g ↦ elim (Outcome-cases (add_all self.headers rows)) [
                  | inl (headers, a) ↦
                      rw (e, refresh_secondary)
                        (rw (f, refresh_secondary)
                          (rw (g, refresh_secondary)
                            (rw (a, refresh_secondary)
                              (add_all-IsChain self.headers headers rows c a))))
                  | inr (inl (x, a)) ↦
                      rw (e, refresh_secondary)
                        (rw (f, refresh_secondary)
                          (rw (g, refresh_secondary)
                            (rw (a, refresh_secondary) (added-IsChain self.headers rows c))))
                  | inr (inr a) ↦
                      rw (e, refresh_secondary)
                        (rw (f, refresh_secondary)
                          (rw (g, refresh_secondary)
                            (rw (a, refresh_secondary) (added-IsChain self.headers rows c))))
                ]
              ]
        ]
  ]

  -- When the rows that are read from the tip's row on still begin with the tip's block and hang
  -- together, the refresh succeeds and appends those behind the first; nothing is read again.
  pub refresh_secondary_appends :
      (self : IndexedChain v p s) (db : s.Db) (t row : IndexedHeader) (rows : List IndexedHeader)
      → IsChain self.headers
      → tip self.headers ≡ some t
      → Db.headers_from bitcoin s db (Header.key bitcoin t) t.height ≡ ok (row ∷ rows)
      → row.hash ≡ t.hash
      → all_linked (row ∷ rows) ≡ true
      → (refresh_secondary v p s (ok db) self ≡ (
        ok tt,
        record {
          genesis_hash = self.genesis_hash;
          headers = record { rows = self.headers.rows ++ rows };
          store = db;
        },
      ))
        × IsChain (record { rows = self.headers.rows ++ rows })
  unfolding refresh_secondary tip
  refresh_secondary_appends self db t row rows c e f same linked =
      let g : (bytes_eq row.hash t.hash && all_linked (row ∷ rows)) ≡ true =
        rw ((bytes_eq_iff row.hash t.hash).1 same, linked) in
      let l =
        longer self.headers.rows t row rows c.linked e
          (unfold Db.headers_from in rows_from-Heights t.height _ (row ∷ rows) f) same linked in
      (
        rw (e, refresh_secondary)
            (rw (f, refresh_secondary)
              (rw (g, refresh_secondary)
                (rw (add_all_lem self.headers.rows rows l, refresh_secondary)))),
        record { linked = l },
      )

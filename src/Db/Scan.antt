-- ===== src/Db/Scan.antt =====
-- `scan_by_script_hash` finds exactly the numbers that are stored for a script.
use bindex_rs.Common.{
  ℕ, ◌≤◌, ◌≡◌, refl, sym, ap, ◌∙◌, subst, ◌≢◌, ◌↔◌, ◌⊎◌, inl, inr, true, false, Option, some, List,
  [], ◌∷◌, arith, some_inj, leb→le, le→leb, Bool-cases,
}
use bindex_rs.Common.{length, take, length-append, length-take}
use bindex_rs.Common.{ok, ok_inj}
use bindex_rs.Common.Bytes.{
  IsU32, bytes_eq, bytes_eq_refl, bytes_eq_iff, bytes_le, u32_to_be_bytes, bytes_le_refl,
  bytes_le_trans, bytes_le_antisymm, bytes_le_heads,
}
use bindex_rs.Index.TxNum
use bindex_rs.Index.TxNum.{TxNum}
use bindex_rs.Index.Row
use bindex_rs.Index.Row.{prefix_len, txnum-new, bytes_le-new, starts_with-new, new_prefix_ok}
use bindex_rs.Db.Store.{script_hash, Store, Listed, InOrder, IsOrdered}
use bindex_rs.Db.{scan_loop, scan_by_script_hash}

abbrev pub Contains : ℕ → List ℕ → Type 0
Contains n [] = ⊥
Contains n (m ∷ ms) = (m ≡ n) ⊎ Contains n ms

-- Numbers that do not descend, from `base` on.
abbrev pub Sorted : ℕ → List ℕ → Type 0
Sorted base [] = Unit
Sorted base (n ∷ ns) = (base ≤ n) × Sorted n ns

-- Every key of a table is that of a row.
pub record IsRowTable (value : List ℕ → Option (List ℕ)) : Type 0 where
  pub row_at :
      (k v : List ℕ)
      → value k ≡ some v
      → (p : List ℕ) × (n : TxNum) × (k ≡ (Row.new p n).key) × (length p ≡ prefix_len) × IsU32 n

-- What a scan for `prefix` makes of its items.
record Found (value : List ℕ → Option (List ℕ)) (prefix : List ℕ) (base : TxNum)
    (items : List (Option (List ℕ × List ℕ))) (ns : List TxNum) : Type 0 where
  sorted : Sorted base ns
  sound : (n : TxNum) → Contains n ns → (v : List ℕ) × (value (Row.new prefix n).key ≡ some v)
  complete :
      (n : TxNum) (v : List ℕ) → IsU32 n → Listed (Row.new prefix n).key v items → Contains n ns

Listed-ge :
    (value : List ℕ → Option (List ℕ)) (from k v : List ℕ) (items : List (Option (List ℕ × List ℕ)))
    → InOrder value from items
    → Listed k v items
    → bytes_le from k ≡ true
Listed-ge value from k v [] o l = absurd l
Listed-ge value from k v (x ∷ xs) (j, w, e, le, _, others) (inl here) =
    let same : (j, w) ≡ (k, v) = some_inj (sym e ∙ here) in
    let same_key : j ≡ k = ap (λ p. p.0) same in subst (λ t. bytes_le from t ≡ true) same_key le
Listed-ge value from k v (x ∷ xs) (j, w, e, le, _, others) (inr later) =
    bytes_le_trans from j k le (Listed-ge value j k v xs others later)

length-new : (p : List ℕ) (n : TxNum) → length p ≡ prefix_len → length (Row.new p n).key ≡ 12
unfolding Row.new TxNum.serialize u32_to_be_bytes
length-new p n h = omega (arith, length-append p (u32_to_be_bytes n))

new-injective :
    (p : List ℕ) (m n : TxNum)
    → length p ≡ prefix_len
    → IsU32 m
    → IsU32 n
    → (Row.new p m).key ≡ (Row.new p n).key
    → m ≡ n
new-injective p m n h hm hn e =
    let back : ok m ≡ ok n =
      sym (txnum-new p m h hm) ∙ ap (λ k. Row.txnum (record { key = k })) e ∙ txnum-new p n h hn in
    ok_inj back

-- Rows of another prefix, between two rows of one prefix: there are none.
prefix_between :
    (p q : List ℕ) (m n k : TxNum)
    → length p ≡ prefix_len
    → length q ≡ prefix_len
    → bytes_le (Row.new p m).key (Row.new q n).key ≡ true
    → bytes_le (Row.new q n).key (Row.new p k).key ≡ true
    → q ≡ p
unfolding Row.new
prefix_between p q m n k hp hq a b =
    bytes_le_antisymm q p (bytes_le_heads q p _ _ (omega arith) b)
      (bytes_le_heads p q _ _ (omega arith) a)

module _ (value : List ℕ → Option (List ℕ)) (table : IsRowTable value) (prefix : List ℕ)
    (h : length prefix ≡ prefix_len) (from : TxNum) where
  -- An item that belongs to the prefix.
  Found-here :
      (base n : TxNum) (v : List ℕ) (xs : List (Option (List ℕ × List ℕ))) (ns : List TxNum)
      → base ≤ n
      → IsU32 n
      → value (Row.new prefix n).key ≡ some v
      → Found value prefix n xs ns
      → Found value prefix base (some ((Row.new prefix n).key, v) ∷ xs) (n ∷ ns)
  Found-here base n v xs ns le hn at f = record {
    sorted = (le, f.sorted);
    sound = sound;
    complete = complete;
  }
    where
      sound :
          (m : TxNum) → Contains m (n ∷ ns) → (w : List ℕ) × (value (Row.new prefix m).key ≡ some w)
      sound m (inl e) = (v, subst (λ t. value (Row.new prefix t).key ≡ some v) e at)
      sound m (inr c) = f.sound m c

      complete :
          (m : TxNum) (w : List ℕ)
          → IsU32 m
          → Listed (Row.new prefix m).key w (some ((Row.new prefix n).key, v) ∷ xs)
          → Contains m (n ∷ ns)
      complete m w hm (inl e) = inl (new-injective prefix n m h hn hm (ap (λ p. p.0) (some_inj e)))
      complete m w hm (inr l) = inr (f.complete m w hm l)

  -- Nothing behind an item of another prefix belongs to the prefix.
  Found-none :
      (base n : TxNum) (q : List ℕ) (v : List ℕ) (xs : List (Option (List ℕ × List ℕ)))
      → length q ≡ prefix_len
      → q ≢ prefix
      → bytes_le (Row.new prefix base).key (Row.new q n).key ≡ true
      → InOrder value (Row.new q n).key xs
      → Found value prefix base (some ((Row.new q n).key, v) ∷ xs) []
  Found-none base n q v xs hq other le order = record {
    sorted = tt;
    sound = λ m c. absurd c;
    complete = complete;
  }
    where
      complete :
          (m : TxNum) (w : List ℕ)
          → IsU32 m
          → Listed (Row.new prefix m).key w (some ((Row.new q n).key, v) ∷ xs)
          → Contains m []
      complete m w hm (inl e) =
          let same : (Row.new q n).key ≡ (Row.new prefix m).key = ap (λ p. p.0) (some_inj e) in
          other (
            prefix_between prefix q base n m h hq le (
              subst (λ t. bytes_le (Row.new q n).key t ≡ true) same
                (bytes_le_refl (Row.new q n).key)))
      complete m w hm (inr l) = other (
          prefix_between prefix q base n m h hq le
            (Listed-ge value (Row.new q n).key (Row.new prefix m).key w xs order l))

  -- One round of the loop, on an item of the prefix and on another.
  scan_here :
      (n : TxNum) (v : List ℕ) (xs : List (Option (List ℕ × List ℕ))) (ns : List TxNum)
      → IsU32 n
      → from ≤ n
      → scan_loop prefix from xs ≡ ok ns
      → scan_loop prefix from (some ((Row.new prefix n).key, v) ∷ xs) ≡ ok (n ∷ ns)
  unfolding scan_loop
  scan_here n v xs ns hn le e = rw (starts_with-new prefix prefix n refl) (
      rw (bytes_eq_refl prefix)
        (rw (length-new prefix n h) (rw (txnum-new prefix n h hn) (rw (le→leb from n le) (rw e)))))

  scan_other :
      (q : List ℕ) (n : TxNum) (v : List ℕ) (xs : List (Option (List ℕ × List ℕ)))
      → length q ≡ prefix_len
      → bytes_eq q prefix ≡ false
      → scan_loop prefix from (some ((Row.new q n).key, v) ∷ xs) ≡ ok []
  unfolding scan_loop
  scan_other q n v xs hq e = rw (starts_with-new q prefix n (hq ∙ sym h)) (rw e)

  abbrev Scanned : TxNum → List (Option (List ℕ × List ℕ)) → Type 0
  Scanned base items =
      (ns : List TxNum) × (scan_loop prefix from items ≡ ok ns) × Found value prefix base items ns

  abbrev Rest : List (Option (List ℕ × List ℕ)) → Type 0
  Rest xs =
      (b : TxNum) (low : List ℕ)
      → IsU32 b
      → from ≤ b
      → bytes_le (Row.new prefix b).key low ≡ true
      → InOrder value low xs
      → Scanned b xs

  at_prefix :
      (base n : TxNum) (v : List ℕ) (xs : List (Option (List ℕ × List ℕ)))
      → Rest xs
      → IsU32 base
      → IsU32 n
      → from ≤ base
      → bytes_le (Row.new prefix base).key (Row.new prefix n).key ≡ true
      → InOrder value (Row.new prefix n).key xs
      → value (Row.new prefix n).key ≡ some v
      → Scanned base (some ((Row.new prefix n).key, v) ∷ xs)
  at_prefix base n v xs rest hb hn le past order stored =
      let ordered : base ≤ n = leb→le base n (sym (bytes_le-new prefix base n hb hn) ∙ past) in
      let (ns, e, found) =
        rest n (Row.new prefix n).key hn (omega arith) (bytes_le_refl (Row.new prefix n).key)
          order in
      (
        n ∷ ns,
        scan_here n v xs ns hn (omega arith) e,
        Found-here base n v xs ns ordered hn stored found,
      )

  at_row :
      (base n : TxNum) (q v : List ℕ) (xs : List (Option (List ℕ × List ℕ)))
      → Rest xs
      → IsU32 base
      → IsU32 n
      → from ≤ base
      → length q ≡ prefix_len
      → bytes_le (Row.new prefix base).key (Row.new q n).key ≡ true
      → InOrder value (Row.new q n).key xs
      → value (Row.new q n).key ≡ some v
      → Scanned base (some ((Row.new q n).key, v) ∷ xs)
  at_row base n q v xs rest hb hn le hq past order stored = elim (Bool-cases (bytes_eq q prefix)) [
    | inl same ↦
        let e : q ≡ prefix = (bytes_eq_iff q prefix).0 same in
        subst (λ r. Scanned base (some ((Row.new r n).key, v) ∷ xs)) (sym e)
          (at_prefix base n v xs rest hb hn le
            (subst (λ r. bytes_le (Row.new prefix base).key (Row.new r n).key ≡ true) e past)
            (subst (λ r. InOrder value (Row.new r n).key xs) e order)
            (subst (λ r. value (Row.new r n).key ≡ some v) e stored))
    | inr differs ↦ (
      [],
      scan_other q n v xs hq differs,
      Found-none base n q v xs hq (λ e. cc ((bytes_eq_iff q prefix).1 e)) past order,
    )
  ]

  scan_loop_found : (items : List (Option (List ℕ × List ℕ))) → Rest items
  scan_loop_found [] base low hb le at order = (
    [],
    unfold scan_loop in refl,
    record { sorted = tt; sound = λ n c. absurd c; complete = λ n v hn l. absurd l },
  )
  scan_loop_found (x ∷ xs) base low hb le at (k, v, e, above, there, others) =
      let (q, n, is_row, hq, hn) = table.row_at k v there in
      let key : some (k, v) ≡ some ((Row.new q n).key, v) = ap (λ t. some (t, v)) is_row in
      subst (λ y. Scanned base (y ∷ xs)) (sym (e ∙ key))
        (at_row base n q v xs (scan_loop_found xs) hb hn le hq
          (subst (λ t. bytes_le (Row.new prefix base).key t ≡ true) is_row
            (bytes_le_trans (Row.new prefix base).key low k at above))
          (subst (λ t. InOrder value t xs) is_row others)
          (subst (λ t. value t ≡ some v) is_row there))

Sorted-ge : (base : ℕ) (ns : List ℕ) (n : ℕ) → Sorted base ns → Contains n ns → base ≤ n
Sorted-ge base [] n s c = absurd c
Sorted-ge base (m ∷ ms) n s (inl e) = omega arith
Sorted-ge base (m ∷ ms) n s (inr c) = omega (arith, Sorted-ge m ms n s.1 c)

-- On a table of rows, the scan for a script hash from a number succeeds. It returns numbers in
-- chronological order, and among them is exactly every number, from the given one on, whose row
-- under the hash's prefix is stored.
pub scan_by_script_hash_lem :
    (s : Store) (db : s.Db) (hash : List ℕ) (from n : TxNum)
    → IsOrdered s
    → IsRowTable (s.get db script_hash)
    → length hash ≡ 32
    → IsU32 from
    → IsU32 n
    → (ns : List TxNum) × (scan_by_script_hash s db hash from ≡ ok ns)
      × Sorted from ns
      × (Contains n ns ↔ (
          (from ≤ n)
          × ((v : List ℕ) × (s.get db script_hash (Row.new (take prefix_len hash) n).key
                ≡ some v))))
unfolding scan_by_script_hash
scan_by_script_hash_lem s db hash from n ordered table size hf hn =
    let value = s.get db script_hash in
    let prefix = take prefix_len hash in
    let key = (Row.new prefix from).key in
    let width : length prefix ≡ prefix_len = omega (arith, length-take prefix_len hash) in
    let (ns, e, found) =
      scan_loop_found value table prefix width from (s.scan db script_hash key) from key hf
        (omega arith) (bytes_le_refl key) (ordered.scan_in_order db script_hash key) in
    (
      ns,
      rw (new_prefix_ok hash (omega arith)) e,
      found.sorted,
      (
        λ c. (Sorted-ge from ns n found.sorted c, found.sound n c),
        λ (le, (v, stored)). found.complete n v hn (
            ordered.scan_complete db script_hash key (Row.new prefix n).key v stored
              (bytes_le-new prefix from n hf hn ∙ le→leb from n le)),
      ),
    )

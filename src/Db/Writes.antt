-- ===== src/Db/Writes.antt =====
-- What `write` and `delete` make of the key-only tables.
use bindex_rs.Common.{
  ℕ, ◌≡◌, refl, sym, ap, ◌∙◌, Bool, true, false, ◌&&◌, ◌||◌, Option, none, some, List, [], ◌∷◌,
  ◌++◌, map, arith, if◌then◌else◌,
}
use bindex_rs.Common.{rocksdb, ok, ok_inj, >>=-eq-ok, ok_or-eq-ok}
use bindex_rs.Common.Bytes.{bytes_eq}
use bindex_rs.Fmt.{Format}
use bindex_rs.Index.TxPos.{VarInt}
use bindex_rs.Index.Header
use bindex_rs.Index.Batch.{Batch}
use bindex_rs.Db.Store.{
  Cf, headers, script_hash, txpos, txid, Op, put, delete, cf_eq, value_after, Store, IsOrdered,
}
use bindex_rs.Db.{
  insert_key, sort_keys, keys_of, concat_rows, serialize_rows, batch_ops, apply_batch, write,
  delete_rows,
}

unfoldable pub has_key : List ℕ → List (List ℕ) → Bool
has_key k [] = false
has_key k (j ∷ js) = bytes_eq j k || has_key k js

has_key-insert_key :
    (k j : List ℕ) (js : List (List ℕ))
    → has_key k (insert_key j js) ≡ (bytes_eq j k || has_key k js)
unfolding has_key insert_key
has_key-insert_key k j [] = refl
has_key-insert_key k j (i ∷ is) = ground (arith, has_key-insert_key k j is)

pub has_key-sort_keys : (k : List ℕ) (ks : List (List ℕ)) → has_key k (sort_keys ks) ≡ has_key k ks
unfolding has_key sort_keys
has_key-sort_keys k [] = refl
has_key-sort_keys k (j ∷ js) =
    has_key-insert_key k j (sort_keys js) ∙ ap (λ b. bytes_eq j k || b) (has_key-sort_keys k js)

pub value_after-append :
    (cf : Cf) (k : List ℕ) (a b : List Op) (v : Option (List ℕ))
    → value_after cf k (a ++ b) v ≡ value_after cf k b (value_after cf k a v)
unfolding value_after
value_after-append cf k [] b v = refl
value_after-append cf k (put c j w ∷ a) b v =
    value_after-append cf k a b (if cf_eq c cf && bytes_eq j k then some w else v)
value_after-append cf k (delete c j ∷ a) b v =
    value_after-append cf k a b (if cf_eq c cf && bytes_eq j k then none else v)

-- A way to make operations of keys and values, and what it leaves at a key that it names.
pub record IsWriter (f : Cf → List ℕ → List ℕ → Op) (result : Option (List ℕ)) : Type 0 where
  pub effect :
      (c cf : Cf) (j w k : List ℕ) (v : Option (List ℕ))
      → value_after cf k (f c j w ∷ []) v
        ≡ (if cf_eq c cf && bytes_eq j k then elim result [ none ↦ none | some r ↦ some w ] else v)

put-IsWriter : IsWriter put (some [])
unfolding value_after
put-IsWriter = record { effect = λ c cf j w k v. refl }

delete-IsWriter : IsWriter (λ c j w. delete c j) none
unfolding value_after
delete-IsWriter = record { effect = λ c cf j w k v. refl }

if_or :
    {A : Type 0} (a b : Bool) (x y : A)
    → (if b then x else (if a then x else y)) ≡ (if a || b then x else y)
if_or true true x y = refl
if_or true false x y = refl
if_or false true x y = refl
if_or false false x y = refl

module _ (f : Cf → List ℕ → List ℕ → Op) (result : Option (List ℕ))
    (writer : IsWriter f result) where
  -- Key-only operations on the table that is looked at.
  keys_here :
      (cf : Cf) (k : List ℕ) (ks : List (List ℕ)) (v : Option (List ℕ))
      → cf_eq cf cf ≡ true
      → value_after cf k (map (λ j. f cf j []) ks) v
        ≡ (if has_key k ks then elim result [ none ↦ none | some r ↦ some [] ] else v)
  keys_here cf k [] v h = unfold value_after has_key in refl
  keys_here cf k (j ∷ js) v h =
      value_after-append cf k (f cf j [] ∷ []) (map (λ i. f cf i []) js) v
      ∙ rw (writer.effect cf cf j [] k v) (
          rw h (
            keys_here cf k js
              (if bytes_eq j k then elim result [ none ↦ none | some r ↦ some [] ] else v) h
            ∙ unfold has_key in
              if_or {A = Option (List ℕ)} (bytes_eq j k) (has_key k js)
                (elim result [ none ↦ none | some r ↦ some [] ]) v))

  -- Operations on another table.
  keys_elsewhere :
      {A : Type 0} (c cf : Cf) (k : List ℕ) (g h : A → List ℕ) (xs : List A) (v : Option (List ℕ))
      → cf_eq c cf ≡ false
      → value_after cf k (map (λ x. f c (g x) (h x)) xs) v ≡ v
  keys_elsewhere c cf k g h [] v e = unfold value_after in refl
  keys_elsewhere c cf k g h (x ∷ xs) v e =
      value_after-append cf k (f c (g x) (h x) ∷ []) (map (λ y. f c (g y) (h y)) xs) v
      ∙ rw (writer.effect c cf (g x) (h x) k v) (rw e (keys_elsewhere c cf k g h xs v e))

-- The value at a key of a key-only table after key-only operations at `keys`.
abbrev pub after_keys : Option (List ℕ) → List ℕ → List (List ℕ) → Option (List ℕ) → Option (List ℕ)
after_keys result k keys v =
    if has_key k keys then elim result [ none ↦ none | some r ↦ some [] ] else v

value_after-four :
    (cf : Cf) (k : List ℕ) (a b c d : List Op) (v : Option (List ℕ))
    → value_after cf k (a ++ (b ++ (c ++ d))) v
      ≡ value_after cf k d (value_after cf k c (value_after cf k b (value_after cf k a v)))
value_after-four cf k a b c d v =
    value_after-append cf k a (b ++ (c ++ d)) v
    ∙ value_after-append cf k b (c ++ d) (value_after cf k a v)
    ∙ value_after-append cf k c d (value_after cf k b (value_after cf k a v))

module _ (f : Cf → List ℕ → List ℕ → Op) (result : Option (List ℕ))
    (writer : IsWriter f result) where
  -- Sorted keys of a key-only table, looked at in that table.
  sorted_keys_here :
      (cf : Cf) (k : List ℕ) (ks : List (List ℕ)) (v : Option (List ℕ))
      → cf_eq cf cf ≡ true
      → value_after cf k (map (λ j. f cf j []) (sort_keys ks)) v ≡ after_keys result k ks v
  sorted_keys_here cf k ks v h =
      keys_here f result writer cf k (sort_keys ks) v h
      ∙ ap (λ b. if b then elim result [ none ↦ none | some r ↦ some [] ] else v)
          (has_key-sort_keys k ks)

  module _ (format : Format) (hs ts : List (List ℕ)) (positions : List (List ℕ × List ℕ))
      (batches : List Batch) where
    -- The operations of `apply_batch`.
    abbrev pub ops : List Op
    ops =
        map (λ j. f script_hash j []) (sort_keys hs)
        ++ (map (λ j. f txid j []) (sort_keys ts)
            ++ (map (λ kv. f txpos kv.0 kv.1) positions
                ++ map
                    (λ b.
                      f headers (Header.serialize format b.header b.raw_header).0
                        (Header.serialize format b.header b.raw_header).1)
                    batches))

    script_hash_after :
        (k : List ℕ) (w : Option (List ℕ))
        → value_after script_hash k ops w ≡ after_keys result k hs w
    unfolding cf_eq
    script_hash_after k w =
        value_after-four script_hash k (map (λ j. f script_hash j []) (sort_keys hs)) _ _ _ w
        ∙ keys_elsewhere f result writer headers script_hash k _ _ batches _ refl
        ∙ keys_elsewhere f result writer txpos script_hash k _ _ positions _ refl
        ∙ keys_elsewhere f result writer txid script_hash k _ _ (sort_keys ts) _ refl
        ∙ sorted_keys_here script_hash k hs w refl

    txid_after :
        (k : List ℕ) (w : Option (List ℕ)) → value_after txid k ops w ≡ after_keys result k ts w
    unfolding cf_eq
    txid_after k w =
        value_after-four txid k (map (λ j. f script_hash j []) (sort_keys hs)) _ _ _ w
        ∙ keys_elsewhere f result writer headers txid k _ _ batches _ refl
        ∙ keys_elsewhere f result writer txpos txid k _ _ positions _ refl
        ∙ sorted_keys_here txid k ts _ refl
        ∙ ap (after_keys result k ts) (
            keys_elsewhere f result writer script_hash txid k (λ j. j) (λ j. []) (sort_keys hs) w
              refl)

module _ (format : Format) (v : VarInt) (s : Store) (o : IsOrdered s) where
  ops_keys :
      (f : Cf → List ℕ → List ℕ → Op) (result : Option (List ℕ))
      → IsWriter f result
      → (db db' : s.Db) (batches : List Batch) (k : List ℕ) (all : List Op)
      → batch_ops format v f batches ≡ ok all
      → s.write db all ≡ some db'
      → (s.get db' script_hash k
          ≡ after_keys result k
              (keys_of (concat_rows (λ b. b.scripthash_rows) batches))
              (s.get db script_hash k))
        × (s.get db' txid k
            ≡ after_keys result k
                (keys_of (concat_rows (λ b. b.txid_rows) batches))
                (s.get db txid k))
  unfolding batch_ops
  ops_keys f result writer db db' batches k all made written =
      let (positions, _, same) =
        >>=-eq-ok (serialize_rows v (concat_rows (λ b. b.txpos_rows) batches)) _ made in
      let hs = keys_of (concat_rows (λ b. b.scripthash_rows) batches) in
      let ts = keys_of (concat_rows (λ b. b.txid_rows) batches) in
      (
        o.get-write db db' all script_hash k written
            ∙ rw (← ok_inj same) (
                script_hash_after f result writer format hs ts positions batches k
                  (s.get db script_hash k)),
        o.get-write db db' all txid k written
            ∙ rw (← ok_inj same)
                (txid_after f result writer format hs ts positions batches k (s.get db txid k)),
      )

  apply_batch_keys :
      (f : Cf → List ℕ → List ℕ → Op) (result : Option (List ℕ))
      → IsWriter f result
      → (db db' : s.Db) (batches : List Batch) (k : List ℕ)
      → apply_batch format v s f db batches ≡ ok db'
      → (s.get db' script_hash k
          ≡ after_keys result k
              (keys_of (concat_rows (λ b. b.scripthash_rows) batches))
              (s.get db script_hash k))
        × (s.get db' txid k
            ≡ after_keys result k
                (keys_of (concat_rows (λ b. b.txid_rows) batches))
                (s.get db txid k))
  unfolding apply_batch has_key
  apply_batch_keys f result writer db db' [] k h = rw (ok_inj h) (refl, refl)
  apply_batch_keys f result writer db db' (b ∷ bs) k h =
      let (all, made, written) = >>=-eq-ok (batch_ops format v f (b ∷ bs)) _ h in
      ops_keys f result writer db db' (b ∷ bs) k all made
        (ok_or-eq-ok (s.write db all) rocksdb written)

  -- After `write` the two key-only tables hold, beside what they held, exactly the keys of the
  -- rows of the batches, each with an empty value.
  pub get-write_lem :
      (db db' : s.Db) (batches : List Batch) (k : List ℕ)
      → write format v s db batches ≡ ok db'
      → (s.get db' script_hash k ≡ (
          if has_key k (keys_of (concat_rows (λ b. b.scripthash_rows) batches))
          then some []
          else s.get db script_hash k))
        × (s.get db' txid k ≡ (
            if has_key k (keys_of (concat_rows (λ b. b.txid_rows) batches))
            then some []
            else s.get db txid k))
  unfolding write
  get-write_lem db db' batches k h = apply_batch_keys put (some []) put-IsWriter db db' batches k h

  get-delete_lem :
      (db db' : s.Db) (batches : List Batch) (k : List ℕ)
      → delete_rows format v s db batches ≡ ok db'
      → (s.get db' script_hash k ≡ (
          if has_key k (keys_of (concat_rows (λ b. b.scripthash_rows) batches))
          then none
          else s.get db script_hash k))
        × (s.get db' txid k ≡ (
            if has_key k (keys_of (concat_rows (λ b. b.txid_rows) batches))
            then none
            else s.get db txid k))
  unfolding delete_rows
  get-delete_lem db db' batches k h =
      apply_batch_keys (λ c j w. delete c j) none delete-IsWriter db db' batches k h

  -- Deleting the batches that were just written gives back the two key-only tables, when none of
  -- their keys was there before.
  pub delete_rows-write :
      (db db' db'' : s.Db) (batches : List Batch) (k : List ℕ)
      → (has_key k (keys_of (concat_rows (λ b. b.scripthash_rows) batches)) ≡ true
          → s.get db script_hash k ≡ none)
      → (has_key k (keys_of (concat_rows (λ b. b.txid_rows) batches)) ≡ true
          → s.get db txid k ≡ none)
      → write format v s db batches ≡ ok db'
      → delete_rows format v s db' batches ≡ ok db''
      → (s.get db'' script_hash k ≡ s.get db script_hash k) × (s.get db'' txid k ≡ s.get db txid k)
  delete_rows-write db db' db'' batches k new_hash new_id w d =
      let (p, q) = get-write_lem db db' batches k w in
      let (p', q') = get-delete_lem db' db'' batches k d in
      (
        p' ∙ undone (has_key k (keys_of (concat_rows (λ b. b.scripthash_rows) batches))) p new_hash,
        q' ∙ undone (has_key k (keys_of (concat_rows (λ b. b.txid_rows) batches))) q new_id,
      )
    where
      undone :
          (b : Bool) {old now : Option (List ℕ)}
          → now ≡ (if b then some [] else old)
          → (b ≡ true → old ≡ none)
          → (if b then none else now) ≡ old
      undone true e h = sym (h refl)
      undone false e h = e

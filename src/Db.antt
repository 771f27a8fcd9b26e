-- ===== src/Db.antt =====
-- bindex-lib/src/db.rs: the tables of the index.
use bindex_rs.Common.{
  ℕ, ◌+◌, not, Option, none, some, List, [], ◌∷◌, ◌++◌, map, leb, ◌==◌, if◌then◌else◌,
}
use bindex_rs.Common.{length}
use bindex_rs.Common.{rocksdb, Outcome, ok, err, panic, ◌>>=◌, ◌>>◌, assert, ok_or}
use bindex_rs.Common.Bytes.{bytes_le, starts_with}
use bindex_rs.Fmt.{Format}
use bindex_rs.Index.TxNum
use bindex_rs.Index.TxNum.{TxNum}
use bindex_rs.Index.Row
use bindex_rs.Index.Row.{HashPrefixRow}
use bindex_rs.Index.Header
use bindex_rs.Index.Header.{IndexedHeader}
use bindex_rs.Index.TxPos
use bindex_rs.Index.TxPos.{TxBlockPos, TxBlockPosRow, VarInt}
use bindex_rs.Index.Batch.{Batch}
pub mod Store
pub mod Scan
pub mod Writes
use Store.{Cf, headers, script_hash, txpos, txid, Op, put, delete}

-- `keys.sort_unstable()`: one order of byte strings, so any sort gives this list.
unfoldable pub insert_key : List ℕ → List (List ℕ) → List (List ℕ)
insert_key k [] = k ∷ []
insert_key k (j ∷ js) = if bytes_le k j then k ∷ j ∷ js else j ∷ insert_key k js

unfoldable pub sort_keys : List (List ℕ) → List (List ℕ)
unfolding insert_key
sort_keys [] = []
sort_keys (k ∷ ks) = insert_key k (sort_keys ks)

abbrev pub keys_of : List HashPrefixRow → List (List ℕ)
keys_of = map (λ r. r.key)

abbrev pub concat_rows {ℓ} : {A : Type ℓ} → (Batch → List A) → List Batch → List A
concat_rows f [] = []
concat_rows f (b ∷ bs) = f b ++ concat_rows f bs

unfoldable pub serialize_rows : VarInt → List TxBlockPosRow → Outcome (List (List ℕ × List ℕ))
serialize_rows v [] = ok []
serialize_rows v (r ∷ rs) = do kv ← TxPos.serialize v r; kvs ← serialize_rows v rs; ok (kv ∷ kvs)

-- The operations of `apply_batch`, each made by `f` of a table, a key and a value.
unfoldable pub batch_ops :
    Format → VarInt → (Cf → List ℕ → List ℕ → Op) → List Batch → Outcome (List Op)
batch_ops format v f batches = do
  positions ← serialize_rows v (concat_rows (λ b. b.txpos_rows) batches)
  ok (
      map (λ k. f script_hash k [])
        (sort_keys (keys_of (concat_rows (λ b. b.scripthash_rows) batches)))
      ++ (map (λ k. f txid k []) (sort_keys (keys_of (concat_rows (λ b. b.txid_rows) batches)))
          ++ (map (λ kv. f txpos kv.0 kv.1) positions
              ++ map
                  (λ b.
                    f headers (Header.serialize format b.header b.raw_header).0
                      (Header.serialize format b.header b.raw_header).1)
                  batches)))

module _ (format : Format) (v : VarInt) (s : Store.Store) where
  unfoldable pub apply_batch : (Cf → List ℕ → List ℕ → Op) → s.Db → List Batch → Outcome s.Db
  apply_batch f db [] = ok db
  apply_batch f db (b ∷ bs) = do ops ← batch_ops format v f (b ∷ bs); ok_or (s.write db ops) rocksdb

  unfoldable pub write : s.Db → List Batch → Outcome s.Db
  unfolding apply_batch
  write = apply_batch put

  unfoldable pub delete_rows : s.Db → List Batch → Outcome s.Db
  unfolding apply_batch
  delete_rows = apply_batch (λ cf k value. delete cf k)

-- The loop of `scan_by_script_hash` and, with `from` 0, of `scan_by_txid` over the iterator's items.
unfoldable pub scan_loop : List ℕ → TxNum → List (Option (List ℕ × List ℕ)) → Outcome (List TxNum)
scan_loop prefix from [] = ok []
scan_loop prefix from (none ∷ items) = err rocksdb
scan_loop prefix from (some (key, value) ∷ items) =
    let rest = scan_loop prefix from items in
    if not (starts_with key prefix) then ok [] else do
      assert (length key == 12)
      n ← Row.txnum (record { key = key })
      assert (leb from n)
      ns ← rest
      ok (n ∷ ns)

module _ (s : Store.Store) (db : s.Db) where
  unfoldable pub scan_by_script_hash : List ℕ → TxNum → Outcome (List TxNum)
  scan_by_script_hash hash from = do
    prefix ← Row.new_prefix hash
    scan_loop prefix from (s.scan db script_hash (Row.new prefix from).key)

  unfoldable pub scan_by_txid : List ℕ → Outcome (List TxNum)
  scan_by_txid id = do
    prefix ← Row.new_prefix id
    scan_loop prefix 0 (s.scan db txid (Row.new prefix 0).key)

  unfoldable pub get_tx_block_pos : VarInt → TxNum → Outcome TxBlockPos
  get_tx_block_pos v txnum = elim (s.scan db txpos (TxNum.serialize txnum)) [
    | [] ↦ panic
    | item ∷ items ↦ do
      (key, value) ← ok_or item rocksdb
      assert (bytes_le (TxNum.serialize txnum) key)
      row ← TxPos.deserialize v key value
      TxPos.get_tx_block_pos row txnum
  ]

  unfoldable pub get_header_value : List ℕ → Outcome (Option (List ℕ))
  get_header_value key =
      if s.readable db headers key then ok (s.get db headers key) else err rocksdb

-- The rows of the iterator's items, the first of them at height `position`.
unfoldable pub rows_from :
    Format → ℕ → List (Option (List ℕ × List ℕ)) → Outcome (List IndexedHeader)
rows_from format position [] = ok []
rows_from format position (item ∷ items) = do
  (key, value) ← ok_or item rocksdb
  row ← Header.deserialize format key value position
  rows ← rows_from format (position + 1) items
  ok (row ∷ rows)

module _ (format : Format) (s : Store.Store) (db : s.Db) where
  unfoldable pub headers_from : List ℕ → ℕ → Outcome (List IndexedHeader)
  unfolding rows_from
  headers_from key first_height = rows_from format first_height (s.scan db headers key)

  -- All rows: every key is at or behind the empty one.
  unfoldable pub all_headers : Outcome (List IndexedHeader)
  unfolding rows_from
  all_headers = rows_from format 0 (s.scan db headers [])

-- ===== src/Tests/Db.antt =====
-- The tables at a concrete store.
use bindex_rs.Common.{
  ℕ, ◌≤◌, ◌≡◌, refl, sym, ◌∙◌, ◌↔◌, inl, inr, false, none, some, List, [], ◌∷◌, arith,
  if◌then◌else◌, Bool-cases,
}
use bindex_rs.Common.{take, replicate}
use bindex_rs.Common.{ok, err, panic}
use bindex_rs.Common.Bytes.{bytes_eq, bytes_eq_iff}
use bindex_rs.Fmt.{bitcoin}
use bindex_rs.Index.Row
use bindex_rs.Index.Row.{HashPrefixRow, prefix_len}
use bindex_rs.Index.Batch.{Batch}
use bindex_rs.Db.{
  concat_rows, keys_of, write, delete_rows, serialize_rows, scan_by_script_hash, batch_ops,
}
use bindex_rs.Db.Store.{put, Cf, value_after, cf_eq, script_hash, txid}
use bindex_rs.Db.Scan.{Contains, Sorted, IsRowTable, scan_by_script_hash_lem}
use bindex_rs.Db.Writes.{has_key, get-write_lem, delete_rows-write}
use bindex_rs.Tests.Data.{zeros, header_bytes, var_int}
use bindex_rs.Tests.Store.{log_store, log_store-IsOrdered}

abbrev five : HashPrefixRow
five = Row.new (replicate 8 1) 5

abbrev nine : HashPrefixRow
nine = Row.new (replicate 8 1) 9

two_rows : log_store.Db
unfolding log_store
two_rows = put script_hash five.key [] ∷ put script_hash nine.key [] ∷ []

two_rows-IsRowTable : IsRowTable (log_store.get two_rows script_hash)
unfolding log_store two_rows value_after cf_eq
two_rows-IsRowTable = record {
  row_at = λ k v e. elim (Bool-cases (bytes_eq nine.key k)) [
    | inl t ↦ (replicate 8 1, 9, sym ((bytes_eq_iff nine.key k).0 t), refl, omega arith)
    | inr t ↦ elim (Bool-cases (bytes_eq five.key k)) [
      | inl u ↦ (replicate 8 1, 5, sym ((bytes_eq_iff five.key k).0 u), refl, omega arith)
      | inr u ↦ absurd (no_row k v t u e)
    ]
  ];
}
  where
    no_row :
        (k v : List ℕ)
        → bytes_eq nine.key k ≡ false
        → bytes_eq five.key k ≡ false
        → log_store.get two_rows script_hash k ≡ some v
        → ⊥
    no_row k v t u e =
        let none_left : none ≡ some v = sym (rw (u, value_after, cf_eq) (rw t)) ∙ e in cc

scan_by_script_hash_lem_example :
    (ns : List ℕ) × (scan_by_script_hash log_store two_rows (replicate 32 1) 6 ≡ ok ns)
    × Sorted 6 ns
    × (Contains 9 ns ↔ (
        (6 ≤ 9)
        × ((v : List ℕ) × (log_store.get two_rows script_hash
                (Row.new (take prefix_len (replicate 32 1)) 9).key
              ≡ some v))))
scan_by_script_hash_lem_example =
    scan_by_script_hash_lem log_store two_rows (replicate 32 1) 6 9 log_store-IsOrdered
      two_rows-IsRowTable refl (omega arith) (omega arith)

-- A batch of one transaction with a script row, an id row and no position rows.
abbrev one_batch : List Batch
one_batch =
    record {
      scripthash_rows = five ∷ [];
      txid_rows = nine ∷ [];
      txpos_rows = [];
      header = record {
        height = 0;
        next_txnum = 1;
        hash = replicate 32 3;
        prev_blockhash = zeros 32;
      };
      raw_header = header_bytes (zeros 32);
    }
    ∷ []

empty : log_store.Db
unfolding log_store
empty = []

written : log_store.Db
unfolding empty log_store write batch_ops
written = elim (write bitcoin var_int log_store empty one_batch) [
  | ok db ↦ db
  | err e ↦ empty
  | panic ↦ empty
]

deleted : log_store.Db
unfolding empty log_store delete_rows batch_ops
deleted = elim (delete_rows bitcoin var_int log_store written one_batch) [
  | ok db ↦ db
  | err e ↦ empty
  | panic ↦ empty
]

write_ok : write bitcoin var_int log_store empty one_batch ≡ ok written
unfolding written write batch_ops log_store serialize_rows
write_ok = refl

delete_ok : delete_rows bitcoin var_int log_store written one_batch ≡ ok deleted
unfolding deleted delete_rows batch_ops log_store serialize_rows
delete_ok = refl

get-write_lem_example :
    (log_store.get written script_hash five.key ≡ (
      if has_key five.key (keys_of (concat_rows (λ b. b.scripthash_rows) one_batch))
      then some []
      else log_store.get empty script_hash five.key))
    × (log_store.get written txid five.key ≡ (
        if has_key five.key (keys_of (concat_rows (λ b. b.txid_rows) one_batch))
        then some []
        else log_store.get empty txid five.key))
get-write_lem_example =
    get-write_lem bitcoin var_int log_store log_store-IsOrdered empty written one_batch five.key
      write_ok

nothing_there : (cf : Cf) → log_store.get empty cf five.key ≡ none
unfolding log_store empty value_after
nothing_there cf = refl

delete_rows-write_example :
    (log_store.get deleted script_hash five.key ≡ log_store.get empty script_hash five.key)
    × (log_store.get deleted txid five.key ≡ log_store.get empty txid five.key)
delete_rows-write_example =
    delete_rows-write bitcoin var_int log_store log_store-IsOrdered empty written deleted one_batch
      five.key (λ h. nothing_there script_hash) (λ h. nothing_there txid) write_ok delete_ok

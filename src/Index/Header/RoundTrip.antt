-- ===== src/Index/Header/RoundTrip.antt =====
-- A stored header row reads back as the header that was stored.
use bindex_rs.Common.{
  ℕ, ◌^◌, ◌≡◌, refl, List, [], ◌++◌, append_assoc, append-nil, arith, lt→ltb, ==_refl,
}
use bindex_rs.Common.{
  length, length-append, slice, slice_to-append, slice_from-append, slice-append,
}
use bindex_rs.Common.{ok}
use bindex_rs.Common.Bytes.{IsU32, u32_to_be_bytes, from-to_be_bytes}
use bindex_rs.Fmt.{Format, bitcoin, liquid, prev_blockhash}
use bindex_rs.Index.TxNum
use bindex_rs.Index.TxNum.{TxNum, deserialize-serialize}
use bindex_rs.Index.Header.{IndexedHeader, hash_len, key, serialize, deserialize}

-- A header whose numbers are `u32`, whose hashes have 32 bytes, and that belongs to `raw`.
pub record IsStorable (h : IndexedHeader) (raw : List ℕ) : Type 0 where
  pub height_fits : IsU32 h.height
  pub txnum_fits : IsU32 h.next_txnum
  pub hash_size : length h.hash ≡ hash_len
  pub prev_size : length h.prev_blockhash ≡ hash_len
  pub prev_of_raw : prev_blockhash raw ≡ ok h.prev_blockhash

serialize_next : (n : TxNum) → length (TxNum.serialize n) ≡ 4
unfolding TxNum.serialize u32_to_be_bytes
serialize_next n = refl

-- The parts of a Liquid row's value.
module _ (n a b : List ℕ) (hn : length n ≡ 4) (ha : length a ≡ 32) (hb : length b ≡ 32) where
  slice_first : slice 4 36 (n ++ (a ++ b)) ≡ ok a
  slice_first = slice-append 4 36 n a b hn (omega arith)

  slice_second : slice 36 68 (n ++ (a ++ b)) ≡ ok b
  slice_second =
      let e : n ++ (a ++ b) ≡ (n ++ a) ++ (b ++ []) = rw (append-nil, append_assoc) in
      rw e (slice-append 36 68 (n ++ a) b [] (omega (arith, length-append n a)) (omega arith))

-- In either format, the row that a storable header is written to reads back as that header when
-- it is the row at the header's height.
pub deserialize-serialize_header :
    (format : Format) (h : IndexedHeader) (raw : List ℕ)
    → IsStorable h raw
    → deserialize format (serialize format h raw).0 (serialize format h raw).1 h.height ≡ ok h
unfolding deserialize serialize key
deserialize-serialize_header bitcoin h raw s =
    rw (deserialize-serialize h.next_txnum s.txnum_fits) (
      rw (slice_to-append hash_len h.hash raw s.hash_size) (
        rw (slice_from-append hash_len h.hash raw s.hash_size)
          (rw (s.prev_of_raw) (rw (lt→ltb h.height (2 ^ 32) s.height_fits)))))
deserialize-serialize_header liquid h raw s =
    let n = TxNum.serialize h.next_txnum in
    let size = serialize_next h.next_txnum in
    rw (from-to_be_bytes h.height s.height_fits) (
      rw (==_refl h.height) (
        rw (slice_to-append 4 n (h.hash ++ h.prev_blockhash) size) (
          rw (deserialize-serialize h.next_txnum s.txnum_fits) (
            rw (slice_first n h.hash h.prev_blockhash size s.hash_size s.prev_size)
              (rw (slice_second n h.hash h.prev_blockhash size s.hash_size s.prev_size))))))

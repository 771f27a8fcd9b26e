-- ===== src/Index/TxPos.antt =====
-- bindex-lib/src/index/txpos.rs: where the transactions of a block lie, in rows of up to 64.
use bindex_rs.Common.{
  ℕ, zero, suc, ◌+◌, ◌-◌, ◌^◌, min, Option, none, some, List, [], ◌∷◌, ◌++◌, map, ltb, leb, ◌==◌,
  if◌then◌else◌,
}
use bindex_rs.Common.{length, get_elem?, take, drop, get_last?, head?}
use bindex_rs.Common.{decode, Outcome, ok, err, panic, ◌>>=◌, ◌>>◌, assert, expect, ok_or}
use bindex_rs.Common.Words.{add32, sub32}
use bindex_rs.Index.TxNum
use bindex_rs.Index.TxNum.{TxNum}
pub mod Codec
pub mod Lookup

pub record TxBlockPos : Type 0 where
  pub offset : ℕ
  pub size : ℕ

-- `Offsets`: the offsets of N transactions, and the end of the last.
abbrev pub Offsets : Type 0
Offsets = List ℕ

-- `bitcoin::VarInt`: what it writes, and what it reads from the front of its input.
pub record VarInt : Type 0 where
  pub encode : ℕ → List ℕ
  pub decode : List ℕ → Option (ℕ × List ℕ)

unfoldable pub get_in_offsets : Offsets → ℕ → Outcome TxBlockPos
unfolding sub32
get_in_offsets self i = do
  begin ← expect (get_elem? self i)
  end ← expect (get_elem? self (i + 1))
  ok (record { offset = begin; size = sub32 end begin })

-- `self.0.windows(2).map(|pair| pair[1] - pair[0])`
unfoldable pub sizes : Offsets → List ℕ
unfolding sub32
sizes [] = []
sizes (a ∷ []) = []
sizes (a ∷ b ∷ r) = sub32 b a ∷ sizes (b ∷ r)

-- `iter.min()`
unfoldable pub minimum : List ℕ → Option ℕ
minimum [] = none
minimum (x ∷ xs) = elim (minimum xs) [ none ↦ some x | some m ↦ some (min x m) ]

-- `try_into::<u32>().expect(..)`
unfoldable pub to_u32 : ℕ → Outcome ℕ
to_u32 n = if ltb n (2 ^ 32) then ok n else panic

module _ (var_int : VarInt) where
  unfoldable pub encode_deltas : ℕ → List ℕ → List ℕ
  unfolding sub32
  encode_deltas least [] = []
  encode_deltas least (s ∷ ss) = var_int.encode (sub32 s least) ++ encode_deltas least ss

  -- `Offsets::consensus_encode`, the bytes that it writes.
  unfoldable pub encode : Offsets → Outcome (List ℕ)
  unfolding sizes minimum encode_deltas
  encode self = do
    start ← expect (head? self)
    assert (ltb (length self - 1) 256)
    least ← expect (minimum (sizes self))
    ok (
        (length self - 1)
        ∷ (var_int.encode least ++ (var_int.encode start ++ encode_deltas least (sizes self))))

  -- A `VarInt` that must be a `u32`.
  unfoldable pub decode_u32 : List ℕ → Outcome (ℕ × List ℕ)
  unfolding to_u32
  decode_u32 r = do (n, rest) ← ok_or (var_int.decode r) decode; m ← to_u32 n; ok (m, rest)

  -- The loop of `consensus_decode_from_finite_reader`, after `offset` was pushed.
  unfoldable pub decode_deltas : ℕ → ℕ → ℕ → List ℕ → Outcome (Offsets × List ℕ)
  unfolding decode_u32 add32
  decode_deltas zero least offset r = ok ([], r)
  decode_deltas (suc n) least offset r = do
    (delta, rest) ← decode_u32 r
    let next = add32 offset (add32 least delta)
    (others, rest') ← decode_deltas n least next rest
    ok (next ∷ others, rest')

  -- What was read, and what is left of the input.
  unfoldable pub decode_offsets : List ℕ → Outcome (Offsets × List ℕ)
  unfolding decode_deltas
  decode_offsets [] = err decode
  decode_offsets (sizes_count ∷ r) = do
    (least, r') ← decode_u32 r
    (start, r'') ← decode_u32 r'
    (others, rest) ← decode_deltas sizes_count least start r''
    ok (start ∷ others, rest)

pub record TxBlockPosRow : Type 0 where
  pub last_txnum : TxNum
  pub offsets : Offsets

-- `CHUNK_SIZE`
abbrev pub chunk_size : ℕ
chunk_size = 64

-- The assertions at the head of `chunkify`, over `windows(2)`.
unfoldable pub check_positions : List (TxNum × TxBlockPos) → Outcome (Unit {0})
unfolding add32 TxNum.offset_from
check_positions [] = ok tt
check_positions (p ∷ []) = ok tt
check_positions ((prev_num, prev_pos) ∷ (next_num, next_pos) ∷ r) = do
  step ← expect (TxNum.offset_from next_num prev_num)
  assert (step == 1)
  assert (add32 prev_pos.offset prev_pos.size == next_pos.offset)
  check_positions ((next_num, next_pos) ∷ r)

-- The row of one chunk.
unfoldable pub chunk_row : List (TxNum × TxBlockPos) → Outcome TxBlockPosRow
unfolding add32
chunk_row chunk = do
  (last_txnum, last_txpos) ← expect (get_last? chunk)
  ok (record {
    last_txnum = last_txnum;
    offsets = map (λ p. p.1.offset) chunk ++ add32 last_txpos.offset last_txpos.size ∷ [];
  })

-- `positions.chunks(CHUNK_SIZE).map(..).collect()`; each chunk takes an entry at least, so as many
-- rounds as there are entries are enough.
unfoldable pub chunk_rows : ℕ → List (TxNum × TxBlockPos) → Outcome (List TxBlockPosRow)
unfolding chunk_row
chunk_rows fuel [] = ok []
chunk_rows zero (p ∷ ps) = panic
chunk_rows (suc fuel) (p ∷ ps) = do
  row ← chunk_row (take chunk_size (p ∷ ps))
  rows ← chunk_rows fuel (drop chunk_size (p ∷ ps))
  ok (row ∷ rows)

unfoldable pub chunkify : List (TxNum × TxBlockPos) → Outcome (List TxBlockPosRow)
unfolding check_positions chunk_rows
chunkify positions = do check_positions positions; chunk_rows (length positions) positions

-- `a.checked_sub(b)`
unfoldable pub checked_sub : ℕ → ℕ → Option ℕ
checked_sub a b = if leb b a then some (a - b) else none

unfoldable pub get_tx_block_pos : TxBlockPosRow → TxNum → Outcome TxBlockPos
unfolding checked_sub get_in_offsets TxNum.offset_from
get_tx_block_pos self txnum = do
  last_index ← expect (checked_sub (length self.offsets) 1)
  delta_from_last ← expect (TxNum.offset_from self.last_txnum txnum)
  i ← expect (checked_sub last_index (delta_from_last + 1))
  get_in_offsets self.offsets i

-- Key and value of a row.
unfoldable pub serialize : VarInt → TxBlockPosRow → Outcome (List ℕ × List ℕ)
serialize var_int self = do
  value ← encode var_int self.offsets
  ok (TxNum.serialize self.last_txnum, value)

-- What follows the offsets in `value` is not looked at.
unfoldable pub deserialize : VarInt → List ℕ → List ℕ → Outcome TxBlockPosRow
deserialize var_int key value = do
  last_txnum ← TxNum.deserialize key
  (offsets, _) ← elim (decode_offsets var_int value) [ ok p ↦ ok p | err e ↦ panic | panic ↦ panic ]
  ok (record { last_txnum = last_txnum; offsets = offsets })

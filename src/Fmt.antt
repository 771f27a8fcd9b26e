-- ===== src/Fmt.antt =====
-- bindex-lib/src/fmt.rs: the boundary to the serialized forms of headers and transactions.
use bindex_rs.Common.{
  ℕ, zero, suc, ◌+◌, ◌%◌, ◌^◌, ◌≡◌, Option, none, some, List, [], ◌∷◌, map, arith, leb, ◌==◌,
  if◌then◌else◌,
}
use bindex_rs.Common.{length, take, drop, length-take, length-drop, slice_from}
use bindex_rs.Common.{decode, malformed, Outcome, ok, err, panic, ◌>>=◌, ◌>>◌, ok_or}
use mathlib.Core.Option
pub mod Split
pub mod Walk

-- The cargo feature that a build is made with.
pub data Format : Type 0 where
  bitcoin liquid : Format

-- One transaction at the front of some bytes: what the decoder of `rust-bitcoin` or
-- `rust-elements` reports of it.
pub record DecodedTx : Type 0 where
  pub txid : List ℕ
  pub scripts : List (List ℕ)
  pub used : ℕ

-- The decoders of the two crates: the size of the Elements header at the front, the hash of a whole
-- raw header, a `VarInt` and its size, and a transaction.
pub record Consensus : Type 0 where
  pub header_size : List ℕ → Option ℕ
  pub header_hash : List ℕ → Option (List ℕ)
  pub var_int : List ℕ → Option (ℕ × ℕ)
  pub transaction : List ℕ → Option DecodedTx

-- `prev_blockhash`: bytes 4..36 of a raw header.
unfoldable pub prev_blockhash : List ℕ → Outcome (List ℕ)
prev_blockhash raw_header =
    if leb 36 (length raw_header) then ok (take 32 (drop 4 raw_header)) else err malformed

-- `RawHeader`
pub record RawHeader : Type 0 where
  pub hash : List ℕ
  pub prev_blockhash : List ℕ
  pub raw : List ℕ

-- `TxSummary`
pub record TxSummary : Type 0 where
  pub txid : List ℕ
  pub offset : ℕ
  pub size : ℕ
  pub scripts : List (List ℕ)

-- An entry before those of the later rounds, if these return.
abbrev push : RawHeader → Outcome (List RawHeader) → Outcome (List RawHeader)
push h r = do hs ← r; ok (h ∷ hs)

-- The entry that `split_headers` pushes for one raw header.
unfoldable pub header_of : Consensus → List ℕ → Outcome RawHeader
unfolding prev_blockhash
header_of c raw = do
  hash ← ok_or (c.header_hash raw) decode
  prev ← prev_blockhash raw
  ok (record { hash = hash; prev_blockhash = prev; raw = raw })

unfoldable pub header_len : Format → Consensus → List ℕ → Outcome ℕ
header_len bitcoin c block = ok 80
header_len liquid c block = ok_or (c.header_size block) decode

module _ (format : Format) (c : Consensus) where
  -- The header at the front of `data[pos..]`, and its length.
  unfoldable pub cut : List ℕ → Outcome (RawHeader × ℕ)
  unfolding header_len header_of
  cut bytes = do
    len ← header_len format c bytes
    raw ← if leb len (length bytes) then ok (take len bytes) else err malformed
    h ← header_of c raw
    ok (h, len)

  -- The loop of `split_headers` on `data[pos..]`; `none` is no result of the source: the fuel ran
  -- out.
  unfoldable pub split_loop : ℕ → List ℕ → Option (Outcome (List RawHeader))
  split_loop fuel [] = some (ok [])
  split_loop zero (b ∷ bs) = none
  split_loop (suc fuel) (b ∷ bs) = elim (cut (b ∷ bs)) [
    | ok p ↦ Option.map (push p.0) (split_loop fuel (drop p.1 (b ∷ bs)))
    | err e ↦ some (err e)
    | panic ↦ some panic
  ]

  -- A round takes a byte at least, so as many rounds as there are bytes are enough.
  unfoldable pub split_headers : List ℕ → Option (Outcome (List RawHeader))
  unfolding split_loop cut
  split_headers bytes = split_loop (length bytes) bytes

-- The loop of `walk_block`, for `count` more transactions from `pos` on, with the final `pos`.
unfoldable pub walk_loop : Consensus → ℕ → ℕ → List ℕ → Outcome (List TxSummary × ℕ)
walk_loop c zero pos block = ok ([], pos)
walk_loop c (suc count) pos block = do
  tail ← slice_from pos block
  tx ← ok_or (c.transaction tail) decode
  (txs, end) ← walk_loop c count (pos + tx.used) block
  ok (
    record { txid = tx.txid; offset = pos % 2 ^ 32; size = tx.used % 2 ^ 32; scripts = tx.scripts }
        ∷ txs,
    end,
  )

unfoldable pub walk_block : Format → Consensus → List ℕ → Outcome (ℕ × List TxSummary)
unfolding walk_loop header_len
walk_block format c block = do
  len ← header_len format c block
  tail ← slice_from len block
  (count, used) ← ok_or (c.var_int tail) decode
  (txs, end) ← walk_loop c count (len + used) block
  if end == length block then ok (len, txs) else err malformed

pub length-prev_blockhash : (raw hash : List ℕ) → prev_blockhash raw ≡ ok hash → length hash ≡ 32
unfolding prev_blockhash
length-prev_blockhash raw hash h = ground (arith, length-take 32 (drop 4 raw), length-drop 4 raw)

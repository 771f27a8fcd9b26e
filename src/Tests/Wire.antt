-- ===== src/Tests/Wire.antt =====
-- `Fmt` and the rows of `Index` at concrete bytes.
use bindex_rs.Common.{ℕ, ◌≡◌, refl, ◌≢◌, none, some, List, [], ◌∷◌, ◌++◌, arith, some_inj}
use bindex_rs.Common.{replicate, slice_from}
use bindex_rs.Common.{ok}
use bindex_rs.Fmt.{bitcoin, liquid, RawHeader, TxSummary, split_headers, walk_block, prev_blockhash}
use bindex_rs.Fmt.Split.{
  IsAdvancing, raw_bytes, Cut, split_headers-ne-none, split_headers-raw_bytes,
}
use bindex_rs.Fmt.Walk.{Walked, walk_block_tiles}
use bindex_rs.Index.Header.{IndexedHeader, serialize, deserialize}
use bindex_rs.Index.Header.RoundTrip.{IsStorable, deserialize-serialize_header}
use bindex_rs.Index.TxPos.{Offsets, encode, decode_offsets}
use bindex_rs.Index.TxPos.Codec.{IsEncodable, decode-encode_offsets}
use bindex_rs.Tests.Data.{zeros, header_bytes, consensus, two_txs, var_int, var_int-IsLossless}

consensus-IsAdvancing : IsAdvancing consensus
unfolding consensus
consensus-IsAdvancing = record { not_empty = λ block n e. omega (arith, some_inj e) }

split_headers-ne-none_example : split_headers liquid consensus (zeros 40) ≢ none
split_headers-ne-none_example =
    split_headers-ne-none liquid consensus consensus-IsAdvancing (zeros 40)

-- One Elements header of 36 bytes.
abbrev one_header : List RawHeader
one_header = record { hash = zeros 32; prev_blockhash = zeros 32; raw = zeros 36 } ∷ []

split_one : split_headers liquid consensus (zeros 36) ≡ some (ok one_header)
unfolding split_headers consensus
split_one = refl

split_headers-raw_bytes_example :
    (raw_bytes one_header ≡ zeros 36) × Cut liquid consensus one_header
split_headers-raw_bytes_example =
    split_headers-raw_bytes liquid consensus (zeros 36) one_header split_one

abbrev summaries : List TxSummary
summaries =
    record { txid = replicate 32 81; offset = 81; size = 3; scripts = (81 ∷ []) ∷ [] }
    ∷ record { txid = replicate 32 82; offset = 84; size = 2; scripts = (82 ∷ []) ∷ [] }
    ∷ []

abbrev block : List ℕ
block = header_bytes (zeros 32) ++ two_txs

walk_two : walk_block bitcoin consensus block ≡ ok (80, summaries)
unfolding walk_block consensus slice_from
walk_two = refl

walk_block_tiles_example : Walked bitcoin consensus block 80 summaries
walk_block_tiles_example =
    walk_block_tiles bitcoin consensus block (omega arith) 80 summaries walk_two

abbrev stored : IndexedHeader
stored = record {
  height = 3;
  next_txnum = 70000;
  hash = replicate 32 7;
  prev_blockhash = replicate 32 6;
}

stored-IsStorable : IsStorable stored (header_bytes (replicate 32 6))
unfolding prev_blockhash
stored-IsStorable = record {
  height_fits = omega arith;
  txnum_fits = omega arith;
  hash_size = refl;
  prev_size = refl;
  prev_of_raw = refl;
}

deserialize-serialize_header_example :
    deserialize liquid
      (serialize liquid stored (header_bytes (replicate 32 6))).0
      (serialize liquid stored (header_bytes (replicate 32 6))).1
      3
    ≡ ok stored
deserialize-serialize_header_example =
    deserialize-serialize_header liquid stored (header_bytes (replicate 32 6)) stored-IsStorable

abbrev offsets : Offsets
offsets = 81 ∷ 84 ∷ 400 ∷ []

offsets-IsEncodable : IsEncodable offsets
offsets-IsEncodable = record {
  rising = (omega arith, omega arith, (omega arith, omega arith, (omega arith, omega arith, tt)));
  some_tx = omega arith;
  few = omega arith;
}

decode-encode_offsets_example :
    (bytes : List ℕ) × (encode var_int offsets ≡ ok bytes)
    × (decode_offsets var_int (bytes ++ 9 ∷ []) ≡ ok (offsets, 9 ∷ []))
decode-encode_offsets_example =
    decode-encode_offsets var_int var_int-IsLossless offsets (9 ∷ []) offsets-IsEncodable

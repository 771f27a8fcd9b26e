-- ===== src/Tests/Data.antt =====
-- Concrete functions in the place of the crates the program calls, and small blocks.
use bindex_rs.Common.{
  ℕ, ◌+◌, ◌*◌, ◌/◌, ◌%◌, ◌^◌, ◌<◌, ◌≡◌, ap, inl, inr, Bool, false, Option, none, some, List, [],
  ◌∷◌, ◌++◌, arith, ltb, ◌==◌, if◌then◌else◌, Bool-cases,
}
use bindex_rs.Common.{length, take, drop, replicate, length-append, length-take}
use bindex_rs.Common.Bytes.{bytes_eq, u32_to_be_bytes, u32_from_be_bytes}
use bindex_rs.Fmt.{Consensus, DecodedTx}
use bindex_rs.Index.Visit.{Parser, IsHashing, TxTrace, block_events}
use bindex_rs.Index.TxPos.{VarInt}
use bindex_rs.Index.TxPos.Codec.{IsLossless}

-- One byte below 253, else 255 and eight bytes, the higher half first.
unfoldable pub write : ℕ → List ℕ
write n =
    if ltb n 253
    then n ∷ []
    else 255 ∷ (u32_to_be_bytes (n / 2 ^ 32) ++ u32_to_be_bytes (n % 2 ^ 32))

eight_bytes : List ℕ → Option ℕ
eight_bytes bytes = elim (u32_from_be_bytes (take 4 bytes)) [
  | none ↦ none
  | some high ↦ elim (u32_from_be_bytes (drop 4 bytes)) [
    | none ↦ none
    | some low ↦ some (high * 2 ^ 32 + low)
  ]
]

unfoldable pub read : List ℕ → Option (ℕ × List ℕ)
unfolding eight_bytes
read [] = none
read (b ∷ rest) =
    if ltb b 253
    then some (b, rest)
    else (elim (eight_bytes (take 8 rest)) [ none ↦ none | some n ↦ some (n, drop 8 rest) ])

abbrev pub var_int : VarInt
var_int = record { encode = write; decode = read }

pub var_int-IsLossless : IsLossless var_int
unfolding write read eight_bytes u32_to_be_bytes u32_from_be_bytes
var_int-IsLossless = record { decode-encode = round_trip }
  where
    round_trip : (n : ℕ) (rest : List ℕ) → n < 2 ^ 64 → read (write n ++ rest) ≡ some (n, rest)
    round_trip n rest h = elim (Bool-cases (ltb n 253)) [
      | inl t ↦ rw t (rw t)
      | inr t ↦ rw t (ap (λ m. some (m, rest)) (omega arith))
    ]

abbrev pub zeros : ℕ → List ℕ
zeros n = replicate n 0

-- The header of a block whose parent has the hash `prev`.
abbrev pub header_bytes : List ℕ → List ℕ
header_bytes prev = zeros 4 ++ (prev ++ zeros 44)

-- A transaction here is its size and so many bytes less one; its id is 32 times its second byte.
first_size : List ℕ → Option DecodedTx
first_size (n ∷ b ∷ rest) =
    some (record { txid = replicate 32 b; scripts = (b ∷ []) ∷ []; used = n })
first_size _ = none

first_byte : List ℕ → Option (ℕ × ℕ)
first_byte [] = none
first_byte (n ∷ rest) = some (n, 1)

unfoldable pub consensus : Consensus
unfolding first_size first_byte
consensus = record {
  header_size = λ bytes. some 36;
  header_hash = λ raw. some (take 32 raw);
  var_int = first_byte;
  transaction = first_size;
}

abbrev pub two_traces : List TxTrace
two_traces =
    record { scripts = (81 ∷ []) ∷ []; raw = 3 ∷ 81 ∷ 0 ∷ []; txid = replicate 32 81 }
    ∷ record { scripts = (82 ∷ []) ∷ (106 ∷ []) ∷ []; raw = 2 ∷ 82 ∷ []; txid = replicate 32 82 }
    ∷ []

-- Two transactions behind a header.
abbrev pub two_txs : List ℕ
two_txs = 2 ∷ 3 ∷ 81 ∷ 0 ∷ 2 ∷ 82 ∷ []

-- The first transaction spends nothing, the second an output with a script of two bytes.
abbrev pub two_spent : List ℕ
two_spent = 2 ∷ 0 ∷ 1 ∷ 2 ∷ 83 ∷ 84 ∷ []

first_script : List ℕ → Option (List ℕ × ℕ)
first_script [] = none
first_script (n ∷ rest) = some (take n rest, n + 1)

starts_with_return : List ℕ → Bool
starts_with_return [] = false
starts_with_return (b ∷ rest) = b == 106

-- Blocks whose length is that of a header and `two_txs` show `two_traces`.
unfoldable pub parser : Parser
unfolding first_byte first_script starts_with_return bytes_eq
parser = record {
  visit_block = λ bytes.
      if bytes_eq (drop 80 bytes) two_txs then (block_events two_traces, some []) else ([], none);
  scan_len = first_byte;
  tx_out_script = first_script;
  is_op_return = starts_with_return;
  sha256 = λ script. take 32 (script ++ zeros 32);
  var_int_size = λ n. 1;
}

pub parser-IsHashing : IsHashing parser
unfolding parser
parser-IsHashing = record { sha256_size = λ script. sized script }
  where
    sized : (script : List ℕ) → length (take 32 (script ++ zeros 32)) ≡ 32
    sized script =
        omega (arith, length-take 32 (script ++ zeros 32), length-append script (zeros 32))

-- ===== src/Index/TxPos/Codec.antt =====
-- Offsets read back as they were written.
use bindex_rs.Common.{
  ℕ, ◌-◌, ◌^◌, ◌≤◌, ◌<◌, min, ◌≡◌, refl, some, List, [], ◌∷◌, ◌++◌, append_assoc, arith, lt→ltb,
}
use bindex_rs.Common.{length, All}
use bindex_rs.Common.{ok}
use bindex_rs.Common.Bytes.{IsU32}
use bindex_rs.Common.Words.{add32, sub32, sub32_fits}
use bindex_rs.Index.TxPos.{
  Offsets, VarInt, sizes, minimum, to_u32, encode_deltas, encode, decode_u32, decode_deltas,
  decode_offsets,
}

-- What the codec relies on: `VarInt` reads back every 64-bit number and leaves what follows.
pub record IsLossless (v : VarInt) : Type 0 where
  pub decode-encode :
      (n : ℕ) (rest : List ℕ) → n < 2 ^ 64 → v.decode (v.encode n ++ rest) ≡ some (n, rest)

-- 32-bit offsets that do not descend, from `base` on.
abbrev pub Rising : ℕ → Offsets → Type 0
Rising base [] = Unit
Rising base (o ∷ os) = (base ≤ o) × IsU32 o × Rising o os

-- Between 1 and 255 transactions, at rising offsets.
pub record IsEncodable (offsets : Offsets) : Type 0 where
  pub rising : Rising 0 offsets
  pub some_tx : 2 ≤ length offsets
  pub few : length offsets ≤ 256

All-ge_mono : (k m : ℕ) (zs : List ℕ) → k ≤ m → All (λ z. m ≤ z) zs → All (λ z. k ≤ z) zs
All-ge_mono k m [] h a = tt
All-ge_mono k m (z ∷ zs) h a = (omega (arith, a.0), All-ge_mono k m zs h a.1)

minimum-some :
    (x : ℕ) (xs : List ℕ) → (m : ℕ) × (minimum (x ∷ xs) ≡ some m) × All (λ y. m ≤ y) (x ∷ xs)
unfolding minimum
minimum-some x [] = (x, refl, omega arith)
minimum-some x (y ∷ ys) =
    let (m, e, all) = minimum-some y ys in
    (min x m, rw e, (omega arith, All-ge_mono (min x m) m (y ∷ ys) (omega arith) all))

minimum-IsU32 : (xs : List ℕ) (m : ℕ) → All IsU32 xs → minimum xs ≡ some m → IsU32 m
unfolding minimum
minimum-IsU32 [] m h e = cc
minimum-IsU32 (x ∷ []) m h e = ground arith
minimum-IsU32 (x ∷ y ∷ ys) m h e =
    let (k, ek, _) = minimum-some y ys in
    let same : some (min x k) ≡ some m = rw ek at e in ground (arith, same, h.0)

sizes-IsU32 : (offsets : Offsets) → All IsU32 (sizes offsets)
unfolding sizes sub32
sizes-IsU32 [] = tt
sizes-IsU32 (a ∷ []) = tt
sizes-IsU32 (a ∷ b ∷ r) = (omega arith, sizes-IsU32 (b ∷ r))

next_offset :
    (a b least : ℕ)
    → IsU32 a
    → a ≤ b
    → IsU32 b
    → least ≤ b - a
    → add32 a (add32 least (sub32 (sub32 b a) least)) ≡ b
unfolding add32 sub32
next_offset a b least ha le hb small = omega arith

module _ (v : VarInt) (lossless : IsLossless v) where
  decode_u32-encode :
      (n : ℕ) (rest : List ℕ) → IsU32 n → decode_u32 v (v.encode n ++ rest) ≡ ok (n, rest)
  unfolding decode_u32 to_u32
  decode_u32-encode n rest h =
      rw (lossless.decode-encode n rest (omega arith)) (rw (lt→ltb n (2 ^ 32) h))

  decode_deltas-encode :
      (least a : ℕ) (os : Offsets) (tail : List ℕ)
      → IsU32 a
      → Rising a os
      → All (λ s. least ≤ s) (sizes (a ∷ os))
      → decode_deltas v (length os) least a (encode_deltas v least (sizes (a ∷ os)) ++ tail)
        ≡ ok (os, tail)
  unfolding decode_deltas encode_deltas sizes
  decode_deltas-encode least a [] tail ha h all = refl
  decode_deltas-encode least a (b ∷ os) tail ha h all =
      let delta = sub32 (sub32 b a) least in
      let size : sub32 b a ≡ b - a = sub32_fits b a h.1 h.0 in
      let more : delta ≡ b - a - least =
        rw size (sub32_fits (b - a) least (omega arith) (rw size at all.0)) in
      let next : add32 a (add32 least delta) ≡ b =
        next_offset a b least ha h.0 h.1 (rw size at all.0) in
      rw append_assoc (
        rw (decode_u32-encode delta (encode_deltas v least (sizes (b ∷ os)) ++ tail) (omega arith))
          (rw next (rw (decode_deltas-encode least b os tail h.1 h.2 all.1))))

  -- `consensus_encode` succeeds on 1 to 255 transactions at rising 32-bit offsets, and what it
  -- writes reads back as those offsets, with what follows left over.
  pub decode-encode_offsets :
      (offsets : Offsets) (tail : List ℕ)
      → IsEncodable offsets
      → (bytes : List ℕ) × (encode v offsets ≡ ok bytes)
        × (decode_offsets v (bytes ++ tail) ≡ ok (offsets, tail))
  unfolding encode decode_offsets
  decode-encode_offsets [] tail h = absurd (omega (arith, h.some_tx))
  decode-encode_offsets (a ∷ []) tail h = absurd (omega (arith, h.some_tx))
  decode-encode_offsets (a ∷ b ∷ os) tail h =
      let (least, e, all) = minimum-some (sub32 b a) (sizes (b ∷ os)) in
      let deltas = encode_deltas v least (sizes (a ∷ b ∷ os)) in
      let fits : IsU32 least =
        minimum-IsU32 (sizes (a ∷ b ∷ os)) least (sizes-IsU32 (a ∷ b ∷ os)) e in
      let some_tx = h.some_tx in
      let few = h.few in
      let count : length (a ∷ b ∷ os) - 1 ≡ length (b ∷ os) = omega arith in
      (
        (length (a ∷ b ∷ os) - 1) ∷ (v.encode least ++ (v.encode a ++ deltas)),
        rw (lt→ltb (length (a ∷ b ∷ os) - 1) 256 (omega arith)) (unfold sizes in rw e),
        rw (append_assoc, append_assoc)
            (rw (decode_u32-encode least (v.encode a ++ (deltas ++ tail)) fits) (
              rw (decode_u32-encode a (deltas ++ tail) h.rising.1) (
                rw count
                  (rw (decode_deltas-encode least a (b ∷ os) tail h.rising.1 h.rising.2 all))))),
      )

-- ===== src/Fmt/Split.antt =====
-- `split_headers` ends, and cuts its input into headers without loss.
use bindex_rs.Common.{
  ℕ, zero, suc, ◌≤◌, ◌<◌, ◌≡◌, refl, sym, ap, ◌∙◌, subst, ◌≢◌, inl, inr, Option, none, some, List,
  [], ◌∷◌, ◌++◌, arith, leb, leb→le, Bool-cases, if◌then◌else◌,
}
use bindex_rs.Common.{length, take, drop, take-append-drop, length-drop, length-take}
use bindex_rs.Common.{
  decode, malformed, Outcome, ok, err, panic, ok_or, ok_inj, >>=-eq-ok, Outcome-cases, ok_or-eq-ok,
}
use mathlib.Core.Option
use mathlib.Core.Path.{ap₂}
use bindex_rs.Fmt.{
  Format, bitcoin, liquid, Consensus, RawHeader, header_len, header_of, cut, split_loop,
  split_headers, push, prev_blockhash,
}

-- What the loop relies on: no Elements header decodes from zero bytes.
pub record IsAdvancing (c : Consensus) : Type 0 where
  pub not_empty : (block : List ℕ) (n : ℕ) → c.header_size block ≡ some n → 0 < n

abbrev pub raw_bytes : List RawHeader → List ℕ
raw_bytes [] = []
raw_bytes (h ∷ hs) = h.raw ++ raw_bytes hs

-- The size of the header at the front of some bytes: 80 bytes in a Bitcoin build, what the decoder
-- of the Elements crate says in a Liquid build.
abbrev pub IsSized : Format → Consensus → List ℕ → ℕ → Type 0
IsSized bitcoin c bytes n = n ≡ 80
IsSized liquid c bytes n = c.header_size bytes ≡ some n

-- An entry has the hash that the decoder gives for its bytes, and its parent's is what stands in
-- them behind the first four, 32 bytes long.
pub record IsOf (c : Consensus) (h : RawHeader) : Type 0 where
  pub hashed : c.header_hash h.raw ≡ some h.hash
  pub version : List ℕ
  pub behind : List ℕ
  pub parent : h.raw ≡ version ++ (h.prev_blockhash ++ behind)
  pub four : length version ≡ 4
  pub long : length h.prev_blockhash ≡ 32

-- Every entry is of its own bytes, which are as many as the header at the front of these and the
-- later ones has.
abbrev pub Cut : Format → Consensus → List RawHeader → Type 0
Cut format c [] = Unit
Cut format c (h ∷ hs) =
    IsSized format c (h.raw ++ raw_bytes hs) (length h.raw) × IsOf c h × Cut format c hs

header_len-pos :
    (format : Format) (c : Consensus)
    → IsAdvancing c
    → (block : List ℕ) (len : ℕ) → header_len format c block ≡ ok len
    → 0 < len
unfolding header_len
header_len-pos bitcoin c advancing block len e = ground arith
header_len-pos liquid c advancing block len e =
    advancing.not_empty block len (ok_or-eq-ok (c.header_size block) decode e)

raw-header_of :
    (c : Consensus) (raw : List ℕ) (h : RawHeader) → header_of c raw ≡ ok h → h.raw ≡ raw
unfolding header_of
raw-header_of c raw h e =
    let (hash, _, e') = >>=-eq-ok (ok_or (c.header_hash raw) decode) _ e in ground (arith, e')

prev_blockhash_inv :
    (raw prev : List ℕ)
    → prev_blockhash raw ≡ ok prev
    → (36 ≤ length raw) × (take 32 (drop 4 raw) ≡ prev)
unfolding prev_blockhash
prev_blockhash_inv raw prev e = elim (Bool-cases (leb 36 (length raw))) [
  | inl t ↦ (leb→le 36 (length raw) t, ok_inj (sym (rw t refl) ∙ e))
  | inr t ↦ let bad : err malformed ≡ ok prev = sym (rw t refl) ∙ e in cc
]

header_of-IsOf : (c : Consensus) (h : RawHeader) → header_of c h.raw ≡ ok h → IsOf c h
unfolding header_of
header_of-IsOf c h e =
    let (hash, e1, k1) = >>=-eq-ok (ok_or (c.header_hash h.raw) decode) _ e in
    let (prev, e2, k2) = >>=-eq-ok (prev_blockhash h.raw) _ k1 in
    let same = ok_inj k2 in
    let hash_is : hash ≡ h.hash = ap (λ (r : RawHeader). r.hash) same in
    let prev_is : prev ≡ h.prev_blockhash = ap (λ (r : RawHeader). r.prev_blockhash) same in
    let (long_enough, bytes) = prev_blockhash_inv h.raw prev e2 in
    let cut_at : take 32 (drop 4 h.raw) ≡ h.prev_blockhash = bytes ∙ prev_is in
    record {
      hashed = ok_or-eq-ok (c.header_hash h.raw) decode e1 ∙ ap some hash_is;
      version = take 4 h.raw;
      behind = drop 32 (drop 4 h.raw);
      parent =
          sym (take-append-drop 4 h.raw)
          ∙ ap (λ t. take 4 h.raw ++ t)
              (sym (take-append-drop 32 (drop 4 h.raw))
                ∙ ap (λ t. t ++ drop 32 (drop 4 h.raw)) cut_at);
      four = length-take 4 h.raw ∙ omega (arith, long_enough);
      long =
          ap length (sym cut_at)
          ∙ length-take 32 (drop 4 h.raw)
          ∙ omega (arith, length-drop 4 h.raw, long_enough);
    }

map-ne-none :
    (h : RawHeader) (o : Option (Outcome (List RawHeader)))
    → o ≢ none
    → Option.map (push h) o ≢ none
map-ne-none h none k = λ e. k refl
map-ne-none h (some r) k = λ e. cc

map-push_inv :
    (h : RawHeader) (o : Option (Outcome (List RawHeader))) (hs : List RawHeader)
    → Option.map (push h) o ≡ some (ok hs)
    → (others : List RawHeader) × (o ≡ some (ok others)) × (hs ≡ h ∷ others)
map-push_inv h none hs e = cc
map-push_inv h (some (ok others)) hs e = (others, refl, cc)
map-push_inv h (some (err x)) hs e = cc
map-push_inv h (some panic) hs e = cc

module _ (format : Format) (c : Consensus) where
  cut_lem :
      (bytes : List ℕ) (h : RawHeader) (len : ℕ)
      → cut format c bytes ≡ ok (h, len)
      → (header_len format c bytes ≡ ok len)
        × (h.raw ≡ take len bytes)
        × (header_of c h.raw ≡ ok h)
        × (len ≤ length bytes)
  unfolding cut
  cut_lem bytes h len e =
      let (n, e1, k1) = >>=-eq-ok (header_len format c bytes) _ e in
      let (raw, e2, k2) =
        >>=-eq-ok (if leb n (length bytes) then ok (take n bytes) else err malformed) _ k1 in
      let (h', e3, k3) = >>=-eq-ok (header_of c raw) _ k2 in
      let same : (h', n) ≡ (h, len) = ok_inj k3 in
      let same_h : h' ≡ h = ap (λ p. p.0) same in
      let same_n : n ≡ len = ap (λ p. p.1) same in
      let made : header_of c raw ≡ ok h = e3 ∙ ap ok same_h in
      let kept : h.raw ≡ raw = raw-header_of c raw h made in
      (
        e1 ∙ ap ok same_n,
        kept ∙ taken n raw e2 ∙ ap (λ m. take m bytes) same_n,
        subst (λ r. header_of c r ≡ ok h) (sym kept) made,
        subst (λ m. m ≤ length bytes) same_n (held n raw e2),
      )
    where
      held :
          (m : ℕ) (raw : List ℕ)
          → (if leb m (length bytes) then ok (take m bytes) else err malformed) ≡ ok raw
          → m ≤ length bytes
      held m raw q = ground arith

      taken :
          (m : ℕ) (raw : List ℕ)
          → (if leb m (length bytes) then ok (take m bytes) else err malformed) ≡ ok raw
          → raw ≡ take m bytes
      taken m raw q = ground arith

  split_loop-ne-none :
      IsAdvancing c
      → (fuel : ℕ) (bytes : List ℕ) → length bytes ≤ fuel
      → split_loop format c fuel bytes ≢ none
  unfolding split_loop
  split_loop-ne-none advancing fuel [] h = λ e. cc
  split_loop-ne-none advancing zero (b ∷ bs) h = absurd (omega arith)
  split_loop-ne-none advancing (suc fuel) (b ∷ bs) h =
      elim (Outcome-cases (cut format c (b ∷ bs))) [
        | inl (p, e) ↦
            let (e1, _, _, _) = cut_lem (b ∷ bs) p.0 p.1 e in
            let pos = header_len-pos format c advancing (b ∷ bs) p.1 e1 in
            let ih =
              split_loop-ne-none advancing fuel (drop p.1 (b ∷ bs))
                (omega (arith, length-drop p.1 (b ∷ bs))) in
            rw (e, split_loop) (map-ne-none p.0 (split_loop format c fuel (drop p.1 (b ∷ bs))) ih)
        | inr (inl (x, e)) ↦ rw (e, split_loop) (λ q. cc)
        | inr (inr e) ↦ rw (e, split_loop) (λ q. cc)
      ]

  header_len-IsSized :
      (bytes : List ℕ) (len : ℕ) → header_len format c bytes ≡ ok len → IsSized format c bytes len
  header_len-IsSized bytes len e = by_format format e
    where
      by_format : (f : Format) → header_len f c bytes ≡ ok len → IsSized f c bytes len
      by_format bitcoin e = sym (ok_inj (unfold header_len in e))
      by_format liquid e = ok_or-eq-ok (c.header_size bytes) decode (unfold header_len in e)

  -- What a successful run of the loop returns.
  split_loop-raw_bytes :
      (fuel : ℕ) (bytes : List ℕ) (hs : List RawHeader)
      → split_loop format c fuel bytes ≡ some (ok hs)
      → (raw_bytes hs ≡ bytes) × Cut format c hs
  unfolding split_loop
  split_loop-raw_bytes fuel [] hs e = let none_left : hs ≡ [] = cc in rw none_left (refl, tt)
  split_loop-raw_bytes zero (b ∷ bs) hs e = cc
  split_loop-raw_bytes (suc fuel) (b ∷ bs) hs e = elim (Outcome-cases (cut format c (b ∷ bs))) [
    | inl (p, e1) ↦
        let (len, raw, entry, fits) = cut_lem (b ∷ bs) p.0 p.1 e1 in
        let (others, e2, shape) =
          map-push_inv p.0 (split_loop format c fuel (drop p.1 (b ∷ bs))) hs
            (rw (e1, split_loop) at e) in
        let (joined, entries) = split_loop-raw_bytes fuel (drop p.1 (b ∷ bs)) others e2 in
        let whole : p.0.raw ++ raw_bytes others ≡ b ∷ bs =
          ap₂ ◌++◌ raw joined ∙ take-append-drop p.1 (b ∷ bs) in
        let size : length p.0.raw ≡ p.1 =
          ap length raw ∙ length-take p.1 (b ∷ bs) ∙ omega (arith, fits) in
        subst (λ t. (raw_bytes t ≡ b ∷ bs) × Cut format c t) (sym shape)
          (
            whole,
            (
              subst (λ t. IsSized format c t (length p.0.raw)) (sym whole)
                  (subst (IsSized format c (b ∷ bs)) (sym size)
                    (header_len-IsSized (b ∷ bs) p.1 len)),
              header_of-IsOf c p.0 entry,
              entries,
            ),
          )
    | inr (inl (x, e1)) ↦ cc (rw (e1, split_loop) at e)
    | inr (inr e1) ↦ cc (rw (e1, split_loop) at e)
  ]

  -- `split_headers` ends on every input, given that no header decodes from zero bytes.
  pub split_headers-ne-none : IsAdvancing c → (bytes : List ℕ) → split_headers format c bytes ≢ none
  unfolding split_headers
  split_headers-ne-none advancing bytes =
      split_loop-ne-none advancing (length bytes) bytes (omega arith)

  -- When `split_headers` succeeds, the raw headers that it returns, put together, are its input, cut
  -- where each header ends (after 80 bytes, or where the Elements decoder says), and each comes with
  -- the hash that the decoder gives for its bytes and the parent hash in its bytes 4 to 36.
  pub split_headers-raw_bytes :
      (bytes : List ℕ) (hs : List RawHeader)
      → split_headers format c bytes ≡ some (ok hs)
      → (raw_bytes hs ≡ bytes) × Cut format c hs
  unfolding split_headers
  split_headers-raw_bytes bytes hs e = split_loop-raw_bytes (length bytes) bytes hs e

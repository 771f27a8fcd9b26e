-- ===== src/Electrum/Status/Written.antt =====
-- What a script's status is the hash of, independently of how the code builds the text.
use bindex_rs.Common.{
  ℕ, zero, suc, ◌+◌, ◌-◌, ◌*◌, ◌/◌, ◌%◌, ◌^◌, ◌≤◌, ◌<◌, ◌≡◌, refl, ap, ◌∙◌, subst, ◌≢◌, inl, inr,
  Option, none, some, List, [], ◌∷◌, ◌++◌, map, arith, ltb, ltb→lt, ltb_false→le, Bool-cases,
}
use bindex_rs.Common.{length, All, map-append}
use mathlib.Core.Path.{ap₂}
use bindex_rs.Rest.Http.Decimal.{IsDigit, decimal, IsDecimal}
use bindex_rs.Electrum.Fold.{ScriptHistoryRow, ScriptUtxo, ScriptHistory}
use bindex_rs.Electrum.Mempool.{Txid, ScriptHash, MempoolIndex}
use bindex_rs.Electrum.Mempool.View.{MempoolEntry, ScriptMempool, script_view}
use bindex_rs.Electrum.Status.{
  HistoryEntry, digits, i64_to_string, payload, scripthash_status, history_entries, mempool_view,
  script_status,
}

-- The text of an `i64` with these bits, in decimal digits with a sign in front of a negative one.
pub record IsSigned (bits : ℕ) (text : List ℕ) : Type 0 where
  pub positive : bits < 2 ^ 63 → IsDecimal bits text
  pub negative :
      2 ^ 63 ≤ bits
      → (magnitude : List ℕ) × (text ≡ b'-' ∷ magnitude) × IsDecimal (2 ^ 64 - bits) magnitude

abbrev tens : ℕ → ℕ
tens zero = 1
tens (suc k) = 10 * tens k

digits-decimal :
    (fuel n : ℕ) (tail : List ℕ) → n < tens fuel → decimal 0 (digits fuel n tail) ≡ decimal n tail
unfolding digits
digits-decimal zero n tail small = (ap (λ m. decimal m tail) (omega (arith, small)))
digits-decimal (suc fuel) n tail small = elim (Bool-cases (ltb n 10)) [
  | inl t ↦ rw t (ap (λ m. decimal m tail) (omega arith))
  | inr t ↦ rw t (
      digits-decimal fuel (n / 10) ((48 + n % 10) ∷ tail) (omega (arith, small))
      ∙ ap (λ m. decimal m tail) (omega arith))
]

digits-IsDigit : (fuel n : ℕ) (tail : List ℕ) → All IsDigit tail → All IsDigit (digits fuel n tail)
unfolding digits
digits-IsDigit zero n tail d = d
digits-IsDigit (suc fuel) n tail d = elim (Bool-cases (ltb n 10)) [
  | inl t ↦ rw t ((omega arith, omega (arith, ltb→lt n 10 t)), d)
  | inr t ↦ rw t (digits-IsDigit fuel (n / 10) _ ((omega arith, omega arith), d))
]

length-digits : (fuel n : ℕ) (tail : List ℕ) → length tail ≤ length (digits fuel n tail)
unfolding digits
length-digits zero n tail = omega arith
length-digits (suc fuel) n tail = elim (Bool-cases (ltb n 10)) [
  | inl t ↦ rw t (omega arith)
  | inr t ↦ rw t (omega (arith, length-digits fuel (n / 10) ((48 + n % 10) ∷ tail)))
]

length-digits_some : (fuel n : ℕ) (tail : List ℕ) → length tail < length (digits (suc fuel) n tail)
unfolding digits
length-digits_some fuel n tail = elim (Bool-cases (ltb n 10)) [
  | inl t ↦ rw t (omega arith)
  | inr t ↦ rw t (omega (arith, length-digits fuel (n / 10) ((48 + n % 10) ∷ tail)))
]

digits-IsDecimal : (n : ℕ) → n < 2 ^ 64 → IsDecimal n (digits 20 n [])
digits-IsDecimal n small = record {
  written = length-digits_some 19 n [];
  digits = digits-IsDigit 20 n [] tt;
  value = digits-decimal 20 n [] (omega (arith, small));
  fits = small;
}

i64_to_string-IsSigned : (bits : ℕ) → IsSigned bits (i64_to_string bits)
unfolding i64_to_string
i64_to_string-IsSigned bits = elim (Bool-cases (ltb bits (2 ^ 63))) [
  | inl t ↦
      let small = ltb→lt bits (2 ^ 63) t in
      rw t (record {
        positive = λ h. digits-IsDecimal bits (omega (arith, small));
        negative = λ h. absurd (omega (arith, small, h));
      })
  | inr t ↦
      let large = ltb_false→le bits (2 ^ 63) t in
      rw t (record {
        positive = λ h. absurd (omega (arith, large, h));
        negative = λ h. (
          digits 20 (2 ^ 64 - bits) [],
          refl,
          digits-IsDecimal (2 ^ 64 - bits) (omega (arith, large)),
        );
      })
]

-- A text with `hash:height:` for each item, in their order.
abbrev pub Lists : List (List ℕ × ℕ) → List ℕ → Type 0
Lists [] text = text ≡ []
Lists ((hash, height) ∷ items) text =
    (number : List ℕ) × (rest : List ℕ) × (text ≡ hash ++ (b':' ∷ (number ++ (b':' ∷ rest))))
    × IsSigned height number
    × Lists items rest

item_of : HistoryEntry → List ℕ × ℕ
item_of entry = (entry.tx_hash, entry.height)

payload-Lists : (entries : List HistoryEntry) → Lists (map item_of entries) (payload entries)
unfolding payload item_of
payload-Lists [] = refl
payload-Lists (e ∷ entries) = (
  i64_to_string e.height,
  payload entries,
  refl,
  i64_to_string-IsSigned e.height,
  payload-Lists entries,
)

map-map {ℓ} :
    {A B C : Type ℓ} (f : B → C) (g : A → B) (xs : List A)
    → map f (map g xs) ≡ map (λ x. f (g x)) xs
map-map f g [] = refl
map-map f g (x ∷ xs) = ap (λ ys. f (g x) ∷ ys) (map-map f g xs)

module _ (to_string : Txid → List ℕ) (sha256 : List ℕ → List ℕ) where
  -- The confirmed transactions, then those of the mempool, each with its height.
  abbrev pub items : ScriptHistory → ScriptMempool → List (List ℕ × ℕ)
  items confirmed view =
      map (λ (row : ScriptHistoryRow). (to_string row.txid, row.height)) confirmed.rows
      ++ map (λ (entry : MempoolEntry). (entry.tx_hash, entry.height)) view.entries

  -- The script's share of the mempool, beside a confirmed history.
  abbrev pub view : MempoolIndex → ScriptHash → ScriptHistory → ScriptMempool
  view mempool s confirmed =
      script_view to_string mempool s
        (map (λ (utxo : ScriptUtxo). (utxo.outpoint, utxo.value)) confirmed.utxos)
        (map (λ (row : ScriptHistoryRow). row.txid) confirmed.rows)

  -- The status of a script without transactions is none, that of another one the hash of the text
  -- that lists its transactions.
  pub record IsStatus (mempool : MempoolIndex) (s : ScriptHash) (confirmed : ScriptHistory)
      (status : Option (List ℕ)) : Type 0 where
    pub without : items confirmed (view mempool s confirmed) ≡ [] → status ≡ none
    pub with_some :
        items confirmed (view mempool s confirmed) ≢ []
        → (text : List ℕ) × Lists (items confirmed (view mempool s confirmed)) text
          × (status ≡ some (sha256 text))

  abbrev Hashed : List (List ℕ × ℕ) → Option (List ℕ) → Type 0
  Hashed listed status =
      (listed ≡ [] → status ≡ none)
      × (listed ≢ [] → (text : List ℕ) × Lists listed text × (status ≡ some (sha256 text)))

  scripthash_status-Hashed :
      (entries : List HistoryEntry)
      → Hashed (map item_of entries) (scripthash_status sha256 entries)
  unfolding scripthash_status
  scripthash_status-Hashed [] = (λ e. refl, λ ne. absurd (ne refl))
  scripthash_status-Hashed (e ∷ entries) =
      (λ same. cc, λ ne. (payload (e ∷ entries), payload-Lists (e ∷ entries), refl))

  map-history_entries :
      (confirmed : ScriptHistory) (m : ScriptMempool)
      → map item_of (history_entries to_string confirmed m) ≡ items confirmed m
  unfolding history_entries item_of
  map-history_entries confirmed m =
      map-append item_of _ _
      ∙ ap₂ ◌++◌ (map-map item_of _ confirmed.rows) (map-map item_of _ m.entries)

  pub script_status-IsStatus :
      (mempool : MempoolIndex) (s : ScriptHash) (confirmed : ScriptHistory)
      → IsStatus mempool s confirmed (script_status to_string sha256 mempool s confirmed)
  unfolding script_status mempool_view
  script_status-IsStatus mempool s confirmed =
      let (none_of, some_of) =
        subst (λ l. Hashed l (script_status to_string sha256 mempool s confirmed))
          (map-history_entries confirmed (view mempool s confirmed))
          (scripthash_status-Hashed
            (history_entries to_string confirmed (view mempool s confirmed))) in
      record { without = none_of; with_some = some_of }

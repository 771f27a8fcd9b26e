-- ===== src/Common/Results.antt =====
-- The ways a call ends: a value, an error of the source's `Error` enums, or a panic (`assert!`,
-- `expect`, `unwrap`, a slice out of range, checked arithmetic).
use Prim.Native.Nat.{ℕ}
use mathlib.Core.Path.{◌≡◌, refl}
use mathlib.Core.Logic.{◌⊎◌, inl, inr}
use mathlib.Core.Bool.{Bool, true, false}
use mathlib.Core.Option.{Option, none, some}
use mathlib.Core.List.{List}

-- The variants of the library's error enums (bindex-lib: chain.rs, headers.rs,
-- index/mod.rs, fmt.rs), with the
-- `#[from]` wrappers flattened. A hash is its list of bytes.
pub data Error : Type 0 where
  client not_supported parse decode rocksdb : Error
  malformed : Error
  leftover : ℕ → Error
  chain_mismatch : List ℕ → List ℕ → Error
  missing stale : List ℕ → ℕ → Error
  -- `Deadline`, `Reorg`, `Worker` and `Height` of the server's enum
  deadline_passed chain_moved worker_panicked : Error
  unknown_height : ℕ → Error

pub data Outcome {ℓ} (A : Type ℓ) : Type ℓ where
  ok : A → Outcome A
  err : Error → Outcome A
  panic : Outcome A

infixl 5 ◌>>=◌ ◌>>◌
-- `?`, and a call that may panic, before the code behind it.
abbrev pub ◌>>=◌ {κ ℓ} : {B : Type κ} {A : Type ℓ} → Outcome B → (B → Outcome A) → Outcome A
panic >>= next = panic
err e >>= next = err e
ok b >>= next = next b

-- `assert!(b)`
abbrev pub assert : Bool → Outcome (Unit {0})
assert false = panic
assert true = ok tt

abbrev pub ◌>>◌ {κ} : {A : Type κ} → Outcome (Unit {0}) → Outcome A → Outcome A
first >> second = first >>= λ _. second

-- `option.expect(..)`
abbrev pub expect {ℓ} : {A : Type ℓ} → Option A → Outcome A
expect none = panic
expect (some a) = ok a

-- `option.ok_or(e)`
abbrev pub ok_or {ℓ} : {A : Type ℓ} → Option A → Error → Outcome A
ok_or none e = err e
ok_or (some a) e = ok a

pub >>=-eq-ok {κ ℓ} :
    {B : Type κ} {A : Type ℓ} (first : Outcome B) (next : B → Outcome A) {a : A}
    → (first >>= next) ≡ ok a
    → (b : B) × (first ≡ ok b) × (next b ≡ ok a)
>>=-eq-ok panic next h = cc
>>=-eq-ok (err e) next h = cc
>>=-eq-ok (ok b) next h = (b, refl, h)

pub assert-eq-ok {ℓ} :
    {B : Type ℓ} (c : Bool) (k : Outcome B) {b : B}
    → (assert c >> k) ≡ ok b
    → (c ≡ true) × (k ≡ ok b)
assert-eq-ok true k h = (refl, h)
assert-eq-ok false k h = cc

pub ok_inj {ℓ} : {A : Type ℓ} {a b : A} → ok a ≡ ok b → a ≡ b
ok_inj e = cc

pub Outcome-cases {ℓ} :
    {A : Type ℓ} (r : Outcome A)
    → ((a : A) × (r ≡ ok a)) ⊎ (((e : Error) × (r ≡ err e)) ⊎ (r ≡ panic))
Outcome-cases (ok a) = inl (a, refl)
Outcome-cases (err e) = inr (inl (e, refl))
Outcome-cases panic = inr (inr refl)

pub expect-eq-ok {ℓ} : {A : Type ℓ} (o : Option A) {a : A} → expect o ≡ ok a → o ≡ some a
expect-eq-ok none h = cc
expect-eq-ok (some b) h = cc

pub ok_or-eq-ok {ℓ} :
    {A : Type ℓ} (o : Option A) (e : Error) {a : A} → ok_or o e ≡ ok a → o ≡ some a
ok_or-eq-ok none e h = cc
ok_or-eq-ok (some b) e h = cc

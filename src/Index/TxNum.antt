-- ===== src/Index/TxNum.antt =====
-- `TxNum` and `TxNumRange` of bindex-lib/src/index/mod.rs: positions of transactions in the chain.
use bindex_rs.Common.{
  ℕ, ◌+◌, ◌-◌, ◌^◌, ◌≡◌, Bool, Option, none, some, List, arith, ltb, leb, ◌==◌, if◌then◌else◌,
}
use bindex_rs.Common.{Outcome, ok, panic, ◌>>=◌, expect}
use bindex_rs.Common.Bytes.{IsU32, u32_to_be_bytes, u32_from_be_bytes, from-to_be_bytes}

-- A `u32` counter; `TxNum::default()` is 0.
abbrev pub TxNum : Type 0
TxNum = ℕ

unfoldable pub offset_from : TxNum → TxNum → Option ℕ
offset_from self base = if leb base self then some (self - base) else none

-- The new value of `self`; `checked_add` fails past `u32::MAX`.
unfoldable pub increment_by : TxNum → ℕ → Outcome TxNum
increment_by self delta = if ltb (self + delta) (2 ^ 32) then ok (self + delta) else panic

unfoldable pub serialize : TxNum → List ℕ
serialize self = u32_to_be_bytes self

-- With the callers' `try_into().expect(..)`, which panics unless there are four bytes.
unfoldable pub deserialize : List ℕ → Outcome TxNum
deserialize bytes = expect (u32_from_be_bytes bytes)

pub record TxNumRange : Type 0 where
  pub first : TxNum
  pub next : TxNum
  pub len : ℕ

unfoldable pub new_range : TxNum → TxNum → Outcome TxNumRange
unfolding offset_from
new_range first next = do
  len ← expect (offset_from next first)
  ok (record { first = first; next = next; len = len })

unfoldable pub adjacent : TxNumRange → TxNumRange → Bool
adjacent prev next = prev.next == next.first

pub deserialize-serialize : (n : TxNum) → IsU32 n → deserialize (serialize n) ≡ ok n
unfolding deserialize serialize
deserialize-serialize n h = rw (from-to_be_bytes n h)

pub offset_from_add : (base k : ℕ) → offset_from (base + k) base ≡ some k
unfolding offset_from
offset_from_add base k = ground arith

pub new_range-increment_by :
    (first d next : ℕ)
    → increment_by first d ≡ ok next
    → new_range first next ≡ ok (record { first = first; next = next; len = d })
unfolding new_range increment_by
new_range-increment_by first d next h = ground arith

pub increment_by_ok : (n d m : ℕ) → increment_by n d ≡ ok m → (m ≡ n + d) × IsU32 m
unfolding increment_by
increment_by_ok n d m h = ground arith

pub increment_by_fits : (n d : ℕ) → IsU32 (n + d) → increment_by n d ≡ ok (n + d)
unfolding increment_by
increment_by_fits n d h = ground arith

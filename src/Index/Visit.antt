-- ===== src/Index/Visit.antt =====
-- What bindex-lib/src/index takes from the crates that parse blocks, scripts and hashes.
use bindex_rs.Common.{ℕ, ◌≡◌, refl, Bool, Option, List, [], ◌∷◌, ◌++◌, map}
use bindex_rs.Common.{length}
use bindex_rs.Common.{Outcome, ok, err, panic, ◌>>=◌}

-- A call that `bitcoin_slices` makes on a visitor while it parses a block: at its start with the
-- number of transactions, on each output script, and after each transaction with its bytes and its
-- id.
pub data Event : Type 0 where
  block_begin : ℕ → Event
  tx_out : List ℕ → Event
  transaction : List ℕ → List ℕ → Event

pub record Parser : Type 0 where
  -- The calls made on a block's bytes, and the bytes left over (`none` if parsing failed).
  pub visit_block : List ℕ → List Event × Option (List ℕ)
  -- A length prefix, and its size.
  pub scan_len : List ℕ → Option (ℕ × ℕ)
  -- An output's script, and the output's size.
  pub tx_out_script : List ℕ → Option (List ℕ × ℕ)
  pub is_op_return : List ℕ → Bool
  pub sha256 : List ℕ → List ℕ
  -- `VarInt(n).size()`
  pub var_int_size : ℕ → ℕ

-- Hashes have 32 bytes.
pub record IsHashing (p : Parser) : Type 0 where
  pub sha256_size : (script : List ℕ) → length (p.sha256 script) ≡ 32

-- The calls of a visitor one after the other.
module _ {S : Type 0} (step : S → Event → Outcome S) where
  unfoldable pub visit_all : S → List Event → Outcome S
  visit_all s [] = ok s
  visit_all s (e ∷ es) = do s' ← step s e; visit_all s' es

-- One transaction of a block, as its visit shows it.
pub record TxTrace : Type 0 where
  pub scripts : List (List ℕ)
  pub raw : List ℕ
  pub txid : List ℕ

abbrev pub tx_events : TxTrace → List Event
tx_events t = map tx_out t.scripts ++ transaction t.raw t.txid ∷ []

abbrev pub txs_events : List TxTrace → List Event
txs_events [] = []
txs_events (t ∷ ts) = tx_events t ++ txs_events ts

-- The calls on a whole block.
abbrev pub block_events : List TxTrace → List Event
block_events ts = block_begin (length ts) ∷ txs_events ts

module _ {S : Type 0} (step : S → Event → Outcome S) where
  pub visit_all-append :
      (s : S) (a b : List Event)
      → visit_all step s (a ++ b) ≡ (visit_all step s a >>= λ s'. visit_all step s' b)
  unfolding visit_all
  visit_all-append s [] b = refl
  visit_all-append s (e ∷ a) b = by_step (step s e) (λ s'. visit_all-append s' a b)
    where
      by_step :
          (r : Outcome S)
          → ((s' : S)
              → visit_all step s' (a ++ b) ≡ (visit_all step s' a >>= λ t. visit_all step t b))
          → (r >>= λ s'. visit_all step s' (a ++ b))
            ≡ ((r >>= λ s'. visit_all step s' a) >>= λ t. visit_all step t b)
      by_step (ok s') h = h s'
      by_step (err x) h = refl
      by_step panic h = refl

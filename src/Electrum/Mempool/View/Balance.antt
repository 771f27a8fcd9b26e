-- ===== src/Electrum/Mempool/View/Balance.antt =====
-- The balance of `script_view` in bindex-electrum/src/mempool.rs.
use bindex_rs.Common.{ℕ, ◌+◌, Bool, List, [], ◌∷◌, if◌then◌else◌}
use bindex_rs.Electrum.Mempool.{OutPoint}

abbrev pub total : List (OutPoint × ℕ) → ℕ
total [] = 0
total (o ∷ os) = o.1 + total os

-- The value of the outputs that are spent.
abbrev pub spent_total : (OutPoint → Bool) → List (OutPoint × ℕ) → ℕ
spent_total spent [] = 0
spent_total spent (o ∷ os) =
    let rest = spent_total spent os in if spent o.0 then o.1 + rest else rest

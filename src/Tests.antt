-- ===== src/Tests.antt =====
-- Concrete inputs for the theorems: a store, a parser, blocks and chains.
pub mod Data
pub mod Store
pub mod Wire
pub mod Index
pub mod Db
pub mod Headers
pub mod Chain
pub mod Electrum
pub mod Mempool
pub mod History
pub mod Rest
pub mod Protocol
pub mod Session

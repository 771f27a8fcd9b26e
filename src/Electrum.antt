-- ===== src/Electrum.antt =====
-- bindex-electrum: the logic of the Electrum server that is not I/O.
pub mod Merkle
pub mod Protocol
pub mod Status
pub mod Session
pub mod Maps
pub mod Mempool
pub mod ScriptCache
pub mod Fold
pub mod History

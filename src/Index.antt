-- ===== src/Index.antt =====
-- bindex-lib/src/index: the rows of the index, as they are computed from blocks and stored.
pub mod TxNum
pub mod Row
pub mod Header
pub mod TxPos
pub mod Visit
pub mod ScriptHash
pub mod TxId
pub mod TxVisit
pub mod Batch

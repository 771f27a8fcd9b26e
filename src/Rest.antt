-- ===== src/Rest.antt =====
-- bindex-electrum/src/rest: the parts of the REST API that are not I/O.
pub mod Text
pub mod Http

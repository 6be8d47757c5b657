-- ===== src/Block.antt =====
-- xelis_common/src/block and the versions of transactions (xelis_common/src/transaction/version.rs).
pub mod Version
pub mod Header

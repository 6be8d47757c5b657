-- ===== src/Account.antt =====
-- xelis_common/src/account and xelis_common/src/versioned_type.rs.
pub mod Nonce
pub mod Versioned
pub mod Cache
pub mod Balance
pub mod Bytes

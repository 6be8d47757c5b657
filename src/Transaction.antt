-- ===== src/Transaction.antt =====
-- The public payloads of xelis_common/src/transaction and its set of signatures.
pub mod Payload
pub mod MultiSig

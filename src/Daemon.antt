-- ===== src/Daemon.antt =====
-- xelis_daemon/src/core.
pub mod Rewards
pub mod HardFork
pub mod NonceChecker
pub mod BlockDag
pub mod Dag
pub mod SideBlock
pub mod Difficulty
pub mod Mempool
pub mod TxSelector

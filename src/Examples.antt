-- ===== src/Examples.antt =====
-- Concrete inputs at which the theorems apply.
mod Codec
mod Accounts
mod Nonces
mod Chain
mod Queues
mod Difficulties
mod SideBlocks
mod Dags
mod Pools

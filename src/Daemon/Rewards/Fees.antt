-- ===== src/Daemon/Rewards/Fees.antt =====
-- The fee of a transaction: `calculate_tx_fee` of xelis_common/src/utils.rs.
use blockchain_xelis.Prelude.{ℕ, ◌+◌, ◌*◌, ◌≤◌, ◌<◌, ◌≡◌, arith, u64_mod}
use blockchain_xelis.Daemon.Rewards.{
  calculate_tx_fee, fee_per_kb, fee_per_transfer, fee_per_account_creation,
}

-- The size is charged by the kilobyte, rounded up: the number of kilobytes `kb` is the only one with
-- 1024 * kb between the size and the size + 1023. The fee is the exact one where that is below 2 ^ 64.
calculate_tx_fee_lem :
    (tx_size outputs new_addresses multisig kb : ℕ)
    → tx_size ≤ 1024 * kb
    → 1024 * kb < tx_size + 1024
    → kb * fee_per_kb
        + (outputs + multisig) * fee_per_transfer
        + new_addresses * fee_per_account_creation
      < u64_mod
    → calculate_tx_fee tx_size outputs new_addresses multisig
      ≡ kb * fee_per_kb
        + (outputs + multisig) * fee_per_transfer
        + new_addresses * fee_per_account_creation
unfolding calculate_tx_fee
calculate_tx_fee_lem tx_size outputs new_addresses multisig kb h k small = ground arith

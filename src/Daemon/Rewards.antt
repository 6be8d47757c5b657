-- ===== src/Daemon/Rewards.antt =====
-- Emission and fees: the free functions at the end of xelis_daemon/src/core/blockchain.rs, the
-- constants of xelis_daemon/src/config.rs and xelis_common/src/config.rs, and `calculate_tx_fee` of
-- xelis_common/src/utils.rs.
pub mod Emission
pub mod Fees
use blockchain_xelis.Prelude.{
  ℕ, ◌+◌, ◌-◌, ◌*◌, ◌/◌, ◌%◌, ◌^◌, Bool, List, [], ◌∷◌, ltb, leb, ◌==◌, not, if◌then◌else◌, u64_mod,
}

abbrev pub coin_value : ℕ
coin_value = 10 ^ 8

abbrev pub maximum_supply : ℕ
maximum_supply = 18_400_000 * coin_value

abbrev pub emission_speed_factor : ℕ
emission_speed_factor = 20

abbrev pub millis_per_second : ℕ
millis_per_second = 1000

abbrev pub block_time_millis : ℕ
block_time_millis = 15 * millis_per_second

abbrev pub side_block_reward_percent : ℕ
side_block_reward_percent = 30

abbrev pub side_block_reward_max_blocks : ℕ
side_block_reward_max_blocks = 3

abbrev pub side_block_reward_min_percent : ℕ
side_block_reward_min_percent = 5

pub record DevFeeThreshold : Type 0 where
  pub height : ℕ
  pub fee_percentage : ℕ

abbrev pub dev_fees : List DevFeeThreshold
dev_fees =
    record { height = 0; fee_percentage = 10 }
    ∷ record { height = 3_250_000; fee_percentage = 5 }
    ∷ []

unfoldable pub get_block_reward : ℕ → ℕ
get_block_reward supply =
    if leb maximum_supply supply
    then 0
    else let base_reward = (maximum_supply - supply) / 2 ^ emission_speed_factor in
      base_reward * block_time_millis / millis_per_second / 180

unfoldable pub side_block_reward_percentage : ℕ → ℕ
side_block_reward_percentage side_blocks =
    if ltb 0 side_blocks
    then (if ltb side_blocks side_block_reward_max_blocks
        then side_block_reward_percent / (side_blocks * 2)
        else side_block_reward_min_percent)
    else side_block_reward_percent

unfoldable pub internal_get_block_reward : ℕ → Bool → ℕ → ℕ
internal_get_block_reward past_supply is_side_block side_blocks_count =
    if is_side_block
    then get_block_reward past_supply * side_block_reward_percentage side_blocks_count / 100
    else get_block_reward past_supply

-- The loop over the thresholds: a later one that is reached replaces an earlier one.
unfoldable pub dev_fee_loop : List DevFeeThreshold → ℕ → ℕ → ℕ
dev_fee_loop [] height percentage = percentage
dev_fee_loop (threshold ∷ rest) height percentage =
    dev_fee_loop rest height
      (if leb threshold.height height then threshold.fee_percentage else percentage)

unfoldable pub get_block_dev_fee : ℕ → ℕ
unfolding dev_fee_loop
get_block_dev_fee height = dev_fee_loop dev_fees height 0

abbrev pub bytes_per_kb : ℕ
bytes_per_kb = 1024

abbrev pub fee_per_kb : ℕ
fee_per_kb = 10000

abbrev pub fee_per_account_creation : ℕ
fee_per_account_creation = 100000

abbrev pub fee_per_transfer : ℕ
fee_per_transfer = 5000

-- The products and sums of `u64` wrap.
unfoldable pub calculate_tx_fee : ℕ → ℕ → ℕ → ℕ → ℕ
calculate_tx_fee tx_size output_count new_addresses multisig =
    let whole_kb = tx_size / bytes_per_kb in
    let size_in_kb =
      if not (tx_size % bytes_per_kb == 0) then (whole_kb + 1) % u64_mod else whole_kb in
    let for_size = size_in_kb * fee_per_kb % u64_mod in
    let with_outputs = (for_size + output_count * fee_per_transfer % u64_mod) % u64_mod in
    let with_accounts =
      (with_outputs + new_addresses * fee_per_account_creation % u64_mod) % u64_mod in
    (with_accounts + multisig * fee_per_transfer % u64_mod) % u64_mod

-- ===== src/Daemon/Rewards/Emission.antt =====
-- The emission curve and the shares of side blocks (xelis_daemon/src/core/blockchain.rs).
use blockchain_xelis.Prelude.{
  ℕ, zero, suc, ◌+◌, ◌-◌, ◌*◌, ◌/◌, ◌^◌, ◌≤◌, ◌<◌, ◌≡◌, refl, true, false, ltb, if◌then◌else◌, ◌==◌,
  arith, u64_mod,
}
use blockchain_xelis.Daemon.Rewards.{
  get_block_reward, side_block_reward_percentage, internal_get_block_reward, maximum_supply,
  block_time_millis, emission_speed_factor, get_block_dev_fee,
}

-- From a supply within the maximum, the supply with the block's reward is within it too, and there is
-- no reward exactly when less than 12 * 2 ^ 20 atomic units are left.
pub get_block_reward_bounds :
    (supply : ℕ)
    → supply ≤ maximum_supply
    → (supply + get_block_reward supply ≤ maximum_supply)
      × (get_block_reward supply ≡ 0 → maximum_supply - supply < 12 * 2 ^ 20)
      × (maximum_supply - supply < 12 * 2 ^ 20 → get_block_reward supply ≡ 0)
unfolding get_block_reward
get_block_reward_bounds supply h = (ground arith, (λ z. ground arith), (λ l. ground arith))

-- The reward never grows with the supply.
get_block_reward_antitone : (a b : ℕ) → a ≤ b → get_block_reward b ≤ get_block_reward a
unfolding get_block_reward
get_block_reward_antitone a b h = ground arith

-- The cases of the percentage: full, halved, quartered, and the minimum from the third block on.
pub side_block_reward_percentage_lem :
    (n : ℕ)
    → side_block_reward_percentage n
      ≡ (if n == 0 then 30 else (if n == 1 then 15 else (if n == 2 then 7 else 5)))
unfolding side_block_reward_percentage
side_block_reward_percentage_lem zero = refl
side_block_reward_percentage_lem (suc zero) = refl
side_block_reward_percentage_lem (suc (suc zero)) = refl
side_block_reward_percentage_lem (suc (suc (suc n))) = ground arith

-- More side blocks at a height never earn more, and a share lies between 5% and 30%.
side_block_reward_percentage_bounds :
    (n m : ℕ)
    → n ≤ m
    → (side_block_reward_percentage m ≤ side_block_reward_percentage n)
      × (5 ≤ side_block_reward_percentage m)
      × (side_block_reward_percentage n ≤ 30)
side_block_reward_percentage_bounds n m h =
    ground (arith, side_block_reward_percentage_lem n, side_block_reward_percentage_lem m)

get_block_reward_small : (supply : ℕ) → get_block_reward supply < 2 ^ 50
unfolding get_block_reward
get_block_reward_small supply = ground arith

-- A side block never earns more than 30% of what the same block earns on the main chain, and the
-- products of the computation stay below 2 ^ 64.
internal_get_block_reward_bounds :
    (past_supply side_blocks : ℕ)
    → (100 * internal_get_block_reward past_supply true side_blocks
        ≤ 30 * internal_get_block_reward past_supply false side_blocks)
      × ((maximum_supply - past_supply) / 2 ^ emission_speed_factor * block_time_millis < u64_mod)
      × (get_block_reward past_supply * side_block_reward_percentage side_blocks < u64_mod)
unfolding internal_get_block_reward
internal_get_block_reward_bounds past_supply side_blocks =
    let reward = get_block_reward past_supply in
    let percentage = side_block_reward_percentage side_blocks in
    let product : reward * percentage ≤ reward * 30 =
      grind (arith, side_block_reward_percentage_bounds side_blocks side_blocks (omega arith)) in
    let bound : reward < 2 ^ 50 = get_block_reward_small past_supply in
    (omega arith, omega arith, omega arith)

-- The developers' share is 10% below height 3 250 000 and 5% from there on.
pub get_block_dev_fee_lem :
    (height : ℕ) → get_block_dev_fee height ≡ (if ltb height 3_250_000 then 10 else 5)
unfolding get_block_dev_fee
get_block_dev_fee_lem height = ground arith

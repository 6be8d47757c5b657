-- ===== src/Daemon/Difficulty.antt =====
-- The difficulty of the next block: xelis_daemon/src/core/difficulty. The 256-bit integers behind `VarUint` are
-- those of a library: their operations are the parameter `U256`, on the numbers that they stand for.
pub mod Estimate
pub mod Next
use blockchain_xelis.Prelude.{
  ℕ, ◌+◌, ◌-◌, ◌*◌, ◌/◌, ◌^◌, ◌≤◌, ◌<◌, ◌≡◌, max, Option, none, some, ltb, leb, if◌then◌else◌,
  u64_mod, ◌%◌,
}
use blockchain_xelis.Block.Version.{BlockVersion, v0}
use blockchain_xelis.Daemon.Rewards.{block_time_millis, millis_per_second}

-- The operations that the code calls, `none` where they panic, and what it relies on: they are exact where the
-- result is a number below 2 ^ 256.
pub record U256 : Type 0 where
  pub add : ℕ → ℕ → Option ℕ
  pub sub : ℕ → ℕ → Option ℕ
  pub mul : ℕ → ℕ → Option ℕ
  pub div : ℕ → ℕ → Option ℕ
  pub shl : ℕ → ℕ → Option ℕ
  pub shr : ℕ → ℕ → Option ℕ
  pub add_exact : (a b : ℕ) → a + b < 2 ^ 256 → add a b ≡ some (a + b)
  pub sub_exact : (a b : ℕ) → b ≤ a → a < 2 ^ 256 → sub a b ≡ some (a - b)
  pub mul_exact : (a b : ℕ) → a * b < 2 ^ 256 → mul a b ≡ some (a * b)
  pub div_exact : (a b : ℕ) → 0 < b → a < 2 ^ 256 → div a b ≡ some (a / b)
  pub shl_exact : (a n : ℕ) → a * 2 ^ n < 2 ^ 256 → shl a n ≡ some (a * 2 ^ n)
  pub shr_exact : (a n : ℕ) → a < 2 ^ 256 → shr a n ≡ some (a / 2 ^ n)

infixl 5 ◌>>=◌
unfoldable pub ◌>>=◌ {ℓ κ} : {A : Type ℓ} {B : Type κ} → Option A → (A → Option B) → Option B
none >>= f = none
some a >>= f = f a

pub record Config : Type 0 where
  pub shift : ℕ
  pub process_noise_covar : ℕ

abbrev pub left_shift : Config → ℕ
left_shift c = 2 ^ c.shift

abbrev pub v1_config : Config
v1_config = record { shift = 32; process_noise_covar = 2 ^ 32 / 100 * 5 }

abbrev pub v2_config : Config
v2_config = record { shift = 20; process_noise_covar = 2 ^ 20 * 20 / millis_per_second }

module _ (u : U256) where
  open u use {add, sub, mul, div, shl, shr}

  -- The new estimate lies from the old one towards the observed value.
  unfoldable pub move : ℕ → ℕ → ℕ → ℕ → Option ℕ
  unfolding ◌>>=◌
  move z x_est_prev k shift =
      if leb x_est_prev z
      then (do
        distance ← sub z x_est_prev
        product ← mul k distance
        step ← shr product shift
        add x_est_prev step)
      else (do
        distance ← sub x_est_prev z
        product ← mul k distance
        step ← shr product shift
        sub x_est_prev step)

  unfoldable pub kalman_filter : ℕ → ℕ → ℕ → ℕ → ℕ → ℕ → Option (ℕ × ℕ)
  unfolding ◌>>=◌ move
  kalman_filter z x_est_prev p_prev shift left_shift process_noise_covar = do
    z ← mul z left_shift
    r ← mul z 2
    x_est_prev ← mul x_est_prev left_shift
    noise ← mul x_est_prev process_noise_covar
    noise ← shr noise shift
    p_pred ← add noise p_prev
    numerator ← shl p_pred shift
    sum ← add p_pred r
    denominator ← add sum 1
    k ← div numerator denominator
    x_est_new ← move z x_est_prev k shift
    rest ← sub left_shift k
    product ← mul rest p_pred
    p_new ← shr product shift
    x_est_new ← shr x_est_new shift
    some (x_est_new, p_new)

  unfoldable pub v1_calculate_difficulty : ℕ → ℕ → ℕ → ℕ → Option (ℕ × ℕ)
  unfolding kalman_filter ◌>>=◌
  v1_calculate_difficulty solve_time previous_difficulty p minimum_difficulty = do
    z ← div previous_difficulty solve_time
    estimate ← div previous_difficulty block_time_millis
    filtered ←
        kalman_filter z estimate p v1_config.shift (left_shift v1_config)
          v1_config.process_noise_covar
    difficulty ← mul filtered.0 block_time_millis
    some (
        if ltb difficulty minimum_difficulty
        then (minimum_difficulty, left_shift v1_config)
        else (difficulty, filtered.1))

  unfoldable pub v2_calculate_difficulty : ℕ → ℕ → ℕ → ℕ → Option (ℕ × ℕ)
  unfolding kalman_filter ◌>>=◌
  v2_calculate_difficulty solve_time previous_difficulty p minimum_difficulty = do
    scaled ← mul previous_difficulty millis_per_second
    z ← div scaled solve_time
    estimate ← div scaled block_time_millis
    filtered ←
        kalman_filter z estimate p v2_config.shift (left_shift v2_config)
          v2_config.process_noise_covar
    product ← mul filtered.0 block_time_millis
    difficulty ← div product millis_per_second
    some (
        if ltb difficulty minimum_difficulty
        then (minimum_difficulty, left_shift v2_config)
        else (difficulty, filtered.1))

  -- The difference of the timestamps is one of 64-bit numbers.
  unfoldable pub calculate_difficulty : ℕ → ℕ → ℕ → ℕ → ℕ → BlockVersion → Option (ℕ × ℕ)
  unfolding v1_calculate_difficulty v2_calculate_difficulty
  calculate_difficulty parent_timestamp timestamp previous_difficulty p minimum_difficulty
        BlockVersion.v0 =
      v1_calculate_difficulty (max ((timestamp + u64_mod - parent_timestamp) % u64_mod) 1)
        previous_difficulty p minimum_difficulty
  calculate_difficulty parent_timestamp timestamp previous_difficulty p minimum_difficulty _ =
      v2_calculate_difficulty (max ((timestamp + u64_mod - parent_timestamp) % u64_mod) 1)
        previous_difficulty p minimum_difficulty

unfoldable pub get_covariance_p : BlockVersion → ℕ
get_covariance_p BlockVersion.v0 = left_shift v1_config
get_covariance_p _ = left_shift v2_config

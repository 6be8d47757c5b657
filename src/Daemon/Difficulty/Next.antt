-- ===== src/Daemon/Difficulty/Next.antt =====
-- The difficulty that follows (xelis_daemon/src/core/difficulty/v1.rs and v2.rs).
use blockchain_xelis.Prelude.{
  ℕ, ◌+◌, ◌-◌, ◌*◌, ◌/◌, ◌%◌, ◌^◌, ◌≤◌, ◌<◌, ◌≡◌, refl, max, some, ltb, arith, Bool-cases, inl, inr,
  u64_mod,
}
use blockchain_xelis.Block.Version.{BlockVersion, v0, v1, v2, v3}
use blockchain_xelis.Daemon.Rewards.{block_time_millis, millis_per_second}
use blockchain_xelis.Daemon.Difficulty.{
  U256, ◌>>=◌, v1_config, v2_config, left_shift, v1_calculate_difficulty, v2_calculate_difficulty,
  calculate_difficulty,
}
use blockchain_xelis.Daemon.Difficulty.Estimate.{kalman_filter_lem, mul_le, le_div}

div_scale : (a n c : ℕ) → 0 < n → a / n * c ≤ a * c / n
div_scale a n c h =
    let whole : a / n * n ≤ a = grind arith in
    let product = mul_le (a / n * n) a c c whole (omega arith) in
    le_div (a * c) (a / n * c) n h (grind (arith, product))

div_self_le : (a n : ℕ) → a / n ≤ a
div_self_le a n = grind arith

-- A difficulty that may be the next one: not below the minimum, and not above the largest of the minimum, the last
-- difficulty, and the last one scaled by the time of a block over the time that was taken.
abbrev pub IsNext : ℕ → ℕ → ℕ → ℕ → Type 0
IsNext solve_time previous minimum next =
    (minimum ≤ next)
    × (next ≤ max minimum (max previous (previous * block_time_millis / solve_time)))

module _ (u : U256) where
  v1_lem :
      (solve_time previous p minimum : ℕ)
      → 0 < solve_time
      → previous < 2 ^ 128
      → p < 2 ^ 200
      → (next covariance : ℕ) × (v1_calculate_difficulty u solve_time previous p minimum
          ≡ some (next, covariance))
        × IsNext solve_time previous minimum next
  unfolding v1_calculate_difficulty ◌>>=◌
  v1_lem solve_time previous p minimum pos small hp =
      let z = previous / solve_time in
      let z_small : z ≤ previous = div_self_le previous solve_time in
      let (x, covariance, filtered, low, high) =
        kalman_filter_lem u z (previous / block_time_millis) p 32 (2 ^ 32 / 100 * 5) (omega arith)
          (omega arith) (omega arith) (omega (arith, z_small)) (omega arith) hp in
      let scale = div_scale previous solve_time block_time_millis pos in
      let fits : x * block_time_millis < 2 ^ 256 = omega (arith, high, z_small) in
      elim (Bool-cases (ltb (x * block_time_millis) minimum)) [
        | inl under ↦ (
          minimum,
          left_shift v1_config,
          rw
              (
                v1_calculate_difficulty,
                u.div_exact previous solve_time pos (omega arith),
                u.div_exact previous block_time_millis (omega arith) (omega arith),
                filtered,
                u.mul_exact x block_time_millis fits,
                under,
              )
              refl,
          (omega arith, omega arith),
        )
        | inr over ↦ (
          x * block_time_millis,
          covariance,
          rw
              (
                v1_calculate_difficulty,
                u.div_exact previous solve_time pos (omega arith),
                u.div_exact previous block_time_millis (omega arith) (omega arith),
                filtered,
                u.mul_exact x block_time_millis fits,
                over,
              )
              refl,
          (ground (arith, over), omega (arith, high, scale)),
        )
      ]

  v2_lem :
      (solve_time previous p minimum : ℕ)
      → 0 < solve_time
      → previous < 2 ^ 128
      → p < 2 ^ 200
      → (next covariance : ℕ) × (v2_calculate_difficulty u solve_time previous p minimum
          ≡ some (next, covariance))
        × IsNext solve_time previous minimum next
  unfolding v2_calculate_difficulty ◌>>=◌
  v2_lem solve_time previous p minimum pos small hp =
      let scaled = previous * millis_per_second in
      let z = scaled / solve_time in
      let z_small : z ≤ scaled = div_self_le scaled solve_time in
      let (x, covariance, filtered, low, high) =
        kalman_filter_lem u z (scaled / block_time_millis) p 20 (2 ^ 20 * 20 / millis_per_second)
          (omega arith) (omega arith) (omega arith) (omega (arith, z_small)) (omega arith) hp in
      let whole : scaled * 15 ≡ previous * block_time_millis = omega arith in
      let scale : scaled / solve_time * 15 ≤ previous * block_time_millis / solve_time =
        rw whole at (div_scale scaled solve_time 15 pos) in
      let fits : x * block_time_millis < 2 ^ 256 = omega (arith, high, z_small) in
      let next = x * block_time_millis / millis_per_second in
      elim (Bool-cases (ltb next minimum)) [
        | inl under ↦ (
          minimum,
          left_shift v2_config,
          rw
              (
                v2_calculate_difficulty,
                u.mul_exact previous millis_per_second (omega arith),
                u.div_exact scaled solve_time pos (omega arith),
                u.div_exact scaled block_time_millis (omega arith) (omega arith),
                filtered,
                u.mul_exact x block_time_millis fits,
                u.div_exact (x * block_time_millis) millis_per_second (omega arith) fits,
                under,
              )
              refl,
          (omega arith, omega arith),
        )
        | inr over ↦ (
          next,
          covariance,
          rw
              (
                v2_calculate_difficulty,
                u.mul_exact previous millis_per_second (omega arith),
                u.div_exact scaled solve_time pos (omega arith),
                u.div_exact scaled block_time_millis (omega arith) (omega arith),
                filtered,
                u.mul_exact x block_time_millis fits,
                u.div_exact (x * block_time_millis) millis_per_second (omega arith) fits,
                over,
              )
              refl,
          (ground (arith, over), omega (arith, high, scale)),
        )
      ]

  -- For a difficulty below 2 ^ 128 and a covariance below 2 ^ 200 the next difficulty is computed without a panic, in
  -- every version and for all timestamps. It is not below the minimum, and not above the largest of the
  -- minimum, the last difficulty, and the last one times 15 seconds over the time taken, which counts as 1 ms at least.
  pub calculate_difficulty_bounds :
      (parent timestamp previous p minimum : ℕ) (version : BlockVersion)
      → previous < 2 ^ 128
      → p < 2 ^ 200
      → (next covariance : ℕ) × (calculate_difficulty u parent timestamp previous p minimum version
          ≡ some (next, covariance))
        × IsNext (max ((timestamp + u64_mod - parent) % u64_mod) 1) previous minimum next
  unfolding calculate_difficulty
  calculate_difficulty_bounds parent timestamp previous p minimum v0 small hp =
      v1_lem _ previous p minimum (omega arith) small hp
  calculate_difficulty_bounds parent timestamp previous p minimum v1 small hp =
      v2_lem _ previous p minimum (omega arith) small hp
  calculate_difficulty_bounds parent timestamp previous p minimum v2 small hp =
      v2_lem _ previous p minimum (omega arith) small hp
  calculate_difficulty_bounds parent timestamp previous p minimum v3 small hp =
      v2_lem _ previous p minimum (omega arith) small hp

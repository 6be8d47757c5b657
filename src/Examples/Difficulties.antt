-- ===== src/Examples/Difficulties.antt =====
-- Integers that panic on every result from 2 ^ 256 on, below 0, or of a division by 0.
use blockchain_xelis.Prelude.{
  ℕ, ◌+◌, ◌-◌, ◌*◌, ◌/◌, ◌%◌, ◌^◌, ◌≤◌, ◌<◌, ◌≡◌, refl, min, max, true, Option, none, some, ltb,
  leb, if◌then◌else◌, arith, u64_mod,
}
use blockchain_xelis.Block.Version.{v1}
use blockchain_xelis.Daemon.Difficulty.{U256, move, kalman_filter, ◌>>=◌, calculate_difficulty}
use blockchain_xelis.Daemon.Difficulty.Estimate.{kalman_filter_lem}
use blockchain_xelis.Daemon.Difficulty.Next.{IsNext, calculate_difficulty_bounds}

abbrev fitting : ℕ → Option ℕ
fitting n = if ltb n (2 ^ 256) then some n else none

pub fitting_lem : (n : ℕ) → n < 2 ^ 256 → fitting n ≡ some n
fitting_lem n h = let test : ltb n (2 ^ 256) ≡ true = ground arith in rw (test) refl

div_small : (a b : ℕ) → a < 2 ^ 256 → a / b < 2 ^ 256
div_small a b h = grind arith

abbrev pub integers : U256
integers = record {
  add = λ a b. fitting (a + b);
  sub = λ a b. if leb b a then some (a - b) else none;
  mul = λ a b. fitting (a * b);
  div = λ a b. if ltb 0 b then some (a / b) else none;
  shl = λ a n. fitting (a * 2 ^ n);
  shr = λ a n. some (a / 2 ^ n);
  add_exact = λ a b h. fitting_lem (a + b) h;
  sub_exact = λ a b h k. let test : leb b a ≡ true = ground arith in rw (test) refl;
  mul_exact = λ a b h. fitting_lem (a * b) h;
  div_exact = λ a b h k. let test : ltb 0 b ≡ true = ground arith in rw (test) refl;
  shl_exact = λ a n h. fitting_lem (a * 2 ^ n) h;
  shr_exact = λ a n h. refl;
}

kalman_filter_lem_example :
    (estimate covariance : ℕ) × (kalman_filter integers 300 1 (2 ^ 32) 32 (2 ^ 32) 5
      ≡ some (estimate, covariance))
    × (min 300 1 ≤ estimate)
    × (estimate ≤ max 300 1)
kalman_filter_lem_example =
    kalman_filter_lem integers 300 1 (2 ^ 32) 32 5 (omega arith) (omega arith) (omega arith)
      (omega arith) (omega arith) (omega arith)

calculate_difficulty_bounds_example :
    (next covariance : ℕ) × (calculate_difficulty integers 1000 31_000 300_000 (2 ^ 20) 300_000 v1
      ≡ some (next, covariance))
    × IsNext (max ((31_000 + u64_mod - 1000) % u64_mod) 1) 300_000 300_000 next
calculate_difficulty_bounds_example =
    calculate_difficulty_bounds integers 1000 31_000 300_000 (2 ^ 20) 300_000 v1 (omega arith)
      (omega arith)

-- The first run of the unit test of difficulty/v1.rs.
kalman_filter_v1_test :
    kalman_filter integers 300 1 (2 ^ 32) 32 (2 ^ 32) (2 ^ 32 / 100 * 5) ≡ some (1, 4501837440)
unfolding kalman_filter move ◌>>=◌
kalman_filter_v1_test = refl

-- The first run of the unit test of difficulty/v2.rs.
kalman_filter_v2_test :
    kalman_filter integers 300 1 (2 ^ 20) 20 (2 ^ 20) (2 ^ 20 * 20 / 1000) ≡ some (1, 1067732)
unfolding kalman_filter move ◌>>=◌
kalman_filter_v2_test = refl

-- ===== src/Daemon/Difficulty/Estimate.antt =====
-- Bounds of the estimate of xelis_daemon/src/core/difficulty, for the numbers that occur.
use blockchain_xelis.Prelude.{
  ℕ, ◌+◌, ◌-◌, ◌*◌, ◌/◌, ◌^◌, ◌≤◌, ◌<◌, ◌≡◌, refl, min, max, some, leb, arith, Bool-cases, inl, inr,
}
use blockchain_xelis.Daemon.Difficulty.{U256, ◌>>=◌, move, kalman_filter}

pub mul_le : (a A b B : ℕ) → a ≤ A → b ≤ B → a * b ≤ A * B
mul_le a A b B h k = grind arith

mul_le' : (k n d : ℕ) → k ≤ n → k * d ≤ d * n
mul_le' k n d h = grind arith

widen : (a n : ℕ) → 0 < n → a ≤ a * n
widen a n h = grind arith

min_mul : (z x n : ℕ) → min z x * n ≤ min (z * n) (x * n)
min_mul z x n = grind (
  arith,
  mul_le (min z x) z n n (omega arith) (omega arith),
  mul_le (min z x) x n n (omega arith) (omega arith),
)

max_mul : (z x n : ℕ) → max (z * n) (x * n) ≤ max z x * n
max_mul z x n = grind (
  arith,
  mul_le z (max z x) n n (omega arith) (omega arith),
  mul_le x (max z x) n n (omega arith) (omega arith),
)

div_le : (a b n : ℕ) → 0 < n → a ≤ b * n → a / n ≤ b
div_le a b n h k = grind arith

pub le_div : (a b n : ℕ) → 0 < n → b * n ≤ a → b ≤ a / n
le_div a b n h k = grind arith

module _ (u : U256) where
  -- A gain `k` of at most one moves the estimate no further than the observed value.
  move_lem :
      (z x k shift : ℕ)
      → 0 < 2 ^ shift
      → 2 ^ shift ≤ 2 ^ 32
      → k ≤ 2 ^ shift
      → z < 2 ^ 200
      → x < 2 ^ 200
      → (e : ℕ) × (move u z x k shift ≡ some e) × (min z x ≤ e) × (e ≤ max z x)
  unfolding move ◌>>=◌
  move_lem z x k shift pos small gain hz hx = elim (Bool-cases (leb x z)) [
    | inl up ↦
        let below : x ≤ z = ground (arith, up) in
        let product = mul_le k (2 ^ 32) (z - x) (2 ^ 200) (omega arith) (omega arith) in
        let fits : k * (z - x) < 2 ^ 256 = omega (arith, product) in
        let step : k * (z - x) / 2 ^ shift ≤ z - x =
          div_le (k * (z - x)) (z - x) (2 ^ shift) pos (mul_le' k (2 ^ shift) (z - x) gain) in
        (
          x + k * (z - x) / 2 ^ shift,
          rw
              (
                move,
                up,
                u.sub_exact z x below (omega arith),
                u.mul_exact k (z - x) fits,
                u.shr_exact (k * (z - x)) shift fits,
                u.add_exact x (k * (z - x) / 2 ^ shift) (omega (arith, step)),
              )
              refl,
          omega (arith, step),
          omega (arith, step),
        )
    | inr down ↦
        let above : z ≤ x = ground (arith, down) in
        let product = mul_le k (2 ^ 32) (x - z) (2 ^ 200) (omega arith) (omega arith) in
        let fits : k * (x - z) < 2 ^ 256 = omega (arith, product) in
        let step : k * (x - z) / 2 ^ shift ≤ x - z =
          div_le (k * (x - z)) (x - z) (2 ^ shift) pos (mul_le' k (2 ^ shift) (x - z) gain) in
        (
          x - k * (x - z) / 2 ^ shift,
          rw
              (
                move,
                down,
                u.sub_exact x z above (omega arith),
                u.mul_exact k (x - z) fits,
                u.shr_exact (k * (x - z)) shift fits,
                u.sub_exact x (k * (x - z) / 2 ^ shift) (omega (arith, step)) (omega arith),
              )
              refl,
          omega (arith, step),
          omega (arith, step),
        )
  ]

  -- The filter, for a scale of at most 2 ^ 32 and for numbers well below 2 ^ 256, does not panic; the new estimate
  -- lies between the observed value and the old estimate.
  pub kalman_filter_lem :
      (z x p shift noise : ℕ)
      → 0 < 2 ^ shift
      → 2 ^ shift ≤ 2 ^ 32
      → noise ≤ 2 ^ 32
      → z < 2 ^ 140
      → x < 2 ^ 140
      → p < 2 ^ 200
      → (estimate covariance : ℕ) × (kalman_filter u z x p shift (2 ^ shift) noise
          ≡ some (estimate, covariance))
        × (min z x ≤ estimate)
        × (estimate ≤ max z x)
  unfolding kalman_filter ◌>>=◌
  kalman_filter_lem z x p shift noise pos small few hz hx hp =
      let n = 2 ^ shift in
      let zn : z * n < 2 ^ 172 =
        omega (arith, mul_le z (2 ^ 140 - 1) n (2 ^ 32) (omega arith) small) in
      let xn : x * n < 2 ^ 172 =
        omega (arith, mul_le x (2 ^ 140 - 1) n (2 ^ 32) (omega arith) small) in
      let noised : x * n * noise < 2 ^ 204 =
        omega (arith, mul_le (x * n) (2 ^ 172 - 1) noise (2 ^ 32) (omega arith) few) in
      let less : x * n * noise / n ≤ x * n * noise =
        div_le _ (x * n * noise) n pos (widen (x * n * noise) n pos) in
      let pred = x * n * noise / n + p in
      let pred_small : pred < 2 ^ 205 = omega (arith, less, noised) in
      let shifted : pred * n < 2 ^ 237 =
        omega (arith, mul_le pred (2 ^ 205 - 1) n (2 ^ 32) (omega arith) small) in
      let denominator = pred + z * n * 2 + 1 in
      let k = pred * n / denominator in
      let gain : k ≤ n =
        div_le (pred * n) n denominator (omega arith) (mul_le' pred denominator n (omega arith)) in
      let (e, moved, low, high) =
        move_lem (z * n) (x * n) k shift pos small gain (omega arith) (omega arith) in
      let rest : (n - k) * pred < 2 ^ 237 =
        omega (arith, mul_le (n - k) (2 ^ 32) pred (2 ^ 205 - 1) (omega arith) (omega arith)) in
      (
        e / n,
        (n - k) * pred / n,
        rw
            (
              kalman_filter,
              u.mul_exact z n (omega arith),
              u.mul_exact (z * n) 2 (omega arith),
              u.mul_exact x n (omega arith),
              u.mul_exact (x * n) noise (omega arith),
              u.shr_exact (x * n * noise) shift (omega arith),
              u.add_exact (x * n * noise / n) p (omega arith),
              u.shl_exact pred shift (omega arith),
              u.add_exact pred (z * n * 2) (omega arith),
              u.add_exact (pred + z * n * 2) 1 (omega arith),
              u.div_exact (pred * n) denominator (omega arith) (omega arith),
              moved,
              u.sub_exact n k gain (omega arith),
              u.mul_exact (n - k) pred (omega arith),
              u.shr_exact ((n - k) * pred) shift (omega arith),
              u.shr_exact e shift (omega arith),
            )
            refl,
        le_div e (min z x) n pos (omega (arith, min_mul z x n, low)),
        div_le e (max z x) n pos (omega (arith, max_mul z x n, high)),
      )

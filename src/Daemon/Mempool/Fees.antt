-- ===== src/Daemon/Mempool/Fees.antt =====
-- The fee rates of the memory pool: `internal_estimate_fee_rates` of xelis_daemon/src/core/mempool.rs.
use blockchain_xelis.Prelude.{
  ℕ, zero, suc, ◌+◌, ◌-◌, ◌*◌, ◌/◌, ◌%◌, ◌≤◌, ◌<◌, ◌≡◌, refl, sym, ap, Bool, true, ◌||◌, List, [],
  ◌∷◌, leb, ◌==◌, if◌then◌else◌, arith, All, length, take, drop, length-take, length-drop, All-take,
  insert_by, sort_by, IsSorted, sort_by-IsSorted, Bool-cases, u64_mod, inl, inr,
}
use mathlib.Core.Path.{subst}
use blockchain_xelis.Daemon.Rewards.{fee_per_kb}

pub record FeeRatesEstimated : Type 0 where
  pub high : ℕ
  pub medium : ℕ
  pub low : ℕ
  pub default : ℕ

abbrev pub larger_first : ℕ → ℕ → Bool
larger_first a b = leb b a

abbrev pub sum : List ℕ → ℕ
sum [] = 0
sum (x ∷ l) = x + sum l

unfoldable pub internal_estimate_fee_rates : List ℕ → FeeRatesEstimated
internal_estimate_fee_rates fee_rates =
    let len = length fee_rates in
    let high_priority_count = len * 30 / 100 in
    let normal_priority_count = len * 40 / 100 in
    let sorted = sort_by larger_first fee_rates in
    let others = drop high_priority_count sorted in
    if len == 0 || high_priority_count == 0 || normal_priority_count == 0
    then record { high = fee_per_kb; medium = fee_per_kb; low = fee_per_kb; default = fee_per_kb }
    else record {
      high = sum (take high_priority_count sorted) % u64_mod / high_priority_count;
      medium = sum (take normal_priority_count others) % u64_mod / normal_priority_count;
      low =
          sum (drop normal_priority_count others)
          % u64_mod
          / (len - high_priority_count - normal_priority_count);
      default = fee_per_kb;
    }

sum-insert : (a : ℕ) (l : List ℕ) → sum (insert_by larger_first a l) ≡ a + sum l
sum-insert a [] = refl
sum-insert a (b ∷ l) = elim (Bool-cases (larger_first a b)) [
  | inl e ↦ rw (e) refl
  | inr e ↦ rw (e) (omega (arith, sum-insert a l))
]

sum-sort : (l : List ℕ) → sum (sort_by larger_first l) ≡ sum l
sum-sort [] = refl
sum-sort (a ∷ l) = omega (arith, sum-insert a (sort_by larger_first l), sum-sort l)

length-insert : (a : ℕ) (l : List ℕ) → length (insert_by larger_first a l) ≡ suc (length l)
length-insert a [] = refl
length-insert a (b ∷ l) = elim (Bool-cases (larger_first a b)) [
  | inl e ↦ rw (e) refl
  | inr e ↦ rw (e) (ap suc (length-insert a l))
]

length-sort : (l : List ℕ) → length (sort_by larger_first l) ≡ length l
length-sort [] = refl
length-sort (a ∷ l) = omega (arith, length-insert a (sort_by larger_first l), length-sort l)

sum-take-drop : (n : ℕ) (l : List ℕ) → sum (take n l) + sum (drop n l) ≡ sum l
sum-take-drop zero l = omega arith
sum-take-drop (suc n) [] = omega arith
sum-take-drop (suc n) (x ∷ l) = omega (arith, sum-take-drop n l)

sum-above : (p : ℕ) (l : List ℕ) → All (λ x. p ≤ x) l → p * length l ≤ sum l
sum-above p [] all = omega arith
sum-above p (x ∷ l) (first, all) = let ih = sum-above p l all in grind (arith, ih, first)

sum-below : (p : ℕ) (l : List ℕ) → All (λ x. x ≤ p) l → sum l ≤ p * length l
sum-below p [] all = omega arith
sum-below p (x ∷ l) (first, all) = let ih = sum-below p l all in grind (arith, ih, first)

-- What is before a place of a sorted list is at least, and what is after it at most, what stands there.
record IsPivot (p : ℕ) (before after : List ℕ) : Type 0 where
  above : All (λ x. p ≤ x) before
  under : All (λ x. x ≤ p) after

All-larger :
    (x p : ℕ) (n : ℕ) (l r : List ℕ)
    → All (λ b. larger_first x b ≡ true) l
    → drop n l ≡ p ∷ r
    → p ≤ x
All-larger x p zero l r all e =
    let first = (subst (λ (m : List ℕ). All (λ b. larger_first x b ≡ true) m) e all).0 in
    ground (arith, first)
All-larger x p (suc n) [] r all e = absurd (ground (arith, e))
All-larger x p (suc n) (y ∷ l) r all e = All-larger x p n l r all.1 e

IsSorted-below : (p : ℕ) (r : List ℕ) → All (λ b. larger_first p b ≡ true) r → All (λ x. x ≤ p) r
IsSorted-below p [] all = tt
IsSorted-below p (x ∷ r) (first, all) = (ground (arith, first), IsSorted-below p r all)

IsPivot-drop :
    (n p : ℕ) (l r : List ℕ)
    → IsSorted larger_first l
    → drop n l ≡ p ∷ r
    → IsPivot p (take n l) (p ∷ r)
IsPivot-drop zero p l r s e =
    let s' = subst (λ (m : List ℕ). IsSorted larger_first m) e s in
    record { above = tt; under = (omega arith, IsSorted-below p r s'.0) }
IsPivot-drop (suc n) p [] r s e = absurd (ground (arith, e))
IsPivot-drop (suc n) p (x ∷ l) r s e =
    let rest = IsPivot-drop n p l r s.1 e in
    record { above = (All-larger x p n l r s.0 e, rest.above); under = rest.under }

IsSorted-drop : (n : ℕ) (l : List ℕ) → IsSorted larger_first l → IsSorted larger_first (drop n l)
IsSorted-drop zero l s = s
IsSorted-drop (suc n) [] s = tt
IsSorted-drop (suc n) (x ∷ l) s = IsSorted-drop n l s.1

average-above :
    (p n : ℕ) (l : List ℕ)
    → length l ≡ n
    → 0 < n
    → sum l < u64_mod
    → All (λ x. p ≤ x) l
    → p ≤ sum l % u64_mod / n
average-above p n l size positive small all =
    let wrap : sum l % u64_mod ≡ sum l = omega arith in
    let bound = sum-above p l all in rw (wrap) (grind (arith, bound, size))

average-below :
    (p n : ℕ) (l : List ℕ)
    → length l ≡ n
    → 0 < n
    → sum l < u64_mod
    → All (λ x. x ≤ p) l
    → sum l % u64_mod / n ≤ p
average-below p n l size positive small all =
    let wrap : sum l % u64_mod ≡ sum l = omega arith in
    let bound = sum-below p l all in rw (wrap) (grind (arith, bound, size))

first_of : (l : List ℕ) → 0 < length l → (x : ℕ) × (rest : List ℕ) × (l ≡ x ∷ rest)
first_of [] h = absurd (omega arith)
first_of (x ∷ rest) h = (x, rest, refl)

All-take_below : (p n : ℕ) (l : List ℕ) → All (λ x. x ≤ p) l → All (λ x. x ≤ p) (take n l)
All-take_below p n l all = All-take (λ x. x ≤ p) n l all

-- Of fee rates that sum up to less than 2 ^ 64, the estimate of a higher priority is not below that of a lower one.
pub estimate_fee_rates_order :
    (fee_rates : List ℕ)
    → sum fee_rates < u64_mod
    → ((internal_estimate_fee_rates fee_rates).medium
        ≤ (internal_estimate_fee_rates fee_rates).high)
      × ((internal_estimate_fee_rates fee_rates).low
          ≤ (internal_estimate_fee_rates fee_rates).medium)
unfolding internal_estimate_fee_rates
estimate_fee_rates_order fee_rates small =
    let len = length fee_rates in
    let h = len * 30 / 100 in
    let n = len * 40 / 100 in
    let sorted = sort_by larger_first fee_rates in
    let others = drop h sorted in
    elim (Bool-cases (len == 0 || h == 0 || n == 0)) [
      | inl few ↦ rw (internal_estimate_fee_rates, few) (omega arith, omega arith)
      | inr many ↦
          let positive : (0 < len) × (0 < h) × (0 < n) = ground (arith, many) in
          let size = length-sort fee_rates in
          let total = sum-sort fee_rates in
          let is_sorted : IsSorted larger_first sorted =
            sort_by-IsSorted larger_first (λ a b e. ground (arith, e))
              (λ a b c e f. ground (arith, e, f)) fee_rates in
          let parts = sum-take-drop h sorted in
          let shares = sum-take-drop n others in
          let left = length-drop h sorted in
          let rest = length-drop n others in
          let (p, r, at_p) = first_of others (omega (arith, left, size, positive.0)) in
          let (q, s, at_q) =
            first_of (drop n others) (omega (arith, left, rest, size, positive.0)) in
          let top = IsPivot-drop h p sorted r is_sorted at_p in
          let low = IsPivot-drop n q others s (IsSorted-drop h sorted is_sorted) at_q in
          let under = subst (λ (l : List ℕ). All (λ x. x ≤ p) l) (sym at_p) top.under in
          let last = subst (λ (l : List ℕ). All (λ x. x ≤ q) l) (sym at_q) low.under in
          let mid_size = length-take n others (omega (arith, left, size)) in
          let high_bound =
            average-above p h (take h sorted) (length-take h sorted (omega (arith, size)))
              positive.1 (omega (arith, parts, total, small)) top.above in
          let mid_below =
            average-below p n (take n others) mid_size positive.2
              (omega (arith, parts, shares, total, small)) (All-take_below p n others under) in
          let mid_above =
            average-above q n (take n others) mid_size positive.2
              (omega (arith, parts, shares, total, small)) low.above in
          let low_bound =
            average-below q (len - h - n) (drop n others) (omega (arith, left, rest, size))
              (omega (arith, positive.0)) (omega (arith, parts, shares, total, small)) last in
          rw (internal_estimate_fee_rates, many)
            (omega (arith, high_bound, mid_below), omega (arith, mid_above, low_bound))
    ]

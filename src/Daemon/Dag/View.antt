-- ===== src/Daemon/Dag/View.antt =====
-- A storage that knows its blocks, as the walks of xelis_daemon/src/core/blockchain.rs rely on it: a block has at most
-- 3 tips (`TIPS_LIMIT`), and its height is above those of its tips.
use blockchain_xelis.Prelude.{
  ℕ, zero, suc, ◌+◌, ◌*◌, ◌≤◌, ◌<◌, ◌≡◌, true, List, [], ◌∷◌, Option, ok, arith, length, All,
}
use blockchain_xelis.Daemon.BlockDag.{Hash}
use blockchain_xelis.Block.Header.{tips_limit}
use blockchain_xelis.Daemon.Dag.{DagProvider}

pub record View {E : Type 0} (provider : DagProvider E) : Type 0 where
  pub height_of : Hash → ℕ
  pub topoheight_of : Hash → ℕ
  pub tips_of : Hash → List Hash
  pub blocks_at : ℕ → List Hash
  pub difficulty_of : Hash → ℕ
  pub work_of : Hash → ℕ
  pub pruned : Option ℕ
  pub heights : (h : Hash) → provider.get_height_for_block_hash h ≡ ok (height_of h)
  pub topoheights :
      (h : Hash)
      → provider.is_block_topological_ordered h ≡ true
      → provider.get_topo_height_for_hash h ≡ ok (topoheight_of h)
  pub tips : (h : Hash) → provider.get_past_blocks_for_block_hash h ≡ ok (tips_of h)
  pub blocks : (n : ℕ) → provider.get_blocks_at_height n ≡ ok (blocks_at n)
  pub difficulties : (h : Hash) → provider.get_difficulty_for_block_hash h ≡ ok (difficulty_of h)
  pub works : (h : Hash) → provider.get_cumulative_difficulty_for_block_hash h ≡ ok (work_of h)
  pub prunes : provider.get_pruned_topoheight ≡ ok pruned
  pub few : (h : Hash) → length (tips_of h) ≤ tips_limit
  pub below : (h : Hash) → All (λ tip. height_of tip < height_of h) (tips_of h)

-- The fuel that a walk from a block of a height needs, and the one that a stack needs.
unfoldable pub weight_at : ℕ → ℕ
weight_at zero = 5
weight_at (suc height) = 5 * weight_at height

unfoldable pub stack_weight : (Hash → ℕ) → List Hash → ℕ
unfolding weight_at
stack_weight height_of [] = 0
stack_weight height_of (hash ∷ stack) = weight_at (height_of hash) + stack_weight height_of stack

pub weight_at-bound : (h : ℕ) → 5 ≤ weight_at h
unfolding weight_at
weight_at-bound zero = omega arith
weight_at-bound (suc h) = omega (arith, weight_at-bound h)

pub weight_at_mono : (a b : ℕ) → a ≤ b → weight_at a ≤ weight_at b
unfolding weight_at
weight_at_mono zero b l = weight_at-bound b
weight_at_mono (suc a) zero l = absurd (omega arith)
weight_at_mono (suc a) (suc b) l = omega (arith, weight_at_mono a b (omega arith))

stack_weight-tips_lem :
    (height_of : Hash → ℕ) (h : ℕ) (l : List Hash)
    → All (λ tip. height_of tip < h) l
    → 5 * stack_weight height_of l ≤ length l * weight_at h
unfolding stack_weight weight_at
stack_weight-tips_lem height_of h [] all = omega arith
stack_weight-tips_lem height_of h (tip ∷ l) (first, all) =
    let step = weight_at_mono (suc (height_of tip)) h (omega (arith, first)) in
    grind (arith, step, stack_weight-tips_lem height_of h l all)

-- The tips of a block and one round more weigh less than the block.
pub stack_weight-tips :
    (height_of : Hash → ℕ) (h : ℕ) (l : List Hash)
    → length l ≤ 3
    → All (λ tip. height_of tip < h) l
    → stack_weight height_of l + 1 < weight_at h
stack_weight-tips height_of h l few all =
    let product : length l * weight_at h ≤ 3 * weight_at h = grind (arith, few) in
    omega (arith, product, weight_at-bound h, stack_weight-tips_lem height_of h l all)

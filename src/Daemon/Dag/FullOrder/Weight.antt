-- ===== src/Daemon/Dag/FullOrder/Weight.antt =====
-- The fuel that the loop of `generate_full_order` of xelis_daemon/src/core/blockchain.rs spends.
use blockchain_xelis.Prelude.{◌+◌, ◌≤◌, ℕ, List, [], ◌∷◌, ◌++◌, arith, if◌then◌else◌}
use blockchain_xelis.Daemon.BlockDag.{Hash, contains}
use blockchain_xelis.Daemon.Dag.View.{weight_at, weight_at-bound, stack_weight}

-- A processed block waits only to be put in the order.
unfoldable pub order_weight : (Hash → ℕ) → List Hash → List Hash → ℕ
unfolding contains weight_at
order_weight height_of processed [] = 0
order_weight height_of processed (hash ∷ stack) =
    (if contains processed hash then 1 else weight_at (height_of hash))
    + order_weight height_of processed stack

pub order_weight-process :
    (height_of : Hash → ℕ) (x : Hash) (p s : List Hash)
    → order_weight height_of (x ∷ p) s ≤ order_weight height_of p s
unfolding order_weight contains
order_weight-process height_of x p [] = omega arith
order_weight-process height_of x p (y ∷ s) =
    let heavy = weight_at-bound (height_of y) in
    ground (arith, order_weight-process height_of x p s, heavy)

pub order_weight-push :
    (height_of : Hash → ℕ) (p q s : List Hash)
    → order_weight height_of p (q ++ s) ≤ stack_weight height_of q + order_weight height_of p s
unfolding order_weight stack_weight
order_weight-push height_of p [] s = omega arith
order_weight-push height_of p (y ∷ q) s =
    let heavy = weight_at-bound (height_of y) in
    ground (arith, order_weight-push height_of p q s, heavy)

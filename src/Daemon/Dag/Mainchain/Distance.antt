-- ===== src/Daemon/Dag/Mainchain/Distance.antt =====
-- The distance of a block from the main chain in xelis_daemon/src/core/blockchain.rs, on a storage that knows its blocks.
use blockchain_xelis.Prelude.{
  ℕ, ◌+◌, ◌-◌, ◌≤◌, ◌<◌, ◌≡◌, ◌⊎◌, ◌↔◌, inl, inr, refl, Bool, true, false, not, ◌&&◌, some, leb, ok,
  arith, u64_mod, Bool-cases,
}
use blockchain_xelis.Daemon.BlockDag.{Hash}
use blockchain_xelis.Daemon.SideBlock.{stable_limit}
use blockchain_xelis.Daemon.Dag.{DagProvider}
use blockchain_xelis.Daemon.Dag.View.{View, weight_at}
use blockchain_xelis.Daemon.Dag.Mainchain.{
  calculate_distance_from_mainchain, verify_distance_from_mainchain,
}
use blockchain_xelis.Daemon.Dag.Mainchain.Lowest.{IsFound, find_lowest_height_lem}

module _ {E : Type 0} (provider : DagProvider E) (view : View provider) where
  open view use {height_of, heights}
  open provider use {is_block_topological_ordered as is_ordered}

  -- The blocks of the main chain that a block is measured from: itself, if it is ordered.
  abbrev pub IsAnchor : Hash → Hash → Type 0
  IsAnchor hash x =
      ((is_ordered hash ≡ true) × (x ≡ hash))
      ⊎ ((is_ordered hash ≡ false) × IsFound provider view hash x)

  -- On a storage that knows its blocks, with as much fuel as the height of the block asks for and at a height of 64 bits, the test has an answer: a block is close enough
  -- exactly if the height is less than 8 above each block of the main chain that it stands on.
  pub verify_distance_iff :
      (fuel : ℕ) (hash : Hash) (height : ℕ)
      → weight_at (height_of hash) ≤ fuel
      → height < u64_mod
      → (b : Bool) × (verify_distance_from_mainchain provider fuel hash height ≡ some (ok b))
        × ((b ≡ true) ↔ ((x : Hash) → IsAnchor hash x → height < height_of x + stable_limit))
  unfolding verify_distance_from_mainchain calculate_distance_from_mainchain
  verify_distance_iff fuel hash height enough small = elim (Bool-cases (is_ordered hash)) [
    | inl o ↦ (
      not (leb (height_of hash) height && leb stable_limit (height - height_of hash)),
      rw (verify_distance_from_mainchain, calculate_distance_from_mainchain, o, heights hash) refl,
      (
        (λ e x a. elim a [
          | inl (yes_ordered, same) ↦ rw (same) (ground (arith, e))
          | inr (u, f) ↦ absurd (ground (arith, o, u))
        ]),
        (λ f. let near = f hash (inl (o, refl)) in ground (arith, near)),
      ),
    )
    | inr u ↦
        let (m, run, lowest, attained) = find_lowest_height_lem provider view fuel hash enough in
        (
          not (leb m height && leb stable_limit (height - m)),
          rw (verify_distance_from_mainchain, calculate_distance_from_mainchain, u, run) refl,
          (
            (λ e x a. elim a [
              | inl (o, same) ↦ absurd (ground (arith, o, u))
              | inr (v, f) ↦ let l = lowest x f in ground (arith, e, l)
            ]),
            (λ f. elim attained [
              | inl far ↦ ground (arith, far, small)
              | inr (x, found, e) ↦ let near = f x (inr (u, found)) in ground (arith, near, e)
            ]),
          ),
        )
  ]

-- ===== src/Daemon/SideBlock/Search.antt =====
-- What makes an ordered block a side block, and its reward (xelis_daemon/src/core/blockchain.rs).
use blockchain_xelis.Prelude.{
  ℕ, zero, suc, ◌+◌, ◌-◌, ◌*◌, ◌/◌, ◌≤◌, ◌<◌, ◌≡◌, ◌↔◌, refl, ap, ◌∙◌, All, not, ◌&&◌, Bool, true,
  false, List, [], ◌∷◌, ltb, leb, ◌==◌, if◌then◌else◌, ok, arith, ◌||◌, ℕ_discrete, Bool-cases, inl,
  inr,
}
use mathlib.Core.Path.{subst}
use blockchain_xelis.Daemon.BlockDag.{Hash, hash_beq}
use blockchain_xelis.Daemon.SideBlock.{
  Provider, search_loop, is_side_block_internal, count_loop, get_reward_of_block, stable_limit,
}
use blockchain_xelis.Daemon.Rewards.{get_block_reward, internal_get_block_reward}
use blockchain_xelis.Daemon.Rewards.Emission.{side_block_reward_percentage_lem}

module _ {E : Type 0} (provider : Provider E) (hash_at : ℕ → Hash) (height_at : ℕ → ℕ) where
  -- The storage answers for the blocks ordered up to topoheight `i`, the genesis block excepted.
  abbrev pub IsKnownUpTo : ℕ → Type 0
  IsKnownUpTo i =
      (j : ℕ)
      → 0 < j
      → j ≤ i
      → (provider.get_hash_at_topo_height j ≡ ok (hash_at j))
        × (provider.get_height_for_block_hash (hash_at j) ≡ ok (height_at j))

  -- One of the `left` blocks up to topoheight `i`, the genesis block excepted, is as high.
  abbrev pub IsTopped : ℕ → ℕ → ℕ → Type 0
  IsTopped height left i = (j : ℕ) × (0 < j) × (j ≤ i) × (i < j + left) × (height ≤ height_at j)

  search_loop_lem :
      (height left i : ℕ)
      → IsKnownUpTo i
      → (found : Bool) × (search_loop provider height left i ≡ ok found)
        × ((found ≡ true) → IsTopped height left i)
        × (IsTopped height left i → found ≡ true)
  unfolding search_loop
  search_loop_lem height zero i known =
      (false, refl, (λ e. ground arith), (λ t. absurd (omega (arith, t.2, t.3))))
  search_loop_lem height (suc left) zero known =
      (false, refl, (λ e. ground arith), (λ t. absurd (omega (arith, t.1, t.2))))
  search_loop_lem height (suc left) (suc i) known =
      let (at, high) = known (suc i) (omega arith) (omega arith) in
      elim (Bool-cases (leb height (height_at (suc i)))) [
        | inl above ↦ (
          true,
          rw (search_loop, at, high, above) refl,
          (λ e. (suc i, omega arith, omega arith, omega arith, ground (arith, above))),
          (λ t. refl),
        )
        | inr below ↦
            let (found, run, into, back) =
              search_loop_lem height left i (λ j p q. known j p (omega (arith, q))) in
            (
              found,
              rw (search_loop, at, high, below) run,
              (λ e. let t = into e in (t.0, t.1, omega (arith, t.2), omega (arith, t.3), t.4)),
              (λ t. elim (ℕ_discrete t.0 (suc i)) [
                | yes here ↦
                    let as_high : height ≤ height_at (suc i) =
                      subst (λ (j : ℕ). height ≤ height_at j) here t.4 in
                    absurd (ground (arith, below, as_high))
                | no before ↦
                    back (t.0, t.1, omega (arith, t.2, before), omega (arith, t.3, before), t.4)
              ]),
            )
      ]

  -- On a storage that answers for an ordered block and for the blocks ordered before it, the search has an answer, and
  -- the block is a side block exactly if its topoheight is above 0 and not above the chain's, and one of the 8 blocks
  -- ordered before it, the genesis block excepted, is as high.
  pub is_side_block_internal_iff :
      (hash : Hash) (current topoheight height : ℕ)
      → provider.is_block_topological_ordered hash ≡ true
      → provider.get_topo_height_for_hash hash ≡ ok topoheight
      → provider.get_height_for_block_hash hash ≡ ok height
      → IsKnownUpTo (topoheight - 1)
      → (side : Bool) × (is_side_block_internal provider hash current ≡ ok side)
        × ((side ≡ true) ↔ (
            (0 < topoheight)
            × (topoheight ≤ current)
            × IsTopped height stable_limit (topoheight - 1)))
  unfolding is_side_block_internal
  is_side_block_internal_iff hash current topoheight height is_ordered ordered at_height known =
      let (found, run, into, back) = search_loop_lem height stable_limit (topoheight - 1) known in
      elim (Bool-cases (topoheight == 0 || ltb current topoheight)) [
        | inl outside ↦ (
          false,
          rw (is_side_block_internal, is_ordered, ordered, outside) refl,
          ((λ e. ground arith), (λ t. ground (arith, outside, t.0, t.1))),
        )
        | inr inside ↦ (
          found,
          rw (is_side_block_internal, is_ordered, ordered, inside, at_height) run,
          ((λ e. (ground (arith, inside), ground (arith, inside), into e)), (λ t. back t.2)),
        )
      ]

-- How many of the blocks, other than `hash`, are side blocks.
abbrev pub side_blocks_beside : Hash → (Hash → Bool) → List Hash → ℕ
side_blocks_beside hash is_side [] = 0
side_blocks_beside hash is_side (block ∷ rest) =
    let others = side_blocks_beside hash is_side rest in
    if not (hash_beq hash block) && is_side block then others + 1 else others

module _ {E : Type 0} (provider : Provider E) (is_side : Hash → Bool) where
  -- For each of the blocks, other than `hash`, the search finds out whether it is a side block.
  abbrev pub IsFoundOut : Hash → ℕ → List Hash → Type 0
  IsFoundOut hash current = All (λ block.
      hash_beq hash block ≡ false
      → is_side_block_internal provider block current ≡ ok (is_side block))

  count_loop_lem :
      (hash : Hash) (current : ℕ) (l : List Hash) (before : ℕ)
      → IsFoundOut hash current l
      → count_loop provider hash current l before ≡ ok (before + side_blocks_beside hash is_side l)
  unfolding count_loop
  count_loop_lem hash current [] before found = ap ok (omega arith)
  count_loop_lem hash current (block ∷ rest) before (found, others) =
      elim (Bool-cases (hash_beq hash block)) [
        | inl same ↦ rw (count_loop, same) (count_loop_lem hash current rest before others)
        | inr different ↦ elim (Bool-cases (is_side block)) [
          | inl side ↦
              rw (count_loop, different, found different, side)
                (count_loop_lem hash current rest (before + 1) others ∙ ap ok (omega arith))
          | inr main ↦
              rw (count_loop, different, found different, main)
                (count_loop_lem hash current rest before others)
        ]
      ]

  -- A block that is not a side block of the chain gets the whole reward. A side block gets 30%, 15% or 7% of it
  -- where none, one or two of the other blocks at its height are side blocks at the current topoheight, and 5%
  -- where more are; the search is to find out for each of these other blocks whether it is one.
  pub get_reward_of_block_lem :
      (top : ℕ) (hash : Hash) (past_supply current height : ℕ) (blocks : List Hash) (side : Bool)
      → is_side_block_internal provider hash top ≡ ok side
      → provider.get_height_for_block_hash hash ≡ ok height
      → provider.get_blocks_at_height height ≡ ok blocks
      → IsFoundOut hash current blocks
      → get_reward_of_block provider top hash past_supply current
        ≡ ok (
            if side
            then (let count = side_blocks_beside hash is_side blocks in
                get_block_reward past_supply
                * (if count == 0
                    then 30
                    else (if count == 1 then 15 else (if count == 2 then 7 else 5)))
                / 100)
            else get_block_reward past_supply)
  unfolding get_reward_of_block internal_get_block_reward
  get_reward_of_block_lem top hash past_supply current height blocks side run at_height among
        found =
      let count = side_blocks_beside hash is_side blocks in
      let from_zero : 0 + count ≡ count = omega arith in
      elim (Bool-cases side) [
        | inl is_side_block ↦
            rw
              (
                get_reward_of_block,
                run,
                is_side_block,
                at_height,
                among,
                count_loop_lem hash current blocks 0 found,
                from_zero,
                side_block_reward_percentage_lem count,
              )
              refl
        | inr is_main ↦ rw (get_reward_of_block, run, is_main) refl
      ]

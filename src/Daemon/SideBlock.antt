-- ===== src/Daemon/SideBlock.antt =====
-- Side blocks and their rewards: `is_side_block_internal`, `has_block_stable_order` and the method
-- `get_block_reward` of xelis_daemon/src/core/blockchain.rs. The storage is a parameter.
pub mod Search
use blockchain_xelis.Prelude.{
  ℕ, zero, suc, ◌+◌, ◌-◌, ◌%◌, Bool, true, false, not, List, [], ◌∷◌, ltb, leb, ◌==◌, ◌||◌,
  if◌then◌else◌, Result, ok, err, u64_mod,
}
use blockchain_xelis.Daemon.BlockDag.{Hash, hash_beq}
use blockchain_xelis.Daemon.Rewards.{internal_get_block_reward}

abbrev pub stable_limit : ℕ
stable_limit = 8

-- What the storage answers.
pub record Provider (E : Type 0) : Type 0 where
  pub is_block_topological_ordered : Hash → Bool
  pub get_topo_height_for_hash : Hash → Result E ℕ
  pub get_height_for_block_hash : Hash → Result E ℕ
  pub get_hash_at_topo_height : ℕ → Result E Hash
  pub get_blocks_at_height : ℕ → Result E (List Hash)

module _ {E : Type 0} (provider : Provider E) where
  -- The loop over the blocks before: `left` is what the counter lacks of the limit, and it stops before
  -- topoheight 0.
  unfoldable pub search_loop : ℕ → ℕ → ℕ → Result E Bool
  search_loop height zero i = ok false
  search_loop height (suc left) zero = ok false
  search_loop height (suc left) (suc i) = elim (provider.get_hash_at_topo_height (suc i)) [
    | err e ↦ err e
    | ok hash ↦ elim (provider.get_height_for_block_hash hash) [
      | err e ↦ err e
      | ok previous_height ↦
          if leb height previous_height then ok true else search_loop height left i
    ]
  ]

  unfoldable pub is_side_block_internal : Hash → ℕ → Result E Bool
  unfolding search_loop
  is_side_block_internal hash current_topoheight =
      if not (provider.is_block_topological_ordered hash)
      then ok false
      else elim (provider.get_topo_height_for_hash hash) [
        | err e ↦ err e
        | ok topoheight ↦
            if topoheight == 0 || ltb current_topoheight topoheight
            then ok false
            else elim (provider.get_height_for_block_hash hash) [
              | err e ↦ err e
              | ok height ↦ search_loop height stable_limit (topoheight - 1)
            ]
      ]

  unfoldable pub has_block_stable_order : Hash → ℕ → Result E Bool
  has_block_stable_order hash topoheight =
      if provider.is_block_topological_ordered hash
      then elim (provider.get_topo_height_for_hash hash) [
        | err e ↦ err e
        | ok block_topo_height ↦ ok (leb ((block_topo_height + stable_limit) % u64_mod) topoheight)
      ]
      else ok false

  -- The loop over the blocks at the same height.
  unfoldable pub count_loop : Hash → ℕ → List Hash → ℕ → Result E ℕ
  unfolding is_side_block_internal hash_beq
  count_loop hash current_topoheight [] side_blocks_count = ok side_blocks_count
  count_loop hash current_topoheight (block ∷ rest) side_blocks_count =
      if hash_beq hash block
      then count_loop hash current_topoheight rest side_blocks_count
      else elim (is_side_block_internal block current_topoheight) [
        | err e ↦ err e
        | ok side ↦
            count_loop hash current_topoheight rest
              (if side then side_blocks_count + 1 else side_blocks_count)
      ]

  -- The method `get_block_reward`; `top` is the topoheight of the chain.
  unfoldable pub get_reward_of_block : ℕ → Hash → ℕ → ℕ → Result E ℕ
  unfolding count_loop internal_get_block_reward
  get_reward_of_block top hash past_supply current_topoheight =
      elim (is_side_block_internal hash top) [
        | err e ↦ err e
        | ok false ↦ ok (internal_get_block_reward past_supply false 0)
        | ok true ↦ elim (provider.get_height_for_block_hash hash) [
          | err e ↦ err e
          | ok height ↦ elim (provider.get_blocks_at_height height) [
            | err e ↦ err e
            | ok blocks_at_height ↦ elim (count_loop hash current_topoheight blocks_at_height 0) [
              | err e ↦ err e
              | ok side_blocks_count ↦
                  ok (internal_get_block_reward past_supply true side_blocks_count)
            ]
          ]
        ]
      ]

-- ===== src/Examples/SideBlocks.antt =====
-- A storage whose block at topoheight `i` has the hash `i` and stands at height `i / 2`.
use blockchain_xelis.Prelude.{
  ℕ, ◌+◌, ◌-◌, ◌*◌, ◌/◌, ◌≤◌, ◌<◌, ◌≡◌, ◌↔◌, refl, Bool, true, List, [], ◌∷◌, ok, ◌==◌,
  if◌then◌else◌, arith,
}
use blockchain_xelis.Daemon.BlockDag.{Hash, hash_beq}
use blockchain_xelis.Daemon.Rewards.{get_block_reward}
use blockchain_xelis.Daemon.SideBlock.{
  Provider, is_side_block_internal, get_reward_of_block, search_loop, stable_limit,
}
use blockchain_xelis.Daemon.SideBlock.Search.{
  is_side_block_internal_iff, get_reward_of_block_lem, side_blocks_beside,
}

abbrev topoheight_of : Hash → ℕ
topoheight_of [] = 0
topoheight_of (i ∷ rest) = i

abbrev height_of : Hash → ℕ
height_of hash = topoheight_of hash / 2

abbrev hash_at : ℕ → Hash
hash_at i = i ∷ []

abbrev blocks_at : ℕ → List Hash
blocks_at height = hash_at (height * 2) ∷ hash_at (height * 2 + 1) ∷ []

abbrev storage : Provider ℕ
storage = record {
  is_block_topological_ordered = λ hash. true;
  get_topo_height_for_hash = λ hash. ok (topoheight_of hash);
  get_height_for_block_hash = λ hash. ok (height_of hash);
  get_hash_at_topo_height = λ i. ok (hash_at i);
  get_blocks_at_height = λ height. ok (blocks_at height);
}

is_side_block_internal_iff_example :
    (side : Bool) × (is_side_block_internal storage (hash_at 5) 9 ≡ ok side)
    × ((side ≡ true) ↔ (
        (0 < 5)
        × (5 ≤ 9)
        × ((j : ℕ) × (0 < j) × (j ≤ 5 - 1) × (5 - 1 < j + stable_limit) × (2 ≤ j / 2))))
is_side_block_internal_iff_example =
    is_side_block_internal_iff storage hash_at (λ i. i / 2) (hash_at 5) 9 5 2 refl refl refl
      (λ j p q. (refl, refl))

-- Of the blocks at height 2, those at topoheights 4 and 5, the second is a side block.
abbrev is_side : Hash → Bool
is_side hash = topoheight_of hash == 5

get_reward_of_block_lem_example :
    get_reward_of_block storage 9 (hash_at 5) 0 9
    ≡ ok (
        if true
        then (let count = side_blocks_beside (hash_at 5) is_side (blocks_at 2) in
            get_block_reward 0
            * (if count == 0
                then 30
                else (if count == 1 then 15 else (if count == 2 then 7 else 5)))
            / 100)
        else get_block_reward 0)
unfolding is_side_block_internal search_loop hash_beq
get_reward_of_block_lem_example =
    get_reward_of_block_lem storage is_side 9 (hash_at 5) 0 9 2 (blocks_at 2) true refl refl refl
      ((λ e. refl), ((λ e. absurd (ground (arith, e))), tt))

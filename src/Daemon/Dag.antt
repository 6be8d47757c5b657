-- ===== src/Daemon/Dag.antt =====
-- The order of the DAG: `is_sync_block_at_height`, `validate_tips` and the walks over past blocks of
-- xelis_daemon/src/core/blockchain.rs.
-- The storage is a parameter. A walk over past blocks runs on fuel, which `none` says is spent.
pub mod View
pub mod Heaviest
pub mod Sync
pub mod Mainchain
pub mod Reachability
pub mod Lru
pub mod FullOrder
pub mod WorkScore
use blockchain_xelis.Prelude.{
  ℕ, zero, suc, ◌+◌, ◌-◌, ◌*◌, ◌/◌, ◌%◌, Bool, true, false, not, ◌&&◌, ◌||◌, List, [], ◌∷◌, Option,
  none, some, ltb, leb, ◌==◌, if◌then◌else◌, Result, ok, err, u64_mod,
}
use blockchain_xelis.Daemon.BlockDag.{Hash, hash_beq, collect_onto}
use blockchain_xelis.Daemon.SideBlock.{stable_limit}
use blockchain_xelis.Daemon.Difficulty.{U256, ◌>>=◌}

-- What the storage answers.
pub record DagProvider (E : Type 0) : Type 0 where
  pub is_block_topological_ordered : Hash → Bool
  pub get_topo_height_for_hash : Hash → Result E ℕ
  pub get_height_for_block_hash : Hash → Result E ℕ
  pub get_blocks_at_height : ℕ → Result E (List Hash)
  pub get_past_blocks_for_block_hash : Hash → Result E (List Hash)
  pub get_difficulty_for_block_hash : Hash → Result E ℕ
  pub get_cumulative_difficulty_for_block_hash : Hash → Result E ℕ
  pub get_pruned_topoheight : Result E (Option ℕ)

module _ {E : Type 0} (provider : DagProvider E) where
  -- The loop over the blocks at the height of `hash`: another one is ordered.
  unfoldable pub other_ordered : Hash → List Hash → Bool
  unfolding hash_beq
  other_ordered hash [] = false
  other_ordered hash (hash_at_height ∷ rest) =
      let later = other_ordered hash rest in
      if not (hash_beq hash hash_at_height) && provider.is_block_topological_ordered hash_at_height
      then true
      else later

  -- The blocks at the heights from `i` down to the stable point, the genesis block excepted.
  unfoldable pub pre_blocks_loop : ℕ → ℕ → List Hash → Result E (List Hash)
  unfolding collect_onto
  pre_blocks_loop stable_point zero pre_blocks = ok pre_blocks
  pre_blocks_loop stable_point (suc i) pre_blocks = elim (leb stable_point (suc i)) [
    | false ↦ ok pre_blocks
    | true ↦ elim (provider.get_blocks_at_height (suc i)) [
      | err e ↦ err e
      | ok blocks ↦ pre_blocks_loop stable_point i (collect_onto pre_blocks blocks)
    ]
  ]

  -- No ordered block among these has as large a cumulative difficulty.
  unfoldable pub is_heaviest_loop : ℕ → List Hash → Result E Bool
  is_heaviest_loop sync_block_cumulative_difficulty [] = ok true
  is_heaviest_loop sync_block_cumulative_difficulty (pre_hash ∷ rest) =
      elim (provider.is_block_topological_ordered pre_hash) [
        | false ↦ is_heaviest_loop sync_block_cumulative_difficulty rest
        | true ↦ elim (provider.get_cumulative_difficulty_for_block_hash pre_hash) [
          | err e ↦ err e
          | ok cumulative_difficulty ↦
              elim (leb sync_block_cumulative_difficulty cumulative_difficulty) [
                | true ↦ ok false
                | false ↦ is_heaviest_loop sync_block_cumulative_difficulty rest
              ]
        ]
      ]

  abbrev pub stable_point_of : ℕ → ℕ
  stable_point_of block_height =
      if leb stable_limit block_height
      then block_height - stable_limit
      else stable_limit - block_height

  -- The rest of `is_sync_block_at_height`, from the blocks at the height on.
  unfoldable pub is_alone_and_heaviest : Hash → ℕ → Result E Bool
  unfolding other_ordered pre_blocks_loop is_heaviest_loop
  is_alone_and_heaviest hash block_height = elim (provider.get_blocks_at_height block_height) [
    | err e ↦ err e
    | ok tips_at_height ↦ elim (other_ordered hash tips_at_height) [
      | true ↦ ok false
      | false ↦ elim (pre_blocks_loop (stable_point_of block_height) (block_height - 1) []) [
        | err e ↦ err e
        | ok pre_blocks ↦ elim (provider.get_cumulative_difficulty_for_block_hash hash) [
          | err e ↦ err e
          | ok difficulty ↦ is_heaviest_loop difficulty pre_blocks
        ]
      ]
    ]
  ]

  unfoldable pub is_sync_block_at_height : Hash → ℕ → Result E Bool
  unfolding is_alone_and_heaviest
  is_sync_block_at_height hash height = elim (provider.get_height_for_block_hash hash) [
    | err e ↦ err e
    | ok block_height ↦
        if block_height == 0
        then ok true
        else (if ltb height ((block_height + stable_limit) % u64_mod)
              || not (provider.is_block_topological_ordered hash)
            then ok false
            else elim provider.get_pruned_topoheight [
              | err e ↦ err e
              | ok none ↦ is_alone_and_heaviest hash block_height
              | ok (some pruned_topo) ↦ elim (provider.get_topo_height_for_hash hash) [
                | err e ↦ err e
                | ok topoheight ↦
                    if pruned_topo == topoheight
                    then ok true
                    else is_alone_and_heaviest hash block_height
              ]
            ])
  ]

  -- The inner option is `none` where the product of 256-bit integers panics.
  unfoldable pub validate_tips : U256 → Hash → Hash → Result E (Option Bool)
  unfolding ◌>>=◌
  validate_tips u best_tip tip = elim (provider.get_difficulty_for_block_hash best_tip) [
    | err e ↦ err e
    | ok best_difficulty ↦ elim (provider.get_difficulty_for_block_hash tip) [
      | err e ↦ err e
      | ok block_difficulty ↦ ok (do
        product ← u.mul best_difficulty 91
        limit ← u.div product 100
        some (ltb limit block_difficulty))
    ]
  ]

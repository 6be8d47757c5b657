-- ===== src/Daemon/Dag/FullOrder.antt =====
-- The full order of the DAG: `generate_full_order` of xelis_daemon/src/core/blockchain.rs. A stack is a list
-- with its top first, and `processed` a list of which only the members are read.
pub mod Scores
pub mod Order
pub mod Invariant
pub mod Weight
pub mod Loop
use blockchain_xelis.Prelude.{
  ℕ, zero, suc, Bool, true, false, ◌||◌, List, [], ◌∷◌, Option, none, some, leb, Result, ok, err,
}
use blockchain_xelis.Daemon.BlockDag.{
  Hash, hash_beq, contains, collect_onto, sort_ascending_by_cumulative_difficulty,
}
use blockchain_xelis.Daemon.Dag.{DagProvider}
use blockchain_xelis.Daemon.Dag.Lru.{LruCache}

abbrev is_empty : List Hash → Bool
is_empty [] = true
is_empty (hash ∷ rest) = false

-- The pushes of the sorted scores.
unfoldable pub push_scores : List (Hash × ℕ) → List Hash → List Hash
push_scores [] stack = stack
push_scores ((tip_hash, score) ∷ rest) stack = push_scores rest (tip_hash ∷ stack)

abbrev pub OrderKey : Type 0
OrderKey = Hash × Hash × ℕ

module _ {E : Type 0} (provider : DagProvider E) where
  -- `!is_ordered || (is_ordered && topoheight >= base_topo_height)`
  unfoldable pub is_above_base : ℕ → Hash → Result E Bool
  is_above_base base_topo_height tip_hash = elim (provider.is_block_topological_ordered tip_hash) [
    | false ↦ ok true
    | true ↦ elim (provider.get_topo_height_for_hash tip_hash) [
      | err e ↦ err e
      | ok topoheight ↦ ok (leb base_topo_height topoheight)
    ]
  ]

  -- The loop over the tips of a block.
  unfoldable pub order_scores : ℕ → List Hash → Result E (List (Hash × ℕ))
  unfolding is_above_base
  order_scores base_topo_height [] = ok []
  order_scores base_topo_height (tip_hash ∷ rest) = elim (is_above_base base_topo_height tip_hash) [
    | err e ↦ err e
    | ok false ↦ order_scores base_topo_height rest
    | ok true ↦ elim (provider.get_cumulative_difficulty_for_block_hash tip_hash) [
      | err e ↦ err e
      | ok diff ↦ elim (order_scores base_topo_height rest) [
        | err e ↦ err e
        | ok scores ↦ ok ((tip_hash, diff) ∷ scores)
      ]
    ]
  ]

  module _ {C : Type 0} (lru : LruCache C OrderKey (List Hash)) (base : Hash)
      (base_height base_topo_height : ℕ) where
    unfoldable pub order_loop :
        ℕ → List Hash → List Hash → List Hash → C → Option (Result E (List Hash) × C)
    unfolding order_scores push_scores contains collect_onto hash_beq
        sort_ascending_by_cumulative_difficulty
    order_loop fuel [] processed full_order cache = some (ok full_order, cache)
    order_loop zero (current_hash ∷ stack) processed full_order cache = none
    order_loop (suc fuel) (current_hash ∷ stack) processed full_order cache =
        elim (contains processed current_hash) [
          | true ↦
              order_loop fuel stack processed (collect_onto full_order (current_hash ∷ [])) cache
          | false ↦
              let cache_key : OrderKey = (current_hash, base, base_height) in
              let (found, used) = lru.get cache_key cache in
              elim found [
                | some order_cache ↦
                    order_loop fuel stack processed (collect_onto full_order order_cache) used
                | none ↦ elim (provider.get_past_blocks_for_block_hash current_hash) [
                  | err e ↦ some (err e, used)
                  | ok block_tips ↦ elim (is_empty block_tips || hash_beq current_hash base) [
                    | true ↦
                        order_loop fuel stack processed
                          (collect_onto full_order (current_hash ∷ []))
                          (lru.put cache_key (current_hash ∷ []) used)
                    | false ↦ elim (order_scores base_topo_height block_tips) [
                      | err e ↦ some (err e, used)
                      | ok scores ↦
                          order_loop fuel
                            (push_scores (sort_ascending_by_cumulative_difficulty scores)
                              (current_hash ∷ stack))
                            (current_hash ∷ processed) full_order used
                    ]
                  ]
                ]
              ]
        ]

    unfoldable pub generate_full_order : ℕ → Hash → C → Option (Result E (List Hash) × C)
    unfolding order_loop
    generate_full_order fuel hash cache = elim (order_loop fuel (hash ∷ []) [] [] cache) [
      | none ↦ none
      | some (result, left) ↦ elim result [
        | err e ↦ some (err e, left)
        | ok full_order ↦ some (ok full_order, lru.put (hash, base, base_height) full_order left)
      ]
    ]

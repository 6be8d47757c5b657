-- ===== src/Daemon/Dag/Mainchain.antt =====
-- The distance of a block from the main chain: `find_lowest_height_from_mainchain`,
-- `calculate_distance_from_mainchain` and `verify_distance_from_mainchain` of
-- xelis_daemon/src/core/blockchain.rs. A stack is a list with its top first.
pub mod Lowest
pub mod Distance
use blockchain_xelis.Prelude.{
  ℕ, zero, suc, ◌-◌, Bool, true, false, not, ◌&&◌, List, [], ◌∷◌, Option, none, some, ltb, leb,
  if◌then◌else◌, Result, ok, err, u64_mod,
}
use blockchain_xelis.Daemon.BlockDag.{Hash, contains}
use blockchain_xelis.Daemon.SideBlock.{stable_limit}
use blockchain_xelis.Daemon.Dag.{DagProvider}

module _ {E : Type 0} (provider : DagProvider E) where
  -- The loop over the tips of a block: the ordered ones lower the height, the others are pushed.
  unfoldable pub lowest_tips : List Hash → List Hash → ℕ → Result E (List Hash × ℕ)
  lowest_tips [] stack lowest_height = ok (stack, lowest_height)
  lowest_tips (tip_hash ∷ rest) stack lowest_height =
      elim (provider.is_block_topological_ordered tip_hash) [
        | true ↦ elim (provider.get_height_for_block_hash tip_hash) [
          | err e ↦ err e
          | ok height ↦
              lowest_tips rest stack (if ltb height lowest_height then height else lowest_height)
        ]
        | false ↦ lowest_tips rest (tip_hash ∷ stack) lowest_height
      ]

  unfoldable pub lowest_loop : ℕ → List Hash → List Hash → ℕ → Option (Result E ℕ)
  unfolding lowest_tips contains
  lowest_loop fuel [] processed lowest_height = some (ok lowest_height)
  lowest_loop zero (current_hash ∷ stack) processed lowest_height = none
  lowest_loop (suc fuel) (current_hash ∷ stack) processed lowest_height =
      elim (contains processed current_hash) [
        | true ↦ lowest_loop fuel stack processed lowest_height
        | false ↦ elim (provider.get_past_blocks_for_block_hash current_hash) [
          | err e ↦ some (err e)
          | ok tips ↦ elim (lowest_tips tips stack lowest_height) [
            | err e ↦ some (err e)
            | ok (pushed, height) ↦ lowest_loop fuel pushed (current_hash ∷ processed) height
          ]
        ]
      ]

  unfoldable pub find_lowest_height_from_mainchain : ℕ → Hash → Option (Result E ℕ)
  unfolding lowest_loop
  find_lowest_height_from_mainchain fuel hash = lowest_loop fuel (hash ∷ []) [] (u64_mod - 1)

  unfoldable pub calculate_distance_from_mainchain : ℕ → Hash → Option (Result E ℕ)
  unfolding find_lowest_height_from_mainchain
  calculate_distance_from_mainchain fuel hash = elim (provider.is_block_topological_ordered hash) [
    | true ↦ some (provider.get_height_for_block_hash hash)
    | false ↦ find_lowest_height_from_mainchain fuel hash
  ]

  unfoldable pub verify_distance_from_mainchain : ℕ → Hash → ℕ → Option (Result E Bool)
  unfolding calculate_distance_from_mainchain
  verify_distance_from_mainchain fuel hash height =
      elim (calculate_distance_from_mainchain fuel hash) [
        | none ↦ none
        | some (err e) ↦ some (err e)
        | some (ok distance) ↦
            some (ok (not (leb distance height && leb stable_limit (height - distance))))
      ]

-- ===== src/Daemon/Dag/WorkScore.antt =====
-- The work that a tip stands on: `find_tip_work_score` and `find_best_tip` of
-- xelis_daemon/src/core/blockchain.rs. A hash map is a list of its entries, with each key once.
pub mod Map
pub mod Walk
pub mod Loop
pub mod Score
pub mod Best
use blockchain_xelis.Prelude.{
  ℕ, zero, suc, true, false, List, [], ◌∷◌, Option, none, some, Result, ok, err, if◌then◌else◌,
}
use blockchain_xelis.Daemon.BlockDag.{
  Hash, hash_beq, contains, BlockchainError, expected_tips, storage_error,
  sort_descending_by_cumulative_difficulty,
}
use blockchain_xelis.Daemon.Difficulty.{U256, ◌>>=◌}
use blockchain_xelis.Daemon.Dag.{DagProvider}
use blockchain_xelis.Daemon.Dag.Lru.{LruCache}
use blockchain_xelis.Daemon.Dag.FullOrder.{OrderKey, is_above_base}

abbrev pub keys : List (Hash × ℕ) → List Hash
keys [] = []
keys ((key, value) ∷ rest) = key ∷ keys rest

-- `insert`, which replaces the value of a key that is there.
unfoldable pub map_insert : Hash → ℕ → List (Hash × ℕ) → List (Hash × ℕ)
unfolding hash_beq
map_insert key value [] = (key, value) ∷ []
map_insert key value ((k, v) ∷ rest) =
    let later = map_insert key value rest in
    if hash_beq key k then (k, value) ∷ rest else (k, v) ∷ later

-- The sum of the values, `none` where an addition of 256-bit integers panics.
unfoldable pub score_loop : U256 → List (Hash × ℕ) → ℕ → Option ℕ
unfolding ◌>>=◌
score_loop u [] score = some score
score_loop u ((key, value) ∷ rest) score = do sum ← u.add score value; score_loop u rest sum

module _ {E : Type 0} (provider : DagProvider E) where
  -- The loop over the tips of a block.
  unfoldable pub work_tips : ℕ → List (Hash × ℕ) → List Hash → List Hash → Result E (List Hash)
  unfolding contains is_above_base
  work_tips base_topoheight map [] stack = ok stack
  work_tips base_topoheight map (tip_hash ∷ rest) stack = elim (contains (keys map) tip_hash) [
    | true ↦ work_tips base_topoheight map rest stack
    | false ↦ elim (is_above_base provider base_topoheight tip_hash) [
      | err e ↦ err e
      | ok false ↦ work_tips base_topoheight map rest stack
      | ok true ↦ work_tips base_topoheight map rest (tip_hash ∷ stack)
    ]
  ]

  -- `if !map.contains_key(&current_hash)`
  unfoldable pub add_difficulty : List (Hash × ℕ) → Hash → Result E (List (Hash × ℕ))
  unfolding contains map_insert
  add_difficulty map current_hash = elim (contains (keys map) current_hash) [
    | true ↦ ok map
    | false ↦ elim (provider.get_difficulty_for_block_hash current_hash) [
      | err e ↦ err e
      | ok difficulty ↦ ok (map_insert current_hash difficulty map)
    ]
  ]

  unfoldable pub find_tip_work_score_internal :
      ℕ → ℕ → List (Hash × ℕ) → List Hash → Option (Result E (List (Hash × ℕ)))
  unfolding work_tips add_difficulty
  find_tip_work_score_internal fuel base_topoheight map [] = some (ok map)
  find_tip_work_score_internal zero base_topoheight map (current_hash ∷ stack) = none
  find_tip_work_score_internal (suc fuel) base_topoheight map (current_hash ∷ stack) =
      elim (provider.get_past_blocks_for_block_hash current_hash) [
        | err e ↦ some (err e)
        | ok tips ↦ elim (work_tips base_topoheight map tips stack) [
          | err e ↦ some (err e)
          | ok pushed ↦ elim (add_difficulty map current_hash) [
            | err e ↦ some (err e)
            | ok added ↦ find_tip_work_score_internal fuel base_topoheight added pushed
          ]
        ]
      ]

  -- The loop over the tips in `find_tip_work_score`.
  unfoldable pub score_tips :
      ℕ → ℕ → List (Hash × ℕ) → List Hash → Option (Result E (List (Hash × ℕ)))
  unfolding contains is_above_base find_tip_work_score_internal
  score_tips fuel base_topoheight map [] = some (ok map)
  score_tips fuel base_topoheight map (hash ∷ rest) = elim (contains (keys map) hash) [
    | true ↦ score_tips fuel base_topoheight map rest
    | false ↦ elim (is_above_base provider base_topoheight hash) [
      | err e ↦ some (err e)
      | ok false ↦ score_tips fuel base_topoheight map rest
      | ok true ↦ elim (find_tip_work_score_internal fuel base_topoheight map (hash ∷ [])) [
        | none ↦ none
        | some (err e) ↦ some (err e)
        | some (ok extended) ↦ score_tips fuel base_topoheight extended rest
      ]
    ]
  ]

  -- `if base != hash`
  unfoldable pub insert_base : Hash → Hash → List (Hash × ℕ) → Result E (List (Hash × ℕ))
  unfolding map_insert hash_beq
  insert_base hash base map = elim (hash_beq base hash) [
    | true ↦ ok map
    | false ↦ elim (provider.get_cumulative_difficulty_for_block_hash base) [
      | err e ↦ err e
      | ok cumulative_difficulty ↦ ok (map_insert base cumulative_difficulty map)
    ]
  ]

  -- The works of the blocks that `hash` stands on above `base`, itself included.
  unfoldable pub collect_work : ℕ → Hash → Hash → Option (Result E (List (Hash × ℕ)))
  unfolding score_tips map_insert insert_base
  collect_work fuel hash base = elim (provider.get_past_blocks_for_block_hash hash) [
    | err e ↦ some (err e)
    | ok tips ↦ elim (provider.get_topo_height_for_hash base) [
      | err e ↦ some (err e)
      | ok base_topoheight ↦ elim (score_tips fuel base_topoheight [] tips) [
        | none ↦ none
        | some (err e) ↦ some (err e)
        | some (ok map) ↦ elim (insert_base hash base map) [
          | err e ↦ some (err e)
          | ok with_base ↦ elim (provider.get_difficulty_for_block_hash hash) [
            | err e ↦ some (err e)
            | ok difficulty ↦ some (ok (map_insert hash difficulty with_base))
          ]
        ]
      ]
    ]
  ]

  module _ {C : Type 0} (lru : LruCache C OrderKey (List Hash × ℕ)) (u : U256) where
    -- The result is `none` inside where the sum panics.
    unfoldable pub find_tip_work_score :
        ℕ → Hash → Hash → ℕ → C → Option (Result E (Option (List Hash × ℕ)) × C)
    unfolding collect_work score_loop
    find_tip_work_score fuel hash base base_height cache =
        let key : OrderKey = (hash, base, base_height) in
        let (found, used) = lru.get key cache in
        elim found [
          | some value ↦ some (ok (some value), used)
          | none ↦ elim (collect_work fuel hash base) [
            | none ↦ none
            | some (err e) ↦ some (err e, used)
            | some (ok map) ↦ elim (score_loop u map 0) [
              | none ↦ some (ok none, used)
              | some score ↦ some (ok (some (keys map, score)), lru.put key (keys map, score) used)
            ]
          ]
        ]

    -- The loop of `find_best_tip`.
    unfoldable pub best_scores :
        ℕ → Hash → ℕ → List Hash → C → Option (Result E (Option (List (Hash × ℕ))) × C)
    unfolding find_tip_work_score
    best_scores fuel base base_height [] cache = some (ok (some []), cache)
    best_scores fuel base base_height (hash ∷ rest) cache =
        elim (find_tip_work_score fuel hash base base_height cache) [
          | none ↦ none
          | some (result, used) ↦ elim result [
            | err e ↦ some (err e, used)
            | ok none ↦ some (ok none, used)
            | ok (some (set, cumulative_difficulty)) ↦
                elim (best_scores fuel base base_height rest used) [
                  | none ↦ none
                  | some (others, left) ↦ elim others [
                    | err e ↦ some (err e, left)
                    | ok none ↦ some (ok none, left)
                    | ok (some scores) ↦
                        some (ok (some ((hash, cumulative_difficulty) ∷ scores)), left)
                  ]
                ]
          ]
        ]

    unfoldable pub find_best_tip :
        ℕ → List Hash → Hash → ℕ → C → Option (Result (BlockchainError E) (Option Hash) × C)
    unfolding best_scores sort_descending_by_cumulative_difficulty
    find_best_tip fuel [] base base_height cache = some (err expected_tips, cache)
    find_best_tip fuel (tip ∷ tips) base base_height cache =
        elim (best_scores fuel base base_height (tip ∷ tips) cache) [
          | none ↦ none
          | some (result, left) ↦ elim result [
            | err e ↦ some (err (storage_error e), left)
            | ok none ↦ some (ok none, left)
            | ok (some scores) ↦ elim (sort_descending_by_cumulative_difficulty scores) [
              | [] ↦ some (ok none, left)
              | ◌∷◌ best others ↦ some (ok (some best.0), left)
            ]
          ]
        ]

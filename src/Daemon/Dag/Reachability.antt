-- ===== src/Daemon/Dag/Reachability.antt =====
-- Tips that stand on each other: `build_reachability` and `verify_non_reachability` of
-- xelis_daemon/src/core/blockchain.rs. A stack is a list with its top first.
pub mod Walk
pub mod Tips
use blockchain_xelis.Prelude.{
  ℕ, zero, suc, ◌+◌, ◌*◌, Bool, true, false, not, ◌&&◌, List, [], ◌∷◌, Option, none, some, leb,
  ◌==◌, if◌then◌else◌, Result, ok, err,
}
use blockchain_xelis.Daemon.BlockDag.{Hash, contains, collect_onto}
use blockchain_xelis.Daemon.SideBlock.{stable_limit}
use blockchain_xelis.Daemon.Dag.{DagProvider}

-- The loop over the tips of a block at a level.
unfoldable pub reach_tips : List Hash → ℕ → List Hash → List (Hash × ℕ) → List (Hash × ℕ)
unfolding contains
reach_tips set current_level [] stack = stack
reach_tips set current_level (past_hash ∷ rest) stack = elim (contains set past_hash) [
  | true ↦ reach_tips set current_level rest stack
  | false ↦ reach_tips set current_level rest ((past_hash, current_level + 1) ∷ stack)
]

-- The loop over the sets, for the tip at index `i`: another one reaches it.
unfoldable pub is_reached : ℕ → Hash → ℕ → List (List Hash) → Bool
unfolding contains
is_reached i tip j [] = false
is_reached i tip j (set ∷ rest) =
    let later = is_reached i tip (j + 1) rest in
    if not (i == j) && contains set tip then true else later

unfoldable pub none_reached : ℕ → List Hash → List (List Hash) → Bool
unfolding is_reached
none_reached i [] reach = true
none_reached i (tip ∷ rest) reach =
    let later = none_reached (i + 1) rest reach in if is_reached i tip 0 reach then false else later

module _ {E : Type 0} (provider : DagProvider E) where
  unfoldable pub reach_loop : ℕ → List (Hash × ℕ) → List Hash → Option (Result E (List Hash))
  unfolding reach_tips collect_onto
  reach_loop fuel [] set = some (ok set)
  reach_loop zero (top ∷ stack) set = none
  reach_loop (suc fuel) ((current_hash, current_level) ∷ stack) set =
      let inserted = collect_onto set (current_hash ∷ []) in
      elim (leb (2 * stable_limit) current_level) [
        | true ↦ reach_loop fuel stack inserted
        | false ↦ elim (provider.get_past_blocks_for_block_hash current_hash) [
          | err e ↦ some (err e)
          | ok tips ↦ reach_loop fuel (reach_tips inserted current_level tips stack) inserted
        ]
      ]

  unfoldable pub build_reachability : ℕ → Hash → Option (Result E (List Hash))
  unfolding reach_loop
  build_reachability fuel hash = reach_loop fuel ((hash, 0) ∷ []) []

  unfoldable pub build_all : ℕ → List Hash → Option (Result E (List (List Hash)))
  unfolding build_reachability
  build_all fuel [] = some (ok [])
  build_all fuel (hash ∷ rest) = elim (build_reachability fuel hash) [
    | none ↦ none
    | some (err e) ↦ some (err e)
    | some (ok set) ↦ elim (build_all fuel rest) [
      | none ↦ none
      | some (err e) ↦ some (err e)
      | some (ok reach) ↦ some (ok (set ∷ reach))
    ]
  ]

  unfoldable pub verify_non_reachability : ℕ → List Hash → Option (Result E Bool)
  unfolding build_all none_reached
  verify_non_reachability fuel tips = elim (build_all fuel tips) [
    | none ↦ none
    | some (err e) ↦ some (err e)
    | some (ok reach) ↦ some (ok (none_reached 0 tips reach))
  ]

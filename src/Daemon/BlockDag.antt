-- ===== src/Daemon/BlockDag.antt =====
-- The tips of the DAG: xelis_daemon/src/core/blockdag.rs. What the storage answers for a block is a
-- parameter, and a hash is its bytes, ordered by the first byte that differs.
pub mod Order
pub mod Sets
pub mod Tips
use blockchain_xelis.Prelude.{
  ℕ, ◌+◌, ◌%◌, Bool, true, false, List, [], ◌∷◌, Option, none, some, ltb, leb, ◌==◌, if◌then◌else◌,
  Result, ok, err, u64_mod, map, sort_by, ◌++◌,
}

abbrev pub Hash : Type 0
Hash = List ℕ

-- `a <= b` of the derived order on the bytes.
unfoldable pub hash_leb : Hash → Hash → Bool
hash_leb [] b = true
hash_leb (x ∷ a) [] = false
hash_leb (x ∷ a) (y ∷ b) = let rest = hash_leb a b in if x == y then rest else ltb x y

-- The comparison of each sort does not put the first score after the second.
unfoldable pub descending : (Hash × ℕ) → (Hash × ℕ) → Bool
unfolding hash_leb
descending a b = if a.1 == b.1 then hash_leb b.0 a.0 else leb b.1 a.1

unfoldable pub ascending : (Hash × ℕ) → (Hash × ℕ) → Bool
unfolding hash_leb
ascending a b = if a.1 == b.1 then hash_leb a.0 b.0 else leb a.1 b.1

unfoldable pub sort_descending_by_cumulative_difficulty : List (Hash × ℕ) → List (Hash × ℕ)
unfolding descending
sort_descending_by_cumulative_difficulty scores = sort_by descending scores

unfoldable pub sort_ascending_by_cumulative_difficulty : List (Hash × ℕ) → List (Hash × ℕ)
unfolding ascending
sort_ascending_by_cumulative_difficulty scores = sort_by ascending scores

pub data BlockchainError (E : Type 0) : Type 0 where
  expected_tips : BlockchainError E
  storage_error : E → BlockchainError E

-- Membership, and `collect` into an `IndexSet`: an element that is there already is not inserted again.
unfoldable pub hash_beq : Hash → Hash → Bool
hash_beq [] [] = true
hash_beq [] (y ∷ b) = false
hash_beq (x ∷ a) [] = false
hash_beq (x ∷ a) (y ∷ b) = let rest = hash_beq a b in if x == y then rest else false

unfoldable pub contains : List Hash → Hash → Bool
unfolding hash_beq
contains [] hash = false
contains (first ∷ rest) hash =
    let later = contains rest hash in if hash_beq first hash then true else later

unfoldable pub collect_onto : List Hash → List Hash → List Hash
unfolding contains
collect_onto set [] = set
collect_onto set (hash ∷ rest) =
    if contains set hash then collect_onto set rest else collect_onto (set ++ hash ∷ []) rest

module _ {E : Type 0} (get : Hash → Result E ℕ) where
  -- The loop of `sort_tips`: each tip with its cumulative difficulty.
  unfoldable pub scores_of : List Hash → Result (BlockchainError E) (List (Hash × ℕ))
  scores_of [] = ok []
  scores_of (hash ∷ rest) = elim (get hash) [
    | err e ↦ err (storage_error e)
    | ok cumulative_difficulty ↦ elim (scores_of rest) [
      | err e ↦ err e
      | ok scores ↦ ok ((hash, cumulative_difficulty) ∷ scores)
    ]
  ]

  unfoldable pub sort_tips : List Hash → Result (BlockchainError E) (List Hash)
  unfolding scores_of sort_descending_by_cumulative_difficulty collect_onto
  sort_tips [] = err expected_tips
  sort_tips (tip ∷ []) = ok (collect_onto [] (tip ∷ []))
  sort_tips (tip ∷ next ∷ rest) = elim (scores_of (tip ∷ next ∷ rest)) [
    | err e ↦ err e
    | ok scores ↦
        ok (collect_onto [] (map (λ s. s.0) (sort_descending_by_cumulative_difficulty scores)))
  ]

  -- The loop of `calculate_height_at_tips`.
  unfoldable pub height_loop : List Hash → ℕ → Result (BlockchainError E) ℕ
  height_loop [] height = ok height
  height_loop (hash ∷ rest) height = elim (get hash) [
    | err e ↦ err (storage_error e)
    | ok past_height ↦ height_loop rest (if leb height past_height then past_height else height)
  ]

  unfoldable pub calculate_height_at_tips : List Hash → Result (BlockchainError E) ℕ
  unfolding height_loop
  calculate_height_at_tips tips = elim (height_loop tips 0) [
    | err e ↦ err e
    | ok height ↦ elim tips [ [] ↦ ok height | ◌∷◌ tip rest ↦ ok ((height + 1) % u64_mod) ]
  ]

  -- The loop that both searches make: the first tip with the largest value, above the one given.
  unfoldable pub select_loop :
      List Hash → ℕ → Option Hash → Result (BlockchainError E) (ℕ × Option Hash)
  select_loop [] highest selected_tip = ok (highest, selected_tip)
  select_loop (hash ∷ rest) highest selected_tip = elim (get hash) [
    | err e ↦ err (storage_error e)
    | ok value ↦
        if ltb highest value
        then select_loop rest value (some hash)
        else select_loop rest highest selected_tip
  ]

  unfoldable pub find_best_tip_by_cumulative_difficulty :
      List Hash → Result (BlockchainError E) Hash
  unfolding select_loop
  find_best_tip_by_cumulative_difficulty [] = err expected_tips
  find_best_tip_by_cumulative_difficulty (tip ∷ []) = ok tip
  find_best_tip_by_cumulative_difficulty (tip ∷ next ∷ rest) =
      elim (select_loop (tip ∷ next ∷ rest) 0 none) [
        | err e ↦ err e
        | ok (_, none) ↦ err expected_tips
        | ok (_, some selected_tip) ↦ ok selected_tip
      ]

  unfoldable pub find_newest_tip_by_timestamp : List Hash → Result (BlockchainError E) (Hash × ℕ)
  unfolding select_loop
  find_newest_tip_by_timestamp [] = err expected_tips
  find_newest_tip_by_timestamp (tip ∷ []) = elim (get tip) [
    | err e ↦ err (storage_error e)
    | ok timestamp ↦ ok (tip, timestamp)
  ]
  find_newest_tip_by_timestamp (tip ∷ next ∷ rest) = elim (select_loop (tip ∷ next ∷ rest) 0 none) [
    | err e ↦ err e
    | ok (_, none) ↦ err expected_tips
    | ok (timestamp, some newest_tip) ↦ ok (newest_tip, timestamp)
  ]

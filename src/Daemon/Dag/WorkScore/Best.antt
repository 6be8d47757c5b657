-- ===== src/Daemon/Dag/WorkScore/Best.antt =====
-- The tip that `find_best_tip` of xelis_daemon/src/core/blockchain.rs chooses, on a storage that knows its blocks.
use blockchain_xelis.Prelude.{
  ℕ, ◌^◌, ◌≤◌, ◌<◌, ◌≡◌, ◌⊎◌, inl, inr, refl, sym, true, List, [], ◌∷◌, some, ok, arith, All,
  All-sort_by, IsSorted,
}
use mathlib.Core.Path.{subst}
use blockchain_xelis.Daemon.BlockDag.{Hash, descending, sort_descending_by_cumulative_difficulty}
use blockchain_xelis.Daemon.BlockDag.Sets.{IsOneOf}
use blockchain_xelis.Daemon.BlockDag.Order.{sort_descending-IsSorted}
use blockchain_xelis.Daemon.Difficulty.{U256}
use blockchain_xelis.Daemon.Dag.{DagProvider}
use blockchain_xelis.Daemon.Dag.Lru.{LruCache, LruLaws}
use blockchain_xelis.Daemon.Dag.View.{View, weight_at}
use blockchain_xelis.Daemon.Dag.FullOrder.{OrderKey}
use blockchain_xelis.Daemon.Dag.WorkScore.{best_scores, find_best_tip}
use blockchain_xelis.Daemon.Dag.WorkScore.Map.{total}
use blockchain_xelis.Daemon.Dag.WorkScore.Score.{
  IsWorkSet, IsScored, IsScoreCache, value_of, find_tip_work_score_lem,
}

module _ {E C : Type 0} (provider : DagProvider E) (view : View provider)
    (lru : LruCache C OrderKey (List Hash × ℕ)) (laws : LruLaws lru) (u : U256) (base : Hash)
    (ordered : provider.is_block_topological_ordered base ≡ true) where
  open view use {height_of}

  -- The works that a tip stands on sum up to a number of 256 bits.
  abbrev pub IsSmall : Hash → Type 0
  IsSmall tip =
      (set : List Hash)
      → IsWorkSet provider view tip base set
      → total (value_of provider view tip base) set < 2 ^ 256

  -- The score of a tip above the base.
  abbrev pub IsScore : Hash → ℕ → Type 0
  IsScore tip score = (set : List Hash) × IsScored provider view tip base set score

  -- The scores are those of the tips, in their order.
  abbrev AreScores : List Hash → List (Hash × ℕ) → Type 0
  AreScores [] scores = scores ≡ []
  AreScores (tip ∷ tips) scores =
      (score : ℕ) × (rest : List (Hash × ℕ)) × (scores ≡ (tip, score) ∷ rest)
      × IsScore tip score
      × AreScores tips rest

  best_scores_lem :
      (fuel : ℕ) (tips : List Hash) (base_height : ℕ) (cache : C)
      → IsScoreCache provider view lru laws u cache
      → All (λ tip. weight_at (height_of tip) ≤ fuel) tips
      → All IsSmall tips
      → (scores : List (Hash × ℕ)) × (left : C) × (best_scores provider lru u fuel base base_height
            tips cache
          ≡ some (ok (some scores), left))
        × AreScores tips scores
        × IsScoreCache provider view lru laws u left
  unfolding best_scores
  best_scores_lem fuel [] base_height cache good enough small = ([], cache, refl, refl, good)
  best_scores_lem fuel (tip ∷ tips) base_height cache good enough small =
      let (set, score, used, run, scored, used_good) =
        find_tip_work_score_lem provider view lru laws u fuel tip base base_height cache good
          ordered enough.0 small.0 in
      let (scores, left, steps, all, left_good) =
        best_scores_lem fuel tips base_height used used_good enough.1 small.1 in
      (
        (tip, score) ∷ scores,
        left,
        rw (best_scores, run, steps) refl,
        (score, scores, refl, (set, scored), all),
        left_good,
      )

  -- A tip with its score.
  abbrev IsEntry : List Hash → Hash × ℕ → Type 0
  IsEntry tips entry = IsOneOf entry.0 tips × IsScore entry.0 entry.1

  AreScores-IsEntry :
      (all tips : List Hash) (scores : List (Hash × ℕ))
      → ((x : Hash) → IsOneOf x tips → IsOneOf x all)
      → AreScores tips scores
      → All (λ (entry : Hash × ℕ). IsEntry all entry) scores
  AreScores-IsEntry all [] scores sub e = rw (e) tt
  AreScores-IsEntry all (tip ∷ tips) scores sub (score, rest, e, is_score, more) =
      rw (e) (
        (sub tip (inl refl), is_score),
        AreScores-IsEntry all tips rest (λ x m. sub x (inr m)) more,
      )

  AreScores-bound :
      (m : ℕ) (tips : List Hash) (scores : List (Hash × ℕ))
      → AreScores tips scores
      → All (λ (entry : Hash × ℕ). entry.1 ≤ m) scores
      → All (λ tip. (score : ℕ) × IsScore tip score × (score ≤ m)) tips
  AreScores-bound m [] scores a b = tt
  AreScores-bound m (tip ∷ tips) scores (score, rest, e, is_score, more) b =
      let c : All (λ (entry : Hash × ℕ). entry.1 ≤ m) ((tip, score) ∷ rest) =
        subst (λ (l : List (Hash × ℕ)). All (λ (entry : Hash × ℕ). entry.1 ≤ m) l) e b in
      ((score, is_score, c.0), AreScores-bound m tips rest more c.1)

  descending-bound :
      (a : Hash × ℕ) (l : List (Hash × ℕ))
      → All (λ b. descending a b ≡ true) l
      → All (λ (entry : Hash × ℕ). entry.1 ≤ a.1) l
  unfolding descending
  descending-bound a [] all = tt
  descending-bound a (b ∷ l) (first, all) = (ground (arith, first), descending-bound a l all)

  -- What the search leaves: a tip whose score no other exceeds.
  abbrev pub IsBest : Hash → List Hash → Type 0
  IsBest best tips =
      IsOneOf best tips
      × ((most : ℕ) × IsScore best most
          × All (λ tip. (score : ℕ) × IsScore tip score × (score ≤ most)) tips)

  List-cases :
      (l : List (Hash × ℕ))
      → (l ≡ []) ⊎ ((x : Hash × ℕ) × (rest : List (Hash × ℕ)) × (l ≡ x ∷ rest))
  List-cases [] = inl refl
  List-cases (x ∷ rest) = inr (x, rest, refl)

  -- On a storage that knows its blocks, with a cache that holds scores, as much fuel as the heights of the tips ask for, an ordered base
  -- and works that sum up to less than 2 ^ 256 for every tip, of one or more tips one is found whose score is not exceeded by that of any other, and
  -- the cache still holds scores.
  pub find_best_tip-IsBest :
      (fuel : ℕ) (tip : Hash) (rest : List Hash) (base_height : ℕ) (cache : C)
      → IsScoreCache provider view lru laws u cache
      → All (λ t. weight_at (height_of t) ≤ fuel) (tip ∷ rest)
      → All IsSmall (tip ∷ rest)
      → (best : Hash) × (left : C) × (find_best_tip provider lru u fuel
            (tip ∷ rest)
            base
            base_height
            cache
          ≡ some (ok (some best), left))
        × IsBest best (tip ∷ rest)
        × IsScoreCache provider view lru laws u left
  unfolding find_best_tip sort_descending_by_cumulative_difficulty
  find_best_tip-IsBest fuel tip rest base_height cache good enough small =
      let tips = tip ∷ rest in
      let (scores, left, run, are, left_good) =
        best_scores_lem fuel tips base_height cache good enough small in
      let sorted = sort_descending_by_cumulative_difficulty scores in
      let entries = AreScores-IsEntry tips tips scores (λ x m. m) are in
      elim (List-cases sorted) [
        | inl empty ↦
            let e : scores ≡ (tip, are.0) ∷ are.1 = are.2 in
            let nothing : All (λ (entry : Hash × ℕ). ⊥) sorted = rw (empty) tt in
            let absurdity = (All-sort_by descending (λ (entry : Hash × ℕ). ⊥) scores).0 nothing in
            absurd
              ((subst (λ (l : List (Hash × ℕ)). All (λ (entry : Hash × ℕ). ⊥) l) e absurdity).0)
        | inr (best, others, e) ↦
            let is_sorted =
              subst (λ (l : List (Hash × ℕ)). IsSorted descending l) e
                (sort_descending-IsSorted scores).1 in
            let bounds : All (λ (entry : Hash × ℕ). entry.1 ≤ best.1) (best ∷ others) =
              (omega arith, descending-bound best others is_sorted.0) in
            let all_bounds =
              (All-sort_by descending (λ (entry : Hash × ℕ). entry.1 ≤ best.1) scores).0 (
                subst (λ (l : List (Hash × ℕ)). All (λ (entry : Hash × ℕ). entry.1 ≤ best.1) l)
                  (sym e) bounds) in
            let entry : IsEntry tips best =
              (subst (λ (l : List (Hash × ℕ)). All (λ (x : Hash × ℕ). IsEntry tips x) l) e
                ((All-sort_by descending (λ (x : Hash × ℕ). IsEntry tips x) scores).1 entries)).0 in
            (
              best.0,
              left,
              rw (find_best_tip, run, e) refl,
              (entry.0, (best.1, entry.1, AreScores-bound best.1 tips scores are all_bounds)),
              left_good,
            )
      ]

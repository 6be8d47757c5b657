-- ===== src/Examples/Dags.antt =====
-- A storage in which each height has an ordered block and one that is not ordered, both standing on the two of the
-- height below, or at height 1 on the first block. The hash of the first is its height, and of the second its height and 1.
use blockchain_xelis.Prelude.{
  ℕ, zero, suc, ◌+◌, ◌*◌, ◌^◌, ◌≤◌, ◌<◌, ◌≡◌, ◌≢◌, ◌↔◌, ◌⊎◌, inl, inr, refl, Bool, true, false,
  List, [], ◌∷◌, Option, none, some, ok, arith, All, length, Bool-cases, get_elem?, if◌then◌else◌,
  ◌&&◌, ◌==◌,
}
use mathlib.Core.Path.{subst}
use blockchain_xelis.Daemon.BlockDag.{Hash, hash_beq}
use blockchain_xelis.Daemon.BlockDag.Sets.{IsOneOf, hash_beq_iff}
use blockchain_xelis.Daemon.Dag.{DagProvider, is_sync_block_at_height}
use blockchain_xelis.Daemon.Dag.Lru.{LruCache, LruLaws}
use blockchain_xelis.Daemon.Dag.View.{View, weight_at}
use blockchain_xelis.Daemon.Dag.Sync.{IsSync, is_sync_block_at_height_iff}
use blockchain_xelis.Daemon.Dag.Mainchain.{verify_distance_from_mainchain}
use blockchain_xelis.Daemon.Dag.Mainchain.Distance.{IsAnchor, verify_distance_iff}
use blockchain_xelis.Daemon.Dag.Reachability.{verify_non_reachability}
use blockchain_xelis.Daemon.Dag.Reachability.Walk.{Ancestor}
use blockchain_xelis.Daemon.Dag.Reachability.Tips.{verify_non_reachability_lem}
use blockchain_xelis.Daemon.Dag.FullOrder.{OrderKey, generate_full_order}
use blockchain_xelis.Daemon.Dag.FullOrder.Order.{IsOrderOf, Past, here, step, IsTip}
use blockchain_xelis.Daemon.Dag.FullOrder.Loop.{
  IsCached, generate_full_order_lem, generate_full_order_first,
}
use blockchain_xelis.Daemon.Dag.WorkScore.{find_tip_work_score, find_best_tip}
use blockchain_xelis.Daemon.Dag.WorkScore.Map.{total, total-subset}
use blockchain_xelis.Daemon.Dag.WorkScore.Walk.{Under, first, next}
use blockchain_xelis.Daemon.Dag.WorkScore.Score.{
  IsWorkSet, IsScored, IsScoreCache, value_of, find_tip_work_score_lem,
}
use blockchain_xelis.Daemon.Dag.WorkScore.Best.{IsBest, find_best_tip-IsBest}
use blockchain_xelis.Daemon.SideBlock.{stable_limit}
use blockchain_xelis.Examples.Difficulties.{integers}

abbrev height_of : Hash → ℕ
height_of [] = 0
height_of (i ∷ rest) = i

abbrev tips_of : Hash → List Hash
tips_of [] = []
tips_of (zero ∷ rest) = []
tips_of (suc zero ∷ rest) = (0 ∷ []) ∷ []
tips_of (suc (suc i) ∷ rest) = (suc i ∷ []) ∷ (suc i ∷ 1 ∷ []) ∷ []

abbrev is_ordered : Hash → Bool
is_ordered [] = false
is_ordered (i ∷ []) = true
is_ordered (i ∷ j ∷ rest) = false

abbrev storage : DagProvider ℕ
storage = record {
  is_block_topological_ordered = is_ordered;
  get_topo_height_for_hash = λ hash. ok (height_of hash);
  get_height_for_block_hash = λ hash. ok (height_of hash);
  get_blocks_at_height = λ n. ok ((n ∷ []) ∷ (n ∷ 1 ∷ []) ∷ []);
  get_past_blocks_for_block_hash = λ hash. ok (tips_of hash);
  get_difficulty_for_block_hash = λ hash. ok 7;
  get_cumulative_difficulty_for_block_hash = λ hash. ok (height_of hash * 7 + 7);
  get_pruned_topoheight = ok none;
}

few_tips : (hash : Hash) → length (tips_of hash) ≤ 3
few_tips [] = omega arith
few_tips (zero ∷ rest) = omega arith
few_tips (suc zero ∷ rest) = omega arith
few_tips (suc (suc i) ∷ rest) = omega arith

lower_tips : (hash : Hash) → All (λ tip. height_of tip < height_of hash) (tips_of hash)
lower_tips [] = tt
lower_tips (zero ∷ rest) = tt
lower_tips (suc zero ∷ rest) = (omega arith, tt)
lower_tips (suc (suc i) ∷ rest) = (omega arith, (omega arith, tt))

abbrev view : View storage
view = record {
  height_of = height_of;
  topoheight_of = height_of;
  tips_of = tips_of;
  blocks_at = λ n. (n ∷ []) ∷ (n ∷ 1 ∷ []) ∷ [];
  difficulty_of = λ hash. 7;
  work_of = λ hash. height_of hash * 7 + 7;
  pruned = none;
  heights = λ h. refl;
  topoheights = λ h e. refl;
  tips = λ h. refl;
  blocks = λ n. refl;
  difficulties = λ h. refl;
  works = λ h. refl;
  prunes = refl;
  few = few_tips;
  below = lower_tips;
}

-- A cache that remembers the last entry.
abbrev key_beq : OrderKey → OrderKey → Bool
key_beq (a, b, n) (c, d, m) = hash_beq a c && hash_beq b d && (n == m)

key_beq_lem : (k l : OrderKey) → key_beq k l ≡ true → l ≡ k
key_beq_lem (a, b, n) (c, d, m) e = ground (arith, e, hash_beq_iff a c, hash_beq_iff b d)

module _ {V : Type 0} where
  abbrev find : Option (OrderKey × V) → OrderKey → Option V
  find none key = none
  find (some (k, v)) key = if key_beq k key then some v else none

  abbrev last_entry : LruCache (Option (OrderKey × V)) OrderKey V
  last_entry = record { get = λ k c. (find c k, c); put = λ k v c. some (k, v) }

  put_kept :
      (k : OrderKey) (v : V) (c : Option (OrderKey × V)) (k' : OrderKey) (w : V)
      → find (some (k, v)) k' ≡ some w
      → ((k' ≡ k) × (w ≡ v)) ⊎ (find c k' ≡ some w)
  put_kept k v c k' w e = elim (Bool-cases (key_beq k k')) [
    | inl same ↦ inl (key_beq_lem k k' same, ground (arith, e, same))
    | inr other ↦ absurd (ground (arith, e, other))
  ]

  abbrev last_entry_laws : LruLaws last_entry
  last_entry_laws = record {
    held = find;
    get_found = λ k c. refl;
    get_kept = λ k c k' v e. e;
    put_kept = put_kept;
  }

is_sync_block_at_height_iff_example :
    (b : Bool) × (is_sync_block_at_height storage (12 ∷ []) 30 ≡ ok b)
    × ((b ≡ true) ↔ IsSync storage view (12 ∷ []) 30)
is_sync_block_at_height_iff_example =
    is_sync_block_at_height_iff storage view (12 ∷ []) 30 (omega arith)

verify_distance_iff_example :
    (b : Bool) × (verify_distance_from_mainchain storage (weight_at 2) (2 ∷ 1 ∷ []) 6 ≡ some (ok b))
    × ((b ≡ true)
        ↔ ((x : Hash) → IsAnchor storage view (2 ∷ 1 ∷ []) x → 6 < height_of x + stable_limit))
verify_distance_iff_example =
    verify_distance_iff storage view (weight_at 2) (2 ∷ 1 ∷ []) 6 (omega arith) (omega arith)

abbrev two_tips : List Hash
two_tips = (2 ∷ []) ∷ (2 ∷ 1 ∷ []) ∷ []

verify_non_reachability_lem_example :
    (b : Bool) × (verify_non_reachability storage (weight_at 2) two_tips ≡ some (ok b))
    × (b ≡ true
        → (i j : ℕ) (x y : Hash) → get_elem? two_tips i ≡ some x
        → get_elem? two_tips j ≡ some y
        → i ≢ j
        → Ancestor storage view y x
        → height_of x + 2 * stable_limit ≤ height_of y)
    × (b ≡ false
        → (i : ℕ) × (j : ℕ) × (x : Hash) × (y : Hash) × (get_elem? two_tips i ≡ some x)
          × (get_elem? two_tips j ≡ some y)
          × (i ≢ j)
          × Ancestor storage view y x)
verify_non_reachability_lem_example =
    verify_non_reachability_lem storage view (weight_at 2) two_tips (omega arith, (omega arith, tt))

abbrev base : Hash
base = 0 ∷ []

generate_full_order_lem_example :
    (order : List Hash) × (left : Option (OrderKey × List Hash)) × (generate_full_order storage
        last_entry base 0 0
        (weight_at 2)
        (2 ∷ [])
        none
      ≡ some (ok order, left))
    × IsOrderOf storage view base 0 (2 ∷ []) order
    × IsCached storage view last_entry last_entry_laws left
generate_full_order_lem_example =
    generate_full_order_lem storage view last_entry last_entry_laws base 0 (weight_at 2) (2 ∷ [])
      none (λ root b n order e. absurd (ground (arith, e))) (omega arith)

-- The past of the block at height 1 is that block and the base.
Past-cases : (x : Hash) → Past storage view base 0 (1 ∷ []) x → (x ≡ 1 ∷ []) ⊎ (x ≡ base)
Past-cases x here = inl refl
Past-cases x (step {hash} p ne t) = elim (Past-cases hash p) [
  | inl e ↦ elim (subst (λ (h : Hash). IsOneOf x (tips_of h)) e t.0) [
    | inl same ↦ inr same
    | inr z ↦ absurd z
  ]
  | inr e ↦ absurd (ne e)
]

rooted :
    (x : Hash)
    → Past storage view base 0 (1 ∷ []) x
    → x ≢ base
    → (tip : Hash) × IsTip storage view base 0 tip x
rooted x p ne = elim (Past-cases x p) [
  | inl e ↦ (base, rw (e) (inl refl, inr (refl, omega arith)))
  | inr e ↦ absurd (ne e)
]

generate_full_order_first_example :
    (rest : List Hash) × (left : Option (OrderKey × List Hash)) × (generate_full_order storage
        last_entry base 0 0
        (weight_at 1)
        (1 ∷ [])
        none
      ≡ some (ok (base ∷ rest), left))
generate_full_order_first_example =
    generate_full_order_first storage view last_entry last_entry_laws base 0 (weight_at 1) (1 ∷ [])
      none (λ root b n order e. absurd (ground (arith, e))) (omega arith) rooted

-- What the block at height 1 stands on is the base.
Under-base : (x : Hash) → Under storage view 0 (1 ∷ []) x → x ≡ base
Under-base x (first t) = elim t.0 [ inl e ↦ e | inr z ↦ absurd z ]
Under-base x (next {hash} u t) =
    absurd (subst (λ (h : Hash). IsOneOf x (tips_of h)) (Under-base hash u) t.0)

small_sum : total (value_of storage view (1 ∷ []) base) ((1 ∷ []) ∷ base ∷ []) ≡ 14
unfolding hash_beq
small_sum = refl

small :
    (set : List Hash)
    → IsWorkSet storage view (1 ∷ []) base set
    → total (value_of storage view (1 ∷ []) base) set < 2 ^ 256
small set works =
    let bound =
      total-subset (value_of storage view (1 ∷ []) base) set ((1 ∷ []) ∷ base ∷ []) works.once
        (λ x m. elim ((works.members x).0 m) [
          | inl e ↦ inl e
          | inr (inl e) ↦ inr (inl e)
          | inr (inr u) ↦ inr (inl (Under-base x u))
        ]) in
    omega (arith, bound, small_sum)

find_tip_work_score_lem_example :
    (set : List Hash) × (score : ℕ) × (left : Option (OrderKey × (List Hash × ℕ)))
    × (find_tip_work_score storage last_entry integers (weight_at 1) (1 ∷ []) base 0 none
        ≡ some (ok (some (set, score)), left))
    × IsScored storage view (1 ∷ []) base set score
    × IsScoreCache storage view last_entry last_entry_laws integers left
find_tip_work_score_lem_example =
    find_tip_work_score_lem storage view last_entry last_entry_laws integers (weight_at 1) (1 ∷ [])
      base 0 none (λ h b n set score e. absurd (ground (arith, e))) refl (omega arith) small

find_best_tip-IsBest_example :
    (best : Hash) × (left : Option (OrderKey × (List Hash × ℕ))) × (find_best_tip storage last_entry
        integers
        (weight_at 1)
        ((1 ∷ []) ∷ [])
        base
        0
        none
      ≡ some (ok (some best), left))
    × IsBest storage view last_entry last_entry_laws integers base refl best ((1 ∷ []) ∷ [])
    × IsScoreCache storage view last_entry last_entry_laws integers left
find_best_tip-IsBest_example =
    find_best_tip-IsBest storage view last_entry last_entry_laws integers base refl (weight_at 1)
      (1 ∷ []) [] 0 none (λ h b n set score e. absurd (ground (arith, e))) (omega arith, tt)
      (small, tt)

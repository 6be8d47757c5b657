-- ===== src/Daemon/Dag/WorkScore/Score.antt =====
-- The score that `find_tip_work_score` of xelis_daemon/src/core/blockchain.rs gives, on a storage that knows its blocks.
use blockchain_xelis.Prelude.{
  ℕ, ◌+◌, ◌^◌, ◌≤◌, ◌<◌, ◌≡◌, ◌↔◌, ◌⊎◌, inl, inr, refl, ◌∙◌, ap, true, false, List, some, ok, arith,
  if◌then◌else◌, Bool-cases, Option-cases,
}
use mathlib.Core.Path.{subst}
use blockchain_xelis.Daemon.BlockDag.{Hash, hash_beq}
use blockchain_xelis.Daemon.BlockDag.Sets.{IsOneOf, IsSetLike, hash_beq_iff}
use blockchain_xelis.Daemon.Difficulty.{U256}
use blockchain_xelis.Daemon.Dag.{DagProvider}
use blockchain_xelis.Daemon.Dag.Lru.{LruCache, LruLaws}
use blockchain_xelis.Daemon.Dag.View.{View, weight_at}
use blockchain_xelis.Daemon.Dag.FullOrder.{OrderKey}
use blockchain_xelis.Daemon.Dag.WorkScore.{
  keys, map_insert, insert_base, collect_work, find_tip_work_score,
}
use blockchain_xelis.Daemon.Dag.WorkScore.Map.{
  IsOneOf-map_insert, map_insert-IsSetLike, Holds, Holds-map_insert, total, score_loop_lem,
}
use blockchain_xelis.Daemon.Dag.WorkScore.Walk.{Under}
use blockchain_xelis.Daemon.Dag.WorkScore.Loop.{score_tips-Under}

module _ {E : Type 0} (provider : DagProvider E) (view : View provider) where
  open view use {
    tips_of, height_of, topoheight_of, difficulty_of, work_of, tips, difficulties, works,
    topoheights,
  }

  -- What a block counts for: its difficulty, and the base all the work below it, unless it is the block itself.
  abbrev pub value_of : Hash → Hash → Hash → ℕ
  value_of hash base x =
      if hash_beq x hash
      then difficulty_of x
      else (if hash_beq x base then work_of base else difficulty_of x)

  -- The block, the base, and what the block stands on above the base, each once.
  pub record IsWorkSet (hash base : Hash) (set : List Hash) : Type 0 where
    pub members :
        (x : Hash)
        → IsOneOf x set
          ↔ ((x ≡ hash) ⊎ ((x ≡ base) ⊎ Under provider view (topoheight_of base) hash x))
    pub once : IsSetLike set

  hash_beq_refl : (x : Hash) → hash_beq x x ≡ true
  hash_beq_refl x = (hash_beq_iff x x).1 refl

  abbrev based : Hash → Hash → ℕ
  based base x = if hash_beq x base then work_of base else difficulty_of x

  -- The base goes into the map, unless it is the block.
  insert_base_lem :
      (hash base : Hash) (m : List (Hash × ℕ))
      → IsSetLike (keys m)
      → Holds difficulty_of m
      → (with_base : List (Hash × ℕ)) × (insert_base provider hash base m ≡ ok with_base)
        × ((x : Hash)
            → ((x ≡ hash) ⊎ IsOneOf x (keys with_base))
              ↔ ((x ≡ hash) ⊎ ((x ≡ base) ⊎ IsOneOf x (keys m))))
        × IsSetLike (keys with_base)
        × ((value : Hash → ℕ) × Holds value with_base
            × ((x : Hash) → hash_beq x hash ≡ false → value_of hash base x ≡ value x))
  unfolding insert_base
  insert_base_lem hash base m s h = elim (Bool-cases (hash_beq base hash)) [
    | inl same ↦
        let e : base ≡ hash = (hash_beq_iff base hash).0 same in
        (
          m,
          rw (insert_base, same) refl,
          (λ x. (
            (λ w. elim w [ inl i ↦ inl i | inr k ↦ inr (inr k) ]),
            (λ w. elim w [ inl i ↦ inl i | inr (inl i) ↦ inl (i ∙ e) | inr (inr k) ↦ inr k ]),
          )),
          s,
          (difficulty_of, h, (λ x n. rw (n, e, n) refl)),
        )
    | inr differ ↦
        let v : based base base ≡ work_of base = rw (hash_beq_refl base) refl in
        let f = Holds-map_insert difficulty_of (based base) base m (λ x n. rw (n) refl) s h in
        (
          map_insert base (work_of base) m,
          rw (insert_base, differ, works base) refl,
          (λ x.
              let put = IsOneOf-map_insert x base (work_of base) m in
              (
                (λ w. elim w [ inl i ↦ inl i | inr k ↦ inr (put.0 k) ]),
                (λ w. elim w [ inl i ↦ inl i | inr k ↦ inr (put.1 k) ]),
              )),
          map_insert-IsSetLike base (work_of base) m s,
          (
            based base,
            subst (λ (n : ℕ). Holds (based base) (map_insert base n m)) v f,
            (λ x n. rw (n) refl),
          ),
        )
  ]

  collect_work_lem :
      (fuel : ℕ) (hash base : Hash)
      → provider.is_block_topological_ordered base ≡ true
      → weight_at (height_of hash) ≤ fuel
      → (m : List (Hash × ℕ)) × (collect_work provider fuel hash base ≡ some (ok m))
        × IsWorkSet hash base (keys m)
        × Holds (value_of hash base) m
  unfolding collect_work
  collect_work_lem fuel hash base ordered enough =
      let (m, run, under, once, values) =
        score_tips-Under provider view (topoheight_of base) hash fuel enough in
      let (with_base, based_run, members, set, (value, held, agree)) =
        insert_base_lem hash base m once values in
      let top : value_of hash base hash ≡ difficulty_of hash = rw (hash_beq_refl hash) refl in
      (
        map_insert hash (difficulty_of hash) with_base,
        rw (collect_work, tips hash, topoheights base ordered, run, based_run, difficulties hash)
            refl,
        record {
          members = λ x.
              let put = IsOneOf-map_insert x hash (difficulty_of hash) with_base in
              let all = members x in
              let u = under x in
              (
                (λ k. elim (all.0 (put.0 k)) [
                  | inl i ↦ inl i
                  | inr (inl i) ↦ inr (inl i)
                  | inr (inr d) ↦ inr (inr (u.0 d))
                ]),
                (λ w. put.1 (
                    all.1 (elim w [
                      | inl i ↦ inl i
                      | inr (inl i) ↦ inr (inl i)
                      | inr (inr d) ↦ inr (inr (u.1 d))
                    ]))),
              );
          once = map_insert-IsSetLike hash (difficulty_of hash) with_base set;
        },
        subst (λ (n : ℕ). Holds (value_of hash base) (map_insert hash n with_base)) top
            (Holds-map_insert value (value_of hash base) hash with_base agree set held),
      )

  -- The set and its sum.
  abbrev pub IsScored : Hash → Hash → List Hash → ℕ → Type 0
  IsScored hash base set score = IsWorkSet hash base set × (score ≡ total (value_of hash base) set)

  module _ {C : Type 0} (lru : LruCache C OrderKey (List Hash × ℕ)) (laws : LruLaws lru)
      (u : U256) where
    -- The cache holds, for a block, a base and any height, the set and the score of the block above the base.
    abbrev pub IsScoreCache : C → Type 0
    IsScoreCache cache =
        (hash base : Hash) (n : ℕ) (set : List Hash) (score : ℕ)
        → laws.held cache (hash, base, n) ≡ some (set, score)
        → IsScored hash base set score

    -- On a storage that knows its blocks, with a cache that holds scores, as much fuel as the height of the block asks for, an ordered base and
    -- works that sum up to less than 2 ^ 256, a set and a score are computed, and the cache still holds scores. The
    -- set consists of the block, the base and the blocks that the block stands on over tips which are not ordered below the base, each once;
    -- the score is the sum of their difficulties, where the base counts with its cumulative difficulty unless it is the block.
    pub find_tip_work_score_lem :
        (fuel : ℕ) (hash base : Hash) (base_height : ℕ) (cache : C)
        → IsScoreCache cache
        → provider.is_block_topological_ordered base ≡ true
        → weight_at (height_of hash) ≤ fuel
        → ((set : List Hash) → IsWorkSet hash base set → total (value_of hash base) set < 2 ^ 256)
        → (set : List Hash) × (score : ℕ) × (left : C) × (find_tip_work_score provider lru u fuel
              hash base base_height cache
            ≡ some (ok (some (set, score)), left))
          × IsScored hash base set score
          × IsScoreCache left
    unfolding find_tip_work_score
    find_tip_work_score_lem fuel hash base base_height cache good ordered enough small =
        let key : OrderKey = (hash, base, base_height) in
        let used_good : IsScoreCache (lru.get key cache).1 = (λ h b n set score e.
          good h b n set score (laws.get_kept key cache (h, b, n) (set, score) e)) in
        elim (Option-cases (laws.held cache key)) [
          | inr ((set, score), hit) ↦ (
            set,
            score,
            (lru.get key cache).1,
            rw (find_tip_work_score, laws.get_found key cache, hit) refl,
            good hash base base_height set score hit,
            used_good,
          )
          | inl miss ↦
              let (m, run, works_set, held) = collect_work_lem fuel hash base ordered enough in
              let bound = small (keys m) works_set in
              let sum = score_loop_lem u (value_of hash base) m 0 held (omega (arith, bound)) in
              let score = 0 + total (value_of hash base) (keys m) in
              let scored : IsScored hash base (keys m) score = (works_set, omega arith) in
              (
                keys m,
                score,
                lru.put key (keys m, score) (lru.get key cache).1,
                rw (find_tip_work_score, laws.get_found key cache, miss, run, sum) refl,
                scored,
                (λ h b n set s e.
                    elim (laws.put_kept key (keys m, score) (lru.get key cache).1 (h, b, n) (set, s)
                      e) [
                        | inl (k, v) ↦
                            rw
                              (
                                ap (λ (x : OrderKey). x.0) k,
                                ap (λ (x : OrderKey). x.1) k,
                                ap (λ (x : List Hash × ℕ). x.0) v,
                                ap (λ (x : List Hash × ℕ). x.1) v,
                              )
                              scored
                        | inr old ↦ used_good h b n set s old
                      ]),
              )
        ]

-- ===== src/Daemon/Dag/WorkScore/Walk.antt =====
-- The walk of `find_tip_work_score_internal` of xelis_daemon/src/core/blockchain.rs, on a storage that knows its blocks.
use blockchain_xelis.Prelude.{
  ℕ, ◌+◌, ◌≤◌, ◌≡◌, ◌↔◌, ◌⊎◌, inl, inr, refl, false, List, [], ◌∷◌, ok, arith, Bool-cases,
}
use blockchain_xelis.Daemon.BlockDag.{Hash, contains}
use blockchain_xelis.Daemon.BlockDag.Sets.{IsOneOf, IsSetLike, contains_iff}
use blockchain_xelis.Daemon.Dag.{DagProvider}
use blockchain_xelis.Daemon.Dag.View.{View, stack_weight}
use blockchain_xelis.Daemon.Dag.FullOrder.Scores.{IsAbove, is_above_base_lem}
use blockchain_xelis.Daemon.Dag.WorkScore.{keys, map_insert, work_tips, add_difficulty}
use blockchain_xelis.Daemon.Dag.WorkScore.Map.{
  IsOneOf-map_insert, map_insert-IsSetLike, Holds, Holds-map_insert,
}

module _ {E : Type 0} (provider : DagProvider E) (view : View provider) (base_topo : ℕ) where
  open view use {tips_of, height_of, difficulty_of, tips, difficulties, few, below}

  abbrev pub IsTipAbove : Hash → Hash → Type 0
  IsTipAbove tip hash = IsOneOf tip (tips_of hash) × IsAbove provider view base_topo tip

  -- The blocks that `root` stands on, over tips that are not ordered below the base.
  pub data Under (root : Hash) : Hash → Type 0 where
    first : {tip : Hash} → IsTipAbove tip root → Under root tip
    next : {hash tip : Hash} → Under root hash → IsTipAbove tip hash → Under root tip

  pub work_tips_lem :
      (map : List (Hash × ℕ)) (l stack : List Hash)
      → (pushed : List Hash) × (work_tips provider base_topo map l stack ≡ ok pushed)
        × ((x : Hash)
            → IsOneOf x pushed ↔ (
                IsOneOf x stack
                ⊎ (IsOneOf x l
                    × IsAbove provider view base_topo x
                    × (contains (keys map) x ≡ false))))
        × (stack_weight height_of pushed ≤ stack_weight height_of l + stack_weight height_of stack)
  unfolding work_tips stack_weight
  work_tips_lem map [] stack = (
    stack,
    refl,
    (λ x. ((λ m. inl m), (λ w. elim w [ inl m ↦ m | inr t ↦ absurd t.0 ]))),
    omega arith,
  )
  work_tips_lem map (t ∷ l) stack =
      let (b, test, law) = is_above_base_lem provider view base_topo t in
      elim (Bool-cases (contains (keys map) t)) [
        | inl known ↦
            let (pushed, run, members, weight) = work_tips_lem map l stack in
            (
              pushed,
              rw (work_tips, known) run,
              (λ x. (
                (λ m. elim ((members x).0 m) [ inl k ↦ inl k | inr (k, a, c) ↦ inr (inr k, a, c) ]),
                (λ w. (members x).1 (elim w [
                  | inl k ↦ inl k
                  | inr (inl e, a, c) ↦
                      let c' : contains (keys map) t ≡ false = rw (← e) c in
                      absurd (ground (arith, c', known))
                  | inr (inr k, a, c) ↦ inr (k, a, c)
                ])),
              )),
              omega (arith, weight),
            )
        | inr new ↦ elim (Bool-cases b) [
          | inl above ↦
              let (pushed, run, members, weight) = work_tips_lem map l (t ∷ stack) in
              (
                pushed,
                rw (work_tips, new, test, above) run,
                (λ x. (
                  (λ m. elim ((members x).0 m) [
                    | inl (inl e) ↦ inr (inl e, rw (e) (law.0 above), rw (e) new)
                    | inl (inr k) ↦ inl k
                    | inr (k, a, c) ↦ inr (inr k, a, c)
                  ]),
                  (λ w. (members x).1 (elim w [
                    | inl k ↦ inl (inr k)
                    | inr (inl e, a, c) ↦ inl (inl e)
                    | inr (inr k, a, c) ↦ inr (k, a, c)
                  ])),
                )),
                omega (arith, weight),
              )
          | inr low ↦
              let (pushed, run, members, weight) = work_tips_lem map l stack in
              (
                pushed,
                rw (work_tips, new, test, low) run,
                (λ x. (
                  (λ m. elim ((members x).0 m) [
                    | inl k ↦ inl k
                    | inr (k, a, c) ↦ inr (inr k, a, c)
                  ]),
                  (λ w. (members x).1 (elim w [
                    | inl k ↦ inl k
                    | inr (inl e, a, c) ↦
                        let a' : IsAbove provider view base_topo t = rw (← e) a in
                        absurd (ground (arith, low, law.1 a'))
                    | inr (inr k, a, c) ↦ inr (k, a, c)
                  ])),
                )),
                omega (arith, weight),
              )
        ]
      ]

  -- The map is closed but for the stack, and holds the difficulties of blocks under the root.
  pub record Inv (root : Hash) (map : List (Hash × ℕ)) (stack : List Hash) : Type 0 where
    pub under : (x : Hash) → IsOneOf x (keys map) ⊎ IsOneOf x stack → Under root x
    pub closed :
        (x tip : Hash)
        → IsOneOf x (keys map)
        → IsTipAbove tip x
        → IsOneOf tip (keys map) ⊎ IsOneOf tip stack
    pub once : IsSetLike (keys map)
    pub values : Holds difficulty_of map

  pub add_difficulty_lem :
      (map : List (Hash × ℕ)) (x : Hash)
      → IsSetLike (keys map)
      → Holds difficulty_of map
      → (added : List (Hash × ℕ)) × (add_difficulty provider map x ≡ ok added)
        × ((y : Hash) → IsOneOf y (keys added) ↔ ((y ≡ x) ⊎ IsOneOf y (keys map)))
        × IsSetLike (keys added)
        × Holds difficulty_of added
  unfolding add_difficulty
  add_difficulty_lem map x s h = elim (Bool-cases (contains (keys map) x)) [
    | inl known ↦ (
      map,
      rw (add_difficulty, known) refl,
      (λ y. (
        (λ m. inr m),
        (λ w. elim w [ inl e ↦ rw (e) ((contains_iff (keys map) x).0 known) | inr m ↦ m ]),
      )),
      s,
      h,
    )
    | inr new ↦ (
      map_insert x (difficulty_of x) map,
      rw (add_difficulty, new, difficulties x) refl,
      (λ y. IsOneOf-map_insert y x (difficulty_of x) map),
      map_insert-IsSetLike x (difficulty_of x) map s,
      Holds-map_insert difficulty_of difficulty_of x map (λ y e. refl) s h,
    )
  ]

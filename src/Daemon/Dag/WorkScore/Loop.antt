-- ===== src/Daemon/Dag/WorkScore/Loop.antt =====
-- The loop over the tips in `find_tip_work_score` of xelis_daemon/src/core/blockchain.rs, on a storage that knows its blocks.
use blockchain_xelis.Prelude.{
  ℕ, zero, suc, ◌≤◌, ◌<◌, ◌≡◌, ◌↔◌, ◌⊎◌, inl, inr, refl, false, List, [], ◌∷◌, some, ok, arith, All,
  Bool-cases,
}
use mathlib.Core.Path.{subst}
use blockchain_xelis.Daemon.BlockDag.{Hash, contains}
use blockchain_xelis.Daemon.BlockDag.Sets.{IsOneOf, IsSetLike, contains_iff}
use blockchain_xelis.Daemon.Dag.{DagProvider}
use blockchain_xelis.Daemon.Dag.View.{
  View, weight_at, weight_at-bound, weight_at_mono, stack_weight, stack_weight-tips,
}
use blockchain_xelis.Daemon.Dag.FullOrder.Scores.{IsAbove, is_above_base_lem}
use blockchain_xelis.Daemon.Dag.WorkScore.{keys, find_tip_work_score_internal, score_tips}
use blockchain_xelis.Daemon.Dag.WorkScore.Map.{Holds}
use blockchain_xelis.Daemon.Dag.WorkScore.Walk.{
  IsTipAbove, Under, first, next, Inv, work_tips_lem, add_difficulty_lem,
}

module _ {E : Type 0} (provider : DagProvider E) (view : View provider) (base_topo : ℕ) where
  open view use {tips_of, height_of, difficulty_of, tips, difficulties, few, below}

  abbrev InMap : Hash → List (Hash × ℕ) → Type 0
  InMap x map = IsOneOf x (keys map)

  -- A round of the walk.
  Inv-round :
      (root x : Hash) (map added : List (Hash × ℕ)) (stack pushed : List Hash)
      → Inv provider view base_topo root map (x ∷ stack)
      → ((y : Hash)
          → IsOneOf y pushed ↔ (
              IsOneOf y stack
              ⊎ (IsOneOf y (tips_of x)
                  × IsAbove provider view base_topo y
                  × (contains (keys map) y ≡ false))))
      → ((y : Hash) → InMap y added ↔ ((y ≡ x) ⊎ InMap y map))
      → IsSetLike (keys added)
      → Holds difficulty_of added
      → Inv provider view base_topo root added pushed
  Inv-round root x map added stack pushed i push add once values = record {
    under = λ y m. elim m [
      | inl k ↦ elim ((add y).0 k) [
        | inl e ↦ rw (e) (i.under x (inr (inl refl)))
        | inr old ↦ i.under y (inl old)
      ]
      | inr k ↦ elim ((push y).0 k) [
        | inl old ↦ i.under y (inr (inr old))
        | inr (t, a, c) ↦ next (i.under x (inr (inl refl))) (t, a)
      ]
    ];
    closed = λ y tip m t. elim ((add y).0 m) [
      | inl e ↦
          let t' : IsTipAbove provider view base_topo tip x =
            subst (λ (h : Hash). IsTipAbove provider view base_topo tip h) e t in
          elim (Bool-cases (contains (keys map) tip)) [
            | inl known ↦ inl ((add tip).1 (inr ((contains_iff (keys map) tip).0 known)))
            | inr new ↦ inr ((push tip).1 (inr (t'.0, t'.1, new)))
          ]
      | inr old ↦ elim (i.closed y tip old t) [
        | inl k ↦ inl ((add tip).1 (inr k))
        | inr (inl e) ↦ inl ((add tip).1 (inl e))
        | inr (inr k) ↦ inr ((push tip).1 (inl k))
      ]
    ];
    once = once;
    values = values;
  }

  walk_lem :
      (root : Hash) (fuel : ℕ) (map : List (Hash × ℕ)) (stack : List Hash)
      → Inv provider view base_topo root map stack
      → stack_weight height_of stack ≤ fuel
      → (end : List (Hash × ℕ)) × (find_tip_work_score_internal provider fuel base_topo map stack
          ≡ some (ok end))
        × Inv provider view base_topo root end []
        × ((x : Hash) → InMap x map ⊎ IsOneOf x stack → InMap x end)
  unfolding find_tip_work_score_internal stack_weight
  walk_lem root fuel map [] i enough =
      (map, refl, i, (λ x m. elim m [ inl k ↦ k | inr z ↦ absurd z ]))
  walk_lem root zero map (x ∷ stack) i enough =
      absurd (omega (arith, weight_at-bound (height_of x)))
  walk_lem root (suc fuel) map (x ∷ stack) i enough =
      let (pushed, push_run, push, weight) =
        work_tips_lem provider view base_topo map (tips_of x) stack in
      let (added, add_run, add, once, values) =
        add_difficulty_lem provider view base_topo map x i.once i.values in
      let less = stack_weight-tips height_of (height_of x) (tips_of x) (few x) (below x) in
      let (end, run, final, kept) =
        walk_lem root fuel added pushed
          (Inv-round root x map added stack pushed i push add once values)
          (omega (arith, less, weight)) in
      (
        end,
        rw (find_tip_work_score_internal, tips x, push_run, add_run) run,
        final,
        (λ y m. elim m [
          | inl k ↦ kept y (inl ((add y).1 (inr k)))
          | inr (inl e) ↦ kept y (inl ((add y).1 (inl e)))
          | inr (inr k) ↦ kept y (inr ((push y).1 (inl k)))
        ]),
      )

  score_tips_lem :
      (root : Hash) (fuel : ℕ) (map : List (Hash × ℕ)) (l : List Hash)
      → Inv provider view base_topo root map []
      → All (λ x. height_of x < height_of root) l
      → ((x : Hash) → IsOneOf x l → IsOneOf x (tips_of root))
      → weight_at (height_of root) ≤ fuel
      → (end : List (Hash × ℕ)) × (score_tips provider fuel base_topo map l ≡ some (ok end))
        × Inv provider view base_topo root end []
        × ((x : Hash)
            → InMap x map ⊎ (IsOneOf x l × IsAbove provider view base_topo x)
            → InMap x end)
  unfolding score_tips stack_weight
  score_tips_lem root fuel map [] i low sub enough =
      (map, refl, i, (λ x m. elim m [ inl k ↦ k | inr z ↦ absurd z.0 ]))
  score_tips_lem root fuel map (t ∷ l) i low sub enough =
      let (b, test, law) = is_above_base_lem provider view base_topo t in
      elim (Bool-cases (contains (keys map) t)) [
        | inl known ↦
            let (end, run, final, kept) =
              score_tips_lem root fuel map l i low.1 (λ x m. sub x (inr m)) enough in
            (
              end,
              rw (score_tips, known) run,
              final,
              (λ x m. elim m [
                | inl k ↦ kept x (inl k)
                | inr (inl e, a) ↦ kept x (inl (rw (e) ((contains_iff (keys map) t).0 known)))
                | inr (inr k, a) ↦ kept x (inr (k, a))
              ]),
            )
        | inr new ↦ elim (Bool-cases b) [
          | inr below_base ↦
              let (end, run, final, kept) =
                score_tips_lem root fuel map l i low.1 (λ x m. sub x (inr m)) enough in
              (
                end,
                rw (score_tips, new, test, below_base) run,
                final,
                (λ x m. elim m [
                  | inl k ↦ kept x (inl k)
                  | inr (inl e, a) ↦
                      let a' : IsAbove provider view base_topo t = rw (← e) a in
                      absurd (ground (arith, below_base, law.1 a'))
                  | inr (inr k, a) ↦ kept x (inr (k, a))
                ]),
              )
          | inl above ↦
              let start : Inv provider view base_topo root map (t ∷ []) = record {
                under = λ x m. elim m [
                  | inl k ↦ i.under x (inl k)
                  | inr (inl e) ↦ rw (e) (first (sub t (inl refl), law.0 above))
                  | inr (inr z) ↦ absurd z
                ];
                closed =
                    λ x tip m k. elim (i.closed x tip m k) [ inl old ↦ inl old | inr z ↦ absurd z ];
                once = i.once;
                values = i.values;
              } in
              let light = weight_at_mono (height_of t) (height_of root) (omega (arith, low.0)) in
              let (mid, walk, passed, held) =
                walk_lem root fuel map (t ∷ []) start (omega (arith, light, enough)) in
              let (end, run, final, kept) =
                score_tips_lem root fuel mid l passed low.1 (λ x m. sub x (inr m)) enough in
              (
                end,
                rw (score_tips, new, test, above, walk) run,
                final,
                (λ x m. elim m [
                  | inl k ↦ kept x (inl (held x (inl k)))
                  | inr (inl e, a) ↦ kept x (inl (held x (inr (inl e))))
                  | inr (inr k, a) ↦ kept x (inr (k, a))
                ]),
              )
        ]
      ]

  -- All that the root stands on is in the map.
  Under-kept :
      {root x : Hash} {map : List (Hash × ℕ)}
      → Inv provider view base_topo root map []
      → ((t : Hash) → IsTipAbove provider view base_topo t root → InMap t map)
      → Under provider view base_topo root x
      → InMap x map
  Under-kept i tops (first t) = tops _ t
  Under-kept i tops (next {hash} {tip} u t) = elim (i.closed hash tip (Under-kept i tops u) t) [
    | inl k ↦ k
    | inr z ↦ absurd z
  ]

  pub score_tips-Under :
      (root : Hash) (fuel : ℕ)
      → weight_at (height_of root) ≤ fuel
      → (end : List (Hash × ℕ)) × (score_tips provider fuel base_topo [] (tips_of root)
          ≡ some (ok end))
        × ((x : Hash) → IsOneOf x (keys end) ↔ Under provider view base_topo root x)
        × IsSetLike (keys end)
        × Holds difficulty_of end
  score_tips-Under root fuel enough =
      let (end, run, i, kept) =
        score_tips_lem root fuel [] (tips_of root)
          (record {
            under = λ x m. elim m [ inl z ↦ absurd z | inr z ↦ absurd z ];
            closed = λ x tip m. absurd m;
            once = tt;
            values = tt;
          })
          (below root) (λ x m. m) enough in
      (
        end,
        run,
        (λ x. ((λ m. i.under x (inl m)), (λ u. Under-kept i (λ t a. kept t (inr (a.0, a.1))) u))),
        i.once,
        i.values,
      )

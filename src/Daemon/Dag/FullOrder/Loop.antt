-- ===== src/Daemon/Dag/FullOrder/Loop.antt =====
-- The run of `generate_full_order` of xelis_daemon/src/core/blockchain.rs, on a storage that knows its blocks.
use blockchain_xelis.Prelude.{
  ◌≤◌, ◌≡◌, ◌≢◌, inl, inr, refl, ℕ, zero, suc, true, ◌||◌, List, [], ◌∷◌, ◌++◌, arith, Option, some,
  Result, ok, ap, Bool-cases, Option-cases,
}
use blockchain_xelis.Daemon.BlockDag.{Hash, hash_beq, contains, collect_onto}
use blockchain_xelis.Daemon.BlockDag.Sets.{
  IsOneOf, contains_iff, not_contained, hash_beq_iff, IsOneOf-collect_onto, collect_onto-IsSetLike,
}
use blockchain_xelis.Daemon.Dag.{DagProvider}
use blockchain_xelis.Daemon.Dag.Lru.{LruCache, LruLaws}
use blockchain_xelis.Daemon.Dag.View.{View, weight_at, weight_at-bound, stack_weight-tips}
use blockchain_xelis.Daemon.Dag.FullOrder.{OrderKey, is_empty, order_loop, generate_full_order}
use blockchain_xelis.Daemon.Dag.FullOrder.Scores.{order_scores-Pushed}
use blockchain_xelis.Daemon.Dag.FullOrder.Order.{
  IsTip, Past, here, IsOrderOf, IsOrderOf-intro, IsReady-extend, Past-trans,
}
use blockchain_xelis.Daemon.Dag.FullOrder.Invariant.{Inv, Inv-order, Inv-expand}
use blockchain_xelis.Daemon.Dag.FullOrder.Weight.{
  order_weight, order_weight-process, order_weight-push,
}

module _ {E C : Type 0} (provider : DagProvider E) (view : View provider)
    (lru : LruCache C OrderKey (List Hash)) (laws : LruLaws lru) where
  open view use {tips_of, height_of, topoheight_of, tips, few, below}

  -- The cache holds, for a block, a base and any height, the order of the past of the block above the base.
  abbrev pub IsCached : C → Type 0
  IsCached cache =
      (root base : Hash) (n : ℕ) (order : List Hash)
      → laws.held cache (root, base, n) ≡ some order
      → IsOrderOf provider view base (topoheight_of base) root order

  IsCached-get : (k : OrderKey) (c : C) → IsCached c → IsCached (lru.get k c).1
  IsCached-get k c ok_cache root base n order e =
      ok_cache root base n order (laws.get_kept k c (root, base, n) order e)

  IsCached-put :
      (root base : Hash) (n : ℕ) (order : List Hash) (c : C)
      → IsCached c
      → IsOrderOf provider view base (topoheight_of base) root order
      → IsCached (lru.put (root, base, n) order c)
  IsCached-put root base n order c ok_cache good r b m o e =
      elim (laws.put_kept (root, base, n) order c (r, b, m) o e) [
        | inl (key, same) ↦
            rw (ap (λ (k : OrderKey). k.0) key, ap (λ (k : OrderKey). k.1) key, same) good
        | inr old ↦ ok_cache r b m o old
      ]

  module _ (base : Hash) (base_height : ℕ) where
    abbrev base_topo : ℕ
    base_topo = topoheight_of base

    -- A block goes into the order when its tips are there.
    Inv-insert :
        {root x : Hash} {stack processed order : List Hash}
        → Inv provider view base base_topo root (x ∷ stack) processed order
        → (x ≢ base → (tip : Hash) → IsTip provider view base base_topo tip x → IsOneOf tip order)
        → Inv provider view base base_topo root stack processed (collect_onto order (x ∷ []))
    Inv-insert {root} {x} {stack} {processed} {order} i tips_in =
        Inv-order provider view base base_topo (collect_onto order (x ∷ [])) i
          (λ y m. (IsOneOf-collect_onto y order (x ∷ [])).1 (inl m))
          ((IsOneOf-collect_onto x order (x ∷ [])).1 (inr (inl refl)))
          (IsReady-extend provider view base base_topo order order (x ∷ []) i.ready (tips_in, tt)
            (λ y m. m))
          (collect_onto-IsSetLike order (x ∷ []) i.once)
          (λ y m. elim ((IsOneOf-collect_onto y order (x ∷ [])).0 m) [
            | inl o ↦ i.past y (inl o)
            | inr (inl e) ↦ i.past y (inr (inl e))
            | inr (inr z) ↦ absurd z
          ])

    Inv-cached :
        {root x : Hash} {stack processed order : List Hash} (cached : List Hash)
        → Inv provider view base base_topo root (x ∷ stack) processed order
        → IsOrderOf provider view base base_topo x cached
        → Inv provider view base base_topo root stack processed (collect_onto order cached)
    Inv-cached {root} {x} {stack} {processed} {order} cached i c =
        Inv-order provider view base base_topo (collect_onto order cached) i
          (λ y m. (IsOneOf-collect_onto y order cached).1 (inl m))
          ((IsOneOf-collect_onto x order cached).1 (inr ((c.members x).1 here)))
          (IsReady-extend provider view base base_topo [] order cached i.ready c.ready
            (λ y m. absurd m))
          (collect_onto-IsSetLike order cached i.once)
          (λ y m. elim ((IsOneOf-collect_onto y order cached).0 m) [
            | inl o ↦ i.past y (inl o)
            | inr k ↦
                Past-trans provider view base base_topo (i.past x (inr (inl refl)))
                  ((c.members y).0 k)
          ])

    -- A block without tips, and the base, are their own order.
    IsOrderOf-alone :
        (x : Hash)
        → (is_empty (tips_of x) || hash_beq x base) ≡ true
        → ((tip : Hash) → x ≢ base → ¬ IsTip provider view base base_topo tip x)
    IsOrderOf-alone x e tip ne t = elim (Bool-cases (hash_beq x base)) [
      | inl same ↦ ne ((hash_beq_iff x base).0 same)
      | inr differ ↦ nothing (tips_of x) (ground (arith, e, differ)) t.0
    ]
      where
        nothing : (l : List Hash) → is_empty l ≡ true → ¬ IsOneOf tip l
        nothing [] e m = m
        nothing (y ∷ l) e m = ground (arith, e)

    single :
        (x : Hash)
        → ((tip : Hash) → x ≢ base → ¬ IsTip provider view base base_topo tip x)
        → IsOrderOf provider view base base_topo x (x ∷ [])
    single x alone =
        IsOrderOf-intro provider view base base_topo x (x ∷ [])
          ((λ ne tip t. absurd (alone tip ne t)), tt) (inl refl)
          (λ y m. elim m [ inl e ↦ rw (e) here | inr z ↦ absurd z ]) ((λ m. m), tt)

    -- The loop ends, with the invariant for an empty stack.
    abbrev Ends : Hash → Option (Result E (List Hash) × C) → Type 0
    Ends root r =
        (order processed : List Hash) × (left : C) × (r ≡ some (ok order, left))
        × Inv provider view base base_topo root [] processed order
        × IsCached left

    order_loop-Ends :
        (root : Hash) (fuel : ℕ) (stack processed order : List Hash) (cache : C)
        → Inv provider view base base_topo root stack processed order
        → IsCached cache
        → order_weight height_of processed stack ≤ fuel
        → Ends root
            (order_loop provider lru base base_height base_topo fuel stack processed order cache)
    unfolding order_loop order_weight
    order_loop-Ends root fuel [] processed order cache i ok_cache enough =
        (order, processed, cache, refl, i, ok_cache)
    order_loop-Ends root zero (x ∷ stack) processed order cache i ok_cache enough =
        let heavy = weight_at-bound (height_of x) in absurd (ground (arith, heavy, enough))
    order_loop-Ends root (suc fuel) (x ∷ stack) processed order cache i ok_cache enough =
        let key : OrderKey = (x, base, base_height) in
        let heavy = weight_at-bound (height_of x) in
        let used = (lru.get key cache).1 in
        let used_ok = IsCached-get key cache ok_cache in
        elim (Bool-cases (contains processed x)) [
          | inl old ↦
              let member = (contains_iff processed x).0 old in
              rw (order_loop, old)
                (order_loop-Ends root fuel stack processed (collect_onto order (x ∷ [])) cache
                  (Inv-insert i (λ ne tip t. i.good.0 member tip t)) ok_cache
                  (ground (arith, enough, old)))
          | inr new ↦
              let lighter : order_weight height_of processed stack ≤ fuel =
                ground (arith, enough, new, heavy) in
              elim (Option-cases (laws.held cache key)) [
                | inr (cached, hit) ↦
                    rw (order_loop, new, laws.get_found key cache, hit)
                      (order_loop-Ends root fuel stack processed (collect_onto order cached) used
                        (Inv-cached cached i (ok_cache x base base_height cached hit)) used_ok
                        lighter)
                | inl miss ↦ elim (Bool-cases (is_empty (tips_of x) || hash_beq x base)) [
                  | inl last ↦
                      let alone = IsOrderOf-alone x last in
                      rw (order_loop, new, laws.get_found key cache, miss, tips x, last)
                        (order_loop-Ends root fuel stack processed (collect_onto order (x ∷ []))
                          (lru.put key (x ∷ []) used)
                          (Inv-insert i (λ ne tip t. absurd (alone tip ne t)))
                          (IsCached-put x base base_height (x ∷ []) used used_ok (single x alone))
                          lighter)
                  | inr more ↦
                      let (q, scores, pushed) =
                        order_scores-Pushed provider view base_topo (tips_of x) in
                      let differ : x ≢ base =
                        (λ same. ground (arith, more, (hash_beq_iff x base).1 same)) in
                      let less =
                        stack_weight-tips height_of (height_of x) (tips_of x) (few x) (below x) in
                      let a = order_weight-push height_of (x ∷ processed) q (x ∷ stack) in
                      let b = order_weight-process height_of x processed stack in
                      let w = pushed.weight in
                      let now : contains (x ∷ processed) x ≡ true =
                        (contains_iff (x ∷ processed) x).1 (inl refl) in
                      rw
                        (
                          order_loop,
                          new,
                          laws.get_found key cache,
                          miss,
                          tips x,
                          more,
                          pushed.scored,
                          pushed.onto (x ∷ stack),
                        )
                        (order_loop-Ends root fuel (q ++ x ∷ stack) (x ∷ processed) order used
                          (Inv-expand provider view base base_topo q i
                            (not_contained processed x new) differ pushed.members)
                          used_ok (ground (arith, enough, new, less, a, b, w, now)))
                ]
              ]
        ]

    -- On a storage that knows its blocks, with a cache that holds orders and as much fuel as the height of the block asks for, the order of a block above
    -- a base is computed, and the cache still holds orders. The order consists of the blocks that are reached from the block over tips which are not ordered below the
    -- base, and not through the base; each stands in it once, and after all such tips of its own.
    pub generate_full_order_lem :
        (fuel : ℕ) (hash : Hash) (cache : C)
        → IsCached cache
        → weight_at (height_of hash) ≤ fuel
        → (order : List Hash) × (left : C) × (generate_full_order provider lru base base_height
              base_topo fuel hash cache
            ≡ some (ok order, left))
          × IsOrderOf provider view base base_topo hash order
          × IsCached left
    unfolding generate_full_order order_weight
    generate_full_order_lem fuel hash cache ok_cache enough =
        let start : Inv provider view base base_topo hash (hash ∷ []) [] [] = record {
          ready = tt;
          once = tt;
          good = ((λ m. absurd m), tt);
          deep = λ x m. absurd m;
          inner = λ x m. absurd m;
          past = λ x m. elim m [
            | inl z ↦ absurd z
            | inr (inl e) ↦ rw (e) here
            | inr (inr z) ↦ absurd z
          ];
          begun = inr (inl refl);
        } in
        let (order, processed, left, run, i, left_ok) =
          order_loop-Ends hash fuel (hash ∷ []) [] [] cache start ok_cache
            (ground (arith, enough)) in
        let top : IsOneOf hash order = elim i.begun [ inl o ↦ o | inr z ↦ absurd z ] in
        let good =
          IsOrderOf-intro provider view base base_topo hash order i.ready top
            (λ x m. i.past x (inl m)) i.once in
        (
          order,
          lru.put (hash, base, base_height) order left,
          rw (generate_full_order, run) refl,
          good,
          IsCached-put hash base base_height order left left_ok good,
        )

    -- On such a storage, if every block of the past of a block but the base has a tip that is not ordered below the base, the
    -- order of the block begins with the base.
    pub generate_full_order_first :
        (fuel : ℕ) (hash : Hash) (cache : C)
        → IsCached cache
        → weight_at (height_of hash) ≤ fuel
        → ((x : Hash)
            → Past provider view base base_topo hash x
            → x ≢ base
            → (tip : Hash) × IsTip provider view base base_topo tip x)
        → (rest : List Hash) × (left : C) × (generate_full_order provider lru base base_height
              base_topo fuel hash cache
            ≡ some (ok (base ∷ rest), left))
    generate_full_order_first fuel hash cache ok_cache enough rooted =
        let (order, left, run, good, left_ok) =
          generate_full_order_lem fuel hash cache ok_cache enough in
        let (rest, e) = go order good in (rest, left, rw (← e) run)
      where
        go :
            (order : List Hash)
            → IsOrderOf provider view base base_topo hash order
            → (rest : List Hash) × (order ≡ base ∷ rest)
        go [] good = absurd ((good.members hash).1 here)
        go (x ∷ rest) good = elim (Bool-cases (hash_beq x base)) [
          | inl e ↦ let same = (hash_beq_iff x base).0 e in (rest, rw (same) refl)
          | inr e ↦
              let differ : x ≢ base = (λ same. ground (arith, e, (hash_beq_iff x base).1 same)) in
              let (tip, t) = rooted x ((good.members x).0 (inl refl)) differ in
              absurd (good.ready.0 differ tip t)
        ]

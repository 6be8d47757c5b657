-- ===== src/Daemon/Dag/FullOrder/Invariant.antt =====
-- What the loop of `generate_full_order` keeps of its stack, its processed blocks and its order.
use blockchain_xelis.Prelude.{
  ◌<◌, ◌≡◌, ◌≢◌, ◌↔◌, ◌⊎◌, inl, inr, refl, sym, ◌∙◌, ℕ, List, [], ◌∷◌, ◌++◌, arith,
}
use mathlib.Core.Path.{subst}
use blockchain_xelis.Daemon.BlockDag.{Hash}
use blockchain_xelis.Daemon.BlockDag.Sets.{IsOneOf, IsSetLike, IsOneOf-append, All-at}
use blockchain_xelis.Daemon.Dag.{DagProvider}
use blockchain_xelis.Daemon.Dag.View.{View}
use blockchain_xelis.Daemon.Dag.FullOrder.Order.{IsTip, Past, step, IsReady, IsReady-tips}

module _ {E : Type 0} (provider : DagProvider E) (view : View provider) (base : Hash)
    (base_topo : ℕ) where
  open view use {tips_of, height_of, below}

  -- The tips of a processed block of the stack are ordered or above it.
  abbrev pub IsGood : List Hash → List Hash → List Hash → Type 0
  IsGood processed done [] = Unit
  IsGood processed done (hash ∷ stack) =
      (IsOneOf hash processed
        → (tip : Hash) → IsTip provider view base base_topo tip hash
        → IsOneOf tip done)
      × IsGood processed (hash ∷ done) stack

  -- The block is on the stack, under blocks of less height.
  abbrev pub IsDeep : Hash → List Hash → Type 0
  IsDeep hash [] = ⊥
  IsDeep hash (top ∷ stack) = (top ≡ hash) ⊎ ((height_of top < height_of hash) × IsDeep hash stack)

  pub record Inv (root : Hash) (stack processed order : List Hash) : Type 0 where
    pub ready : IsReady provider view base base_topo [] order
    pub once : IsSetLike order
    pub good : IsGood processed order stack
    pub deep : (x : Hash) → IsOneOf x processed → IsOneOf x order ⊎ IsDeep x stack
    pub inner : (x : Hash) → IsOneOf x processed → x ≢ base
    pub past :
        (x : Hash) → IsOneOf x order ⊎ IsOneOf x stack → Past provider view base base_topo root x
    pub begun : IsOneOf root order ⊎ IsOneOf root stack

  IsGood-more :
      (p done done' s : List Hash)
      → ((x : Hash) → IsOneOf x done → IsOneOf x done')
      → IsGood p done s
      → IsGood p done' s
  IsGood-more p done done' [] sub g = tt
  IsGood-more p done done' (y ∷ s) sub (first, g) = (
    (λ m tip t. sub tip (first m tip t)),
    IsGood-more p (y ∷ done) (y ∷ done') s (λ x m. elim m [ inl e ↦ inl e | inr k ↦ inr (sub x k) ])
        g,
  )

  IsGood-process :
      (x : Hash) (p done s : List Hash)
      → ((tip : Hash) → IsTip provider view base base_topo tip x → IsOneOf tip done)
      → IsGood p done s
      → IsGood (x ∷ p) done s
  IsGood-process x p done [] tips g = tt
  IsGood-process x p done (y ∷ s) tips (first, g) = (
    (λ m tip t. elim m [
      | inl e ↦ tips tip (subst (λ (h : Hash). IsTip provider view base base_topo tip h) e t)
      | inr old ↦ first old tip t
    ]),
    IsGood-process x p (y ∷ done) s (λ tip t. inr (tips tip t)) g,
  )

  IsGood-push :
      (q p done d s : List Hash)
      → ((x : Hash)
          → IsOneOf x q
          → IsOneOf x p
          → (tip : Hash) → IsTip provider view base base_topo tip x
          → IsOneOf tip done)
      → ((x : Hash) → IsOneOf x d → IsOneOf x done ⊎ IsOneOf x q)
      → IsGood p d s
      → IsGood p done (q ++ s)
  IsGood-push [] p done d s tips sub g =
      IsGood-more p d done s (λ x m. elim (sub x m) [ inl k ↦ k | inr z ↦ absurd z ]) g
  IsGood-push (y ∷ q) p done d s tips sub g = (
    tips y (inl refl),
    IsGood-push q p (y ∷ done) d s (λ x m old tip t. inr (tips x (inr m) old tip t))
        (λ x m. elim (sub x m) [
          | inl k ↦ inl (inr k)
          | inr (inl e) ↦ inl (inl e)
          | inr (inr k) ↦ inr k
        ])
        g,
  )

  IsDeep-push :
      (x : Hash) (q s : List Hash)
      → ((y : Hash) → IsOneOf y q → height_of y < height_of x)
      → IsDeep x s
      → IsDeep x (q ++ s)
  IsDeep-push x [] s less d = d
  IsDeep-push x (y ∷ q) s less d =
      inr (less y (inl refl), IsDeep-push x q s (λ z m. less z (inr m)) d)

  -- The top of the stack goes into the order, alone or with the order that the cache has for it.
  pub Inv-order :
      {root x : Hash} {stack processed order : List Hash} (order' : List Hash)
      → Inv root (x ∷ stack) processed order
      → ((y : Hash) → IsOneOf y order → IsOneOf y order')
      → IsOneOf x order'
      → IsReady provider view base base_topo [] order'
      → IsSetLike order'
      → ((y : Hash) → IsOneOf y order' → Past provider view base base_topo root y)
      → Inv root stack processed order'
  Inv-order {root} {x} {stack} {processed} {order} order' i sub top ready once only = record {
    ready = ready;
    once = once;
    good =
        IsGood-more processed (x ∷ order) order' stack
          (λ y m. elim m [ inl e ↦ rw (e) top | inr k ↦ sub y k ]) (i.good.1);
    deep = λ y m. elim (i.deep y m) [
      | inl o ↦ inl (sub y o)
      | inr (inl e) ↦ inl (rw (← e) top)
      | inr (inr d) ↦ inr (d.1)
    ];
    inner = i.inner;
    past = λ y m. elim m [ inl o ↦ only y o | inr s ↦ i.past y (inr (inr s)) ];
    begun = elim i.begun [
      | inl o ↦ inl (sub root o)
      | inr (inl e) ↦ inl (rw (e) top)
      | inr (inr s) ↦ inr s
    ];
  }

  -- A block with tips is processed and goes back under those that are above the base.
  pub Inv-expand :
      {root x : Hash} {stack processed order : List Hash} (q : List Hash)
      → Inv root (x ∷ stack) processed order
      → ¬ IsOneOf x processed
      → x ≢ base
      → ((t : Hash) → IsOneOf t q ↔ IsTip provider view base base_topo t x)
      → Inv root (q ++ x ∷ stack) (x ∷ processed) order
  Inv-expand {root} {x} {stack} {processed} {order} q i new inner members = record {
    ready = i.ready;
    once = i.once;
    good =
        IsGood-push q (x ∷ processed) order (q ++ order) (x ∷ stack) settled
          (λ y m. elim ((IsOneOf-append y q order).0 m) [ inl k ↦ inr k | inr o ↦ inl o ])
          (
            (λ m tip t. pushed tip t),
            IsGood-process x processed (x ∷ q ++ order) stack (λ tip t. inr (pushed tip t))
                (IsGood-more processed (x ∷ order) (x ∷ q ++ order) stack
                  (λ y m. elim m [
                    | inl e ↦ inl e
                    | inr o ↦ inr ((IsOneOf-append y q order).1 (inr o))
                  ])
                  (i.good.1)),
          );
    deep = λ y m. elim m [
      | inl e ↦ inr (IsDeep-push y q (x ∷ stack) (λ z k. rw (e) (lower z k)) (inl (sym e)))
      | inr old ↦ elim (i.deep y old) [
        | inl o ↦ inl o
        | inr (inl e) ↦ absurd (new (rw (e) old))
        | inr (inr d) ↦ inr (
            IsDeep-push y q (x ∷ stack)
              (λ z k. let a = lower z k in let b = d.0 in omega (arith, a, b)) (inr d))
      ]
    ];
    inner = λ y m. elim m [ inl e ↦ (λ same. inner (sym e ∙ same)) | inr old ↦ i.inner y old ];
    past = λ y m. elim m [
      | inl o ↦ i.past y (inl o)
      | inr s ↦ elim ((IsOneOf-append y q (x ∷ stack)).0 s) [
        | inl k ↦ step (i.past x (inr (inl refl))) inner ((members y).0 k)
        | inr rest ↦ i.past y (inr rest)
      ]
    ];
    begun = elim i.begun [
      | inl o ↦ inl o
      | inr s ↦ inr ((IsOneOf-append root q (x ∷ stack)).1 (inr s))
    ];
  }
    where
      lower : (z : Hash) → IsOneOf z q → height_of z < height_of x
      lower z k =
          All-at (λ t. height_of t < height_of x) z (tips_of x) (below x) (((members z).0 k).0)

      pushed : (tip : Hash) → IsTip provider view base base_topo tip x → IsOneOf tip (q ++ order)
      pushed tip t = (IsOneOf-append tip q order).1 (inl ((members tip).1 t))

      -- A tip that is processed already is ordered: on the stack it would be under a higher block.
      settled :
          (y : Hash)
          → IsOneOf y q
          → IsOneOf y (x ∷ processed)
          → (tip : Hash) → IsTip provider view base base_topo tip y
          → IsOneOf tip order
      settled y k (inl e) tip t =
          let l = lower y k in
          absurd (omega (arith, subst (λ (h : Hash). height_of h < height_of x) e l))
      settled y k (inr old) tip t = elim (i.deep y old) [
        | inl o ↦
            elim (IsReady-tips provider view base base_topo [] order y tip i.ready o (i.inner y old)
              t) [ inl z ↦ absurd z | inr m ↦ m ]
        | inr (inl e) ↦ absurd (new (rw (e) old))
        | inr (inr d) ↦ absurd (let a = lower y k in let b = d.0 in omega (arith, a, b))
      ]

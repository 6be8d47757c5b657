-- ===== src/Daemon/Dag/FullOrder/Order.antt =====
-- The order that `generate_full_order` of xelis_daemon/src/core/blockchain.rs is to give, for a base and its topoheight.
use blockchain_xelis.Prelude.{◌≢◌, ◌↔◌, ◌⊎◌, inl, inr, ◌∙◌, ℕ, List, [], ◌∷◌, ◌++◌, Bool-cases}
use mathlib.Core.Path.{subst}
use blockchain_xelis.Daemon.BlockDag.{Hash, contains, collect_onto}
use blockchain_xelis.Daemon.BlockDag.Sets.{IsOneOf, IsSetLike, contains_iff, IsOneOf-append}
use blockchain_xelis.Daemon.Dag.{DagProvider}
use blockchain_xelis.Daemon.Dag.View.{View}
use blockchain_xelis.Daemon.Dag.FullOrder.Scores.{IsAbove}

module _ {E : Type 0} (provider : DagProvider E) (view : View provider) (base : Hash)
    (base_topo : ℕ) where
  open view use {tips_of}

  -- What a block is ordered after.
  abbrev pub IsTip : Hash → Hash → Type 0
  IsTip tip hash = IsOneOf tip (tips_of hash) × IsAbove provider view base_topo tip

  -- The blocks that are reached from `root` over tips above the base, and not through the base.
  pub data Past (root : Hash) : Hash → Type 0 where
    here : Past root root
    step : {hash tip : Hash} → Past root hash → hash ≢ base → IsTip tip hash → Past root tip

  -- Each block stands after its tips, which are among `before` or earlier in the list.
  abbrev pub IsReady : List Hash → List Hash → Type 0
  IsReady before [] = Unit
  IsReady before (hash ∷ rest) =
      (hash ≢ base → (tip : Hash) → IsTip tip hash → IsOneOf tip before)
      × IsReady (before ++ hash ∷ []) rest

  -- The blocks of the past of `root`, each once, and each after its tips.
  pub record IsOrderOf (root : Hash) (order : List Hash) : Type 0 where
    pub ready : IsReady [] order
    pub members : (hash : Hash) → IsOneOf hash order ↔ Past root hash
    pub once : IsSetLike order

  pub Past-trans : {a b c : Hash} → Past a b → Past b c → Past a c
  Past-trans p here = p
  Past-trans p (step q ne t) = step (Past-trans p q) ne t

  -- What is ordered has its tips ordered.
  pub IsReady-tips :
      (before l : List Hash) (hash tip : Hash)
      → IsReady before l
      → IsOneOf hash l
      → hash ≢ base
      → IsTip tip hash
      → IsOneOf tip before ⊎ IsOneOf tip l
  IsReady-tips before [] hash tip r m ne t = absurd m
  IsReady-tips before (x ∷ l) hash tip (first, r) (inl e) ne t =
      inl (first (λ same. ne (e ∙ same)) tip (subst (λ (h : Hash). IsTip tip h) e t))
  IsReady-tips before (x ∷ l) hash tip (first, r) (inr m) ne t =
      elim (IsReady-tips (before ++ x ∷ []) l hash tip r m ne t) [
        | inl old ↦ elim ((IsOneOf-append tip before (x ∷ [])).0 old) [
          | inl k ↦ inl k
          | inr (inl e) ↦ inr (inl e)
          | inr (inr z) ↦ absurd z
        ]
        | inr later ↦ inr (inr later)
      ]

  -- A block whose tips are ordered can follow.
  IsReady-append :
      (before l : List Hash) (x : Hash)
      → IsReady before l
      → (x ≢ base → (tip : Hash) → IsTip tip x → IsOneOf tip before ⊎ IsOneOf tip l)
      → IsReady before (l ++ x ∷ [])
  IsReady-append before [] x r tips =
      ((λ ne tip t. elim (tips ne tip t) [ inl m ↦ m | inr z ↦ absurd z ]), tt)
  IsReady-append before (y ∷ l) x (first, r) tips = (
    first,
    IsReady-append (before ++ y ∷ []) l x r (λ ne tip t. elim (tips ne tip t) [
      | inl old ↦ inl ((IsOneOf-append tip before (y ∷ [])).1 (inl old))
      | inr (inl e) ↦ inl ((IsOneOf-append tip before (y ∷ [])).1 (inr (inl e)))
      | inr (inr m) ↦ inr m
    ]),
  )

  -- One order can be appended to another.
  pub IsReady-extend :
      (before order l : List Hash)
      → IsReady [] order
      → IsReady before l
      → ((x : Hash) → IsOneOf x before → IsOneOf x order)
      → IsReady [] (collect_onto order l)
  unfolding collect_onto
  IsReady-extend before order [] o r sub = o
  IsReady-extend before order (x ∷ l) o (first, r) sub = elim (Bool-cases (contains order x)) [
    | inl e ↦
        rw (collect_onto, e)
          (IsReady-extend (before ++ x ∷ []) order l o r (λ y m.
            elim ((IsOneOf-append y before (x ∷ [])).0 m) [
              | inl old ↦ sub y old
              | inr (inl same) ↦ rw (same) ((contains_iff order x).0 e)
              | inr (inr z) ↦ absurd z
            ]))
    | inr e ↦
        rw (collect_onto, e)
          (IsReady-extend (before ++ x ∷ []) (order ++ x ∷ []) l
            (IsReady-append [] order x o (λ ne tip t. inr (sub tip (first ne tip t)))) r
            (λ y m.
              (IsOneOf-append y order (x ∷ [])).1 (elim ((IsOneOf-append y before (x ∷ [])).0 m) [
                | inl old ↦ inl (sub y old)
                | inr new ↦ inr new
              ])))
  ]

  -- An order whose blocks are in the past of `root`, with `root` among them, has all of its past.
  pub IsOrderOf-intro :
      (root : Hash) (order : List Hash)
      → IsReady [] order
      → IsOneOf root order
      → ((hash : Hash) → IsOneOf hash order → Past root hash)
      → IsSetLike order
      → IsOrderOf root order
  IsOrderOf-intro root order ready top only once = record {
    ready = ready;
    members = λ hash. (only hash, whole hash);
    once = once;
  }
    where
      whole : (hash : Hash) → Past root hash → IsOneOf hash order
      whole hash here = top
      whole tip (step {hash} p ne t) =
          elim (IsReady-tips [] order hash tip ready (whole hash p) ne t) [
            | inl z ↦ absurd z
            | inr m ↦ m
          ]

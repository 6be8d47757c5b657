-- ===== src/Daemon/Dag/Heaviest.antt =====
-- The blocks that a sync block is compared with in `is_sync_block_at_height` of xelis_daemon/src/core/blockchain.rs, on a
-- storage that knows its blocks.
use blockchain_xelis.Prelude.{
  ℕ, zero, suc, ◌-◌, ◌≤◌, ◌<◌, ◌≡◌, ◌∙◌, ◌↔◌, ◌⊎◌, inl, inr, refl, sym, Bool, true, false, List, [],
  ◌∷◌, leb, ok, arith, Bool-cases, ℕ_discrete,
}
use mathlib.Core.Path.{subst}
use blockchain_xelis.Daemon.BlockDag.{Hash, hash_beq, collect_onto}
use blockchain_xelis.Daemon.BlockDag.Sets.{IsOneOf, hash_beq_iff, IsOneOf-collect_onto}
use blockchain_xelis.Daemon.Dag.{
  DagProvider, other_ordered, pre_blocks_loop, is_heaviest_loop, stable_point_of,
  is_alone_and_heaviest,
}
use blockchain_xelis.Daemon.Dag.View.{View}

module _ {E : Type 0} (provider : DagProvider E) (view : View provider) where
  open view use {
    height_of, topoheight_of, blocks_at, work_of, pruned, difficulty_of, heights, topoheights,
    blocks, works, prunes, difficulties,
  }

  abbrev pub IsOrdered : Hash → Type 0
  IsOrdered hash = provider.is_block_topological_ordered hash ≡ true

  -- No other ordered block stands at the height.
  abbrev pub IsAlone : Hash → Type 0
  IsAlone hash =
      (other : Hash) → IsOneOf other (blocks_at (height_of hash)) → IsOrdered other → other ≡ hash

  -- The ordered blocks at the heights from the stable point up to below the block, the genesis block excepted, have less cumulative difficulty.
  abbrev pub IsHeaviest : Hash → Type 0
  IsHeaviest hash =
      (n : ℕ) (other : Hash)
      → stable_point_of provider (height_of hash) ≤ n
      → 0 < n
      → n < height_of hash
      → IsOneOf other (blocks_at n)
      → IsOrdered other
      → work_of other < work_of hash

  other_ordered_lem :
      (hash : Hash) (l : List Hash)
      → (other_ordered provider hash l ≡ false)
        ↔ ((other : Hash) → IsOneOf other l → IsOrdered other → other ≡ hash)
  unfolding other_ordered
  other_ordered_lem hash [] = ((λ e other m. absurd m), (λ f. refl))
  other_ordered_lem hash (x ∷ l) =
      let same = hash_beq_iff hash x in
      let ih = other_ordered_lem hash l in
      elim (Bool-cases (provider.is_block_topological_ordered x)) [
        | inl is_ordered ↦ elim (Bool-cases (hash_beq hash x)) [
          | inl e ↦
              let h = same.0 e in
              (
                (λ run other m o. elim m [
                  | inl here ↦ here ∙ sym h
                  | inr later ↦ ih.0 (ground (arith, run, e)) other later o
                ]),
                (λ f. rw (other_ordered, e) (ih.1 (λ other m. f other (inr m)))),
              )
          | inr e ↦ (
            (λ run other m o. absurd (ground (arith, run, e, is_ordered))),
            (λ f. absurd (ground (arith, same, e, sym (f x (inl refl) is_ordered)))),
          )
        ]
        | inr orphaned ↦ (
          (λ run other m o. elim m [
            | inl here ↦ absurd (ground (arith, here, o, orphaned))
            | inr later ↦ ih.0 (ground (arith, run, orphaned)) other later o
          ]),
          (λ f. ground (arith, orphaned, ih.1 (λ other m. f other (inr m)))),
        )
      ]

  pre_blocks_loop_lem :
      (stable_point i : ℕ) (set : List Hash)
      → (pre : List Hash) × (pre_blocks_loop provider stable_point i set ≡ ok pre)
        × ((other : Hash)
            → IsOneOf other pre ↔ (
                IsOneOf other set
                ⊎ ((n : ℕ) × (stable_point ≤ n) × (0 < n) × (n ≤ i) × IsOneOf other (blocks_at n))))
  unfolding pre_blocks_loop
  pre_blocks_loop_lem stable_point zero set = (
    set,
    refl,
    (λ other.
        ((λ m. inl m), (λ w. elim w [ inl m ↦ m | inr t ↦ absurd (omega (arith, t.2, t.3)) ]))),
  )
  pre_blocks_loop_lem stable_point (suc i) set = elim (Bool-cases (leb stable_point (suc i))) [
    | inr low ↦ (
      set,
      rw (pre_blocks_loop, low) refl,
      (λ other. (
        (λ m. inl m),
        (λ w. elim w [
          | inl m ↦ m
          | inr t ↦ absurd (let a = t.1 in let b = t.3 in ground (arith, a, b, low))
        ]),
      )),
    )
    | inl high ↦
        let (pre, run, law) =
          pre_blocks_loop_lem stable_point i (collect_onto set (blocks_at (suc i))) in
        (
          pre,
          rw (pre_blocks_loop, high, blocks (suc i)) run,
          (λ other.
              let both = IsOneOf-collect_onto other set (blocks_at (suc i)) in
              (
                (λ m. elim ((law other).0 m) [
                  | inl k ↦ elim (both.0 k) [
                    | inl old ↦ inl old
                    | inr here ↦ inr (suc i, ground (arith, high), omega arith, omega arith, here)
                  ]
                  | inr t ↦ inr (t.0, t.1, t.2, omega (arith, t.3), t.4)
                ]),
                (λ w. (law other).1 (elim w [
                  | inl old ↦ inl (both.1 (inl old))
                  | inr t ↦ elim (ℕ_discrete t.0 (suc i)) [
                    | yes e ↦
                        inl (both.1 (inr (subst (λ (n : ℕ). IsOneOf other (blocks_at n)) e t.4)))
                    | no ne ↦ inr (t.0, t.1, t.2, omega (arith, t.3, ne), t.4)
                  ]
                ])),
              )),
        )
  ]

  is_heaviest_loop_lem :
      (work : ℕ) (l : List Hash)
      → (b : Bool) × (is_heaviest_loop provider work l ≡ ok b)
        × ((b ≡ true) ↔ ((other : Hash) → IsOneOf other l → IsOrdered other → work_of other < work))
  unfolding is_heaviest_loop
  is_heaviest_loop_lem work [] = (true, refl, ((λ e other m. absurd m), (λ f. refl)))
  is_heaviest_loop_lem work (x ∷ l) =
      let (b, run, law) = is_heaviest_loop_lem work l in
      elim (Bool-cases (provider.is_block_topological_ordered x)) [
        | inr orphaned ↦ (
          b,
          rw (is_heaviest_loop, orphaned) run,
          (
            (λ e other m o. elim m [
              | inl here ↦ absurd (ground (arith, here, o, orphaned))
              | inr later ↦ law.0 e other later o
            ]),
            (λ f. law.1 (λ other m. f other (inr m))),
          ),
        )
        | inl is_ordered ↦ elim (Bool-cases (leb work (work_of x))) [
          | inl heavy ↦ (
            false,
            rw (is_heaviest_loop, is_ordered, works x, heavy) refl,
            (
              (λ e. absurd (ground (arith, e))),
              (λ f. let light = f x (inl refl) is_ordered in ground (arith, light, heavy)),
            ),
          )
          | inr light ↦ (
            b,
            rw (is_heaviest_loop, is_ordered, works x, light) run,
            (
              (λ e other m o. elim m [
                | inl here ↦ rw (here) (ground (arith, light))
                | inr later ↦ law.0 e other later o
              ]),
              (λ f. law.1 (λ other m. f other (inr m))),
            ),
          )
        ]
      ]

  pub is_alone_and_heaviest_lem :
      (hash : Hash)
      → 0 < height_of hash
      → (b : Bool) × (is_alone_and_heaviest provider hash (height_of hash) ≡ ok b)
        × ((b ≡ true) ↔ (IsAlone hash × IsHeaviest hash))
  unfolding is_alone_and_heaviest
  is_alone_and_heaviest_lem hash positive =
      let height = height_of hash in
      let alone = other_ordered_lem hash (blocks_at height) in
      let (pre, collected, law) =
        pre_blocks_loop_lem (stable_point_of provider height) (height - 1) [] in
      let (b, run, heaviest) = is_heaviest_loop_lem (work_of hash) pre in
      elim (Bool-cases (other_ordered provider hash (blocks_at height))) [
        | inl several ↦ (
          false,
          rw (is_alone_and_heaviest, blocks height, several) refl,
          ((λ e. absurd (ground (arith, e))), (λ f. absurd (ground (arith, several, alone.1 f.0)))),
        )
        | inr one ↦ (
          b,
          rw (is_alone_and_heaviest, blocks height, one, collected, works hash) run,
          (
            (λ e. (
              alone.0 one,
              (λ n other s p l m o.
                  heaviest.0 e other ((law other).1 (inr (n, s, p, omega (arith, l), m))) o),
            )),
            (λ f. heaviest.1 (λ other m o. elim ((law other).0 m) [
              | inl nowhere ↦ absurd nowhere
              | inr t ↦ f.1 t.0 other t.1 t.2 (omega (arith, t.3, positive, t.2)) t.4 o
            ])),
          ),
        )
      ]

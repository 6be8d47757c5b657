-- ===== src/Daemon/Dag/Sync.antt =====
-- When a block is a sync block, and when a tip is close enough to the best one, on a storage that knows its blocks.
use blockchain_xelis.Prelude.{
  ℕ, ◌+◌, ◌*◌, ◌/◌, ◌%◌, ◌^◌, ◌≤◌, ◌<◌, ◌≡◌, ◌↔◌, ◌⊎◌, inl, inr, refl, Bool, true, false, not, ◌||◌,
  some, ltb, ◌==◌, ok, arith, u64_mod, Bool-cases, Option-cases,
}
use blockchain_xelis.Daemon.BlockDag.{Hash}
use blockchain_xelis.Daemon.SideBlock.{stable_limit}
use blockchain_xelis.Daemon.Difficulty.{U256, ◌>>=◌}
use blockchain_xelis.Daemon.Dag.{DagProvider, is_sync_block_at_height, validate_tips}
use blockchain_xelis.Daemon.Dag.View.{View}
use blockchain_xelis.Daemon.Dag.Heaviest.{IsOrdered, IsAlone, IsHeaviest, is_alone_and_heaviest_lem}

module _ {E : Type 0} (provider : DagProvider E) (view : View provider) where
  open view use {
    height_of, topoheight_of, blocks_at, work_of, pruned, difficulty_of, heights, topoheights,
    blocks, works, prunes, difficulties,
  }

  abbrev pub IsSync : Hash → ℕ → Type 0
  IsSync hash height =
      (height_of hash ≡ 0)
      ⊎ ((height_of hash + stable_limit ≤ height)
          × IsOrdered provider view hash
          × ((pruned ≡ some (topoheight_of hash))
              ⊎ (IsAlone provider view hash × IsHeaviest provider view hash)))

  -- On a storage that knows its blocks, at heights below 2 ^ 64 - 8, there is an answer, and a block is a sync block at a
  -- height exactly if it is at height 0, or it stands at least 8 below that height, is ordered, and either
  -- the storage is pruned at its topoheight, or no other ordered block is at its height and all ordered blocks
  -- from its stable point up to below it have less cumulative difficulty.
  pub is_sync_block_at_height_iff :
      (hash : Hash) (height : ℕ)
      → height_of hash + stable_limit < u64_mod
      → (b : Bool) × (is_sync_block_at_height provider hash height ≡ ok b)
        × ((b ≡ true) ↔ IsSync hash height)
  unfolding is_sync_block_at_height
  is_sync_block_at_height_iff hash height small =
      let wrap : (height_of hash + stable_limit) % u64_mod ≡ height_of hash + stable_limit =
        omega arith in
      let known = heights hash in
      elim (Bool-cases (height_of hash == 0)) [
        | inl z ↦ (
          true,
          rw (is_sync_block_at_height, known, z) refl,
          ((λ e. inl (ground (arith, z))), (λ s. refl)),
        )
        | inr nz ↦
            let positive : 0 < height_of hash = ground (arith, nz) in
            let (b, run, law) = is_alone_and_heaviest_lem provider view hash positive in
            elim (Bool-cases (
              ltb height (height_of hash + stable_limit)
              || not (provider.is_block_topological_ordered hash))) [
                | inl early ↦ (
                  false,
                  rw (is_sync_block_at_height, known, nz, wrap, early) refl,
                  (
                    (λ e. absurd (ground (arith, e))),
                    (λ s. elim s [
                      | inl zero_height ↦ absurd (omega (arith, positive, zero_height))
                      | inr (deep, is_ordered, rest) ↦
                          absurd (ground (arith, early, deep, is_ordered))
                    ]),
                  ),
                )
                | inr late ↦
                    let deep : height_of hash + stable_limit ≤ height = ground (arith, late) in
                    let is_ordered : IsOrdered provider view hash = ground (arith, late) in
                    elim (Option-cases pruned) [
                      | inl whole ↦ (
                        b,
                        rw (is_sync_block_at_height, known, nz, wrap, late, prunes, whole) run,
                        (
                          (λ e. inr (deep, is_ordered, inr (law.0 e))),
                          (λ s. elim s [
                            | inl zero_height ↦ absurd (omega (arith, positive, zero_height))
                            | inr (d, o, inl p) ↦ absurd (ground (arith, whole, p))
                            | inr (d, o, inr p) ↦ law.1 p
                          ]),
                        ),
                      )
                      | inr (topo, is_pruned) ↦ elim (Bool-cases (topo == topoheight_of hash)) [
                        | inl here ↦ (
                          true,
                          rw
                              (
                                is_sync_block_at_height,
                                known,
                                nz,
                                wrap,
                                late,
                                prunes,
                                is_pruned,
                                topoheights hash is_ordered,
                                here,
                              )
                              refl,
                          (
                            (λ e. inr (deep, is_ordered, inl (ground (arith, is_pruned, here)))),
                            (λ s. refl),
                          ),
                        )
                        | inr elsewhere ↦ (
                          b,
                          rw
                              (
                                is_sync_block_at_height,
                                known,
                                nz,
                                wrap,
                                late,
                                prunes,
                                is_pruned,
                                topoheights hash is_ordered,
                                elsewhere,
                              )
                              run,
                          (
                            (λ e. inr (deep, is_ordered, inr (law.0 e))),
                            (λ s. elim s [
                              | inl zero_height ↦ absurd (omega (arith, positive, zero_height))
                              | inr (d, o, inl p) ↦ absurd (ground (arith, is_pruned, p, elsewhere))
                              | inr (d, o, inr p) ↦ law.1 p
                            ]),
                          ),
                        )
                      ]
                    ]
              ]
      ]

  -- For difficulties whose product by 91 fits in 256 bits, the test has an answer: a tip is close enough to the best one exactly if it has more
  -- than 91% of its difficulty.
  validate_tips_iff :
      (u : U256) (best_tip tip : Hash)
      → difficulty_of best_tip * 91 < 2 ^ 256
      → (b : Bool) × (validate_tips provider u best_tip tip ≡ ok (some b))
        × ((b ≡ true) ↔ (91 * difficulty_of best_tip < 100 * difficulty_of tip))
  unfolding validate_tips ◌>>=◌
  validate_tips_iff u best_tip tip small =
      let product = u.mul_exact (difficulty_of best_tip) 91 small in
      let quotient = u.div_exact (difficulty_of best_tip * 91) 100 (omega arith) small in
      (
        ltb (difficulty_of best_tip * 91 / 100) (difficulty_of tip),
        rw (validate_tips, difficulties best_tip, difficulties tip, product, ◌>>=◌, quotient) refl,
        ((λ e. ground (arith, e)), (λ l. ground (arith, l))),
      )

-- ===== src/Daemon/Dag/Reachability/Tips.antt =====
-- The answer of `verify_non_reachability` of xelis_daemon/src/core/blockchain.rs, on a storage that knows its blocks.
use blockchain_xelis.Prelude.{
  ℕ, suc, zero, ◌+◌, ◌*◌, ◌≤◌, ◌<◌, ◌≡◌, ◌≢◌, inl, inr, refl, Bool, true, false, not, ◌&&◌, List,
  [], ◌∷◌, some, ok, ◌==◌, arith, All, Bool-cases, get_elem?,
}
use mathlib.Core.Path.{subst}
use blockchain_xelis.Daemon.BlockDag.{Hash, contains}
use blockchain_xelis.Daemon.BlockDag.Sets.{IsOneOf, contains_iff}
use blockchain_xelis.Daemon.SideBlock.{stable_limit}
use blockchain_xelis.Daemon.Dag.{DagProvider}
use blockchain_xelis.Daemon.Dag.View.{View, weight_at}
use blockchain_xelis.Daemon.Dag.Reachability.{
  is_reached, none_reached, build_all, verify_non_reachability,
}
use blockchain_xelis.Daemon.Dag.Reachability.Walk.{Ancestor, IsReach, build_reachability-IsReach}

is_reached_lem :
    (i : ℕ) (tip : Hash) (j : ℕ) (reach : List (List Hash))
    → (is_reached i tip j reach ≡ true
        → (k : ℕ) × (set : List Hash) × (get_elem? reach k ≡ some set)
          × (i ≢ j + k)
          × IsOneOf tip set)
      × (is_reached i tip j reach ≡ false
          → (k : ℕ) (set : List Hash) → get_elem? reach k ≡ some set
          → i ≢ j + k
          → ¬ IsOneOf tip set)
unfolding is_reached
is_reached_lem i tip j [] =
    ((λ e. absurd (ground (arith, e))), (λ e k set f. absurd (ground (arith, f))))
is_reached_lem i tip j (set ∷ rest) =
    let (found, missed) = is_reached_lem i tip (j + 1) rest in
    elim (Bool-cases (not (i == j) && contains set tip)) [
      | inl e ↦
          rw (is_reached, e)
            (
              (λ r. (
                0,
                set,
                refl,
                (λ s. ground (arith, e, s)),
                (contains_iff set tip).0 (ground (arith, e)),
              )),
              (λ r. absurd (ground (arith, r))),
            )
      | inr e ↦
          rw (is_reached, e)
            (
              (λ r.
                  let (k, s, at, ne, m) = found r in
                  (suc k, s, at, (λ (w : i ≡ j + suc k). ne (omega (arith, w))), m)),
              (λ r. go e (missed r)),
            )
    ]
  where
    go :
        (not (i == j) && contains set tip) ≡ false
        → ((k : ℕ) (s : List Hash) → get_elem? rest k ≡ some s → i ≢ j + 1 + k → ¬ IsOneOf tip s)
        → (k : ℕ) (s : List Hash) → get_elem? (set ∷ rest) k ≡ some s
        → i ≢ j + k
        → ¬ IsOneOf tip s
    go e r zero s at ne m =
        let same : set ≡ s = ground (arith, at) in
        let known = (contains_iff s tip).1 m in
        let apart : i ≢ j = λ w. ne (omega (arith, w)) in
        absurd (ground (arith, e, same, known, apart))
    go e r (suc k) s at ne m = r k s at (λ w. ne (omega (arith, w))) m

module _ {E : Type 0} (provider : DagProvider E) (view : View provider) where
  open view use {height_of}

  -- One set for each tip.
  abbrev AreReaches : List Hash → List (List Hash) → Type 0
  AreReaches [] reach = reach ≡ []
  AreReaches (tip ∷ tips) reach =
      (set : List Hash) × (rest : List (List Hash)) × (reach ≡ set ∷ rest)
      × IsReach provider view tip set
      × AreReaches tips rest

  build_all_lem :
      (fuel : ℕ) (tips : List Hash)
      → All (λ tip. weight_at (height_of tip) ≤ fuel) tips
      → (reach : List (List Hash)) × (build_all provider fuel tips ≡ some (ok reach))
        × AreReaches tips reach
  unfolding build_all
  build_all_lem fuel [] enough = ([], refl, refl)
  build_all_lem fuel (tip ∷ tips) enough =
      let (set, run, is_reach) = build_reachability-IsReach provider view fuel tip enough.0 in
      let (rest, steps, are) = build_all_lem fuel tips enough.1 in
      (set ∷ rest, rw (build_all, run, steps) refl, (set, rest, refl, is_reach, are))

  -- The set at an index is that of the tip at the index.
  AreReaches-tip :
      (tips : List Hash) (reach : List (List Hash)) (k : ℕ) (set : List Hash)
      → AreReaches tips reach
      → get_elem? reach k ≡ some set
      → (tip : Hash) × (get_elem? tips k ≡ some tip) × IsReach provider view tip set
  AreReaches-tip [] reach k set are at =
      absurd (ground (arith, subst (λ (l : List (List Hash)). get_elem? l k ≡ some set) are at))
  AreReaches-tip (tip ∷ tips) reach zero set (s, rest, e, is_reach, are) at =
      let at' : some s ≡ some set =
        subst (λ (l : List (List Hash)). get_elem? l zero ≡ some set) e at in
      let same : s ≡ set = ground (arith, at') in
      (tip, refl, subst (λ (x : List Hash). IsReach provider view tip x) same is_reach)
  AreReaches-tip (tip ∷ tips) reach (suc k) set (s, rest, e, is_reach, are) at =
      AreReaches-tip tips rest k set are
        (subst (λ (l : List (List Hash)). get_elem? l (suc k) ≡ some set) e at)

  AreReaches-set :
      (tips : List Hash) (reach : List (List Hash)) (k : ℕ) (tip : Hash)
      → AreReaches tips reach
      → get_elem? tips k ≡ some tip
      → (set : List Hash) × (get_elem? reach k ≡ some set) × IsReach provider view tip set
  AreReaches-set [] reach k tip are at = absurd (ground (arith, at))
  AreReaches-set (first ∷ tips) reach zero tip (s, rest, e, is_reach, are) at =
      let same : first ≡ tip = ground (arith, at) in
      (s, rw (e) refl, subst (λ (h : Hash). IsReach provider view h s) same is_reach)
  AreReaches-set (first ∷ tips) reach (suc k) tip (s, rest, e, is_reach, are) at =
      let (set, found, is_set) = AreReaches-set tips rest k tip are at in
      (set, rw (e) found, is_set)

  none_reached_lem :
      (i : ℕ) (l : List Hash) (reach : List (List Hash))
      → (none_reached i l reach ≡ false
          → (a : ℕ) × (tip : Hash) × (get_elem? l a ≡ some tip)
            × (is_reached (i + a) tip 0 reach ≡ true))
        × (none_reached i l reach ≡ true
            → (a : ℕ) (tip : Hash) → get_elem? l a ≡ some tip
            → is_reached (i + a) tip 0 reach ≡ false)
  unfolding none_reached
  none_reached_lem i [] reach =
      ((λ e. absurd (ground (arith, e))), (λ e a tip at. absurd (ground (arith, at))))
  none_reached_lem i (t ∷ l) reach =
      let (found, missed) = none_reached_lem (i + 1) l reach in
      let zero_offset : i + 0 ≡ i = omega arith in
      let shift : (a : ℕ) → i + suc a ≡ i + 1 + a = λ a. omega arith in
      elim (Bool-cases (is_reached i t 0 reach)) [
        | inl e ↦
            rw (none_reached, e)
              ((λ r. (0, t, refl, rw (zero_offset) e)), (λ r. absurd (ground (arith, r))))
        | inr e ↦
            rw (none_reached, e)
              (
                (λ r. let (a, tip, at, run) = found r in (suc a, tip, at, rw (shift a) run)),
                (λ r a tip at.
                    elim a
                        as (λ (n : ℕ).
                          get_elem? (t ∷ l) n ≡ some tip → is_reached (i + n) tip 0 reach ≡ false) [
                            | zero ↦ (λ at.
                                let same : t ≡ tip = ground (arith, at) in
                                rw (zero_offset, ← same) e)
                            | suc b ↦ (λ at. rw (shift b) (missed r b tip at))
                          ]
                      at),
              )
      ]

  -- On a storage that knows its blocks, with as much fuel as the heights of the tips ask for, there is an answer. If it is
  -- yes, no tip that stands on another one is less than 16 below it; if it is no, some tip stands on another one.
  pub verify_non_reachability_lem :
      (fuel : ℕ) (tips : List Hash)
      → All (λ tip. weight_at (height_of tip) ≤ fuel) tips
      → (b : Bool) × (verify_non_reachability provider fuel tips ≡ some (ok b))
        × (b ≡ true
            → (i j : ℕ) (x y : Hash) → get_elem? tips i ≡ some x
            → get_elem? tips j ≡ some y
            → i ≢ j
            → Ancestor provider view y x
            → height_of x + 2 * stable_limit ≤ height_of y)
        × (b ≡ false
            → (i : ℕ) × (j : ℕ) × (x : Hash) × (y : Hash) × (get_elem? tips i ≡ some x)
              × (get_elem? tips j ≡ some y)
              × (i ≢ j)
              × Ancestor provider view y x)
  unfolding verify_non_reachability
  verify_non_reachability_lem fuel tips enough =
      let (reach, run, are) = build_all_lem fuel tips enough in
      let (found, missed) = none_reached_lem 0 tips reach in
      (
        none_reached 0 tips reach,
        rw (verify_non_reachability, run) refl,
        (λ e i j x y at_x at_y ne a.
            let (set, at_set, is_reach) = AreReaches-set tips reach j y are at_y in
            let shift : 0 + i ≡ i = omega arith in
            let out : is_reached i x 0 reach ≡ false =
              subst (λ (n : ℕ). is_reached n x 0 reach ≡ false) shift (missed e i x at_x) in
            let no = (is_reached_lem i x 0 reach).1 out j set at_set (λ w. ne (omega (arith, w))) in
            far x y set no is_reach a),
        (λ e.
            let (i, x, at_x, r) = found e in
            let (j, set, at_set, ne, m) = (is_reached_lem (0 + i) x 0 reach).0 r in
            let (y, at_y, is_reach) = AreReaches-tip tips reach j set are at_set in
            (i, j, x, y, at_x, at_y, (λ w. ne (omega (arith, w))), is_reach.sound x m)),
      )
    where
      far :
          (x y : Hash) (set : List Hash)
          → ¬ IsOneOf x set
          → IsReach provider view y set
          → Ancestor provider view y x
          → height_of x + 2 * stable_limit ≤ height_of y
      far x y set out is_reach a =
          grind
            (arith, λ (l : height_of y < height_of x + 2 * stable_limit). out (is_reach.near x a l))

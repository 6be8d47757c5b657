-- ===== src/Daemon/Dag/WorkScore/Map.antt =====
-- The map of works as `find_tip_work_score` of xelis_daemon/src/core/blockchain.rs fills it.
use blockchain_xelis.Prelude.{
  ℕ, ◌+◌, ◌^◌, ◌≤◌, ◌<◌, ◌≡◌, ◌↔◌, ◌⊎◌, inl, inr, refl, sym, ◌∙◌, false, List, [], ◌∷◌, some, All,
  arith, if◌then◌else◌, Bool-cases,
}
use mathlib.Core.Path.{subst}
use blockchain_xelis.Daemon.BlockDag.{Hash, hash_beq}
use blockchain_xelis.Daemon.BlockDag.Sets.{IsOneOf, IsSetLike, hash_beq_iff}
use blockchain_xelis.Daemon.Difficulty.{U256, ◌>>=◌}
use blockchain_xelis.Daemon.Dag.WorkScore.{keys, map_insert, score_loop}

pub IsOneOf-map_insert :
    (x key : Hash) (value : ℕ) (m : List (Hash × ℕ))
    → IsOneOf x (keys (map_insert key value m)) ↔ ((x ≡ key) ⊎ IsOneOf x (keys m))
unfolding map_insert
IsOneOf-map_insert x key value [] = ((λ m. m), (λ m. m))
IsOneOf-map_insert x key value ((k, v) ∷ m) =
    let same = hash_beq_iff key k in
    let ih = IsOneOf-map_insert x key value m in
    elim (Bool-cases (hash_beq key k)) [
      | inl e ↦
          let h = same.0 e in
          rw (map_insert, e)
            (
              (λ w. elim w [ inl i ↦ inr (inl i) | inr i ↦ inr (inr i) ]),
              (λ w. elim w [ inl i ↦ inl (i ∙ h) | inr i ↦ i ]),
            )
      | inr e ↦ rw (map_insert, e) (ground (arith, ih))
    ]

pub map_insert-IsSetLike :
    (key : Hash) (value : ℕ) (m : List (Hash × ℕ))
    → IsSetLike (keys m)
    → IsSetLike (keys (map_insert key value m))
unfolding map_insert
map_insert-IsSetLike key value [] s = ((λ z. z), tt)
map_insert-IsSetLike key value ((k, v) ∷ m) s = elim (Bool-cases (hash_beq key k)) [
  | inl e ↦ rw (map_insert, e) s
  | inr e ↦
      rw (map_insert, e)
        (
          (λ w. elim ((IsOneOf-map_insert k key value m).0 w) [
            | inl i ↦ absurd (ground (arith, e, (hash_beq_iff key k).1 (sym i)))
            | inr i ↦ s.0 i
          ]),
          map_insert-IsSetLike key value m s.1,
        )
]

-- Each entry has the value that the function gives to its key.
abbrev pub Holds : (Hash → ℕ) → List (Hash × ℕ) → Type 0
Holds value m = All (λ (entry : Hash × ℕ). entry.1 ≡ value entry.0) m

pub Holds-map_insert :
    (f g : Hash → ℕ) (key : Hash) (m : List (Hash × ℕ))
    → ((x : Hash) → hash_beq x key ≡ false → g x ≡ f x)
    → IsSetLike (keys m)
    → Holds f m
    → Holds g (map_insert key (g key) m)
unfolding map_insert
Holds-map_insert f g key [] same s h = (refl, tt)
Holds-map_insert f g key ((k, v) ∷ m) same s h =
    let here = hash_beq_iff key k in
    let flipped = hash_beq_iff k key in
    elim (Bool-cases (hash_beq key k)) [
      | inl e ↦
          let t = here.0 e in
          rw (map_insert, e) (rw (t) refl, others k m (λ x n. same x (differs x k t n)) s.0 h.1)
      | inr e ↦
          let n : hash_beq k key ≡ false = elim (Bool-cases (hash_beq k key)) [
            | inl w ↦ absurd (ground (arith, e, here.1 (sym (flipped.0 w))))
            | inr w ↦ w
          ] in
          rw (map_insert, e) (h.0 ∙ sym (same k n), Holds-map_insert f g key m same s.1 h.1)
    ]
  where
    differs : (x y : Hash) → key ≡ y → ¬ (x ≡ y) → hash_beq x key ≡ false
    differs x y t n = elim (Bool-cases (hash_beq x key)) [
      | inl w ↦ absurd (n ((hash_beq_iff x key).0 w ∙ t))
      | inr w ↦ w
    ]

    others :
        (k : Hash) (l : List (Hash × ℕ))
        → ((x : Hash) → ¬ (x ≡ k) → g x ≡ f x)
        → ¬ IsOneOf k (keys l)
        → Holds f l
        → Holds g l
    others k [] agree out h = tt
    others k ((x, v) ∷ l) agree out h =
        (h.0 ∙ sym (agree x (λ e. out (inl (sym e)))), others k l agree (λ w. out (inr w)) h.1)

abbrev pub total : (Hash → ℕ) → List Hash → ℕ
total value [] = 0
total value (x ∷ l) = value x + total value l

erase : Hash → List Hash → List Hash
erase x [] = []
erase x (y ∷ l) = let later = erase x l in if hash_beq y x then l else y ∷ later

total-erase :
    (value : Hash → ℕ) (x : Hash) (l : List Hash)
    → IsOneOf x l
    → total value l ≡ value x + total value (erase x l)
unfolding erase
total-erase value x [] m = absurd m
total-erase value x (y ∷ l) m = elim (Bool-cases (hash_beq y x)) [
  | inl e ↦ let same = (hash_beq_iff y x).0 e in rw (erase, e, same) refl
  | inr e ↦ elim m [
    | inl same ↦ absurd (ground (arith, e, (hash_beq_iff y x).1 (sym same)))
    | inr later ↦ rw (erase, e) (omega (arith, total-erase value x l later))
  ]
]

IsOneOf-erase : (x y : Hash) (l : List Hash) → IsOneOf y l → ¬ (y ≡ x) → IsOneOf y (erase x l)
unfolding erase
IsOneOf-erase x y [] m ne = absurd m
IsOneOf-erase x y (z ∷ l) m ne = elim (Bool-cases (hash_beq z x)) [
  | inl e ↦ elim m [
    | inl same ↦ absurd (ne (same ∙ (hash_beq_iff z x).0 e))
    | inr later ↦ rw (erase, e) later
  ]
  | inr e ↦ elim m [
    | inl same ↦ rw (erase, e) (inl same)
    | inr later ↦ rw (erase, e) (inr (IsOneOf-erase x y l later ne))
  ]
]

-- A set of elements of a list has at most its total.
pub total-subset :
    (value : Hash → ℕ) (set l : List Hash)
    → IsSetLike set
    → ((x : Hash) → IsOneOf x set → IsOneOf x l)
    → total value set ≤ total value l
total-subset value [] l once sub = omega arith
total-subset value (x ∷ set) l once sub =
    let here = total-erase value x l (sub x (inl refl)) in
    let rest = total-subset value set (erase x l) once.1 (λ y m.
      IsOneOf-erase x y l (sub y (inr m))
        (λ e. once.0 (subst (λ (z : Hash). IsOneOf z set) e m))) in
    omega (arith, here, rest)

-- The score is the sum of the values.
pub score_loop_lem :
    (u : U256) (value : Hash → ℕ) (m : List (Hash × ℕ)) (before : ℕ)
    → Holds value m
    → before + total value (keys m) < 2 ^ 256
    → score_loop u m before ≡ some (before + total value (keys m))
unfolding score_loop ◌>>=◌
score_loop_lem u value [] before h small = let e : before + 0 ≡ before = omega arith in rw (e) refl
score_loop_lem u value ((k, v) ∷ m) before h small =
    let same : v ≡ value k = h.0 in
    let sum = u.add_exact before v (omega (arith, same, small)) in
    let e : before + (value k + total value (keys m)) ≡ before + v + total value (keys m) =
      omega (arith, same) in
    rw (score_loop, sum, e) (score_loop_lem u value m (before + v) h.1 (omega (arith, same, small)))

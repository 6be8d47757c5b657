-- ===== src/Daemon/BlockDag/Sets.antt =====
-- Sets of hashes as xelis_daemon/src/core keeps them: `contains`, `insert` and `extend` of an `IndexSet`.
use blockchain_xelis.Prelude.{
  ◌≡◌, ◌↔◌, refl, sym, ◌⊎◌, inl, inr, true, false, List, [], ◌∷◌, ◌++◌, arith, Bool-cases, All,
}
use blockchain_xelis.Daemon.BlockDag.{Hash, hash_beq, contains, collect_onto}

abbrev pub IsOneOf : Hash → List Hash → Type 0
IsOneOf hash [] = ⊥
IsOneOf hash (tip ∷ rest) = (hash ≡ tip) ⊎ IsOneOf hash rest

pub All-at :
    (P : Hash → Type 0) (hash : Hash) (tips : List Hash) → All P tips → IsOneOf hash tips → P hash
All-at P hash [] all member = elim member [ ]
All-at P hash (tip ∷ rest) all (inl e) = rw (e) (all.0)
All-at P hash (tip ∷ rest) all (inr later) = All-at P hash rest all.1 later

pub hash_beq_iff : (a b : Hash) → (hash_beq a b ≡ true) ↔ (a ≡ b)
unfolding hash_beq
hash_beq_iff [] [] = ((λ e. refl), (λ e. refl))
hash_beq_iff [] (y ∷ b) = ((λ e. ground arith), (λ e. ground arith))
hash_beq_iff (x ∷ a) [] = ((λ e. ground arith), (λ e. ground arith))
hash_beq_iff (x ∷ a) (y ∷ b) = ground (arith, hash_beq_iff a b)

pub contains_iff : (set : List Hash) (hash : Hash) → (contains set hash ≡ true) ↔ IsOneOf hash set
unfolding contains
contains_iff [] hash = ((λ e. ground arith), (λ m. absurd m))
contains_iff (first ∷ rest) hash = ground (arith, hash_beq_iff first hash, contains_iff rest hash)

pub not_contained : (set : List Hash) (hash : Hash) → contains set hash ≡ false → ¬ IsOneOf hash set
not_contained set hash e m = ground (arith, contains_iff set hash, e, m)

-- The set is at the front of what `insert` and `extend` leave, and nothing else but the new elements follows.
pub IsOneOf-append :
    (hash : Hash) (l m : List Hash) → IsOneOf hash (l ++ m) ↔ (IsOneOf hash l ⊎ IsOneOf hash m)
IsOneOf-append hash [] m = ((λ k. inr k), (λ k. elim k [ inl z ↦ absurd z | inr x ↦ x ]))
IsOneOf-append hash (x ∷ l) m = ground (arith, IsOneOf-append hash l m)

pub IsOneOf-collect_onto :
    (hash : Hash) (set l : List Hash)
    → IsOneOf hash (collect_onto set l) ↔ (IsOneOf hash set ⊎ IsOneOf hash l)
unfolding collect_onto
IsOneOf-collect_onto hash set [] = ((λ k. inl k), (λ k. elim k [ inl x ↦ x | inr z ↦ absurd z ]))
IsOneOf-collect_onto hash set (x ∷ l) = elim (Bool-cases (contains set x)) [
  | inl e ↦
      rw (collect_onto, e) (ground (arith, IsOneOf-collect_onto hash set l, contains_iff set x))
  | inr e ↦
      rw (collect_onto, e)
        (ground
          (arith, IsOneOf-collect_onto hash (set ++ x ∷ []) l, IsOneOf-append hash set (x ∷ [])))
]

-- No hash stands twice.
abbrev pub IsSetLike : List Hash → Type 0
IsSetLike [] = Unit
IsSetLike (x ∷ l) = (¬ IsOneOf x l) × IsSetLike l

IsSetLike-append :
    (l : List Hash) (x : Hash) → IsSetLike l → ¬ IsOneOf x l → IsSetLike (l ++ x ∷ [])
IsSetLike-append [] x s n = ((λ m. m), tt)
IsSetLike-append (y ∷ l) x s n = (
  (λ m. elim ((IsOneOf-append y l (x ∷ [])).0 m) [
    | inl old ↦ s.0 old
    | inr (inl e) ↦ n (inl (sym e))
    | inr (inr z) ↦ z
  ]),
  IsSetLike-append l x s.1 (λ m. n (inr m)),
)

pub collect_onto-IsSetLike : (set l : List Hash) → IsSetLike set → IsSetLike (collect_onto set l)
unfolding collect_onto
collect_onto-IsSetLike set [] s = s
collect_onto-IsSetLike set (x ∷ l) s = elim (Bool-cases (contains set x)) [
  | inl e ↦ rw (collect_onto, e) (collect_onto-IsSetLike set l s)
  | inr e ↦
      rw (collect_onto, e)
        (collect_onto-IsSetLike (set ++ x ∷ []) l
          (IsSetLike-append set x s (not_contained set x e)))
]

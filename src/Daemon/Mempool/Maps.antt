-- ===== src/Daemon/Mempool/Maps.antt =====
-- The hash maps and the index sets that xelis_daemon/src/core/mempool.rs uses.
use blockchain_xelis.Prelude.{
  ℕ, zero, suc, ◌<◌, ◌≡◌, ◌≢◌, ◌⊎◌, inl, inr, refl, sym, ◌∙◌, ap, true, false, List, [], ◌∷◌, ◌++◌,
  none, some, arith, length, get_elem?, Bool-cases,
}
use blockchain_xelis.Daemon.BlockDag.{Hash, hash_beq}
use blockchain_xelis.Daemon.BlockDag.Sets.{hash_beq_iff}
use blockchain_xelis.Daemon.Mempool.{lookup, delete, insert, pop_last, set_at, swap_remove_index}

pub hash_beq_refl : (x : Hash) → hash_beq x x ≡ true
hash_beq_refl x = (hash_beq_iff x x).1 refl

pub hash_beq_ne : (x y : Hash) → x ≢ y → hash_beq x y ≡ false
hash_beq_ne x y ne = elim (Bool-cases (hash_beq x y)) [
  | inl e ↦ absurd (ne ((hash_beq_iff x y).0 e))
  | inr e ↦ e
]

-- Hashes are equal or not.
pub Hash-cases : (x y : Hash) → (x ≡ y) ⊎ (x ≢ y)
Hash-cases x y = elim (Bool-cases (hash_beq x y)) [
  | inl e ↦ inl ((hash_beq_iff x y).0 e)
  | inr e ↦ inr (λ same. absurd (ground (arith, e, (hash_beq_iff x y).1 same)))
]

module _ {ℓ} {V : Type ℓ} where
  pub lookup-delete_same : (m : List (Hash × V)) (k : Hash) → lookup (delete m k) k ≡ none
  unfolding lookup delete
  lookup-delete_same [] k = refl
  lookup-delete_same ((x, v) ∷ m) k = elim (Bool-cases (hash_beq x k)) [
    | inl e ↦ rw (delete, e) (lookup-delete_same m k)
    | inr e ↦ rw (delete, e, lookup, e) (lookup-delete_same m k)
  ]

  pub lookup-delete_other :
      (m : List (Hash × V)) (k h : Hash) → k ≢ h → lookup (delete m k) h ≡ lookup m h
  unfolding lookup delete
  lookup-delete_other [] k h ne = refl
  lookup-delete_other ((x, v) ∷ m) k h ne =
      let ih = lookup-delete_other m k h ne in
      elim (Bool-cases (hash_beq x k)) [
        | inl e ↦
            let other : hash_beq x h ≡ false =
              hash_beq_ne x h (λ same. ne (sym ((hash_beq_iff x k).0 e) ∙ same)) in
            rw (delete, e, other) ih
        | inr e ↦ elim (Bool-cases (hash_beq x h)) [
          | inl f ↦ rw (delete, e, f) refl
          | inr f ↦ rw (delete, e, f) ih
        ]
      ]

  pub lookup-insert_same :
      (m : List (Hash × V)) (k : Hash) (v : V) → lookup (insert m k v) k ≡ some v
  unfolding lookup insert
  lookup-insert_same m k v = rw (hash_beq_refl k) refl

  pub lookup-insert_other :
      (m : List (Hash × V)) (k h : Hash) (v : V) → k ≢ h → lookup (insert m k v) h ≡ lookup m h
  unfolding lookup insert
  lookup-insert_other m k h v ne = rw (hash_beq_ne k h ne) (lookup-delete_other m k h ne)

pub get_elem?-append_last : (l : List Hash) (x : Hash) → get_elem? (l ++ x ∷ []) (length l) ≡ some x
get_elem?-append_last [] x = refl
get_elem?-append_last (y ∷ l) x = get_elem?-append_last l x

pub get_elem?-append_before :
    (l m : List Hash) (i : ℕ) → i < length l → get_elem? (l ++ m) i ≡ get_elem? l i
get_elem?-append_before [] m i h = absurd (omega arith)
get_elem?-append_before (y ∷ l) m zero h = refl
get_elem?-append_before (y ∷ l) m (suc i) h = get_elem?-append_before l m i (omega arith)

pub get_elem?-bound : (l : List Hash) (i : ℕ) (x : Hash) → get_elem? l i ≡ some x → i < length l
get_elem?-bound [] i x e = absurd (ground (arith, e))
get_elem?-bound (y ∷ l) zero x e = omega arith
get_elem?-bound (y ∷ l) (suc i) x e = omega (arith, get_elem?-bound l i x e)

pub get_elem?-inside :
    (l : List Hash) (i : ℕ) → i < length l → (x : Hash) × (get_elem? l i ≡ some x)
get_elem?-inside [] i h = absurd (omega arith)
get_elem?-inside (y ∷ l) zero h = (y, refl)
get_elem?-inside (y ∷ l) (suc i) h = get_elem?-inside l i (omega arith)

pub set_at-get :
    (l : List Hash) (i : ℕ) (x : Hash) → i < length l → get_elem? (set_at l i x) i ≡ some x
unfolding set_at
set_at-get [] i x h = absurd (omega arith)
set_at-get (y ∷ l) zero x h = refl
set_at-get (y ∷ l) (suc i) x h = set_at-get l i x (omega arith)

pub set_at-other :
    (l : List Hash) (i j : ℕ) (x : Hash) → i ≢ j → get_elem? (set_at l i x) j ≡ get_elem? l j
unfolding set_at
set_at-other [] i j x ne = refl
set_at-other (y ∷ l) zero zero x ne = absurd (ne refl)
set_at-other (y ∷ l) zero (suc j) x ne = refl
set_at-other (y ∷ l) (suc i) zero x ne = refl
set_at-other (y ∷ l) (suc i) (suc j) x ne = set_at-other l i j x (λ e. ne (ap suc e))

pub length-set_at : (l : List Hash) (i : ℕ) (x : Hash) → length (set_at l i x) ≡ length l
unfolding set_at
length-set_at [] i x = refl
length-set_at (y ∷ l) zero x = refl
length-set_at (y ∷ l) (suc i) x = ap suc (length-set_at l i x)

pop_last-append : (y : Hash) (l : List Hash) (x : Hash) → pop_last y (l ++ x ∷ []) ≡ (y ∷ l, x)
unfolding pop_last
pop_last-append y [] x = refl
pop_last-append y (z ∷ l) x = rw (pop_last-append z l x) refl

-- Removing an element by a swap from a set that an element was just appended to puts that one in its place.
pub swap_remove_index-append :
    (l : List Hash) (i : ℕ) (x old : Hash)
    → get_elem? l i ≡ some old
    → swap_remove_index (l ++ x ∷ []) i ≡ some (old, set_at l i x)
unfolding swap_remove_index
swap_remove_index-append [] i x old at = absurd (ground (arith, at))
swap_remove_index-append (y ∷ l) i x old at =
    let inside = get_elem?-bound (y ∷ l) i old at in
    let here : get_elem? (y ∷ l ++ x ∷ []) i ≡ some old =
      get_elem?-append_before (y ∷ l) (x ∷ []) i inside ∙ at in
    rw (swap_remove_index, here, pop_last-append y l x) refl

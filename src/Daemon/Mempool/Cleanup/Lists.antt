-- ===== src/Daemon/Mempool/Cleanup/Lists.antt =====
-- The hashes that `clean_up` of xelis_daemon/src/core/mempool.rs keeps and deletes, by their places.
use blockchain_xelis.Prelude.{
  ℕ, zero, suc, ◌+◌, ◌<◌, ◌≡◌, ◌↔◌, ◌⊎◌, inl, inr, refl, sym, ap, List, [], ◌∷◌, some, arith,
  get_elem?, take, drop,
}
use mathlib.Core.Path.{subst}
use blockchain_xelis.Daemon.BlockDag.{Hash, collect_onto}
use blockchain_xelis.Daemon.BlockDag.Sets.{IsOneOf, IsOneOf-collect_onto}
use blockchain_xelis.Daemon.Mempool.{SortedTx, lookup}
use blockchain_xelis.Daemon.Mempool.Cleanup.{Retained}
use blockchain_xelis.Daemon.Mempool.Cleanup.Retain.{Counts, IsSplit}

pub Counts-intro :
    (txs : List (Hash × SortedTx)) (m : ℕ) (l : List Hash)
    → ((i : ℕ) (h : Hash)
        → get_elem? l i ≡ some h
        → (s : SortedTx) × (lookup txs h ≡ some s) × (s.tx.nonce ≡ m + i))
    → Counts txs m l
Counts-intro txs m [] at = tt
Counts-intro txs m (h ∷ l) at =
    let (s, known, n) = at 0 h refl in
    (
      (s, known, omega (arith, n)),
      Counts-intro txs (m + 1) l
          (λ i x e. let (t, found, k) = at (suc i) x e in (t, found, omega (arith, k))),
    )

pub get_elem?-drop : (k i : ℕ) (l : List Hash) → get_elem? (drop k l) i ≡ get_elem? l (k + i)
get_elem?-drop zero i l = ap (λ (n : ℕ). get_elem? l n) (omega arith)
get_elem?-drop (suc k) i [] = refl
get_elem?-drop (suc k) i (x ∷ l) =
    let e : suc k + i ≡ suc (k + i) = omega arith in rw (e) (get_elem?-drop k i l)

pub IsOneOf-take :
    (k : ℕ) (h : Hash) (l : List Hash)
    → IsOneOf h (take k l)
    → (i : ℕ) × (i < k) × (get_elem? l i ≡ some h)
IsOneOf-take zero h l m = absurd m
IsOneOf-take (suc k) h [] m = absurd m
IsOneOf-take (suc k) h (x ∷ l) (inl e) = (0, omega arith, ap some (sym e))
IsOneOf-take (suc k) h (x ∷ l) (inr m) =
    let (i, low, at) = IsOneOf-take k h l m in (suc i, omega (arith, low), at)

pub IsOneOf-split :
    (k : ℕ) (h : Hash) (l : List Hash) → IsOneOf h l → IsOneOf h (take k l) ⊎ IsOneOf h (drop k l)
IsOneOf-split zero h l m = inr m
IsOneOf-split (suc k) h [] m = absurd m
IsOneOf-split (suc k) h (x ∷ l) (inl e) = inl (inl e)
IsOneOf-split (suc k) h (x ∷ l) (inr m) = elim (IsOneOf-split k h l m) [
  | inl t ↦ inl (inr t)
  | inr d ↦ inr d
]

pub IsOneOf-take_in : (k : ℕ) (h : Hash) (l : List Hash) → IsOneOf h (take k l) → IsOneOf h l
IsOneOf-take_in zero h l m = absurd m
IsOneOf-take_in (suc k) h [] m = absurd m
IsOneOf-take_in (suc k) h (x ∷ l) (inl e) = inl e
IsOneOf-take_in (suc k) h (x ∷ l) (inr m) = inr (IsOneOf-take_in k h l m)

IsOneOf-drop_in : (k : ℕ) (h : Hash) (l : List Hash) → IsOneOf h (drop k l) → IsOneOf h l
IsOneOf-drop_in zero h l m = m
IsOneOf-drop_in (suc k) h [] m = absurd m
IsOneOf-drop_in (suc k) h (x ∷ l) m = inr (IsOneOf-drop_in k h l m)

-- The hashes to delete and those kept are those of the cache.
pub IsSplit-members :
    (nonce m k : ℕ) (l : List Hash) (r : Retained)
    → IsSplit nonce m k l r
    → (h : Hash) → IsOneOf h (collect_onto r.hashes r.kept) ↔ IsOneOf h l
IsSplit-members nonce m k l r split h =
    let both = IsOneOf-collect_onto h r.hashes r.kept in
    let keeps = split.keeps in
    let deletes = split.deletes in
    (
      (λ x. elim (both.0 x) [
        | inl d ↦ IsOneOf-take_in k h l (subst (λ (y : List Hash). IsOneOf h y) deletes d)
        | inr d ↦ IsOneOf-drop_in k h l (subst (λ (y : List Hash). IsOneOf h y) keeps d)
      ]),
      (λ x. both.1 (elim (IsOneOf-split k h l x) [
        | inl d ↦ inl (subst (λ (y : List Hash). IsOneOf h y) (sym deletes) d)
        | inr d ↦ inr (subst (λ (y : List Hash). IsOneOf h y) (sym keeps) d)
      ])),
    )

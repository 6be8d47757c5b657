-- ===== src/Daemon/Mempool/Cleanup/Retain.antt =====
-- What the loops of `clean_up` of xelis_daemon/src/core/mempool.rs keep and delete.
use blockchain_xelis.Prelude.{
  ℕ, zero, suc, ◌+◌, ◌-◌, ◌≤◌, ◌<◌, ◌≡◌, inl, inr, refl, sym, ◌∙◌, ap, true, false, List, [], ◌∷◌,
  none, some, leb, arith, length, take, drop, Option-cases,
}
use mathlib.Core.Path.{subst}
use blockchain_xelis.Daemon.BlockDag.{Hash}
use blockchain_xelis.Daemon.BlockDag.Sets.{IsOneOf}
use blockchain_xelis.Daemon.Mempool.{SortedTx, lookup, delete}
use blockchain_xelis.Daemon.Mempool.Maps.{Hash-cases, lookup-delete_same, lookup-delete_other}
use blockchain_xelis.Daemon.Mempool.Cleanup.{Retained, delete_txs, widen, retain_loop}

-- The deleted hashes are gone, and the others stay.
pub delete_txs-other :
    (txs : List (Hash × SortedTx)) (l : List Hash) (deleted : List (Hash × SortedTx)) (h : Hash)
    → ¬ IsOneOf h l
    → lookup (delete_txs txs l deleted).0 h ≡ lookup txs h
unfolding delete_txs
delete_txs-other txs [] deleted h out = refl
delete_txs-other txs (x ∷ l) deleted h out = elim (Option-cases (lookup txs x)) [
  | inl missing ↦ rw (delete_txs, missing) (delete_txs-other txs l deleted h (λ m. out (inr m)))
  | inr (s, known) ↦
      rw (delete_txs, known)
        (delete_txs-other (delete txs x) l _ h (λ m. out (inr m))
          ∙ lookup-delete_other txs x h (λ e. out (inl (sym e))))
]

delete_txs-none :
    (txs : List (Hash × SortedTx)) (l : List Hash) (deleted : List (Hash × SortedTx)) (h : Hash)
    → lookup txs h ≡ none
    → lookup (delete_txs txs l deleted).0 h ≡ none
unfolding delete_txs
delete_txs-none txs [] deleted h e = e
delete_txs-none txs (x ∷ l) deleted h e = elim (Option-cases (lookup txs x)) [
  | inl missing ↦ rw (delete_txs, missing) (delete_txs-none txs l deleted h e)
  | inr (s, known) ↦
      let gone : lookup (delete txs x) h ≡ none = elim (Hash-cases x h) [
        | inl same ↦
            subst (λ (y : Hash). lookup (delete txs x) y ≡ none) same (lookup-delete_same txs x)
        | inr ne ↦ lookup-delete_other txs x h ne ∙ e
      ] in
      rw (delete_txs, known) (delete_txs-none (delete txs x) l _ h gone)
]

pub delete_txs-gone :
    (txs : List (Hash × SortedTx)) (l : List Hash) (deleted : List (Hash × SortedTx)) (h : Hash)
    → IsOneOf h l
    → lookup (delete_txs txs l deleted).0 h ≡ none
unfolding delete_txs
delete_txs-gone txs [] deleted h m = absurd m
delete_txs-gone txs (x ∷ l) deleted h m = elim (Option-cases (lookup txs x)) [
  | inl missing ↦ elim m [
    | inl e ↦
        rw (delete_txs, missing)
          (delete_txs-none txs l deleted h
            (subst (λ (y : Hash). lookup txs y ≡ none) (sym e) missing))
    | inr later ↦ rw (delete_txs, missing) (delete_txs-gone txs l deleted h later)
  ]
  | inr (s, known) ↦ elim m [
    | inl e ↦
        rw (delete_txs, known)
          (delete_txs-none (delete txs x) l _ h (
            subst (λ (y : Hash). lookup (delete txs x) y ≡ none) (sym e)
              (lookup-delete_same txs x)))
    | inr later ↦ rw (delete_txs, known) (delete_txs-gone (delete txs x) l _ h later)
  ]
]

-- The transactions of the list have the nonces from `m` on.
abbrev pub Counts : List (Hash × SortedTx) → ℕ → List Hash → Type 0
Counts txs m [] = Unit
Counts txs m (h ∷ l) =
    ((s : SortedTx) × (lookup txs h ≡ some s) × (s.tx.nonce ≡ m)) × Counts txs (m + 1) l

-- From the nonce on, all are kept, and the bounds are those of the list.
retain_loop-rest :
    (txs : List (Hash × SortedTx)) (nonce m low : ℕ) (l : List Hash)
    → Counts txs (m + 1) l
    → nonce ≤ m
    → low ≤ m
    → retain_loop txs nonce l (some (low, m))
      ≡ record { kept = l; hashes = []; bounds = some (low, m + length l) }
unfolding retain_loop widen
retain_loop-rest txs nonce m low [] c n e = let same : m + 0 ≡ m = omega arith in rw (same) refl
retain_loop-rest txs nonce m low (h ∷ l) ((s, known, at), c) n e =
    let test : leb nonce s.tx.nonce ≡ true = ground (arith, at, n) in
    let wide : widen (some (low, m)) s.tx.nonce ≡ some (low, m + 1) = ground (arith, at, e) in
    let same : m + suc (length l) ≡ m + 1 + length l = omega arith in
    rw
      (
        retain_loop,
        known,
        test,
        wide,
        same,
        retain_loop-rest txs nonce (m + 1) low l c (omega (arith, n)) (omega (arith, e)),
      )
      refl

-- What is below the nonce is deleted, and the rest is kept.
pub record IsSplit (nonce m k : ℕ) (l : List Hash) (r : Retained) : Type 0 where
  pub keeps : r.kept ≡ drop k l
  pub deletes : r.hashes ≡ take k l
  pub range : 0 < length r.kept → r.bounds ≡ some (nonce, m + length l - 1)

pub retain_loop-IsSplit :
    (txs : List (Hash × SortedTx)) (nonce m k : ℕ) (l : List Hash)
    → Counts txs m l
    → nonce ≡ m + k
    → IsSplit nonce m k l (retain_loop txs nonce l none)
unfolding retain_loop widen
retain_loop-IsSplit txs nonce m zero [] c e = record {
  keeps = refl;
  deletes = refl;
  range = λ h. absurd (omega (arith, h));
}
retain_loop-IsSplit txs nonce m (suc k) [] c e = record {
  keeps = refl;
  deletes = refl;
  range = λ h. absurd (omega (arith, h));
}
retain_loop-IsSplit txs nonce m zero (h ∷ l) ((s, known, at), c) e =
    let test : leb nonce s.tx.nonce ≡ true = ground (arith, at, e) in
    let first : s.tx.nonce ≡ m = at in
    let same : nonce ≡ m = omega (arith, e) in
    let rest = retain_loop-rest txs nonce m m l c (omega (arith, same)) (omega arith) in
    let count : m + suc (length l) - 1 ≡ m + length l = omega arith in
    rw (retain_loop, known, test, widen, first, rest)
      (record { keeps = refl; deletes = refl; range = λ h. rw (same, count) refl })
retain_loop-IsSplit txs nonce m (suc k) (h ∷ l) ((s, known, at), c) e =
    let test : leb nonce s.tx.nonce ≡ false = ground (arith, at, e) in
    let r = retain_loop-IsSplit txs nonce (m + 1) k l c (omega (arith, e)) in
    let count : m + suc (length l) - 1 ≡ m + 1 + length l - 1 = omega arith in
    rw (retain_loop, known, test)
      (record {
        keeps = r.keeps;
        deletes = ap (λ (t : List Hash). h ∷ t) r.deletes;
        range = λ p. rw (count) (r.range p);
      })

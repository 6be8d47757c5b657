-- ===== src/Daemon/Mempool/Cleanup/Account.antt =====
-- One account in `clean_up` of xelis_daemon/src/core/mempool.rs.
use blockchain_xelis.Prelude.{
  ℕ, ◌+◌, ◌-◌, ◌≤◌, ◌<◌, ◌≡◌, ◌⊎◌, inl, inr, refl, sym, ◌∙◌, ap, false, not, ◌||◌, List, [], ◌∷◌,
  Option, none, some, ltb, arith, length, length-drop, get_elem?, Bool-cases, Option-cases, Result,
  Result-cases, ok,
}
use mathlib.Core.Path.{subst}
use blockchain_xelis.Daemon.BlockDag.{Hash, collect_onto}
use blockchain_xelis.Daemon.BlockDag.Sets.{IsOneOf}
use blockchain_xelis.Daemon.Mempool.{PublicKey, SortedTx, AccountCache, lookup, is_empty}
use blockchain_xelis.Daemon.Mempool.Pool.{IsSpan, IsOneOf-index}
use blockchain_xelis.Daemon.Mempool.Cleanup.{
  Retained, delete_txs, retain_loop, all_found, with_bounds, reverify, clean_account,
}
use blockchain_xelis.Daemon.Mempool.Cleanup.Retain.{
  delete_txs-other, delete_txs-gone, IsSplit, retain_loop-IsSplit,
}
use blockchain_xelis.Daemon.Mempool.Cleanup.Lists.{
  Counts-intro, get_elem?-drop, IsOneOf-take, IsOneOf-split, IsOneOf-take_in, IsSplit-members,
}

module _ {B M E : Type 0}
    (verify_batch : List (Hash × SortedTx) → List Hash → Result E (Option (B × Option M))) where
  record IsReverified (before after : AccountCache B M) : Type 0 where
    same_txs : after.txs ≡ before.txs
    same_min : after.min ≡ before.min
    same_max : after.max ≡ before.max
    filled : 0 < length before.txs

  is_empty_lem : (l : List Hash) → is_empty l ≡ false → 0 < length l
  is_empty_lem [] e = absurd (ground (arith, e))
  is_empty_lem (x ∷ l) e = omega arith

  -- What is verified again keeps its transactions and its bounds.
  reverify-cases :
      (txs : List (Hash × SortedTx)) (cache : AccountCache B M) (hashes : List Hash)
      → (reverify verify_batch txs cache hashes ≡ none)
        ⊎ ((after : AccountCache B M) × (reverify verify_batch txs cache hashes ≡ some after)
            × IsReverified cache after)
  unfolding reverify
  reverify-cases txs cache hashes =
      elim (Bool-cases (is_empty cache.txs || not (all_found txs cache.txs))) [
        | inl bad ↦ inl (rw (reverify, bad) refl)
        | inr good ↦
            let filled = is_empty_lem cache.txs (ground (arith, good)) in
            let same : IsReverified cache cache = record {
              same_txs = refl;
              same_min = refl;
              same_max = refl;
              filled = filled;
            } in
            elim (Bool-cases (is_empty hashes)) [
              | inl nothing ↦ inr (cache, rw (reverify, good, nothing) refl, same)
              | inr some_gone ↦ elim (Result-cases (verify_batch txs cache.txs)) [
                | inr (e, failed) ↦ inl (rw (reverify, good, some_gone, failed) refl)
                | inl (result, passed) ↦ elim (Option-cases result) [
                  | inl none_left ↦
                      inr (cache, rw (reverify, good, some_gone, passed, none_left) refl, same)
                  | inr ((balances, multisig), found) ↦ inr (
                    record cache { balances = balances; multisig = multisig },
                    rw (reverify, good, some_gone, passed, found) refl,
                    record { same_txs = refl; same_min = refl; same_max = refl; filled = filled },
                  )
                ]
              ]
            ]
      ]

  -- What becomes of an account whose last nonce is `nonce`: all its transactions are gone, or those from that nonce on are kept.
  abbrev pub IsCleaned :
      List (Hash × SortedTx)
      → List (Hash × SortedTx)
      → PublicKey
      → AccountCache B M
      → ℕ
      → Option (AccountCache B M)
      → Type 0
  IsCleaned txs left key cache nonce kept =
      ((h : Hash) → ¬ IsOneOf h cache.txs → lookup left h ≡ lookup txs h)
      × (((kept ≡ none) × ((h : Hash) → IsOneOf h cache.txs → lookup left h ≡ none))
          ⊎ ((after : AccountCache B M) × (kept ≡ some after)
              × IsSpan left key after
              × (after.min ≡ nonce)
              × (after.max ≡ cache.max)
              × ((h : Hash) (s : SortedTx)
                  → IsOneOf h cache.txs
                  → lookup left h ≡ some s
                  → nonce ≤ s.tx.nonce)))

  with_bounds-txs :
      (cache : AccountCache B M) (r : Retained) → (with_bounds verify_batch cache r).txs ≡ r.kept
  with_bounds-txs cache r = elim (Option-cases r.bounds) [
    | inl e ↦ rw (e) refl
    | inr (bounds, e) ↦ rw (e) refl
  ]

  -- A transaction that is kept has a nonce from the last one on, and is not deleted.
  kept-lookup :
      (txs : List (Hash × SortedTx)) (key : PublicKey) (cache : AccountCache B M) (nonce : ℕ)
      (deleted : List (Hash × SortedTx)) (r : Retained)
      → IsSpan txs key cache
      → ltb nonce cache.min ≡ false
      → IsSplit nonce cache.min (nonce - cache.min) cache.txs r
      → (i : ℕ) (h : Hash) → get_elem? r.kept i ≡ some h
      → (s : SortedTx) × (lookup (delete_txs txs r.hashes deleted).0 h ≡ some s)
        × (s.tx.source ≡ key)
        × (s.tx.nonce ≡ nonce + i)
  kept-lookup txs key cache nonce deleted r span reached split i h at =
      let k = nonce - cache.min in
      let low : cache.min ≤ nonce = ground (arith, reached) in
      let at' = subst (λ (l : List Hash). get_elem? l i ≡ some h) split.keeps at in
      let (s, known, source, n) =
        span.nonces (k + i) h (sym (get_elem?-drop k i cache.txs) ∙ at') in
      let out : ¬ IsOneOf h r.hashes = (λ m.
        let (j, less, there) =
          IsOneOf-take k h cache.txs (subst (λ (l : List Hash). IsOneOf h l) split.deletes m) in
        let (t, other, from, q) = span.nonces j h there in
        let same : s ≡ t = ground (arith, known, other) in
        let e = ap (λ (x : SortedTx). x.tx.nonce) same in absurd (omega (arith, e, n, q, less))) in
      (s, delete_txs-other txs r.hashes deleted h out ∙ known, source, omega (arith, n, low))

  kept-IsCleaned :
      (txs : List (Hash × SortedTx)) (key : PublicKey) (cache after : AccountCache B M) (nonce : ℕ)
      (deleted : List (Hash × SortedTx)) (r : Retained)
      → IsSpan txs key cache
      → ltb nonce cache.min ≡ false
      → IsSplit nonce cache.min (nonce - cache.min) cache.txs r
      → IsReverified (with_bounds verify_batch cache r) after
      → IsCleaned txs (delete_txs txs r.hashes deleted).0 key cache nonce (some after)
  kept-IsCleaned txs key cache after nonce deleted r span reached split same =
      let k = nonce - cache.min in
      let low : cache.min ≤ nonce = ground (arith, reached) in
      let left = (delete_txs txs r.hashes deleted).0 in
      let held = with_bounds-txs cache r in
      let txs_after : after.txs ≡ r.kept = same.same_txs ∙ held in
      let filled : 0 < length r.kept = subst (λ (l : List Hash). 0 < length l) held same.filled in
      let bounds = split.range filled in
      let min_after : after.min ≡ nonce = same.same_min ∙ rw (bounds) refl in
      let max_after : after.max ≡ cache.min + length cache.txs - 1 =
        same.same_max ∙ rw (bounds) refl in
      let size = span.size in
      let count : length r.kept ≡ length cache.txs - k =
        ap (λ (l : List Hash). length l) split.keeps ∙ length-drop k cache.txs in
      let count_after : length after.txs ≡ length r.kept =
        ap (λ (l : List Hash). length l) txs_after in
      let max_same : after.max ≡ cache.max = omega (arith, max_after, size) in
      let nonces = kept-lookup txs key cache nonce deleted r span reached split in
      (
        (λ h m. delete_txs-other txs r.hashes deleted h (λ d. m (
            IsOneOf-take_in k h cache.txs
              (subst (λ (l : List Hash). IsOneOf h l) split.deletes d)))),
        inr (
          after,
          refl,
          record {
            size = omega (arith, max_same, size, min_after, count_after, count, filled, low);
            filled = omega (arith, count_after, filled);
            small = omega (arith, max_same, span.small);
            nonces = λ i h at.
                let (s, known, source, n) =
                  nonces i h (subst (λ (l : List Hash). get_elem? l i ≡ some h) txs_after at) in
                (s, known, source, omega (arith, n, min_after));
          },
          min_after,
          max_same,
          (λ h s m found. elim (IsOneOf-split k h cache.txs m) [
            | inl d ↦
                let gone =
                  delete_txs-gone txs r.hashes deleted h
                    (subst (λ (l : List Hash). IsOneOf h l) (sym split.deletes) d) in
                absurd (ground (arith, gone, found))
            | inr d ↦
                let (i, at) =
                  IsOneOf-index h r.kept
                    (subst (λ (l : List Hash). IsOneOf h l) (sym split.keeps) d) in
                let (t, known, source, n) = nonces i h at in
                let e : t ≡ s = ground (arith, known, found) in
                omega (arith, n, ap (λ (x : SortedTx). x.tx.nonce) e)
          ]),
        ),
      )

  -- An account whose cache fits its transactions is cleaned up whatever the verification answers: no transaction of another account is touched, and
  -- either all those of the account are deleted, or its cache still fits, begins at the last nonce of the account and ends
  -- where it ended, and no transaction with a lower nonce is left.
  pub clean_account-IsCleaned :
      (txs : List (Hash × SortedTx)) (key : PublicKey) (cache : AccountCache B M) (nonce : ℕ)
      (deleted : List (Hash × SortedTx))
      → IsSpan txs key cache
      → (kept : Option (AccountCache B M)) × (left : List (Hash × SortedTx)) × (gone : List
          (Hash × SortedTx))
        × (clean_account verify_batch txs cache (ok nonce) deleted ≡ (kept, left, gone))
        × IsCleaned txs left key cache nonce kept
  unfolding clean_account
  clean_account-IsCleaned txs key cache nonce deleted span =
      elim (Bool-cases (ltb nonce cache.min)) [
        | inl orphaned ↦
            let out = delete_txs txs cache.txs deleted in
            (
              none,
              out.0,
              out.1,
              rw (clean_account, orphaned) refl,
              (
                (λ h m. delete_txs-other txs cache.txs deleted h m),
                inl (refl, (λ h m. delete_txs-gone txs cache.txs deleted h m)),
              ),
            )
        | inr reached ↦
            let k = nonce - cache.min in
            let from : nonce ≡ cache.min + k = ground (arith, reached) in
            let counts =
              Counts-intro txs cache.min cache.txs
                (λ i h at. let (s, known, source, n) = span.nonces i h at in (s, known, n)) in
            let split = retain_loop-IsSplit txs nonce cache.min k cache.txs counts from in
            let r = retain_loop txs nonce cache.txs none in
            elim (reverify-cases txs (with_bounds verify_batch cache r) r.hashes) [
              | inl bad ↦
                  let all = collect_onto r.hashes r.kept in
                  let out = delete_txs txs all deleted in
                  let members = IsSplit-members nonce cache.min k cache.txs r split in
                  (
                    none,
                    out.0,
                    out.1,
                    rw (clean_account, reached, bad) refl,
                    (
                      (λ h m. delete_txs-other txs all deleted h (λ x. m ((members h).0 x))),
                      inl (refl, (λ h m. delete_txs-gone txs all deleted h ((members h).1 m))),
                    ),
                  )
              | inr (after, good, same) ↦
                  let out = delete_txs txs r.hashes deleted in
                  (
                    some after,
                    out.0,
                    out.1,
                    rw (clean_account, reached, good) refl,
                    kept-IsCleaned txs key cache after nonce deleted r span reached split same,
                  )
            ]
      ]

-- ===== src/Daemon/Mempool/Pool.antt =====
-- When the caches of the memory pool of xelis_daemon/src/core/mempool.rs fit its transactions, and the use of a nonce.
use blockchain_xelis.Prelude.{
  ℕ, suc, ◌+◌, ◌-◌, ◌%◌, ◌≤◌, ◌<◌, ◌≡◌, ◌↔◌, inl, inr, refl, sym, ◌∙◌, ap, true, false, ◌&&◌, ◌||◌,
  List, [], ◌∷◌, some, ltb, leb, arith, length, get_elem?, Bool-cases, Option-cases, u64_mod,
}
use mathlib.Core.Path.{subst}
use blockchain_xelis.Daemon.BlockDag.{Hash}
use blockchain_xelis.Daemon.BlockDag.Sets.{IsOneOf}
use blockchain_xelis.Daemon.Mempool.{
  PublicKey, SortedTx, AccountCache, Mempool, lookup, index_of, is_empty, has_tx_with_same_nonce,
  is_nonce_used,
}
use blockchain_xelis.Daemon.Mempool.Maps.{get_elem?-bound, get_elem?-inside}

pub IsOneOf-index : (x : Hash) (l : List Hash) → IsOneOf x l → (i : ℕ) × (get_elem? l i ≡ some x)
IsOneOf-index x [] m = absurd m
IsOneOf-index x (y ∷ l) (inl e) = (0, ap some (sym e))
IsOneOf-index x (y ∷ l) (inr m) = let (i, at) = IsOneOf-index x l m in (suc i, at)

module _ {B M : Type 0} where
  -- The transactions of an account have the nonces from `min` up to `max`, in their order.
  pub record IsSpan (txs : List (Hash × SortedTx)) (key : PublicKey) (cache : AccountCache B M)
      : Type 0 where
    pub size : cache.max + 1 ≡ cache.min + length cache.txs
    pub filled : 0 < length cache.txs
    pub small : cache.max + 1 < u64_mod
    pub nonces :
        (i : ℕ) (hash : Hash)
        → get_elem? cache.txs i ≡ some hash
        → (s : SortedTx) × (lookup txs hash ≡ some s)
          × (s.tx.source ≡ key)
          × (s.tx.nonce ≡ cache.min + i)

  -- Each transaction is in the cache of its sender, and each cache is such a span.
  pub record IsValid (pool : Mempool B M) : Type 0 where
    pub spans :
        (key : PublicKey) (cache : AccountCache B M)
        → lookup pool.caches key ≡ some cache
        → IsSpan pool.txs key cache
    pub tracked :
        (hash : Hash) (s : SortedTx)
        → lookup pool.txs hash ≡ some s
        → (cache : AccountCache B M) × (i : ℕ) × (lookup pool.caches s.tx.source ≡ some cache)
          × (get_elem? cache.txs i ≡ some hash)

  -- A place of the span is that of its nonce.
  pub IsSpan-index :
      {txs : List (Hash × SortedTx)} {key : PublicKey} {cache : AccountCache B M} (nonce : ℕ)
      → IsSpan txs key cache
      → cache.min ≤ nonce
      → nonce ≤ cache.max
      → (index_of cache nonce ≡ nonce - cache.min) × (nonce - cache.min < length cache.txs)
  IsSpan-index {cache = cache} nonce s low high =
      let a = s.size in
      let b = s.small in
      let wrap : (cache.max + 1) % u64_mod ≡ cache.max + 1 = omega (arith, b) in
      let inside : nonce - cache.min < length cache.txs = omega (arith, a) in
      let span : cache.max + 1 - cache.min ≡ length cache.txs = omega (arith, a) in
      let small : (nonce - cache.min) % length cache.txs ≡ nonce - cache.min =
        grind (arith, inside) in
      (rw (wrap, span) small, inside)

  IsSpan-filled :
      {txs : List (Hash × SortedTx)} {key : PublicKey} {cache : AccountCache B M}
      → IsSpan txs key cache
      → is_empty cache.txs ≡ false
  IsSpan-filled {cache = cache} s = go cache.txs s.filled
    where
      go : (l : List Hash) → 0 < length l → is_empty l ≡ false
      go [] h = absurd (omega arith)
      go (x ∷ l) h = refl

  -- In a valid pool, a nonce counts as used exactly if a transaction of the pool has that sender and that nonce.
  pub is_nonce_used_iff :
      (pool : Mempool B M) (key : PublicKey) (nonce : ℕ)
      → IsValid pool
      → (is_nonce_used pool key nonce ≡ true) ↔ (
          (hash : Hash) × (s : SortedTx) × (lookup pool.txs hash ≡ some s)
          × (s.tx.source ≡ key)
          × (s.tx.nonce ≡ nonce))
  unfolding is_nonce_used has_tx_with_same_nonce
  is_nonce_used_iff pool key nonce valid = elim (Option-cases (lookup pool.caches key)) [
    | inl missing ↦ (
      (λ e. absurd (ground (arith, e, missing))),
      (λ (hash, s, at, source, n).
          let (cache, i, found, k) = valid.tracked hash s at in
          let found' = subst (λ (x : PublicKey). lookup pool.caches x ≡ some cache) source found in
          absurd (ground (arith, missing, found'))),
    )
    | inr (cache, found) ↦
        let span = valid.spans key cache found in
        let filled = IsSpan-filled span in
        elim (Bool-cases (leb cache.min nonce && leb nonce cache.max)) [
          | inl inside ↦
              let low : cache.min ≤ nonce = ground (arith, inside) in
              let high : nonce ≤ cache.max = ground (arith, inside) in
              let (index, bound) = IsSpan-index nonce span low high in
              let (hash, at) = get_elem?-inside cache.txs (nonce - cache.min) bound in
              let (s, known, source, n) = span.nonces (nonce - cache.min) hash at in
              let unguarded : (ltb nonce cache.min || ltb cache.max nonce || is_empty cache.txs)
                  ≡ false =
                ground (arith, low, high, filled) in
              (
                (λ e. (hash, s, known, source, omega (arith, n, low))),
                (λ w.
                    rw (is_nonce_used, found, inside, has_tx_with_same_nonce, unguarded, index, at)
                      refl),
              )
          | inr outside ↦ (
            (λ e. absurd (ground (arith, e, found, outside))),
            (λ (hash, s, at, source, n).
                let (c, i, kept, k) = valid.tracked hash s at in
                let kept' = subst (λ (x : PublicKey). lookup pool.caches x ≡ some c) source kept in
                let same : cache ≡ c = ground (arith, found, kept') in
                let k' =
                  subst (λ (x : AccountCache B M). get_elem? x.txs i ≡ some hash) (sym same) k in
                let (s', at', source', n') = span.nonces i hash k' in
                let same_tx : s ≡ s' = ground (arith, at, at') in
                let position : nonce ≡ cache.min + i =
                  sym n ∙ ap (λ (x : SortedTx). x.tx.nonce) same_tx ∙ n' in
                let bound = get_elem?-bound cache.txs i hash k' in
                let size = span.size in absurd (ground (arith, outside, position, bound, size))),
          )
        ]
  ]

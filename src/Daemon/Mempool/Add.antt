-- ===== src/Daemon/Mempool/Add.antt =====
-- Adding a verified transaction to the memory pool of xelis_daemon/src/core/mempool.rs.
use blockchain_xelis.Prelude.{
  ℕ, zero, suc, ◌+◌, ◌<◌, ◌≡◌, ◌≢◌, ◌⊎◌, inl, inr, refl, sym, ◌∙◌, ap, List, [], ◌∷◌, ◌++◌, Option,
  none, some, arith, length, length-append, get_elem?, Bool-cases, ℕ_discrete, u64_mod,
}
use mathlib.Core.Path.{subst}
use blockchain_xelis.Daemon.BlockDag.{Hash, contains, collect_onto}
use blockchain_xelis.Daemon.BlockDag.Sets.{contains_iff}
use blockchain_xelis.Daemon.Mempool.{
  PublicKey, Transaction, SortedTx, AccountCache, Mempool, lookup, insert,
}
use blockchain_xelis.Daemon.Mempool.Maps.{
  Hash-cases, lookup-insert_same, lookup-insert_other, get_elem?-append_last,
  get_elem?-append_before, get_elem?-bound,
}
use blockchain_xelis.Daemon.Mempool.Pool.{IsOneOf-index, IsSpan, IsValid}

module _ {B M : Type 0} where
  IsSpan-keep :
      {txs : List (Hash × SortedTx)} (txs' : List (Hash × SortedTx)) {key : PublicKey}
      {cache : AccountCache B M}
      → IsSpan txs key cache
      → ((h : Hash) (s : SortedTx)
          → lookup txs h ≡ some s
          → s.tx.source ≡ key
          → lookup txs' h ≡ some s)
      → IsSpan txs' key cache
  IsSpan-keep txs' s keep = record {
    size = s.size;
    filled = s.filled;
    small = s.small;
    nonces = λ i hash at.
        let (tx, known, source, n) = s.nonces i hash at in
        (tx, keep hash tx known source, source, n);
  }

  -- The cache of one account is replaced, and nothing changes for the others.
  pub IsValid-replace :
      (pool : Mempool B M) (source : PublicKey) (cache : AccountCache B M)
      (txs : List (Hash × SortedTx))
      → IsValid pool
      → IsSpan txs source cache
      → ((h : Hash) (s : SortedTx)
          → lookup pool.txs h ≡ some s
          → s.tx.source ≢ source
          → lookup txs h ≡ some s)
      → ((h : Hash) (s : SortedTx)
          → lookup txs h ≡ some s
          → ((s.tx.source ≡ source) × ((i : ℕ) × (get_elem? cache.txs i ≡ some h)))
            ⊎ ((s.tx.source ≢ source) × (lookup pool.txs h ≡ some s)))
      → IsValid (record pool { caches = insert pool.caches source cache; txs = txs })
  IsValid-replace pool source cache txs valid span keep cover = record {
    spans = λ key c found. elim (Hash-cases source key) [
      | inl e ↦
          let same : cache ≡ c = ground (
            arith,
            sym (lookup-insert_same pool.caches source cache)
                ∙ subst (λ (k : PublicKey). lookup (insert pool.caches source cache) k ≡ some c)
                    (sym e) found,
          ) in
          subst (λ (k : PublicKey). IsSpan txs k c) e
            (subst (λ (x : AccountCache B M). IsSpan txs source x) same span)
      | inr ne ↦
          let found' = sym (lookup-insert_other pool.caches source key cache ne) ∙ found in
          IsSpan-keep txs (valid.spans key c found')
            (λ h s at e. keep h s at (λ same. ne (sym same ∙ e)))
    ];
    tracked = λ h s at. elim (cover h s at) [
      | inl (e, (i, k)) ↦ (
        cache,
        i,
        subst (λ (x : PublicKey). lookup (insert pool.caches source cache) x ≡ some cache) (sym e)
            (lookup-insert_same pool.caches source cache),
        k,
      )
      | inr (ne, old) ↦
          let (c, i, found, k) = valid.tracked h s old in
          (
            c,
            i,
            lookup-insert_other pool.caches source s.tx.source cache (λ e. ne (sym e)) ∙ found,
            k,
          )
    ];
  }

  module _ (pool : Mempool B M) (hash : Hash) (tx : Transaction) (size now : ℕ)
      (valid : IsValid pool) (new : lookup pool.txs hash ≡ none) (small : tx.nonce + 1 < u64_mod)
      (balances : B) (multisig : Option M) where
    abbrev pub sorted : SortedTx
    sorted = record { tx = tx; first_seen = now; size = size }

    -- A transaction that the pool has is not the new one.
    pub known_ne : (h : Hash) (s : SortedTx) → lookup pool.txs h ≡ some s → hash ≢ h
    known_ne h s at e =
        absurd (ground (arith, new, subst (λ (x : Hash). lookup pool.txs x ≡ some s) (sym e) at))

    abbrev pub single : AccountCache B M
    single = record {
      min = tx.nonce;
      max = tx.nonce;
      txs = hash ∷ [];
      balances = balances;
      multisig = multisig;
    }

    pub first-IsValid :
        lookup pool.caches tx.source ≡ none
        → IsValid (record pool {
          caches = insert pool.caches tx.source single;
          txs = insert pool.txs hash sorted;
        })
    first-IsValid missing =
        IsValid-replace pool tx.source single (insert pool.txs hash sorted) valid
          (record {
            size = omega arith;
            filled = omega arith;
            small = small;
            nonces = λ i h at.
                elim i
                    as (λ (n : ℕ).
                      get_elem? (hash ∷ []) n ≡ some h
                      → (s : SortedTx) × (lookup (insert pool.txs hash sorted) h ≡ some s)
                        × (s.tx.source ≡ tx.source)
                        × (s.tx.nonce ≡ tx.nonce + n)) [
                          | zero ↦ (λ e. (
                            sorted,
                            subst
                                (λ (x : Hash). lookup (insert pool.txs hash sorted) x ≡ some sorted)
                                (ground (arith, e)) (lookup-insert_same pool.txs hash sorted),
                            refl,
                            omega arith,
                          ))
                          | suc j ↦ (λ e. absurd (ground (arith, e)))
                        ]
                  at;
          })
          (λ h s at ne. lookup-insert_other pool.txs hash h sorted (known_ne h s at) ∙ at)
          (λ h s at. elim (Hash-cases hash h) [
            | inl e ↦
                let same : sorted ≡ s = ground (
                  arith,
                  sym (lookup-insert_same pool.txs hash sorted)
                      ∙ subst (λ (x : Hash). lookup (insert pool.txs hash sorted) x ≡ some s)
                          (sym e) at,
                ) in
                inl (sym (ap (λ (x : SortedTx). x.tx.source) same), (0, ap some e))
            | inr ne ↦
                let old = sym (lookup-insert_other pool.txs hash h sorted ne) ∙ at in
                inr (
                  (λ e.
                      let (c, i, found, k) = valid.tracked h s old in
                      absurd (
                        ground (
                          arith,
                          missing,
                          subst (λ (x : PublicKey). lookup pool.caches x ≡ some c) e found,
                        ))),
                  old,
                )
          ])

    module _ (cache : AccountCache B M) (found : lookup pool.caches tx.source ≡ some cache) where
      pub span : IsSpan pool.txs tx.source cache
      span = valid.spans tx.source cache found

      -- The new transaction is not in the cache yet.
      pub collect_new : collect_onto cache.txs (hash ∷ []) ≡ cache.txs ++ hash ∷ []
      unfolding collect_onto
      collect_new = elim (Bool-cases (contains cache.txs hash)) [
        | inl e ↦
            let (i, at) = IsOneOf-index hash cache.txs ((contains_iff cache.txs hash).0 e) in
            let (s, known, source, n) = span.nonces i hash at in absurd (known_ne hash s known refl)
        | inr e ↦ rw (e) refl
      ]

      abbrev pub appended : AccountCache B M
      appended = record {
        min = cache.min;
        max = tx.nonce;
        txs = cache.txs ++ hash ∷ [];
        balances = balances;
        multisig = multisig;
      }

      pub append-IsValid :
          tx.nonce ≡ cache.max + 1
          → IsValid (record pool {
            caches = insert pool.caches tx.source appended;
            txs = insert pool.txs hash sorted;
          })
      append-IsValid follows =
          let sum = length-append cache.txs (hash ∷ []) in
          let size = span.size in
          IsValid-replace pool tx.source appended (insert pool.txs hash sorted) valid
            (record {
              size = omega (arith, sum, size, follows);
              filled = omega (arith, sum);
              small = small;
              nonces = λ i h at. elim (ℕ_discrete i (length cache.txs)) [
                | yes e ↦
                    let at' =
                      subst (λ (n : ℕ). get_elem? (cache.txs ++ hash ∷ []) n ≡ some h) e at in
                    let same : hash ≡ h =
                      ground (arith, sym (get_elem?-append_last cache.txs hash) ∙ at') in
                    (
                      sorted,
                      subst (λ (x : Hash). lookup (insert pool.txs hash sorted) x ≡ some sorted)
                          same (lookup-insert_same pool.txs hash sorted),
                      refl,
                      omega (arith, size, follows, e),
                    )
                | no ne ↦
                    let bound = get_elem?-bound (cache.txs ++ hash ∷ []) i h at in
                    let at' =
                      sym (
                        get_elem?-append_before cache.txs (hash ∷ []) i
                          (omega (arith, bound, sum, ne)))
                      ∙ at in
                    let (s, known, source, n) = span.nonces i h at' in
                    (
                      s,
                      lookup-insert_other pool.txs hash h sorted (known_ne h s known) ∙ known,
                      source,
                      n,
                    )
              ];
            })
            (λ h s at ne. lookup-insert_other pool.txs hash h sorted (known_ne h s at) ∙ at)
            (λ h s at. elim (Hash-cases hash h) [
              | inl e ↦
                  let same : sorted ≡ s = ground (
                    arith,
                    sym (lookup-insert_same pool.txs hash sorted)
                        ∙ subst (λ (x : Hash). lookup (insert pool.txs hash sorted) x ≡ some s)
                            (sym e) at,
                  ) in
                  inl (
                    sym (ap (λ (x : SortedTx). x.tx.source) same),
                    (length cache.txs, get_elem?-append_last cache.txs hash ∙ ap some e),
                  )
              | inr ne ↦
                  let old = sym (lookup-insert_other pool.txs hash h sorted ne) ∙ at in
                  elim (Hash-cases s.tx.source tx.source) [
                    | inl e ↦
                        let (c, i, kept, k) = valid.tracked h s old in
                        let same : c ≡ cache = ground (
                          arith,
                          found,
                          subst (λ (x : PublicKey). lookup pool.caches x ≡ some c) e kept,
                        ) in
                        let k' =
                          subst (λ (x : AccountCache B M). get_elem? x.txs i ≡ some h) same k in
                        inl (
                          e,
                          (
                            i,
                            get_elem?-append_before cache.txs (hash ∷ []) i
                                  (get_elem?-bound cache.txs i h k')
                                ∙ k',
                          ),
                        )
                    | inr differ ↦ inr (differ, old)
                  ]
            ])

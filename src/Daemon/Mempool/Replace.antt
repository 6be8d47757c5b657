-- ===== src/Daemon/Mempool/Replace.antt =====
-- `add_tx` of xelis_daemon/src/core/mempool.rs, for a sender with transactions in the pool and for others.
use blockchain_xelis.Prelude.{
  ℕ, ◌+◌, ◌-◌, ◌≤◌, ◌<◌, ◌≡◌, ◌≢◌, ◌⊎◌, inl, inr, refl, sym, ◌∙◌, ap, true, false, ◌&&◌, List,
  Option, none, some, ltb, leb, arith, get_elem?, Bool-cases, Option-cases, ℕ_discrete, u64_mod,
  Result, ok,
}
use mathlib.Core.Path.{subst}
use blockchain_xelis.Daemon.BlockDag.{Hash}
use blockchain_xelis.Daemon.Mempool.{
  PublicKey, Transaction, SortedTx, AccountCache, Mempool, lookup, delete, insert, set_at,
  update_nonce_range, update_cache, add_to_cache, add_tx,
}
use blockchain_xelis.Daemon.Mempool.Maps.{
  Hash-cases, lookup-delete_same, lookup-delete_other, lookup-insert_same, lookup-insert_other,
  get_elem?-bound, get_elem?-inside, set_at-get, set_at-other, length-set_at,
  swap_remove_index-append,
}
use blockchain_xelis.Daemon.Mempool.Pool.{IsSpan, IsValid, IsSpan-index}
use blockchain_xelis.Daemon.Mempool.Add.{
  IsValid-replace, sorted, known_ne, single, first-IsValid, span, collect_new, appended,
  append-IsValid,
}

module _ {B M : Type 0} (pool : Mempool B M) (hash : Hash) (tx : Transaction) (size now : ℕ)
    (valid : IsValid pool) (new : lookup pool.txs hash ≡ none) (small : tx.nonce + 1 < u64_mod)
    (balances : B) (multisig : Option M) where
  abbrev entry : SortedTx
  entry = sorted pool hash tx size now valid new small balances multisig

  module _ (cache : AccountCache B M) (found : lookup pool.caches tx.source ≡ some cache)
      (low : cache.min ≤ tx.nonce) (high : tx.nonce ≤ cache.max) where
    abbrev place : ℕ
    place = tx.nonce - cache.min

    abbrev of_sender : IsSpan pool.txs tx.source cache
    of_sender = span pool hash tx size now valid new small balances multisig cache found

    abbrev replaced : AccountCache B M
    replaced = record {
      min = cache.min;
      max = cache.max;
      txs = set_at cache.txs place hash;
      balances = balances;
      multisig = multisig;
    }

    module _ (old : Hash) (at_old : get_elem? cache.txs place ≡ some old) where
      abbrev left : List (Hash × SortedTx)
      left = insert (delete pool.txs old) hash entry

      -- The transactions that are neither the new one nor the old one stay.
      kept :
          (h : Hash) (s : SortedTx) → lookup pool.txs h ≡ some s → old ≢ h → lookup left h ≡ some s
      kept h s at ne =
          lookup-insert_other (delete pool.txs old) hash h entry
            (known_ne pool hash tx size now valid new small balances multisig h s at)
          ∙ lookup-delete_other pool.txs old h ne
          ∙ at

      -- The old transaction has the sender and the nonce of the new one.
      old_tx :
          (s : SortedTx) × (lookup pool.txs old ≡ some s)
          × (s.tx.source ≡ tx.source)
          × (s.tx.nonce ≡ tx.nonce)
      old_tx =
          let (s, known, source, n) = of_sender.nonces place old at_old in
          (s, known, source, omega (arith, n, low))

      differs :
          (h : Hash) (s : SortedTx)
          → lookup pool.txs h ≡ some s
          → (s.tx.source ≢ tx.source) ⊎ (s.tx.nonce ≢ tx.nonce)
          → old ≢ h
      differs h s at other e =
          let (t, known, source, n) = old_tx in
          let same : t ≡ s =
            ground
              (arith, sym known ∙ subst (λ (x : Hash). lookup pool.txs x ≡ some s) (sym e) at) in
          elim other [
            | inl ne ↦ ne (sym (ap (λ (x : SortedTx). x.tx.source) same) ∙ source)
            | inr ne ↦ ne (sym (ap (λ (x : SortedTx). x.tx.nonce) same) ∙ n)
          ]

      replaced-IsSpan : IsSpan left tx.source replaced
      replaced-IsSpan =
          let same_size = length-set_at cache.txs place hash in
          let inside = get_elem?-bound cache.txs place old at_old in
          let a = of_sender.size in
          record {
            size = omega (arith, a, same_size);
            filled = omega (arith, of_sender.filled, same_size);
            small = of_sender.small;
            nonces = λ i h at. elim (ℕ_discrete place i) [
              | yes e ↦
                  let at' =
                    subst (λ (n : ℕ). get_elem? (set_at cache.txs place hash) n ≡ some h) (sym e)
                      at in
                  let same : hash ≡ h =
                    ground (arith, sym (set_at-get cache.txs place hash inside) ∙ at') in
                  (
                    entry,
                    subst (λ (x : Hash). lookup left x ≡ some entry) same
                        (lookup-insert_same (delete pool.txs old) hash entry),
                    refl,
                    omega (arith, e, low),
                  )
              | no ne ↦
                  let at' = sym (set_at-other cache.txs place i hash ne) ∙ at in
                  let (s, known, source, n) = of_sender.nonces i h at' in
                  (
                    s,
                    kept h s known (differs h s known (inr (λ e. ne (omega (arith, e, n, low))))),
                    source,
                    n,
                  )
            ];
          }

      replace-IsValid :
          IsValid (record pool { caches = insert pool.caches tx.source replaced; txs = left })
      replace-IsValid =
          IsValid-replace pool tx.source replaced left valid replaced-IsSpan
            (λ h s at ne. kept h s at (differs h s at (inl ne)))
            (λ h s at. elim (Hash-cases hash h) [
              | inl e ↦
                  let same : entry ≡ s = ground (
                    arith,
                    sym (lookup-insert_same (delete pool.txs old) hash entry)
                        ∙ subst (λ (x : Hash). lookup left x ≡ some s) (sym e) at,
                  ) in
                  inl (
                    sym (ap (λ (x : SortedTx). x.tx.source) same),
                    (
                      place,
                      set_at-get cache.txs place hash (get_elem?-bound cache.txs place old at_old)
                          ∙ ap some e,
                    ),
                  )
              | inr ne ↦
                  let below =
                    sym (lookup-insert_other (delete pool.txs old) hash h entry ne) ∙ at in
                  elim (Hash-cases old h) [
                    | inl gone ↦ absurd (
                        ground (
                          arith,
                          sym (lookup-delete_same pool.txs old)
                              ∙ subst (λ (x : Hash). lookup (delete pool.txs old) x ≡ some s)
                                  (sym gone) below,
                        ))
                    | inr stays ↦
                        let before = sym (lookup-delete_other pool.txs old h stays) ∙ below in
                        elim (Hash-cases s.tx.source tx.source) [
                          | inr differ ↦ inr (differ, before)
                          | inl e ↦
                              let (c, i, held, k) = valid.tracked h s before in
                              let same : c ≡ cache = ground (
                                arith,
                                found,
                                subst (λ (x : PublicKey). lookup pool.caches x ≡ some c) e held,
                              ) in
                              let k' =
                                subst (λ (x : AccountCache B M). get_elem? x.txs i ≡ some h) same
                                  k in
                              let apart : place ≢ i = (λ w. stays (
                                ground (
                                  arith,
                                  sym at_old
                                      ∙ subst (λ (n : ℕ). get_elem? cache.txs n ≡ some h) (sym w)
                                          k',
                                ))) in
                              inl (e, (i, set_at-other cache.txs place i hash apart ∙ k'))
                        ]
                  ]
            ])

  module _ {E : Type 0}
      (verify : Mempool B M → Hash → Transaction → Result E (Option (B × Option M)))
      (verified : verify pool hash tx ≡ ok (some (balances, multisig))) where
    -- In a valid pool, a verified transaction that the pool does not have, with a nonce below 2 ^ 64 - 1, can be added if its nonce is one of those
    -- that the sender has in the pool or the next one: the pool stays valid, and has the transaction.
    pub add_tx-IsValid :
        ((cache : AccountCache B M)
          → lookup pool.caches tx.source ≡ some cache
          → (cache.min ≤ tx.nonce) × (tx.nonce ≤ cache.max + 1))
        → (after : Mempool B M) × (add_tx verify pool hash tx size now ≡ ok after)
          × IsValid after
          × (lookup after.txs hash ≡ some entry)
    unfolding add_tx add_to_cache update_cache update_nonce_range
    add_tx-IsValid fits = elim (Option-cases (lookup pool.caches tx.source)) [
      | inl missing ↦ (
        record pool {
          caches =
              insert pool.caches tx.source
                (single pool hash tx size now valid new small balances multisig);
          txs = insert pool.txs hash entry;
        },
        rw (add_tx, verified, missing) refl,
        first-IsValid pool hash tx size now valid new small balances multisig missing,
        lookup-insert_same pool.txs hash entry,
      )
      | inr (cache, found) ↦
          let (low, next) = fits cache found in
          let collected =
            collect_new pool hash tx size now valid new small balances multisig cache found in
          elim (Bool-cases (leb cache.min tx.nonce && leb tx.nonce cache.max)) [
            | inl inside ↦
                let high : tx.nonce ≤ cache.max = ground (arith, inside) in
                let held =
                  span pool hash tx size now valid new small balances multisig cache found in
                let (index, bound) = IsSpan-index tx.nonce held low high in
                let (old, at_old) = get_elem?-inside cache.txs (tx.nonce - cache.min) bound in
                let swapped =
                  swap_remove_index-append cache.txs (tx.nonce - cache.min) hash old at_old in
                (
                  record pool {
                    caches = insert pool.caches tx.source (replaced cache found low high);
                    txs = left cache found low high old at_old;
                  },
                  rw (add_tx, verified, found, add_to_cache, inside, collected, index, swapped)
                      refl,
                  replace-IsValid cache found low high old at_old,
                  lookup-insert_same (delete pool.txs old) hash entry,
                )
            | inr outside ↦
                let follows : tx.nonce ≡ cache.max + 1 = ground (arith, outside, low, next) in
                let held =
                  span pool hash tx size now valid new small balances multisig cache found in
                let not_below : ltb tx.nonce cache.min ≡ false = ground (arith, low) in
                let above : ltb cache.max tx.nonce ≡ true = ground (arith, follows) in
                (
                  record pool {
                    caches = insert pool.caches tx.source (
                        appended pool hash tx size now valid new small balances multisig cache
                          found);
                    txs = insert pool.txs hash entry;
                  },
                  rw
                      (
                        add_tx, verified, found, add_to_cache, outside, update_cache,
                        update_nonce_range, collected, not_below, above,
                      )
                      refl,
                  append-IsValid pool hash tx size now valid new small balances multisig cache found
                      follows,
                  lookup-insert_same pool.txs hash entry,
                )
          ]
    ]

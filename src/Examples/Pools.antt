-- ===== src/Examples/Pools.antt =====
-- A memory pool with two transactions of one sender, and a queue of two groups.
use blockchain_xelis.Prelude.{
  ℕ, zero, suc, ◌+◌, ◌≤◌, ◌≡◌, ◌≢◌, ◌∙◌, ◌↔◌, inl, inr, refl, sym, ap, true, List, [], ◌∷◌, Option,
  none, some, Result, ok, arith, get_elem?,
}
use mathlib.Core.Path.{subst}
use blockchain_xelis.Daemon.BlockDag.{Hash, hash_beq}
use blockchain_xelis.Daemon.Mempool.{
  Transaction, SortedTx, AccountCache, Mempool, PublicKey, lookup, is_nonce_used, add_tx,
}
use blockchain_xelis.Daemon.Mempool.Maps.{Hash-cases, hash_beq_ne}
use blockchain_xelis.Daemon.Mempool.Pool.{IsSpan, IsValid, is_nonce_used_iff}
use blockchain_xelis.Daemon.Mempool.Replace.{add_tx-IsValid}
use blockchain_xelis.Daemon.Mempool.Cleanup.{clean_account}
use blockchain_xelis.Daemon.Mempool.Cleanup.Account.{IsCleaned, clean_account-IsCleaned}
use blockchain_xelis.Daemon.Mempool.Fees.{internal_estimate_fee_rates, estimate_fee_rates_order}
use blockchain_xelis.Daemon.TxSelector.{TxSelectorEntry, new}
use blockchain_xelis.Daemon.TxSelector.Order.{all_of}
use blockchain_xelis.Daemon.TxSelector.Groups.{AreGroupsOf, new_lem}
use blockchain_xelis.Daemon.BlockDag.Sets.{IsSetLike}
use mathlib.Core.List.{Perm}

abbrev sender : PublicKey
sender = 7 ∷ []

abbrev tx_at : ℕ → Transaction
tx_at nonce = record { source = sender; nonce = nonce; fee = 100 + nonce }

abbrev sorted_at : ℕ → SortedTx
sorted_at nonce = record { tx = tx_at nonce; first_seen = 0; size = 2048 }

abbrev cache : AccountCache ℕ ℕ
cache = record { min = 5; max = 6; txs = (1 ∷ []) ∷ (2 ∷ []) ∷ []; balances = 0; multisig = none }

abbrev pool : Mempool ℕ ℕ
pool = record {
  mainnet = true;
  txs = (1 ∷ [], sorted_at 5) ∷ (2 ∷ [], sorted_at 6) ∷ [];
  caches = (sender, cache) ∷ [];
}

cache-IsSpan : IsSpan pool.txs sender cache
unfolding lookup hash_beq
cache-IsSpan = record { size = omega arith; filled = omega arith; small = omega arith; nonces = go }
  where
    go :
        (i : ℕ) (hash : Hash)
        → get_elem? cache.txs i ≡ some hash
        → (s : SortedTx) × (lookup pool.txs hash ≡ some s)
          × (s.tx.source ≡ sender)
          × (s.tx.nonce ≡ 5 + i)
    go zero hash e =
        let h : hash ≡ 1 ∷ [] = ground (arith, e) in (sorted_at 5, rw (h) refl, refl, omega arith)
    go (suc zero) hash e =
        let h : hash ≡ 2 ∷ [] = ground (arith, e) in (sorted_at 6, rw (h) refl, refl, omega arith)
    go (suc (suc i)) hash e = absurd (ground (arith, e))

pool-spans :
    (key : PublicKey) (c : AccountCache ℕ ℕ)
    → lookup pool.caches key ≡ some c
    → IsSpan pool.txs key c
unfolding lookup hash_beq
pool-spans key c e = elim (Hash-cases sender key) [
  | inl same ↦
      let found : lookup pool.caches sender ≡ some cache = refl in
      let e' = subst (λ (k : PublicKey). lookup pool.caches k ≡ some c) (sym same) e in
      let equal : cache ≡ c = ground (arith, found, e') in
      subst (λ (k : PublicKey). IsSpan pool.txs k c) same
        (subst (λ (x : AccountCache ℕ ℕ). IsSpan pool.txs sender x) equal cache-IsSpan)
  | inr ne ↦ absurd (ground (arith, e, hash_beq_ne sender key ne))
]

pool-tracked :
    (hash : Hash) (s : SortedTx)
    → lookup pool.txs hash ≡ some s
    → (c : AccountCache ℕ ℕ) × (i : ℕ) × (lookup pool.caches s.tx.source ≡ some c)
      × (get_elem? c.txs i ≡ some hash)
unfolding lookup hash_beq
pool-tracked hash s e = elim (Hash-cases (1 ∷ []) hash) [
  | inl same ↦
      let e' = subst (λ (h : Hash). lookup pool.txs h ≡ some s) (sym same) e in
      let equal : sorted_at 5 ≡ s = ground (arith, e') in
      (cache, 0, rw (← equal) refl, ap some same)
  | inr ne ↦ elim (Hash-cases (2 ∷ []) hash) [
    | inl same ↦
        let e' = subst (λ (h : Hash). lookup pool.txs h ≡ some s) (sym same) e in
        let equal : sorted_at 6 ≡ s = ground (arith, e') in
        (cache, 1, rw (← equal) refl, ap some same)
    | inr other ↦
        let a : lookup pool.txs hash ≡ none =
          lookup-cons (1 ∷ []) hash (sorted_at 5) ((2 ∷ [], sorted_at 6) ∷ []) ne
          ∙ lookup-cons (2 ∷ []) hash (sorted_at 6) [] other in
        absurd (ground (arith, sym a ∙ e))
  ]
]
  where
    lookup-cons :
        (k h : Hash) (v : SortedTx) (m : List (Hash × SortedTx))
        → k ≢ h
        → lookup ((k, v) ∷ m) h ≡ lookup m h
    lookup-cons k h v m differ = rw (lookup, hash_beq_ne k h differ) refl

pool-IsValid : IsValid pool
pool-IsValid = record { spans = pool-spans; tracked = pool-tracked }

is_nonce_used_iff_example : (is_nonce_used pool sender 6 ≡ true) ↔ (
    (hash : Hash) × (s : SortedTx) × (lookup pool.txs hash ≡ some s)
    × (s.tx.source ≡ sender)
    × (s.tx.nonce ≡ 6))
is_nonce_used_iff_example = is_nonce_used_iff pool sender 6 pool-IsValid

abbrev accept : Mempool ℕ ℕ → Hash → Transaction → Result ℕ (Option (ℕ × Option ℕ))
accept p hash tx = ok (some (tx.nonce, none))

next_fits :
    (c : AccountCache ℕ ℕ) → lookup pool.caches sender ≡ some c → (c.min ≤ 7) × (7 ≤ c.max + 1)
unfolding lookup hash_beq
next_fits c e = let same : cache ≡ c = ground (arith, e) in rw (← same) (omega arith, omega arith)

three_missing : lookup pool.txs (3 ∷ []) ≡ none
unfolding lookup hash_beq
three_missing = refl

add_tx-IsValid_example :
    (after : Mempool ℕ ℕ) × (add_tx accept pool (3 ∷ []) (tx_at 7) 2048 0 ≡ ok after)
    × IsValid after
    × (lookup after.txs (3 ∷ []) ≡ some (sorted_at 7))
add_tx-IsValid_example =
    add_tx-IsValid pool (3 ∷ []) (tx_at 7) 2048 0 pool-IsValid three_missing (omega arith) 7 none
      accept refl next_fits

abbrev accept_all : List (Hash × SortedTx) → List Hash → Result ℕ (Option (ℕ × Option ℕ))
accept_all txs hashes = ok none

clean_account-IsCleaned_example :
    (kept : Option (AccountCache ℕ ℕ)) × (left : List (Hash × SortedTx)) × (gone : List
      (Hash × SortedTx))
    × (clean_account accept_all pool.txs cache (ok 6) [] ≡ (kept, left, gone))
    × IsCleaned accept_all pool.txs left sender cache 6 kept
clean_account-IsCleaned_example =
    clean_account-IsCleaned accept_all pool.txs sender cache 6 [] cache-IsSpan

estimate_fee_rates_order_example :
    ((internal_estimate_fee_rates (9 ∷ 4 ∷ 7 ∷ 1 ∷ 3 ∷ [])).medium
      ≤ (internal_estimate_fee_rates (9 ∷ 4 ∷ 7 ∷ 1 ∷ 3 ∷ [])).high)
    × ((internal_estimate_fee_rates (9 ∷ 4 ∷ 7 ∷ 1 ∷ 3 ∷ [])).low
        ≤ (internal_estimate_fee_rates (9 ∷ 4 ∷ 7 ∷ 1 ∷ 3 ∷ [])).medium)
estimate_fee_rates_order_example = estimate_fee_rates_order (9 ∷ 4 ∷ 7 ∷ 1 ∷ 3 ∷ []) (omega arith)

abbrev entry : ℕ → TxSelectorEntry
entry nonce = record { hash = nonce ∷ []; tx = tx_at nonce; size = 2048 }

new_lem_example :
    (senders : List PublicKey) × IsSetLike senders
    × AreGroupsOf senders (new (entry 6 ∷ entry 5 ∷ []))
    × Perm (all_of (new (entry 6 ∷ entry 5 ∷ []))) (entry 6 ∷ entry 5 ∷ [])
new_lem_example = new_lem (entry 6 ∷ entry 5 ∷ [])

-- ===== src/Daemon/Mempool/Cleanup.antt =====
-- `clean_up` of xelis_daemon/src/core/mempool.rs: the caches one by one, and what of each is kept for the last nonce
-- of the account. The nonces of the storage and the verification of what is left are parameters.
pub mod Retain
pub mod Lists
pub mod Account
use blockchain_xelis.Prelude.{
  ℕ, Bool, true, false, not, ◌&&◌, ◌||◌, List, [], ◌∷◌, ◌++◌, Option, none, some, leb, ltb,
  if◌then◌else◌, Result, ok, err,
}
use blockchain_xelis.Daemon.BlockDag.{Hash, collect_onto}
use blockchain_xelis.Daemon.Mempool.{
  PublicKey, SortedTx, AccountCache, Mempool, lookup, delete, insert, is_empty,
}

-- `remove` of each hash, with what was removed.
unfoldable pub delete_txs :
    List (Hash × SortedTx)
    → List Hash
    → List (Hash × SortedTx)
    → List (Hash × SortedTx) × List (Hash × SortedTx)
unfolding lookup delete
delete_txs txs [] deleted = (txs, deleted)
delete_txs txs (hash ∷ rest) deleted = elim (lookup txs hash) [
  | none ↦ delete_txs txs rest deleted
  | some sorted_tx ↦ delete_txs (delete txs hash) rest (deleted ++ (hash, sorted_tx) ∷ [])
]

unfoldable pub widen : Option (ℕ × ℕ) → ℕ → Option (ℕ × ℕ)
widen none tx_nonce = some (tx_nonce, tx_nonce)
widen (some (min, max)) tx_nonce =
    some (if ltb tx_nonce min then tx_nonce else min, if ltb max tx_nonce then tx_nonce else max)

-- What `retain` leaves: the hashes kept, those to delete, and the bounds of the nonces kept.
pub record Retained : Type 0 where
  pub kept : List Hash
  pub hashes : List Hash
  pub bounds : Option (ℕ × ℕ)

unfoldable pub retain_loop : List (Hash × SortedTx) → ℕ → List Hash → Option (ℕ × ℕ) → Retained
unfolding lookup widen
retain_loop txs nonce [] bounds = record { kept = []; hashes = []; bounds = bounds }
retain_loop txs nonce (hash ∷ rest) bounds = elim (lookup txs hash) [
  | none ↦ let r = retain_loop txs nonce rest bounds in record r { hashes = hash ∷ r.hashes }
  | some sorted_tx ↦ elim (leb nonce sorted_tx.tx.nonce) [
    | true ↦
        let r = retain_loop txs nonce rest (widen bounds sorted_tx.tx.nonce) in
        record r { kept = hash ∷ r.kept }
    | false ↦ let r = retain_loop txs nonce rest bounds in record r { hashes = hash ∷ r.hashes }
  ]
]

unfoldable pub all_found : List (Hash × SortedTx) → List Hash → Bool
unfolding lookup
all_found txs [] = true
all_found txs (hash ∷ rest) = elim (lookup txs hash) [ none ↦ false | some tx ↦ all_found txs rest ]

module _ {B M E : Type 0}
    (verify_batch : List (Hash × SortedTx) → List Hash → Result E (Option (B × Option M))) where
  abbrev pub with_bounds : AccountCache B M → Retained → AccountCache B M
  with_bounds cache r = elim r.bounds [
    | none ↦ record cache { txs = r.kept }
    | some (min, max) ↦ record cache { txs = r.kept; min = min; max = max }
  ]

  -- The verification of what is left, `none` where the whole cache is to be deleted.
  unfoldable pub reverify :
      List (Hash × SortedTx) → AccountCache B M → List Hash → Option (AccountCache B M)
  unfolding all_found
  reverify txs cache hashes =
      if is_empty cache.txs || not (all_found txs cache.txs)
      then none
      else (if is_empty hashes then some cache else elim (verify_batch txs cache.txs) [
        | err e ↦ none
        | ok none ↦ some cache
        | ok (some (balances, multisig)) ↦
            some (record cache { balances = balances; multisig = multisig })
      ])

  -- One round of the loop: the cache that is injected again, if any, the transactions left, and those deleted.
  unfoldable pub clean_account :
      List (Hash × SortedTx)
      → AccountCache B M
      → Result E ℕ
      → List (Hash × SortedTx)
      → Option (AccountCache B M) × List (Hash × SortedTx) × List (Hash × SortedTx)
  unfolding delete_txs retain_loop reverify collect_onto
  clean_account txs cache (err e) deleted =
      let (left, gone) = delete_txs txs cache.txs deleted in (none, left, gone)
  clean_account txs cache (ok nonce) deleted =
      if ltb nonce cache.min
      then (let (left, gone) = delete_txs txs cache.txs deleted in (none, left, gone))
      else (let r = retain_loop txs nonce cache.txs none in
          let bounded = with_bounds cache r in
          elim (reverify txs bounded r.hashes) [
            | none ↦
                let (left, gone) = delete_txs txs (collect_onto r.hashes r.kept) deleted in
                (none, left, gone)
            | some kept ↦
                let (left, gone) = delete_txs txs r.hashes deleted in (some kept, left, gone)
          ])

  module _ (get_last_nonce : PublicKey → Result E ℕ) where
    unfoldable pub clean_loop :
        List (PublicKey × AccountCache B M)
        → Mempool B M
        → List (Hash × SortedTx)
        → Mempool B M × List (Hash × SortedTx)
    unfolding clean_account insert
    clean_loop [] pool deleted = (pool, deleted)
    clean_loop ((key, cache) ∷ rest) pool deleted =
        let (kept, left, gone) = clean_account pool.txs cache (get_last_nonce key) deleted in
        elim kept [
          | none ↦ clean_loop rest (record pool { txs = left }) gone
          | some c ↦
              clean_loop rest (record pool { txs = left; caches = insert pool.caches key c }) gone
        ]

    unfoldable pub clean_up : Mempool B M → Mempool B M × List (Hash × SortedTx)
    unfolding clean_loop
    clean_up pool = clean_loop pool.caches (record pool { caches = [] }) []

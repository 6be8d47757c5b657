-- ===== src/Daemon/Mempool.antt =====
-- The memory pool: xelis_daemon/src/core/mempool.rs. Of a transaction stand what the pool reads of it. Its
-- verification, which gives the balances and the multisig of the sender, and the storage are parameters. A hash map
-- is a list of its entries, with each key once.
pub mod Maps
pub mod Fees
pub mod Pool
pub mod Add
pub mod Replace
pub mod Cleanup
use blockchain_xelis.Prelude.{
  ℕ, zero, suc, ◌+◌, ◌-◌, ◌%◌, Bool, true, false, not, ◌&&◌, ◌||◌, List, [], ◌∷◌, Option, none,
  some, leb, ltb, if◌then◌else◌, Result, ok, err, get_elem?, u64_mod,
}
use blockchain_xelis.Daemon.BlockDag.{Hash, hash_beq, contains, collect_onto}

abbrev pub PublicKey : Type 0
PublicKey = List ℕ

pub record Transaction : Type 0 where
  pub source : PublicKey
  pub nonce : ℕ
  pub fee : ℕ

pub record SortedTx : Type 0 where
  pub tx : Transaction
  pub first_seen : ℕ
  pub size : ℕ

pub record AccountCache (B M : Type 0) : Type 0 where
  pub min : ℕ
  pub max : ℕ
  pub txs : List Hash
  pub balances : B
  pub multisig : Option M

pub record Mempool (B M : Type 0) : Type 0 where
  pub mainnet : Bool
  pub txs : List (Hash × SortedTx)
  pub caches : List (PublicKey × AccountCache B M)

pub data MempoolError (E : Type 0) : Type 0 where
  invalid : E → MempoolError E
  account_not_found : PublicKey → MempoolError E
  tx_not_found : Hash → MempoolError E

-- `get`, `remove` and `insert` of a hash map.
unfoldable pub lookup {ℓ} : {V : Type ℓ} → List (List ℕ × V) → List ℕ → Option V
unfolding hash_beq
lookup [] key = none
lookup ((k, v) ∷ rest) key = let later = lookup rest key in if hash_beq k key then some v else later

unfoldable pub delete {ℓ} : {V : Type ℓ} → List (List ℕ × V) → List ℕ → List (List ℕ × V)
unfolding hash_beq
delete [] key = []
delete ((k, v) ∷ rest) key =
    let later = delete rest key in if hash_beq k key then later else (k, v) ∷ later

unfoldable pub insert {ℓ} : {V : Type ℓ} → List (List ℕ × V) → List ℕ → V → List (List ℕ × V)
unfolding delete
insert m key value = (key, value) ∷ delete m key

-- `shift_remove` and `swap_remove_index` of an `IndexSet`.
unfoldable pub shift_remove : List Hash → Hash → List Hash
unfolding hash_beq
shift_remove [] hash = []
shift_remove (first ∷ rest) hash =
    let later = shift_remove rest hash in if hash_beq first hash then rest else first ∷ later

unfoldable pub pop_last : Hash → List Hash → List Hash × Hash
pop_last first [] = ([], first)
pop_last first (next ∷ rest) = let (l, last) = pop_last next rest in (first ∷ l, last)

unfoldable pub set_at : List Hash → ℕ → Hash → List Hash
set_at [] index hash = []
set_at (first ∷ rest) zero hash = hash ∷ rest
set_at (first ∷ rest) (suc index) hash = first ∷ set_at rest index hash

unfoldable pub swap_remove_index : List Hash → ℕ → Option (Hash × List Hash)
unfolding pop_last set_at
swap_remove_index [] index = none
swap_remove_index (first ∷ rest) index = elim (get_elem? (first ∷ rest) index) [
  | none ↦ none
  | some removed ↦ let (l, last) = pop_last first rest in some (removed, set_at l index last)
]

abbrev pub is_empty : List Hash → Bool
is_empty [] = true
is_empty (hash ∷ rest) = false

-- The loop over the transactions left, for the bounds; a missing one is an error.
unfoldable pub bounds_loop :
    List (Hash × SortedTx) → List Hash → Option (ℕ × ℕ) → Option (Option (ℕ × ℕ))
unfolding lookup
bounds_loop txs [] bounds = some bounds
bounds_loop txs (tx_hash ∷ rest) bounds = elim (lookup txs tx_hash) [
  | none ↦ none
  | some sorted_tx ↦
      let nonce = sorted_tx.tx.nonce in
      bounds_loop txs rest (elim bounds [
        | none ↦ some (nonce, nonce)
        | some (low, high) ↦
            some (if ltb nonce low then nonce else low, if ltb high nonce then nonce else high)
      ])
]

module _ {B M : Type 0} where
  -- The place of a nonce among the transactions of an account.
  abbrev pub index_of : AccountCache B M → ℕ → ℕ
  index_of cache nonce = (nonce - cache.min) % ((cache.max + 1) % u64_mod - cache.min)

  unfoldable pub update_nonce_range : AccountCache B M → ℕ → AccountCache B M
  update_nonce_range cache nonce =
      let low = if ltb nonce cache.min then nonce else cache.min in
      let high = if ltb cache.max nonce then nonce else cache.max in
      record cache { min = low; max = high }

  unfoldable pub update_cache : AccountCache B M → ℕ → Hash → AccountCache B M
  unfolding update_nonce_range collect_onto
  update_cache cache nonce hash = record (update_nonce_range cache nonce) {
    txs = collect_onto cache.txs (hash ∷ []);
  }

  unfoldable pub get_next_nonce : AccountCache B M → ℕ
  get_next_nonce cache = (cache.max + 1) % u64_mod

  unfoldable pub has_tx_with_same_nonce : AccountCache B M → ℕ → Option Hash
  has_tx_with_same_nonce cache nonce =
      if ltb nonce cache.min || ltb cache.max nonce || is_empty cache.txs
      then none
      else get_elem? cache.txs (index_of cache nonce)

  unfoldable pub is_nonce_used : Mempool B M → PublicKey → ℕ → Bool
  unfolding lookup has_tx_with_same_nonce
  is_nonce_used pool key nonce = elim (lookup pool.caches key) [
    | none ↦ false
    | some cache ↦
        if leb cache.min nonce && leb nonce cache.max
        then elim (has_tx_with_same_nonce cache nonce) [ none ↦ false | some hash ↦ true ]
        else false
  ]

  unfoldable pub contains_tx : Mempool B M → Hash → Bool
  unfolding lookup
  contains_tx pool hash = elim (lookup pool.txs hash) [ none ↦ false | some tx ↦ true ]

  unfoldable pub get_sorted_tx :
      {E : Type 0} → Mempool B M → Hash → Result (MempoolError E) SortedTx
  unfolding lookup
  get_sorted_tx pool hash = elim (lookup pool.txs hash) [
    | none ↦ err (tx_not_found hash)
    | some tx ↦ ok tx
  ]

  -- The cache of the sender and the transactions that are left, when a transaction is added to a cache.
  unfoldable pub add_to_cache :
      AccountCache B M
      → List (Hash × SortedTx)
      → ℕ
      → Hash
      → AccountCache B M × List (Hash × SortedTx)
  unfolding swap_remove_index update_cache delete collect_onto
  add_to_cache cache txs nonce hash =
      if leb cache.min nonce && leb nonce cache.max
      then elim (swap_remove_index (collect_onto cache.txs (hash ∷ [])) (index_of cache nonce)) [
        | none ↦ (record cache { txs = collect_onto cache.txs (hash ∷ []) }, txs)
        | some (tx_hash, left) ↦ (record cache { txs = left }, delete txs tx_hash)
      ]
      else (update_cache cache nonce hash, txs)

  module _ {E : Type 0}
      (verify : Mempool B M → Hash → Transaction → Result E (Option (B × Option M))) where
    unfoldable pub add_tx :
        Mempool B M → Hash → Transaction → ℕ → ℕ → Result (MempoolError E) (Mempool B M)
    unfolding lookup insert add_to_cache
    add_tx pool hash tx size now = elim (verify pool hash tx) [
      | err e ↦ err (invalid e)
      | ok none ↦ err (account_not_found tx.source)
      | ok (some (balances, multisig)) ↦
          let sorted_tx : SortedTx = record { tx = tx; first_seen = now; size = size } in
          elim (lookup pool.caches tx.source) [
            | some cache ↦
                let (added, txs) = add_to_cache cache pool.txs tx.nonce hash in
                ok (record pool {
                  caches =
                      insert pool.caches tx.source
                        (record added { balances = balances; multisig = multisig });
                  txs = insert txs hash sorted_tx;
                })
            | none ↦ ok (record pool {
              caches = insert pool.caches tx.source (record {
                min = tx.nonce;
                max = tx.nonce;
                txs = hash ∷ [];
                balances = balances;
                multisig = multisig;
              });
              txs = insert pool.txs hash sorted_tx;
            })
          ]
    ]

  unfoldable pub remove_tx :
      {E : Type 0} → Mempool B M → Hash → Result (MempoolError E) (Unit {0}) × Mempool B M
  unfolding lookup delete insert shift_remove contains bounds_loop
  remove_tx pool hash = elim (lookup pool.txs hash) [
    | none ↦ (err (tx_not_found hash), pool)
    | some sorted_tx ↦
        let txs = delete pool.txs hash in
        let key = sorted_tx.tx.source in
        elim (lookup pool.caches key) [
          | none ↦ (ok tt, record pool { txs = txs })
          | some cache ↦
              let left = shift_remove cache.txs hash in
              if not (contains cache.txs hash)
              then (ok tt, record pool { txs = txs })
              else (if is_empty left
                  then (ok tt, record pool { txs = txs; caches = delete pool.caches key })
                  else elim (bounds_loop txs left none) [
                    | none ↦ (
                      err (tx_not_found hash),
                      record pool {
                        txs = txs;
                        caches = insert pool.caches key (record cache { txs = left });
                      },
                    )
                    | some none ↦ (
                      ok tt,
                      record pool {
                        txs = txs;
                        caches = insert pool.caches key (record cache { txs = left });
                      },
                    )
                    | some (some (low, high)) ↦ (
                      ok tt,
                      record pool {
                        txs = txs;
                        caches =
                            insert pool.caches key
                              (record cache { txs = left; min = low; max = high });
                      },
                    )
                  ])
        ]
  ]

  unfoldable pub clear : Mempool B M → Mempool B M
  clear pool = record pool { txs = []; caches = [] }

-- ===== src/Daemon/TxSelector.antt =====
-- The choice of transactions for a block: xelis_daemon/src/core/tx_selector.rs. A `BinaryHeap` is the list of its
-- elements, of which `pop` takes out a largest one.
pub mod Order
pub mod Keyed
pub mod Groups
use blockchain_xelis.Prelude.{
  ℕ, ◌+◌, Bool, true, false, List, [], ◌∷◌, ◌++◌, Option, none, some, ltb, leb, if◌then◌else◌, map,
  sort_by,
}
use blockchain_xelis.Daemon.BlockDag.{Hash}
use blockchain_xelis.Daemon.Mempool.{Transaction, PublicKey, lookup, insert}

pub record TxSelectorEntry : Type 0 where
  pub hash : Hash
  pub tx : Transaction
  pub size : ℕ

-- The order of groups, by the fee of the first transaction: one without transactions is the least.
unfoldable pub rank : List TxSelectorEntry → ℕ
rank [] = 0
rank (entry ∷ rest) = entry.tx.fee + 1

unfoldable pub pop_max :
    List (List TxSelectorEntry) → Option (List TxSelectorEntry × List (List TxSelectorEntry))
unfolding rank
pop_max [] = none
pop_max (group ∷ rest) = elim (pop_max rest) [
  | none ↦ some (group, [])
  | some (best, others) ↦
      if ltb (rank group) (rank best) then some (best, group ∷ others) else some (group, rest)
]

abbrev pub by_nonce : TxSelectorEntry → TxSelectorEntry → Bool
by_nonce a b = leb a.tx.nonce b.tx.nonce

-- The groups of the senders, in the order in which their transactions come.
unfoldable pub group_loop :
    List TxSelectorEntry
    → List (PublicKey × List TxSelectorEntry)
    → List (PublicKey × List TxSelectorEntry)
unfolding lookup insert
group_loop [] groups = groups
group_loop (entry ∷ rest) groups = elim (lookup groups entry.tx.source) [
  | some group ↦ group_loop rest (insert groups entry.tx.source (group ++ entry ∷ []))
  | none ↦ group_loop rest (insert groups entry.tx.source (entry ∷ []))
]

unfoldable pub new : List TxSelectorEntry → List (List TxSelectorEntry)
unfolding group_loop
new entries = map (λ g. sort_by by_nonce g.1) (group_loop entries [])

unfoldable pub push_group :
    List (List TxSelectorEntry) → List TxSelectorEntry → List (List TxSelectorEntry)
push_group queue group = group ∷ queue

-- The next transaction, and what is left in the queue.
unfoldable pub next :
    List (List TxSelectorEntry) → Option TxSelectorEntry × List (List TxSelectorEntry)
unfolding pop_max
next queue = elim (pop_max queue) [
  | none ↦ (none, queue)
  | some (group, others) ↦ elim group [
    | [] ↦ (none, others)
    | ◌∷◌ entry rest ↦ elim rest [
      | [] ↦ (some entry, others)
      | ◌∷◌ following more ↦ (some entry, (following ∷ more) ∷ others)
    ]
  ]
]

abbrev pub is_empty : List (List TxSelectorEntry) → Bool
is_empty [] = true
is_empty (group ∷ rest) = false

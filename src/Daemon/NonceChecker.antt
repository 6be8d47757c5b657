-- ===== src/Daemon/NonceChecker.antt =====
-- The nonces used while a chain of blocks is executed: xelis_daemon/src/core/nonce_checker.rs. The
-- storage's search for an account's nonce is a parameter.
pub mod Entry
pub mod Uses
use blockchain_xelis.Prelude.{
  ℕ, ◌+◌, ◌%◌, Bool, true, false, not, List, [], ◌∷◌, ◌++◌, Option, none, some, ◌==◌, ◌||◌,
  if◌then◌else◌, Result, ok, err, Eq, update, u64_mod,
}
use blockchain_xelis.Account.Nonce.{VersionedNonce}

pub record AccountEntry : Type 0 where
  pub initial_nonce : ℕ
  pub expected_nonce : ℕ
  -- The `IndexMap`, in the order of insertion: the nonce and the topoheight of the block that used it.
  pub used_nonces : List (ℕ × ℕ)

unfoldable pub new_entry : ℕ → AccountEntry
new_entry nonce = record { initial_nonce = nonce; expected_nonce = nonce; used_nonces = [] }

unfoldable pub contains_key : List (ℕ × ℕ) → ℕ → Bool
contains_key [] nonce = false
contains_key (used ∷ rest) nonce = if used.0 == nonce then true else contains_key rest nonce

unfoldable pub contains_nonce : AccountEntry → ℕ → Bool
unfolding contains_key
contains_nonce entry nonce = contains_key entry.used_nonces nonce

unfoldable pub insert_nonce_at_topoheight : AccountEntry → ℕ → ℕ → AccountEntry × Bool
unfolding contains_nonce
insert_nonce_at_topoheight entry nonce topoheight =
    if contains_nonce entry nonce || not (nonce == entry.expected_nonce) then (entry, false) else (
      record entry {
        expected_nonce = (nonce + 1) % u64_mod;
        used_nonces = entry.used_nonces ++ (nonce, topoheight) ∷ [];
      },
      true,
    )

unfoldable pub shift_remove : List (ℕ × ℕ) → ℕ → List (ℕ × ℕ)
shift_remove [] nonce = []
shift_remove (used ∷ rest) nonce =
    let kept = shift_remove rest nonce in if used.0 == nonce then rest else used ∷ kept

unfoldable pub last : List (ℕ × ℕ) → Option (ℕ × ℕ)
last [] = none
last (used ∷ []) = some used
last (used ∷ next ∷ rest) = last (next ∷ rest)

-- The nonce expected after the last one in use, or the initial one.
unfoldable pub expected_after : ℕ → Option (ℕ × ℕ) → ℕ
expected_after initial_nonce none = initial_nonce
expected_after initial_nonce (some previous) = (previous.0 + 1) % u64_mod

-- `undo_nonce` on the entry of the key.
unfoldable pub undo_entry : AccountEntry → ℕ → AccountEntry
unfolding shift_remove last expected_after
undo_entry entry nonce =
    let used = shift_remove entry.used_nonces nonce in
    record entry {
      expected_nonce = expected_after entry.initial_nonce (last used);
      used_nonces = used;
    }

pub data BlockchainError (K E : Type 0) : Type 0 where
  account_not_found : K → BlockchainError K E
  storage_error : E → BlockchainError K E

-- The cache of entries, by what it holds for each key.
pub record NonceChecker (K : Type 0) : Type 0 where
  pub cache : K → Option AccountEntry

module _ {K : Type 0} where
  unfoldable pub new : NonceChecker K
  new = record { cache = λ key. none }

  unfoldable pub get_new_nonce : {E : Type 0} → NonceChecker K → K → Result (BlockchainError K E) ℕ
  get_new_nonce checker key = elim (checker.cache key) [
    | some entry ↦ ok entry.expected_nonce
    | none ↦ err (account_not_found key)
  ]

module _ {K : Type 0} ⦃eq : Eq K⦄ where
  abbrev pub insert_entry : NonceChecker K → K → AccountEntry → NonceChecker K
  insert_entry checker key entry = record { cache = update checker.cache key (some entry) }

  unfoldable pub undo_nonce : NonceChecker K → K → ℕ → NonceChecker K
  unfolding undo_entry
  undo_nonce checker key nonce = elim (checker.cache key) [
    | some entry ↦ insert_entry checker key (undo_entry entry nonce)
    | none ↦ checker
  ]

  unfoldable pub use_nonce :
      {E : Type 0}
      (get_nonce_at_maximum_topoheight : K → ℕ → Result E (Option (ℕ × VersionedNonce)))
      → NonceChecker K
      → K
      → ℕ
      → ℕ
      → NonceChecker K × Result (BlockchainError K E) Bool
  unfolding insert_nonce_at_topoheight new_entry
  use_nonce get_nonce_at_maximum_topoheight checker key nonce topoheight =
      elim (checker.cache key) [
        | some entry ↦
            let inserted = insert_nonce_at_topoheight entry nonce topoheight in
            (insert_entry checker key inserted.0, ok inserted.1)
        | none ↦ elim (get_nonce_at_maximum_topoheight key topoheight) [
          | err e ↦ (checker, err (storage_error e))
          | ok none ↦ (checker, err (account_not_found key))
          | ok (some found) ↦
              let inserted =
                insert_nonce_at_topoheight (new_entry found.1.nonce) nonce topoheight in
              (insert_entry checker key inserted.0, ok inserted.1)
        ]
      ]

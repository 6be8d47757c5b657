-- ===== src/Examples/Nonces.antt =====
-- The nonce checker on an account whose stored nonce is 5.
use blockchain_xelis.Prelude.{
  ℕ, ◌≡◌, refl, Option, none, some, Result, ok, arith, inl, inr, true, false, [], ◌∷◌, nat_eq,
}
use blockchain_xelis.Account.Nonce.{VersionedNonce}
use blockchain_xelis.Daemon.NonceChecker.{
  NonceChecker, AccountEntry, use_nonce, get_new_nonce, new_entry, insert_nonce_at_topoheight,
  undo_nonce, contains_nonce, contains_key,
}
use blockchain_xelis.Daemon.NonceChecker.Entry.{IsConsistent}
use blockchain_xelis.Daemon.NonceChecker.Uses.{
  use_nonce_lem, use_nonce-IsValid, use_nonce-twice, undo_nonce-use_nonce, IsValid,
}

abbrev stored : ℕ → ℕ → Result ℕ (Option (ℕ × VersionedNonce))
stored key topoheight = ok (some (3, record { nonce = 5; previous_topoheight = none }))

abbrev start : NonceChecker ℕ
start = record { cache = λ key. none }

-- Two nonces used, 5 and 6.
abbrev entry : AccountEntry
entry = record { initial_nonce = 5; expected_nonce = 7; used_nonces = (5, 10) ∷ (6, 11) ∷ [] }

abbrev cached : NonceChecker ℕ
cached = record { cache = λ key. some entry }

abbrev unused : ℕ
unused = 6

entry-IsConsistent : IsConsistent entry
entry-IsConsistent = (refl, (refl, refl))

cached-IsValid : IsValid cached
cached-IsValid key found e = let same : found ≡ entry = cc in rw (same) entry-IsConsistent

use_nonce_lem_example :
    ((use_nonce stored start 1 5 10).1 ≡ ok true)
    × (get_new_nonce {E = ℕ} (use_nonce stored start 1 5 10).0 1 ≡ ok 6)
unfolding new_entry
use_nonce_lem_example =
    use_nonce_lem stored start 1 5 10 (new_entry 5)
      (inr (refl, ((3, record { nonce = 5; previous_topoheight = none }), refl, refl))) refl
      (omega arith)

use_nonce-twice_example : (use_nonce stored (use_nonce stored start 1 5 10).0 1 5 12).1 ≡ ok false
unfolding new_entry use_nonce insert_nonce_at_topoheight contains_nonce contains_key
use_nonce-twice_example =
    use_nonce-twice stored start 1 5 10 12 (new_entry 5)
      (inr (refl, ((3, record { nonce = 5; previous_topoheight = none }), refl, refl))) refl
      (omega arith) refl

use_nonce-IsValid_example : IsValid (use_nonce stored cached 1 6 12).0
use_nonce-IsValid_example =
    use_nonce-IsValid stored cached 1 6 12 entry (inl refl) cached-IsValid entry-IsConsistent
      (omega arith)

undo_nonce-use_nonce_example :
    (undo_nonce (use_nonce stored cached 1 7 12).0 1 7).cache 2 ≡ some entry
undo_nonce-use_nonce_example =
    undo_nonce-use_nonce stored cached 1 2 12 entry refl entry-IsConsistent (omega arith)

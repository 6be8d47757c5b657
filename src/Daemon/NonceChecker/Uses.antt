-- ===== src/Daemon/NonceChecker/Uses.antt =====
-- The uses of nonces over all accounts (xelis_daemon/src/core/nonce_checker.rs).
use blockchain_xelis.Prelude.{
  ℕ, ◌+◌, ◌<◌, ◌≡◌, ◌≢◌, refl, sym, ◌∙◌, ap, ◌==◌, if◌then◌else◌, true, false, Option, none, some,
  arith, u64_mod, Result, ok, Eq, beq_refl, beq_ne, Bool-cases, ◌⊎◌, inl, inr,
}
use blockchain_xelis.Account.Nonce.{VersionedNonce}
use blockchain_xelis.Daemon.NonceChecker.{
  NonceChecker, AccountEntry, new_entry, insert_nonce_at_topoheight, use_nonce, undo_nonce,
  insert_entry, get_new_nonce,
}
use blockchain_xelis.Daemon.NonceChecker.Entry.{
  IsConsistent, insert_nonce_at_topoheight_lem, undo_entry-insert,
}

module _ {K : Type 0} ⦃eq : Eq K⦄ where
  -- Every entry is consistent.
  abbrev pub IsValid : NonceChecker K → Type 0
  IsValid checker =
      (key : K) (entry : AccountEntry) → checker.cache key ≡ some entry → IsConsistent entry

  -- No entry has come to the largest nonces.
  abbrev pub HasRoom : NonceChecker K → Type 0
  HasRoom checker =
      (key : K) (entry : AccountEntry)
      → checker.cache key ≡ some entry
      → entry.expected_nonce + 1 < u64_mod

  cache-insert_self :
      (checker : NonceChecker K) (key : K) (entry : AccountEntry)
      → (insert_entry checker key entry).cache key ≡ some entry
  cache-insert_self checker key entry = rw (beq_refl key) refl

  cache-insert_other :
      (checker : NonceChecker K) (key other : K) (entry : AccountEntry)
      → other ≢ key
      → (insert_entry checker key entry).cache other ≡ checker.cache other
  cache-insert_other checker key other entry h = rw (beq_ne other key h) refl

  insert_entry-IsValid :
      (checker : NonceChecker K) (key : K) (entry : AccountEntry)
      → IsValid checker
      → IsConsistent entry
      → IsValid (insert_entry checker key entry)
  insert_entry-IsValid checker key entry valid consistent other found e =
      elim (Bool-cases (eq.beq other key)) [
        | inl same ↦ let here : found ≡ entry = ground (arith, e, same) in rw (here) consistent
        | inr different ↦
            let before : checker.cache other ≡ some found = ground (arith, e, different) in
            valid other found before
      ]

module _ {K E : Type 0} ⦃eq : Eq K⦄
    (get_nonce : K → ℕ → Result E (Option (ℕ × VersionedNonce))) where
  -- The entry that a use at this key works on: the cached one, or a new one from the stored nonce.
  abbrev pub IsEntryOf : NonceChecker K → K → ℕ → AccountEntry → Type 0
  IsEntryOf checker key topoheight entry =
      (checker.cache key ≡ some entry)
      ⊎ ((checker.cache key ≡ none)
          × ((found : ℕ × VersionedNonce) × (get_nonce key topoheight ≡ ok (some found))
              × (entry ≡ new_entry found.1.nonce)))

  use_nonce-entry :
      (checker : NonceChecker K) (key : K) (nonce topoheight : ℕ) (entry : AccountEntry)
      → IsEntryOf checker key topoheight entry
      → use_nonce get_nonce checker key nonce topoheight ≡ (
        insert_entry checker key (insert_nonce_at_topoheight entry nonce topoheight).0,
        ok (insert_nonce_at_topoheight entry nonce topoheight).1,
      )
  unfolding use_nonce
  use_nonce-entry checker key nonce topoheight entry (inl cached) = rw (use_nonce, cached) refl
  use_nonce-entry checker key nonce topoheight entry (inr (absent, (found, stored, e))) =
      rw (use_nonce, absent, stored, e) refl

  -- A use of a nonce, the entry it works on being consistent and short of the largest nonces: it is
  -- accepted exactly if the nonce is the one expected, and the next nonce of the account is then one more,
  -- or as before when it is refused.
  pub use_nonce_lem :
      (checker : NonceChecker K) (key : K) (nonce topoheight : ℕ) (entry : AccountEntry)
      → IsEntryOf checker key topoheight entry
      → IsConsistent entry
      → entry.expected_nonce + 1 < u64_mod
      → ((use_nonce get_nonce checker key nonce topoheight).1 ≡ ok (nonce == entry.expected_nonce))
        × (get_new_nonce {E = E} (use_nonce get_nonce checker key nonce topoheight).0 key
            ≡ ok (if nonce == entry.expected_nonce then nonce + 1 else entry.expected_nonce))
  unfolding get_new_nonce
  use_nonce_lem checker key nonce topoheight entry of consistent room =
      let facts = insert_nonce_at_topoheight_lem entry nonce topoheight consistent room in
      let inserted = insert_nonce_at_topoheight entry nonce topoheight in
      let accepted : inserted.1 ≡ (nonce == entry.expected_nonce) = ground (arith, facts.0) in
      rw
        (
          use_nonce-entry checker key nonce topoheight entry of,
          accepted,
          get_new_nonce,
          beq_refl key,
        )
        (refl, ap (λ (n : ℕ). ok n) facts.2)

  -- A use, accepted or not, keeps the entries consistent, if they were and the entry it works on is consistent and
  -- short of the largest nonces.
  pub use_nonce-IsValid :
      (checker : NonceChecker K) (key : K) (nonce topoheight : ℕ) (entry : AccountEntry)
      → IsEntryOf checker key topoheight entry
      → IsValid checker
      → IsConsistent entry
      → entry.expected_nonce + 1 < u64_mod
      → IsValid (use_nonce get_nonce checker key nonce topoheight).0
  use_nonce-IsValid checker key nonce topoheight entry of valid consistent room =
      let facts = insert_nonce_at_topoheight_lem entry nonce topoheight consistent room in
      rw (use_nonce-entry checker key nonce topoheight entry of)
        (insert_entry-IsValid checker key _ valid facts.1)

  -- A nonce that was accepted for an account, on a consistent entry short of the largest nonces, is refused the
  -- next time it is used, at any topoheight.
  pub use_nonce-twice :
      (checker : NonceChecker K) (key : K) (nonce first second : ℕ) (entry : AccountEntry)
      → IsEntryOf checker key first entry
      → IsConsistent entry
      → entry.expected_nonce + 2 < u64_mod
      → (use_nonce get_nonce checker key nonce first).1 ≡ ok true
      → (use_nonce get_nonce (use_nonce get_nonce checker key nonce first).0 key nonce second).1
        ≡ ok false
  use_nonce-twice checker key nonce first second entry of consistent room accepted =
      let outcome = use_nonce_lem checker key nonce first entry of consistent (omega arith) in
      let facts = insert_nonce_at_topoheight_lem entry nonce first consistent (omega arith) in
      let same : nonce == entry.expected_nonce ≡ true = ground (arith, sym outcome.0 ∙ accepted) in
      let after = (insert_nonce_at_topoheight entry nonce first).0 in
      let expected : after.expected_nonce ≡ nonce + 1 = ground (arith, facts.2, same) in
      let checker' = (use_nonce get_nonce checker key nonce first).0 in
      let cached : checker'.cache key ≡ some after =
        rw (use_nonce-entry checker key nonce first entry of)
          (cache-insert_self checker key after) in
      let e : nonce ≡ entry.expected_nonce = ground (arith, same) in
      let again =
        use_nonce_lem checker' key nonce second after (inl cached) facts.1 (omega arith) in
      let different : nonce == after.expected_nonce ≡ false = ground (arith, expected) in
      again.0 ∙ ap ok different

  -- Undoing an accepted use of a cached account, on a consistent entry short of the largest nonces, restores what is cached for every account.
  pub undo_nonce-use_nonce :
      (checker : NonceChecker K) (key other : K) (topoheight : ℕ) (entry : AccountEntry)
      → checker.cache key ≡ some entry
      → IsConsistent entry
      → entry.expected_nonce + 1 < u64_mod
      → (undo_nonce
            (use_nonce get_nonce checker key entry.expected_nonce topoheight).0
            key
            entry.expected_nonce).cache
          other
        ≡ checker.cache other
  unfolding undo_nonce
  undo_nonce-use_nonce checker key other topoheight entry cached consistent room =
      let used = insert_nonce_at_topoheight entry entry.expected_nonce topoheight in
      let restored = undo_entry-insert entry topoheight consistent room in
      elim (Bool-cases (eq.beq other key)) [
        | inl same ↦
            rw
              (
                use_nonce-entry checker key entry.expected_nonce topoheight entry (inl cached),
                undo_nonce,
                beq_refl key,
                restored,
                same,
                (eq.beq_iff other key).0 same,
                cached,
              )
              refl
        | inr different ↦
            rw
              (
                use_nonce-entry checker key entry.expected_nonce topoheight entry (inl cached),
                undo_nonce,
                beq_refl key,
                different,
              )
              (rw
                (
                  use_nonce-entry checker key entry.expected_nonce topoheight entry (inl cached),
                  different,
                )
                refl)
      ]

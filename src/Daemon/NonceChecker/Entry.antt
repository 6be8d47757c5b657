-- ===== src/Daemon/NonceChecker/Entry.antt =====
-- The entry of one account (xelis_daemon/src/core/nonce_checker.rs).
use blockchain_xelis.Prelude.{
  ℕ, ◌+◌, ◌%◌, ◌<◌, ◌≤◌, ◌≡◌, ◌≢◌, ◌↔◌, refl, sym, ap, true, false, List, [], ◌∷◌, ◌++◌, none, some,
  ◌==◌, if◌then◌else◌, arith, u64_mod, ℕ_discrete, inl, inr, Option-cases,
}
use blockchain_xelis.Daemon.NonceChecker.{
  AccountEntry, contains_key, contains_nonce, insert_nonce_at_topoheight, expected_after,
  shift_remove, last, undo_entry,
}

-- The nonces of a list run from one number up to another, without gaps.
abbrev pub IsRun : ℕ → List (ℕ × ℕ) → ℕ → Type 0
IsRun from [] to = from ≡ to
IsRun from (used ∷ rest) to = (used.0 ≡ from) × IsRun (from + 1) rest to

-- The used nonces run from the first one expected to the one before the next.
abbrev pub IsConsistent : AccountEntry → Type 0
IsConsistent entry = IsRun entry.initial_nonce entry.used_nonces entry.expected_nonce

run_le : (from : ℕ) (l : List (ℕ × ℕ)) (to : ℕ) → IsRun from l to → from ≤ to
run_le from [] to h = omega arith
run_le from (used ∷ rest) to h = omega (arith, run_le (from + 1) rest to h.1)

-- A run holds the numbers of its range and no other.
contains_key_iff :
    (from : ℕ) (l : List (ℕ × ℕ)) (to nonce : ℕ)
    → IsRun from l to
    → (contains_key l nonce ≡ true) ↔ ((from ≤ nonce) × (nonce < to))
unfolding contains_key
contains_key_iff from [] to nonce h = ground arith
contains_key_iff from (used ∷ rest) to nonce h =
    ground (arith, contains_key_iff (from + 1) rest to nonce h.1, run_le (from + 1) rest to h.1)

IsRun-append :
    (from : ℕ) (l : List (ℕ × ℕ)) (to topoheight : ℕ)
    → IsRun from l to
    → IsRun from (l ++ (to, topoheight) ∷ []) (to + 1)
IsRun-append from [] to topoheight h = (sym h, ap (λ (n : ℕ). n + 1) h)
IsRun-append from (used ∷ rest) to topoheight h =
    (h.0, IsRun-append (from + 1) rest to topoheight h.1)

pub insert-expected :
    (entry : AccountEntry) (topoheight : ℕ)
    → IsConsistent entry
    → entry.expected_nonce + 1 < u64_mod
    → insert_nonce_at_topoheight entry entry.expected_nonce topoheight ≡ (
      record entry {
        expected_nonce = entry.expected_nonce + 1;
        used_nonces = entry.used_nonces ++ (entry.expected_nonce, topoheight) ∷ [];
      },
      true,
    )
unfolding insert_nonce_at_topoheight contains_nonce
insert-expected entry topoheight h small =
    let next = entry.expected_nonce in
    let fresh : contains_key entry.used_nonces next ≡ false =
      ground (arith, contains_key_iff entry.initial_nonce entry.used_nonces next next h) in
    let same : (next == next) ≡ true = ground arith in
    let wrap : (next + 1) % u64_mod ≡ next + 1 = omega arith in rw (fresh, same, wrap) refl

pub insert-refused :
    (entry : AccountEntry) (nonce topoheight : ℕ)
    → nonce ≢ entry.expected_nonce
    → insert_nonce_at_topoheight entry nonce topoheight ≡ (entry, false)
unfolding insert_nonce_at_topoheight
insert-refused entry nonce topoheight h = ground arith

-- Of a consistent entry whose next nonce is no largest `u64`, exactly the expected nonce is accepted; the
-- entry it leaves, accepted or not, is consistent, and expects one more in the first case.
pub insert_nonce_at_topoheight_lem :
    (entry : AccountEntry) (nonce topoheight : ℕ)
    → IsConsistent entry
    → entry.expected_nonce + 1 < u64_mod
    → (((insert_nonce_at_topoheight entry nonce topoheight).1 ≡ true)
        ↔ (nonce ≡ entry.expected_nonce))
      × IsConsistent (insert_nonce_at_topoheight entry nonce topoheight).0
      × ((insert_nonce_at_topoheight entry nonce topoheight).0.expected_nonce
          ≡ (if nonce == entry.expected_nonce then nonce + 1 else entry.expected_nonce))
insert_nonce_at_topoheight_lem entry nonce topoheight h small =
    elim (ℕ_discrete nonce entry.expected_nonce) [
      | yes same ↦
          let accepted = insert-expected entry topoheight h small in
          let run =
            IsRun-append entry.initial_nonce entry.used_nonces entry.expected_nonce topoheight h in
          rw (same, accepted) (((λ p. refl), (λ p. refl)), run, ground arith)
      | no other ↦
          rw (insert-refused entry nonce topoheight other)
            ((ground arith, (λ p. absurd (other p))), h, ground arith)
    ]

shift_remove-append :
    (from : ℕ) (l : List (ℕ × ℕ)) (to topoheight : ℕ)
    → IsRun from l to
    → shift_remove (l ++ (to, topoheight) ∷ []) to ≡ l
unfolding shift_remove
shift_remove-append from [] to topoheight h = ground arith
shift_remove-append from (used ∷ rest) to topoheight h =
    let ih = shift_remove-append (from + 1) rest to topoheight h.1 in
    ground (arith, run_le (from + 1) rest to h.1)

shift_remove-absent :
    (l : List (ℕ × ℕ)) (nonce : ℕ) → contains_key l nonce ≡ false → shift_remove l nonce ≡ l
unfolding shift_remove contains_key
shift_remove-absent [] nonce h = refl
shift_remove-absent (used ∷ rest) nonce h = let ih = shift_remove-absent rest nonce in ground arith

last-cons : (used : ℕ × ℕ) (rest : List (ℕ × ℕ)) → last (used ∷ rest) ≢ none
unfolding last
last-cons used [] e = ground arith
last-cons used (next ∷ rest) e = last-cons next rest e

-- The nonce after a run is the one after its last element, or the first if there is none.
last-run :
    (from : ℕ) (l : List (ℕ × ℕ)) (to : ℕ)
    → IsRun from l to
    → (last l ≡ none → from ≡ to) × ((p : ℕ × ℕ) → last l ≡ some p → p.0 + 1 ≡ to)
unfolding last
last-run from [] to h = ((λ z. h), (λ p e. ground arith))
last-run from (used ∷ []) to h = (ground arith, (λ p e. ground arith))
last-run from (used ∷ next ∷ rest) to h =
    let ih = last-run (from + 1) (next ∷ rest) to h.1 in
    ((λ e. absurd (last-cons next rest e)), ih.1)

expected_after-run :
    (from : ℕ) (used : List (ℕ × ℕ)) (to : ℕ)
    → IsRun from used to
    → to < u64_mod
    → expected_after from (last used) ≡ to
unfolding expected_after
expected_after-run from used to h small =
    let facts = last-run from used to h in
    elim (Option-cases (last used)) [
      | inl empty ↦ rw (empty) (facts.0 empty)
      | inr found ↦ rw (found.1) (omega (arith, facts.1 found.0 found.1))
    ]

-- What `undo_nonce` leaves once the nonce is off the list.
undo_entry-run :
    (entry : AccountEntry) (used : List (ℕ × ℕ)) (to nonce : ℕ)
    → IsRun entry.initial_nonce used to
    → to < u64_mod
    → shift_remove entry.used_nonces nonce ≡ used
    → undo_entry entry nonce ≡ record entry { expected_nonce = to; used_nonces = used }
unfolding undo_entry
undo_entry-run entry used to nonce h small removed =
    rw (undo_entry, removed, expected_after-run entry.initial_nonce used to h small) refl

-- Undoing the nonce that was just accepted, of a consistent entry short of the largest nonces, restores the entry.
pub undo_entry-insert :
    (entry : AccountEntry) (topoheight : ℕ)
    → IsConsistent entry
    → entry.expected_nonce + 1 < u64_mod
    → undo_entry
        (insert_nonce_at_topoheight entry entry.expected_nonce topoheight).0
        entry.expected_nonce
      ≡ entry
undo_entry-insert entry topoheight h small = rw (insert-expected entry topoheight h small) (
    undo_entry-run _ entry.used_nonces entry.expected_nonce _ h (omega arith)
      (shift_remove-append entry.initial_nonce entry.used_nonces entry.expected_nonce topoheight h))

-- Undoing a nonce that a consistent entry has not used, and whose expected nonce is a `u64`, changes nothing.
undo_entry-unused :
    (entry : AccountEntry) (nonce : ℕ)
    → IsConsistent entry
    → entry.expected_nonce < u64_mod
    → contains_nonce entry nonce ≡ false
    → undo_entry entry nonce ≡ entry
unfolding contains_nonce
undo_entry-unused entry nonce h small absent =
    undo_entry-run entry entry.used_nonces entry.expected_nonce nonce h small
      (shift_remove-absent entry.used_nonces nonce absent)

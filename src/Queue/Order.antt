-- ===== src/Queue/Order.antt =====
-- The map and the order of a queue (xelis_common/src/queue.rs) and when they agree.
use blockchain_xelis.Prelude.{
  ◌≡◌, inl, inr, refl, ap, Bool, true, false, List, [], ◌∷◌, ◌++◌, none, some, Eq, beq_refl, update,
  if◌then◌else◌, Bool-cases, Option-cases, arith,
}
use blockchain_xelis.Queue.{
  Queue, push, push_internal, pop, remove, remove_order_internal, contains_key,
}

module _ {K : Type 0} ⦃eq : Eq K⦄ where
  -- How often a key stands in the order, as a test of its first place and of the rest.
  unfoldable pub is_in : List K → K → Bool
  is_in [] key = false
  is_in (first ∷ rest) key = let later = is_in rest key in if eq.beq first key then true else later

  abbrev pub IsDistinct : List K → Type 0
  IsDistinct [] = Unit
  IsDistinct (key ∷ rest) = (is_in rest key ≡ false) × IsDistinct rest

  beq_sym : (a b : K) → eq.beq a b ≡ eq.beq b a
  beq_sym a b = ground (arith, eq.beq_iff a b, eq.beq_iff b a)

  is_in-append :
      (l : List K) (key other : K)
      → is_in (l ++ key ∷ []) other ≡ (if is_in l other then true else eq.beq key other)
  unfolding is_in
  is_in-append [] key other = ground arith
  is_in-append (first ∷ rest) key other = ground (arith, is_in-append rest key other)

  IsDistinct-append :
      (l : List K) (key : K) → IsDistinct l → is_in l key ≡ false → IsDistinct (l ++ key ∷ [])
  unfolding is_in
  IsDistinct-append [] key distinct absent = (refl, tt)
  IsDistinct-append (first ∷ rest) key distinct absent = (
    ground (arith, is_in-append rest key first, beq_sym first key, absent, distinct.0),
    IsDistinct-append rest key distinct.1 (ground (arith, absent)),
  )

  -- Removing a key of the order takes that key and no other.
  remove_order_internal_lem :
      (l : List K) (key : K)
      → is_in l key ≡ true
      → IsDistinct l
      → ((remove_order_internal l key).1 ≡ some key)
        × ((other : K)
            → is_in (remove_order_internal l key).0 other
              ≡ (if eq.beq other key then false else is_in l other))
        × IsDistinct (remove_order_internal l key).0
  unfolding is_in remove_order_internal
  remove_order_internal_lem [] key present distinct = ground arith
  remove_order_internal_lem (first ∷ rest) key present distinct =
      elim (Bool-cases (eq.beq first key)) [
        | inl same ↦
            let e : first ≡ key = (eq.beq_iff first key).0 same in
            rw (same) (
              ap some e,
              (λ other.
                  ground (arith, eq.beq_iff other key, eq.beq_iff first other, distinct.0, e)),
              distinct.1,
            )
        | inr different ↦
            let ih =
              remove_order_internal_lem rest key (ground (arith, present, different)) distinct.1 in
            rw (different) (
              ih.0,
              (λ other. ground (
                arith,
                ih.1 other,
                eq.beq_iff other key,
                eq.beq_iff first other,
                different,
                eq.beq_iff first key,
              )),
              (ground (arith, ih.1 first, distinct.0), ih.2),
            )
      ]

module _ {K V : Type 0} ⦃eq : Eq K⦄ where
  abbrev pub IsValid : Queue K V → Type 0
  IsValid queue =
      IsDistinct queue.order × ((key : K) → contains_key (queue.keys key) ≡ is_in queue.order key)

  -- Pushing a key that a well-formed queue has changes nothing and returns false. Pushing any other key returns
  -- true, puts the key at the back of the order and stores its value; the other keys keep their values. The queue
  -- stays well formed.
  pub push-IsValid :
      (queue : Queue K V) (key : K) (value : V)
      → IsValid queue
      → (is_in queue.order key ≡ true → push queue key value ≡ (queue, false))
        × (is_in queue.order key ≡ false
            → ((push queue key value).1 ≡ true)
              × ((push queue key value).0.order ≡ queue.order ++ key ∷ [])
              × ((other : K)
                  → (push queue key value).0.keys other
                    ≡ (if eq.beq other key then some value else queue.keys other)))
        × IsValid (push queue key value).0
  unfolding push push_internal contains_key
  push-IsValid queue key value valid = elim (Bool-cases (is_in queue.order key)) [
    | inl present ↦
        let had : contains_key (queue.keys key) ≡ true = ground (arith, valid.1 key, present) in
        (
          (λ e. rw (push, had) refl),
          (λ e. absurd (ground (arith, present, e))),
          rw (push, had) valid,
        )
    | inr absent ↦
        let had : contains_key (queue.keys key) ≡ false = ground (arith, valid.1 key, absent) in
        (
          (λ e. absurd (ground (arith, absent, e))),
          (λ e. rw (push, had) (refl, refl, (λ other. refl))),
          rw (push, had)
              (
                IsDistinct-append queue.order key valid.0 absent,
                (λ other.
                    ground (
                      arith,
                      valid.1 other,
                      is_in-append queue.order key other,
                      beq_sym key other,
                    )),
              ),
        )
  ]

  -- `pop` of a well-formed queue that is not empty returns its first key with the value it has, and keeps
  -- the queue well formed.
  pub pop-IsValid :
      (queue : Queue K V) (key : K) (rest : List K)
      → IsValid queue
      → queue.order ≡ key ∷ rest
      → (value : V) × (queue.keys key ≡ some value)
        × (pop queue
            ≡ (record { keys = update queue.keys key none; order = rest }, some (key, value)))
        × IsValid (pop queue).0
  unfolding pop contains_key is_in
  pop-IsValid queue key rest valid front =
      let present : is_in queue.order key ≡ true = rw (front, beq_refl key) refl in
      let distinct : IsDistinct (key ∷ rest) = rw front at valid.0 in
      elim (Option-cases (queue.keys key)) [
        | inl missing ↦ absurd (ground (arith, valid.1 key, present, missing))
        | inr (value, found) ↦ (
          value,
          found,
          rw (pop, front, found) refl,
          rw (pop, front, found)
              (
                distinct.1,
                (λ other. ground (
                  arith,
                  (rw front at valid.1 other),
                  eq.beq_iff other key,
                  eq.beq_iff key other,
                  distinct.0,
                )),
              ),
        )
      ]

  -- `remove` of a well-formed queue returns the key's value; the key, and no other, leaves both the map
  -- and the order, and the queue stays well formed.
  pub remove-IsValid :
      (queue : Queue K V) (key : K)
      → IsValid queue
      → ((remove queue key).1 ≡ queue.keys key)
        × ((other : K)
            → (remove queue key).0.keys other
              ≡ (if eq.beq other key then none else queue.keys other))
        × IsValid (remove queue key).0
  unfolding remove contains_key
  remove-IsValid queue key valid = elim (Option-cases (queue.keys key)) [
    | inl missing ↦
        rw (remove, missing) (refl, (λ other. ground (arith, eq.beq_iff other key, missing)), valid)
    | inr (value, found) ↦
        let present : is_in queue.order key ≡ true = ground (arith, valid.1 key, found) in
        let removed = remove_order_internal_lem queue.order key present valid.0 in
        rw (remove, found, removed.0)
          (
            refl,
            (λ other. refl),
            (removed.2, (λ other. ground (arith, valid.1 other, removed.1 other))),
          )
  ]

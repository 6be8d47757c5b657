-- ===== src/Examples/Queues.antt =====
-- A queue of two keys.
use blockchain_xelis.Prelude.{
  ℕ, ◌≡◌, refl, Option, none, some, [], ◌∷◌, nat_eq, arith, update, if◌then◌else◌, nat_beq, true,
  false,
}
use blockchain_xelis.Queue.{Queue, push, pop, remove, contains_key}
use blockchain_xelis.Queue.Order.{IsValid, is_in, push-IsValid, pop-IsValid, remove-IsValid}

abbrev keys : ℕ → Option ℕ
keys key = if nat_beq key 3 then some 30 else (if nat_beq key 4 then some 40 else none)

abbrev two : Queue ℕ ℕ
two = record { keys = keys; order = 3 ∷ 4 ∷ [] }

two-IsValid : IsValid two
unfolding is_in contains_key
two-IsValid = ((refl, (refl, tt)), (λ key. ground arith))

push-IsValid_example :
    (is_in {K = ℕ} (3 ∷ 4 ∷ []) 5 ≡ true → push two 5 50 ≡ (two, false))
    × (is_in {K = ℕ} (3 ∷ 4 ∷ []) 5 ≡ false
        → ((push two 5 50).1 ≡ true)
          × ((push two 5 50).0.order ≡ 3 ∷ 4 ∷ 5 ∷ [])
          × ((other : ℕ)
              → (push two 5 50).0.keys other ≡ (if nat_beq other 5 then some 50 else keys other)))
    × IsValid (push two 5 50).0
push-IsValid_example = push-IsValid two 5 50 two-IsValid

pop-IsValid_example :
    (value : ℕ) × (keys 3 ≡ some value)
    × (pop two ≡ (record { keys = update keys 3 none; order = 4 ∷ [] }, some (3, value)))
    × IsValid (pop two).0
pop-IsValid_example = pop-IsValid two 3 (4 ∷ []) two-IsValid refl

remove-IsValid_example :
    ((remove two 4).1 ≡ some 40)
    × ((other : ℕ) → (remove two 4).0.keys other ≡ (if nat_beq other 4 then none else keys other))
    × IsValid (remove two 4).0
remove-IsValid_example = remove-IsValid two 4 two-IsValid

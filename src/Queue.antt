-- ===== src/Queue.antt =====
-- The queue with lookup by key: xelis_common/src/queue.rs. A key is shared by the map and the order; the
-- share is not modelled, since the last owner is always the one that is taken.
pub mod Order
use blockchain_xelis.Prelude.{
  ℕ, Bool, true, false, List, [], ◌∷◌, ◌++◌, Option, none, some, if◌then◌else◌, Eq, update,
  get_elem?, length,
}

pub record Queue (K V : Type 0) : Type 0 where
  pub keys : K → Option V
  pub order : List K

module _ {V : Type 0} where
  unfoldable pub contains_key : Option V → Bool
  contains_key none = false
  contains_key (some value) = true

module _ {K V : Type 0} where
  unfoldable pub new : Queue K V
  new = record { keys = λ key. none; order = [] }

  unfoldable pub has : Queue K V → K → Bool
  unfolding contains_key
  has queue key = contains_key (queue.keys key)

  unfoldable pub get : Queue K V → K → Option V
  get queue key = queue.keys key

  unfoldable pub get_index : Queue K V → ℕ → Option K
  get_index queue index = get_elem? queue.order index

  unfoldable pub peek : Queue K V → Option V
  peek queue = elim queue.order [ [] ↦ none | ◌∷◌ key rest ↦ queue.keys key ]

  unfoldable pub peek_key : Queue K V → Option K
  peek_key queue = elim queue.order [ [] ↦ none | ◌∷◌ key rest ↦ some key ]

  unfoldable pub len : Queue K V → ℕ
  len queue = length queue.order

  unfoldable pub is_empty : Queue K V → Bool
  is_empty queue = elim queue.order [ [] ↦ true | ◌∷◌ key rest ↦ false ]

  unfoldable pub clear : Queue K V → Queue K V
  clear queue = record { keys = λ key. none; order = [] }

module _ {K V : Type 0} ⦃eq : Eq K⦄ where
  unfoldable pub push_internal : Queue K V → K → V → Queue K V
  push_internal queue key value = record {
    keys = update queue.keys key (some value);
    order = queue.order ++ key ∷ [];
  }

  unfoldable pub push : Queue K V → K → V → Queue K V × Bool
  unfolding push_internal contains_key
  push queue key value =
      if contains_key (queue.keys key)
      then (queue, false)
      else (push_internal queue key value, true)

  -- The front leaves the order even where the map has no value for it.
  unfoldable pub pop : Queue K V → Queue K V × Option (K × V)
  pop queue = elim queue.order [
    | [] ↦ (queue, none)
    | ◌∷◌ key rest ↦ elim (queue.keys key) [
      | none ↦ (record { keys = queue.keys; order = rest }, none)
      | some value ↦ (record { keys = update queue.keys key none; order = rest }, some (key, value))
    ]
  ]

module _ {K : Type 0} ⦃eq : Eq K⦄ where
  -- `position` and `remove` of the order: the first equal key leaves, and is returned.
  unfoldable pub remove_order_internal : List K → K → List K × Option K
  remove_order_internal [] key = ([], none)
  remove_order_internal (first ∷ rest) key =
      let removed = remove_order_internal rest key in
      if eq.beq first key then (rest, some first) else (first ∷ removed.0, removed.1)

module _ {K V : Type 0} ⦃eq : Eq K⦄ where
  unfoldable pub remove_entry : Queue K V → K → Queue K V × Option (K × V)
  unfolding remove_order_internal
  remove_entry queue key = elim (queue.keys key) [
    | none ↦ (queue, none)
    | some value ↦
        let removed = remove_order_internal queue.order key in
        let rest : Queue K V = record { keys = update queue.keys key none; order = removed.0 } in
        elim removed.1 [ none ↦ (rest, none) | some found ↦ (rest, some (found, value)) ]
  ]

  unfoldable pub remove : Queue K V → K → Queue K V × Option V
  unfolding remove_order_internal
  remove queue key = elim (queue.keys key) [
    | none ↦ (queue, none)
    | some value ↦
        let removed = remove_order_internal queue.order key in
        let rest : Queue K V = record { keys = update queue.keys key none; order = removed.0 } in
        elim removed.1 [ none ↦ (rest, none) | some found ↦ (rest, some value) ]
  ]

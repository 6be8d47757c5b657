-- ===== src/Account/Versioned/Record.antt =====
-- xelis_common/src/versioned_type.rs: a value with the topoheight of its previous version, and what
-- a node is told about a versioned value.
use blockchain_xelis.Prelude.{
  ℕ, ◌+◌, ◌≡◌, refl, Option, List, ◌++◌, All-append, length-append, arith, if◌then◌else◌, ◌==◌,
}
use mathlib.Core.List.{append-nil}
use blockchain_xelis.Serializer.Reader.{Read, ◌>>=◌, pure, throw, read_u8, invalid_value}
use blockchain_xelis.Serializer.Reader.Triples.{
  Reads, Reads-eq, Reads-pure, Reads-bind, Reads-u8, Yields-pure, Yields-bind, Yields-if,
  Yields-throw, Yields-u8, IsByte,
}
use blockchain_xelis.Serializer.Trait.{Serializer, IsLawful, IsStrict}
use blockchain_xelis.Serializer.Numbers.{write_u8}
use blockchain_xelis.Account.Nonce.{previous, IsPrevious, previous-IsLawful, previous-IsStrict}

pub data State {ℓ} (T : Type ℓ) : Type ℓ where
  clean absent deleted : State T
  present : T → State T

pub record Versioned {ℓ} (T : Type ℓ) : Type ℓ where
  pub previous_topoheight : Option ℕ
  pub value : T

module _ {ℓ} {T : Type ℓ} (t : Serializer T) where
  unfoldable pub write_state : State T → List ℕ
  write_state clean = write_u8 0
  write_state (present value) = write_u8 1 ++ t.write value
  write_state absent = write_u8 2
  write_state deleted = write_u8 3

  unfoldable pub read_state_tagged : ℕ → Read (State T)
  read_state_tagged tag =
      if tag == 0
      then pure clean
      else if tag == 1
      then (do value ← t.read; pure (present value))
      else if tag == 2
      then pure absent
      else if tag == 3
      then pure deleted
      else throw invalid_value

  unfoldable pub read_state : Read (State T)
  read_state = do tag ← read_u8; read_state_tagged tag

  unfoldable pub size_state : State T → ℕ
  size_state (present value) = 1 + t.size value
  size_state _ = 1

  abbrev pub state : Serializer (State T)
  state = record { write = write_state; read = read_state; size = size_state }

  abbrev pub OnPresent {κ} : (T → Type κ) → State T → Type κ
  OnPresent P (present value) = P value
  OnPresent P _ = Unit

  unfoldable pub write_versioned : Versioned T → List ℕ
  write_versioned v = previous.write v.previous_topoheight ++ t.write v.value

  unfoldable pub read_versioned : Read (Versioned T)
  read_versioned = do
    previous_topoheight ← previous.read
    value ← t.read
    pure (record { previous_topoheight = previous_topoheight; value = value })

  unfoldable pub size_versioned : Versioned T → ℕ
  size_versioned v = previous.size v.previous_topoheight + t.size v.value

  abbrev pub versioned : Serializer (Versioned T)
  versioned = record { write = write_versioned; read = read_versioned; size = size_versioned }

-- The values of a versioned type.
abbrev pub IsVersion {ℓ κ} : {T : Type ℓ} → (T → Type κ) → Versioned T → Type κ
IsVersion Valid v = IsPrevious v.previous_topoheight × Valid v.value

module _ {ℓ κ} {T : Type ℓ} {t : Serializer T} {Valid : T → Type κ} where
  Reads-state :
      IsLawful t Valid
      → (s : State T) → OnPresent t Valid s
      → Reads (read_state t) (write_state t s) s
  unfolding read_state write_state
  Reads-state l clean v =
      Reads-bind (read_state_tagged t) (Reads-u8 0) (unfold read_state_tagged in Reads-pure clean)
  Reads-state l (present value) v = Reads-bind (read_state_tagged t) (Reads-u8 1) (
      unfold read_state_tagged in
      Reads-eq (Reads-bind _ (l.reads value v) (Reads-pure (present value))) (append-nil _))
  Reads-state l absent v =
      Reads-bind (read_state_tagged t) (Reads-u8 2) (unfold read_state_tagged in Reads-pure absent)
  Reads-state l deleted v =
      Reads-bind (read_state_tagged t) (Reads-u8 3) (unfold read_state_tagged in Reads-pure deleted)

  -- `State<T>` is read back from what was written, and its size is right.
  pub state-IsLawful : IsLawful t Valid → IsLawful (state t) (OnPresent t Valid)
  unfolding write_state size_state
  state-IsLawful l = record {
    reads = Reads-state l;
    sizes = elim [
      | clean ↦ λ _. refl
      | absent ↦ λ _. refl
      | deleted ↦ λ _. refl
      | present value ↦ λ v. omega (arith, l.sizes value v)
    ];
    writes_bytes = elim [
      | clean ↦ λ _. ground arith
      | absent ↦ λ _. ground arith
      | deleted ↦ λ _. ground arith
      | present value ↦ λ v. ground (arith, l.writes_bytes value v)
    ];
  }

  pub state-IsStrict : IsStrict t Valid → IsStrict (state t) (OnPresent t Valid)
  unfolding read_state write_state
  state-IsStrict st = record {
    yields = Yields-bind Yields-u8 λ tag xs h.
        unfold read_state_tagged in
        Yields-if (tag == 0) _ _ (λ e. Yields-pure clean (tt, ground arith))
          λ _.
            Yields-if (tag == 1) _ _
              (λ e. Yields-bind st.yields λ a ys k.
                Yields-pure (present a)
                  (k.0, let one : tag ≡ 1 = ground arith in simp (h.1, k.1, one, append-nil)))
              λ _.
                Yields-if (tag == 2) _ _ (λ e. Yields-pure absent (tt, ground arith))
                  λ _.
                    Yields-if (tag == 3) _ _ (λ e. Yields-pure deleted (tt, ground arith))
                      λ _. Yields-throw _;
  }

  -- `Versioned<T>` is read back from what was written, and its size is right.
  pub versioned-IsLawful : IsLawful t Valid → IsLawful (versioned t) (IsVersion Valid)
  unfolding write_versioned read_versioned size_versioned
  versioned-IsLawful l = record {
    reads = λ v h.
        Reads-bind _ (previous-IsLawful.reads _ h.0)
          (Reads-eq (Reads-bind _ (l.reads _ h.1) (Reads-pure v)) (append-nil _));
    sizes = λ v h. omega (
      arith,
      length-append {0} (previous.write v.previous_topoheight) (t.write v.value),
      previous-IsLawful.sizes _ h.0,
      l.sizes _ h.1,
    );
    writes_bytes = λ v h.
        All-append IsByte (previous.write v.previous_topoheight) _
          (previous-IsLawful.writes_bytes _ h.0) (l.writes_bytes _ h.1);
  }

  pub versioned-IsStrict : IsStrict t Valid → IsStrict (versioned t) (IsVersion Valid)
  unfolding write_versioned read_versioned
  versioned-IsStrict st = record {
    yields = Yields-bind previous-IsStrict.yields λ p xs h.
        Yields-bind st.yields λ a ys k. Yields-pure _ ((h.0, k.0), simp (h.1, k.1, append-nil));
  }

-- ===== src/Account/Versioned.antt =====
-- xelis_common/src/versioned_type.rs: the state of a cached version.
pub mod Record
use blockchain_xelis.Prelude.{
  ℕ, ◌+◌, ◌≡◌, refl, Bool, true, false, not, Option, none, some, List, ◌∷◌, ◌++◌, All-append,
  length-append, arith, if◌then◌else◌, ◌==◌,
}
use mathlib.Core.List.{append-nil}
use blockchain_xelis.Serializer.Reader.{Read, ◌>>=◌, pure, throw, read_u8, invalid_value}
use blockchain_xelis.Serializer.Reader.Triples.{
  Reads, Reads-eq, Reads-pure, Reads-bind, Reads-u8, Yields-pure, Yields-bind, Yields-if,
  Yields-throw, Yields-u8, IsByte,
}
use blockchain_xelis.Serializer.Trait.{Serializer, IsLawful, IsStrict}
use blockchain_xelis.Serializer.Numbers.{write_u8}
use blockchain_xelis.Account.Nonce.{previous, IsPrevious, previous-IsLawful, previous-IsStrict}

pub data VersionedState : Type 0 where
  new : VersionedState
  fetched_at updated : ℕ → VersionedState

unfoldable pub is_new : VersionedState → Bool
is_new new = true
is_new _ = false

unfoldable pub is_fetched_at : VersionedState → Bool
is_fetched_at (fetched_at _) = true
is_fetched_at _ = false

unfoldable pub is_updated : VersionedState → Bool
is_updated (updated _) = true
is_updated _ = false

unfoldable pub should_be_stored : VersionedState → Bool
unfolding is_fetched_at
should_be_stored state = not (is_fetched_at state)

unfoldable pub get_topoheight : VersionedState → Option ℕ
get_topoheight new = none
get_topoheight (fetched_at topoheight) = some topoheight
get_topoheight (updated topoheight) = some topoheight

-- A new version stays new: it is stored as it is.
unfoldable pub mark_updated : VersionedState → VersionedState
mark_updated new = new
mark_updated (fetched_at topoheight) = updated topoheight
mark_updated (updated topoheight) = updated topoheight

-- Marking a version stores it from then on, keeps the topoheight that it came from and whether it is
-- new, and a second time changes nothing.
pub mark_updated_lem :
    (state : VersionedState)
    → (should_be_stored (mark_updated state) ≡ true)
      × (get_topoheight (mark_updated state) ≡ get_topoheight state)
      × (is_new (mark_updated state) ≡ is_new state)
      × (mark_updated (mark_updated state) ≡ mark_updated state)
unfolding mark_updated should_be_stored get_topoheight is_new
mark_updated_lem new = (refl, refl, refl, refl)
mark_updated_lem _ = (refl, refl, refl, refl)

-- A version as it was fetched is the only one that is not stored.
pub should_be_stored_iff :
    (state : VersionedState) → should_be_stored state ≡ false → (t : ℕ) × (state ≡ fetched_at t)
unfolding should_be_stored
should_be_stored_iff new h = cc
should_be_stored_iff (fetched_at t) h = (t, refl)
should_be_stored_iff (updated t) h = cc

-- ===== src/Account/Nonce.antt =====
-- xelis_common/src/account/nonce.rs: a nonce with the topoheight of its previous version.
use blockchain_xelis.Prelude.{ℕ, ◌+◌, Option, List, ◌++◌, All-append, length-append, arith}
use mathlib.Core.List.{append-nil}
use blockchain_xelis.Serializer.Reader.{Read, ◌>>=◌, pure}
use blockchain_xelis.Serializer.Reader.Triples.{
  Reads-eq, Reads-pure, Reads-bind, Yields-pure, Yields-bind, IsByte,
}
use blockchain_xelis.Serializer.Trait.{Serializer, IsLawful, IsStrict}
use blockchain_xelis.Serializer.Numbers.{IsWord, u64, word-IsLawful, word-IsStrict}
use blockchain_xelis.Serializer.Containers.Optional.{
  option, OnSome, option-IsLawful, option-IsStrict,
}

pub record VersionedNonce : Type 0 where
  pub nonce : ℕ
  pub previous_topoheight : Option ℕ

-- The optional topoheight that precedes every versioned value.
abbrev pub previous : Serializer (Option ℕ)
previous = option u64

abbrev pub IsPrevious : Option ℕ → Type 0
IsPrevious = OnSome u64 (IsWord 8)

pub u64-IsLawful : IsLawful u64 (IsWord 8)
u64-IsLawful = record {
  reads = (word-IsLawful 8).reads;
  sizes = (word-IsLawful 8).sizes;
  writes_bytes = (word-IsLawful 8).writes_bytes;
}

pub u64-IsStrict : IsStrict u64 (IsWord 8)
u64-IsStrict = record { yields = (word-IsStrict 8).yields }

pub previous-IsLawful : IsLawful previous IsPrevious
previous-IsLawful = option-IsLawful u64-IsLawful

pub previous-IsStrict : IsStrict previous IsPrevious
previous-IsStrict = option-IsStrict u64-IsStrict

unfoldable pub new : ℕ → Option ℕ → VersionedNonce
new nonce previous_topoheight = record { nonce = nonce; previous_topoheight = previous_topoheight }

unfoldable pub set_nonce : VersionedNonce → ℕ → VersionedNonce
set_nonce v value = record v { nonce = value }

unfoldable pub set_previous_topoheight : VersionedNonce → Option ℕ → VersionedNonce
set_previous_topoheight v previous_topoheight = record v {
  previous_topoheight = previous_topoheight;
}

unfoldable pub write : VersionedNonce → List ℕ
write v = previous.write v.previous_topoheight ++ u64.write v.nonce

unfoldable pub read : Read VersionedNonce
read = do
  previous_topoheight ← previous.read
  nonce ← u64.read
  pure (record { nonce = nonce; previous_topoheight = previous_topoheight })

unfoldable pub size : VersionedNonce → ℕ
size v = u64.size v.nonce + previous.size v.previous_topoheight

abbrev pub versioned_nonce : Serializer VersionedNonce
versioned_nonce = record { write = write; read = read; size = size }

pub record IsValid (v : VersionedNonce) : Type 0 where
  pub nonce : IsWord 8 v.nonce
  pub previous : IsPrevious v.previous_topoheight

pub versioned_nonce-IsLawful : IsLawful versioned_nonce IsValid
unfolding write read size
versioned_nonce-IsLawful = record {
  reads = λ v h.
      Reads-bind _ (previous-IsLawful.reads _ h.previous)
        (Reads-eq (Reads-bind _ (u64-IsLawful.reads _ h.nonce) (Reads-pure v)) (append-nil _));
  sizes = λ v h. omega (
    arith,
    length-append {0} (previous.write v.previous_topoheight) (u64.write v.nonce),
    previous-IsLawful.sizes _ h.previous,
    u64-IsLawful.sizes _ h.nonce,
  );
  writes_bytes = λ v h.
      All-append IsByte (previous.write v.previous_topoheight) _
        (previous-IsLawful.writes_bytes _ h.previous) (u64-IsLawful.writes_bytes _ h.nonce);
}

pub versioned_nonce-IsStrict : IsStrict versioned_nonce IsValid
unfolding write read
versioned_nonce-IsStrict = record {
  yields = Yields-bind previous-IsStrict.yields λ p xs h.
      Yields-bind u64-IsStrict.yields λ n ys k.
        Yields-pure _ (record { nonce = k.0; previous = h.0 }, simp (h.1, k.1, append-nil));
}

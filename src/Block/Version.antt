-- ===== src/Block/Version.antt =====
-- Block versions (xelis_common/src/block/version.rs) and transaction versions
-- (xelis_common/src/transaction/version.rs).
use blockchain_xelis.Prelude.{
  ℕ, ◌≡◌, refl, Bool, true, false, Option, none, some, List, [], ◌∷◌, ◌++◌, ◌∙◌, sym, ◌==◌,
  if◌then◌else◌, arith,
}
use mathlib.Core.List.{append-nil}
use blockchain_xelis.Serializer.Reader.{Read, ◌>>=◌, pure, throw, read_u8, invalid_value}
use blockchain_xelis.Serializer.Reader.Triples.{
  Reads, Reads-pure, Reads-bind, Reads-u8, Yields-pure, Yields-bind, Yields-throw, Yields-u8,
  IsByte, Yields,
}
use blockchain_xelis.Serializer.Trait.{Serializer, IsLawful, IsStrict}
use blockchain_xelis.Serializer.Numbers.{write_u8}

pub data TxVersion : Type 0 where
  v0 v1 v2 : TxVersion

pub data BlockVersion : Type 0 where
  v0 v1 v2 v3 : BlockVersion

-- The discriminant, by which the derived comparisons go.
unfoldable pub discriminant : BlockVersion → ℕ
discriminant BlockVersion.v0 = 0
discriminant BlockVersion.v1 = 1
discriminant BlockVersion.v2 = 2
discriminant BlockVersion.v3 = 3

unfoldable pub is_tx_v0 : TxVersion → Bool
is_tx_v0 TxVersion.v0 = true
is_tx_v0 _ = false

unfoldable pub is_tx_v1 : TxVersion → Bool
is_tx_v1 TxVersion.v1 = true
is_tx_v1 _ = false

unfoldable pub is_tx_v2 : TxVersion → Bool
is_tx_v2 TxVersion.v2 = true
is_tx_v2 _ = false

-- `matches!` on the version that the block version asks for.
unfoldable pub is_tx_version_allowed : BlockVersion → TxVersion → Bool
unfolding is_tx_v0 is_tx_v1 is_tx_v2
is_tx_version_allowed BlockVersion.v0 tx_version = is_tx_v0 tx_version
is_tx_version_allowed BlockVersion.v1 tx_version = is_tx_v0 tx_version
is_tx_version_allowed BlockVersion.v2 tx_version = is_tx_v1 tx_version
is_tx_version_allowed BlockVersion.v3 tx_version = is_tx_v2 tx_version

unfoldable pub get_tx_version : BlockVersion → TxVersion
get_tx_version BlockVersion.v0 = TxVersion.v0
get_tx_version BlockVersion.v1 = TxVersion.v0
get_tx_version BlockVersion.v2 = TxVersion.v1
get_tx_version BlockVersion.v3 = TxVersion.v2

-- A block version allows exactly one transaction version, the one that `get_tx_version` names.
pub is_tx_version_allowed_iff :
    (b : BlockVersion) (t : TxVersion)
    → ((is_tx_version_allowed b t ≡ true) → get_tx_version b ≡ t)
      × ((get_tx_version b ≡ t) → is_tx_version_allowed b t ≡ true)
unfolding is_tx_version_allowed get_tx_version
is_tx_version_allowed_iff b t = ground arith

-- `TryFrom<u8>`
unfoldable pub block_version_of : ℕ → Option BlockVersion
block_version_of value =
    if value == 0
    then some BlockVersion.v0
    else if value == 1
    then some BlockVersion.v1
    else if value == 2
    then some BlockVersion.v2
    else if value == 3
    then some BlockVersion.v3
    else none

unfoldable pub write_block_version : BlockVersion → List ℕ
write_block_version BlockVersion.v0 = write_u8 0
write_block_version BlockVersion.v1 = write_u8 1
write_block_version BlockVersion.v2 = write_u8 2
write_block_version BlockVersion.v3 = write_u8 3

unfoldable pub tx_version_of : ℕ → Option TxVersion
tx_version_of value =
    if value == 0
    then some TxVersion.v0
    else if value == 1
    then some TxVersion.v1
    else if value == 2
    then some TxVersion.v2
    else none

-- `Into<u8>`
unfoldable pub byte_of_tx_version : TxVersion → ℕ
byte_of_tx_version TxVersion.v0 = 0
byte_of_tx_version TxVersion.v1 = 1
byte_of_tx_version TxVersion.v2 = 2

unfoldable pub write_tx_version : TxVersion → List ℕ
write_tx_version TxVersion.v0 = write_u8 0
write_tx_version TxVersion.v1 = write_u8 1
write_tx_version TxVersion.v2 = write_u8 2

-- `try_from(id).map_err(|_| InvalidValue)`
unfoldable pub known {ℓ} : {A : Type ℓ} → Option A → Read A
known none = throw invalid_value
known (some version) = pure version

unfoldable pub read_block_version : Read BlockVersion
read_block_version = do id ← read_u8; known (block_version_of id)

unfoldable pub read_tx_version : Read TxVersion
read_tx_version = do id ← read_u8; known (tx_version_of id)

abbrev pub block_version : Serializer BlockVersion
block_version = record { write = write_block_version; read = read_block_version; size = λ _. 1 }

abbrev pub tx_version : Serializer TxVersion
tx_version = record { write = write_tx_version; read = read_tx_version; size = λ _. 1 }

Reads-known :
    {A : Type 0} (of_byte : ℕ → Option A) (id : ℕ) (a : A)
    → of_byte id ≡ some a
    → Reads (read_u8 >>= λ b. known (of_byte b)) (id ∷ []) a
unfolding known
Reads-known of_byte id a h = Reads-bind (λ b. known (of_byte b)) (Reads-u8 id) (rw h (Reads-pure a))

Yields-known :
    {A : Type 0} (of_byte : ℕ → Option A) (write : A → List ℕ)
    → ((id : ℕ) (a : A) → of_byte id ≡ some a → write a ≡ id ∷ [])
    → Yields (read_u8 >>= λ b. known (of_byte b)) (λ a xs. Unit {0} × (xs ≡ write a))
Yields-known {A} of_byte write h = Yields-bind Yields-u8 λ id xs k. split id xs k (of_byte id) refl
  where
    split :
        (id : ℕ) (xs : List ℕ)
        → IsByte id × (xs ≡ id ∷ [])
        → (o : Option A) → of_byte id ≡ o
        → Yields (known o) (λ a ys. Unit {0} × (xs ++ ys ≡ write a))
    split id xs k none e = unfold known in Yields-throw _
    split id xs k (some a) e =
        unfold known in Yields-pure a (tt, rw (append-nil xs) (k.1 ∙ sym (h id a e)))

pub block_version-IsLawful : IsLawful block_version (λ _. Unit {0})
unfolding read_block_version write_block_version block_version_of
block_version-IsLawful = record {
  reads = elim [
    | BlockVersion.v0 ↦ λ _. Reads-known block_version_of 0 _ refl
    | BlockVersion.v1 ↦ λ _. Reads-known block_version_of 1 _ refl
    | BlockVersion.v2 ↦ λ _. Reads-known block_version_of 2 _ refl
    | BlockVersion.v3 ↦ λ _. Reads-known block_version_of 3 _ refl
  ];
  sizes = λ v _. ground arith;
  writes_bytes = λ v _. ground arith;
}

pub block_version-IsStrict : IsStrict block_version (λ _. Unit {0})
unfolding read_block_version write_block_version block_version_of
block_version-IsStrict = record {
  yields = Yields-known block_version_of write_block_version (λ id v h. ground arith);
}

pub tx_version-IsLawful : IsLawful tx_version (λ _. Unit {0})
unfolding read_tx_version write_tx_version tx_version_of
tx_version-IsLawful = record {
  reads = elim [
    | TxVersion.v0 ↦ λ _. Reads-known tx_version_of 0 _ refl
    | TxVersion.v1 ↦ λ _. Reads-known tx_version_of 1 _ refl
    | TxVersion.v2 ↦ λ _. Reads-known tx_version_of 2 _ refl
  ];
  sizes = λ v _. ground arith;
  writes_bytes = λ v _. ground arith;
}

pub tx_version-IsStrict : IsStrict tx_version (λ _. Unit {0})
unfolding read_tx_version write_tx_version tx_version_of
tx_version-IsStrict = record {
  yields = Yields-known tx_version_of write_tx_version (λ id v h. ground arith);
}

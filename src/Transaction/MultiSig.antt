-- ===== src/Transaction/MultiSig.antt =====
-- transaction/payload/multisig.rs and transaction/multisig.rs of xelis_common/src, with the signatures of
-- crypto/elgamal/signature.rs and their scalars of crypto/elgamal/compressed.rs. A public key is 32 bytes; a scalar is
-- its 32 canonical bytes, and `is_canonical` tells which bytes `Scalar::from_canonical_bytes` of the curve library takes.
-- Sets are lists in the order of insertion.
pub mod Laws
pub mod Signatures
pub mod Bytes
use blockchain_xelis.Prelude.{
  ℕ, zero, suc, ◌+◌, ◌*◌, ◌%◌, Bool, true, false, not, ◌&&◌, ◌||◌, List, [], ◌∷◌, ◌++◌, length, ltb,
  ◌==◌, if◌then◌else◌,
}
use blockchain_xelis.Serializer.Reader.{
  Read, ◌>>=◌, pure, throw, read_u8, invalid_size, invalid_value,
}
use blockchain_xelis.Serializer.Trait.{Serializer}
use blockchain_xelis.Serializer.Numbers.{write_u8}
use blockchain_xelis.Serializer.Arrays.{array, eq_bytes}
use blockchain_xelis.Serializer.Containers.Items.{write_items, size_items}
use blockchain_xelis.Serializer.Containers.Unique.{contains, read_unique}

-- `MAX_MULTISIG_PARTICIPANTS`
abbrev pub max_multisig_participants : ℕ
max_multisig_participants = 255

abbrev pub key : Serializer (List ℕ)
key = array 32

pub record MultiSigPayload : Type 0 where
  pub threshold : ℕ
  pub participants : List (List ℕ)

abbrev is_empty : List (List ℕ) → Bool
is_empty [] = true
is_empty (x ∷ xs) = false

unfoldable pub is_delete : MultiSigPayload → Bool
is_delete p = (p.threshold == 0) && is_empty p.participants

unfoldable pub write_payload : MultiSigPayload → List ℕ
write_payload p =
    write_u8 p.threshold
    ++ (if not (p.threshold == 0)
        then write_u8 (length p.participants % 256) ++ write_items key p.participants
        else [])

unfoldable pub read_participants : ℕ → ℕ → Read MultiSigPayload
read_participants threshold participants_len =
    if (participants_len == 0) || ltb max_multisig_participants participants_len
    then throw invalid_size
    else do
      participants ← read_unique eq_bytes key invalid_value participants_len []
      pure (record { threshold = threshold; participants = participants })

unfoldable pub read_threshold : ℕ → Read MultiSigPayload
read_threshold threshold =
    if threshold == 0
    then pure (record { threshold = threshold; participants = [] })
    else do participants_len ← read_u8; read_participants threshold participants_len

unfoldable pub read_payload : Read MultiSigPayload
read_payload = do threshold ← read_u8; read_threshold threshold

unfoldable pub size_payload : MultiSigPayload → ℕ
size_payload p = 1 + 1 + size_items key p.participants

abbrev pub payload : Serializer MultiSigPayload
payload = record { write = write_payload; read = read_payload; size = size_payload }

pub record Signature : Type 0 where
  pub s : List ℕ
  pub e : List ℕ

pub record SignatureId : Type 0 where
  pub id : ℕ
  pub signature : Signature

-- `PartialEq`: by the signer's id alone.
unfoldable pub same_id : SignatureId → SignatureId → Bool
same_id a b = a.id == b.id

pub record MultiSig : Type 0 where
  pub signatures : List SignatureId

-- `IndexSet::insert`: the new set, and whether the signature was added.
unfoldable pub add_signature : MultiSig → SignatureId → MultiSig × Bool
unfolding same_id
add_signature m s =
    if contains same_id s m.signatures
    then (m, false)
    else (record { signatures = m.signatures ++ s ∷ [] }, true)

-- `SCALAR_SIZE`
abbrev pub scalar_size : ℕ
scalar_size = 32

-- `SIGNATURE_SIZE`
abbrev pub signature_size : ℕ
signature_size = scalar_size * 2

module _ (is_canonical : List ℕ → Bool) where
  unfoldable pub read_scalar : Read (List ℕ)
  read_scalar = do
    bytes ← (array scalar_size).read
    if is_canonical bytes then pure bytes else throw invalid_value

  abbrev pub scalar : Serializer (List ℕ)
  scalar = record {
    write = (array scalar_size).write;
    read = read_scalar;
    size = (array scalar_size).size;
  }

  unfoldable pub write_signature : Signature → List ℕ
  write_signature sig = scalar.write sig.s ++ scalar.write sig.e

  unfoldable pub read_signature : Read Signature
  read_signature = do s ← scalar.read; e ← scalar.read; pure (record { s = s; e = e })

  abbrev pub signature : Serializer Signature
  signature = record {
    write = write_signature;
    read = read_signature;
    size = λ sig. signature_size;
  }

  unfoldable pub write_id : SignatureId → List ℕ
  write_id s = write_u8 s.id ++ signature.write s.signature

  unfoldable pub read_id : Read SignatureId
  read_id = do id ← read_u8; sig ← signature.read; pure (record { id = id; signature = sig })

  unfoldable pub size_id : SignatureId → ℕ
  size_id s = 1 + signature.size s.signature

  abbrev pub signature_id : Serializer SignatureId
  signature_id = record { write = write_id; read = read_id; size = size_id }

  unfoldable pub write_multisig : MultiSig → List ℕ
  write_multisig m = write_u8 (length m.signatures % 256) ++ write_items signature_id m.signatures

  unfoldable pub read_multisig : Read MultiSig
  read_multisig = do
    len ← read_u8
    signatures ← read_unique same_id signature_id invalid_value len []
    pure (record { signatures = signatures })

  unfoldable pub size_multisig : MultiSig → ℕ
  size_multisig m = 1 + size_items signature_id m.signatures

  abbrev pub multisig : Serializer MultiSig
  multisig = record { write = write_multisig; read = read_multisig; size = size_multisig }

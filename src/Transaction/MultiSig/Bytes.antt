-- ===== src/Transaction/MultiSig/Bytes.antt =====
-- The bytes of a multisig setup and of the signatures of a transaction.
use blockchain_xelis.Prelude.{ℕ, Bool, ◌≡◌, List, ◌++◌, All, length, ok}
use blockchain_xelis.Serializer.Reader.Triples.{IsByte}
use blockchain_xelis.Serializer.Trait.{
  to_bytes, from_bytes, from-to_bytes, to-from_bytes, from_bytes-Reads,
}
use blockchain_xelis.Transaction.MultiSig.{MultiSigPayload, payload, MultiSig, multisig}
use blockchain_xelis.Transaction.MultiSig.Laws.{IsPayload, Reads-payload, payload-IsStrict}
use blockchain_xelis.Transaction.MultiSig.Signatures.{
  IsMultiSig, multisig-IsLawful, multisig-IsStrict,
}

-- A valid multisig setup is read back from its serialization, whatever bytes follow.
pub payload-from-to_bytes :
    (value : MultiSigPayload) (rest : List ℕ)
    → IsPayload value
    → from_bytes payload (to_bytes payload value ++ rest) ≡ ok value
unfolding to_bytes
payload-from-to_bytes value rest valid =
    from_bytes-Reads payload _ value rest (Reads-payload value valid)

-- Bytes that are accepted as a multisig setup are those of its serialization, followed by the rest, and it is valid.
pub payload-to-from_bytes :
    (bytes : List ℕ) (value : MultiSigPayload)
    → All IsByte bytes
    → from_bytes payload bytes ≡ ok value
    → (rest : List ℕ) × IsPayload value × (bytes ≡ to_bytes payload value ++ rest)
payload-to-from_bytes = to-from_bytes payload-IsStrict

-- For any test of canonical scalars, a valid list of signatures, whose scalars pass it, is read back from its serialization,
-- whatever bytes follow, and `size` is the number of its bytes.
pub multisig-from-to_bytes :
    (is_canonical : List ℕ → Bool) (value : MultiSig) (rest : List ℕ)
    → IsMultiSig is_canonical value
    → (from_bytes (multisig is_canonical) (to_bytes (multisig is_canonical) value ++ rest)
        ≡ ok value)
      × ((multisig is_canonical).size value ≡ length (to_bytes (multisig is_canonical) value))
unfolding to_bytes
multisig-from-to_bytes is_canonical value rest valid = (
  from-to_bytes (multisig-IsLawful is_canonical) value rest valid,
  (multisig-IsLawful is_canonical).sizes value valid,
)

-- For any test of canonical scalars, bytes that are accepted as a list of signatures are those of its serialization,
-- followed by the rest, and it is valid: its scalars pass the test.
pub multisig-to-from_bytes :
    (is_canonical : List ℕ → Bool) (bytes : List ℕ) (value : MultiSig)
    → All IsByte bytes
    → from_bytes (multisig is_canonical) bytes ≡ ok value
    → (rest : List ℕ) × IsMultiSig is_canonical value
      × (bytes ≡ to_bytes (multisig is_canonical) value ++ rest)
multisig-to-from_bytes is_canonical = to-from_bytes (multisig-IsStrict is_canonical)

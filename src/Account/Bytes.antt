-- ===== src/Account/Bytes.antt =====
-- The bytes of the versions that an account keeps.
use blockchain_xelis.Prelude.{ℕ, ◌≡◌, List, ◌++◌, All, length, ok}
use blockchain_xelis.Serializer.Reader.Triples.{IsByte}
use blockchain_xelis.Serializer.Trait.{
  to_bytes, from_bytes, from-to_bytes, to-from_bytes, from_bytes-Reads,
}
use blockchain_xelis.Account.Nonce.{
  VersionedNonce, versioned_nonce, IsValid, versioned_nonce-IsLawful, versioned_nonce-IsStrict,
}
use blockchain_xelis.Account.Balance.{AccountSummary, VersionedBalance}
use blockchain_xelis.Account.Cache.{Curve}
use blockchain_xelis.Account.Balance.Codec.{summary, IsSummary, summary-IsLawful, summary-IsStrict}
use blockchain_xelis.Account.Balance.Version.{
  versioned_balance, normal_version, IsVersion, Reads-version,
}

-- A valid version of a nonce is read back from its serialization, whatever bytes follow, and `size` is the number of its bytes.
versioned_nonce-from-to_bytes :
    (value : VersionedNonce) (rest : List ℕ)
    → IsValid value
    → (from_bytes versioned_nonce (to_bytes versioned_nonce value ++ rest) ≡ ok value)
      × (versioned_nonce.size value ≡ length (to_bytes versioned_nonce value))
unfolding to_bytes
versioned_nonce-from-to_bytes value rest valid = (
  from-to_bytes versioned_nonce-IsLawful value rest valid,
  versioned_nonce-IsLawful.sizes value valid,
)

-- Bytes that are accepted as a version of a nonce are those of its serialization, followed by the rest, and it is valid.
versioned_nonce-to-from_bytes :
    (bytes : List ℕ) (value : VersionedNonce)
    → All IsByte bytes
    → from_bytes versioned_nonce bytes ≡ ok value
    → (rest : List ℕ) × IsValid value × (bytes ≡ to_bytes versioned_nonce value ++ rest)
versioned_nonce-to-from_bytes = to-from_bytes versioned_nonce-IsStrict

-- A valid summary of an account is read back from its serialization, whatever bytes follow, and `size` is the number of its bytes.
pub summary-from-to_bytes :
    (value : AccountSummary) (rest : List ℕ)
    → IsSummary value
    → (from_bytes summary (to_bytes summary value ++ rest) ≡ ok value)
      × (summary.size value ≡ length (to_bytes summary value))
unfolding to_bytes
summary-from-to_bytes value rest valid =
    (from-to_bytes summary-IsLawful value rest valid, summary-IsLawful.sizes value valid)

-- Bytes that are accepted as a summary of an account are those of its serialization, followed by the rest, and it is valid.
pub summary-to-from_bytes :
    (bytes : List ℕ) (value : AccountSummary)
    → All IsByte bytes
    → from_bytes summary bytes ≡ ok value
    → (rest : List ℕ) × IsSummary value × (bytes ≡ to_bytes summary value ++ rest)
summary-to-from_bytes = to-from_bytes summary-IsStrict

-- A version of a balance is read back from its serialization, whatever bytes follow, with its ciphertexts
-- compressed and nothing else changed.
pub version-from-to_bytes :
    (curve : Curve) (version : VersionedBalance curve.Ciphertext) (rest : List ℕ)
    → IsVersion curve version
    → from_bytes (versioned_balance curve) (to_bytes (versioned_balance curve) version ++ rest)
      ≡ ok (normal_version curve version)
unfolding to_bytes
version-from-to_bytes curve version rest valid =
    from_bytes-Reads (versioned_balance curve) _ _ rest (Reads-version curve version valid)

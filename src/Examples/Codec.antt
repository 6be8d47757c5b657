-- ===== src/Examples/Codec.antt =====
-- Values and their bytes.
use blockchain_xelis.Prelude.{
  ℕ, zero, suc, ◌<◌, ◌≡◌, ◌≢◌, refl, List, [], ◌∷◌, ◌++◌, length, replicate, All-append, arith, ok,
  Bool, false, none, some, get_elem?, ltb,
}
use blockchain_xelis.Serializer.Reader.Triples.{IsByte, OfLength}
use blockchain_xelis.Serializer.Trait.{to_bytes, from_bytes}
use blockchain_xelis.Serializer.Words.{to_be_bytes, from_be_bytes, from-to_be_bytes}
use blockchain_xelis.Serializer.Arrays.{eq_bytes}
use blockchain_xelis.Block.Version.{v1}
use blockchain_xelis.Block.Header.{BlockHeader, header, IsValid}
use blockchain_xelis.Block.Header.Laws.{header-IsLawful}
use blockchain_xelis.Block.Header.Bytes.{header-from-to_bytes, header-to-from_bytes}
use blockchain_xelis.Transaction.MultiSig.{
  MultiSigPayload, payload, write_payload, size_payload, same_id, Signature, MultiSig, multisig,
}
use blockchain_xelis.Transaction.MultiSig.Laws.{IsPayload, size_payload_lem}
use blockchain_xelis.Transaction.MultiSig.Signatures.{IsScalar, IsMultiSig, multisig-IsLawful}
use blockchain_xelis.Transaction.MultiSig.Bytes.{
  payload-from-to_bytes, payload-to-from_bytes, multisig-from-to_bytes, multisig-to-from_bytes,
}

pub replicate-OfLength : (n b : ℕ) → b < 256 → OfLength n (replicate n b)
replicate-OfLength zero b h = (refl, tt)
replicate-OfLength (suc n) b h =
    let rest = replicate-OfLength n b h in (omega (arith, rest.0), (h, rest.1))

abbrev sample : BlockHeader
sample = record {
  version = v1;
  tips = replicate 32 1 ∷ replicate 32 2 ∷ [];
  timestamp = 1_700_000_000_000;
  height = 5;
  nonce = 77;
  extra_nonce = replicate 32 0;
  miner = replicate 32 9;
  txs_hashes = replicate 32 3 ∷ [];
}

sample-IsValid : IsValid sample
unfolding eq_bytes
sample-IsValid = record {
  height = omega arith;
  timestamp = omega arith;
  nonce = omega arith;
  extra_nonce = replicate-OfLength 32 0 (omega arith);
  tips = (replicate-OfLength 32 1 (omega arith), (replicate-OfLength 32 2 (omega arith), tt));
  tips_distinct = ((refl, tt), (tt, tt));
  tips_few = omega arith;
  txs = (replicate-OfLength 32 3 (omega arith), tt);
  txs_distinct = (tt, tt);
  txs_few = omega arith;
  miner = replicate-OfLength 32 9 (omega arith);
}

header-from-to_bytes_example :
    (from_bytes header (to_bytes header sample ++ 1 ∷ []) ≡ ok sample)
    × (header.size sample ≡ length (to_bytes header sample))
header-from-to_bytes_example = header-from-to_bytes sample (1 ∷ []) sample-IsValid

header-to-from_bytes_example :
    (rest : List ℕ) × IsValid sample
    × (to_bytes header sample ++ 1 ∷ [] ≡ to_bytes header sample ++ rest)
unfolding to_bytes
header-to-from_bytes_example =
    header-to-from_bytes (to_bytes header sample ++ 1 ∷ []) sample
      (All-append IsByte (to_bytes header sample) _
        (header-IsLawful.writes_bytes sample sample-IsValid) (omega arith, tt))
      (header-from-to_bytes sample (1 ∷ []) sample-IsValid).0

abbrev two_of_three : MultiSigPayload
two_of_three = record {
  threshold = 2;
  participants = replicate 32 1 ∷ replicate 32 2 ∷ replicate 32 3 ∷ [];
}

abbrev delete : MultiSigPayload
delete = record { threshold = 0; participants = [] }

delete-IsPayload : IsPayload delete
delete-IsPayload = record {
  threshold = omega arith;
  deletes = λ h. refl;
  some_key = λ h. absurd (h refl);
  keys = tt;
  distinct = tt;
  few = omega arith;
}

two_of_three-IsPayload : IsPayload two_of_three
unfolding eq_bytes
two_of_three-IsPayload = record {
  threshold = omega arith;
  deletes = λ h. absurd (omega arith);
  some_key = λ h. omega arith;
  keys = (
    replicate-OfLength 32 1 (omega arith),
    (replicate-OfLength 32 2 (omega arith), (replicate-OfLength 32 3 (omega arith), tt)),
  );
  distinct = ((refl, (refl, tt)), ((refl, tt), (tt, tt)));
  few = omega arith;
}

payload-from-to_bytes_example :
    from_bytes payload (to_bytes payload two_of_three ++ 8 ∷ []) ≡ ok two_of_three
payload-from-to_bytes_example = payload-from-to_bytes two_of_three (8 ∷ []) two_of_three-IsPayload

payload-to-from_bytes_example :
    (rest : List ℕ) × IsPayload delete
    × (to_bytes payload delete ++ 8 ∷ [] ≡ to_bytes payload delete ++ rest)
unfolding to_bytes write_payload
payload-to-from_bytes_example =
    payload-to-from_bytes (to_bytes payload delete ++ 8 ∷ []) delete
      (omega arith, (omega arith, tt)) (payload-from-to_bytes delete (8 ∷ []) delete-IsPayload)

size_payload_lem_example :
    (delete.threshold ≢ 0 → size_payload delete ≡ length (write_payload delete))
    × (delete.threshold ≡ 0 → (size_payload delete ≡ 2) × (length (write_payload delete) ≡ 1))
size_payload_lem_example = size_payload_lem delete delete-IsPayload

-- A test of scalars that looks at their last byte alone.
abbrev is_canonical : List ℕ → Bool
is_canonical bytes = elim (get_elem? bytes 31) [ none ↦ false | some last ↦ ltb last 16 ]

abbrev signature_of : ℕ → Signature
signature_of byte = record { s = replicate 32 byte; e = replicate 32 byte }

abbrev signatures : MultiSig
signatures = record {
  signatures =
      record { id = 0; signature = signature_of 5 }
      ∷ record { id = 2; signature = signature_of 6 }
      ∷ [];
}

is_scalar : (byte : ℕ) → byte < 16 → IsScalar is_canonical (replicate 32 byte)
is_scalar byte h = (replicate-OfLength 32 byte (omega (arith, h)), ground (arith, h))

signatures-IsMultiSig : IsMultiSig is_canonical signatures
unfolding same_id
signatures-IsMultiSig = record {
  signatures = (
    record { id = omega arith; s = is_scalar 5 (omega arith); e = is_scalar 5 (omega arith) },
    (record { id = omega arith; s = is_scalar 6 (omega arith); e = is_scalar 6 (omega arith) }, tt),
  );
  distinct = ((refl, tt), (tt, tt));
  few = omega arith;
}

multisig-from-to_bytes_example :
    (from_bytes (multisig is_canonical) (to_bytes (multisig is_canonical) signatures ++ [])
      ≡ ok signatures)
    × ((multisig is_canonical).size signatures
        ≡ length (to_bytes (multisig is_canonical) signatures))
multisig-from-to_bytes_example =
    multisig-from-to_bytes is_canonical signatures [] signatures-IsMultiSig

multisig-to-from_bytes_example :
    (rest : List ℕ) × IsMultiSig is_canonical signatures
    × (to_bytes (multisig is_canonical) signatures ++ []
        ≡ to_bytes (multisig is_canonical) signatures ++ rest)
unfolding to_bytes
multisig-to-from_bytes_example =
    multisig-to-from_bytes is_canonical (to_bytes (multisig is_canonical) signatures ++ [])
      signatures
      (All-append IsByte (to_bytes (multisig is_canonical) signatures) _
        ((multisig-IsLawful is_canonical).writes_bytes signatures signatures-IsMultiSig) tt)
      (multisig-from-to_bytes is_canonical signatures [] signatures-IsMultiSig).0

from-to_be_bytes_example : from_be_bytes (to_be_bytes 8 77) ≡ 77
from-to_be_bytes_example = from-to_be_bytes 8 77 (omega arith)

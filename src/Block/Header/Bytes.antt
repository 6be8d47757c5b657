-- ===== src/Block/Header/Bytes.antt =====
-- The bytes of a block header (xelis_common/src/block/header.rs) and the header they stand for.
use blockchain_xelis.Prelude.{ℕ, ◌≡◌, List, ◌++◌, All, length, ok}
use blockchain_xelis.Serializer.Reader.Triples.{IsByte}
use blockchain_xelis.Serializer.Trait.{to_bytes, from_bytes, from-to_bytes, to-from_bytes}
use blockchain_xelis.Block.Header.{BlockHeader, header, IsValid}
use blockchain_xelis.Block.Header.Laws.{header-IsLawful, header-IsStrict}

-- A valid header is read back from its serialization, whatever bytes follow, and `size` is the number of its bytes.
pub header-from-to_bytes :
    (value : BlockHeader) (rest : List ℕ)
    → IsValid value
    → (from_bytes header (to_bytes header value ++ rest) ≡ ok value)
      × (header.size value ≡ length (to_bytes header value))
unfolding to_bytes
header-from-to_bytes value rest valid =
    (from-to_bytes header-IsLawful value rest valid, header-IsLawful.sizes value valid)

-- Bytes that are accepted as a header are those of its serialization, followed by the rest, and it is valid.
pub header-to-from_bytes :
    (bytes : List ℕ) (value : BlockHeader)
    → All IsByte bytes
    → from_bytes header bytes ≡ ok value
    → (rest : List ℕ) × IsValid value × (bytes ≡ to_bytes header value ++ rest)
header-to-from_bytes = to-from_bytes header-IsStrict

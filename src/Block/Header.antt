-- ===== src/Block/Header.antt =====
-- xelis_common/src/block/header.rs. Timestamps, heights and nonces are 64-bit numbers; the sets of
-- tips and of transaction hashes are lists in the order of insertion.
pub mod Laws
pub mod Bytes
use blockchain_xelis.Prelude.{
  ℕ, ◌+◌, ◌*◌, ◌%◌, ◌<◌, ◌≤◌, ◌≡◌, refl, sym, ◌∙◌, ap, List, [], ◌∷◌, ◌++◌, All, All-append, length,
  length-append, ltb, if◌then◌else◌, arith,
}
use mathlib.Core.List.{append-nil}
use blockchain_xelis.Serializer.Reader.{
  Read, ◌>>=◌, pure, throw, read_u8, read_bytes, invalid_value,
}
use blockchain_xelis.Serializer.Reader.Triples.{
  Reads, Reads-eq, Reads-pure, Reads-bind, Reads-u8, Yields, Yields-pure, Yields-bind, Yields-if,
  Yields-throw, Yields-u8, IsByte, OfLength, Reads-bytes, Yields-bytes,
}
use blockchain_xelis.Serializer.Trait.{Serializer, IsLawful, IsStrict}
use blockchain_xelis.Serializer.Words.{length-to_be_bytes, All-to_be_bytes}
use blockchain_xelis.Serializer.Numbers.{
  IsWord, read_u16, read_u64, write_u8, write_u16, write_u64, u64, Reads-word, Yields-word,
}
use blockchain_xelis.Serializer.Arrays.{
  hash, hash_size, array-IsLawful, array-IsStrict, eq_bytes, write_bytes,
}
use blockchain_xelis.Serializer.Containers.Items.{write_items, size-items, All-items}
use blockchain_xelis.Serializer.Containers.Unique.{
  IsDistinct, AreNew-nil, read_unique, Reads-unique, Yields-set,
}
use blockchain_xelis.Block.Version.{
  BlockVersion, block_version, block_version-IsLawful, block_version-IsStrict,
}

-- `EXTRA_NONCE_SIZE`
abbrev pub extra_nonce_size : ℕ
extra_nonce_size = 32

-- `TIPS_LIMIT`
abbrev pub tips_limit : ℕ
tips_limit = 3

-- A hash and a public key are 32 bytes.
pub record BlockHeader : Type 0 where
  pub version : BlockVersion
  pub tips : List (List ℕ)
  pub timestamp : ℕ
  pub height : ℕ
  pub nonce : ℕ
  pub extra_nonce : List ℕ
  pub miner : List ℕ
  pub txs_hashes : List (List ℕ)

-- `len() as u8` and `len() as u16`.
unfoldable pub write : BlockHeader → List ℕ
write h =
    block_version.write h.version
    ++ (write_u64 h.height
        ++ (write_u64 h.timestamp
            ++ (write_u64 h.nonce
                ++ (h.extra_nonce
                    ++ (write_u8 (length h.tips % 256)
                        ++ (write_items hash h.tips
                            ++ (write_u16 (length h.txs_hashes % 65536)
                                ++ (write_items hash h.txs_hashes ++ h.miner))))))))

unfoldable pub read_tips : ℕ → Read (List (List ℕ))
read_tips tips_count =
    if ltb tips_limit tips_count
    then throw invalid_value
    else read_unique eq_bytes hash invalid_value tips_count []

unfoldable pub read : Read BlockHeader
read = do
  version ← block_version.read
  height ← read_u64
  timestamp ← read_u64
  nonce ← read_u64
  extra_nonce ← read_bytes 32
  tips_count ← read_u8
  tips ← read_tips tips_count
  txs_count ← read_u16
  txs_hashes ← read_unique eq_bytes hash invalid_value txs_count []
  miner ← read_bytes 32
  pure (record {
    version = version;
    extra_nonce = extra_nonce;
    height = height;
    timestamp = timestamp;
    tips = tips;
    miner = miner;
    nonce = nonce;
    txs_hashes = txs_hashes;
  })

unfoldable pub size : BlockHeader → ℕ
size h =
    let tips_size = 1 + length h.tips * hash_size in
    let txs_size = 2 + length h.txs_hashes * hash_size in
    extra_nonce_size + tips_size + txs_size + 1 + 32 + 8 + 8 + 8

abbrev pub header : Serializer BlockHeader
header = record { write = write; read = read; size = size }

-- What a header must satisfy to be written and read back.
pub record IsValid (h : BlockHeader) : Type 0 where
  pub height : IsWord 8 h.height
  pub timestamp : IsWord 8 h.timestamp
  pub nonce : IsWord 8 h.nonce
  pub extra_nonce : OfLength 32 h.extra_nonce
  pub tips : All (OfLength 32) h.tips
  pub tips_distinct : IsDistinct eq_bytes h.tips
  pub tips_few : length h.tips ≤ tips_limit
  pub txs : All (OfLength 32) h.txs_hashes
  pub txs_distinct : IsDistinct eq_bytes h.txs_hashes
  pub txs_few : IsWord 2 (length h.txs_hashes)
  pub miner : OfLength 32 h.miner

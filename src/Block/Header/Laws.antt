-- ===== src/Block/Header/Laws.antt =====
-- The laws of the serialization of a block header (xelis_common/src/block/header.rs).
use blockchain_xelis.Prelude.{
  ℕ, ◌*◌, ◌%◌, ◌≤◌, ◌≡◌, refl, sym, false, List, [], ◌∷◌, All, All-append, length, length-append,
  ltb, arith,
}
use mathlib.Core.List.{append-nil}
use blockchain_xelis.Serializer.Reader.{invalid_value}
use blockchain_xelis.Serializer.Reader.Triples.{
  Reads, Reads-eq, Reads-pure, Reads-bind, Reads-u8, Yields, Yields-pure, Yields-bind, Yields-if,
  Yields-throw, Yields-imp, Yields-u8, IsByte, OfLength, Reads-bytes, Yields-bytes,
}
use blockchain_xelis.Serializer.Trait.{IsLawful, IsStrict}
use blockchain_xelis.Serializer.Words.{length-to_be_bytes, All-to_be_bytes}
use blockchain_xelis.Serializer.Numbers.{write_u8, Reads-word, Yields-word}
use blockchain_xelis.Serializer.Arrays.{hash, array-IsLawful, array-IsStrict, eq_bytes, write_bytes}
use blockchain_xelis.Serializer.Containers.Items.{write_items, All-items}
use blockchain_xelis.Serializer.Containers.Unique.{IsDistinct, AreNew-nil, Reads-unique, Yields-set}
use blockchain_xelis.Block.Version.{block_version, block_version-IsLawful, block_version-IsStrict}
use blockchain_xelis.Block.Header.{
  BlockHeader, header, IsValid, read, write, size, read_tips, tips_limit,
}

Reads-tips :
    (tips : List (List ℕ))
    → All (OfLength 32) tips
    → IsDistinct eq_bytes tips
    → length tips ≤ tips_limit
    → Reads (read_tips (length tips)) (write_items hash tips) tips
unfolding read_tips
Reads-tips tips v d few =
    let test : ltb tips_limit (length tips) ≡ false = ground arith in
    rw test (
      Reads-unique eq_bytes invalid_value (array-IsLawful 32) [] tips v d
        (AreNew-nil eq_bytes tips))

-- A valid header is read back whole.
pub Reads-header : (h : BlockHeader) → IsValid h → Reads read (write h) h
unfolding read write
Reads-header h v =
    let few : length h.tips % 256 ≡ length h.tips = omega (arith, v.tips_few) in
    let fit : length h.txs_hashes % 65536 ≡ length h.txs_hashes = omega (arith, v.txs_few) in
    Reads-bind _ (block_version-IsLawful.reads h.version tt) (
      Reads-bind _ (Reads-word 8 h.height v.height) (
        Reads-bind _ (Reads-word 8 h.timestamp v.timestamp) (
          Reads-bind _ (Reads-word 8 h.nonce v.nonce) (
            Reads-bind _ (Reads-bytes 32 h.extra_nonce v.extra_nonce.0) (
              Reads-bind _ (Reads-u8 (length h.tips % 256)) (
                rw few (
                  Reads-bind _ (Reads-tips h.tips v.tips v.tips_distinct v.tips_few) (
                    Reads-bind _ (Reads-word 2 (length h.txs_hashes % 65536) (omega arith)) (
                      rw fit (
                        Reads-bind _
                          (Reads-unique eq_bytes invalid_value (array-IsLawful 32) [] h.txs_hashes
                            v.txs v.txs_distinct (AreNew-nil eq_bytes h.txs_hashes))
                          (Reads-eq (Reads-bind _ (Reads-bytes 32 h.miner v.miner.0) (Reads-pure h))
                            (append-nil _))))))))))))

length-hashes :
    (els : List (List ℕ)) → All (OfLength 32) els → length (write_items hash els) ≡ length els * 32
unfolding write_items write_bytes
length-hashes [] v = refl
length-hashes (el ∷ els) v =
    omega (arith, length-append {0} el (write_items hash els), v.0.0, length-hashes els v.1)

-- The count that `size` states is the number of bytes that `write` appends.
size-header : (h : BlockHeader) → IsValid h → size h ≡ length (write h)
unfolding size write
size-header h v =
    simp
      (
        length-append,
        length-to_be_bytes,
        length-hashes h.tips v.tips,
        length-hashes h.txs_hashes v.txs,
        v.extra_nonce.0,
        v.miner.0,
        version-length,
      )
      (omega arith)
  where
    version-length : length (block_version.write h.version) ≡ 1
    version-length = sym (block_version-IsLawful.sizes h.version tt)

bytes-header : (h : BlockHeader) → IsValid h → All IsByte (write h)
unfolding write
bytes-header h v =
    let join = λ (xs ys : List ℕ). All-append IsByte xs ys in
    let items = λ (els : List (List ℕ)). All-items (array-IsLawful 32) els in
    join _ _ (block_version-IsLawful.writes_bytes h.version tt) (
      join _ _ (All-to_be_bytes 8 h.height) (
        join _ _ (All-to_be_bytes 8 h.timestamp) (
          join _ _ (All-to_be_bytes 8 h.nonce) (
            join _ _ v.extra_nonce.1 (
              join (write_u8 (length h.tips % 256)) _ (omega arith) (
                join _ _ (items h.tips v.tips) (
                  join _ _ (All-to_be_bytes 2 (length h.txs_hashes % 65536))
                    (join _ _ (items h.txs_hashes v.txs) v.miner.1))))))))

pub header-IsLawful : IsLawful header IsValid
header-IsLawful = record { reads = Reads-header; sizes = size-header; writes_bytes = bytes-header }

yields-tips :
    (tips_count : ℕ)
    → Yields (read_tips tips_count) (λ tips xs.
      (length tips ≡ tips_count)
      × (length tips ≤ tips_limit)
      × All (OfLength 32) tips
      × IsDistinct eq_bytes tips
      × (xs ≡ write_items hash tips))
unfolding read_tips
yields-tips tips_count =
    Yields-if (ltb tips_limit tips_count) _ _ (λ _. Yields-throw _)
      λ few.
        Yields-imp (Yields-set eq_bytes invalid_value (array-IsStrict 32) tips_count)
          λ tips xs h. (h.0, ground (arith, h.0), h.1, h.2, h.3)

pub header-IsStrict : IsStrict header IsValid
unfolding read write
header-IsStrict = record {
  yields = Yields-bind block_version-IsStrict.yields λ version b0 h0.
      Yields-bind (Yields-word 8) λ height b1 h1. Yields-bind (Yields-word 8) λ timestamp b2 h2.
        Yields-bind (Yields-word 8) λ nonce b3 h3.
          Yields-bind (Yields-bytes 32) λ extra_nonce b4 h4.
            Yields-bind Yields-u8 λ tips_count b5 h5.
              Yields-bind (yields-tips tips_count) λ tips b6 h6.
                Yields-bind (Yields-word 2) λ txs_count b7 h7.
                  Yields-bind (Yields-set eq_bytes invalid_value (array-IsStrict 32) txs_count)
                    λ txs b8 h8. Yields-bind (Yields-bytes 32) λ miner b9 h9.
                      let few : length tips % 256 ≡ tips_count = omega (arith, h6.0, h5.0) in
                      let fit : length txs % 65536 ≡ txs_count = omega (arith, h8.0, h7.0) in
                      Yields-pure _ (
                        record {
                          height = h1.0;
                          timestamp = h2.0;
                          nonce = h3.0;
                          extra_nonce = rw (← h4.1) h4.0;
                          tips = h6.2;
                          tips_distinct = h6.3;
                          tips_few = h6.1;
                          txs = h8.1;
                          txs_distinct = h8.2;
                          txs_few = omega (arith, h8.0, h7.0);
                          miner = rw (← h9.1) h9.0;
                        },
                        simp (
                          h0.1, h1.1, h2.1, h3.1, h4.1, h5.1, h6.4, h7.1, h8.3, h9.1, few, fit,
                          append-nil,
                        ),
                      );
}

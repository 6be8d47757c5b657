-- ===== src/Account/Cache/Codec.antt =====
-- The serialization of compressed ciphertexts (crypto/elgamal/compressed.rs) and of caches
-- (account/mod.rs). A cache is written by its compressed form, and read in that form.
use blockchain_xelis.Prelude.{ℕ, ◌+◌, List, ◌++◌, All-append, length-append, arith}
use mathlib.Core.List.{append-nil}
use blockchain_xelis.Serializer.Reader.{Read, ◌>>=◌, pure}
use blockchain_xelis.Serializer.Reader.Triples.{
  Reads, Reads-eq, Reads-pure, Reads-bind, Yields-pure, Yields-bind, IsByte, OfLength,
}
use blockchain_xelis.Serializer.Trait.{Serializer, IsLawful, IsStrict}
use blockchain_xelis.Serializer.Arrays.{array, array-IsLawful, array-IsStrict}
use blockchain_xelis.Account.Cache.{
  CompressedCiphertext, Curve, CiphertextCache, compressed, compress_cache,
}

-- `RISTRETTO_COMPRESSED_SIZE`
abbrev pub ristretto_compressed_size : ℕ
ristretto_compressed_size = 32

-- `CompressedRistretto`: the bytes are kept as they are.
abbrev pub point : Serializer (List ℕ)
point = array ristretto_compressed_size

abbrev pub IsPoint : List ℕ → Type 0
IsPoint = OfLength ristretto_compressed_size

unfoldable pub write_ciphertext : CompressedCiphertext → List ℕ
write_ciphertext c = point.write c.commitment ++ point.write c.handle

unfoldable pub read_ciphertext : Read CompressedCiphertext
read_ciphertext = do
  commitment ← point.read
  handle ← point.read
  pure (record { commitment = commitment; handle = handle })

unfoldable pub size_ciphertext : CompressedCiphertext → ℕ
size_ciphertext c = point.size c.commitment + point.size c.handle

abbrev pub ciphertext : Serializer CompressedCiphertext
ciphertext = record { write = write_ciphertext; read = read_ciphertext; size = size_ciphertext }

pub record IsCiphertext (c : CompressedCiphertext) : Type 0 where
  pub commitment : IsPoint c.commitment
  pub handle : IsPoint c.handle

pub ciphertext-IsLawful : IsLawful ciphertext IsCiphertext
unfolding write_ciphertext read_ciphertext size_ciphertext
ciphertext-IsLawful = record {
  reads = λ c h. Reads-bind _ ((array-IsLawful 32).reads _ h.commitment) (
      Reads-eq (Reads-bind _ ((array-IsLawful 32).reads _ h.handle) (Reads-pure c)) (append-nil _));
  sizes = λ c h. omega (
    arith,
    length-append {0} (point.write c.commitment) (point.write c.handle),
    (array-IsLawful 32).sizes _ h.commitment,
    (array-IsLawful 32).sizes _ h.handle,
  );
  writes_bytes = λ c h.
      All-append IsByte (point.write c.commitment) _
        ((array-IsLawful 32).writes_bytes _ h.commitment)
        ((array-IsLawful 32).writes_bytes _ h.handle);
}

pub ciphertext-IsStrict : IsStrict ciphertext IsCiphertext
unfolding write_ciphertext read_ciphertext
ciphertext-IsStrict = record {
  yields = Yields-bind (array-IsStrict 32).yields λ c xs h.
      Yields-bind (array-IsStrict 32).yields λ d ys k.
        Yields-pure _ (record { commitment = h.0; handle = k.0 }, simp (h.1, k.1, append-nil));
}

module _ (curve : Curve) where
  open curve use {Ciphertext}

  unfoldable pub write_cache : CiphertextCache Ciphertext → List ℕ
  write_cache cache = ciphertext.write (compress_cache curve cache)

  unfoldable pub read_cache : Read (CiphertextCache Ciphertext)
  read_cache = do c ← ciphertext.read; pure (compressed c)

  unfoldable pub size_cache : CiphertextCache Ciphertext → ℕ
  size_cache _ = ristretto_compressed_size + ristretto_compressed_size

  abbrev pub cache : Serializer (CiphertextCache Ciphertext)
  cache = record { write = write_cache; read = read_cache; size = size_cache }

  -- The form in which a cache is read back; `PartialEq` cannot tell the two apart.
  unfoldable pub normal : CiphertextCache Ciphertext → CiphertextCache Ciphertext
  normal c = compressed (compress_cache curve c)

  -- A cache is read back in compressed form.
  pub Reads-cache :
      (c : CiphertextCache Ciphertext)
      → IsCiphertext (compress_cache curve c)
      → Reads read_cache (write_cache c) (normal c)
  unfolding read_cache write_cache normal
  Reads-cache c h =
      Reads-eq (Reads-bind _ (ciphertext-IsLawful.reads _ h) (Reads-pure _)) (append-nil _)

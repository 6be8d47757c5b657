-- ===== src/Account/Cache.antt =====
-- xelis_common/src/account/mod.rs: a ciphertext that is compressed and decompressed on demand.
-- The points of the curve and their compression belong to a library: they are the parameter `Curve`.
pub mod View
pub mod Codec
use blockchain_xelis.Prelude.{ℕ, ◌≡◌, Bool, true, false, List, Result, ok, err, if◌then◌else◌}

-- `CompressedCiphertext`: two compressed points of 32 bytes.
pub record CompressedCiphertext : Type 0 where
  pub commitment : List ℕ
  pub handle : List ℕ

-- `DecompressionError`
pub data DecompressionError : Type 0 where
  decompression_failed : DecompressionError

-- Ciphertexts, with what the code relies on: a compressed ciphertext decompresses to itself, and only
-- the canonical compression of a ciphertext decompresses.
pub record Curve : Type 1 where
  pub Ciphertext : Type 0
  pub compress : Ciphertext → CompressedCiphertext
  pub decompress : CompressedCiphertext → Result DecompressionError Ciphertext
  pub zero : Ciphertext
  pub add_scalar : Ciphertext → ℕ → Ciphertext
  pub decompress_compress : (e : Ciphertext) → decompress (compress e) ≡ ok e
  pub compress_decompress :
      (c : CompressedCiphertext) (e : Ciphertext) → decompress c ≡ ok e → compress e ≡ c

-- The flag of `both` says that the ciphertext may have changed since it was compressed.
pub data CiphertextCache (E : Type 0) : Type 0 where
  compressed : CompressedCiphertext → CiphertextCache E
  decompressed : E → CiphertextCache E
  both : CompressedCiphertext → E → Bool → CiphertextCache E

-- The state after a call and what it returned; an error leaves the state alone.
abbrev pub Outcome {ℓ} : Type 0 → Type ℓ → Type ℓ
Outcome E A = Result DecompressionError (CiphertextCache E × A)

module _ (curve : Curve) where
  open curve use {Ciphertext, compress, decompress}

  -- The ciphertext that the caller may change: what it writes goes in by `store`.
  unfoldable pub computable : CiphertextCache Ciphertext → Outcome Ciphertext Ciphertext
  computable (compressed c) = elim (decompress c) [ ok e ↦ ok (decompressed e, e) | err x ↦ err x ]
  computable (decompressed e) = ok (decompressed e, e)
  computable (both c e dirty) = ok (both c e true, e)

  -- A write through the reference that `computable` returned.
  unfoldable pub store : CiphertextCache Ciphertext → Ciphertext → CiphertextCache Ciphertext
  store (compressed c) e' = compressed c
  store (decompressed e) e' = decompressed e'
  store (both c e dirty) e' = both c e' dirty

  -- `compress`, which leaves the cache as it is.
  unfoldable pub compress_cache : CiphertextCache Ciphertext → CompressedCiphertext
  compress_cache (compressed c) = c
  compress_cache (decompressed e) = compress e
  compress_cache (both c e dirty) = if dirty then compress e else c

  -- The method `compressed`.
  unfoldable pub as_compressed :
      CiphertextCache Ciphertext → CiphertextCache Ciphertext × CompressedCiphertext
  as_compressed (compressed c) = (compressed c, c)
  as_compressed (decompressed e) = (both (compress e) e false, compress e)
  as_compressed (both c d dirty) = let c' = if dirty then compress d else c in (both c' d dirty, c')

  -- The method `decompressed`.
  unfoldable pub as_decompressed : CiphertextCache Ciphertext → Outcome Ciphertext Ciphertext
  as_decompressed (compressed c) = elim (decompress c) [
    | ok e ↦ ok (both c e false, e)
    | err x ↦ err x
  ]
  as_decompressed (decompressed e) = ok (decompressed e, e)
  as_decompressed (both c e dirty) = ok (both c e dirty, e)

  -- The method `both`.
  unfoldable pub as_both :
      CiphertextCache Ciphertext → Outcome Ciphertext (CompressedCiphertext × Ciphertext)
  as_both (both c e dirty) =
      let c' = if dirty then compress e else c in ok (both c' e dirty, (c', e))
  as_both (compressed c) = elim (decompress c) [
    | ok e ↦ ok (both c e false, (c, e))
    | err x ↦ err x
  ]
  as_both (decompressed e) = ok (both (compress e) e false, (compress e, e))

  unfoldable pub take_ciphertext : CiphertextCache Ciphertext → Result DecompressionError Ciphertext
  take_ciphertext (compressed c) = decompress c
  take_ciphertext (decompressed e) = ok e
  take_ciphertext (both c e dirty) = ok e

-- ===== src/Account/Cache/View.antt =====
-- What a cache of xelis_common/src/account/mod.rs stands for: the ciphertext that `take_ciphertext` gives.
use blockchain_xelis.Prelude.{◌≡◌, refl, sym, Result-cases, inl, inr, true, false, ok, err, arith}
use blockchain_xelis.Account.Cache.{
  Curve, CiphertextCache, compressed, decompressed, both, computable, store, compress_cache,
  as_compressed, as_decompressed, as_both, take_ciphertext, CompressedCiphertext, Outcome,
}

state_of {ℓ} :
    {E : Type 0} {A : Type ℓ} {s t : CiphertextCache E} {a b : A}
    → Path (Outcome E A) (ok (s, a)) (ok (t, b))
    → s ≡ t
state_of h = cc

module _ (curve : Curve) where
  open curve use {Ciphertext, compress, decompress, compress_decompress, decompress_compress}

  -- A clean copy is the compression of its ciphertext.
  abbrev pub IsFresh : CiphertextCache Ciphertext → Type 0
  IsFresh (both c e dirty) = dirty ≡ false → compress e ≡ c
  IsFresh _ = Unit

  -- The state after a call stands for the same ciphertext, and is fresh.
  abbrev pub Keeps {ℓ} :
      {A : Type ℓ} → CiphertextCache Ciphertext → Outcome Ciphertext A → (A → Type 0) → Type 0
  Keeps cache (ok (cache', a)) P =
      IsFresh cache' × (take_ciphertext curve cache' ≡ take_ciphertext curve cache) × P a
  Keeps cache (err x) P = take_ciphertext curve cache ≡ err x

  -- A fresh cache compresses to the compression of the ciphertext that it stands for.
  pub compress_cache_lem :
      (cache : CiphertextCache Ciphertext) (e : Ciphertext)
      → IsFresh cache
      → take_ciphertext curve cache ≡ ok e
      → compress_cache curve cache ≡ compress e
  unfolding take_ciphertext compress_cache
  compress_cache_lem (compressed c) e f t = sym (compress_decompress c e t)
  compress_cache_lem (decompressed e') e f t = cc
  compress_cache_lem (both c e' dirty) e f t = ground arith

  computable_keeps :
      (cache : CiphertextCache Ciphertext)
      → IsFresh cache
      → Keeps cache (computable curve cache) (λ e. take_ciphertext curve cache ≡ ok e)
  unfolding computable take_ciphertext
  computable_keeps (compressed c) f = elim (Result-cases (decompress c)) [
    | inl (e, h) ↦ rw (h, computable) (tt, sym h, refl)
    | inr (x, h) ↦ rw (h, computable) h
  ]
  computable_keeps (decompressed e) f = (tt, refl, refl)
  computable_keeps (both c e dirty) f = ((λ h. cc), refl, refl)

  as_decompressed_keeps :
      (cache : CiphertextCache Ciphertext)
      → IsFresh cache
      → Keeps cache (as_decompressed curve cache) (λ e. take_ciphertext curve cache ≡ ok e)
  unfolding as_decompressed take_ciphertext
  as_decompressed_keeps (compressed c) f = elim (Result-cases (decompress c)) [
    | inl (e, h) ↦ rw (h, as_decompressed) ((λ _. compress_decompress c e h), sym h, refl)
    | inr (x, h) ↦ rw (h, as_decompressed) h
  ]
  as_decompressed_keeps (decompressed e) f = (tt, refl, refl)
  as_decompressed_keeps (both c e dirty) f = (f, refl, refl)

  -- The two forms that a call returned are those of the ciphertext of the cache.
  abbrev pub Forms : CiphertextCache Ciphertext → CompressedCiphertext × Ciphertext → Type 0
  Forms cache forms = (take_ciphertext curve cache ≡ ok forms.1) × (forms.0 ≡ compress forms.1)

  as_both_keeps :
      (cache : CiphertextCache Ciphertext)
      → IsFresh cache
      → Keeps cache (as_both curve cache) (Forms cache)
  unfolding as_both take_ciphertext
  as_both_keeps (compressed c) f = elim (Result-cases (decompress c)) [
    | inl (e, h) ↦
        rw (h, as_both)
          ((λ _. compress_decompress c e h), sym h, (h, sym (compress_decompress c e h)))
    | inr (x, h) ↦ rw (h, as_both) h
  ]
  as_both_keeps (decompressed e) f = ((λ _. refl), refl, (refl, refl))
  as_both_keeps (both c e true) f = ((λ h. cc), refl, (refl, refl))
  as_both_keeps (both c e false) f = (f, refl, (refl, sym (f refl)))

  as_compressed_keeps :
      (cache : CiphertextCache Ciphertext)
      → IsFresh cache
      → Keeps cache (ok (as_compressed curve cache)) (λ c. c ≡ compress_cache curve cache)
  unfolding as_compressed take_ciphertext compress_cache
  as_compressed_keeps (compressed c) f = (tt, refl, refl)
  as_compressed_keeps (decompressed e) f = ((λ _. refl), refl, refl)
  as_compressed_keeps (both c e true) f = ((λ h. cc), refl, refl)
  as_compressed_keeps (both c e false) f = (f, refl, refl)

  -- Each of the four calls on a fresh cache leaves it fresh and standing for the same ciphertext,
  -- and returns that ciphertext, its compression, or both; a call fails only if the cache holds
  -- nothing but a compressed form that does not decompress.
  pub calls_keep :
      (cache : CiphertextCache Ciphertext)
      → IsFresh cache
      → Keeps cache (computable curve cache) (λ e. take_ciphertext curve cache ≡ ok e)
        × Keeps cache (as_decompressed curve cache) (λ e. take_ciphertext curve cache ≡ ok e)
        × Keeps cache (as_both curve cache) (Forms cache)
        × Keeps cache (ok (as_compressed curve cache)) (λ c. c ≡ compress_cache curve cache)
  calls_keep cache f = (
    computable_keeps cache f,
    as_decompressed_keeps cache f,
    as_both_keeps cache f,
    as_compressed_keeps cache f,
  )

  store-IsFresh :
      (cache cache' : CiphertextCache Ciphertext) (e e' : Ciphertext)
      → computable curve cache ≡ ok (cache', e)
      → IsFresh (store curve cache' e') × (take_ciphertext curve (store curve cache' e') ≡ ok e')
  unfolding computable store take_ciphertext
  store-IsFresh (compressed c) cache' e e' h = elim (Result-cases (decompress c)) [
    | inl (a, g) ↦ rw (← state_of (rw (g, computable) at h)) (tt, refl)
    | inr (x, g) ↦ let bad = rw (g, computable) at h in cc
  ]
  store-IsFresh (decompressed a) cache' e e' h = rw (← state_of h) (tt, refl)
  store-IsFresh (both c a dirty) cache' e e' h = rw (← state_of h) ((λ g. cc), refl)

  -- After a write through `computable` the cache stands for what was written, whatever was kept
  -- before, and compresses to the compression of it.
  pub compress_cache-store :
      (cache cache' : CiphertextCache Ciphertext) (e e' : Ciphertext)
      → computable curve cache ≡ ok (cache', e)
      → (take_ciphertext curve (store curve cache' e') ≡ ok e')
        × (compress_cache curve (store curve cache' e') ≡ compress e')
  compress_cache-store cache cache' e e' h =
      let (f, t) = store-IsFresh cache cache' e e' h in
      (t, compress_cache_lem (store curve cache' e') e' f t)

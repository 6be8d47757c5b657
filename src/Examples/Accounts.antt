-- ===== src/Examples/Accounts.antt =====
-- Versions of an account, on a curve whose points are their own compression.
use blockchain_xelis.Prelude.{
  ◌≡◌, refl, none, some, true, false, [], ◌∷◌, ◌++◌, replicate, arith, ok,
}
use blockchain_xelis.Serializer.Trait.{to_bytes, from_bytes}
use blockchain_xelis.Account.Nonce.{VersionedNonce, IsValid}
use blockchain_xelis.Account.Cache.{
  Curve, CompressedCiphertext, compressed, both, computable, store, compress_cache, as_compressed,
  as_decompressed, as_both, take_ciphertext,
}
use blockchain_xelis.Account.Cache.View.{Keeps, Forms, calls_keep, compress_cache-store}
use blockchain_xelis.Account.Balance.{input, VersionedBalance}
use blockchain_xelis.Account.Balance.Version.{versioned_balance, normal_version, IsVersion}
use blockchain_xelis.Account.Bytes.{version-from-to_bytes}
use blockchain_xelis.Examples.Codec.{replicate-OfLength}

abbrev nonce : VersionedNonce
nonce = record { nonce = 3; previous_topoheight = some 12 }

nonce-IsValid : IsValid nonce
nonce-IsValid = record { nonce = omega arith; previous = omega arith }

abbrev points : CompressedCiphertext
points = record { commitment = replicate 32 1; handle = replicate 32 2 }

abbrev curve : Curve
curve = record {
  Ciphertext = CompressedCiphertext;
  compress = λ e. e;
  decompress = λ c. ok c;
  zero = points;
  add_scalar = λ e n. e;
  decompress_compress = λ e. refl;
  compress_decompress = λ c e h. cc;
}

calls_keep_example :
    Keeps curve
      (compressed points)
      (computable curve (compressed points))
      (λ e. take_ciphertext curve (compressed points) ≡ ok e)
    × Keeps curve
        (compressed points)
        (as_decompressed curve (compressed points))
        (λ e. take_ciphertext curve (compressed points) ≡ ok e)
    × Keeps curve
        (compressed points)
        (as_both curve (compressed points))
        (Forms curve (compressed points))
    × Keeps curve
        (compressed points)
        (ok (as_compressed curve (compressed points)))
        (λ c. c ≡ compress_cache curve (compressed points))
calls_keep_example = calls_keep curve (compressed points) tt

abbrev other : CompressedCiphertext
other = record { commitment = replicate 32 3; handle = replicate 32 4 }

compress_cache-store_example :
    (take_ciphertext curve (store curve (both points points true) other) ≡ ok other)
    × (compress_cache curve (store curve (both points points true) other) ≡ other)
unfolding computable
compress_cache-store_example =
    compress_cache-store curve (both points points false) (both points points true) points other
      refl

abbrev version : VersionedBalance CompressedCiphertext
version = record {
  previous_topoheight = some 4;
  output_balance = none;
  final_balance = both points other true;
  balance_type = input;
}

version-IsVersion : IsVersion curve version
unfolding compress_cache
version-IsVersion = record {
  previous = omega arith;
  final = record {
    commitment = replicate-OfLength 32 3 (omega arith);
    handle = replicate-OfLength 32 4 (omega arith);
  };
  output = tt;
}

version-from-to_bytes_example :
    from_bytes (versioned_balance curve) (to_bytes (versioned_balance curve) version ++ 1 ∷ [])
    ≡ ok (normal_version curve version)
version-from-to_bytes_example = version-from-to_bytes curve version (1 ∷ []) version-IsVersion

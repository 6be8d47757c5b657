-- ===== src/Serializer/Arrays.antt =====
-- `[u8; N]` (serializer/defaults.rs) and `Hash` (crypto/hash.rs): the bytes themselves.
use blockchain_xelis.Prelude.{
  ℕ, ◌≡◌, ◌↔◌, refl, sym, Bool, true, false, List, [], ◌∷◌, ◌==◌, ◌&&◌, arith,
}
use blockchain_xelis.Serializer.Reader.{read_bytes}
use blockchain_xelis.Serializer.Reader.Triples.{Reads-bytes, Yields-bytes, Yields-imp, OfLength}
use blockchain_xelis.Serializer.Trait.{Serializer, IsLawful, IsStrict}

-- `HASH_SIZE`
abbrev pub hash_size : ℕ
hash_size = 32

unfoldable pub write_bytes : List ℕ → List ℕ
write_bytes bytes = bytes

abbrev pub array : ℕ → Serializer (List ℕ)
array n = record { write = write_bytes; read = read_bytes n; size = λ _. n }

-- `read_hash` and `write_hash`
abbrev pub hash : Serializer (List ℕ)
hash = array hash_size

pub array-IsLawful : (n : ℕ) → IsLawful (array n) (OfLength n)
unfolding write_bytes
array-IsLawful n = record {
  reads = λ xs v. Reads-bytes n xs v.0;
  sizes = λ xs v. sym v.0;
  writes_bytes = λ xs v. v.1;
}

pub array-IsStrict : (n : ℕ) → IsStrict (array n) (OfLength n)
unfolding write_bytes
array-IsStrict n = record {
  yields = Yields-imp (Yields-bytes n) (λ ys xs h. rw (← h.1) (h.0, refl));
}

-- `==` of two arrays.
unfoldable pub eq_bytes : List ℕ → List ℕ → Bool
eq_bytes [] [] = true
eq_bytes (x ∷ xs) (y ∷ ys) = (x == y) && eq_bytes xs ys
eq_bytes _ _ = false

pub eq_bytes_iff : (xs ys : List ℕ) → (eq_bytes xs ys ≡ true) ↔ (xs ≡ ys)
unfolding eq_bytes
eq_bytes_iff [] [] = ground arith
eq_bytes_iff (x ∷ xs) (y ∷ ys) = ground (arith, eq_bytes_iff xs ys)
eq_bytes_iff [] (y ∷ ys) = ground arith
eq_bytes_iff (x ∷ xs) [] = ground arith

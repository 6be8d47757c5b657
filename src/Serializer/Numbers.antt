-- ===== src/Serializer/Numbers.antt =====
-- Bytes, unsigned numbers and Booleans: `read_u8` and on of reader.rs, `write_u8` and on of
-- writer.rs, and their instances in serializer/defaults.rs.
use blockchain_xelis.Prelude.{
  ℕ, ◌^◌, ◌<◌, ◌≡◌, refl, sym, Bool, true, false, List, [], ◌∷◌, ◌++◌, All, length, arith,
  if◌then◌else◌, ◌==◌,
}
use mathlib.Core.List.{append-nil}
use blockchain_xelis.Serializer.Reader.{
  Read, ◌>>=◌, pure, read_bytes, read_u8, read_bool, bool_of_byte,
}
use blockchain_xelis.Serializer.Reader.Triples.{
  Reads, Reads-eq, Reads-value, Reads-pure, Reads-bind, Reads-bytes, Reads-u8, Yields, Yields-pure,
  Yields-bind, Yields-bytes, Yields-u8, Yields-if, Yields-throw, IsByte,
}
use blockchain_xelis.Serializer.Trait.{Serializer, IsLawful, IsStrict}
use blockchain_xelis.Serializer.Words.{
  to_be_bytes, from_be_bytes, length-to_be_bytes, All-to_be_bytes, from-to_be_bytes,
  from_be_bytes-lt, to-from_be_bytes,
}

-- A number of `n` bytes.
abbrev pub IsWord : ℕ → ℕ → Type 0
IsWord n v = v < 256 ^ n

unfoldable pub read_word : ℕ → Read ℕ
read_word n = do bytes ← read_bytes n; pure (from_be_bytes bytes)

abbrev pub read_u16 : Read ℕ
read_u16 = read_word 2

abbrev pub read_u32 : Read ℕ
read_u32 = read_word 4

abbrev pub read_u64 : Read ℕ
read_u64 = read_word 8

abbrev pub read_u128 : Read ℕ
read_u128 = read_word 16

abbrev pub write_u8 : ℕ → List ℕ
write_u8 v = v ∷ []

abbrev pub write_u16 : ℕ → List ℕ
write_u16 v = to_be_bytes 2 v

abbrev pub write_u32 : ℕ → List ℕ
write_u32 v = to_be_bytes 4 v

abbrev pub write_u64 : ℕ → List ℕ
write_u64 v = to_be_bytes 8 v

abbrev pub write_u128 : ℕ → List ℕ
write_u128 v = to_be_bytes 16 v

abbrev pub write_bool : Bool → List ℕ
write_bool value = (if value then 1 else 0) ∷ []

abbrev pub u8 : Serializer ℕ
u8 = record { write = write_u8; read = read_u8; size = λ v. 1 }

abbrev pub word : ℕ → Serializer ℕ
word n = record { write = to_be_bytes n; read = read_word n; size = λ v. n }

abbrev pub u16 : Serializer ℕ
u16 = record { write = write_u16; read = read_u16; size = λ v. 2 }

abbrev pub u32 : Serializer ℕ
u32 = record { write = write_u32; read = read_u32; size = λ v. 4 }

abbrev pub u64 : Serializer ℕ
u64 = record { write = write_u64; read = read_u64; size = λ v. 8 }

abbrev pub u128 : Serializer ℕ
u128 = record { write = write_u128; read = read_u128; size = λ v. 16 }

abbrev pub bool : Serializer Bool
bool = record { write = write_bool; read = read_bool; size = λ v. 1 }

pub u8-IsLawful : IsLawful u8 IsByte
u8-IsLawful = record {
  reads = λ v h. Reads-u8 v;
  sizes = λ v h. refl;
  writes_bytes = λ v h. (h, tt);
}

pub u8-IsStrict : IsStrict u8 IsByte
u8-IsStrict = record { yields = Yields-u8 }

word_of_bytes :
    (n : ℕ) (ys xs : List ℕ)
    → length xs ≡ n
    → All IsByte xs
    → xs ≡ ys
    → IsWord n (from_be_bytes ys) × (xs ++ [] ≡ to_be_bytes n (from_be_bytes ys))
word_of_bytes n ys xs l b e =
    rw (← e, ← l, append-nil) (from_be_bytes-lt xs b, sym (to-from_be_bytes xs b))

pub Reads-word : (n v : ℕ) → IsWord n v → Reads (read_word n) (to_be_bytes n v) v
unfolding read_word
Reads-word n v h =
    Reads-eq
      (Reads-bind _ (Reads-bytes n _ (length-to_be_bytes n v))
        (Reads-value (Reads-pure _) (from-to_be_bytes n v h)))
      (append-nil _)

pub Yields-word : (n : ℕ) → Yields (read_word n) (λ v xs. IsWord n v × (xs ≡ to_be_bytes n v))
unfolding read_word
Yields-word n =
    Yields-bind (Yields-bytes n) (λ ys xs h. Yields-pure _ (word_of_bytes n ys xs h.0.0 h.0.1 h.1))

pub word-IsLawful : (n : ℕ) → IsLawful (word n) (IsWord n)
word-IsLawful n = record {
  reads = Reads-word n;
  sizes = λ v h. sym (length-to_be_bytes n v);
  writes_bytes = λ v h. All-to_be_bytes n v;
}

pub word-IsStrict : (n : ℕ) → IsStrict (word n) (IsWord n)
word-IsStrict n = record { yields = Yields-word n }

pub Reads-bool : (b : Bool) → Reads read_bool (write_bool b) b
unfolding read_bool
Reads-bool true = Reads-bind bool_of_byte (Reads-u8 1) (unfold bool_of_byte in Reads-pure true)
Reads-bool false = Reads-bind bool_of_byte (Reads-u8 0) (unfold bool_of_byte in Reads-pure false)

pub Yields-bool : Yields read_bool (λ b xs. xs ≡ write_bool b)
unfolding read_bool
Yields-bool = Yields-bind Yields-u8 λ b xs h.
    unfold bool_of_byte in
    Yields-if (b == 0) _ _ (λ z. Yields-pure false (ground arith))
      (λ z. Yields-if (b == 1) _ _ (λ o. Yields-pure true (ground arith)) (λ o. Yields-throw _))

pub bool-IsLawful : IsLawful bool (λ _. Unit {0})
bool-IsLawful = record {
  reads = λ b h. Reads-bool b;
  sizes = λ b h. refl;
  writes_bytes = λ b h. ground arith;
}

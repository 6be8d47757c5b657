-- ===== src/Serializer/Reader.antt =====
-- xelis_common/src/serializer/reader.rs
pub mod Triples
use blockchain_xelis.Prelude.{
  ℕ, ◌+◌, ◌-◌, Bool, true, false, List, Result, ok, err, ltb, ◌==◌, if◌then◌else◌, length, take,
  drop, get_or,
}

-- `ReaderError`; the two variants that wrap a foreign error are built by no code that is modelled.
pub data ReaderError : Type 0 where
  invalid_size invalid_value invalid_hex error_try_into : ReaderError

-- The read-only buffer and the count of bytes that were read.
pub record Reader : Type 0 where
  pub bytes : List ℕ
  pub total : ℕ

-- A deserializer: it consumes bytes and returns a value, or fails.
abbrev pub Read {ℓ} : Type ℓ → Type ℓ
Read A = Reader → Result ReaderError (A × Reader)

infixl 5 ◌>>=◌ ◌>>◌
unfoldable pub ◌>>=◌ {ℓ κ} : {A : Type ℓ} {B : Type κ} → Read A → (A → Read B) → Read B
◌>>=◌ m f r = elim (m r) [ ok (a, r') ↦ f a r' | err e ↦ err e ]

unfoldable pub ◌>>◌ {κ} : {B : Type κ} → Read (Unit {0}) → Read B → Read B
unfolding ◌>>=◌
◌>>◌ m k = m >>= λ _. k

unfoldable pub pure {ℓ} : {A : Type ℓ} → A → Read A
pure a r = ok (a, r)

unfoldable pub throw {ℓ} : {A : Type ℓ} → ReaderError → Read A
throw e r = err e

unfoldable pub new : List ℕ → Reader
new bytes = record { bytes = bytes; total = 0 }

unfoldable pub total_size : Reader → ℕ
total_size r = length r.bytes

-- `total` never passes the length (`Triples.IsSound`), so the subtraction does not underflow.
unfoldable pub size : Reader → ℕ
size r = length r.bytes - r.total

unfoldable pub total_read : Reader → ℕ
total_read r = r.total

-- `self.total += n`
abbrev pub advance : Reader → ℕ → Reader
advance r n = record r { total = r.total + n }

unfoldable pub skip : ℕ → Read (Unit {0})
unfolding size
skip n r = if ltb (size r) n then err invalid_size else ok (tt, advance r n)

-- Into a `Vec<u8>` or into an array of the same length, so that `try_into` succeeds.
unfoldable pub read_bytes : ℕ → Read (List ℕ)
unfolding size
read_bytes n r =
    if ltb (size r) n then err invalid_size else ok (take n (drop r.total r.bytes), advance r n)

-- The index is in range by the test.
unfoldable pub read_u8 : Read ℕ
unfolding size
read_u8 r = if size r == 0 then err invalid_size else ok (get_or r.bytes r.total 0, advance r 1)

unfoldable pub bool_of_byte : ℕ → Read Bool
unfolding pure throw
bool_of_byte byte =
    if byte == 0 then pure false else if byte == 1 then pure true else throw invalid_value

unfoldable pub read_bool : Read Bool
unfolding ◌>>=◌
read_bool = do byte ← read_u8; bool_of_byte byte

-- ===== src/Serializer/Words.antt =====
-- `to_be_bytes` and `from_be_bytes` of an unsigned number of `n` bytes.
use blockchain_xelis.Prelude.{
  ℕ, zero, suc, ◌+◌, ◌*◌, ◌/◌, ◌%◌, ◌^◌, ◌<◌, ◌≡◌, refl, ◌∙◌, List, [], ◌∷◌, ◌++◌, arith, length,
  All, length-append, All-append,
}
use mathlib.Core.List.{foldl, foldl-append, append-nil, append_assoc}
use native.Mathlib.Nat.{pow-suc}

-- The most significant byte first.
unfoldable pub to_be_bytes : ℕ → ℕ → List ℕ
to_be_bytes zero v = []
to_be_bytes (suc n) v = to_be_bytes n (v / 256) ++ (v % 256) ∷ []

abbrev push_byte : ℕ → ℕ → ℕ
push_byte acc b = acc * 256 + b

unfoldable pub from_be_bytes : List ℕ → ℕ
from_be_bytes = foldl push_byte 0

from_be_bytes-snoc :
    (xs : List ℕ) (b : ℕ) → from_be_bytes (xs ++ b ∷ []) ≡ from_be_bytes xs * 256 + b
unfolding from_be_bytes
from_be_bytes-snoc xs b = rw foldl-append

pub length-to_be_bytes : (n v : ℕ) → length (to_be_bytes n v) ≡ n
unfolding to_be_bytes
length-to_be_bytes zero v = refl
length-to_be_bytes (suc n) v = omega (
  arith,
  length-append {0} (to_be_bytes n (v / 256)) ((v % 256) ∷ []),
  length-to_be_bytes n (v / 256),
)

pub All-to_be_bytes : (n v : ℕ) → All (λ b. b < 256) (to_be_bytes n v)
unfolding to_be_bytes
All-to_be_bytes zero v = tt
All-to_be_bytes (suc n) v =
    All-append _ (to_be_bytes n (v / 256)) _ (All-to_be_bytes n (v / 256)) (omega arith)

-- A number below 256 ^ n is rebuilt from its n bytes.
pub from-to_be_bytes : (n v : ℕ) → v < 256 ^ n → from_be_bytes (to_be_bytes n v) ≡ v
unfolding to_be_bytes
from-to_be_bytes zero v h = unfold from_be_bytes in omega arith
from-to_be_bytes (suc n) v h =
    let small : v / 256 < 256 ^ n = omega (arith, pow-suc 256 n) in
    from_be_bytes-snoc (to_be_bytes n (v / 256)) (v % 256)
    ∙ omega (arith, from-to_be_bytes n (v / 256) small)

below :
    (n acc : ℕ) (xs : List ℕ)
    → All (λ b. b < 256) xs
    → acc < 256 ^ n
    → foldl push_byte acc xs < 256 ^ (n + length xs)
below n acc [] h k = let e : n + 0 ≡ n = omega arith in rw e k
below n acc (x ∷ xs) h k =
    let e : n + suc (length xs) ≡ suc n + length xs = omega arith in
    rw e (below (suc n) (acc * 256 + x) xs h.1 (omega (arith, pow-suc 256 n)))

-- `n` bytes make a number below 256 ^ n.
pub from_be_bytes-lt : (xs : List ℕ) → All (λ b. b < 256) xs → from_be_bytes xs < 256 ^ length xs
unfolding from_be_bytes
from_be_bytes-lt xs h =
    let e : 0 + length xs ≡ length xs = omega arith in rw e at (below 0 0 xs h (omega arith))

to-fold_bytes :
    (n acc : ℕ) (xs : List ℕ)
    → All (λ b. b < 256) xs
    → to_be_bytes (n + length xs) (foldl push_byte acc xs) ≡ to_be_bytes n acc ++ xs
to-fold_bytes n acc [] h = let e : n + 0 ≡ n = omega arith in rw (e, append-nil)
to-fold_bytes n acc (x ∷ xs) h =
    let e : n + suc (length xs) ≡ suc n + length xs = omega arith in
    let high : (acc * 256 + x) / 256 ≡ acc = omega arith in
    let low : (acc * 256 + x) % 256 ≡ x = omega arith in
    rw e (
      to-fold_bytes (suc n) (acc * 256 + x) xs h.1
      ∙ unfold to_be_bytes in rw (high, low) (append_assoc (to_be_bytes n acc) (x ∷ []) xs))

-- The bytes of the number that `n` bytes make are these bytes.
pub to-from_be_bytes :
    (xs : List ℕ) → All (λ b. b < 256) xs → to_be_bytes (length xs) (from_be_bytes xs) ≡ xs
unfolding from_be_bytes to_be_bytes
to-from_be_bytes xs h =
    let e : 0 + length xs ≡ length xs = omega arith in rw e at (to-fold_bytes 0 0 xs h)

-- ===== src/Prelude/Keys.antt =====
-- Equality of keys as the code tests it, words of 64 bits, and maps keyed by it.
use Prim.Native.Nat.{ℕ, ◌^◌}
use mathlib.Core.Path.{◌≡◌, refl}
use mathlib.Core.Logic.{◌↔◌, ◌≢◌}
use mathlib.Core.Bool.{Bool, true, false}
use mathlib.Core.Option.{Option}
use native.Mathlib.Omega.{arith}
use blockchain_xelis.Prelude.Tests.{if◌then◌else◌, nat_beq, ==_iff}

-- `PartialEq` that decides equality.
pub record Eq {ℓ} (A : Type ℓ) : Type ℓ where
  pub beq : A → A → Bool
  pub beq_iff : (a b : A) → (beq a b ≡ true) ↔ (a ≡ b)

instance abbrev pub nat_eq : Eq ℕ
nat_eq = record { beq = nat_beq; beq_iff = ==_iff }

module _ {ℓ} {A : Type ℓ} ⦃e : Eq A⦄ where
  pub beq_refl : (a : A) → e.beq a a ≡ true
  beq_refl a = (e.beq_iff a a).1 refl

  pub beq_ne : (a b : A) → a ≢ b → e.beq a b ≡ false
  beq_ne a b h = ground (arith, e.beq_iff a b)

-- A hash map, by what it holds at each key.
module _ {ℓ κ} {K : Type ℓ} {V : Type κ} ⦃e : Eq K⦄ where
  -- `insert(key, value)` with `some value`, `remove(key)` with `none`.
  abbrev pub update : (K → Option V) → K → Option V → K → Option V
  update m key value k = if e.beq k key then value else m k

-- 2 ^ 64, and the arithmetic of `u64`.
abbrev pub u64_mod : ℕ
u64_mod = 2 ^ 64

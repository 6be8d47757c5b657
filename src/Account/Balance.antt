-- ===== src/Account/Balance.antt =====
-- xelis_common/src/account/balance.rs: the versions of an encrypted balance.
pub mod Codec
pub mod Version
use blockchain_xelis.Prelude.{ℕ, Bool, true, false, not, Option, none, some, Result, ok, err}
use blockchain_xelis.Account.Cache.{
  Curve, CiphertextCache, compressed, decompressed, CompressedCiphertext, DecompressionError,
  computable, store,
}

-- Whether a version received funds, spent them, or did both.
pub data BalanceType : Type 0 where
  input output both : BalanceType

unfoldable pub contains_output : BalanceType → Bool
contains_output input = false
contains_output output = true
contains_output both = true

-- `contains_input` tests `balance_type != Output`.
unfoldable pub contains_input : BalanceType → Bool
contains_input output = false
contains_input input = true
contains_input both = true

-- `E` is the type of ciphertexts.
pub record VersionedBalance (E : Type 0) : Type 0 where
  pub previous_topoheight : Option ℕ
  pub output_balance : Option (CiphertextCache E)
  pub final_balance : CiphertextCache E
  pub balance_type : BalanceType

pub record Balance (E : Type 0) : Type 0 where
  pub topoheight : ℕ
  pub output_balance : Option (CiphertextCache E)
  pub final_balance : CiphertextCache E
  pub balance_type : BalanceType

pub record AccountSummary : Type 0 where
  pub output_topoheight : Option ℕ
  pub stable_topoheight : ℕ

module _ {E : Type 0} where
  unfoldable pub new : CiphertextCache E → Option ℕ → VersionedBalance E
  new final_balance previous_topoheight = record {
    previous_topoheight = previous_topoheight;
    output_balance = none;
    final_balance = final_balance;
    balance_type = input;
  }

  unfoldable pub prepare_new : VersionedBalance E → Option ℕ → VersionedBalance E
  prepare_new v previous_topoheight = record v {
    previous_topoheight = previous_topoheight;
    output_balance = none;
    balance_type = input;
  }

  unfoldable pub take_balance_with : VersionedBalance E → Bool → CiphertextCache E
  take_balance_with v true = elim v.output_balance [
    | some balance ↦ balance
    | none ↦ v.final_balance
  ]
  take_balance_with v false = v.final_balance

  -- The balance that may be changed, and whether it is the output balance.
  unfoldable pub select_balance : VersionedBalance E → Bool → CiphertextCache E × Bool
  select_balance v true = elim v.output_balance [
    | some balance ↦ (balance, true)
    | none ↦ (v.final_balance, false)
  ]
  select_balance v false = (v.final_balance, false)

  unfoldable pub set_output_balance :
      VersionedBalance E → Option (CiphertextCache E) → VersionedBalance E
  set_output_balance v value = record v { output_balance = value }

  unfoldable pub set_compressed_balance :
      VersionedBalance E → CompressedCiphertext → VersionedBalance E
  set_compressed_balance v value = record v { final_balance = compressed value }

  unfoldable pub set_balance : VersionedBalance E → CiphertextCache E → VersionedBalance E
  set_balance v value = record v { final_balance = value }

  unfoldable pub set_previous_topoheight : VersionedBalance E → Option ℕ → VersionedBalance E
  set_previous_topoheight v topoheight = record v { previous_topoheight = topoheight }

  unfoldable pub set_balance_type : VersionedBalance E → BalanceType → VersionedBalance E
  set_balance_type v balance_type = record v { balance_type = balance_type }

  unfoldable pub as_balance : VersionedBalance E → ℕ → Balance E
  as_balance v topoheight = record {
    topoheight = topoheight;
    output_balance = v.output_balance;
    final_balance = v.final_balance;
    balance_type = v.balance_type;
  }

  unfoldable pub as_version : Balance E → ℕ × VersionedBalance E
  as_version b = (
    b.topoheight,
    record {
      previous_topoheight = none;
      output_balance = b.output_balance;
      final_balance = b.final_balance;
      balance_type = b.balance_type;
    },
  )

module _ (curve : Curve) where
  open curve use {Ciphertext, add_scalar}

  unfoldable pub zero_balance : VersionedBalance Ciphertext
  unfolding new
  zero_balance = new (decompressed curve.zero) none

  -- `*self.final_balance.computable()? += value`
  unfoldable pub add_plaintext_to_balance :
      VersionedBalance Ciphertext → ℕ → Result DecompressionError (VersionedBalance Ciphertext)
  unfolding computable store
  add_plaintext_to_balance v value = elim (computable curve v.final_balance) [
    | ok (final_balance, e) ↦
        ok (record v { final_balance = store curve final_balance (add_scalar e value) })
    | err x ↦ err x
  ]

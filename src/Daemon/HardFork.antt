-- ===== src/Daemon/HardFork.antt =====
-- Hard forks: xelis_daemon/src/core/hard_fork.rs, with the tables of xelis_daemon/src/config.rs. The
-- `semver` crate's test of a version against a requirement is a parameter.
pub mod Versions
use blockchain_xelis.Prelude.{
  ℕ, ◌*◌, Bool, true, false, List, [], ◌∷◌, Option, none, some, leb, ◌==◌, if◌then◌else◌, String,
  Result, ok, err, Eq,
}
use blockchain_xelis.Block.Version.{
  BlockVersion, v0, v1, v2, v3, TxVersion, is_tx_version_allowed, discriminant,
}
use blockchain_xelis.Daemon.Rewards.{block_time_millis}

-- `Network` of xelis_common/src/network.rs
pub data Network : Type 0 where
  mainnet testnet dev : Network

pub data Algorithm : Type 0 where
  xelis_v1 xelis_v2 : Algorithm

pub record HardFork : Type 0 where
  pub height : ℕ
  pub version : BlockVersion
  pub changelog : String
  pub version_requirement : Option String

abbrev pub hard_forks : List HardFork
hard_forks =
    record { height = 0; version = v0; changelog = "Initial version"; version_requirement = none }
    ∷ record {
      height = 434_100;
      version = v1;
      changelog = "xelis-hash v2";
      version_requirement = some ">=1.13.0";
    }
    ∷ record {
      height = 1_376_000;
      version = v2;
      changelog = "MultiSig, P2P";
      version_requirement = some ">=1.16.0";
    }
    ∷ []

abbrev pub testnet_hard_forks : List HardFork
testnet_hard_forks =
    record { height = 0; version = v0; changelog = "Initial version"; version_requirement = none }
    ∷ record {
      height = 5;
      version = v1;
      changelog = "xelis-hash v2";
      version_requirement = some ">=1.13.0";
    }
    ∷ record {
      height = 10;
      version = v2;
      changelog = "MultiSig, P2P";
      version_requirement = some ">=1.16.0";
    }
    ∷ record {
      height = 15;
      version = v3;
      changelog = "Smart Contracts";
      version_requirement = some ">=1.16.0";
    }
    ∷ []

unfoldable pub get_hard_forks : Network → List HardFork
get_hard_forks mainnet = hard_forks
get_hard_forks testnet = testnet_hard_forks
get_hard_forks dev = testnet_hard_forks

-- The loop of `get_hard_fork_at_height`: it stops at the first fork that is not reached.
unfoldable pub last_reached : List HardFork → ℕ → Option HardFork → Option HardFork
last_reached [] height hardfork = hardfork
last_reached (conf ∷ rest) height hardfork =
    let next = last_reached rest height (some conf) in
    if leb conf.height height then next else hardfork

unfoldable pub get_hard_fork_at_height : Network → ℕ → Option HardFork
unfolding last_reached get_hard_forks
get_hard_fork_at_height network height = last_reached (get_hard_forks network) height none

unfoldable pub has_hard_fork_at_height : Network → ℕ → Bool × BlockVersion
unfolding get_hard_fork_at_height
has_hard_fork_at_height network height = elim (get_hard_fork_at_height network height) [
  | some hard_fork ↦ (hard_fork.height == height, hard_fork.version)
  | none ↦ (false, v0)
]

unfoldable pub get_version_at_height : Network → ℕ → BlockVersion
unfolding has_hard_fork_at_height
get_version_at_height network height = (has_hard_fork_at_height network height).1

unfoldable pub get_pow_algorithm_for_version : BlockVersion → Algorithm
get_pow_algorithm_for_version BlockVersion.v0 = xelis_v1
get_pow_algorithm_for_version _ = xelis_v2

unfoldable pub any_enabled : List HardFork → ℕ → BlockVersion → Bool
unfolding discriminant
any_enabled [] height version = false
any_enabled (hard_fork ∷ rest) height version =
    let later = any_enabled rest height version in
    if leb hard_fork.height height
    then (if discriminant hard_fork.version == discriminant version then true else later)
    else later

unfoldable pub is_version_enabled_at_height : Network → ℕ → BlockVersion → Bool
unfolding any_enabled get_hard_forks
is_version_enabled_at_height network height version =
    any_enabled (get_hard_forks network) height version

unfoldable pub is_tx_version_allowed_in_block_version : TxVersion → BlockVersion → Bool
unfolding is_tx_version_allowed
is_tx_version_allowed_in_block_version tx_version block_version =
    is_tx_version_allowed block_version tx_version

module _ {Error : Type 0}
    (is_version_matching_requirement : String → String → Result Error Bool) where
  -- The loop of `is_version_allowed_at_height`: every fork reached whose requirement is not met refuses.
  unfoldable pub all_allowed : List HardFork → ℕ → String → Result Error Bool
  all_allowed [] height version = ok true
  all_allowed (hard_fork ∷ rest) height version =
      let later = all_allowed rest height version in
      elim hard_fork.version_requirement [
        | none ↦ later
        | some req ↦
            if leb hard_fork.height height
            then elim (is_version_matching_requirement version req) [
              | err e ↦ err e
              | ok matching ↦ if matching then later else ok false
            ]
            else later
      ]

  unfoldable pub is_version_allowed_at_height : Network → ℕ → String → Result Error Bool
  unfolding all_allowed get_hard_forks
  is_version_allowed_at_height network height version =
      all_allowed (get_hard_forks network) height version

abbrev pub mainnet_minimum_difficulty : ℕ
mainnet_minimum_difficulty = block_time_millis * 20

abbrev pub other_minimum_difficulty : ℕ
other_minimum_difficulty = block_time_millis * 2

unfoldable pub get_minimum_difficulty : Network → ℕ
get_minimum_difficulty mainnet = mainnet_minimum_difficulty
get_minimum_difficulty _ = other_minimum_difficulty

unfoldable pub get_difficulty_at_hard_fork : Network → BlockVersion → ℕ
get_difficulty_at_hard_fork mainnet BlockVersion.v0 = mainnet_minimum_difficulty
get_difficulty_at_hard_fork mainnet BlockVersion.v1 = mainnet_minimum_difficulty
get_difficulty_at_hard_fork mainnet _ = mainnet_minimum_difficulty * 100_000
get_difficulty_at_hard_fork _ block_version = other_minimum_difficulty

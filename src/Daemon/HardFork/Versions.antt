-- ===== src/Daemon/HardFork/Versions.antt =====
-- Versions by height (xelis_daemon/src/core/hard_fork.rs).
use blockchain_xelis.Prelude.{
  ℕ, ◌+◌, ◌≤◌, ◌≡◌, ◌↔◌, ◌≢◌, Bool, true, arith, leb, List, [], ◌∷◌, String, Result, ok, refl,
}
use blockchain_xelis.Block.Version.{BlockVersion, v0, v1, v2, v3, discriminant}
use blockchain_xelis.Daemon.HardFork.{
  Network, mainnet, testnet, dev, get_version_at_height, is_version_enabled_at_height,
  has_hard_fork_at_height, HardFork, all_allowed, is_version_allowed_at_height,
  get_difficulty_at_hard_fork, get_minimum_difficulty, get_hard_forks,
}

-- The version never goes back as the height grows.
get_version_at_height_monotone :
    (network : Network) (a b : ℕ)
    → a ≤ b
    → discriminant (get_version_at_height network a)
      ≤ discriminant (get_version_at_height network b)
unfolding get_version_at_height discriminant
get_version_at_height_monotone mainnet a b h = ground arith
get_version_at_height_monotone testnet a b h = ground arith
get_version_at_height_monotone dev a b h = ground arith

-- A version is enabled at a height exactly when it is not above the version of that height.
pub is_version_enabled_at_height_lem :
    (network : Network) (height : ℕ) (version : BlockVersion)
    → is_version_enabled_at_height network height version
      ≡ leb (discriminant version) (discriminant (get_version_at_height network height))
unfolding is_version_enabled_at_height get_version_at_height discriminant
is_version_enabled_at_height_lem mainnet height v0 = ground arith
is_version_enabled_at_height_lem mainnet height v1 = ground arith
is_version_enabled_at_height_lem mainnet height v2 = ground arith
is_version_enabled_at_height_lem mainnet height v3 = ground arith
is_version_enabled_at_height_lem testnet height v0 = ground arith
is_version_enabled_at_height_lem testnet height v1 = ground arith
is_version_enabled_at_height_lem testnet height v2 = ground arith
is_version_enabled_at_height_lem testnet height v3 = ground arith
is_version_enabled_at_height_lem dev height v0 = ground arith
is_version_enabled_at_height_lem dev height v1 = ground arith
is_version_enabled_at_height_lem dev height v2 = ground arith
is_version_enabled_at_height_lem dev height v3 = ground arith

-- `has_hard_fork_at_height` announces a fork at a height above 0 exactly when the version there differs
-- from the version one below.
has_hard_fork_at_height_iff :
    (network : Network) (height : ℕ)
    → ((has_hard_fork_at_height network (height + 1)).0 ≡ true) ↔ (
        discriminant (get_version_at_height network height)
        ≢ discriminant (get_version_at_height network (height + 1)))
unfolding get_version_at_height has_hard_fork_at_height discriminant
has_hard_fork_at_height_iff mainnet height = ground arith
has_hard_fork_at_height_iff testnet height = ground arith
has_hard_fork_at_height_iff dev height = ground arith

-- The difficulty that a fork starts from is never below the network's minimum.
pub get_difficulty_at_hard_fork_bounds :
    (network : Network) (version : BlockVersion)
    → get_minimum_difficulty network ≤ get_difficulty_at_hard_fork network version
unfolding get_minimum_difficulty get_difficulty_at_hard_fork
get_difficulty_at_hard_fork_bounds mainnet v0 = omega arith
get_difficulty_at_hard_fork_bounds mainnet v1 = omega arith
get_difficulty_at_hard_fork_bounds mainnet v2 = omega arith
get_difficulty_at_hard_fork_bounds mainnet v3 = omega arith
get_difficulty_at_hard_fork_bounds testnet version = omega arith
get_difficulty_at_hard_fork_bounds dev version = omega arith

module _ {Error : Type 0} (matches : String → String → Result Error Bool) where
  all_allowed_antitone :
      (forks : List HardFork) (version : String) (a b : ℕ)
      → a ≤ b
      → all_allowed matches forks b version ≡ ok true
      → all_allowed matches forks a version ≡ ok true
  unfolding all_allowed
  all_allowed_antitone [] version a b h allowed = refl
  all_allowed_antitone (fork ∷ rest) version a b h allowed =
      let ih = all_allowed_antitone rest version a b h in ground arith

  -- A software version that is allowed at a height was allowed at every height below it.
  is_version_allowed_at_height_antitone :
      (network : Network) (version : String) (a b : ℕ)
      → a ≤ b
      → is_version_allowed_at_height matches network b version ≡ ok true
      → is_version_allowed_at_height matches network a version ≡ ok true
  unfolding is_version_allowed_at_height
  is_version_allowed_at_height_antitone network version a b h allowed =
      all_allowed_antitone (get_hard_forks network) version a b h allowed

-- ===== src/Examples/Chain.antt =====
-- Rewards, fees, forks and tips at given heights.
use blockchain_xelis.Prelude.{
  ℕ, ◌+◌, ◌-◌, ◌*◌, ◌^◌, ◌≤◌, ◌<◌, ◌≡◌, refl, Bool, true, List, [], ◌∷◌, arith, Result, ok, err,
  String, All, leb,
}
use mathlib.Core.List.Permᴰ.{swap}
use blockchain_xelis.Daemon.Rewards.{get_block_reward, maximum_supply}
use blockchain_xelis.Daemon.Rewards.Emission.{get_block_reward_bounds}
use blockchain_xelis.Block.Version.{v2, discriminant}
use blockchain_xelis.Daemon.HardFork.{testnet, get_version_at_height, is_version_enabled_at_height}
use blockchain_xelis.Daemon.HardFork.Versions.{is_version_enabled_at_height_lem}
use blockchain_xelis.Daemon.BlockDag.{Hash, sort_tips, find_best_tip_by_cumulative_difficulty}
use blockchain_xelis.Daemon.BlockDag.Sets.{IsOneOf}
use blockchain_xelis.Daemon.BlockDag.Tips.{find_best_tip_lem, sort_tips_permuted}

get_block_reward_bounds_example :
    (0 + get_block_reward 0 ≤ maximum_supply)
    × (get_block_reward 0 ≡ 0 → maximum_supply - 0 < 12 * 2 ^ 20)
    × (maximum_supply - 0 < 12 * 2 ^ 20 → get_block_reward 0 ≡ 0)
get_block_reward_bounds_example = get_block_reward_bounds 0 (omega arith)

is_version_enabled_at_height_lem_example :
    is_version_enabled_at_height testnet 7 v2
    ≡ leb (discriminant v2) (discriminant (get_version_at_height testnet 7))
is_version_enabled_at_height_lem_example = is_version_enabled_at_height_lem testnet 7 v2

abbrev matches : String → String → Result ℕ Bool
matches version req = ok true

-- The storage knows a hash by its first byte, and not the empty one.
abbrev value : Hash → ℕ
value [] = 0
value (byte ∷ rest) = byte + 1

abbrev get : Hash → Result ℕ ℕ
get [] = err 0
get (byte ∷ rest) = ok (byte + 1)

abbrev two : List Hash
two = (3 ∷ []) ∷ (9 ∷ []) ∷ []

find_best_tip_lem_example :
    (best : Hash) × (find_best_tip_by_cumulative_difficulty get two ≡ ok best)
    × IsOneOf best two
    × All (λ hash. value hash ≤ value best) two
find_best_tip_lem_example =
    find_best_tip_lem get value (3 ∷ []) ((9 ∷ []) ∷ []) (refl, (refl, tt))
      (omega arith, (omega arith, tt))

sort_tips_permuted_example : sort_tips get two ≡ sort_tips get ((9 ∷ []) ∷ (3 ∷ []) ∷ [])
sort_tips_permuted_example =
    sort_tips_permuted get value (3 ∷ []) (9 ∷ []) (9 ∷ []) (3 ∷ []) [] [] (refl, (refl, tt))
      (swap refl refl)

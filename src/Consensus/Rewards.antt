-- ===== src/Consensus/Rewards.antt =====
-- chia/consensus/block_rewards.py. The source computes with floats, all of them exact: the
-- coefficients are powers of two and 7 / 8, and every product is a whole number of mojos with at
-- most 53 significant bits. So `int` changes nothing, and the model computes in whole mojos.
pub mod Emission
use gold_blockchain.Base.{ℕ, ◌-◌, ◌*◌, ◌/◌, ◌^◌, Bool, ltb, leb, ◌==◌, if◌then◌else◌, Result, ok}
use gold_blockchain.Base.Ints.{uint64}

abbrev pub mojo_per_chia : ℕ
mojo_per_chia = 1000000000000

abbrev pub blocks_per_year : ℕ
blocks_per_year = 1681920

abbrev pub prefarm : ℕ
prefarm = 1000000

abbrev pub reward_hardfork_height : ℕ
reward_hardfork_height = 2 ^ 32 - 1

unfoldable pub reward_hardfork_activated : ℕ → Bool
reward_hardfork_activated height = leb reward_hardfork_height height

unfoldable pub calculate_pool_reward : ℕ → Result ℕ
unfolding reward_hardfork_activated
calculate_pool_reward height =
    if reward_hardfork_activated height
    then ok 0
    else if height == 0
    then uint64 (7 * prefarm * mojo_per_chia / 8)
    else if ltb height (3 * blocks_per_year)
    then uint64 (7 * mojo_per_chia / 8)
    else if ltb height (6 * blocks_per_year)
    then uint64 (7 * mojo_per_chia / 8 / 2)
    else if ltb height (9 * blocks_per_year)
    then uint64 (7 * mojo_per_chia / 8 / 4)
    else uint64 (7 * mojo_per_chia / 8 / 8)

-- `coefficient` in eighths: 1.0 is 8 and 1 / 8 is 1.
unfoldable pub calculate_base_farmer_reward : ℕ → Result ℕ
unfolding reward_hardfork_activated
calculate_base_farmer_reward height =
    let coefficient : ℕ = if reward_hardfork_activated height then 8 else 1 in
    if height == 0
    then uint64 (coefficient * prefarm * mojo_per_chia / 8)
    else if ltb height (3 * blocks_per_year)
    then uint64 (coefficient * mojo_per_chia / 8)
    else if ltb height (6 * blocks_per_year)
    then uint64 (coefficient * mojo_per_chia / 8 / 2)
    else if ltb height (9 * blocks_per_year)
    then uint64 (coefficient * mojo_per_chia / 8 / 4)
    else uint64 (coefficient * mojo_per_chia / 8 / 8)

-- ===== src/Consensus/Rewards/Emission.antt =====
-- What the two rewards of a block come to.
use gold_blockchain.Base.{
  ℕ, zero, suc, ◌+◌, ◌*◌, ◌/◌, ◌^◌, ◌<◌, min, ◌≡◌, refl, arith, ◌==◌, if◌then◌else◌, ==-eq_false,
  Result, ok, ◌>>=◌,
}
use gold_blockchain.Consensus.Rewards.{
  mojo_per_chia, blocks_per_year, prefarm, calculate_pool_reward, calculate_base_farmer_reward,
}

-- The emission by height: the prefarm, and then a coin a block, halved every three years of blocks
-- down to an eighth.
abbrev pub emission : ℕ → ℕ
emission height =
    if height == 0
    then prefarm * mojo_per_chia
    else mojo_per_chia / 2 ^ min 3 (height / (3 * blocks_per_year))

-- Both rewards of a block.
pub total_reward : ℕ → Result ℕ
total_reward height = do
  pool ← calculate_pool_reward height
  farmer ← calculate_base_farmer_reward height
  ok (pool + farmer)

halvings :
    (height k : ℕ)
    → min 3 (height / (3 * blocks_per_year)) ≡ k
    → 0 < height
    → emission height ≡ mojo_per_chia / 2 ^ k
halvings height k e h = rw (==-eq_false height 0 (omega arith), e)

-- At every height both rewards are defined, also from the reward hard fork on, and together they
-- are the emission of the height.
pub total_reward-eq-emission : (height : ℕ) → total_reward height ≡ ok (emission height)
unfolding total_reward calculate_pool_reward calculate_base_farmer_reward
total_reward-eq-emission zero = refl
total_reward-eq-emission (suc n) =
    ground (arith, halvings (suc n) 0, halvings (suc n) 1, halvings (suc n) 2, halvings (suc n) 3)

-- ===== src/Tests/Values.antt =====
-- The computations of one block on single numbers.
use gold_blockchain.Base.{
  ℕ, ◌+◌, ◌*◌, ◌≤◌, ◌<◌, ◌≡◌, refl, ◌↔◌, ◌⊎◌, Bool, true, false, none, some, arith, assertion_error,
  ok, err, Returns,
}
use gold_blockchain.Base.Int.{pos, neg}
use gold_blockchain.Consensus.Constants.{default_constants}
use gold_blockchain.Consensus.SignificantBits.{truncate_to_significant_bits, count_significant_bits}
use gold_blockchain.Consensus.SignificantBits.Truncation.{cleared, IsCount, truncate_lem}
use gold_blockchain.Consensus.PotIterations.{calculate_ip_iters, is_overflow_block}
use gold_blockchain.Consensus.PotIterations.Placement.{
  ip_iters_placement, ip_iters_defined_iff, IsPlaced,
}
use gold_blockchain.Consensus.Deficit.{calculate_deficit}
use gold_blockchain.Consensus.Deficit.Transitions.{calculate_deficit_range, challenge_block_iff}
use gold_blockchain.Consensus.Rewards.Emission.{emission, total_reward, total_reward-eq-emission}
use gold_blockchain.Tests.Chain.{small_block}

truncate_lem_example :
    (truncate_to_significant_bits (pos 1000003) 8 ≡ pos (cleared 1000003 8))
    × (truncate_to_significant_bits (neg 1000003) 8 ≡ neg (cleared 1000003 8))
    × (count_significant_bits (truncate_to_significant_bits (pos 1000003) 8) ≤ 8)
    × (count_significant_bits (truncate_to_significant_bits (neg 1000003) 8) ≤ 8)
    × IsCount 1000003 (count_significant_bits (pos 1000003))
    × IsCount 1000003 (count_significant_bits (neg 1000003))
truncate_lem_example = truncate_lem 1000003 8

placed : calculate_ip_iters default_constants 6400 62 10 ≡ ok 110
unfolding calculate_ip_iters
placed = refl

overflows : is_overflow_block default_constants 62 ≡ ok true
unfolding is_overflow_block
overflows = refl

ip_iters_placement_example : (110 < 6400) × (◌≡◌ {A = ℕ} (110 + 6400) (100 * 65 + 10))
ip_iters_placement_example =
    ip_iters_placement default_constants 6400 62 10 (ground arith) placed overflows

ip_iters_defined_iff_example :
    (calculate_ip_iters default_constants 6400 62 10 ≡ ok 110)
    ↔ IsPlaced default_constants 6400 62 10 110
ip_iters_defined_iff_example = ip_iters_defined_iff default_constants 6400 62 10 110 (ground arith)

calculate_deficit_range_example :
    Returns (calculate_deficit default_constants 8 (some (small_block 7)) false 1) (λ d.
      (d ≤ 16)
      × ((0 < 8) × (0 ≤ d + 1) × (d ≤ 0 ⊎ (◌≡◌ {A = ℕ} 0 0)) ⊎ (◌≡◌ {A = ℕ} 8 0) × (d + 1 ≡ 16)))
    × ((◌≡◌ {A = ℕ} 8 0)
        ⊎ (calculate_deficit default_constants 8 none false 1 ≡ err assertion_error))
calculate_deficit_range_example =
    calculate_deficit_range default_constants 8 (small_block 7) false 1 (ground arith, ground arith)
      (ground arith)

challenge_block_iff_example :
    (calculate_deficit default_constants 8 (some (small_block 7)) false 1 ≡ ok 15) ↔ (
      (◌≡◌ {A = ℕ} 0 16) × ((◌≡◌ {A = Bool} false false) ⊎ (0 < 1))
      ⊎ (◌≡◌ {A = ℕ} 0 0) × ((◌≡◌ {A = Bool} false false) × (0 < 1) ⊎ (1 < 1)))
challenge_block_iff_example =
    challenge_block_iff default_constants 8 (small_block 7) false 1 (ground arith, ground arith)
      (ground arith) (ground arith)

total_reward-eq-emission_example : total_reward 400 ≡ ok (emission 400)
total_reward-eq-emission_example = total_reward-eq-emission 400

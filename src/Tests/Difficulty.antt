-- ===== src/Tests/Difficulty.antt =====
-- The difficulty rules on the small chain.
use gold_blockchain.Base.{
  ◌+◌, ◌*◌, ◌/◌, ◌%◌, ◌^◌, ◌≤◌, ◌<◌, ◌≡◌, refl, ◌⊎◌, true, false, some, [], arith, ok, Returns,
  Gives,
}
use gold_blockchain.Base.Ends.{Ends}
use gold_blockchain.Consensus.Constants.{default_constants}
use gold_blockchain.Consensus.Blocks.Chain.{IsStored}
use gold_blockchain.Consensus.Difficulty.Ancestors.{
  get_blocks_at_height, slow_fetch, get_second_to_last_transaction_block_in_previous_epoch,
}
use gold_blockchain.Consensus.Difficulty.Ancestors.Paths.{segment, get_blocks_at_height-eq-slow}
use gold_blockchain.Consensus.Difficulty.Ancestors.Walks.{get_second_to_last-Gives}
use gold_blockchain.Consensus.Difficulty.Epoch.{
  can_finish_sub_and_full_epoch, height_can_be_first_in_epoch,
}
use gold_blockchain.Consensus.Difficulty.Epoch.Finish.{can_finish_lem}
use gold_blockchain.Consensus.Difficulty.Adjust.{adjust_difficulty, adjust_sub_slot_iters}
use gold_blockchain.Consensus.Difficulty.Adjust.Bounds.{
  adjust_difficulty_bounds, adjust_sub_slot_iters_bounds,
}
use gold_blockchain.Consensus.Difficulty.Rules.{get_next_sub_slot_iters_and_difficulty}
use gold_blockchain.Consensus.Difficulty.Rules.Termination.{next_ssi_and_difficulty-Ends}
use gold_blockchain.Consensus.Difficulty.Rules.SameEpoch.{same_sub_slot_unchanged}
use gold_blockchain.Consensus.BlockRecord.{sp_total_iters}
use gold_blockchain.Tests.Chain.{
  small_constants, small_block, small_chain, small_chain-IsLinked, small_chain-IsMainChain,
}

-- A run over a whole epoch: the blocks come every 20 seconds with 1000 iterations each, so that
-- 600 seconds hold 30000 iterations, more than three times the old ones.
epoch_run :
    get_next_sub_slot_iters_and_difficulty small_constants true (some (small_block 31)) small_chain
    ≡ ok (19200, 6)
unfolding get_next_sub_slot_iters_and_difficulty sp_total_iters
    gold_blockchain.Consensus.PotIterations.calculate_ip_iters
    gold_blockchain.Consensus.Difficulty.Rules.get_next_difficulty
    gold_blockchain.Consensus.Difficulty.Rules.epoch_passed
    gold_blockchain.Consensus.Difficulty.Epoch.no_summary_yet
    gold_blockchain.Consensus.Difficulty.Epoch.finish_at
    gold_blockchain.Consensus.Difficulty.Rules.measured_difficulty
    gold_blockchain.Consensus.Difficulty.Rules.measured_blocks
    gold_blockchain.Consensus.Difficulty.Ancestors.prev_epoch_surpass
    gold_blockchain.Consensus.Difficulty.Ancestors.fetch_around
    gold_blockchain.Consensus.Difficulty.Ancestors.on_main_chain
    gold_blockchain.Consensus.Difficulty.Ancestors.fast_fetch
    gold_blockchain.Consensus.Difficulty.Ancestors.second_to_last_before
    gold_blockchain.Consensus.Difficulty.Adjust.clamp_difficulty
    gold_blockchain.Consensus.Difficulty.Adjust.clamp_sub_slot_iters
    gold_blockchain.Consensus.Difficulty.Adjust.quotient_of_differences
    gold_blockchain.Consensus.Difficulty.Adjust.truncate_difficulty
    gold_blockchain.Consensus.Difficulty.Adjust.truncate_sub_slot_iters
    gold_blockchain.Consensus.Difficulty.Ancestors.backtrack
    gold_blockchain.Consensus.Difficulty.Ancestors.wait_for_slot
    gold_blockchain.Consensus.Difficulty.Epoch.clear_since_sub_epoch
    gold_blockchain.Consensus.Difficulty.Rules.difficulty_of
    gold_blockchain.Consensus.Difficulty.Rules.get_next_sub_slot_iters
    gold_blockchain.Consensus.Difficulty.Rules.last_transaction_block
    gold_blockchain.Consensus.Difficulty.Rules.measured_sub_slot_iters can_finish_sub_and_full_epoch
    height_can_be_first_in_epoch get_second_to_last_transaction_block_in_previous_epoch
    get_blocks_at_height adjust_difficulty adjust_sub_slot_iters slow_fetch
    gold_blockchain.Base.Bits.bit_length gold_blockchain.Base.Bits.bit_and
    gold_blockchain.Consensus.SignificantBits.count_from
    gold_blockchain.Consensus.SignificantBits.count_significant_bits
    gold_blockchain.Consensus.SignificantBits.masked
    gold_blockchain.Consensus.SignificantBits.truncate_to_significant_bits
    gold_blockchain.Consensus.BlockRecord.ip_iters
    gold_blockchain.Consensus.BlockRecord.is_transaction_block
    gold_blockchain.Consensus.BlockRecord.sp_iters
    gold_blockchain.Consensus.BlockRecord.sp_sub_slot_total_iters
    gold_blockchain.Consensus.PotIterations.calculate_sp_iters
    gold_blockchain.Consensus.PotIterations.calculate_sp_interval_iters
epoch_run = refl

next_ssi_and_difficulty-Ends_example : Ends (
    get_next_sub_slot_iters_and_difficulty small_constants true (some (small_block 31)) small_chain)
next_ssi_and_difficulty-Ends_example =
    next_ssi_and_difficulty-Ends small_constants small_chain small_chain-IsLinked true
      (some (small_block 31))

get_blocks_at_height-eq-slow_example :
    (get_blocks_at_height small_chain (small_block 20) 10 4 ≡ ok (segment small_block 10 4))
    × (slow_fetch 21 small_chain (small_block 20) 10 14 [] ≡ ok (segment small_block 10 4))
get_blocks_at_height-eq-slow_example =
    get_blocks_at_height-eq-slow small_chain-IsMainChain 20 10 4 (ground arith) (ground arith)
      (ground arith) (ground arith)

aligned : height_can_be_first_in_epoch small_constants 32 ≡ ok true
unfolding height_can_be_first_in_epoch
aligned = refl

can_finish_lem_example :
    can_finish_sub_and_full_epoch small_constants small_chain 31 (some 31) 0 false ≡ ok (true, true)
can_finish_lem_example =
    can_finish_lem small_constants small_chain-IsMainChain 30 0 false true (ground arith)
      (ground arith) (ground arith) aligned

aligned_again : height_can_be_first_in_epoch small_constants 20 ≡ ok true
unfolding height_can_be_first_in_epoch
aligned_again = refl

sp_found : sp_total_iters (small_block 19) small_constants ≡ ok 25090
unfolding sp_total_iters gold_blockchain.Consensus.PotIterations.calculate_ip_iters
sp_found = refl

same_sub_slot_unchanged_example :
    get_next_sub_slot_iters_and_difficulty small_constants false (some (small_block 19)) small_chain
    ≡ ok (6400, 7)
same_sub_slot_unchanged_example =
    same_sub_slot_unchanged small_constants small_chain-IsMainChain 18 true 25090 (ground arith)
      (ground arith) (ground arith) aligned_again (ground arith) refl sp_found (ground arith)
      (ground arith)

get_second_to_last-Gives_example :
    Gives
      (get_second_to_last_transaction_block_in_previous_epoch small_constants small_chain
        (small_block 31))
      (IsStored small_chain)
get_second_to_last-Gives_example =
    get_second_to_last-Gives small_chain small_chain-IsLinked small_constants (small_block 31)
      (32, refl)

adjust_difficulty_bounds_example :
    Returns
      (adjust_difficulty default_constants 1000 5000)
      (λ d. (0 < d) × (d ≤ 3000) × (333 ≤ 2 * d))
adjust_difficulty_bounds_example =
    adjust_difficulty_bounds default_constants 1000 5000
      (ground arith, ground arith, ground arith, ground arith) (ground arith)

adjust_sub_slot_iters_bounds_example :
    Returns (adjust_sub_slot_iters default_constants (2 ^ 27) 99999999) (λ ssi.
      (ssi % 64 ≡ 0)
      × (ssi ≤ 3 * 2 ^ 27)
      × (2 ^ 27 / 3 < 2 * (ssi + 64))
      × ((2 ^ 27 < 64) ⊎ (64 ≤ ssi)))
adjust_sub_slot_iters_bounds_example =
    adjust_sub_slot_iters_bounds default_constants (2 ^ 27) 99999999 6
      (ground arith, ground arith, ground arith, ground arith) refl (ground arith)

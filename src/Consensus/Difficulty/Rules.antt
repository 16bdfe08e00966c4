-- ===== src/Consensus/Difficulty/Rules.antt =====
-- `_get_next_sub_slot_iters`, `_get_next_difficulty` and `get_next_sub_slot_iters_and_difficulty`.
pub mod Arithmetic
pub mod Termination
pub mod SameEpoch
use gold_blockchain.Base.{
  ℕ, zero, suc, ◌+◌, ◌*◌, Bool, true, false, not, ◌&&◌, ◌||◌, Option, none, some, ltb, ◌==◌,
  if◌then◌else◌, value_error, assertion_error, no_fuel, Result, ok, err, ◌>>=◌, ◌>>◌, guard,
  or_raise,
}
use gold_blockchain.Base.Ints.{uint32, uint64, uint64_sub}
use gold_blockchain.Consensus.Constants.{ConsensusConstants}
use gold_blockchain.Consensus.BlockRecord.{
  BlockRecord, is_transaction_block, is_some, sp_total_iters,
}
use gold_blockchain.Consensus.Blocks.{Blocks}
use gold_blockchain.Consensus.Difficulty.Ancestors.{
  get_second_to_last_transaction_block_in_previous_epoch,
}
use gold_blockchain.Consensus.Difficulty.Epoch.{can_finish_sub_and_full_epoch}
use gold_blockchain.Consensus.Difficulty.Adjust.{
  quotient_of_differences, adjust_difficulty, adjust_sub_slot_iters,
}

-- `while last_block_curr.total_iters > signage_point_total_iters or not ...is_transaction_block`
unfoldable pub last_transaction_block : ℕ → Blocks → BlockRecord → ℕ → Result BlockRecord
last_transaction_block zero blocks curr signage_point_total_iters = err no_fuel
last_transaction_block (suc fuel) blocks curr signage_point_total_iters =
    let rest = (do
      prev ← blocks.block_record curr.prev_hash
      last_transaction_block fuel blocks prev signage_point_total_iters) in
    if ltb signage_point_total_iters curr.total_iters || not (is_transaction_block curr)
    then rest
    else ok curr

-- Whether the epoch check lets a new value in: it is skipped, or there is a new slot and the epoch
-- can finish.
unfoldable pub epoch_passed :
    ConsensusConstants → Blocks → ℕ → ℕ → ℕ → Bool → Bool → Bool → Result Bool
epoch_passed c blocks height prev_header_hash deficit included_ses new_slot skip_epoch_check =
    if skip_epoch_check then ok true else do
      finish ←
          can_finish_sub_and_full_epoch c blocks height (some prev_header_hash) deficit included_ses
      ok (new_slot && finish.1)

-- The two blocks between which the last epoch is measured, the later one first.
unfoldable pub measured_blocks :
    ConsensusConstants → Blocks → BlockRecord → ℕ → Result (BlockRecord × BlockRecord)
measured_blocks c blocks prev_b signage_point_total_iters = do
  last_block_prev ← get_second_to_last_transaction_block_in_previous_epoch c blocks prev_b
  last_block_curr ←
      last_transaction_block (suc prev_b.height) blocks prev_b signage_point_total_iters
  ok (last_block_curr, last_block_prev)

-- New sub-slot iterations from the iterations per second of the last epoch.
unfoldable pub measured_sub_slot_iters : ConsensusConstants → Blocks → BlockRecord → ℕ → Result ℕ
measured_sub_slot_iters c blocks prev_b signage_point_total_iters = do
  (curr, prev) ← measured_blocks c blocks prev_b signage_point_total_iters
  curr_time ← or_raise curr.timestamp assertion_error
  prev_time ← or_raise prev.timestamp assertion_error
  precise ←
      quotient_of_differences c.sub_slot_time_target curr.total_iters prev.total_iters curr_time
        prev_time
  adjust_sub_slot_iters c curr.sub_slot_iters precise

-- A new difficulty from the weight per second of the last epoch.
unfoldable pub measured_difficulty : ConsensusConstants → Blocks → BlockRecord → ℕ → Result ℕ
measured_difficulty c blocks prev_b signage_point_total_iters = do
  (curr, prev) ← measured_blocks c blocks prev_b signage_point_total_iters
  curr_time ← or_raise curr.timestamp assertion_error
  prev_time ← or_raise prev.timestamp assertion_error
  actual_epoch_time ← uint64_sub curr_time prev_time
  before_prev ← blocks.block_record prev_b.prev_hash
  old_difficulty ← uint64_sub prev_b.weight before_prev.weight
  precise ←
      quotient_of_differences c.sub_slot_time_target curr.weight prev.weight
        (c.slot_blocks_target * actual_epoch_time) 0
  adjust_difficulty c old_difficulty precise

unfoldable pub get_next_sub_slot_iters :
    ConsensusConstants → Blocks → ℕ → ℕ → ℕ → ℕ → Bool → Bool → ℕ → Bool → Result ℕ
get_next_sub_slot_iters c blocks prev_header_hash height curr_sub_slot_iters deficit included_ses
      new_slot signage_point_total_iters skip_epoch_check =
    do
      next_height ← uint32 (height + 1)
      if ltb next_height c.epoch_blocks then uint64 c.sub_slot_iters_starting else do
        guard (blocks.contains_block prev_header_hash) value_error
        prev_b ← blocks.block_record prev_header_hash
        passed ←
            epoch_passed c blocks height prev_header_hash deficit included_ses new_slot
              skip_epoch_check
        if not passed
            then ok curr_sub_slot_iters
            else measured_sub_slot_iters c blocks prev_b signage_point_total_iters

unfoldable pub get_next_difficulty :
    ConsensusConstants → Blocks → ℕ → ℕ → ℕ → ℕ → Bool → Bool → ℕ → Bool → Result ℕ
get_next_difficulty c blocks prev_header_hash height current_difficulty deficit included_ses
      new_slot signage_point_total_iters skip_epoch_check =
    do
      next_height ← uint32 (height + 1)
      if ltb (next_height + 3 * c.max_sub_slot_blocks) c.epoch_blocks
          then uint64 c.difficulty_starting
          else do
            guard (blocks.contains_block prev_header_hash) value_error
            prev_b ← blocks.block_record prev_header_hash
            passed ←
                epoch_passed c blocks height prev_header_hash deficit included_ses new_slot
                  skip_epoch_check
            if not passed
                then ok current_difficulty
                else measured_difficulty c blocks prev_b signage_point_total_iters

-- The difficulty of a block, the weight that it adds; a first block's is its whole weight.
unfoldable pub difficulty_of : Blocks → BlockRecord → Result ℕ
difficulty_of blocks b =
    if b.height == 0
    then uint64 b.weight
    else do before ← blocks.block_record b.prev_hash; uint64_sub b.weight before.weight

unfoldable pub get_next_sub_slot_iters_and_difficulty :
    ConsensusConstants → Bool → Option BlockRecord → Blocks → Result (ℕ × ℕ)
unfolding difficulty_of
get_next_sub_slot_iters_and_difficulty c is_first_in_sub_slot none blocks =
    ok (c.sub_slot_iters_starting, c.difficulty_starting)
get_next_sub_slot_iters_and_difficulty c is_first_in_sub_slot (some prev_b) blocks = do
  prev_difficulty ← difficulty_of blocks prev_b
  if is_some prev_b.sub_epoch_summary_included
      then ok (prev_b.sub_slot_iters, prev_difficulty)
      else do
        sp ← sp_total_iters prev_b c
        difficulty ←
            get_next_difficulty c blocks prev_b.prev_hash prev_b.height prev_difficulty
              prev_b.deficit false is_first_in_sub_slot sp false
        sub_slot_iters ←
            get_next_sub_slot_iters c blocks prev_b.prev_hash prev_b.height prev_b.sub_slot_iters
              prev_b.deficit false is_first_in_sub_slot sp false
        ok (sub_slot_iters, difficulty)

-- ===== src/Consensus/Difficulty/Epoch.antt =====
-- `height_can_be_first_in_epoch` and `can_finish_sub_and_full_epoch`.
pub mod Finish
use gold_blockchain.Base.{
  ℕ, zero, suc, ◌+◌, ◌-◌, ◌%◌, Bool, true, false, not, ◌||◌, Option, ltb, ◌==◌, if◌then◌else◌,
  assertion_error, no_fuel, Result, ok, err, ◌>>=◌, ◌>>◌, or_raise,
}
use gold_blockchain.Base.Ints.{uint32}
use gold_blockchain.Consensus.Constants.{ConsensusConstants}
use gold_blockchain.Consensus.PotIterations.{floor_mod}
use gold_blockchain.Consensus.BlockRecord.{BlockRecord, is_some}
use gold_blockchain.Consensus.Blocks.{Blocks}

unfoldable pub height_can_be_first_in_epoch : ConsensusConstants → ℕ → Result Bool
height_can_be_first_in_epoch c height = do
  past ← floor_mod height c.sub_epoch_blocks
  rest ← floor_mod (height - past) c.epoch_blocks
  ok (rest == 0)

-- The walk back to the first height of the sub-epoch, and the test of the block there: whether no
-- block on the way includes a summary. The number of blocks in a sub-epoch is known to be positive.
unfoldable pub clear_since_sub_epoch : ℕ → ConsensusConstants → Blocks → BlockRecord → Result Bool
clear_since_sub_epoch zero c blocks curr = err no_fuel
clear_since_sub_epoch (suc fuel) c blocks curr =
    let rest = (do
      prev ← blocks.block_record curr.prev_hash
      clear_since_sub_epoch fuel c blocks prev) in
    if ltb 0 (curr.height % c.sub_epoch_blocks)
    then if is_some curr.sub_epoch_summary_included then ok false else rest
    else ok (not (is_some curr.sub_epoch_summary_included))

-- Whether no block before the one at the height includes a summary in its sub-epoch.
unfoldable pub no_summary_yet : ConsensusConstants → Blocks → ℕ → ℕ → Result Bool
no_summary_yet c blocks height prev_hash = do
  past ← floor_mod (height + 1) c.sub_epoch_blocks
  if ltb 1 past
      then (do
        curr ← blocks.block_record prev_hash
        clear_since_sub_epoch (suc curr.height) c blocks curr)
      else ok true

-- The last line of `can_finish_sub_and_full_epoch`, where no summary was in the way.
unfoldable pub finish_at : ConsensusConstants → ℕ → Bool → Result (Bool × Bool)
finish_at c height clear =
    if clear
    then (do
      next ← uint32 (height + 1)
      first ← height_can_be_first_in_epoch c next
      ok (true, first))
    else ok (false, false)

unfoldable pub can_finish_sub_and_full_epoch :
    ConsensusConstants → Blocks → ℕ → Option ℕ → ℕ → Bool → Result (Bool × Bool)
can_finish_sub_and_full_epoch c blocks height prev_header_hash deficit included_ses =
    if ltb height (c.sub_epoch_blocks - 1) then ok (false, false) else do
      prev_hash ← or_raise prev_header_hash assertion_error
      if ltb 0 deficit || included_ses
          then ok (false, false)
          else do clear ← no_summary_yet c blocks height prev_hash; finish_at c height clear

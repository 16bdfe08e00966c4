-- ===== src/Consensus/Deficit.antt =====
-- chia/consensus/deficit.py: how many blocks a challenge still lacks.
pub mod Transitions
use gold_blockchain.Base.{
  ℕ, ◌-◌, Bool, Option, ltb, ◌==◌, if◌then◌else◌, value_error, assertion_error, Result, err, ◌>>=◌,
  ◌>>◌, or_raise,
}
use gold_blockchain.Base.Ints.{uint8}
use gold_blockchain.Consensus.Constants.{ConsensusConstants}
use gold_blockchain.Consensus.BlockRecord.{BlockRecord}

-- `uint8(n - 1)`
abbrev one_less : ℕ → Result ℕ
one_less n = if n == 0 then err value_error else uint8 (n - 1)

-- The rest of the function, after the deficit of the previous block has been read.
unfoldable pub next_deficit : ConsensusConstants → ℕ → Bool → ℕ → Result ℕ
next_deficit c prev_deficit overflow num_finished_sub_slots =
    if prev_deficit == c.min_blocks_per_challenge_block
    then if overflow
      then if ltb 0 num_finished_sub_slots then one_less prev_deficit else uint8 prev_deficit
      else one_less prev_deficit
    else if prev_deficit == 0
    then if num_finished_sub_slots == 0
      then uint8 0
      else if num_finished_sub_slots == 1
      then if overflow
        then uint8 c.min_blocks_per_challenge_block
        else one_less c.min_blocks_per_challenge_block
      else one_less c.min_blocks_per_challenge_block
    else one_less prev_deficit

unfoldable pub calculate_deficit : ConsensusConstants → ℕ → Option BlockRecord → Bool → ℕ → Result ℕ
unfolding next_deficit
calculate_deficit c height prev_b overflow num_finished_sub_slots =
    if height == 0 then one_less c.min_blocks_per_challenge_block else do
      prev ← or_raise prev_b assertion_error
      next_deficit c prev.deficit overflow num_finished_sub_slots

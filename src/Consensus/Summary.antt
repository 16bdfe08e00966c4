-- ===== src/Consensus/Summary.antt =====
-- chia/consensus/make_sub_epoch_summary.py: which summary a block's successor includes. The hash of
-- a summary is a parameter; of a block the model has the fields that are read.
pub mod Termination
pub mod Links
use gold_blockchain.Base.{
  ℕ, zero, suc, ◌+◌, ◌%◌, Bool, true, false, not, ◌&&◌, Option, none, some, List, [], ◌∷◌, ltb, leb,
  ◌==◌, if◌then◌else◌, length, get_elem?, assertion_error, index_error, no_fuel, Result, ok, err,
  ◌>>=◌, ◌>>◌, guard, or_raise,
}
use gold_blockchain.Base.Ints.{uint8, uint32, uint64_sub, uint128_sub}
use gold_blockchain.Consensus.Constants.{ConsensusConstants}
use gold_blockchain.Consensus.PotIterations.{
  floor_div, floor_mod, is_overflow_block, calculate_sp_iters, calculate_ip_iters,
}
use gold_blockchain.Consensus.Deficit.{calculate_deficit}
use gold_blockchain.Consensus.BlockRecord.{BlockRecord, SubEpochSummary, is_some}
use gold_blockchain.Consensus.Blocks.{Blocks, try_block_record}
use gold_blockchain.Consensus.Difficulty.Epoch.{
  height_can_be_first_in_epoch, can_finish_sub_and_full_epoch,
}
use gold_blockchain.Consensus.Difficulty.Rules.{
  get_next_sub_slot_iters, get_next_difficulty, get_next_sub_slot_iters_and_difficulty,
}

-- Of a finished sub-slot of a block, its challenge chain's difficulty and summary hash.
pub record FinishedSubSlot : Type 0 where
  pub new_difficulty : Option ℕ
  pub subepoch_summary_hash : Option ℕ

pub record SummarizedBlock : Type 0 where
  pub signage_point_index : ℕ
  pub prev_header_hash : ℕ
  pub total_iters : ℕ
  pub finished_sub_slots : List FinishedSubSlot

-- `while curr.sub_epoch_summary_included is None`
unfoldable pub last_with_summary : ℕ → Blocks → BlockRecord → Result (BlockRecord × SubEpochSummary)
last_with_summary zero blocks curr = err no_fuel
last_with_summary (suc fuel) blocks curr =
    let rest = (do prev ← blocks.block_record curr.prev_hash; last_with_summary fuel blocks prev) in
    elim curr.sub_epoch_summary_included [ none ↦ rest | some ses ↦ ok (curr, ses) ]

-- `xs[-1]`
abbrev pub last_elem? : List ℕ → Option ℕ
last_elem? [] = none
last_elem? (x ∷ []) = some x
last_elem? (x ∷ y ∷ xs) = last_elem? (y ∷ xs)

-- Whether the sub-epoch so far has no summary with a new difficulty. The source walks on after one
-- is found.
unfoldable pub no_difficulty_since : ℕ → ConsensusConstants → Blocks → BlockRecord → Result Bool
no_difficulty_since zero c blocks curr = err no_fuel
no_difficulty_since (suc fuel) c blocks curr =
    let changed : Bool = (elim curr.sub_epoch_summary_included [
      | none ↦ false
      | some ses ↦ is_some ses.new_difficulty
    ]) in
    let rest = (do
      prev ← blocks.block_record curr.prev_hash
      clear ← no_difficulty_since fuel c blocks prev
      ok (clear && not changed)) in
    if ltb 0 (curr.height % c.sub_epoch_blocks) then rest else ok (not changed)

-- The branch of `can_finish_soon` that decides on a new epoch.
unfoldable pub can_finish_epoch_soon : ConsensusConstants → Blocks → BlockRecord → Result Bool
can_finish_epoch_soon c blocks prev_b = do
  next ← uint32 (prev_b.height + 2)
  first ← height_can_be_first_in_epoch c next
  if first
      then (do
        past ← floor_mod (prev_b.height + 2) c.sub_epoch_blocks
        if ltb 1 past then no_difficulty_since (suc prev_b.height) c blocks prev_b else ok true)
      else (do
        later ← uint32 (prev_b.height + c.max_sub_slot_blocks + 2)
        height_can_be_first_in_epoch c later)

-- The deficit, and whether a sub-epoch and an epoch can finish.
unfoldable pub finish_after :
    ConsensusConstants → Blocks → BlockRecord → Bool → ℕ → Bool → Result (ℕ × Bool × Bool)
finish_after c blocks prev_b overflow num_finished can_finish_soon =
    if can_finish_soon
    then (do epoch ← can_finish_epoch_soon c blocks prev_b; ok (0, true, epoch))
    else (do
      height ← uint32 (prev_b.height + 1)
      deficit ← calculate_deficit c height (some prev_b) overflow num_finished
      finish ← can_finish_sub_and_full_epoch c blocks height (some prev_b.header_hash) deficit false
      ok (deficit, finish.0, finish.1))

module _ (get_hash : SubEpochSummary → ℕ) where
  unfoldable pub make_sub_epoch_summary :
      ConsensusConstants → Blocks → ℕ → BlockRecord → Option ℕ → Option ℕ → Result SubEpochSummary
  make_sub_epoch_summary c blocks blocks_included_height prev_prev_block new_difficulty
        new_sub_slot_iters =
      do
        guard (prev_prev_block.height + 2 == blocks_included_height) assertion_error
        sub_epochs ← floor_div (blocks_included_height + c.max_sub_slot_blocks) c.sub_epoch_blocks
        if leb sub_epochs 1
            then ok (record {
              prev_subepoch_summary_hash = c.genesis_challenge;
              reward_chain_hash = c.genesis_challenge;
              num_blocks_overflow = 0;
              new_difficulty = none;
              new_sub_slot_iters = none;
            })
            else (do
              (curr, ses) ← last_with_summary (suc prev_prev_block.height) blocks prev_prev_block
              slots ← or_raise curr.finished_reward_slot_hashes assertion_error
              reward_chain_hash ← or_raise (last_elem? slots) index_error
              num_blocks_overflow ← uint8 (curr.height % c.sub_epoch_blocks)
              ok (record {
                prev_subepoch_summary_hash = get_hash ses;
                reward_chain_hash = reward_chain_hash;
                num_blocks_overflow = num_blocks_overflow;
                new_difficulty = new_difficulty;
                new_sub_slot_iters = new_sub_slot_iters;
              }))

-- The values of a new epoch.
unfoldable pub epoch_values :
    ConsensusConstants
    → Blocks
    → SummarizedBlock
    → BlockRecord
    → ℕ
    → ℕ
    → Bool
    → ℕ
    → Result (Option ℕ × Option ℕ)
epoch_values c blocks block prev_b required_iters sub_slot_iters overflow deficit = do
  sp_iters ← calculate_sp_iters c sub_slot_iters block.signage_point_index
  ip_iters ← calculate_ip_iters c sub_slot_iters block.signage_point_index required_iters
  height ← uint32 (prev_b.height + 1)
  before ← blocks.block_record prev_b.prev_hash
  difficulty ← uint64_sub prev_b.weight before.weight
  sp_total ←
      uint128_sub (block.total_iters + sp_iters)
        (ip_iters + (if overflow then sub_slot_iters else 0))
  next_difficulty ←
      get_next_difficulty c blocks block.prev_header_hash height difficulty deficit false true
        sp_total true
  next_sub_slot_iters ←
      get_next_sub_slot_iters c blocks block.prev_header_hash height sub_slot_iters deficit false
        true sp_total true
  ok (some next_difficulty, some next_sub_slot_iters)

abbrev pub first_slot : SummarizedBlock → Option FinishedSubSlot
first_slot block = get_elem? block.finished_sub_slots 0

-- Whether the first finished sub-slot brings a new difficulty, or a summary.
abbrev pub has_difficulty : SummarizedBlock → Bool
has_difficulty block = elim (first_slot block) [ none ↦ false | some s ↦ is_some s.new_difficulty ]

abbrev pub has_summary : SummarizedBlock → Bool
has_summary block = elim (first_slot block) [
  | none ↦ false
  | some s ↦ is_some s.subepoch_summary_hash
]

module _ (get_hash : SubEpochSummary → ℕ) where
  -- The function for a block whose predecessor is stored and not the first block.
  unfoldable pub summary_after :
      ConsensusConstants
      → Blocks
      → ℕ
      → SummarizedBlock
      → Bool
      → BlockRecord
      → Result (Option SubEpochSummary)
  summary_after c blocks required_iters block can_finish_soon prev_b =
      let num_finished = length block.finished_sub_slots in
      if has_difficulty block then ok none else do
        next ← get_next_sub_slot_iters_and_difficulty c (ltb 0 num_finished) (some prev_b) blocks
        overflow ← is_overflow_block c block.signage_point_index
        if has_summary block then ok none else do
          (deficit, can_finish_se, can_finish_epoch) ←
              finish_after c blocks prev_b overflow num_finished can_finish_soon
          if not can_finish_se then ok none else do
            values ←
                (if can_finish_epoch
                  then epoch_values c blocks block prev_b required_iters next.0 overflow deficit
                  else ok (none, none))
            height ← uint32 (prev_b.height + 2)
            summary ← make_sub_epoch_summary get_hash c blocks height prev_b values.0 values.1
            ok (some summary)

  unfoldable pub next_sub_epoch_summary :
      ConsensusConstants → Blocks → ℕ → SummarizedBlock → Bool → Result (Option SubEpochSummary)
  next_sub_epoch_summary c blocks required_iters block can_finish_soon = do
    prev ← try_block_record blocks block.prev_header_hash
    elim prev [
      | none ↦ ok none
      | some prev_b ↦
          if prev_b.height == 0
          then ok none
          else summary_after c blocks required_iters block can_finish_soon prev_b
    ]

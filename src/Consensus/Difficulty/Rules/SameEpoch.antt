-- ===== src/Consensus/Difficulty/Rules/SameEpoch.antt =====
-- The rules for a block inside a sub-slot.
use gold_blockchain.Base.{ℕ, suc, ◌+◌, ◌-◌, ◌^◌, ◌≤◌, ◌<◌, ◌≡◌, Bool, true, false, some, arith, ok}
use gold_blockchain.Consensus.Constants.{ConsensusConstants}
use gold_blockchain.Consensus.BlockRecord.{BlockRecord, sp_total_iters}
use gold_blockchain.Consensus.Blocks.{Blocks}
use gold_blockchain.Consensus.Blocks.Chain.{IsMainChain}
use gold_blockchain.Consensus.Difficulty.Epoch.{height_can_be_first_in_epoch}
use gold_blockchain.Consensus.Difficulty.Epoch.Finish.{can_finish_lem}
use gold_blockchain.Consensus.Difficulty.Rules.{
  epoch_passed, get_next_sub_slot_iters, get_next_difficulty,
  get_next_sub_slot_iters_and_difficulty,
}

module _ (c : ConsensusConstants) {blocks : Blocks} {at : ℕ → BlockRecord} {top : ℕ}
    (chain : IsMainChain blocks at top) where
  epoch_not_passed :
      (h deficit : ℕ) (included first : Bool)
      → 0 < c.sub_epoch_blocks
      → suc h ≤ top
      → top + 1 < 2 ^ 32
      → height_can_be_first_in_epoch c (suc h + 1) ≡ ok first
      → epoch_passed c blocks (suc h) (at (suc h)).prev_hash deficit included false false ≡ ok false
  unfolding epoch_passed
  epoch_not_passed h deficit included first positive inside fits aligned =
      rw (can_finish_lem c chain h deficit included first positive inside fits aligned)

  difficulty_kept :
      (h d deficit sp : ℕ) {prev : BlockRecord}
      → suc h + 1 < 2 ^ 32
      → c.epoch_blocks ≤ suc h + 1
      → blocks.contains_block (at (suc h)).prev_hash ≡ true
      → blocks.block_record (at (suc h)).prev_hash ≡ ok prev
      → epoch_passed c blocks (suc h) (at (suc h)).prev_hash deficit false false false ≡ ok false
      → get_next_difficulty c blocks (at (suc h)).prev_hash (suc h) d deficit false false sp false
        ≡ ok d
  unfolding get_next_difficulty
  difficulty_kept h d deficit sp small late known link kept = ground arith

  sub_slot_iters_kept :
      (h d deficit sp : ℕ) {prev : BlockRecord}
      → suc h + 1 < 2 ^ 32
      → c.epoch_blocks ≤ suc h + 1
      → blocks.contains_block (at (suc h)).prev_hash ≡ true
      → blocks.block_record (at (suc h)).prev_hash ≡ ok prev
      → epoch_passed c blocks (suc h) (at (suc h)).prev_hash deficit false false false ≡ ok false
      → get_next_sub_slot_iters c blocks
          (at (suc h)).prev_hash
          (suc h)
          d
          deficit
          false
          false
          sp
          false
        ≡ ok d
  unfolding get_next_sub_slot_iters
  sub_slot_iters_kept h d deficit sp small late known link kept = ground arith

  -- After the first epoch, a block of the peak's chain whose weight is above its predecessor's and
  -- that has a signage point is followed inside its sub-slot by a block with the same sub-slot
  -- iterations and the same difficulty, the weight that it added itself.
  pub same_sub_slot_unchanged :
      (h : ℕ) (first : Bool) (sp : ℕ)
      → 0 < c.sub_epoch_blocks
      → suc h ≤ top
      → top + 1 < 2 ^ 32
      → height_can_be_first_in_epoch c (suc h + 1) ≡ ok first
      → c.epoch_blocks ≤ suc h + 1
      → blocks.contains_block (at (suc h)).prev_hash ≡ true
      → sp_total_iters (at (suc h)) c ≡ ok sp
      → (at h).weight ≤ (at (suc h)).weight
      → (at (suc h)).weight < (at h).weight + 2 ^ 64
      → get_next_sub_slot_iters_and_difficulty c false (some (at (suc h))) blocks
        ≡ ok ((at (suc h)).sub_slot_iters, (at (suc h)).weight - (at h).weight)
  unfolding get_next_sub_slot_iters_and_difficulty
  same_sub_slot_unchanged h first sp positive inside fits aligned late known point below near =
      let b = at (suc h) in
      let kept = epoch_not_passed h b.deficit false first positive inside fits aligned in
      let link = chain.linked h inside in
      ground (
        arith,
        chain.height_at (suc h),
        link,
        difficulty_kept h (b.weight - (at h).weight) b.deficit sp (omega arith) late known link
            kept,
        sub_slot_iters_kept h b.sub_slot_iters b.deficit sp (omega arith) late known link kept,
      )

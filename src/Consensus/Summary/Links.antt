-- ===== src/Consensus/Summary/Links.antt =====
-- A summary and the one before it.
use gold_blockchain.Base.{
  ℕ, zero, suc, ◌+◌, ◌/◌, ◌%◌, ◌≤◌, ◌<◌, ◌≡◌, ◌∙◌, inl, inr, Option, none, some, List, arith, ◌==◌,
  ==_iff, Bool-cases, ok,
}
use gold_blockchain.Consensus.Constants.{ConsensusConstants}
use gold_blockchain.Consensus.BlockRecord.{BlockRecord, SubEpochSummary}
use gold_blockchain.Consensus.Blocks.{Blocks}
use gold_blockchain.Consensus.Blocks.Chain.{IsMainChain}
use gold_blockchain.Consensus.Summary.{last_with_summary, last_elem?, make_sub_epoch_summary}

module _ {blocks : Blocks} {at : ℕ → BlockRecord} {top : ℕ}
    (chain : IsMainChain blocks at top) where
  stop_here :
      (fuel : ℕ) (b : BlockRecord) {ses : SubEpochSummary}
      → b.sub_epoch_summary_included ≡ some ses
      → last_with_summary (suc fuel) blocks b ≡ ok (b, ses)
  unfolding last_with_summary
  stop_here fuel b e = ground (arith, e)

  go_back :
      (fuel : ℕ) (b p : BlockRecord)
      → b.sub_epoch_summary_included ≡ none
      → blocks.block_record b.prev_hash ≡ ok p
      → last_with_summary (suc fuel) blocks b ≡ last_with_summary fuel blocks p
  unfolding last_with_summary
  go_back fuel b p e link = ground (arith, e, link)

  stop_at :
      (fuel h k : ℕ) {ses : SubEpochSummary}
      → h ≡ k
      → (at k).sub_epoch_summary_included ≡ some ses
      → last_with_summary (suc fuel) blocks (at h) ≡ ok (at k, ses)
  stop_at fuel h k same here = rw same (stop_here fuel (at k) here)

  last_with_summary_lem :
      (fuel h k : ℕ) {ses : SubEpochSummary}
      → k ≤ h
      → h ≤ top
      → h < fuel
      → ((j : ℕ) → k < j → j ≤ h → (at j).sub_epoch_summary_included ≡ none)
      → (at k).sub_epoch_summary_included ≡ some ses
      → last_with_summary fuel blocks (at h) ≡ ok (at k, ses)
  last_with_summary_lem zero h k below inside enough free here = absurd (omega arith)
  last_with_summary_lem (suc fuel) zero k below inside enough free here =
      stop_at fuel 0 k (omega arith) here
  last_with_summary_lem (suc fuel) (suc h) k below inside enough free here =
      elim (Bool-cases (suc h == k)) [
        | inl e ↦ stop_at fuel (suc h) k ((==_iff (suc h) k).0 e) here
        | inr e ↦
            let strict : k < suc h = ground (arith, e) in
            go_back fuel (at (suc h)) (at h) (free (suc h) strict (omega arith))
              (chain.linked h inside)
            ∙ last_with_summary_lem fuel h k (omega arith) (omega arith) (omega arith)
                (λ j low high. free j low (omega arith)) here
      ]

  -- After the first sub-epochs, the summary made after the block at a height of the peak's chain
  -- names the hash of the last summary that the chain includes up to there and the last reward slot
  -- of the block that includes it, counts the blocks by which that one came late, and carries the
  -- new values it was given.
  pub make_summary-links :
      (get_hash : SubEpochSummary → ℕ) (c : ConsensusConstants) (h k : ℕ) (nd nssi : Option ℕ)
      {ses : SubEpochSummary} {slots : List ℕ} {last : ℕ}
      → 0 < c.sub_epoch_blocks
      → 1 < (h + 2 + c.max_sub_slot_blocks) / c.sub_epoch_blocks
      → k ≤ h
      → h ≤ top
      → ((j : ℕ) → k < j → j ≤ h → (at j).sub_epoch_summary_included ≡ none)
      → (at k).sub_epoch_summary_included ≡ some ses
      → (at k).finished_reward_slot_hashes ≡ some slots
      → last_elem? slots ≡ some last
      → k % c.sub_epoch_blocks < 256
      → make_sub_epoch_summary get_hash c blocks (h + 2) (at h) nd nssi
        ≡ ok (record {
          prev_subepoch_summary_hash = get_hash ses;
          reward_chain_hash = last;
          num_blocks_overflow = k % c.sub_epoch_blocks;
          new_difficulty = nd;
          new_sub_slot_iters = nssi;
        })
  unfolding make_sub_epoch_summary
  make_summary-links get_hash c h k nd nssi positive late below inside free here slots last byte =
      ground (
        arith,
        chain.height_at h,
        chain.height_at k,
        last_with_summary_lem (suc h) h k below inside (omega arith) free here,
        slots,
        last,
      )

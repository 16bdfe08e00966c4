-- ===== src/Tests/Summary.antt =====
-- Sub-epoch summaries on the small chain.
use gold_blockchain.Base.{ℕ, ◌≡◌, refl, false, none, some, [], ◌∷◌, arith, ok}
use gold_blockchain.Base.Ends.{Ends}
use gold_blockchain.Consensus.BlockRecord.{SubEpochSummary}
use gold_blockchain.Consensus.Summary.{
  SummarizedBlock, make_sub_epoch_summary, next_sub_epoch_summary,
}
use gold_blockchain.Consensus.Summary.Termination.{next_summary-Ends}
use gold_blockchain.Consensus.Summary.Links.{make_summary-links}
use gold_blockchain.Tests.Chain.{
  small_constants, small_block, small_chain, small_summary, small_chain-IsLinked,
  small_chain-IsMainChain,
}

abbrev hash : SubEpochSummary → ℕ
hash ses = ses.reward_chain_hash

abbrev next_block : SummarizedBlock
next_block = record {
  signage_point_index = 5;
  prev_header_hash = 31;
  total_iters = 37400;
  finished_sub_slots = [];
}

next_summary-Ends_example :
    Ends (next_sub_epoch_summary hash small_constants small_chain 10 next_block false)
next_summary-Ends_example =
    next_summary-Ends small_constants small_chain small_chain-IsLinked hash 10 next_block false

make_summary-links_example :
    make_sub_epoch_summary hash small_constants small_chain 32 (small_block 30) (some 9) none
    ≡ ok (record {
      prev_subepoch_summary_hash = 2;
      reward_chain_hash = 8;
      num_blocks_overflow = 2;
      new_difficulty = some 9;
      new_sub_slot_iters = none;
    })
make_summary-links_example =
    make_summary-links small_chain-IsMainChain hash small_constants 30 18 (some 9) none
      {ses = small_summary} {slots = 7 ∷ 8 ∷ []} (ground arith) (ground arith) (ground arith)
      (ground arith) (λ j low high. ground arith) refl refl refl (ground arith)

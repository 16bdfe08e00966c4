-- ===== src/Consensus/Deficit/Transitions.antt =====
-- The deficit as a state machine: its steps, and runs of blocks.
use gold_blockchain.Base.{
  ℕ, ◌+◌, ◌-◌, ◌≤◌, ◌<◌, ◌≡◌, ◌↔◌, ◌⊎◌, Bool, false, none, some, arith, assertion_error, ok, err,
  Returns,
}
use gold_blockchain.Consensus.Constants.{ConsensusConstants}
use gold_blockchain.Consensus.BlockRecord.{BlockRecord}
use gold_blockchain.Consensus.Deficit.{calculate_deficit}

-- The constants that the source's comments ask for: at least two blocks, and a byte holds them.
abbrev pub IsSane : ConsensusConstants → Type 0
IsSane c = (2 ≤ c.min_blocks_per_challenge_block) × (c.min_blocks_per_challenge_block < 256)

-- With sane constants, after a block whose deficit is not above the constant: the function returns,
-- and the new deficit is not above the constant either. After the genesis block it is never more
-- than one below the old one, and above it only where the old one was 0; at height 0 it is one less
-- than the constant, whatever the block before. Without a block before, every other height fails the
-- assertion.
pub calculate_deficit_range :
    (c : ConsensusConstants) (height : ℕ) (prev : BlockRecord) (overflow : Bool) (n : ℕ)
    → IsSane c
    → prev.deficit ≤ c.min_blocks_per_challenge_block
    → Returns (calculate_deficit c height (some prev) overflow n) (λ d.
      (d ≤ c.min_blocks_per_challenge_block)
      × ((0 < height) × (prev.deficit ≤ d + 1) × (d ≤ prev.deficit ⊎ (prev.deficit ≡ 0))
          ⊎ (height ≡ 0) × (d + 1 ≡ c.min_blocks_per_challenge_block)))
      × ((height ≡ 0) ⊎ (calculate_deficit c height none overflow n ≡ err assertion_error))
unfolding calculate_deficit
calculate_deficit_range c height prev overflow n sane h = (ground arith, ground arith)

-- Which blocks after genesis are challenge blocks: the first block with a signage point in the new
-- sub-slot after an overflow, and after a finished challenge the first block of a later sub-slot
-- that is no overflow block or has skipped a whole sub-slot.
pub challenge_block_iff :
    (c : ConsensusConstants) (height : ℕ) (prev : BlockRecord) (overflow : Bool) (n : ℕ)
    → IsSane c
    → prev.deficit ≤ c.min_blocks_per_challenge_block
    → 0 < height
    → (calculate_deficit c height (some prev) overflow n
        ≡ ok (c.min_blocks_per_challenge_block - 1))
      ↔ ((prev.deficit ≡ c.min_blocks_per_challenge_block) × ((overflow ≡ false) ⊎ (0 < n))
          ⊎ (prev.deficit ≡ 0) × ((overflow ≡ false) × (0 < n) ⊎ (1 < n)))
unfolding calculate_deficit
challenge_block_iff c height prev overflow n sane h pos = (λ e. ground arith, λ e. ground arith)

-- ===== src/Consensus.antt =====
-- The consensus rules of chia/consensus that need no signatures and no proofs of time.
pub mod Constants
pub mod SignificantBits
pub mod PotIterations
pub mod Deficit
pub mod Rewards
pub mod BlockRecord
pub mod Blocks
pub mod Difficulty
pub mod Summary
pub mod ForkPoint
pub mod BlockChallenge
pub mod VdfInfoComputation

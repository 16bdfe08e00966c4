-- ===== src/Consensus/Blocks.antt =====
-- chia/consensus/blockchain_interface.py, the part that the consensus rules read, and
-- chia/util/block_cache.py, which fills it from dicts.
pub mod Chain
pub mod Cache
use gold_blockchain.Base.{ℕ, Bool, Option, none, some, if◌then◌else◌, Result, ok, ◌>>=◌, ◌>>◌}
use gold_blockchain.Consensus.BlockRecord.{BlockRecord}

-- `class BlockchainInterface`: a lookup of a missing block raises, `height_to_hash` returns None.
pub record Blocks : Type 0 where
  pub contains_block : ℕ → Bool
  pub block_record : ℕ → Result BlockRecord
  pub contains_height : ℕ → Bool
  pub height_to_hash : ℕ → Option ℕ
  pub height_to_block_record : ℕ → Result BlockRecord

unfoldable pub try_block_record : Blocks → ℕ → Result (Option BlockRecord)
try_block_record blocks header_hash =
    if blocks.contains_block header_hash
    then (do b ← blocks.block_record header_hash; ok (some b))
    else ok none

-- ===== src/Tests/Chain.antt =====
-- A chain of forty blocks in which every block is a transaction block and the one at height 18
-- includes a summary, and constants of a small net.
use gold_blockchain.Base.{
  ℕ, zero, suc, ◌+◌, ◌-◌, ◌*◌, ◌≡◌, refl, false, ◌&&◌, none, some, [], ◌∷◌, arith, ltb, leb, ◌==◌,
  if◌then◌else◌, Exc, key_error, Result, ok, err,
}
use gold_blockchain.Consensus.Constants.{ConsensusConstants, default_constants}
use gold_blockchain.Consensus.BlockRecord.{BlockRecord, SubEpochSummary}
use gold_blockchain.Consensus.Blocks.{Blocks}
use gold_blockchain.Consensus.Blocks.Chain.{IsLinked, IsMainChain}

abbrev pub small_constants : ConsensusConstants
small_constants = record default_constants {
  sub_epoch_blocks = 8;
  epoch_blocks = 16;
  max_sub_slot_blocks = 4;
  min_blocks_per_challenge_block = 2;
}

abbrev pub small_summary : SubEpochSummary
small_summary = record {
  prev_subepoch_summary_hash = 1;
  reward_chain_hash = 2;
  num_blocks_overflow = 0;
  new_difficulty = none;
  new_sub_slot_iters = none;
}

abbrev pub small_block : ℕ → BlockRecord
small_block k = record {
  header_hash = suc k;
  prev_hash = k;
  height = k;
  weight = 7 * suc k;
  total_iters = 6400 + 1000 * k;
  signage_point_index = 5;
  challenge_vdf_output = 0;
  infused_challenge_vdf_output = none;
  reward_infusion_new_challenge = 0;
  challenge_block_info_hash = 0;
  sub_slot_iters = 6400;
  pool_puzzle_hash = 0;
  farmer_puzzle_hash = 0;
  required_iters = 10;
  deficit = 0;
  overflow = false;
  prev_transaction_block_height = k - 1;
  timestamp = some (1000 + 20 * k);
  prev_transaction_block_hash = some k;
  fees = none;
  reward_claims_incorporated = none;
  finished_challenge_slot_hashes = none;
  finished_infused_challenge_slot_hashes = none;
  finished_reward_slot_hashes = if k == 18 then some (7 ∷ 8 ∷ []) else none;
  sub_epoch_summary_included = if k == 18 then some small_summary else none;
  farmer_public_key = 0;
}

abbrev pub find_small : ℕ → Result BlockRecord
find_small zero = err key_error
find_small (suc k) = if ltb k 40 then ok (small_block k) else err key_error

abbrev pub small_chain : Blocks
small_chain = record {
  contains_block = λ h. leb 1 h && leb h 40;
  block_record = find_small;
  contains_height = λ k. ltb k 40;
  height_to_hash = λ k. if ltb k 40 then some (suc k) else none;
  height_to_block_record = λ k. if ltb k 40 then ok (small_block k) else err key_error;
}

find_small-height :
    (h : ℕ) (b : BlockRecord) → find_small h ≡ ok b → (suc b.height ≡ h) × (b.prev_hash ≡ b.height)
find_small-height zero b e = cc
find_small-height (suc k) b e = ground arith

find_small-misses : (h : ℕ) (e : Exc) → find_small h ≡ err e → e ≡ key_error
find_small-misses zero e m = cc
find_small-misses (suc k) e m = ground arith

pub small_chain-IsLinked : IsLinked small_chain
small_chain-IsLinked = record {
  falls = λ b p stored e.
      omega
        (arith, (find_small-height stored.0 b stored.1).1, (find_small-height b.prev_hash p e).0);
  misses = find_small-misses;
  by_height = λ h b e. (suc h, e);
  misses_height = λ h e m. find_small-misses (suc h) e m;
}

pub small_chain-IsMainChain : IsMainChain small_chain small_block 39
small_chain-IsMainChain = record {
  height_at = λ k. refl;
  linked = λ k h. ground arith;
  known = λ k h. ground arith;
  by_hash = λ k h. ground arith;
  by_height = λ k h. ground arith;
}

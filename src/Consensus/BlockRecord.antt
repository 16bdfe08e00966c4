-- ===== src/Consensus/BlockRecord.antt =====
-- chia/consensus/block_record.py, with the coins and sub-epoch summaries that a record holds
-- (chia/types/blockchain_format). Hashes, keys and class group elements are numbers that are only
-- compared or handed on.
pub mod Positions
use gold_blockchain.Base.{
  ℕ, suc, ◌+◌, ◌≡◌, ◌≢◌, Bool, true, false, Option, none, some, List, ◌==◌, if◌then◌else◌, decided,
  of_decided, not_of_decided, Result, ok, ◌>>=◌, ◌>>◌,
}
use native.Mathlib.Decide.{ℕ_discrete}
use gold_blockchain.Base.Ints.{uint128_sub}
use gold_blockchain.Consensus.Constants.{ConsensusConstants}
use gold_blockchain.Consensus.PotIterations.{calculate_sp_iters, calculate_ip_iters}

pub record Coin : Type 0 where
  pub parent_coin_info : ℕ
  pub puzzle_hash : ℕ
  pub amount : ℕ

pub record SubEpochSummary : Type 0 where
  pub prev_subepoch_summary_hash : ℕ
  pub reward_chain_hash : ℕ
  pub num_blocks_overflow : ℕ
  pub new_difficulty : Option ℕ
  pub new_sub_slot_iters : Option ℕ

pub record BlockRecord : Type 0 where
  pub header_hash : ℕ
  pub prev_hash : ℕ
  pub height : ℕ
  pub weight : ℕ
  pub total_iters : ℕ
  pub signage_point_index : ℕ
  pub challenge_vdf_output : ℕ
  pub infused_challenge_vdf_output : Option ℕ
  pub reward_infusion_new_challenge : ℕ
  pub challenge_block_info_hash : ℕ
  pub sub_slot_iters : ℕ
  pub pool_puzzle_hash : ℕ
  pub farmer_puzzle_hash : ℕ
  pub required_iters : ℕ
  pub deficit : ℕ
  pub overflow : Bool
  pub prev_transaction_block_height : ℕ
  pub timestamp : Option ℕ
  pub prev_transaction_block_hash : Option ℕ
  pub fees : Option ℕ
  pub reward_claims_incorporated : Option (List Coin)
  pub finished_challenge_slot_hashes : Option (List ℕ)
  pub finished_infused_challenge_slot_hashes : Option (List ℕ)
  pub finished_reward_slot_hashes : Option (List ℕ)
  pub sub_epoch_summary_included : Option SubEpochSummary
  pub farmer_public_key : ℕ

unfoldable pub BlockRecord-discrete : Discrete BlockRecord
BlockRecord-discrete = hlevel ℕ_discrete

-- `b == c`, on all fields.
unfoldable pub same_record : BlockRecord → BlockRecord → Bool
unfolding BlockRecord-discrete ℕ_discrete
same_record b c = decided (BlockRecord-discrete b c)

pub same_record_of : (b c : BlockRecord) → same_record b c ≡ true → b ≡ c
unfolding same_record
same_record_of b c h = of_decided (BlockRecord-discrete b c) h

pub not_same_record_of : (b c : BlockRecord) → same_record b c ≡ false → b ≢ c
unfolding same_record
not_same_record_of b c h = not_of_decided (BlockRecord-discrete b c) h

abbrev pub is_some {ℓ} : {A : Type ℓ} → Option A → Bool
is_some none = false
is_some (some _) = true

unfoldable pub is_transaction_block : BlockRecord → Bool
is_transaction_block b = is_some b.timestamp

unfoldable pub first_in_sub_slot : BlockRecord → Bool
first_in_sub_slot b = is_some b.finished_challenge_slot_hashes

-- The `suc` stands on the other side: the source compares with one less than the constant.
unfoldable pub is_challenge_block : BlockRecord → ConsensusConstants → Bool
is_challenge_block b c = suc b.deficit == c.min_blocks_per_challenge_block

unfoldable pub sp_iters : BlockRecord → ConsensusConstants → Result ℕ
sp_iters b c = calculate_sp_iters c b.sub_slot_iters b.signage_point_index

unfoldable pub ip_iters : BlockRecord → ConsensusConstants → Result ℕ
ip_iters b c = calculate_ip_iters c b.sub_slot_iters b.signage_point_index b.required_iters

unfoldable pub sp_sub_slot_total_iters : BlockRecord → ConsensusConstants → Result ℕ
unfolding ip_iters
sp_sub_slot_total_iters b c = do
  ip ← ip_iters b c
  if b.overflow
      then uint128_sub b.total_iters (ip + b.sub_slot_iters)
      else uint128_sub b.total_iters ip

unfoldable pub ip_sub_slot_total_iters : BlockRecord → ConsensusConstants → Result ℕ
unfolding ip_iters
ip_sub_slot_total_iters b c = do ip ← ip_iters b c; uint128_sub b.total_iters ip

unfoldable pub sp_total_iters : BlockRecord → ConsensusConstants → Result ℕ
unfolding sp_sub_slot_total_iters sp_iters
sp_total_iters b c = do start ← sp_sub_slot_total_iters b c; sp ← sp_iters b c; ok (start + sp)

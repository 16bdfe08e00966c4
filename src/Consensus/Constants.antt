-- ===== src/Consensus/Constants.antt =====
-- chia/consensus/constants.py and default_constants.py. A hash or a byte string that is only
-- compared or handed on is the number with these bytes, big end first.
use gold_blockchain.Base.{ℕ, ◌+◌, ◌-◌, ◌*◌, ◌^◌, Bool, true, false, leb}
use gold_blockchain.Base.Int.{ℤ, pos, negsuc}

pub record ConsensusConstants : Type 0 where
  pub slot_blocks_target : ℕ
  pub min_blocks_per_challenge_block : ℕ
  pub max_sub_slot_blocks : ℕ
  pub num_sps_sub_slot : ℕ
  pub sub_slot_iters_starting : ℕ
  pub difficulty_constant_factor : ℕ
  pub difficulty_starting : ℕ
  pub difficulty_change_max_factor : ℕ
  pub sub_epoch_blocks : ℕ
  pub epoch_blocks : ℕ
  pub significant_bits : ℕ
  pub discriminant_size_bits : ℕ
  pub number_zero_bits_plot_filter : ℕ
  pub min_plot_size : ℕ
  pub max_plot_size : ℕ
  pub sub_slot_time_target : ℕ
  pub num_sp_intervals_extra : ℕ
  pub max_future_time : ℕ
  pub number_of_timestamps : ℕ
  pub genesis_challenge : ℕ
  pub agg_sig_me_additional_data : ℕ
  pub genesis_pre_farm_pool_puzzle_hash : ℕ
  pub genesis_pre_farm_farmer_puzzle_hash : ℕ
  pub max_vdf_witness_size : ℕ
  pub mempool_block_buffer : ℕ
  pub max_coin_amount : ℕ
  pub max_block_cost_clvm : ℕ
  pub cost_per_byte : ℕ
  pub weight_proof_threshold : ℕ
  pub weight_proof_recent_blocks : ℕ
  pub max_block_count_per_requests : ℕ
  pub staking_estimate_block_range : ℕ
  pub blocks_cache_size : ℕ
  pub network_type : ℕ
  pub max_generator_size : ℕ
  pub max_generator_ref_list_size : ℕ
  pub pool_sub_slot_iters : ℕ
  pub hf_block_reward : ℤ
  pub hf_block_staking : ℤ

-- The method of the constants. (`block_rewards.py` has a function of the same name.)
pub reward_hardfork_activated : ConsensusConstants → ℕ → Bool
reward_hardfork_activated c height = elim c.hf_block_reward [
  | pos fork ↦ leb fork height
  | negsuc _ ↦ false
]

pub staking_hardfork_activated : ConsensusConstants → ℕ → Bool
staking_hardfork_activated c _ = true

abbrev pub default_constants : ConsensusConstants
default_constants = record {
  slot_blocks_target = 32;
  min_blocks_per_challenge_block = 16;
  max_sub_slot_blocks = 128;
  num_sps_sub_slot = 64;
  sub_slot_iters_starting = 2 ^ 27;
  difficulty_constant_factor = 2 ^ 57;
  difficulty_starting = 7;
  difficulty_change_max_factor = 3;
  sub_epoch_blocks = 384;
  epoch_blocks = 4608;
  significant_bits = 8;
  discriminant_size_bits = 1024;
  number_zero_bits_plot_filter = 9;
  min_plot_size = 31;
  max_plot_size = 50;
  sub_slot_time_target = 600;
  num_sp_intervals_extra = 3;
  max_future_time = 5 * 60;
  number_of_timestamps = 11;
  genesis_challenge = 0xa863ac9871ebeaf1fdc7ed6acd3d5c8c39441d53187a936868c87e1e233a3819;
  agg_sig_me_additional_data = 0xecbf4458b47e39c60afec66e245fccb042871417ffc5200cb0140346c2e044d0;
  genesis_pre_farm_pool_puzzle_hash =
      0x1154e73194bc5479dd029fef922b2aa1a0cc1bbc383c756f5ff8040dadcac4bb;
  genesis_pre_farm_farmer_puzzle_hash =
      0xdf62080c2648f32317da68a4dfa82b8ee09280278598366864475989d6a9a12e;
  max_vdf_witness_size = 64;
  mempool_block_buffer = 10;
  max_coin_amount = 2 ^ 64 - 1;
  max_block_cost_clvm = 11000000000;
  cost_per_byte = 12000;
  weight_proof_threshold = 2;
  staking_estimate_block_range = 4608 * 3;
  blocks_cache_size = 4608 * 3 + 128 * 4;
  weight_proof_recent_blocks = 1000;
  max_block_count_per_requests = 32;
  network_type = 0;
  max_generator_size = 1000000;
  max_generator_ref_list_size = 512;
  pool_sub_slot_iters = 37600000000;
  hf_block_reward = negsuc 0;
  hf_block_staking = negsuc 0;
}

-- ===== src/Server/RateLimits/Tables.antt =====
-- The tables of chia/server/rate_limits.py; a type that is missing from a table has none.
use gold_blockchain.Base.{ℕ, Option, none, some}
use gold_blockchain.Server.RateLimits.Types.{
  ProtocolMessageTypes, coin_state_update, declare_proof_of_space, farm_new_block, farming_info,
  handshake, harvester_handshake, new_compact_vdf, new_end_of_sub_slot_vdf, new_infusion_point_vdf,
  new_peak, new_peak_timelord, new_peak_wallet, new_proof_of_space, new_signage_point,
  new_signage_point_harvester, new_signage_point_or_end_of_sub_slot, new_signage_point_vdf,
  new_transaction, new_unfinished_block, new_unfinished_block_timelord, register_interest_in_coin,
  register_interest_in_puzzle_hash, reject_additions_request, reject_block, reject_blocks,
  reject_header_blocks, reject_header_request, reject_puzzle_solution, reject_removals_request,
  request_additions, request_block, request_block_header, request_blocks, request_children,
  request_compact_proof_of_time, request_compact_vdf, request_header_blocks,
  request_mempool_transactions, request_peers, request_peers_introducer, request_plots,
  request_proof_of_weight, request_puzzle_solution, request_removals, request_ses_hashes,
  request_signage_point_or_end_of_sub_slot, request_signatures, request_signed_values,
  request_stakings, request_transaction, request_unfinished_block, respond_additions, respond_block,
  respond_block_header, respond_blocks, respond_children, respond_compact_proof_of_time,
  respond_compact_vdf, respond_end_of_sub_slot, respond_header_blocks, respond_peers,
  respond_peers_introducer, respond_plots, respond_proof_of_weight, respond_puzzle_solution,
  respond_removals, respond_ses_hashes, respond_signage_point, respond_signatures, respond_stakings,
  respond_to_coin_update, respond_to_ph_update, respond_transaction, respond_unfinished_block,
  send_transaction, signed_values, transaction_ack,
}

pub record RlSettings : Type 0 where
  pub frequency : ℕ
  pub max_size : ℕ
  pub max_total_size : Option ℕ

abbrev pub settings : ℕ → ℕ → Option ℕ → RlSettings
settings frequency max_size max_total_size = record {
  frequency = frequency;
  max_size = max_size;
  max_total_size = max_total_size;
}

abbrev pub default_settings : RlSettings
default_settings = settings 100 1048576 (some 104857600)

abbrev pub non_tx_freq : ℕ
non_tx_freq = 1000

abbrev pub non_tx_max_total_size : ℕ
non_tx_max_total_size = 104857600

-- `rate_limits_tx`
unfoldable pub rate_limits_tx : ProtocolMessageTypes → Option RlSettings
rate_limits_tx new_transaction = some (settings 5000 100 (some 500000))
rate_limits_tx request_transaction = some (settings 5000 100 (some 500000))
rate_limits_tx respond_transaction = some (settings 5000 1048576 (some 20971520))
rate_limits_tx send_transaction = some (settings 5000 1048576 none)
rate_limits_tx transaction_ack = some (settings 5000 2048 none)
rate_limits_tx _ = none

-- `rate_limits_other`
unfoldable pub rate_limits_other : ProtocolMessageTypes → Option RlSettings
rate_limits_other handshake = some (settings 5 10240 (some 51200))
rate_limits_other harvester_handshake = some (settings 5 1048576 none)
rate_limits_other new_signage_point_harvester = some (settings 100 1024 none)
rate_limits_other new_proof_of_space = some (settings 100 2048 none)
rate_limits_other request_signatures = some (settings 100 2048 none)
rate_limits_other respond_signatures = some (settings 100 2048 none)
rate_limits_other new_signage_point = some (settings 200 2048 none)
rate_limits_other declare_proof_of_space = some (settings 100 10240 none)
rate_limits_other request_signed_values = some (settings 100 512 none)
rate_limits_other farming_info = some (settings 100 1024 none)
rate_limits_other signed_values = some (settings 100 1024 none)
rate_limits_other new_peak_timelord = some (settings 100 20480 none)
rate_limits_other new_unfinished_block_timelord = some (settings 100 10240 none)
rate_limits_other new_signage_point_vdf = some (settings 100 102400 none)
rate_limits_other new_infusion_point_vdf = some (settings 100 102400 none)
rate_limits_other new_end_of_sub_slot_vdf = some (settings 100 102400 none)
rate_limits_other request_compact_proof_of_time = some (settings 100 10240 none)
rate_limits_other respond_compact_proof_of_time = some (settings 100 102400 none)
rate_limits_other new_peak = some (settings 200 512 none)
rate_limits_other request_proof_of_weight = some (settings 5 100 none)
rate_limits_other respond_proof_of_weight = some (settings 5 52428800 (some 104857600))
rate_limits_other request_block = some (settings 200 100 none)
rate_limits_other reject_block = some (settings 200 100 none)
rate_limits_other request_blocks = some (settings 500 100 none)
rate_limits_other respond_blocks = some (settings 100 52428800 (some 262144000))
rate_limits_other reject_blocks = some (settings 100 100 none)
rate_limits_other respond_block = some (settings 200 2097152 (some 20971520))
rate_limits_other new_unfinished_block = some (settings 200 100 none)
rate_limits_other request_unfinished_block = some (settings 200 100 none)
rate_limits_other respond_unfinished_block = some (settings 200 2097152 (some 20971520))
rate_limits_other new_signage_point_or_end_of_sub_slot = some (settings 200 200 none)
rate_limits_other request_signage_point_or_end_of_sub_slot = some (settings 200 200 none)
rate_limits_other respond_signage_point = some (settings 200 51200 none)
rate_limits_other respond_end_of_sub_slot = some (settings 100 51200 none)
rate_limits_other request_mempool_transactions = some (settings 5 1048576 none)
rate_limits_other request_compact_vdf = some (settings 200 1024 none)
rate_limits_other respond_compact_vdf = some (settings 200 102400 none)
rate_limits_other new_compact_vdf = some (settings 100 1024 none)
rate_limits_other request_peers = some (settings 10 100 none)
rate_limits_other respond_peers = some (settings 10 1048576 none)
rate_limits_other request_puzzle_solution = some (settings 1000 100 none)
rate_limits_other respond_puzzle_solution = some (settings 1000 1048576 none)
rate_limits_other reject_puzzle_solution = some (settings 1000 100 none)
rate_limits_other new_peak_wallet = some (settings 200 300 none)
rate_limits_other request_block_header = some (settings 500 100 none)
rate_limits_other respond_block_header = some (settings 500 512000 none)
rate_limits_other reject_header_request = some (settings 500 100 none)
rate_limits_other request_removals = some (settings 500 51200 (some 10485760))
rate_limits_other respond_removals = some (settings 500 1048576 (some 10485760))
rate_limits_other reject_removals_request = some (settings 500 100 none)
rate_limits_other request_additions = some (settings 500 1048576 (some 10485760))
rate_limits_other respond_additions = some (settings 500 1048576 (some 10485760))
rate_limits_other reject_additions_request = some (settings 500 100 none)
rate_limits_other request_header_blocks = some (settings 500 100 none)
rate_limits_other reject_header_blocks = some (settings 100 100 none)
rate_limits_other respond_header_blocks = some (settings 500 2097152 (some 104857600))
rate_limits_other request_peers_introducer = some (settings 100 100 none)
rate_limits_other respond_peers_introducer = some (settings 100 1048576 none)
rate_limits_other farm_new_block = some (settings 200 200 none)
rate_limits_other request_plots = some (settings 10 10485760 none)
rate_limits_other respond_plots = some (settings 10 104857600 none)
rate_limits_other request_stakings = some (settings 100 2048 none)
rate_limits_other respond_stakings = some (settings 100 2048 none)
rate_limits_other coin_state_update = some (settings 1000 104857600 none)
rate_limits_other register_interest_in_puzzle_hash = some (settings 1000 104857600 none)
rate_limits_other respond_to_ph_update = some (settings 1000 104857600 none)
rate_limits_other register_interest_in_coin = some (settings 1000 104857600 none)
rate_limits_other respond_to_coin_update = some (settings 1000 104857600 none)
rate_limits_other request_ses_hashes = some (settings 2000 1048576 none)
rate_limits_other respond_ses_hashes = some (settings 2000 1048576 none)
rate_limits_other request_children = some (settings 2000 1048576 none)
rate_limits_other respond_children = some (settings 2000 1048576 none)
rate_limits_other _ = none

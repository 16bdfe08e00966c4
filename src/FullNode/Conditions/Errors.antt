-- ===== src/FullNode/Conditions/Errors.antt =====
-- `class Err` of chia/util/errors.py: the reasons for which a block, a transaction or a message is
-- rejected, with their numbers.
use gold_blockchain.Base.Int.{ℤ, pos, negsuc}

pub data Err : Type 0 where
  does_not_extend bad_header_signature missing_from_storage invalid_protocol_message : Err
  self_connection invalid_handshake invalid_ack incompatible_protocol_version : Err
  duplicate_connection block_not_in_blockchain no_proof_of_space_found peers_dont_have_block : Err
  max_inbound_connections_reached unknown invalid_block_solution invalid_coin_solution : Err
  duplicate_output double_spend unknown_unspent bad_aggregate_signature wrong_puzzle_hash : Err
  bad_farmer_coin_amount invalid_condition assert_my_coin_id_failed : Err
  assert_announce_consumed_failed assert_height_relative_failed assert_height_absolute_failed : Err
  assert_seconds_absolute_failed coin_amount_exceeds_maximum sexp_error invalid_fee_low_fee : Err
  mempool_conflict minting_coin extends_unknown_block coinbase_not_yet_spendable : Err
  block_cost_exceeds_max bad_addition_root bad_removal_root invalid_pospace_hash : Err
  invalid_coinbase_signature invalid_plot_signature timestamp_too_far_in_past : Err
  timestamp_too_far_in_future invalid_transactions_filter_hash invalid_pospace_challenge : Err
  invalid_pospace invalid_height invalid_coinbase_amount invalid_merkle_root : Err
  invalid_block_fee_amount invalid_weight invalid_total_iters block_is_not_finished : Err
  invalid_num_iterations invalid_pot invalid_pot_challenge invalid_transactions_generator_hash : Err
  invalid_pool_target invalid_coinbase_parent invalid_fees_coin_parent : Err
  reserve_fee_condition_failed not_block_but_has_data is_transaction_block_but_no_data : Err
  invalid_prev_block_hash invalid_transactions_info_hash invalid_foliage_block_hash : Err
  invalid_reward_coins invalid_block_cost no_end_of_slot_info invalid_prev_challenge_slot_hash : Err
  invalid_sub_epoch_summary_hash no_sub_epoch_summary_hash should_not_make_challenge_block : Err
  should_make_challenge_block invalid_challenge_chain_data invalid_cc_eos_vdf invalid_rc_eos_vdf :
      Err
  invalid_challenge_slot_hash_rc invalid_prior_point_rc invalid_deficit : Err
  invalid_sub_epoch_summary invalid_prev_sub_epoch_summary_hash invalid_reward_chain_hash : Err
  invalid_sub_epoch_overflow invalid_new_difficulty invalid_new_sub_slot_iters invalid_cc_sp_vdf :
      Err
  invalid_rc_sp_vdf invalid_cc_signature invalid_rc_signature cannot_make_cc_block : Err
  invalid_rc_sp_prev_ip invalid_rc_ip_prev_ip invalid_is_transaction_block invalid_ursb_hash : Err
  old_pool_target invalid_pool_signature invalid_foliage_block_presence invalid_cc_ip_vdf : Err
  invalid_rc_ip_vdf ip_should_be_none invalid_reward_block_hash : Err
  invalid_made_non_overflow_infusions no_overflows_in_first_sub_slot_new_epoch : Err
  mempool_not_initialized should_not_have_icc should_have_icc invalid_icc_vdf : Err
  invalid_icc_hash_cc invalid_icc_hash_rc invalid_icc_eos_vdf invalid_sp_index too_many_blocks : Err
  invalid_cc_challenge invalid_prefarm assert_seconds_relative_failed bad_coinbase_signature : Err
  no_transactions_while_syncing already_including_transaction incompatible_network_id : Err
  pre_soft_fork_max_generator_size invalid_required_iters too_many_generator_refs : Err
  assert_my_parent_id_failed assert_my_puzzlehash_failed assert_my_amount_failed : Err
  generator_runtime_error invalid_cost_result invalid_transactions_generator_refs_root : Err
  future_generator_refs generator_ref_has_no_generator double_spend_in_fork : Err
  invalid_fee_too_close_to_zero coin_amount_negative internal_protocol_error : Err
  invalid_spend_bundle : Err

-- `err.value`
unfoldable pub value : Err → ℤ
value does_not_extend = negsuc 0
value bad_header_signature = negsuc 1
value missing_from_storage = negsuc 2
value invalid_protocol_message = negsuc 3
value self_connection = negsuc 4
value invalid_handshake = negsuc 5
value invalid_ack = negsuc 6
value incompatible_protocol_version = negsuc 7
value duplicate_connection = negsuc 8
value block_not_in_blockchain = negsuc 9
value no_proof_of_space_found = negsuc 10
value peers_dont_have_block = negsuc 11
value max_inbound_connections_reached = negsuc 12
value unknown = pos 1
value invalid_block_solution = pos 2
value invalid_coin_solution = pos 3
value duplicate_output = pos 4
value double_spend = pos 5
value unknown_unspent = pos 6
value bad_aggregate_signature = pos 7
value wrong_puzzle_hash = pos 8
value bad_farmer_coin_amount = pos 9
value invalid_condition = pos 10
value assert_my_coin_id_failed = pos 11
value assert_announce_consumed_failed = pos 12
value assert_height_relative_failed = pos 13
value assert_height_absolute_failed = pos 14
value assert_seconds_absolute_failed = pos 15
value coin_amount_exceeds_maximum = pos 16
value sexp_error = pos 17
value invalid_fee_low_fee = pos 18
value mempool_conflict = pos 19
value minting_coin = pos 20
value extends_unknown_block = pos 21
value coinbase_not_yet_spendable = pos 22
value block_cost_exceeds_max = pos 23
value bad_addition_root = pos 24
value bad_removal_root = pos 25
value invalid_pospace_hash = pos 26
value invalid_coinbase_signature = pos 27
value invalid_plot_signature = pos 28
value timestamp_too_far_in_past = pos 29
value timestamp_too_far_in_future = pos 30
value invalid_transactions_filter_hash = pos 31
value invalid_pospace_challenge = pos 32
value invalid_pospace = pos 33
value invalid_height = pos 34
value invalid_coinbase_amount = pos 35
value invalid_merkle_root = pos 36
value invalid_block_fee_amount = pos 37
value invalid_weight = pos 38
value invalid_total_iters = pos 39
value block_is_not_finished = pos 40
value invalid_num_iterations = pos 41
value invalid_pot = pos 42
value invalid_pot_challenge = pos 43
value invalid_transactions_generator_hash = pos 44
value invalid_pool_target = pos 45
value invalid_coinbase_parent = pos 46
value invalid_fees_coin_parent = pos 47
value reserve_fee_condition_failed = pos 48
value not_block_but_has_data = pos 49
value is_transaction_block_but_no_data = pos 50
value invalid_prev_block_hash = pos 51
value invalid_transactions_info_hash = pos 52
value invalid_foliage_block_hash = pos 53
value invalid_reward_coins = pos 54
value invalid_block_cost = pos 55
value no_end_of_slot_info = pos 56
value invalid_prev_challenge_slot_hash = pos 57
value invalid_sub_epoch_summary_hash = pos 58
value no_sub_epoch_summary_hash = pos 59
value should_not_make_challenge_block = pos 60
value should_make_challenge_block = pos 61
value invalid_challenge_chain_data = pos 62
value invalid_cc_eos_vdf = pos 65
value invalid_rc_eos_vdf = pos 66
value invalid_challenge_slot_hash_rc = pos 67
value invalid_prior_point_rc = pos 68
value invalid_deficit = pos 69
value invalid_sub_epoch_summary = pos 70
value invalid_prev_sub_epoch_summary_hash = pos 71
value invalid_reward_chain_hash = pos 72
value invalid_sub_epoch_overflow = pos 73
value invalid_new_difficulty = pos 74
value invalid_new_sub_slot_iters = pos 75
value invalid_cc_sp_vdf = pos 76
value invalid_rc_sp_vdf = pos 77
value invalid_cc_signature = pos 78
value invalid_rc_signature = pos 79
value cannot_make_cc_block = pos 80
value invalid_rc_sp_prev_ip = pos 81
value invalid_rc_ip_prev_ip = pos 82
value invalid_is_transaction_block = pos 83
value invalid_ursb_hash = pos 84
value old_pool_target = pos 85
value invalid_pool_signature = pos 86
value invalid_foliage_block_presence = pos 87
value invalid_cc_ip_vdf = pos 88
value invalid_rc_ip_vdf = pos 89
value ip_should_be_none = pos 90
value invalid_reward_block_hash = pos 91
value invalid_made_non_overflow_infusions = pos 92
value no_overflows_in_first_sub_slot_new_epoch = pos 93
value mempool_not_initialized = pos 94
value should_not_have_icc = pos 95
value should_have_icc = pos 96
value invalid_icc_vdf = pos 97
value invalid_icc_hash_cc = pos 98
value invalid_icc_hash_rc = pos 99
value invalid_icc_eos_vdf = pos 100
value invalid_sp_index = pos 101
value too_many_blocks = pos 102
value invalid_cc_challenge = pos 103
value invalid_prefarm = pos 104
value assert_seconds_relative_failed = pos 105
value bad_coinbase_signature = pos 106
value no_transactions_while_syncing = pos 108
value already_including_transaction = pos 109
value incompatible_network_id = pos 110
value pre_soft_fork_max_generator_size = pos 111
value invalid_required_iters = pos 112
value too_many_generator_refs = pos 113
value assert_my_parent_id_failed = pos 114
value assert_my_puzzlehash_failed = pos 115
value assert_my_amount_failed = pos 116
value generator_runtime_error = pos 117
value invalid_cost_result = pos 118
value invalid_transactions_generator_refs_root = pos 119
value future_generator_refs = pos 120
value generator_ref_has_no_generator = pos 121
value double_spend_in_fork = pos 122
value invalid_fee_too_close_to_zero = pos 123
value coin_amount_negative = pos 124
value internal_protocol_error = pos 125
value invalid_spend_bundle = pos 126

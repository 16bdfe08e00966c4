-- ===== src/Server/RateLimits/Types.antt =====
-- `class ProtocolMessageTypes` of chia/protocols/protocol_message_types.py.
use gold_blockchain.Base.{ℕ, Option, none, some, List, [], ◌∷◌, ◌==◌, if◌then◌else◌}

pub data ProtocolMessageTypes : Type 0 where
  handshake harvester_handshake new_proof_of_space request_signatures : ProtocolMessageTypes
  respond_signatures new_signage_point declare_proof_of_space : ProtocolMessageTypes
  request_signed_values signed_values farming_info new_peak_timelord : ProtocolMessageTypes
  new_unfinished_block_timelord new_infusion_point_vdf new_signage_point_vdf : ProtocolMessageTypes
  new_end_of_sub_slot_vdf request_compact_proof_of_time : ProtocolMessageTypes
  respond_compact_proof_of_time new_peak new_transaction request_transaction : ProtocolMessageTypes
  respond_transaction request_proof_of_weight respond_proof_of_weight : ProtocolMessageTypes
  request_block respond_block reject_block request_blocks respond_blocks : ProtocolMessageTypes
  reject_blocks new_unfinished_block request_unfinished_block : ProtocolMessageTypes
  respond_unfinished_block new_signage_point_or_end_of_sub_slot : ProtocolMessageTypes
  request_signage_point_or_end_of_sub_slot respond_signage_point : ProtocolMessageTypes
  respond_end_of_sub_slot request_mempool_transactions request_compact_vdf : ProtocolMessageTypes
  respond_compact_vdf new_compact_vdf request_peers respond_peers : ProtocolMessageTypes
  request_puzzle_solution respond_puzzle_solution reject_puzzle_solution : ProtocolMessageTypes
  send_transaction transaction_ack new_peak_wallet request_block_header : ProtocolMessageTypes
  respond_block_header reject_header_request request_removals respond_removals :
      ProtocolMessageTypes
  reject_removals_request request_additions respond_additions : ProtocolMessageTypes
  reject_additions_request request_header_blocks reject_header_blocks : ProtocolMessageTypes
  respond_header_blocks request_peers_introducer respond_peers_introducer : ProtocolMessageTypes
  farm_new_block new_signage_point_harvester request_plots respond_plots : ProtocolMessageTypes
  coin_state_update register_interest_in_puzzle_hash respond_to_ph_update : ProtocolMessageTypes
  register_interest_in_coin respond_to_coin_update request_children : ProtocolMessageTypes
  respond_children request_ses_hashes respond_ses_hashes request_stakings : ProtocolMessageTypes
  respond_stakings : ProtocolMessageTypes

-- The number of a type.
unfoldable pub type_value : ProtocolMessageTypes → ℕ
type_value handshake = 1
type_value harvester_handshake = 3
type_value new_proof_of_space = 5
type_value request_signatures = 6
type_value respond_signatures = 7
type_value new_signage_point = 8
type_value declare_proof_of_space = 9
type_value request_signed_values = 10
type_value signed_values = 11
type_value farming_info = 12
type_value new_peak_timelord = 13
type_value new_unfinished_block_timelord = 14
type_value new_infusion_point_vdf = 15
type_value new_signage_point_vdf = 16
type_value new_end_of_sub_slot_vdf = 17
type_value request_compact_proof_of_time = 18
type_value respond_compact_proof_of_time = 19
type_value new_peak = 20
type_value new_transaction = 21
type_value request_transaction = 22
type_value respond_transaction = 23
type_value request_proof_of_weight = 24
type_value respond_proof_of_weight = 25
type_value request_block = 26
type_value respond_block = 27
type_value reject_block = 28
type_value request_blocks = 29
type_value respond_blocks = 30
type_value reject_blocks = 31
type_value new_unfinished_block = 32
type_value request_unfinished_block = 33
type_value respond_unfinished_block = 34
type_value new_signage_point_or_end_of_sub_slot = 35
type_value request_signage_point_or_end_of_sub_slot = 36
type_value respond_signage_point = 37
type_value respond_end_of_sub_slot = 38
type_value request_mempool_transactions = 39
type_value request_compact_vdf = 40
type_value respond_compact_vdf = 41
type_value new_compact_vdf = 42
type_value request_peers = 43
type_value respond_peers = 44
type_value request_puzzle_solution = 45
type_value respond_puzzle_solution = 46
type_value reject_puzzle_solution = 47
type_value send_transaction = 48
type_value transaction_ack = 49
type_value new_peak_wallet = 50
type_value request_block_header = 51
type_value respond_block_header = 52
type_value reject_header_request = 53
type_value request_removals = 54
type_value respond_removals = 55
type_value reject_removals_request = 56
type_value request_additions = 57
type_value respond_additions = 58
type_value reject_additions_request = 59
type_value request_header_blocks = 60
type_value reject_header_blocks = 61
type_value respond_header_blocks = 62
type_value request_peers_introducer = 63
type_value respond_peers_introducer = 64
type_value farm_new_block = 65
type_value new_signage_point_harvester = 66
type_value request_plots = 67
type_value respond_plots = 68
type_value coin_state_update = 69
type_value register_interest_in_puzzle_hash = 70
type_value respond_to_ph_update = 71
type_value register_interest_in_coin = 72
type_value respond_to_coin_update = 73
type_value request_children = 74
type_value respond_children = 75
type_value request_ses_hashes = 76
type_value respond_ses_hashes = 77
type_value request_stakings = 100
type_value respond_stakings = 101

abbrev all_types : List ProtocolMessageTypes
all_types =
    handshake ∷ harvester_handshake ∷ new_proof_of_space ∷ request_signatures ∷ respond_signatures
    ∷ new_signage_point ∷ declare_proof_of_space ∷ request_signed_values ∷ signed_values
    ∷ farming_info ∷ new_peak_timelord ∷ new_unfinished_block_timelord ∷ new_infusion_point_vdf
    ∷ new_signage_point_vdf ∷ new_end_of_sub_slot_vdf ∷ request_compact_proof_of_time
    ∷ respond_compact_proof_of_time ∷ new_peak ∷ new_transaction ∷ request_transaction
    ∷ respond_transaction ∷ request_proof_of_weight ∷ respond_proof_of_weight ∷ request_block
    ∷ respond_block ∷ reject_block ∷ request_blocks ∷ respond_blocks ∷ reject_blocks
    ∷ new_unfinished_block ∷ request_unfinished_block ∷ respond_unfinished_block
    ∷ new_signage_point_or_end_of_sub_slot ∷ request_signage_point_or_end_of_sub_slot
    ∷ respond_signage_point ∷ respond_end_of_sub_slot ∷ request_mempool_transactions
    ∷ request_compact_vdf ∷ respond_compact_vdf ∷ new_compact_vdf ∷ request_peers ∷ respond_peers
    ∷ request_puzzle_solution ∷ respond_puzzle_solution ∷ reject_puzzle_solution ∷ send_transaction
    ∷ transaction_ack ∷ new_peak_wallet ∷ request_block_header ∷ respond_block_header
    ∷ reject_header_request ∷ request_removals ∷ respond_removals ∷ reject_removals_request
    ∷ request_additions ∷ respond_additions ∷ reject_additions_request ∷ request_header_blocks
    ∷ reject_header_blocks ∷ respond_header_blocks ∷ request_peers_introducer
    ∷ respond_peers_introducer ∷ farm_new_block ∷ new_signage_point_harvester ∷ request_plots
    ∷ respond_plots ∷ coin_state_update ∷ register_interest_in_puzzle_hash ∷ respond_to_ph_update
    ∷ register_interest_in_coin ∷ respond_to_coin_update ∷ request_children ∷ respond_children
    ∷ request_ses_hashes ∷ respond_ses_hashes ∷ request_stakings ∷ respond_stakings ∷ []

find_type : ℕ → List ProtocolMessageTypes → Option ProtocolMessageTypes
unfolding type_value
find_type n [] = none
find_type n (t ∷ types) = let rest = find_type n types in if type_value t == n then some t else rest

-- `ProtocolMessageTypes(n)`: none where it raises, for a number that is no member's.
unfoldable pub of_value : ℕ → Option ProtocolMessageTypes
unfolding find_type
of_value n = find_type n all_types

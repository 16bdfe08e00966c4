-- ===== src/FullNode/Npc.antt =====
-- What running the puzzles of a transaction gives: chia/types/name_puzzle_condition.py, with the
-- coins that its conditions create (chia/util/condition_tools.py, generator_tools.py), and the
-- spend bundles of chia/types/spend_bundle.py and coin_spend.py.
use gold_blockchain.Base.{
  ℕ, ◌+◌, ◌*◌, not, Option, none, some, List, [], ◌∷◌, ◌++◌, map, ◌==◌, if◌then◌else◌, length,
  get_elem?, value_error, assertion_error, index_error, Result, ok, err, ◌>>=◌, ◌>>◌, guard,
  or_raise,
}
use gold_blockchain.Base.Dict.{Dict, contains, insert, lookup}
use gold_blockchain.Base.Int.{ℤ, pos, negsuc}
use gold_blockchain.Base.Ints.{uint64}
use gold_blockchain.Consensus.BlockRecord.{Coin}
use gold_blockchain.FullNode.Conditions.{
  ConditionOpcode, ConditionWithArgs, agg_sig_unsafe, agg_sig_me, create_coin, reserve_fee,
  create_coin_announcement, assert_coin_announcement, create_puzzle_announcement,
  assert_puzzle_announcement, assert_my_coin_id, assert_my_parent_id, assert_my_puzzlehash,
  assert_my_amount, assert_seconds_relative, assert_seconds_absolute, assert_height_relative,
  assert_height_absolute,
}

pub record Npc : Type 0 where
  pub coin_name : ℕ
  pub puzzle_hash : ℕ
  pub conditions : List (ConditionOpcode × List ConditionWithArgs)

pub record NpcResult : Type 0 where
  pub error : Option ℕ
  pub npc_list : List Npc
  pub clvm_cost : ℕ

pub record CoinSpend : Type 0 where
  pub coin : Coin
  pub puzzle_reveal : List ℕ
  pub solution : List ℕ

pub record SpendBundle : Type 0 where
  pub coin_spends : List CoinSpend
  pub aggregated_signature : ℕ

-- `SpendBundle.removals`
unfoldable pub bundle_removals : SpendBundle → List Coin
bundle_removals bundle = map (λ s. s.coin) bundle.coin_spends

-- The byte that an opcode is.
unfoldable pub opcode_value : ConditionOpcode → ℕ
opcode_value agg_sig_unsafe = 49
opcode_value agg_sig_me = 50
opcode_value create_coin = 51
opcode_value reserve_fee = 52
opcode_value create_coin_announcement = 60
opcode_value assert_coin_announcement = 61
opcode_value create_puzzle_announcement = 62
opcode_value assert_puzzle_announcement = 63
opcode_value assert_my_coin_id = 70
opcode_value assert_my_parent_id = 71
opcode_value assert_my_puzzlehash = 72
opcode_value assert_my_amount = 73
opcode_value assert_seconds_relative = 80
opcode_value assert_seconds_absolute = 81
opcode_value assert_height_relative = 82
opcode_value assert_height_absolute = 83

-- A dict keyed by opcodes.
abbrev pub ConditionDict : Type 0
ConditionDict = Dict (List ConditionWithArgs)

-- The loop of `condition_dict`: an opcode that comes twice fails its assertion.
unfoldable pub collect_conditions :
    List (ConditionOpcode × List ConditionWithArgs) → ConditionDict → Result ConditionDict
unfolding opcode_value
collect_conditions [] d = ok d
collect_conditions ((opcode, l) ∷ conditions) d = do
  guard (not (contains (opcode_value opcode) d)) assertion_error
  collect_conditions conditions (insert (opcode_value opcode) l d)

unfoldable pub condition_dict : Npc → Result ConditionDict
unfolding collect_conditions
condition_dict npc = collect_conditions npc.conditions []

-- `d.get(opcode, [])`
unfoldable pub of_opcode : ConditionOpcode → ConditionDict → List ConditionWithArgs
unfolding opcode_value
of_opcode opcode d = elim (lookup (opcode_value opcode) d) [ none ↦ [] | some l ↦ l ]

-- A byte string as the number with these bytes.
unfoldable pub bytes_value : ℕ → List ℕ → ℕ
bytes_value high [] = high
bytes_value high (b ∷ bytes) = bytes_value (high * 256 + b) bytes

-- A hash must have 32 bytes.
unfoldable pub bytes32 : List ℕ → Result ℕ
unfolding bytes_value
bytes32 bytes = if length bytes == 32 then ok (bytes_value 0 bytes) else err assertion_error

-- The sized integer of a number that may be negative.
unfoldable pub uint64_of : ℤ → Result ℕ
uint64_of (pos n) = uint64 n
uint64_of (negsuc n) = err value_error

module _ (int_from_bytes : List ℕ → Option ℤ) where
  unfoldable pub created_output : ConditionWithArgs → ℕ → Result Coin
  unfolding bytes32 uint64_of
  created_output cvp input_coin_name = do
    puzzle_hash ← or_raise (get_elem? cvp.vars 0) index_error
    amount_bin ← or_raise (get_elem? cvp.vars 1) index_error
    amount ← or_raise (int_from_bytes amount_bin) value_error
    amount' ← uint64_of amount
    puzzle_hash' ← bytes32 puzzle_hash
    ok (record { parent_coin_info = input_coin_name; puzzle_hash = puzzle_hash'; amount = amount' })

  unfoldable pub created_outputs : List ConditionWithArgs → ℕ → Result (List Coin)
  unfolding created_output
  created_outputs [] input_coin_name = ok []
  created_outputs (cvp ∷ cvps) input_coin_name = do
    coin ← created_output cvp input_coin_name
    coins ← created_outputs cvps input_coin_name
    ok (coin ∷ coins)

  unfoldable pub created_outputs_for_conditions_dict : ConditionDict → ℕ → Result (List Coin)
  unfolding created_outputs of_opcode
  created_outputs_for_conditions_dict conditions_dict input_coin_name =
      created_outputs (of_opcode create_coin conditions_dict) input_coin_name

  unfoldable pub additions_for_npc : List Npc → Result (List Coin)
  unfolding created_outputs_for_conditions_dict condition_dict
  additions_for_npc [] = ok []
  additions_for_npc (npc ∷ npc_list) = do
    d ← condition_dict npc
    coins ← created_outputs_for_conditions_dict d npc.coin_name
    additions ← additions_for_npc npc_list
    ok (coins ++ additions)

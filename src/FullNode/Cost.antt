-- ===== src/FullNode/Cost.antt =====
-- chia/consensus/cost_calculator.py, with chia/consensus/condition_costs.py.
use gold_blockchain.Base.{ℕ, ◌+◌, ◌*◌, List, [], ◌∷◌, length, Result, ok, ◌>>=◌}
use gold_blockchain.Base.Ints.{uint64}
use gold_blockchain.FullNode.Conditions.{
  ConditionOpcode, ConditionWithArgs, agg_sig_unsafe, agg_sig_me, create_coin, reserve_fee,
  create_coin_announcement, assert_coin_announcement, create_puzzle_announcement,
  assert_puzzle_announcement, assert_my_coin_id, assert_my_parent_id, assert_my_puzzlehash,
  assert_my_amount, assert_seconds_relative, assert_seconds_absolute, assert_height_relative,
  assert_height_absolute,
}
use gold_blockchain.FullNode.Npc.{Npc, NpcResult, condition_dict}

-- `ConditionCost`, by the opcode that a cost belongs to.
unfoldable pub condition_cost : ConditionOpcode → ℕ
condition_cost agg_sig_unsafe = 1200000
condition_cost agg_sig_me = 1200000
condition_cost create_coin = 1800000
condition_cost assert_my_coin_id = 0
condition_cost assert_my_parent_id = 0
condition_cost assert_my_puzzlehash = 0
condition_cost assert_my_amount = 0
condition_cost assert_seconds_relative = 0
condition_cost assert_seconds_absolute = 0
condition_cost assert_height_relative = 0
condition_cost assert_height_absolute = 0
condition_cost reserve_fee = 0
condition_cost create_coin_announcement = 0
condition_cost assert_coin_announcement = 0
condition_cost create_puzzle_announcement = 0
condition_cost assert_puzzle_announcement = 0

-- The inner loop; an opcode comes once, so the entries are those of the dict.
unfoldable pub cost_of_conditions : ℕ → List (ConditionOpcode × List ConditionWithArgs) → ℕ
unfolding condition_cost
cost_of_conditions total_cost [] = total_cost
cost_of_conditions total_cost ((condition, cvp_list) ∷ conditions) =
    cost_of_conditions (total_cost + length cvp_list * condition_cost condition) conditions

unfoldable pub cost_of_npcs : ℕ → List Npc → Result ℕ
unfolding cost_of_conditions condition_dict
cost_of_npcs total_cost [] = ok total_cost
cost_of_npcs total_cost (npc ∷ npc_list) = do
  _ ← condition_dict npc
  cost_of_npcs (cost_of_conditions total_cost npc.conditions) npc_list

-- The cost of running, of the conditions and of the size of the program, a byte string.
unfoldable pub calculate_cost_of_program : List ℕ → NpcResult → ℕ → Result ℕ
unfolding cost_of_npcs
calculate_cost_of_program program npc_result cost_per_byte = do
  total_cost ← cost_of_npcs npc_result.clvm_cost npc_result.npc_list
  uint64 (total_cost + length program * cost_per_byte)

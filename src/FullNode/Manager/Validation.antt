-- ===== src/FullNode/Manager/Validation.antt =====
-- All the checks of `add_spendbundle` of chia/full_node/mempool_manager.py, in its order. The name of
-- a coin, the program that simply quotes a bundle, the numbers of the CLVM and the clock are
-- parameters.
use gold_blockchain.Base.{
  ℕ, ◌-◌, not, Option, none, some, List, [], map, ltb, ◌==◌, if◌then◌else◌, assertion_error, guard,
}
use gold_blockchain.Base.Dict.{Dict, contains}
use gold_blockchain.Base.Floats.{true_div}
use gold_blockchain.Base.Int.{ℤ}
use gold_blockchain.Base.Ints.{uint64}
use gold_blockchain.Consensus.BlockRecord.{BlockRecord, Coin, is_some}
use gold_blockchain.Consensus.Constants.{ConsensusConstants}
use gold_blockchain.FullNode.Conditions.{CoinRecord}
use gold_blockchain.FullNode.Conditions.Errors.{
  Err, mempool_not_initialized, block_cost_exceeds_max, invalid_spend_bundle, duplicate_output,
  double_spend, minting_coin, reserve_fee_condition_failed, unknown, mempool_conflict,
}
use gold_blockchain.FullNode.Cost.{calculate_cost_of_program}
use gold_blockchain.FullNode.Items.{MempoolItem}
use gold_blockchain.FullNode.Npc.{Npc, NpcResult, SpendBundle, bundle_removals, additions_for_npc}
use gold_blockchain.FullNode.Mempool.SortedDict.{SortedMap}
use gold_blockchain.FullNode.Manager.{Manager, limit_cost, check_removals, can_replace}
use gold_blockchain.FullNode.Manager.Steps.{
  Step, go, refused, already, waits, ◌>>=◌, ◌>>◌, call, refuse_if,
}
use gold_blockchain.FullNode.Manager.Checks.{
  same_elements, has_duplicates, by_name, sum_additions, removal_records, coins_of,
  conflicting_items, reserved_fees, verify_conditions, check_fee,
}

-- What a spend bundle creates: its cost, the coins, and their amount.
pub record Outputs : Type 0 where
  pub cost : ℕ
  pub additions : List Coin
  pub addition_amount : ℕ

abbrev pub removal_names : NpcResult → List ℕ
removal_names npc_result = map (λ npc. npc.coin_name) npc_result.npc_list

module _ (coin_name : Coin → ℕ) (int_from_bytes : List ℕ → Option ℤ) where
  unfoldable pub check_bundle : ConsensusConstants → SpendBundle → NpcResult → List ℕ → Step Outputs
  unfolding sum_additions additions_for_npc calculate_cost_of_program bundle_removals
  check_bundle c new_spend npc_result program = do
    call (guard (not (is_some npc_result.error)) assertion_error)
    cost ← call (calculate_cost_of_program program npc_result c.cost_per_byte)
    refuse_if (ltb (limit_cost c) cost) block_cost_exceeds_max
    refuse_if
        (not (same_elements (removal_names npc_result) (map coin_name (bundle_removals new_spend))))
        invalid_spend_bundle
    additions ← call (additions_for_npc int_from_bytes npc_result.npc_list)
    addition_amount ← sum_additions c.max_coin_amount 0 additions
    refuse_if (has_duplicates (map coin_name additions)) duplicate_output
    refuse_if (has_duplicates (removal_names npc_result)) double_spend
    go (record { cost = cost; additions = additions; addition_amount = addition_amount })

  -- The fees, from the amounts; they cover what the transaction reserves.
  unfoldable pub check_amounts : List Npc → ℕ → ℕ → ℕ → Step ℕ
  unfolding reserved_fees
  check_amounts npc_list cost addition_amount removal_amount = do
    refuse_if (ltb removal_amount addition_amount) minting_coin
    fees ← call (uint64 (removal_amount - addition_amount))
    assert_fee_sum ← reserved_fees int_from_bytes 0 npc_list
    refuse_if (ltb fees assert_fee_sum) reserve_fee_condition_failed
    refuse_if (cost == 0) unknown
    go fees

  module _ {S : SortedMap (Dict MempoolItem)} (m : Manager S) where
    -- What becomes of the conflicts: the new item replaces the pool's, or waits.
    unfoldable pub resolve :
        Dict CoinRecord → MempoolItem → ℕ → Option Err → List Coin → Step (Dict MempoolItem)
    unfolding conflicting_items can_replace
    resolve records item fees_per_cost fail_reason conflicts =
        let replace = (do
          conflicting ← conflicting_items coin_name m.mempool.removals [] conflicts
          better ← call (can_replace coin_name conflicting records item.fee fees_per_cost)
          (if better then go conflicting else waits item mempool_conflict)) in
        elim fail_reason [ none ↦ go [] | some mempool_conflict ↦ replace | some e ↦ refused e ]

    -- The items of the pool that the new one replaces.
    unfoldable pub check_conflicts : Dict CoinRecord → MempoolItem → ℕ → Step (Dict MempoolItem)
    unfolding resolve check_removals
    check_conflicts records item fees_per_cost = do
      (fail_reason, conflicts) ← call (check_removals coin_name m records)
      resolve records item fees_per_cost fail_reason conflicts

    -- The checks of an item against the pool and the peak, with those that it replaces.
    unfoldable pub check_item :
        ℕ
        → BlockRecord
        → Dict CoinRecord
        → List Npc
        → MempoolItem
        → Step (MempoolItem × Dict MempoolItem)
    unfolding check_conflicts check_fee verify_conditions
    check_item now peak records npc_list item = do
      fees_per_cost ← call (true_div item.fee item.cost)
      check_fee m.mempool item.cost fees_per_cost
      conflicting ← check_conflicts records item fees_per_cost
      verify_conditions int_from_bytes now peak records item npc_list
      go (item, conflicting)

    -- The new item, and those that it replaces.
    unfoldable pub validate :
        (SpendBundle → List ℕ)
        → ℕ
        → (ℕ → Option CoinRecord)
        → SpendBundle
        → NpcResult
        → ℕ
        → Option (List ℕ)
        → Step (MempoolItem × Dict MempoolItem)
    unfolding check_bundle check_amounts removal_records check_item
    validate quoted now get_coin_record new_spend npc_result spend_name given_program = do
      peak ← (elim m.peak [ none ↦ refused mempool_not_initialized | some p ↦ go p ])
      let program : List ℕ = elim given_program [ none ↦ quoted new_spend | some p ↦ p ]
      outputs ← check_bundle m.constants new_spend npc_result program
      (if contains spend_name m.mempool.spends then already outputs.cost else go tt)
      (removal_amount, records) ←
          removal_records get_coin_record peak (by_name coin_name outputs.additions []) 0 []
            (removal_names npc_result)
      fees ← check_amounts npc_result.npc_list outputs.cost outputs.addition_amount removal_amount
      let item : MempoolItem = record {
        spend_bundle = new_spend;
        fee = fees;
        npc_result = npc_result;
        cost = outputs.cost;
        spend_bundle_name = spend_name;
        additions = outputs.additions;
        removals = coins_of records;
        program = program;
      }
      check_item now peak records npc_result.npc_list item

-- ===== src/FullNode/Manager/Checks.antt =====
-- The checks of `add_spendbundle` of chia/full_node/mempool_manager.py. The coin store is a lookup:
-- the calls are made under the manager's lock, and the store answers as at one time.
use gold_blockchain.Base.{
  ℕ, ◌+◌, Bool, false, not, ◌&&◌, ◌||◌, Option, none, some, List, [], ◌∷◌, map, ltb, leb, ◌==◌,
  if◌then◌else◌, get_elem?, any, all, value_error, assertion_error, index_error, key_error,
  or_raise,
}
use gold_blockchain.Base.Dict.{Dict, insert, lookup}
use gold_blockchain.Base.Floats.{int_rank}
use gold_blockchain.Base.Int.{ℤ, pos, negsuc, pos_part}
use gold_blockchain.Base.Ints.{uint32, uint64}
use gold_blockchain.Consensus.BlockRecord.{BlockRecord, Coin, is_transaction_block}
use gold_blockchain.FullNode.Conditions.{
  CoinRecord, ConditionWithArgs, reserve_fee, mempool_check_conditions_dict,
}
use gold_blockchain.FullNode.Conditions.Errors.{
  coin_amount_exceeds_maximum, unknown_unspent, reserve_fee_condition_failed,
  invalid_fee_too_close_to_zero, invalid_fee_low_fee, wrong_puzzle_hash,
  assert_height_absolute_failed, assert_height_relative_failed,
}
use gold_blockchain.FullNode.Items.{MempoolItem}
use gold_blockchain.FullNode.Npc.{Npc, condition_dict, of_opcode}
use gold_blockchain.FullNode.Mempool.{Mempool, at_full_capacity, get_min_fee_rate}
use gold_blockchain.FullNode.Mempool.SortedDict.{SortedMap}
use gold_blockchain.FullNode.Manager.{nonzero_fee_minimum_fpc}
use gold_blockchain.FullNode.Manager.Steps.{Step, go, refused, waits, ◌>>=◌, ◌>>◌, call, refuse_if}

-- `set(xs) != set(ys)`, negated.
abbrev pub same_elements : List ℕ → List ℕ → Bool
same_elements xs ys = all (λ x. any (λ y. x == y) ys) xs && all (λ y. any (λ x. y == x) xs) ys

-- Whether a counter of the list has a count above 1.
abbrev pub has_duplicates : List ℕ → Bool
has_duplicates [] = false
has_duplicates (x ∷ xs) = any (λ y. x == y) xs || has_duplicates xs

-- `{coin.name(): coin for coin in coins}`
abbrev pub by_name : (Coin → ℕ) → List Coin → Dict Coin → Dict Coin
by_name coin_name [] d = d
by_name coin_name (coin ∷ coins) d = by_name coin_name coins (insert (coin_name coin) coin d)

-- The amount of the additions, each of them within the limit.
unfoldable pub sum_additions : ℕ → ℕ → List Coin → Step ℕ
sum_additions max_coin_amount total [] = go total
sum_additions max_coin_amount total (coin ∷ coins) = do
  refuse_if (ltb max_coin_amount coin.amount) coin_amount_exceeds_maximum
  total' ← call (uint64 (total + coin.amount))
  sum_additions max_coin_amount total' coins

-- A coin that the same transaction creates is to be included at the next height.
unfoldable pub ephemeral_record : BlockRecord → Coin → Step CoinRecord
ephemeral_record peak coin = do
  timestamp ← call (or_raise peak.timestamp assertion_error)
  height ← call (uint32 (peak.height + 1))
  timestamp' ← call (uint64 (timestamp + 1))
  go (record {
    coin = coin;
    confirmed_block_index = height;
    spent_block_index = 0;
    spent = false;
    coinbase = false;
    timestamp = timestamp';
  })

module _ (get_coin_record : ℕ → Option CoinRecord) (peak : BlockRecord) where
  unfoldable pub removal_record : Dict Coin → ℕ → Step CoinRecord
  unfolding ephemeral_record
  removal_record additions name = elim (lookup name additions) [
    | some coin ↦ ephemeral_record peak coin
    | none ↦ elim (get_coin_record name) [
      | none ↦ refused unknown_unspent
      | some removal ↦ go removal
    ]
  ]

  -- The records of the removals by name, and the sum of their amounts.
  unfoldable pub removal_records :
      Dict Coin → ℕ → Dict CoinRecord → List ℕ → Step (ℕ × Dict CoinRecord)
  unfolding removal_record
  removal_records additions amount records [] = go (amount, records)
  removal_records additions amount records (name ∷ names) = do
    removal ← removal_record additions name
    amount' ← call (uint64 (amount + removal.coin.amount))
    removal_records additions amount' (insert name removal records) names

abbrev pub coins_of : Dict CoinRecord → List Coin
coins_of records = map (λ e. e.1.coin) records

-- The conflicting items, by name.
unfoldable pub conflicting_items :
    (Coin → ℕ) → Dict MempoolItem → Dict MempoolItem → List Coin → Step (Dict MempoolItem)
conflicting_items coin_name pool_removals items [] = go items
conflicting_items coin_name pool_removals items (conflicting ∷ conflicts) = do
  sb ← call (or_raise (lookup (coin_name conflicting) pool_removals) key_error)
  conflicting_items coin_name pool_removals (insert sb.spend_bundle_name sb items) conflicts

module _ (int_from_bytes : List ℕ → Option ℤ) where
  unfoldable pub sum_fees : ℕ → List ConditionWithArgs → Step ℕ
  sum_fees total [] = go total
  sum_fees total (cvp ∷ fee_list) = do
    blob ← call (or_raise (get_elem? cvp.vars 0) index_error)
    fee ← call (or_raise (int_from_bytes blob) value_error)
    let rest = sum_fees (total + pos_part fee) fee_list
    elim fee [ pos _ ↦ rest | negsuc _ ↦ refused reserve_fee_condition_failed ]

  -- What the transaction declares as its least fee.
  unfoldable pub reserved_fees : ℕ → List Npc → Step ℕ
  unfolding sum_fees of_opcode condition_dict
  reserved_fees total [] = go total
  reserved_fees total (npc ∷ npc_list) = do
    d ← call (condition_dict npc)
    total' ← sum_fees total (of_opcode reserve_fee d)
    reserved_fees total' npc_list

  -- The conditions of each spend on the chain. A height that is not reached yet has the item wait.
  unfoldable pub verify_conditions :
      ℕ → BlockRecord → Dict CoinRecord → MempoolItem → List Npc → Step (Unit {0})
  unfolding mempool_check_conditions_dict condition_dict is_transaction_block
  verify_conditions now peak records item [] = go tt
  verify_conditions now peak records item (npc ∷ npc_list) = do
    coin_record ← call (or_raise (lookup npc.coin_name records) key_error)
    refuse_if (not (npc.puzzle_hash == coin_record.coin.puzzle_hash)) wrong_puzzle_hash
    timestamp ← call (or_raise peak.timestamp assertion_error)
    d ← call (condition_dict npc)
    let height =
        if is_transaction_block peak then peak.height else peak.prev_transaction_block_height
    height' ← call (uint32 height)
    error ← call (
        mempool_check_conditions_dict int_from_bytes now coin_record (map (λ e. e.1) d) height'
          (some timestamp))
    let rest = verify_conditions now peak records item npc_list
    elim error [
      | none ↦ rest
      | some assert_height_absolute_failed ↦ waits item assert_height_absolute_failed
      | some assert_height_relative_failed ↦ waits item assert_height_relative_failed
      | some e ↦ refused e
    ]

-- Where the pool is full, a fee that is nonzero and above the rate of those that would go.
unfoldable pub check_fee : {S : SortedMap (Dict MempoolItem)} → Mempool S → ℕ → ℕ → Step (Unit {0})
unfolding at_full_capacity get_min_fee_rate
check_fee pool cost fees_per_cost =
    let low = (do
      refuse_if (ltb fees_per_cost (int_rank nonzero_fee_minimum_fpc)) invalid_fee_too_close_to_zero
      rate ← call (get_min_fee_rate pool cost)
      refuse_if (leb fees_per_cost rate) invalid_fee_low_fee) in
    if at_full_capacity pool cost then low else go tt

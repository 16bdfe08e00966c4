-- ===== src/FullNode/Manager/NewPeak.antt =====
-- `new_peak` of chia/full_node/mempool_manager.py.
use gold_blockchain.Base.{
  ℕ, Bool, true, false, not, ◌||◌, Option, none, some, List, [], ◌∷◌, ◌++◌, map, ◌==◌,
  if◌then◌else◌, any, assertion_error, Result, ok, ◌>>=◌, ◌>>◌, guard,
}
use gold_blockchain.Base.Dict.{Dict}
use gold_blockchain.Base.Int.{ℤ}
use gold_blockchain.Consensus.BlockRecord.{
  BlockRecord, same_record, Coin, is_transaction_block, is_some,
}
use gold_blockchain.FullNode.Conditions.{CoinRecord}
use gold_blockchain.FullNode.Items.{MempoolItem}
use gold_blockchain.FullNode.Npc.{NpcResult, SpendBundle}
use gold_blockchain.FullNode.PendingTxCache.{drain}
use gold_blockchain.FullNode.Mempool.{new_mempool, add_to_pool, get_min_fee_rate}
use gold_blockchain.FullNode.Mempool.SortedDict.{SortedMap}
use gold_blockchain.FullNode.Manager.{Manager, remove_seen}
use gold_blockchain.FullNode.Manager.Steps.{MempoolInclusionStatus, success, pending, failed}
use gold_blockchain.FullNode.Manager.Adding.{Answer, add_spendbundle}

-- `self.peak == new_peak`
unfoldable pub is_peak : Option BlockRecord → BlockRecord → Bool
unfolding same_record
is_peak none new_peak = false
is_peak (some peak) new_peak = same_record peak new_peak

abbrev pub is_success : MempoolInclusionStatus → Bool
is_success success = true
is_success pending = false
is_success failed = false

-- `use_optimization`: the new peak is the next transaction block.
abbrev pub follows : Option BlockRecord → BlockRecord → Bool
follows none new_peak = false
follows (some peak) new_peak = elim new_peak.prev_transaction_block_hash [
  | none ↦ false
  | some hash ↦ hash == peak.header_hash
]

module _ {S : SortedMap (Dict MempoolItem)} (coin_name : Coin → ℕ) where
  -- With the optimization: an item none of whose coins has changed is put back unchecked.
  unfoldable pub keep_item : List ℕ → Manager S → MempoolItem → Result (Manager S)
  unfolding remove_seen
  keep_item changed_coins m item =
      let kept = (do
        pool ← add_to_pool coin_name m.mempool item
        ok (record m { mempool = pool })) in
      if any (λ coin. any (λ c. coin_name coin == c) changed_coins) item.removals
      then ok (remove_seen m item.spend_bundle_name)
      else kept

  unfoldable pub keep_unspent : List ℕ → Manager S → Dict MempoolItem → Result (Manager S)
  unfolding keep_item
  keep_unspent changed_coins m [] = ok m
  keep_unspent changed_coins m ((name, item) ∷ items) = do
    m' ← keep_item changed_coins m item
    keep_unspent changed_coins m' items

  module _ (int_from_bytes : List ℕ → Option ℤ) (quoted : SpendBundle → List ℕ) (now : ℕ)
      (get_coin_record : ℕ → Option CoinRecord) where
    abbrev pub add_item : Manager S → MempoolItem → Result (Manager S × Answer)
    add_item m item =
        add_spendbundle coin_name int_from_bytes quoted now get_coin_record m item.spend_bundle
          item.npc_result item.spend_bundle_name (some item.program)

    -- Without it: every item of the old pool is checked again.
    unfoldable pub add_again : Manager S → Dict MempoolItem → Result (Manager S)
    unfolding add_spendbundle remove_seen
    add_again m [] = ok m
    add_again m ((name, item) ∷ items) = do
      (m', answer) ← add_item m item
      let m'' = if is_success answer.1 then m' else remove_seen m' item.spend_bundle_name
      add_again m'' items

    -- The transactions that waited: those that are in the pool now.
    unfoldable pub add_waiting :
        Manager S
        → List (SpendBundle × NpcResult × ℕ)
        → Dict MempoolItem
        → Result (Manager S × List (SpendBundle × NpcResult × ℕ))
    unfolding add_spendbundle
    add_waiting m txs_added [] = ok (m, txs_added)
    add_waiting m txs_added ((name, item) ∷ items) = do
      (m', answer) ← add_item m item
      let added = (item.spend_bundle, item.npc_result, item.spend_bundle_name) ∷ []
      add_waiting m' (if is_success answer.1 then txs_added ++ added else txs_added) items

    -- The pool is built anew for the new peak, from the items of the old one.
    unfoldable pub refill : Manager S → BlockRecord → List ℕ → Result (Manager S)
    unfolding keep_unspent add_again new_mempool
    refill m new_peak changed_coins =
        let emptied : Manager S = record m {
          peak = some new_peak;
          mempool = new_mempool S m.mempool_max_total_cost;
        } in
        let fast = keep_unspent changed_coins emptied m.mempool.spends in
        let slow = add_again emptied m.mempool.spends in
        if follows m.peak new_peak then fast else slow

    -- Then those that waited are tried again. The log reads the least fee.
    unfoldable pub follow_peak :
        Manager S
        → BlockRecord
        → List CoinRecord
        → Result (Manager S × List (SpendBundle × NpcResult × ℕ))
    unfolding refill add_waiting drain get_min_fee_rate
    follow_peak m new_peak coin_changes = do
      guard (is_some new_peak.timestamp) assertion_error
      m' ← refill m new_peak (map (λ (r : CoinRecord). coin_name r.coin) coin_changes)
      let (potential_txs, cache) = drain m'.potential_cache
      (m'', txs_added) ← add_waiting (record m' { potential_cache = cache }) [] potential_txs
      _ ← get_min_fee_rate m''.mempool 100000
      ok (m'', txs_added)

    -- A peak that is no transaction block, or is the peak already, changes nothing.
    unfoldable pub new_peak :
        Manager S
        → Option BlockRecord
        → List CoinRecord
        → Result (Manager S × List (SpendBundle × NpcResult × ℕ))
    unfolding follow_peak is_transaction_block is_peak
    new_peak m none coin_changes = ok (m, [])
    new_peak m (some new) coin_changes =
        let rest = follow_peak m new coin_changes in
        if not (is_transaction_block new) || is_peak m.peak new then ok (m, []) else rest

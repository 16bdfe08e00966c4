-- ===== src/FullNode/Manager.antt =====
-- chia/full_node/mempool_manager.py: the state of `MempoolManager` and its methods beside those that
-- add transactions (Manager/Checks, Manager/Adding) and follow the peak (Manager/NewPeak). The limit
-- factor is one half, and `int` of half the cost of a block is that cost halved, rounded down, for
-- costs below 2 ^ 53.
pub mod Steps
pub mod Checks
pub mod Validation
pub mod Adding
pub mod NewPeak
pub mod Conflicts
pub mod Amounts
pub mod Accepted
pub mod Removed
pub mod Sound
pub mod Peaks
pub mod Following
pub mod Life
pub mod Taking
pub mod Bundle
pub mod Replacing
pub mod Listing
use gold_blockchain.Base.{
  ℕ, ◌+◌, ◌*◌, ◌/◌, Bool, true, false, not, ◌&&◌, Option, none, some, List, [], ◌∷◌, ◌++◌, map,
  reverse, ltb, leb, ◌==◌, if◌then◌else◌, length, all, assertion_error, Result, ok, ◌>>=◌, ◌>>◌,
  or_raise,
}
use gold_blockchain.Base.Dict.{Dict, contains, insert, lookup, erase}
use gold_blockchain.Base.Floats.{true_div, int_rank}
use gold_blockchain.Consensus.BlockRecord.{BlockRecord, Coin}
use gold_blockchain.Consensus.Constants.{ConsensusConstants}
use gold_blockchain.FullNode.Conditions.{CoinRecord}
use gold_blockchain.FullNode.Conditions.Errors.{Err, double_spend, mempool_conflict}
use gold_blockchain.FullNode.Items.{MempoolItem}
use gold_blockchain.FullNode.Npc.{CoinSpend, SpendBundle}
use gold_blockchain.FullNode.PendingTxCache.{PendingTxCache, new_cache}
use gold_blockchain.FullNode.Mempool.{Mempool, new_mempool, at_full_capacity, get_min_fee_rate}
use gold_blockchain.FullNode.Mempool.SortedDict.{SortedMap}

pub record Manager (S : SortedMap (Dict MempoolItem)) : Type 0 where
  pub constants : ConsensusConstants
  pub seen_bundle_hashes : Dict ℕ
  pub mempool_max_total_cost : ℕ
  pub potential_cache : PendingTxCache
  pub seen_cache_size : ℕ
  pub peak : Option BlockRecord
  pub mempool : Mempool S

abbrev pub nonzero_fee_minimum_fpc : ℕ
nonzero_fee_minimum_fpc = 5

-- `int(self.limit_factor * self.constants.MAX_BLOCK_COST_CLVM)`
abbrev pub limit_cost : ConsensusConstants → ℕ
limit_cost c = c.max_block_cost_clvm / 2

unfoldable pub new_manager : (S : SortedMap (Dict MempoolItem)) → ConsensusConstants → Manager S
unfolding new_mempool new_cache
new_manager S c = record {
  constants = c;
  seen_bundle_hashes = [];
  mempool_max_total_cost = c.max_block_cost_clvm * c.mempool_block_buffer;
  potential_cache = new_cache (c.max_block_cost_clvm * 5);
  seen_cache_size = 10000;
  peak = none;
  mempool = new_mempool S (c.max_block_cost_clvm * c.mempool_block_buffer);
}

-- `while len(self.seen_bundle_hashes) > self.seen_cache_size`: the first key goes.
unfoldable pub pop_first_in : ℕ → Dict ℕ → Dict ℕ
pop_first_in limit [] = []
pop_first_in limit (e ∷ hashes) =
    let rest = pop_first_in limit hashes in
    if ltb limit (length (e ∷ hashes)) then rest else e ∷ hashes

-- What goes into a new block.
pub record Block : Type 0 where
  pub cost_sum : ℕ
  pub fee_sum : ℕ
  pub spend_bundles : List SpendBundle
  pub removals : List Coin
  pub additions : List Coin

unfoldable pub append_item : Block → MempoolItem → Block
append_item block item = record {
  cost_sum = block.cost_sum + item.cost;
  fee_sum = block.fee_sum + item.fee;
  spend_bundles = block.spend_bundles ++ item.spend_bundle ∷ [];
  removals = block.removals ++ item.removals;
  additions = block.additions ++ item.additions;
}

-- The inner loop, over the transactions of one fee rate: what is taken, and whether it broke off.
-- The fee rate is computed for the log, which raises where the cost is zero.
unfoldable pub take_rate : ConsensusConstants → Block → Dict MempoolItem → Result (Block × Bool)
unfolding append_item
take_rate c block [] = ok (block, false)
take_rate c block ((name, item) ∷ dic) = do
  _ ← true_div item.fee item.cost
  let rest = take_rate c (append_item block item) dic
  if leb (2 * (item.cost + block.cost_sum)) c.max_block_cost_clvm
        && leb (item.fee + block.fee_sum) c.max_coin_amount
      then rest
      else ok (block, true)

-- The outer loop, over the fee rates, the highest one first.
unfoldable pub take_rates : ConsensusConstants → Block → Dict (Dict MempoolItem) → Result Block
unfolding take_rate
take_rates c block [] = ok block
take_rates c block ((rate, dic) ∷ rates) = do
  (block', broke) ← take_rate c block dic
  let rest = take_rates c block' rates
  if broke then ok block' else rest

abbrev pub empty_block : Block
empty_block = record {
  cost_sum = 0;
  fee_sum = 0;
  spend_bundles = [];
  removals = [];
  additions = [];
}

-- `SpendBundle.aggregate`; the sum of the signatures is a parameter.
unfoldable pub aggregate : (List ℕ → ℕ) → List SpendBundle → SpendBundle
aggregate aggregate_signatures bundles = record {
  coin_spends = all_spends bundles;
  aggregated_signature = aggregate_signatures (map (λ b. b.aggregated_signature) bundles);
}
  where
    all_spends : List SpendBundle → List CoinSpend
    all_spends [] = []
    all_spends (b ∷ bs) = b.coin_spends ++ all_spends bs

-- The items of one fee rate that a filter does not match, up to the limit.
unfoldable pub not_matched :
    (ℕ → Bool) → ℕ → List MempoolItem → Dict MempoolItem → List MempoolItem × Bool
not_matched matches limit items [] = (items, false)
not_matched matches limit items ((name, item) ∷ dic) =
    let rest =
      not_matched matches limit
        (if matches item.spend_bundle_name then items else items ++ item ∷ []) dic in
    if length items == limit then (items, true) else rest

unfoldable pub not_in_filter :
    (ℕ → Bool) → ℕ → List MempoolItem → Dict (Dict MempoolItem) → List MempoolItem
unfolding not_matched
not_in_filter matches limit items [] = items
not_in_filter matches limit items ((rate, dic) ∷ rates) =
    let (items', broke) = not_matched matches limit items dic in
    let rest = not_in_filter matches limit items' rates in if broke then items' else rest

-- The sums of the conflicting transactions' fees and costs; none where one of them spends a coin
-- that the new one does not.
unfoldable pub conflicting_sums :
    (Coin → ℕ) → Dict CoinRecord → ℕ → ℕ → Dict MempoolItem → Option (ℕ × ℕ)
conflicting_sums coin_name removals fees cost [] = some (fees, cost)
conflicting_sums coin_name removals fees cost ((name, item) ∷ items) =
    let rest = conflicting_sums coin_name removals (fees + item.fee) (cost + item.cost) items in
    if all (λ coin. contains (coin_name coin) removals) item.removals then rest else none

abbrev pub min_fee_increase : ℕ
min_fee_increase = 10000000

unfoldable pub can_replace : (Coin → ℕ) → Dict MempoolItem → Dict CoinRecord → ℕ → ℕ → Result Bool
unfolding conflicting_sums
can_replace coin_name conflicting_items removals fees fees_per_cost =
    elim (conflicting_sums coin_name removals 0 0 conflicting_items) [
      | none ↦ ok false
      | some (conflicting_fees, conflicting_cost) ↦ do
        conflicting_fees_per_cost ← true_div conflicting_fees conflicting_cost
        ok (
            ltb conflicting_fees_per_cost fees_per_cost
            && leb (conflicting_fees + min_fee_increase) fees)
    ]

-- The loop of `check_removals`: a spent coin, or the coins that the pool spends too.
unfoldable pub conflicts_among :
    (Coin → ℕ) → Dict MempoolItem → List Coin → Dict CoinRecord → Option Err × List Coin
conflicts_among coin_name pool_removals conflicts [] =
    if ltb 0 (length conflicts) then (some mempool_conflict, conflicts) else (none, [])
conflicts_among coin_name pool_removals conflicts ((name, record') ∷ removals) =
    let rest =
      conflicts_among coin_name pool_removals
        (if contains (coin_name record'.coin) pool_removals
          then conflicts ++ record'.coin ∷ []
          else conflicts)
        removals in
    if record'.spent then (some double_spend, []) else rest

module _ {S : SortedMap (Dict MempoolItem)} where
  unfoldable pub add_and_maybe_pop_seen : Manager S → ℕ → Manager S
  unfolding pop_first_in
  add_and_maybe_pop_seen m spend_name = record m {
    seen_bundle_hashes =
        pop_first_in m.seen_cache_size (insert spend_name spend_name m.seen_bundle_hashes);
  }

  unfoldable pub seen : Manager S → ℕ → Bool
  seen m bundle_hash = contains bundle_hash m.seen_bundle_hashes

  unfoldable pub remove_seen : Manager S → ℕ → Manager S
  remove_seen m bundle_hash =
      if contains bundle_hash m.seen_bundle_hashes
      then record m { seen_bundle_hashes = erase bundle_hash m.seen_bundle_hashes }
      else m

  unfoldable pub get_mempool_item : Manager S → ℕ → Option MempoolItem
  get_mempool_item m bundle_hash = lookup bundle_hash m.mempool.spends

  unfoldable pub get_spendbundle : Manager S → ℕ → Option SpendBundle
  get_spendbundle m bundle_hash = elim (lookup bundle_hash m.mempool.spends) [
    | none ↦ none
    | some item ↦ some item.spend_bundle
  ]

  unfoldable pub is_fee_enough : Manager S → ℕ → ℕ → Result Bool
  unfolding at_full_capacity
  is_fee_enough m fees cost = if cost == 0 then ok false else do
    fees_per_cost ← true_div fees cost
    let above = (do rate ← get_min_fee_rate m.mempool cost; ok (ltb rate fees_per_cost))
    let enough = if ltb fees_per_cost (int_rank nonzero_fee_minimum_fpc) then ok false else above
    if at_full_capacity m.mempool cost then enough else ok true

  unfoldable pub check_removals :
      (Coin → ℕ) → Manager S → Dict CoinRecord → Result (Option Err × List Coin)
  unfolding conflicts_among
  check_removals coin_name m removals = do
    _ ← or_raise m.peak assertion_error
    ok (conflicts_among coin_name m.mempool.removals [] removals)

  unfoldable pub get_items_not_in_filter : Manager S → (ℕ → Bool) → ℕ → List MempoolItem
  unfolding not_in_filter
  get_items_not_in_filter m matches limit =
      not_in_filter matches limit [] (S.items m.mempool.sorted_spends)

  -- None where the peak is another one, or no transaction fits.
  unfoldable pub create_bundle_from_mempool :
      (List ℕ → ℕ) → Manager S → ℕ → Result (Option (SpendBundle × List Coin × List Coin))
  unfolding take_rates aggregate
  create_bundle_from_mempool aggregate_signatures m last_tb_header_hash = elim m.peak [
    | none ↦ ok none
    | some peak ↦ if not (peak.header_hash == last_tb_header_hash) then ok none else do
      block ← take_rates m.constants empty_block (reverse (S.items m.mempool.sorted_spends))
      let bundle = aggregate aggregate_signatures block.spend_bundles
      ok (
          if ltb 0 (length block.spend_bundles)
          then some (bundle, block.additions, block.removals)
          else none)
  ]

-- ===== src/FullNode/Mempool.antt =====
-- chia/full_node/mempool.py: the pool of transactions, by name, by fee, and by the coins they make
-- and spend. The name of a coin, its hash, and the sorted dict are parameters.
pub mod Rate
pub mod SortedDict
pub mod Totals
pub mod Keeps
pub mod Adding
pub mod FeeRate
pub mod Coins
pub mod Evicting
pub mod MakingRoom
use gold_blockchain.Base.{
  ℕ, zero, suc, ◌+◌, ◌-◌, Bool, true, false, none, some, List, [], ◌∷◌, map, ltb, leb, ◌==◌,
  if◌then◌else◌, length, get_elem?, value_error, assertion_error, index_error, key_error, no_fuel,
  Result, ok, err, ◌>>=◌, ◌>>◌, guard, or_raise,
}
use gold_blockchain.Base.Dict.{Dict, contains, insert, lookup, erase}
use gold_blockchain.Consensus.BlockRecord.{Coin}
use gold_blockchain.FullNode.Items.{MempoolItem}
use gold_blockchain.FullNode.Mempool.Rate.{fee_per_cost}
use gold_blockchain.FullNode.Mempool.SortedDict.{SortedMap}

pub record Mempool (S : SortedMap (Dict MempoolItem)) : Type 0 where
  pub spends : Dict MempoolItem
  pub sorted_spends : S.Carrier
  pub additions : Dict MempoolItem
  pub removals : Dict MempoolItem
  pub max_size_in_cost : ℕ
  pub total_mempool_cost : ℕ

unfoldable pub new_mempool : (S : SortedMap (Dict MempoolItem)) → ℕ → Mempool S
new_mempool S max_size_in_cost = record {
  spends = [];
  sorted_spends = S.empty;
  additions = [];
  removals = [];
  max_size_in_cost = max_size_in_cost;
  total_mempool_cost = 0;
}

-- `del d[k]`
unfoldable pub del : {V : Type 0} → ℕ → Dict V → Result (Dict V)
del k d = if contains k d then ok (erase k d) else err key_error

unfoldable pub del_all : {V : Type 0} → List ℕ → Dict V → Result (Dict V)
unfolding del
del_all [] d = ok d
del_all (k ∷ ks) d = do left ← del k d; del_all ks left

-- `d[k] = v` for all the keys.
abbrev pub insert_all : {V : Type 0} → List ℕ → V → Dict V → Dict V
insert_all [] v d = d
insert_all (k ∷ ks) v d = insert_all ks v (insert k v d)

-- The transactions of one fee rate, removed one at a time: whether the new one fits after some, or
-- the cost that has been removed. `needed` is the pool's cost and the new one's.
unfoldable pub fits_after : ℕ → ℕ → ℕ → Dict MempoolItem → Bool × ℕ
fits_after needed limit removed [] = (false, removed)
fits_after needed limit removed ((spend_name, item) ∷ spends) =
    let rest = fits_after needed limit (removed + item.cost) spends in
    if leb needed (limit + (removed + item.cost)) then (true, removed + item.cost) else rest

unfoldable pub first_rate : ℕ → ℕ → ℕ → Dict (Dict MempoolItem) → Result ℕ
first_rate needed limit removed [] = err value_error
first_rate needed limit removed ((rate, spends) ∷ sorted) =
    let (fits, removed') = fits_after needed limit removed spends in
    let rest = first_rate needed limit removed' sorted in if fits then ok rate else rest

module _ {S : SortedMap (Dict MempoolItem)} where
  unfoldable pub at_full_capacity : Mempool S → ℕ → Bool
  at_full_capacity pool cost = ltb pool.max_size_in_cost (pool.total_mempool_cost + cost)

  unfoldable pub get_min_fee_rate : Mempool S → ℕ → Result ℕ
  unfolding first_rate at_full_capacity
  get_min_fee_rate pool cost =
      if at_full_capacity pool cost
      then first_rate (pool.total_mempool_cost + cost) pool.max_size_in_cost 0
          (S.items pool.sorted_spends)
      else ok 0

-- The `del`s in `sorted_spends`.
unfoldable pub remove_sorted :
    (S : SortedMap (Dict MempoolItem)) → ℕ → ℕ → S.Carrier → Result S.Carrier
remove_sorted S rate name sorted = do
  dic ← or_raise (lookup rate (S.items sorted)) key_error
  left ← del name dic
  ok (if length left == 0 then S.delete rate sorted else S.write rate left sorted)

module _ {S : SortedMap (Dict MempoolItem)} (coin_name : Coin → ℕ) where
  unfoldable pub remove_from_pool : Mempool S → MempoolItem → Result (Mempool S)
  remove_from_pool pool item = do
    removals ← del_all (map coin_name item.removals) pool.removals
    additions ← del_all (map coin_name item.additions) pool.additions
    spends ← del item.spend_bundle_name pool.spends
    rate ← fee_per_cost item
    sorted ← remove_sorted S rate item.spend_bundle_name pool.sorted_spends
    guard (leb item.cost pool.total_mempool_cost) assertion_error
    ok (record {
      spends = spends;
      sorted_spends = sorted;
      additions = additions;
      removals = removals;
      max_size_in_cost = pool.max_size_in_cost;
      total_mempool_cost = pool.total_mempool_cost - item.cost;
    })

  -- `while self.at_full_capacity(item.cost)`: the first transaction of the lowest fee rate goes.
  unfoldable pub make_room : ℕ → Mempool S → ℕ → Result (Mempool S)
  make_room zero pool cost = err no_fuel
  make_room (suc fuel) pool cost =
      let rest = (do
        lowest ← or_raise (get_elem? (S.items pool.sorted_spends) 0) index_error
        to_remove ← or_raise (get_elem? lowest.1 0) index_error
        pool' ← remove_from_pool pool to_remove.1
        make_room fuel pool' cost) in
      if at_full_capacity pool cost then rest else ok pool

  -- The writes of `add_to_pool`.
  unfoldable pub place : Mempool S → MempoolItem → Result (Mempool S)
  place pool item = do
    rate ← fee_per_cost item
    let dic : Dict MempoolItem = elim (lookup rate (S.items pool.sorted_spends)) [
      | none ↦ []
      | some d ↦ d
    ]
    ok (record {
      spends = insert item.spend_bundle_name item pool.spends;
      sorted_spends = S.write rate (insert item.spend_bundle_name item dic) pool.sorted_spends;
      additions = insert_all (map coin_name item.additions) item pool.additions;
      removals = insert_all (map coin_name item.removals) item pool.removals;
      max_size_in_cost = pool.max_size_in_cost;
      total_mempool_cost = pool.total_mempool_cost + item.cost;
    })

  unfoldable pub add_to_pool : Mempool S → MempoolItem → Result (Mempool S)
  add_to_pool pool item = do
    pool' ← make_room (suc (length pool.spends)) pool item.cost
    place pool' item

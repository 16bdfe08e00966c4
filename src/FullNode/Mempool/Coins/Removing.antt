-- ===== src/FullNode/Mempool/Coins/Removing.antt =====
-- Removing a transaction keeps the record of spent coins exact.
use gold_blockchain.Base.{ℕ, ◌≡◌, true, none, some, arith, ◌==◌, if◌then◌else◌, ok}
use gold_blockchain.Base.Dict.{Dict, lookup, IsDict, lookup-erase}
use gold_blockchain.Consensus.BlockRecord.{Coin}
use gold_blockchain.FullNode.Items.{MempoolItem}
use gold_blockchain.FullNode.Mempool.SortedDict.{SortedMap, IsSortedMap}
use gold_blockchain.FullNode.Mempool.{Mempool, del_all, remove_from_pool}
use gold_blockchain.FullNode.Mempool.Keeps.{IsWithout, remove_from_pool-Gives}
use gold_blockchain.FullNode.Mempool.Coins.{
  is_in, spent_names, IsConsistent, Gives-at, del_all-IsDict, lookup-del_all,
}

module _ {S : SortedMap (Dict MempoolItem)} (sorted_map : IsSortedMap S)
    (coin_name : Coin → ℕ) where
  -- The record after a removal.
  removed_record :
      (pool after : Mempool S) (item : MempoolItem)
      → remove_from_pool coin_name pool item ≡ ok after
      → del_all (spent_names coin_name item) pool.removals ≡ ok after.removals
  unfolding remove_from_pool
  removed_record pool after item e = ground arith

  pub lookup-removed :
      (pool after : Mempool S) (item : MempoolItem) (c : ℕ)
      → IsDict pool.removals
      → remove_from_pool coin_name pool item ≡ ok after
      → lookup c after.removals
        ≡ (if is_in c (spent_names coin_name item) then none else lookup c pool.removals)
  lookup-removed pool after item c h e =
      lookup-del_all _ c pool.removals h (removed_record pool after item e)

  module _ (pool after : Mempool S) (item : MempoolItem) (consistent : IsConsistent coin_name pool)
      (at : lookup item.spend_bundle_name pool.spends ≡ some item)
      (e : remove_from_pool coin_name pool item ≡ ok after) where
    pub without : IsWithout sorted_map coin_name pool item after
    without =
        Gives-at _ (IsWithout sorted_map coin_name pool item)
          (remove_from_pool-Gives sorted_map coin_name pool item consistent.valid at) e

    pub lookup-left :
        (k : ℕ)
        → lookup k after.spends
          ≡ (if k == item.spend_bundle_name then none else lookup k pool.spends)
    lookup-left k =
        rw without.1 (lookup-erase item.spend_bundle_name k pool.spends consistent.valid.distinct)

    spent_by_left :
        (c : ℕ) (it : MempoolItem)
        → lookup c after.removals ≡ some it
        → (lookup it.spend_bundle_name after.spends ≡ some it)
          × (is_in c (spent_names coin_name it) ≡ true)
    spent_by_left c it found = ground (
      arith,
      found,
      lookup-removed pool after item c consistent.distinct e,
      consistent.spent_by c it,
      lookup-left it.spend_bundle_name,
      at,
    )

    recorded_left :
        (c k : ℕ) (it : MempoolItem)
        → lookup k after.spends ≡ some it
        → is_in c (spent_names coin_name it) ≡ true
        → lookup c after.removals ≡ some it
    recorded_left c k it found spends = ground (
      arith,
      found,
      spends,
      lookup-removed pool after item c consistent.distinct e,
      consistent.recorded c k it,
      consistent.recorded c item.spend_bundle_name item,
      lookup-left k,
      consistent.valid.named k it,
      at,
    )

    pub removed-IsConsistent : IsConsistent coin_name after
    removed-IsConsistent = record {
      valid = without.0;
      spent_by = spent_by_left;
      recorded = recorded_left;
      distinct =
          del_all-IsDict _ pool.removals consistent.distinct (removed_record pool after item e);
    }

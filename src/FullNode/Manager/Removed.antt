-- ===== src/FullNode/Manager/Removed.antt =====
-- A manager's pool after the items in conflict are removed, as `add_spendbundle` of
-- chia/full_node/mempool_manager.py does.
use gold_blockchain.Base.{ℕ, ◌≡◌, inl, inr, true, none, some, [], ◌∷◌, arith, ok, Result-cases}
use gold_blockchain.Base.Dict.{Dict, lookup}
use gold_blockchain.Consensus.BlockRecord.{Coin}
use gold_blockchain.FullNode.Items.{MempoolItem}
use gold_blockchain.FullNode.Mempool.{Mempool, remove_from_pool}
use gold_blockchain.FullNode.Mempool.SortedDict.{SortedMap, IsSortedMap}
use gold_blockchain.FullNode.Mempool.Coins.{is_in, spent_names, IsConsistent}
use gold_blockchain.FullNode.Mempool.Coins.Removing.{
  lookup-removed, lookup-left, removed-IsConsistent,
}
use gold_blockchain.FullNode.Mempool.Coins.Adding.{IsPartOf, removed-IsPartOf}
use gold_blockchain.FullNode.Manager.Adding.{remove_items}
use gold_blockchain.FullNode.Manager.Conflicts.{AreOf}

module _ {S : SortedMap (Dict MempoolItem)} (sorted_map : IsSortedMap S)
    (coin_name : Coin → ℕ) where
  -- The coins of the items are spent by none of the pool.
  abbrev pub AreGone : Dict MempoolItem → Mempool S → Type 0
  AreGone items pool =
      (c k : ℕ) (item : MempoolItem)
      → lookup k items ≡ some item
      → is_in c (spent_names coin_name item) ≡ true
      → lookup c pool.removals ≡ none

  rest-AreOf :
      (pool pool' : Mempool S) (k : ℕ) (item : MempoolItem) (items : Dict MempoolItem)
      → AreOf pool ((k, item) ∷ items)
      → IsConsistent coin_name pool
      → remove_from_pool coin_name pool item ≡ ok pool'
      → AreOf pool' items
  rest-AreOf pool pool' k item items of consistent e =
      let (name_is, at) = of.held k item (ground arith) in
      record {
        distinct = of.distinct.1;
        held = λ j it found. ground (
          arith,
          found,
          name_is,
          of.distinct.0,
          of.held j it,
          lookup-left sorted_map coin_name pool pool' item consistent (ground (arith, name_is, at))
              e j,
        );
      }

  -- Removing items of the pool: what is left is a part of it that spends none of their coins.
  pub remove_items_lem :
      (pool : Mempool S) (items : Dict MempoolItem) {after : Mempool S}
      → IsConsistent coin_name pool
      → AreOf pool items
      → remove_items coin_name pool items ≡ ok after
      → IsPartOf sorted_map coin_name pool after × AreGone items after
  unfolding remove_items
  remove_items_lem pool [] {after} consistent of e =
      let same : pool ≡ after = ground (arith, e) in
      rw (← same) (
        record { consistent = consistent; kept = λ k it h. h; unspent = λ c h. h },
        λ c k it at. cc,
      )
  remove_items_lem pool ((k, item) ∷ items) {after} consistent of e =
      elim (Result-cases (remove_from_pool coin_name pool item)) [
        | inr (x, fails) ↦ absurd (ground (arith, e, fails))
        | inl (pool', removed) ↦
            let (name_is, at) = of.held k item (ground arith) in
            let there : lookup item.spend_bundle_name pool.spends ≡ some item =
              ground (arith, name_is, at) in
            let still =
              removed-IsConsistent sorted_map coin_name pool pool' item consistent there removed in
            let first =
              removed-IsPartOf sorted_map coin_name pool pool pool' item
                (record { consistent = consistent; kept = λ k it h. h; unspent = λ c h. h }) there
                removed in
            let (part, gone) =
              remove_items_lem pool' items {after = after} still
                (rest-AreOf pool pool' k item items of consistent removed)
                (ground (arith, e, removed)) in
            (
              record {
                consistent = part.consistent;
                kept = λ j it found. first.kept j it (part.kept j it found);
                unspent = λ c none_there. part.unspent c (first.unspent c none_there);
              },
              (λ c j it found spends. ground (
                arith,
                found,
                spends,
                gone c j it,
                part.unspent c,
                lookup-removed sorted_map coin_name pool pool' item c consistent.distinct removed,
              )),
            )
      ]

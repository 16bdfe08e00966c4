-- ===== src/FullNode/Mempool/Keeps.antt =====
-- Removing a transaction, and removing until a cost fits.
use gold_blockchain.Base.{
  ℕ, zero, suc, ◌+◌, ◌-◌, ◌≤◌, ◌<◌, ◌≡◌, refl, ap, ◌∙◌, inl, inr, false, none, some, [], ◌∷◌, map,
  arith, leb, Bool-cases, Option-cases, length, get_elem?, ok, Gives, Gives-bind,
}
use gold_blockchain.Base.Dict.{Dict, lookup, erase, lookup-erase, erase-IsDict, length-erase}
use gold_blockchain.Base.Sums.{sum-erase}
use gold_blockchain.Consensus.BlockRecord.{Coin}
use gold_blockchain.FullNode.Items.{MempoolItem}
use gold_blockchain.FullNode.Mempool.Rate.{fee_per_cost}
use gold_blockchain.FullNode.Mempool.SortedDict.{SortedMap, IsSortedMap}
use gold_blockchain.FullNode.Mempool.{
  Mempool, del, del_all, at_full_capacity, remove_sorted, remove_from_pool, make_room,
}
use gold_blockchain.FullNode.Mempool.Totals.{
  IsListed, IsListing, IsValid, del-Gives, del_all-Gives, rate-Gives, remove_sorted-Gives,
}

module _ {S : SortedMap (Dict MempoolItem)} (sorted_map : IsSortedMap S)
    (coin_name : Coin → ℕ) where
  -- What removing a transaction of the pool leaves.
  abbrev pub IsWithout : Mempool S → MempoolItem → Mempool S → Type 0
  IsWithout pool item after =
      IsValid after
      × (after.spends ≡ erase item.spend_bundle_name pool.spends)
      × (after.max_size_in_cost ≡ pool.max_size_in_cost)

  removed-IsValid :
      (pool : Mempool S) (item : MempoolItem) (sorted : S.Carrier)
      (additions removals : Dict MempoolItem)
      → IsValid pool
      → lookup item.spend_bundle_name pool.spends ≡ some item
      → IsListed (erase item.spend_bundle_name pool.spends) (S.items sorted)
      → IsListing (S.items sorted)
      → IsValid {S = S} (record {
        spends = erase item.spend_bundle_name pool.spends;
        sorted_spends = sorted;
        additions = additions;
        removals = removals;
        max_size_in_cost = pool.max_size_in_cost;
        total_mempool_cost = pool.total_mempool_cost - item.cost;
      })
  removed-IsValid pool item sorted additions removals valid at listed listing =
      let name = item.spend_bundle_name in
      record {
        distinct = erase-IsDict name pool.spends valid.distinct;
        named = λ k it e.
            valid.named k it (ground (arith, e, lookup-erase name k pool.spends valid.distinct));
        listed = listed;
        listing = listing;
        counted = omega (
          arith,
          valid.counted,
          sum-erase (λ (it : MempoolItem). it.cost) name item pool.spends at,
        );
      }

  -- Removing a transaction of a pool in good order leaves one in good order without its name.
  pub remove_from_pool-Gives :
      (pool : Mempool S) (item : MempoolItem)
      → IsValid pool
      → lookup item.spend_bundle_name pool.spends ≡ some item
      → Gives (remove_from_pool coin_name pool item) (IsWithout pool item)
  unfolding remove_from_pool
  remove_from_pool-Gives pool item valid at =
      let name = item.spend_bundle_name in
      let P = IsWithout pool item in
      Gives-bind (del_all (map coin_name item.removals) pool.removals) _ (λ _. Unit) P
        (del_all-Gives _ _)
        (λ removals _.
          Gives-bind (del_all (map coin_name item.additions) pool.additions) _ (λ _. Unit) P
            (del_all-Gives _ _)
            (λ additions _.
              Gives-bind (del name pool.spends) _ (λ left. left ≡ erase name pool.spends) P
                (del-Gives name pool.spends)
                (λ spends is.
                  Gives-bind (fee_per_cost item) _ (λ rate. fee_per_cost item ≡ ok rate) P
                    (rate-Gives item)
                    (λ rate own.
                      Gives-bind (remove_sorted S rate name pool.sorted_spends) _
                        (λ after.
                          IsListed (erase name pool.spends) (S.items after)
                          × IsListing (S.items after))
                        P
                        (remove_sorted-Gives sorted_map rate name pool.sorted_spends pool.spends at
                          own valid.listed valid.listing)
                        (λ sorted (listed, listing).
                          elim (Bool-cases (leb item.cost pool.total_mempool_cost)) [
                            | inr negative ↦ rw negative (λ e. cc)
                            | inl enough ↦
                                rw (enough, is)
                                  (
                                    removed-IsValid pool item sorted additions removals valid at
                                        listed listing,
                                    refl,
                                    refl,
                                  )
                          ])))))

  -- A pool with room for a cost, that does not hold the name.
  abbrev pub HasRoom : ℕ → ℕ → ℕ → Mempool S → Type 0
  HasRoom limit cost name pool =
      IsValid pool
      × (lookup name pool.spends ≡ none)
      × (pool.total_mempool_cost + cost ≤ limit)
      × (pool.max_size_in_cost ≡ limit)

  pub first_found :
      {V : Type 0} (d : Dict V) (entry : ℕ × V)
      → get_elem? d 0 ≡ some entry
      → lookup entry.0 d ≡ some entry.1
  first_found [] entry e = cc
  first_found ((k, v) ∷ d) entry e = ground arith

  has_room :
      (pool : Mempool S) (cost : ℕ)
      → at_full_capacity pool cost ≡ false
      → pool.total_mempool_cost + cost ≤ pool.max_size_in_cost
  unfolding at_full_capacity
  has_room pool cost e = ground arith

  still_new :
      (pool after : Mempool S) (item : MempoolItem) (name : ℕ)
      → IsValid pool
      → after.spends ≡ erase item.spend_bundle_name pool.spends
      → lookup name pool.spends ≡ none
      → lookup name after.spends ≡ none
  still_new pool after item name valid left new =
      rw left
        (ground (arith, new, lookup-erase item.spend_bundle_name name pool.spends valid.distinct))

  pub make_room-Gives :
      (fuel : ℕ) (pool : Mempool S) (cost name : ℕ)
      → IsValid pool
      → lookup name pool.spends ≡ none
      → length pool.spends < fuel
      → Gives (make_room coin_name fuel pool cost) (HasRoom pool.max_size_in_cost cost name)
  unfolding make_room
  make_room-Gives zero pool cost name valid new enough = absurd (omega arith)
  make_room-Gives (suc fuel) pool cost name valid new enough =
      let P = HasRoom pool.max_size_in_cost cost name in
      elim (Bool-cases (at_full_capacity pool cost)) [
        | inr room ↦ rw room (valid, new, has_room pool cost room, refl)
        | inl full ↦ rw full (elim (Option-cases (get_elem? (S.items pool.sorted_spends) 0)) [
          | inl nothing ↦ rw nothing (λ e. cc)
          | inr (lowest, e) ↦ rw e (elim (Option-cases (get_elem? lowest.1 0)) [
            | inl nothing ↦ rw nothing (λ e. cc)
            | inr (to_remove, e') ↦ rw e' (
                let held =
                  (valid.listed lowest.0 to_remove.0 lowest.1 to_remove.1 (first_found _ lowest e)
                    (first_found lowest.1 to_remove e')).0 in
                let name_is = valid.named to_remove.0 to_remove.1 held in
                let at : lookup to_remove.1.spend_bundle_name pool.spends ≡ some to_remove.1 =
                  ap (λ k. lookup k pool.spends) name_is ∙ held in
                Gives-bind (remove_from_pool coin_name pool to_remove.1) _
                  (IsWithout pool to_remove.1) P (remove_from_pool-Gives pool to_remove.1 valid at)
                  (λ after (still, left, limit). rw (← limit) (
                    make_room-Gives fuel after cost name still
                      (still_new pool after to_remove.1 name valid left new)
                      (omega (arith, ap length left, length-erase _ to_remove.1 pool.spends at)))))
          ])
        ])
      ]

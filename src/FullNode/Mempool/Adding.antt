-- ===== src/FullNode/Mempool/Adding.antt =====
-- Adding a transaction.
use gold_blockchain.Base.{
  ℕ, suc, ◌≤◌, ◌≡◌, sym, ap, ◌∙◌, inl, inr, none, some, [], arith, ◌==◌, if◌then◌else◌, ==_iff,
  Bool-cases, Option-cases, length, ok, Gives, Gives-bind,
}
use gold_blockchain.Base.Dict.{Dict, insert, lookup, IsDict, lookup-insert, insert-IsDict}
use gold_blockchain.Base.Sums.{sum-insert_new}
use gold_blockchain.Consensus.BlockRecord.{Coin}
use gold_blockchain.FullNode.Items.{MempoolItem}
use gold_blockchain.FullNode.Mempool.Rate.{fee_per_cost}
use gold_blockchain.FullNode.Mempool.SortedDict.{SortedMap, IsSortedMap}
use gold_blockchain.FullNode.Mempool.{Mempool, make_room, place, add_to_pool}
use gold_blockchain.FullNode.Mempool.Totals.{IsListed, IsListing, IsValid, rate-Gives}
use gold_blockchain.FullNode.Mempool.Keeps.{HasRoom, make_room-Gives}

-- The transactions of a rate, none where it is new.
abbrev of_rate : ℕ → Dict (Dict MempoolItem) → Dict MempoolItem
of_rate rate sorted = elim (lookup rate sorted) [ none ↦ [] | some d ↦ d ]

of_rate-new :
    (rate : ℕ) (sorted : Dict (Dict MempoolItem))
    → lookup rate sorted ≡ none
    → of_rate rate sorted ≡ []
of_rate-new rate sorted e = ground (arith, e)

of_rate-known :
    (rate : ℕ) (sorted : Dict (Dict MempoolItem)) (dic : Dict MempoolItem)
    → lookup rate sorted ≡ some dic
    → of_rate rate sorted ≡ dic
of_rate-known rate sorted dic e = ground (arith, e)

of_rate-listed :
    (spends : Dict MempoolItem) (sorted : Dict (Dict MempoolItem)) (rate n : ℕ) (it : MempoolItem)
    → IsListed spends sorted
    → lookup n (of_rate rate sorted) ≡ some it
    → (lookup n spends ≡ some it) × (fee_per_cost it ≡ ok rate)
of_rate-listed spends sorted rate n it listed h = elim (Option-cases (lookup rate sorted)) [
  | inl e ↦
      let h' : none ≡ some it = ap (λ d. lookup n d) (sym (of_rate-new rate sorted e)) ∙ h in cc
  | inr (dic, e) ↦
      listed rate n dic it e (ap (λ d. lookup n d) (sym (of_rate-known rate sorted dic e)) ∙ h)
]

of_rate-IsDict :
    (sorted : Dict (Dict MempoolItem)) (rate : ℕ) → IsListing sorted → IsDict (of_rate rate sorted)
of_rate-IsDict sorted rate listing = elim (Option-cases (lookup rate sorted)) [
  | inl e ↦ rw (of_rate-new rate sorted e) tt
  | inr (dic, e) ↦ rw (of_rate-known rate sorted dic e) (listing rate dic e)
]

-- The entries once a transaction is written under its rate.
entry_placed :
    (spends : Dict MempoolItem) (sorted : Dict (Dict MempoolItem)) (rate r n : ℕ)
    (item it : MempoolItem) (d : Dict MempoolItem)
    → IsListed spends sorted
    → lookup item.spend_bundle_name spends ≡ none
    → fee_per_cost item ≡ ok rate
    → (if r == rate
        then some (insert item.spend_bundle_name item (of_rate rate sorted))
        else lookup r sorted)
      ≡ some d
    → lookup n d ≡ some it
    → (lookup n (insert item.spend_bundle_name item spends) ≡ some it) × (fee_per_cost it ≡ ok r)
entry_placed spends sorted rate r n item it d listed new own found there =
    let name = item.spend_bundle_name in
    let dic = of_rate rate sorted in
    elim (Bool-cases (r == rate)) [
      | inr other ↦
          let (held, its) = listed r n d it (ground (arith, found, other)) there in
          ground (arith, held, its, new, lookup-insert name n item spends)
      | inl same ↦
          let r_rate : r ≡ rate = (==_iff r rate).0 same in
          let d_is : insert name item dic ≡ d = ground (arith, found, same) in
          let here : (if n == name then some item else lookup n dic) ≡ some it =
            ground (arith, lookup-insert name n item dic, d_is, there) in
          elim (Bool-cases (n == name)) [
            | inl e ↦ ground (arith, here, e, r_rate, own, lookup-insert name n item spends)
            | inr e ↦
                let (held, its) =
                  of_rate-listed spends sorted rate n it listed (ground (arith, here, e)) in
                ground (arith, held, its, r_rate, e, lookup-insert name n item spends)
          ]
    ]

placed-IsDict :
    (sorted : Dict (Dict MempoolItem)) (rate r name : ℕ) (item : MempoolItem) (d : Dict MempoolItem)
    → IsListing sorted
    → (if r == rate then some (insert name item (of_rate rate sorted)) else lookup r sorted)
      ≡ some d
    → IsDict d
placed-IsDict sorted rate r name item d listing found = elim (Bool-cases (r == rate)) [
  | inr other ↦ listing r d (ground (arith, found, other))
  | inl same ↦
      let d_is : insert name item (of_rate rate sorted) ≡ d = ground (arith, found, same) in
      rw (← d_is)
        (insert-IsDict name item (of_rate rate sorted) (of_rate-IsDict sorted rate listing))
]

module _ {S : SortedMap (Dict MempoolItem)} (sorted_map : IsSortedMap S)
    (coin_name : Coin → ℕ) where
  pub place-Gives :
      (pool : Mempool S) (item : MempoolItem) (limit : ℕ)
      → HasRoom sorted_map coin_name limit item.cost item.spend_bundle_name pool
      → Gives (place coin_name pool item) (λ after.
        IsValid after
        × (after.total_mempool_cost ≤ after.max_size_in_cost)
        × (lookup item.spend_bundle_name after.spends ≡ some item)
        × (after.max_size_in_cost ≡ limit))
  unfolding place
  place-Gives pool item limit (valid, new, room, same) =
      let name = item.spend_bundle_name in
      let sorted = S.items pool.sorted_spends in
      Gives-bind (fee_per_cost item) _ (λ rate. fee_per_cost item ≡ ok rate) _ (rate-Gives item)
        (λ rate own.
          let written = insert name item (of_rate rate sorted) in
          (
            record {
              distinct = insert-IsDict name item pool.spends valid.distinct;
              named = λ k it e. named_after k it e;
              listed = λ r n d it found there.
                  entry_placed pool.spends sorted rate r n item it d valid.listed new own
                    (ground
                      (arith, found, sorted_map.lookup_write rate r written pool.sorted_spends))
                    there;
              listing = λ r d found. placed-IsDict sorted rate r name item d valid.listing (
                  ground (arith, found, sorted_map.lookup_write rate r written pool.sorted_spends));
              counted = omega (
                arith,
                valid.counted,
                sum-insert_new (λ (it : MempoolItem). it.cost) name item pool.spends new,
              );
            },
            omega arith,
            ground (arith, lookup-insert name name item pool.spends),
            same,
          ))
    where
      named_after :
          (k : ℕ) (it : MempoolItem)
          → lookup k (insert item.spend_bundle_name item pool.spends) ≡ some it
          → it.spend_bundle_name ≡ k
      named_after k it e =
          ground
            (arith, e, lookup-insert item.spend_bundle_name k item pool.spends, valid.named k it)

  -- The order of the books, the limit, and the new entry.
  pub add_to_pool-IsValid :
      (pool : Mempool S) (item : MempoolItem)
      → IsValid pool
      → lookup item.spend_bundle_name pool.spends ≡ none
      → Gives (add_to_pool coin_name pool item) (λ after.
        IsValid after
        × (after.total_mempool_cost ≤ after.max_size_in_cost)
        × (lookup item.spend_bundle_name after.spends ≡ some item)
        × (after.max_size_in_cost ≡ pool.max_size_in_cost))
  unfolding add_to_pool
  add_to_pool-IsValid pool item valid new =
      Gives-bind (make_room coin_name (suc (length pool.spends)) pool item.cost) _
        (HasRoom sorted_map coin_name pool.max_size_in_cost item.cost item.spend_bundle_name) _
        (make_room-Gives sorted_map coin_name (suc (length pool.spends)) pool item.cost
          item.spend_bundle_name valid new (omega arith))
        (λ roomy has. place-Gives roomy item pool.max_size_in_cost has)

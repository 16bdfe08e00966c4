-- ===== src/FullNode/Mempool/MakingRoom.antt =====
-- `add_to_pool` as a whole: the transactions of the lowest fee rates make room.
use gold_blockchain.Base.{
  ℕ, zero, suc, ◌+◌, ◌≤◌, ◌<◌, ◌≡◌, refl, sym, ap, ◌∙◌, inl, inr, true, false, none, some, arith,
  Bool-cases, Option-cases, length, get_elem?, Result, ok, err, Result-cases, Gives,
}
use gold_blockchain.Base.Dict.{Dict, lookup}
use gold_blockchain.Consensus.BlockRecord.{Coin}
use gold_blockchain.FullNode.Items.{MempoolItem}
use gold_blockchain.FullNode.Mempool.Rate.{fee_per_cost}
use gold_blockchain.FullNode.Mempool.SortedDict.{SortedMap, IsSortedMap}
use gold_blockchain.FullNode.Mempool.{
  Mempool, at_full_capacity, remove_from_pool, make_room, place, add_to_pool,
}
use gold_blockchain.FullNode.Mempool.Totals.{IsValid}
use gold_blockchain.FullNode.Mempool.Keeps.{first_found}
use gold_blockchain.FullNode.Mempool.Adding.{add_to_pool-IsValid}
use gold_blockchain.FullNode.Mempool.Evicting.{
  IsFiled, IsUpdated, IsCheapest, Evicts, fits, evicts, first_least, removed_parts,
  removed-IsUpdated, removed-IsFiled, placed-IsUpdated, placed-IsFiled, in_rate,
}

Gives-of :
    {A : Type 0} (r : Result A) (P Q : A → Type 0)
    → Gives r P
    → ((a : A) → r ≡ ok a → P a → Q a)
    → Gives r Q
Gives-of (ok a) P Q h k = k a refl h
Gives-of (err e) P Q h k = h

module _ {S : SortedMap (Dict MempoolItem)} (sorted_map : IsSortedMap S)
    (coin_name : Coin → ℕ) where
  fits_now :
      (pool : Mempool S) (cost : ℕ)
      → at_full_capacity pool cost ≡ false
      → pool.total_mempool_cost + cost ≤ pool.max_size_in_cost
  unfolding at_full_capacity
  fits_now pool cost e = ground (arith, e)

  too_full :
      (pool : Mempool S) (cost : ℕ)
      → at_full_capacity pool cost ≡ true
      → pool.max_size_in_cost < pool.total_mempool_cost + cost
  unfolding at_full_capacity
  too_full pool cost e = ground (arith, e)

  -- What is listed first is a transaction of the pool with the lowest rate.
  first-IsCheapest :
      (pool : Mempool S) (lowest : ℕ × Dict MempoolItem) (first : ℕ × MempoolItem)
      → IsFiled coin_name pool
      → get_elem? (S.items pool.sorted_spends) 0 ≡ some lowest
      → get_elem? lowest.1 0 ≡ some first
      → IsCheapest coin_name pool first.1
  first-IsCheapest pool lowest first filed l f =
      let items = S.items pool.sorted_spends in
      let (held, own) =
        filed.valid.listed lowest.0 first.0 lowest.1 first.1
          (first_found sorted_map coin_name items lowest l)
          (first_found sorted_map coin_name lowest.1 first f) in
      (
        lowest.0,
        own,
        ap (λ k. lookup k pool.spends) (filed.valid.named first.0 first.1 held) ∙ held,
        (λ name r other there its. elim (Option-cases (lookup r items)) [
          | inr (dic, at) ↦
              first_least r items lowest dic (sorted_map.ascending pool.sorted_spends) l at
          | inl missing ↦ absurd (
              ground
                (arith, sym (ap (in_rate name) missing) ∙ filed.complete name r other there its))
        ]),
      )

  make_room-Evicts :
      (fuel : ℕ) (pool : Mempool S) (cost : ℕ) {after : Mempool S}
      → IsFiled coin_name pool
      → make_room coin_name fuel pool cost ≡ ok after
      → IsFiled coin_name after × Evicts coin_name cost pool after
  unfolding make_room
  make_room-Evicts zero pool cost filed e = cc
  make_room-Evicts (suc fuel) pool cost {after} filed e =
      elim (Bool-cases (at_full_capacity pool cost)) [
        | inr room ↦
            let same : pool ≡ after = ground (arith, e, room) in
            rw (← same) (filed, fits pool (fits_now pool cost room))
        | inl full ↦ elim (Option-cases (get_elem? (S.items pool.sorted_spends) 0)) [
          | inl nothing ↦ absurd (ground (arith, e, full, nothing))
          | inr (lowest, l) ↦ elim (Option-cases (get_elem? lowest.1 0)) [
            | inl nothing ↦ absurd (ground (arith, e, full, l, nothing))
            | inr (first, f) ↦ elim (Result-cases (remove_from_pool coin_name pool first.1)) [
              | inr (x, fails) ↦ absurd (ground (arith, e, full, l, f, fails))
              | inl (next, removed) ↦
                  let (rate, own, at, least) = first-IsCheapest pool lowest first filed l f in
                  let parts =
                    removed_parts coin_name sorted_map pool next first.1 rate own removed in
                  let (filed', rest) =
                    make_room-Evicts fuel next cost {after = after}
                      (removed-IsFiled coin_name sorted_map pool next first.1 rate filed at own
                        removed)
                      (ground (arith, e, full, l, f, removed)) in
                  (
                    filed',
                    evicts pool next after first.1 (too_full pool cost full) (rate, own, at, least)
                        (removed-IsUpdated coin_name sorted_map pool next first.1 rate filed at own
                          removed)
                        parts.3 rest,
                  )
            ]
          ]
        ]
      ]

  -- What adding a transaction makes of a pool: others are removed while it does not fit, and it is
  -- written into all the books of what is left.
  abbrev pub IsGrown : Mempool S → MempoolItem → Mempool S → Type 0
  IsGrown pool item after =
      IsFiled coin_name after
      × (after.total_mempool_cost ≤ after.max_size_in_cost)
      × ((roomy : Mempool S) × Evicts coin_name item.cost pool roomy
          × IsUpdated coin_name roomy item (some item) after)

  placed-IsGrown :
      (pool roomy : Mempool S) (item : MempoolItem) {after : Mempool S}
      → IsFiled coin_name roomy
      → Evicts coin_name item.cost pool roomy
      → IsValid after
      → after.total_mempool_cost ≤ after.max_size_in_cost
      → place coin_name roomy item ≡ ok after
      → IsGrown pool item after
  unfolding place
  placed-IsGrown pool roomy item {after} filed evicted valid within placed =
      elim (Result-cases (fee_per_cost item)) [
        | inr (x, fails) ↦ absurd (ground (arith, placed, fails))
        | inl (rate, own) ↦ (
          placed-IsFiled coin_name sorted_map roomy after item rate filed valid own placed,
          within,
          (roomy, evicted, placed-IsUpdated coin_name sorted_map roomy after item rate own placed),
        )
      ]

  -- Adding a transaction of a new name to a pool in good order, which lists each of its transactions
  -- under its fee rate: the call ends, with an exception, or with such a pool whose cost is the sum
  -- of its transactions' and within the limit. While the new one does not fit, and only then, a
  -- transaction of the lowest fee rate in the pool is removed: its name, its entry under its rate and
  -- the coins that it makes and spends are taken off, and nothing else. Then the new one is written
  -- under its name, its rate and the coins that it makes and spends, and nothing else.
  pub add_to_pool-IsGrown :
      (pool : Mempool S) (item : MempoolItem)
      → IsFiled coin_name pool
      → lookup item.spend_bundle_name pool.spends ≡ none
      → Gives (add_to_pool coin_name pool item) (IsGrown pool item)
  unfolding add_to_pool
  add_to_pool-IsGrown pool item filed new =
      Gives-of (add_to_pool coin_name pool item) _ (IsGrown pool item)
        (add_to_pool-IsValid sorted_map coin_name pool item filed.valid new)
        (λ after e (valid, within, held, limit).
          elim (Result-cases (make_room coin_name (suc (length pool.spends)) pool item.cost)) [
            | inr (x, fails) ↦ absurd (ground (arith, e, fails))
            | inl (roomy, made) ↦
                let (filed', evicted) =
                  make_room-Evicts (suc (length pool.spends)) pool item.cost {after = roomy} filed
                    made in
                placed-IsGrown pool roomy item {after = after} filed' evicted valid within
                  (ground (arith, e, made))
          ])

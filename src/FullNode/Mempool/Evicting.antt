-- ===== src/FullNode/Mempool/Evicting.antt =====
-- Adding a transaction: which others are removed for it, and what becomes of all the books.
use gold_blockchain.Base.{
  ℕ, suc, ◌+◌, ◌≤◌, ◌<◌, ◌≡◌, refl, ap, ◌∙◌, inl, inr, Bool, ◌&&◌, Option, none, some, List, [],
  ◌∷◌, map, arith, ◌==◌, if◌then◌else◌, ==_iff, ==_refl, Bool-cases, Option-cases, length,
  get_elem?, ok,
}
use gold_blockchain.Base.Dict.{
  Dict, contains, insert, lookup, erase, IsDict, lookup-insert, lookup-erase,
}
use gold_blockchain.Consensus.BlockRecord.{Coin}
use gold_blockchain.FullNode.Items.{MempoolItem}
use gold_blockchain.FullNode.Mempool.Rate.{fee_per_cost}
use gold_blockchain.FullNode.Mempool.SortedDict.{SortedMap, IsSortedMap, IsAscending}
use gold_blockchain.FullNode.Mempool.{
  Mempool, del, del_all, insert_all, remove_sorted, remove_from_pool, place,
}
use gold_blockchain.FullNode.Mempool.Totals.{IsValid, IsListing}
use gold_blockchain.FullNode.Mempool.Keeps.{IsWithout, remove_from_pool-Gives}
use gold_blockchain.FullNode.Mempool.Coins.{
  is_in, spent_names, Gives-at, del_all-IsDict, lookup-del_all, lookup-insert_all,
  insert_all-IsDict,
}

-- The names of the coins that a transaction makes.
abbrev pub made_names : (Coin → ℕ) → MempoolItem → List ℕ
made_names coin_name item = map coin_name item.additions

-- What is listed under a rate and a name.
abbrev pub in_rate : ℕ → Option (Dict MempoolItem) → Option MempoolItem
in_rate name none = none
in_rate name (some dic) = lookup name dic

abbrev pub entry : ℕ → ℕ → Dict (Dict MempoolItem) → Option MempoolItem
entry rate name sorted = in_rate name (lookup rate sorted)

-- One entry of a book is replaced.
abbrev pub updated : Bool → Option MempoolItem → Option MempoolItem → Option MempoolItem
updated here new old = if here then new else old

ascending_least :
    {V : Type 0} (bound rate : ℕ) (d : Dict V) (v : V)
    → IsAscending bound d
    → lookup rate d ≡ some v
    → bound ≤ rate
ascending_least bound rate [] v up e = cc
ascending_least bound rate ((k, w) ∷ d) v (low, up) e = elim (Bool-cases (rate == k)) [
  | inl same ↦ omega (arith, (==_iff rate k).0 same, low)
  | inr other ↦ omega (arith, low, ascending_least (suc k) rate d v up (ground (arith, e, other)))
]

pub first_least :
    {V : Type 0} (rate : ℕ) (d : Dict V) (first : ℕ × V) (v : V)
    → IsAscending 0 d
    → get_elem? d 0 ≡ some first
    → lookup rate d ≡ some v
    → first.0 ≤ rate
first_least rate [] first v up at e = cc
first_least rate ((k, w) ∷ d) first v (low, up) at e =
    let is : k ≡ first.0 = ground (arith, at) in
    elim (Bool-cases (rate == k)) [
      | inl same ↦ omega (arith, (==_iff rate k).0 same, is)
      | inr other ↦
          omega (arith, is, ascending_least (suc k) rate d v up (ground (arith, e, other)))
    ]

module _ {S : SortedMap (Dict MempoolItem)} (coin_name : Coin → ℕ) where
  -- A pool in good order that lists each of its transactions.
  pub record IsFiled (pool : Mempool S) : Type 0 where
    pub valid : IsValid pool
    pub complete :
        (name rate : ℕ) (item : MempoolItem)
        → lookup name pool.spends ≡ some item
        → fee_per_cost item ≡ ok rate
        → entry rate name (S.items pool.sorted_spends) ≡ some item
    pub made_once : IsDict pool.additions
    pub spent_once : IsDict pool.removals

  -- All the books with new entries for one transaction: under its name, under its rate, and under
  -- the coins that it makes and spends.
  pub record IsUpdated (pool : Mempool S) (item : MempoolItem) (new : Option MempoolItem)
      (after : Mempool S) : Type 0 where
    pub rate : ℕ
    pub its_rate : fee_per_cost item ≡ ok rate
    pub spends :
        (k : ℕ)
        → lookup k after.spends ≡ updated (k == item.spend_bundle_name) new (lookup k pool.spends)
    pub sorted :
        (r k : ℕ)
        → entry r k (S.items after.sorted_spends)
          ≡ updated
              (r == rate && k == item.spend_bundle_name)
              new
              (entry r k (S.items pool.sorted_spends))
    pub additions :
        (c : ℕ)
        → lookup c after.additions
          ≡ updated (is_in c (made_names coin_name item)) new (lookup c pool.additions)
    pub removals :
        (c : ℕ)
        → lookup c after.removals
          ≡ updated (is_in c (spent_names coin_name item)) new (lookup c pool.removals)
    pub limit : after.max_size_in_cost ≡ pool.max_size_in_cost

  -- A transaction of the pool with the lowest fee rate.
  abbrev pub IsCheapest : Mempool S → MempoolItem → Type 0
  IsCheapest pool item =
      (rate : ℕ) × (fee_per_cost item ≡ ok rate)
      × (lookup item.spend_bundle_name pool.spends ≡ some item)
      × ((name r : ℕ) (other : MempoolItem)
          → lookup name pool.spends ≡ some other
          → fee_per_cost other ≡ ok r
          → rate ≤ r)

  -- While a cost does not fit, a transaction of the lowest rate is removed.
  pub data Evicts (cost : ℕ) : Mempool S → Mempool S → Type 0 where
    fits :
        (pool : Mempool S)
        → pool.total_mempool_cost + cost ≤ pool.max_size_in_cost
        → Evicts cost pool pool
    evicts :
        (pool next after : Mempool S) (item : MempoolItem)
        → pool.max_size_in_cost < pool.total_mempool_cost + cost
        → IsCheapest pool item
        → IsUpdated pool item none next
        → next.total_mempool_cost + item.cost ≡ pool.total_mempool_cost
        → Evicts cost next after
        → Evicts cost pool after

  module _ (sorted_map : IsSortedMap S) where
    -- A rate's transactions, none where they are all gone.
    abbrev rest_of : Dict MempoolItem → Option (Dict MempoolItem)
    rest_of left = if length left == 0 then none else some left

    remove_sorted-lookup :
        (rate name r : ℕ) (sorted after : S.Carrier) (dic : Dict MempoolItem)
        → lookup rate (S.items sorted) ≡ some dic
        → remove_sorted S rate name sorted ≡ ok after
        → lookup r (S.items after)
          ≡ (if r == rate then rest_of (erase name dic) else lookup r (S.items sorted))
    unfolding remove_sorted del
    remove_sorted-lookup rate name r sorted after dic at e = elim (Bool-cases (contains name dic)) [
      | inr missing ↦ absurd (ground (arith, e, at, missing))
      | inl there ↦ elim (Bool-cases (length (erase name dic) == 0)) [
        | inl last ↦
            let is : S.delete rate sorted ≡ after = ground (arith, e, at, there, last) in
            rw (← is) (rw last (sorted_map.lookup_delete rate r sorted))
        | inr more ↦
            let is : S.write rate (erase name dic) sorted ≡ after =
              ground (arith, e, at, there, more) in
            rw (← is) (rw more (sorted_map.lookup_write rate r (erase name dic) sorted))
      ]
    ]

    lookup-rest_of : (k : ℕ) (left : Dict MempoolItem) → in_rate k (rest_of left) ≡ lookup k left
    lookup-rest_of k [] = refl
    lookup-rest_of k (x ∷ left) = ground arith

    entry-remove_sorted :
        (rate name : ℕ) (sorted after : S.Carrier)
        → IsListing (S.items sorted)
        → remove_sorted S rate name sorted ≡ ok after
        → (r k : ℕ)
        → entry r k (S.items after)
          ≡ updated (r == rate && k == name) none (entry r k (S.items sorted))
    unfolding remove_sorted
    entry-remove_sorted rate name sorted after listing e r k =
        elim (Option-cases (lookup rate (S.items sorted))) [
          | inl missing ↦ absurd (ground (arith, e, missing))
          | inr (dic, at) ↦
              let found = remove_sorted-lookup rate name r sorted after dic at e in
              elim (Bool-cases (r == rate)) [
                | inr other ↦ ap (in_rate k) found ∙ rw other refl
                | inl same ↦
                    let is : lookup r (S.items sorted) ≡ some dic =
                      ap (λ x. lookup x (S.items sorted)) ((==_iff r rate).0 same) ∙ at in
                    ap (in_rate k) found
                    ∙ rw (same, is)
                        (lookup-rest_of k (erase name dic)
                          ∙ lookup-erase name k dic (listing rate dic at))
              ]
        ]

    pub removed_parts :
        (pool after : Mempool S) (item : MempoolItem) (rate : ℕ)
        → fee_per_cost item ≡ ok rate
        → remove_from_pool coin_name pool item ≡ ok after
        → (del_all (spent_names coin_name item) pool.removals ≡ ok after.removals)
          × (del_all (made_names coin_name item) pool.additions ≡ ok after.additions)
          × (remove_sorted S rate item.spend_bundle_name pool.sorted_spends
              ≡ ok after.sorted_spends)
          × (after.total_mempool_cost + item.cost ≡ pool.total_mempool_cost)
    unfolding remove_from_pool
    removed_parts pool after item rate own e = ground (arith, own, e)

    placed_parts :
        (pool after : Mempool S) (item : MempoolItem) (rate : ℕ)
        → fee_per_cost item ≡ ok rate
        → place coin_name pool item ≡ ok after
        → (after.spends ≡ insert item.spend_bundle_name item pool.spends)
          × (after.additions ≡ insert_all (made_names coin_name item) item pool.additions)
          × (after.removals ≡ insert_all (spent_names coin_name item) item pool.removals)
          × (after.max_size_in_cost ≡ pool.max_size_in_cost)
    unfolding place
    placed_parts pool after item rate own e = ground (arith, own, e)

    entry-place :
        (pool after : Mempool S) (item : MempoolItem) (rate r k : ℕ)
        → fee_per_cost item ≡ ok rate
        → place coin_name pool item ≡ ok after
        → entry r k (S.items after.sorted_spends)
          ≡ updated
              (r == rate && k == item.spend_bundle_name)
              (some item)
              (entry r k (S.items pool.sorted_spends))
    unfolding place
    entry-place pool after item rate r k own e =
        let items = S.items pool.sorted_spends in
        let name = item.spend_bundle_name in
        let dic : Dict MempoolItem = elim (lookup rate items) [ none ↦ [] | some d ↦ d ] in
        let is : S.write rate (insert name item dic) pool.sorted_spends ≡ after.sorted_spends =
          ground (arith, own, e) in
        let found = sorted_map.lookup_write rate r (insert name item dic) pool.sorted_spends in
        rw (← is) (elim (Bool-cases (r == rate)) [
          | inr other ↦ ap (in_rate k) found ∙ rw other refl
          | inl same ↦
              ap (in_rate k) found
              ∙ rw same (
                  lookup-insert name k item dic
                  ∙ ap (λ (o : Option MempoolItem). if k == name then some item else o)
                      (elim (Option-cases (lookup rate items)) [
                        | inl none_there ↦ rw ((==_iff r rate).0 same, none_there) refl
                        | inr (d, there) ↦ rw ((==_iff r rate).0 same, there) refl
                      ]))
        ])

    pub removed-IsUpdated :
        (pool after : Mempool S) (item : MempoolItem) (rate : ℕ)
        → IsFiled pool
        → lookup item.spend_bundle_name pool.spends ≡ some item
        → fee_per_cost item ≡ ok rate
        → remove_from_pool coin_name pool item ≡ ok after
        → IsUpdated pool item none after
    removed-IsUpdated pool after item rate filed at own e =
        let (spent, made, listed, total) = removed_parts pool after item rate own e in
        let (still, left, limit) =
          Gives-at _ (IsWithout sorted_map coin_name pool item)
            (remove_from_pool-Gives sorted_map coin_name pool item filed.valid at) e in
        record {
          rate = rate;
          its_rate = own;
          spends =
              λ k. rw left (lookup-erase item.spend_bundle_name k pool.spends filed.valid.distinct);
          sorted =
              entry-remove_sorted rate item.spend_bundle_name pool.sorted_spends after.sorted_spends
                filed.valid.listing listed;
          additions = λ c. lookup-del_all _ c pool.additions filed.made_once made;
          removals = λ c. lookup-del_all _ c pool.removals filed.spent_once spent;
          limit = limit;
        }

    pub removed-IsFiled :
        (pool after : Mempool S) (item : MempoolItem) (rate : ℕ)
        → IsFiled pool
        → lookup item.spend_bundle_name pool.spends ≡ some item
        → fee_per_cost item ≡ ok rate
        → remove_from_pool coin_name pool item ≡ ok after
        → IsFiled after
    removed-IsFiled pool after item rate filed at own e =
        let (spent, made, listed, total) = removed_parts pool after item rate own e in
        let (still, left, limit) =
          Gives-at _ (IsWithout sorted_map coin_name pool item)
            (remove_from_pool-Gives sorted_map coin_name pool item filed.valid at) e in
        let now = removed-IsUpdated pool after item rate filed at own e in
        record {
          valid = still;
          complete = λ name r it found its.
              ground
                (arith, found, now.spends name, now.sorted r name, filed.complete name r it, its);
          made_once = del_all-IsDict _ pool.additions filed.made_once made;
          spent_once = del_all-IsDict _ pool.removals filed.spent_once spent;
        }

    pub placed-IsUpdated :
        (pool after : Mempool S) (item : MempoolItem) (rate : ℕ)
        → fee_per_cost item ≡ ok rate
        → place coin_name pool item ≡ ok after
        → IsUpdated pool item (some item) after
    placed-IsUpdated pool after item rate own e =
        let (spends, additions, removals, limit) = placed_parts pool after item rate own e in
        record {
          rate = rate;
          its_rate = own;
          spends = λ k. rw spends (lookup-insert item.spend_bundle_name k item pool.spends);
          sorted = λ r k. entry-place pool after item rate r k own e;
          additions = λ c. rw additions (lookup-insert_all _ c item pool.additions);
          removals = λ c. rw removals (lookup-insert_all _ c item pool.removals);
          limit = limit;
        }

    pub placed-IsFiled :
        (pool after : Mempool S) (item : MempoolItem) (rate : ℕ)
        → IsFiled pool
        → IsValid after
        → fee_per_cost item ≡ ok rate
        → place coin_name pool item ≡ ok after
        → IsFiled after
    placed-IsFiled pool after item rate filed valid own e =
        let (spends, additions, removals, limit) = placed_parts pool after item rate own e in
        let now = placed-IsUpdated pool after item rate own e in
        record {
          valid = valid;
          complete = λ name r it found its. elim (Bool-cases (name == item.spend_bundle_name)) [
            | inl same ↦
                let is : item ≡ it = ground (arith, found, same, now.spends name) in
                let r_is : r ≡ rate = ground (arith, its, own, is) in
                ground (arith, now.sorted r name, same, is, r_is, ==_refl rate)
            | inr other ↦ ground (
              arith,
              found,
              other,
              now.spends name,
              now.sorted r name,
              filed.complete name r it,
              its,
            )
          ];
          made_once =
              rw additions
                (insert_all-IsDict (made_names coin_name item) item pool.additions filed.made_once);
          spent_once =
              rw removals (
                insert_all-IsDict (spent_names coin_name item) item pool.removals filed.spent_once);
        }

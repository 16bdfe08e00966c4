-- ===== src/FullNode/Mempool/Coins/Adding.antt =====
-- Adding a transaction whose coins no other spends keeps the record of spent coins exact.
use gold_blockchain.Base.{
  ℕ, zero, suc, ◌≡◌, ap, ◌∙◌, ◌⊎◌, inl, inr, true, none, some, arith, ◌==◌, if◌then◌else◌,
  Bool-cases, Option-cases, length, get_elem?, ok, Result-cases,
}
use gold_blockchain.Base.Dict.{Dict, insert, lookup, lookup-insert}
use gold_blockchain.Consensus.BlockRecord.{Coin}
use gold_blockchain.FullNode.Items.{MempoolItem}
use gold_blockchain.FullNode.Mempool.SortedDict.{SortedMap, IsSortedMap}
use gold_blockchain.FullNode.Mempool.{
  Mempool, insert_all, at_full_capacity, remove_from_pool, make_room, place, add_to_pool,
}
use gold_blockchain.FullNode.Mempool.Totals.{IsValid}
use gold_blockchain.FullNode.Mempool.Keeps.{first_found, make_room-Gives, HasRoom}
use gold_blockchain.FullNode.Mempool.Adding.{place-Gives}
use gold_blockchain.FullNode.Mempool.Coins.{
  is_in, spent_names, IsConsistent, Gives-at, lookup-insert_all, insert_all-IsDict,
}
use gold_blockchain.FullNode.Mempool.Coins.Removing.{
  lookup-removed, lookup-left, removed-IsConsistent,
}

module _ {S : SortedMap (Dict MempoolItem)} (sorted_map : IsSortedMap S)
    (coin_name : Coin → ℕ) where
  -- A pool that holds a part of another's transactions, and spends no coin beside theirs.
  pub record IsPartOf (whole pool : Mempool S) : Type 0 where
    pub consistent : IsConsistent coin_name pool
    pub kept :
        (k : ℕ) (item : MempoolItem)
        → lookup k pool.spends ≡ some item
        → lookup k whole.spends ≡ some item
    pub unspent : (c : ℕ) → lookup c whole.removals ≡ none → lookup c pool.removals ≡ none

  pub removed-IsPartOf :
      (whole pool after : Mempool S) (item : MempoolItem)
      → IsPartOf whole pool
      → lookup item.spend_bundle_name pool.spends ≡ some item
      → remove_from_pool coin_name pool item ≡ ok after
      → IsPartOf whole after
  removed-IsPartOf whole pool after item part at e = record {
    consistent = removed-IsConsistent sorted_map coin_name pool after item part.consistent at e;
    kept = λ k it found. ground (
      arith,
      found,
      part.kept k it,
      lookup-left sorted_map coin_name pool after item part.consistent at e k,
    );
    unspent = λ c none_there. ground (
      arith,
      part.unspent c none_there,
      lookup-removed sorted_map coin_name pool after item c part.consistent.distinct e,
    );
  }

  -- The loop that makes room only removes transactions of the pool.
  pub make_room-IsPartOf :
      (fuel : ℕ) (whole pool : Mempool S) (cost : ℕ) {after : Mempool S}
      → IsPartOf whole pool
      → make_room coin_name fuel pool cost ≡ ok after
      → IsPartOf whole after
  unfolding make_room
  make_room-IsPartOf zero whole pool cost part e = cc
  make_room-IsPartOf (suc fuel) whole pool cost {after} part e =
      elim (Bool-cases (at_full_capacity pool cost)) [
        | inr room ↦ let same : pool ≡ after = ground (arith, e, room) in rw (← same) part
        | inl full ↦ elim (Option-cases (get_elem? (S.items pool.sorted_spends) 0)) [
          | inl nothing ↦ absurd (ground (arith, e, full, nothing))
          | inr (lowest, l) ↦ elim (Option-cases (get_elem? lowest.1 0)) [
            | inl nothing ↦ absurd (ground (arith, e, full, l, nothing))
            | inr (to_remove, r) ↦
                elim (Result-cases (remove_from_pool coin_name pool to_remove.1)) [
                  | inr (x, fails) ↦ absurd (ground (arith, e, full, l, r, fails))
                  | inl (pool', removed) ↦
                      make_room-IsPartOf fuel whole pool' cost {after = after}
                        (removed-IsPartOf whole pool pool' to_remove.1 part
                          (listed_there part.consistent.valid lowest to_remove l r) removed)
                        (ground (arith, e, full, l, r, removed))
                ]
          ]
        ]
      ]
    where
      listed_there :
          IsValid pool
          → (lowest : ℕ × Dict MempoolItem) (to_remove : ℕ × MempoolItem)
          → get_elem? (S.items pool.sorted_spends) 0 ≡ some lowest
          → get_elem? lowest.1 0 ≡ some to_remove
          → lookup to_remove.1.spend_bundle_name pool.spends ≡ some to_remove.1
      listed_there valid lowest to_remove l r =
          let held =
            (valid.listed lowest.0 to_remove.0 lowest.1 to_remove.1
              (first_found sorted_map coin_name _ lowest l)
              (first_found sorted_map coin_name lowest.1 to_remove r)).0 in
          ap (λ k. lookup k pool.spends) (valid.named to_remove.0 to_remove.1 held) ∙ held

  -- The coins of a transaction are spent by none of the pool.
  abbrev pub AreUnspent : MempoolItem → Mempool S → Type 0
  AreUnspent item pool =
      (c : ℕ) → is_in c (spent_names coin_name item) ≡ true → lookup c pool.removals ≡ none

  placed_books :
      (pool after : Mempool S) (item : MempoolItem)
      → place coin_name pool item ≡ ok after
      → (after.spends ≡ insert item.spend_bundle_name item pool.spends)
        × (after.removals ≡ insert_all (spent_names coin_name item) item pool.removals)
  unfolding place
  placed_books pool after item e = ground arith

  module _ (pool after : Mempool S) (item : MempoolItem) (consistent : IsConsistent coin_name pool)
      (new : lookup item.spend_bundle_name pool.spends ≡ none) (unspent : AreUnspent item pool)
      (books : (after.spends ≡ insert item.spend_bundle_name item pool.spends)
        × (after.removals ≡ insert_all (spent_names coin_name item) item pool.removals)) where
    found_placed :
        (k : ℕ)
        → lookup k after.spends
          ≡ (if k == item.spend_bundle_name then some item else lookup k pool.spends)
    found_placed k = rw (books.0) (lookup-insert item.spend_bundle_name k item pool.spends)

    record_placed :
        (c : ℕ)
        → lookup c after.removals
          ≡ (if is_in c (spent_names coin_name item) then some item else lookup c pool.removals)
    record_placed c =
        rw (books.1) (lookup-insert_all (spent_names coin_name item) c item pool.removals)

    spent_by_placed :
        (c : ℕ) (it : MempoolItem)
        → lookup c after.removals ≡ some it
        → (lookup it.spend_bundle_name after.spends ≡ some it)
          × (is_in c (spent_names coin_name it) ≡ true)
    spent_by_placed c it found = ground (
      arith,
      found,
      record_placed c,
      consistent.spent_by c it,
      found_placed it.spend_bundle_name,
      new,
    )

    recorded_placed :
        (c k : ℕ) (it : MempoolItem)
        → lookup k after.spends ≡ some it
        → is_in c (spent_names coin_name it) ≡ true
        → lookup c after.removals ≡ some it
    recorded_placed c k it found spends = ground (
      arith,
      found,
      spends,
      record_placed c,
      unspent c,
      consistent.recorded c k it,
      found_placed k,
    )

    pub placed-IsConsistent : IsValid after → IsConsistent coin_name after
    placed-IsConsistent valid = record {
      valid = valid;
      spent_by = spent_by_placed;
      recorded = recorded_placed;
      distinct =
          rw (books.1)
            (insert_all-IsDict (spent_names coin_name item) item pool.removals consistent.distinct);
    }

  -- What adding a transaction to a pool leaves.
  pub record IsAdded (pool : Mempool S) (item : MempoolItem) (after : Mempool S) : Type 0 where
    pub consistent : IsConsistent coin_name after
    pub held : lookup item.spend_bundle_name after.spends ≡ some item
    pub kept :
        (k : ℕ) (it : MempoolItem)
        → lookup k after.spends ≡ some it
        → (it ≡ item) ⊎ (lookup k pool.spends ≡ some it)

  pub add_to_pool-IsAdded :
      (pool : Mempool S) (item : MempoolItem) {after : Mempool S}
      → IsConsistent coin_name pool
      → lookup item.spend_bundle_name pool.spends ≡ none
      → AreUnspent item pool
      → add_to_pool coin_name pool item ≡ ok after
      → IsAdded pool item after
  unfolding add_to_pool
  add_to_pool-IsAdded pool item {after} consistent new unspent e =
      elim (Result-cases (make_room coin_name (suc (length pool.spends)) pool item.cost)) [
        | inr (x, fails) ↦ absurd (ground (arith, e, fails))
        | inl (roomy, made) ↦ added roomy made (ground (arith, e, made))
      ]
    where
      found_kept :
          (roomy : Mempool S) (k : ℕ) (it : MempoolItem)
          → IsPartOf pool roomy
          → HasRoom sorted_map coin_name pool.max_size_in_cost item.cost item.spend_bundle_name
              roomy
          → after.spends ≡ insert item.spend_bundle_name item roomy.spends
          → lookup k after.spends ≡ some it
          → (it ≡ item) ⊎ (lookup k pool.spends ≡ some it)
      found_kept roomy k it part room books found =
          elim (Bool-cases (k == item.spend_bundle_name)) [
            | inl same ↦ inl (
                ground (
                  arith,
                  found,
                  same,
                  books,
                  lookup-insert item.spend_bundle_name k item roomy.spends,
                ))
            | inr other ↦ inr (
                part.kept k it (
                  ground (
                    arith,
                    found,
                    other,
                    books,
                    lookup-insert item.spend_bundle_name k item roomy.spends,
                  )))
          ]

      added :
          (roomy : Mempool S)
          → make_room coin_name (suc (length pool.spends)) pool item.cost ≡ ok roomy
          → place coin_name roomy item ≡ ok after
          → IsAdded pool item after
      added roomy made placed =
          let part =
            make_room-IsPartOf (suc (length pool.spends)) pool pool item.cost {after = roomy}
              (record { consistent = consistent; kept = λ k it h. h; unspent = λ c h. h }) made in
          let room =
            Gives-at _
              (HasRoom sorted_map coin_name pool.max_size_in_cost item.cost item.spend_bundle_name)
              (make_room-Gives sorted_map coin_name (suc (length pool.spends)) pool item.cost
                item.spend_bundle_name consistent.valid new (omega arith))
              made in
          let books = placed_books roomy after item placed in
          let facts =
            Gives-at _ _ (place-Gives sorted_map coin_name roomy item pool.max_size_in_cost room)
              placed in
          record {
            consistent =
                placed-IsConsistent roomy after item part.consistent room.1
                  (λ c h. part.unspent c (unspent c h)) books facts.0;
            held = facts.2;
            kept = λ k it found. found_kept roomy k it part room books.0 found;
          }

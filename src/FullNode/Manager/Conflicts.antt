-- ===== src/FullNode/Manager/Conflicts.antt =====
-- The conflicts that `add_spendbundle` of chia/full_node/mempool_manager.py finds with the pool.
use gold_blockchain.Base.{
  ℕ, ◌≡◌, refl, ◌≢◌, ◌⊎◌, inl, inr, Bool, true, false, ◌||◌, none, some, List, [], ◌∷◌, ◌++◌, map,
  arith, if◌then◌else◌, Bool-cases, All, key_error, or_raise,
}
use gold_blockchain.Base.Dict.{Dict, contains, insert, lookup, IsDict, lookup-insert, insert-IsDict}
use gold_blockchain.Consensus.BlockRecord.{Coin}
use gold_blockchain.FullNode.Conditions.{CoinRecord}
use gold_blockchain.FullNode.Conditions.Errors.{double_spend, mempool_conflict}
use gold_blockchain.FullNode.Items.{MempoolItem}
use gold_blockchain.FullNode.Mempool.{Mempool}
use gold_blockchain.FullNode.Mempool.SortedDict.{SortedMap}
use gold_blockchain.FullNode.Mempool.Coins.{is_in, IsConsistent}
use gold_blockchain.FullNode.Manager.{conflicts_among}
use gold_blockchain.FullNode.Manager.Steps.{Passes, Passes-call, Passes-map}
use gold_blockchain.FullNode.Manager.Checks.{coins_of, conflicting_items}

is_in-append : (c : ℕ) (xs ys : List ℕ) → is_in c (xs ++ ys) ≡ (is_in c xs || is_in c ys)
is_in-append c [] ys = refl
is_in-append c (x ∷ xs) ys = ground (arith, is_in-append c xs ys)

map-append_one :
    (coin_name : Coin → ℕ) (xs : List Coin) (x : Coin)
    → map coin_name (xs ++ x ∷ []) ≡ map coin_name xs ++ coin_name x ∷ []
map-append_one coin_name [] x = refl
map-append_one coin_name (y ∷ xs) x = ground (arith, map-append_one coin_name xs x)

module _ (coin_name : Coin → ℕ) (pool_removals : Dict MempoolItem) where
  -- The names of the coins found so far.
  abbrev found_names : List Coin → List ℕ
  found_names conflicts = map coin_name conflicts

  -- Where no coin is spent, every coin that the pool spends too is found.
  pub conflicts_among_covers :
      (c : ℕ) (conflicts : List Coin) (records : Dict CoinRecord)
      → let (fail_reason, found) = conflicts_among coin_name pool_removals conflicts records in
        fail_reason ≢ some double_spend
        → (is_in c (map coin_name (coins_of records)) ≡ true) × (contains c pool_removals ≡ true)
          ⊎ (is_in c (found_names conflicts) ≡ true)
        → is_in c (found_names found) ≡ true
  unfolding conflicts_among
  conflicts_among_covers c [] [] fine h = ground arith
  conflicts_among_covers c (coin ∷ conflicts) [] fine h = ground arith
  conflicts_among_covers c conflicts ((name, removal) ∷ records) fine h = ground (
    arith,
    fine,
    h,
    is_in-append c (map coin_name conflicts) (coin_name removal.coin ∷ []),
    map-append_one coin_name conflicts removal.coin,
    conflicts_among_covers c (conflicts ++ removal.coin ∷ []) records,
    conflicts_among_covers c conflicts records,
  )

  pub conflicts_among_cases :
      (conflicts : List Coin) (records : Dict CoinRecord)
      → let fail_reason = (conflicts_among coin_name pool_removals conflicts records).0 in
        (fail_reason ≡ none)
        ⊎ (fail_reason ≡ some double_spend)
        ⊎ (fail_reason ≡ some mempool_conflict)
  unfolding conflicts_among
  conflicts_among_cases [] [] = inl refl
  conflicts_among_cases (coin ∷ conflicts) [] = inr (inr (ground arith))
  conflicts_among_cases conflicts ((name, removal) ∷ records) = elim (Bool-cases removal.spent) [
    | inl spent ↦ rw spent (inr (inl refl))
    | inr unspent ↦ rw unspent (
        conflicts_among_cases
          (if contains (coin_name removal.coin) pool_removals
            then conflicts ++ removal.coin ∷ []
            else conflicts)
          records)
  ]

  -- Where no double spend is found, no coin is spent.
  pub conflicts_among_unspent :
      (conflicts : List Coin) (records : Dict CoinRecord)
      → (conflicts_among coin_name pool_removals conflicts records).0 ≢ some double_spend
      → All (λ (e : ℕ × CoinRecord). e.1.spent ≡ false) records
  unfolding conflicts_among
  conflicts_among_unspent conflicts [] fine = tt
  conflicts_among_unspent conflicts ((name, removal) ∷ records) fine = ground (
    arith,
    fine,
    conflicts_among_unspent (conflicts ++ removal.coin ∷ []) records,
    conflicts_among_unspent conflicts records,
  )

  -- Without an error nothing is found.
  pub conflicts_among-none :
      (conflicts : List Coin) (records : Dict CoinRecord)
      → (conflicts_among coin_name pool_removals conflicts records).0 ≡ none
      → (conflicts_among coin_name pool_removals conflicts records).1 ≡ []
  unfolding conflicts_among
  conflicts_among-none conflicts [] e = ground arith
  conflicts_among-none conflicts ((name, removal) ∷ records) e = ground (
    arith,
    e,
    conflicts_among-none (conflicts ++ removal.coin ∷ []) records,
    conflicts_among-none conflicts records,
  )

-- Transactions of the pool, by name.
pub record AreOf {S : SortedMap (Dict MempoolItem)} (pool : Mempool S) (items : Dict MempoolItem)
    : Type 0 where
  pub distinct : IsDict items
  pub held :
      (k : ℕ) (item : MempoolItem)
      → lookup k items ≡ some item
      → (item.spend_bundle_name ≡ k) × (lookup k pool.spends ≡ some item)

-- Every transaction of the pool that spends one of the coins is among the items.
abbrev pub Covers :
    {S : SortedMap (Dict MempoolItem)} → Mempool S → (ℕ → Bool) → Dict MempoolItem → Type 0
Covers pool is_spent items =
    (c : ℕ) (item : MempoolItem)
    → is_spent c ≡ true
    → lookup c pool.removals ≡ some item
    → lookup item.spend_bundle_name items ≡ some item

module _ {S : SortedMap (Dict MempoolItem)} (coin_name : Coin → ℕ) (pool : Mempool S)
    (consistent : IsConsistent coin_name pool) where
  inserted-AreOf :
      (items : Dict MempoolItem) (c : ℕ) (sb : MempoolItem)
      → AreOf pool items
      → lookup c pool.removals ≡ some sb
      → AreOf pool (insert sb.spend_bundle_name sb items)
  inserted-AreOf items c sb of found = record {
    distinct = insert-IsDict sb.spend_bundle_name sb items of.distinct;
    held = λ k item at. ground (
      arith,
      at,
      lookup-insert sb.spend_bundle_name k sb items,
      of.held k item,
      consistent.spent_by c sb found,
    );
  }

  inserted_still :
      (items : Dict MempoolItem) (c k : ℕ) (sb item : MempoolItem)
      → AreOf pool items
      → lookup c pool.removals ≡ some sb
      → lookup k items ≡ some item
      → lookup k (insert sb.spend_bundle_name sb items) ≡ some item
  inserted_still items c k sb item of found at = ground (
    arith,
    at,
    lookup-insert sb.spend_bundle_name k sb items,
    of.held k item at,
    consistent.spent_by c sb found,
  )

  -- The items found are the pool's, and all that spend a coin in conflict.
  pub conflicting_items_lem :
      (items : Dict MempoolItem) (conflicts : List Coin)
      → AreOf pool items
      → Passes (conflicting_items coin_name pool.removals items conflicts) (λ out.
        AreOf pool out
        × ((k : ℕ) (item : MempoolItem) → lookup k items ≡ some item → lookup k out ≡ some item)
        × Covers pool (λ c. is_in c (map coin_name conflicts)) out)
  unfolding conflicting_items
  conflicting_items_lem items [] of = (of, (λ k item at. at), λ c item spent at. cc)
  conflicting_items_lem items (conflict ∷ conflicts) of =
      Passes-call (or_raise (lookup (coin_name conflict) pool.removals) key_error) _ _ (λ sb read.
        let found : lookup (coin_name conflict) pool.removals ≡ some sb = ground (arith, read) in
        Passes-map
          (conflicting_items coin_name pool.removals (insert sb.spend_bundle_name sb items)
            conflicts)
          _ _
          (conflicting_items_lem (insert sb.spend_bundle_name sb items) conflicts
            (inserted-AreOf items (coin_name conflict) sb of found))
          (λ out (of', still, covers). (
            of',
            (λ k item at.
                still k item (inserted_still items (coin_name conflict) k sb item of found at)),
            (λ c item spent at. ground (
              arith,
              spent,
              at,
              found,
              covers c item,
              still sb.spend_bundle_name sb,
              lookup-insert sb.spend_bundle_name sb.spend_bundle_name sb items,
            )),
          )))

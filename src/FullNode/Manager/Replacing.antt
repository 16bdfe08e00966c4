-- ===== src/FullNode/Manager/Replacing.antt =====
-- When a transaction replaces those of the pool that it conflicts with: `can_replace` of
-- chia/full_node/mempool_manager.py.
use gold_blockchain.Base.{
  ℕ, ◌+◌, ◌≤◌, ◌<◌, ◌≡◌, ◌↔◌, inl, inr, Bool, true, none, some, [], ◌∷◌, arith, if◌then◌else◌,
  Bool-cases, all, ok, Result-cases,
}
use gold_blockchain.Base.Dict.{Dict, contains}
use gold_blockchain.Base.Sums.{sum}
use gold_blockchain.Base.Floats.{true_div}
use gold_blockchain.Consensus.BlockRecord.{Coin}
use gold_blockchain.FullNode.Conditions.{CoinRecord}
use gold_blockchain.FullNode.Items.{MempoolItem}
use gold_blockchain.FullNode.Manager.{conflicting_sums, can_replace, min_fee_increase}

-- The sums over the conflicting transactions.
abbrev pub fees_of : Dict MempoolItem → ℕ
fees_of = sum (λ item. item.fee)

abbrev pub costs_of : Dict MempoolItem → ℕ
costs_of = sum (λ item. item.cost)

module _ (coin_name : Coin → ℕ) (removals : Dict CoinRecord) where
  -- Every coin that a transaction spends is spent by the new one.
  abbrev pub spends_all : MempoolItem → Bool
  spends_all item = all (λ coin. contains (coin_name coin) removals) item.removals

  conflicting_sums_lem :
      (fees cost : ℕ) (items : Dict MempoolItem)
      → conflicting_sums coin_name removals fees cost items ≡ (
          if all (λ e. spends_all e.1) items
          then some (fees + fees_of items, cost + costs_of items)
          else none)
  unfolding conflicting_sums
  conflicting_sums_lem fees cost [] = ground arith
  conflicting_sums_lem fees cost ((name, item) ∷ items) =
      ground (arith, conflicting_sums_lem (fees + item.fee) (cost + item.cost) items)

  -- A transaction replaces the pool's that it conflicts with exactly when it spends every coin that
  -- they spend, its fee rate is above that of all of them together, as doubles, and its fee is
  -- above theirs by the least increase or more.
  pub can_replace_iff :
      (items : Dict MempoolItem) (fees fees_per_cost : ℕ)
      → (can_replace coin_name items removals fees fees_per_cost ≡ ok true) ↔ (
          (all (λ e. spends_all e.1) items ≡ true)
          × ((rate : ℕ) × (true_div (fees_of items) (costs_of items) ≡ ok rate)
              × (rate < fees_per_cost))
          × (fees_of items + min_fee_increase ≤ fees))
  unfolding can_replace
  can_replace_iff items fees fees_per_cost =
      let covered = all (λ (e : ℕ × MempoolItem). spends_all e.1) items in
      let sums = conflicting_sums_lem 0 0 items in
      let from_zero : (fees_of items ≡ 0 + fees_of items) × (costs_of items ≡ 0 + costs_of items) =
        omega arith in
      elim (Bool-cases covered) [
        | inr uncovered ↦ (
          (λ e. absurd (ground (arith, e, sums, uncovered))),
          λ h. absurd (ground (arith, h.0, uncovered)),
        )
        | inl yes_all ↦ elim (Result-cases (true_div (fees_of items) (costs_of items))) [
          | inr (x, fails) ↦ (
            (λ e. absurd (ground (arith, e, sums, yes_all, fails, from_zero))),
            λ h. absurd (ground (arith, h.1.1, fails)),
          )
          | inl (rate, divided) ↦ (
            (λ e. (
              yes_all,
              (rate, divided, ground (arith, e, sums, yes_all, divided, from_zero)),
              ground (arith, e, sums, yes_all, divided, from_zero),
            )),
            λ h. ground (arith, h.1.1, h.1.2, h.2, sums, yes_all, divided, from_zero),
          )
        ]
      ]

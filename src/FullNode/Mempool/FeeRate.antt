-- ===== src/FullNode/Mempool/FeeRate.antt =====
-- When a minimal fee rate exists.
use gold_blockchain.Base.{
  ℕ, ◌+◌, ◌≤◌, ◌<◌, ◌≡◌, refl, ◌↔◌, ◌⊎◌, inl, inr, true, false, [], ◌∷◌, arith, ltb, ltb→lt,
  Bool-cases, value_error, err,
}
use gold_blockchain.Base.Dict.{Dict}
use gold_blockchain.Base.Sums.{sum}
use gold_blockchain.FullNode.Items.{MempoolItem}
use gold_blockchain.FullNode.Mempool.SortedDict.{SortedMap}
use gold_blockchain.FullNode.Mempool.{
  Mempool, fits_after, first_rate, at_full_capacity, get_min_fee_rate,
}

abbrev pub cost_of : Dict MempoolItem → ℕ
cost_of = sum (λ item. item.cost)

-- The cost of all transactions in the listing by rate.
abbrev pub listed_cost : Dict (Dict MempoolItem) → ℕ
listed_cost = sum cost_of

-- Either the new transaction fits after some of the rate, or not even after all of them.
fits_after_lem :
    (needed limit removed : ℕ) (spends : Dict MempoolItem)
    → limit + removed < needed
    → let (fits, removed') = fits_after needed limit removed spends in
      (fits ≡ true) × (needed ≤ limit + removed + cost_of spends)
      ⊎ (fits ≡ false)
        × (removed' ≡ removed + cost_of spends)
        × (limit + removed + cost_of spends < needed)
unfolding fits_after
fits_after_lem needed limit removed [] full = inr (refl, omega arith, omega arith)
fits_after_lem needed limit removed ((name, item) ∷ spends) full =
    ground (arith, fits_after_lem needed limit (removed + item.cost) spends)

first_rate_iff :
    (needed limit removed : ℕ) (sorted : Dict (Dict MempoolItem))
    → limit + removed < needed
    → (first_rate needed limit removed sorted ≡ err value_error)
      ↔ (limit + removed + listed_cost sorted < needed)
unfolding first_rate
first_rate_iff needed limit removed [] full = (λ e. omega arith, λ h. refl)
first_rate_iff needed limit removed ((rate, spends) ∷ sorted) full =
    elim (fits_after_lem needed limit removed spends full) [
      | inl (fits, enough) ↦ rw fits (λ e. cc, λ h. absurd (omega arith))
      | inr (short, more, still) ↦
          rw (short, more)
            (let (to, from) =
                first_rate_iff needed limit (removed + cost_of spends) sorted (omega arith) in
              (λ e. omega (arith, to e), λ h. from (omega arith)))
    ]

-- Asking for the minimal fee rate for a cost fails exactly when the cost would not fit with all
-- listed transactions removed.
pub min_fee_rate_error_iff :
    {S : SortedMap (Dict MempoolItem)} (pool : Mempool S) (cost : ℕ)
    → (get_min_fee_rate pool cost ≡ err value_error) ↔ (
        pool.max_size_in_cost + listed_cost (S.items pool.sorted_spends)
        < pool.total_mempool_cost + cost)
unfolding get_min_fee_rate at_full_capacity
min_fee_rate_error_iff {S} pool cost =
    let listed = S.items pool.sorted_spends in
    elim (Bool-cases (ltb pool.max_size_in_cost (pool.total_mempool_cost + cost))) [
      | inr room ↦ rw room (λ e. cc, λ h. absurd (ground (arith, room)))
      | inl full ↦ rw full (
          let (to, from) =
            first_rate_iff (pool.total_mempool_cost + cost) pool.max_size_in_cost 0 listed
              (omega (arith, ltb→lt _ _ full)) in
          (λ e. omega (arith, to e), λ h. from (omega arith)))
    ]

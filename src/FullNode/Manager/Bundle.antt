-- ===== src/FullNode/Manager/Bundle.antt =====
-- The bundle of `create_bundle_from_mempool` of chia/full_node/mempool_manager.py.
use mathlib.Core.List.{append-nil, append_assoc}
use gold_blockchain.Base.{
  ℕ, ◌+◌, ◌*◌, ◌≤◌, ◌<◌, ◌≡◌, refl, sym, ap, ◌∙◌, ◌⊎◌, inl, inr, some, List, [], ◌∷◌, ◌++◌, map,
  reverse, arith, ◌==◌, Bool-cases, Option-cases, ok, Result-cases, Ensures-at,
}
use gold_blockchain.Base.Dict.{Dict}
use gold_blockchain.Consensus.BlockRecord.{Coin}
use gold_blockchain.Consensus.Constants.{ConsensusConstants}
use gold_blockchain.FullNode.Items.{MempoolItem}
use gold_blockchain.FullNode.Npc.{SpendBundle}
use gold_blockchain.FullNode.Mempool.SortedDict.{SortedMap}
use gold_blockchain.FullNode.Manager.{
  Manager, Block, empty_block, append_item, take_rates, aggregate, create_bundle_from_mempool,
}
use gold_blockchain.FullNode.Manager.Taking.{items_of, with_items, IsTaken, StopsAt, take_rates_lem}

-- The sum of a number that each transaction has.
unfoldable pub total_of : (MempoolItem → ℕ) → List MempoolItem → ℕ
total_of f [] = 0
total_of f (item ∷ items) = f item + total_of f items

-- The lists that the transactions have, one after the other.
unfoldable pub all_of : {A : Type 0} → (MempoolItem → List A) → List MempoolItem → List A
all_of f [] = []
all_of f (item ∷ items) = f item ++ all_of f items

-- At most half a block of cost and the largest amount of a coin in fees.
abbrev pub Fits : ConsensusConstants → List MempoolItem → Type 0
Fits c items =
    (2 * total_of (λ item. item.cost) items ≤ c.max_block_cost_clvm)
    × (total_of (λ item. item.fee) items ≤ c.max_coin_amount)

-- The next transaction, if there is one, would exceed one of the two limits.
abbrev pub NextExceeds : ConsensusConstants → List MempoolItem → List MempoolItem → Type 0
NextExceeds c items [] = Unit
NextExceeds c items (next ∷ left) =
    (c.max_block_cost_clvm < 2 * (next.cost + total_of (λ item. item.cost) items))
    ⊎ (c.max_coin_amount < next.fee + total_of (λ item. item.fee) items)

spends_of-bundles :
    (sum_up : List ℕ → ℕ) (items : List MempoolItem)
    → (aggregate sum_up (map (λ item. item.spend_bundle) items)).coin_spends
      ≡ all_of (λ item. item.spend_bundle.coin_spends) items
unfolding aggregate all_of
spends_of-bundles sum_up [] = refl
spends_of-bundles sum_up (item ∷ items) =
    ap (λ l. item.spend_bundle.coin_spends ++ l) (spends_of-bundles sum_up items)

with_items_lem :
    (block : Block) (items : List MempoolItem)
    → let after = with_items block items in
      (after.cost_sum ≡ block.cost_sum + total_of (λ item. item.cost) items)
      × (after.fee_sum ≡ block.fee_sum + total_of (λ item. item.fee) items)
      × (after.spend_bundles ≡ block.spend_bundles ++ map (λ item. item.spend_bundle) items)
      × (after.additions ≡ block.additions ++ all_of (λ item. item.additions) items)
      × (after.removals ≡ block.removals ++ all_of (λ item. item.removals) items)
unfolding with_items append_item total_of all_of
with_items_lem block [] = (
  omega arith,
  omega arith,
  sym (append-nil block.spend_bundles),
  sym (append-nil block.additions),
  sym (append-nil block.removals),
)
with_items_lem block (item ∷ items) =
    let (cost, fee, bundles, additions, removals) = with_items_lem (append_item block item) items in
    (
      omega (arith, cost),
      omega (arith, fee),
      bundles
          ∙ append_assoc block.spend_bundles (item.spend_bundle ∷ [])
              (map (λ i. i.spend_bundle) items),
      additions ∙ append_assoc block.additions item.additions (all_of (λ i. i.additions) items),
      removals ∙ append_assoc block.removals item.removals (all_of (λ i. i.removals) items),
    )

-- What a bundle for a block is made of: the transactions that are taken.
abbrev pub IsBundleOf :
    ConsensusConstants
    → (List ℕ → ℕ)
    → List MempoolItem
    → SpendBundle
    → List Coin
    → List Coin
    → Type 0
IsBundleOf c sum_up items bundle additions removals =
    (taken : List MempoolItem) × (left : List MempoolItem) × (items ≡ taken ++ left)
    × (bundle.coin_spends ≡ all_of (λ item. item.spend_bundle.coin_spends) taken)
    × (bundle.aggregated_signature
        ≡ sum_up (map (λ item. item.spend_bundle.aggregated_signature) taken))
    × (additions ≡ all_of (λ item. item.additions) taken)
    × (removals ≡ all_of (λ item. item.removals) taken)
    × Fits c taken
    × NextExceeds c taken left

signatures_of :
    (sum_up : List ℕ → ℕ) (items : List MempoolItem)
    → (aggregate sum_up (map (λ item. item.spend_bundle) items)).aggregated_signature
      ≡ sum_up (map (λ item. item.spend_bundle.aggregated_signature) items)
unfolding aggregate
signatures_of sum_up items = ap sum_up (each items)
  where
    each :
        (items : List MempoolItem)
        → map (λ (b : SpendBundle). b.aggregated_signature) (map (λ item. item.spend_bundle) items)
          ≡ map (λ item. item.spend_bundle.aggregated_signature) items
    each [] = refl
    each (item ∷ items) = ap (◌∷◌ item.spend_bundle.aggregated_signature) (each items)

next_exceeds :
    (c : ConsensusConstants) (taken left : List MempoolItem) (block : Block)
    → block.cost_sum ≡ total_of (λ item. item.cost) taken
    → block.fee_sum ≡ total_of (λ item. item.fee) taken
    → StopsAt c block left
    → NextExceeds c taken left
next_exceeds c taken [] block cost fee stops = tt
next_exceeds c taken (next ∷ left) block cost fee (inl costs) = inl (omega (arith, cost, costs))
next_exceeds c taken (next ∷ left) block cost fee (inr pays) = inr (omega (arith, fee, pays))

IsBundleOf-block :
    (c : ConsensusConstants) (sum_up : List ℕ → ℕ) (items : List MempoolItem) (block : Block)
    → IsTaken c empty_block items block
    → IsBundleOf c sum_up items
        (aggregate sum_up block.spend_bundles)
        block.additions
        block.removals
IsBundleOf-block c sum_up items block (taken, left, split, is, within, stops) =
    let (cost, fee, bundles, additions, removals) = with_items_lem empty_block taken in
    let costs : block.cost_sum ≡ total_of (λ item. item.cost) taken =
      omega (arith, ap (λ b. b.cost_sum) is, cost) in
    let fees : block.fee_sum ≡ total_of (λ item. item.fee) taken =
      omega (arith, ap (λ b. b.fee_sum) is, fee) in
    let spent : block.spend_bundles ≡ map (λ item. item.spend_bundle) taken =
      ap (λ b. b.spend_bundles) is ∙ bundles in
    (
      taken,
      left,
      split,
      ap (λ l. (aggregate sum_up l).coin_spends) spent ∙ spends_of-bundles sum_up taken,
      ap (λ l. (aggregate sum_up l).aggregated_signature) spent ∙ signatures_of sum_up taken,
      ap (λ b. b.additions) is ∙ additions,
      ap (λ b. b.removals) is ∙ removals,
      (omega (arith, costs, within), omega (arith, fees, within)),
      next_exceeds c taken left block costs fees stops,
    )

-- A bundle for a block on the peak is made of a first part of the pool's transactions, those of the
-- highest fee rates first: it holds their spends in this order, the sum of their signatures, and
-- their additions and removals. The sum of their costs is half a block at most, that of their fees
-- the largest amount of a coin at most, and the next transaction in this order, if there is one,
-- would exceed one of the two.
pub create_bundle_lem :
    {S : SortedMap (Dict MempoolItem)} (aggregate_signatures : List ℕ → ℕ) (m : Manager S)
    (hash : ℕ) (bundle : SpendBundle) (additions removals : List Coin)
    → create_bundle_from_mempool aggregate_signatures m hash
      ≡ ok (some (bundle, additions, removals))
    → IsBundleOf m.constants aggregate_signatures
        (items_of (reverse (S.items m.mempool.sorted_spends)))
        bundle
        additions
        removals
unfolding create_bundle_from_mempool
create_bundle_lem {S} aggregate_signatures m hash bundle additions removals e =
    let rates = reverse (S.items m.mempool.sorted_spends) in
    elim (Option-cases m.peak) [
      | inl missing ↦ absurd (ground (arith, e, missing))
      | inr (peak, is) ↦ elim (Bool-cases (peak.header_hash == hash)) [
        | inr other ↦ absurd (ground (arith, e, is, other))
        | inl same ↦ elim (Result-cases (take_rates m.constants empty_block rates)) [
          | inr (x, fails) ↦ absurd (ground (arith, e, is, same, fails))
          | inl (block, took) ↦
              let taken =
                Ensures-at (take_rates m.constants empty_block rates)
                  (IsTaken m.constants empty_block (items_of rates))
                  (take_rates_lem m.constants empty_block rates (omega arith, omega arith)) took in
              let made =
                IsBundleOf-block m.constants aggregate_signatures (items_of rates) block taken in
              let a : bundle ≡ aggregate aggregate_signatures block.spend_bundles =
                ground (arith, e, is, same, took) in
              let b : additions ≡ block.additions = ground (arith, e, is, same, took) in
              let d : removals ≡ block.removals = ground (arith, e, is, same, took) in
              rw (a, b, d) made
        ]
      ]
    ]

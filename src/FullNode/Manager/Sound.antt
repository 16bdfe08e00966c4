-- ===== src/FullNode/Manager/Sound.antt =====
-- A manager's pool after `add_spendbundle` of chia/full_node/mempool_manager.py.
use gold_blockchain.Base.{
  ℕ, ◌+◌, ◌≤◌, ◌≡◌, refl, ◌⊎◌, inl, inr, Option, none, some, List, arith, Option-cases, All, ok,
  Result-cases,
}
use gold_blockchain.Base.Dict.{Dict, lookup}
use gold_blockchain.Base.Int.{ℤ}
use gold_blockchain.Consensus.BlockRecord.{Coin}
use gold_blockchain.FullNode.Conditions.{CoinRecord}
use gold_blockchain.FullNode.Items.{MempoolItem}
use gold_blockchain.FullNode.Npc.{NpcResult, SpendBundle}
use gold_blockchain.FullNode.PendingTxCache
use gold_blockchain.FullNode.Mempool.{Mempool, add_to_pool}
use gold_blockchain.FullNode.Mempool.SortedDict.{SortedMap, IsSortedMap}
use gold_blockchain.FullNode.Mempool.Coins.{IsConsistent}
use gold_blockchain.FullNode.Mempool.Coins.Adding.{
  IsPartOf, AreUnspent, IsAdded, add_to_pool-IsAdded,
}
use gold_blockchain.FullNode.Manager.{Manager, limit_cost}
use gold_blockchain.FullNode.Manager.Steps.{
  Step, go, refused, already, waits, raises, success, Passes,
}
use gold_blockchain.FullNode.Manager.Adding.{Answer, remove_items, finish, add_spendbundle}
use gold_blockchain.FullNode.Manager.Amounts.{total}
use gold_blockchain.FullNode.Manager.Accepted.{IsAccepted, IsSpendable, validate-IsAccepted}
use gold_blockchain.FullNode.Manager.Removed.{AreGone, remove_items_lem}

module _ {S : SortedMap (Dict MempoolItem)} (sorted_map : IsSortedMap S)
    (coin_name : Coin → ℕ) where
  -- A transaction that keeps the value of the coins that it spends, within the limit of cost.
  abbrev pub IsBalanced : ℕ → MempoolItem → Type 0
  IsBalanced limit item =
      (total item.additions + item.fee ≡ total item.removals) × (item.cost ≤ limit)

  -- A pool in good order whose transactions are all balanced.
  pub record IsSound (limit : ℕ) (pool : Mempool S) : Type 0 where
    pub consistent : IsConsistent coin_name pool
    pub balanced :
        (k : ℕ) (item : MempoolItem) → lookup k pool.spends ≡ some item → IsBalanced limit item

  pub added-IsSound :
      (limit : ℕ) (pool after : Mempool S) (item : MempoolItem)
      → IsSound limit pool
      → IsBalanced limit item
      → IsAdded sorted_map coin_name pool item after
      → IsSound limit after
  added-IsSound limit pool after item sound balanced added = record {
    consistent = added.consistent;
    balanced = λ k it found. elim (added.kept k it found) [
      | inl new ↦ rw new balanced
      | inr old ↦ sound.balanced k it old
    ];
  }

  -- The pool has got an item that keeps the value of its coins, each of which is unspent in the
  -- store or made by the item itself; all else was in the pool before.
  abbrev pub HasAdded : (ℕ → Option CoinRecord) → ℕ → Manager S → Manager S → Answer → Type 0
  HasAdded get_coin_record spend_name m m' answer =
      (item : MempoolItem) × (answer ≡ (some item.cost, success, none))
      × (lookup spend_name m'.mempool.spends ≡ some item)
      × IsBalanced (limit_cost m.constants) item
      × All (IsSpendable coin_name get_coin_record item.additions) item.removals
      × ((k : ℕ) (it : MempoolItem)
          → lookup k m'.mempool.spends ≡ some it
          → (it ≡ item) ⊎ (lookup k m.mempool.spends ≡ some it))

  abbrev pub KeepsConstants : Manager S → Manager S → Type 0
  KeepsConstants m m' =
      (m'.constants ≡ m.constants) × (m'.mempool_max_total_cost ≡ m.mempool_max_total_cost)

  -- How `add_spendbundle` leaves the manager.
  abbrev pub AddsSoundly : (ℕ → Option CoinRecord) → ℕ → Manager S → Manager S → Answer → Type 0
  AddsSoundly get_coin_record spend_name m m' answer =
      IsSound (limit_cost m.constants) m'.mempool
      × KeepsConstants m m'
      × ((m'.mempool ≡ m.mempool) ⊎ HasAdded get_coin_record spend_name m m' answer)

  module _ (int_from_bytes : List ℕ → Option ℤ) (get_coin_record : ℕ → Option CoinRecord)
      (spend_name : ℕ) (m : Manager S) (sound : IsSound (limit_cost m.constants) m.mempool) where
    accepted_coins :
        (item : MempoolItem) (conflicting : Dict MempoolItem) (pool : Mempool S)
        → IsAccepted coin_name int_from_bytes m sound.consistent get_coin_record spend_name item
            conflicting
        → IsPartOf sorted_map coin_name m.mempool pool
        → AreGone sorted_map coin_name conflicting pool
        → AreUnspent sorted_map coin_name item pool
    accepted_coins item conflicting pool accepted part gone c spends =
        elim (Option-cases (lookup c m.mempool.removals)) [
          | inl free ↦ part.unspent c free
          | inr (it, found) ↦
              gone c it.spend_bundle_name it (accepted.covers c it spends found)
                (sound.consistent.spent_by c it found).1
        ]

    added :
        (item : MempoolItem) (conflicting : Dict MempoolItem) (pool : Mempool S) {after : Mempool S}
        → IsAccepted coin_name int_from_bytes m sound.consistent get_coin_record spend_name item
            conflicting
        → remove_items coin_name m.mempool conflicting ≡ ok pool
        → add_to_pool coin_name pool item ≡ ok after
        → AddsSoundly get_coin_record spend_name m
            (record m { mempool = after })
            (some item.cost, success, none)
    added item conflicting pool {after} accepted removed put =
        let (part, gone) =
          remove_items_lem sorted_map coin_name m.mempool conflicting {after = pool}
            sound.consistent accepted.of removed in
        let absent : lookup item.spend_bundle_name pool.spends ≡ none =
          elim (Option-cases (lookup item.spend_bundle_name pool.spends)) [
            | inl none_there ↦ none_there
            | inr (it, there) ↦
                absurd (ground (arith, part.kept _ it there, accepted.named, accepted.new))
          ] in
        let is =
          add_to_pool-IsAdded sorted_map coin_name pool item {after = after} part.consistent absent
            (accepted_coins item conflicting pool accepted part gone) put in
        let smaller : IsSound (limit_cost m.constants) pool = record {
          consistent = part.consistent;
          balanced = λ k it found. sound.balanced k it (part.kept k it found);
        } in
        (
          added-IsSound (limit_cost m.constants) pool after item smaller
              (accepted.balanced, accepted.within) is,
          (refl, refl),
          inr (
            item,
            refl,
            ground (arith, is.held, accepted.named),
            (accepted.balanced, accepted.within),
            accepted.spendable,
            (λ k it found. elim (is.kept k it found) [
              | inl new ↦ inl new
              | inr old ↦ inr (part.kept k it old)
            ]),
          ),
        )

    finish-Sound :
        (checked : Step (MempoolItem × Dict MempoolItem)) {m' : Manager S} {answer : Answer}
        → Passes checked (λ (item, conflicting).
          IsAccepted coin_name int_from_bytes m sound.consistent get_coin_record spend_name item
            conflicting)
        → finish coin_name m checked ≡ ok (m', answer)
        → AddsSoundly get_coin_record spend_name m m' answer
    unfolding finish
    finish-Sound (refused x) {m'} passes e =
        let same : m ≡ m' = ground (arith, e) in rw (← same) (sound, (refl, refl), inl refl)
    finish-Sound (already cost) {m'} passes e =
        let same : m ≡ m' = ground (arith, e) in rw (← same) (sound, (refl, refl), inl refl)
    finish-Sound (raises x) passes e = cc
    finish-Sound (waits potential x) {m'} passes e =
        elim (Result-cases (PendingTxCache.add m.potential_cache potential)) [
          | inr (y, fails) ↦ absurd (ground (arith, e, fails))
          | inl (cache, kept) ↦
              let same : record m { potential_cache = cache } ≡ m' = ground (arith, e, kept) in
              rw (← same) (sound, (refl, refl), inl refl)
        ]
    finish-Sound (go (item, conflicting)) {m'} {answer} passes e =
        elim (Result-cases (remove_items coin_name m.mempool conflicting)) [
          | inr (y, fails) ↦ absurd (ground (arith, e, fails))
          | inl (pool, removed) ↦ elim (Result-cases (add_to_pool coin_name pool item)) [
            | inr (y, fails) ↦ absurd (ground (arith, e, removed, fails))
            | inl (after, put) ↦
                let same : record m { mempool = after } ≡ m' = ground (arith, e, removed, put) in
                let said : (some item.cost, success, none) ≡ answer =
                  ground (arith, e, removed, put) in
                rw (← same, ← said) (added item conflicting pool {after = after} passes removed put)
          ]
        ]

    -- `add_spendbundle` on a sound pool, where it returns: the pool stays sound, and either it is
    -- as before, or it has a new item under the given name, accepted with SUCCESS and its cost. The
    -- item keeps the value of the coins that it spends (what it creates and its fee are their sum),
    -- costs at most half a block, and each coin that it spends is one that the coin store has
    -- unspent, or one that it creates itself; all other items of the pool were there before.
    pub add_spendbundle-AddsSoundly :
        (quoted : SpendBundle → List ℕ) (now : ℕ) (new_spend : SpendBundle) (npc_result : NpcResult)
        (program : Option (List ℕ)) {m' : Manager S} {answer : Answer}
        → add_spendbundle coin_name int_from_bytes quoted now get_coin_record m new_spend npc_result
            spend_name program
          ≡ ok (m', answer)
        → AddsSoundly get_coin_record spend_name m m' answer
    unfolding add_spendbundle
    add_spendbundle-AddsSoundly quoted now new_spend npc_result program e =
        finish-Sound _
          (validate-IsAccepted coin_name int_from_bytes m sound.consistent quoted now
            get_coin_record new_spend npc_result spend_name program)
          e

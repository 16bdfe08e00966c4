-- ===== src/FullNode/Manager/Life.antt =====
-- A manager's pool over its life: any sequence of calls of chia/full_node/mempool_manager.py.
use gold_blockchain.Base.{ℕ, ◌*◌, ◌≡◌, refl, ◌∙◌, true, Option, some, List, arith, ok}
use gold_blockchain.Base.Dict.{Dict, lookup}
use gold_blockchain.Base.Int.{ℤ}
use gold_blockchain.Consensus.BlockRecord.{BlockRecord, Coin}
use gold_blockchain.Consensus.Constants.{ConsensusConstants}
use gold_blockchain.FullNode.Conditions.{CoinRecord}
use gold_blockchain.FullNode.Items.{MempoolItem}
use gold_blockchain.FullNode.Npc.{NpcResult, SpendBundle}
use gold_blockchain.FullNode.Mempool.SortedDict.{SortedMap, IsSortedMap}
use gold_blockchain.FullNode.Mempool.Coins.{is_in, spent_names}
use gold_blockchain.FullNode.Manager.{
  Manager, limit_cost, new_manager, remove_seen, add_and_maybe_pop_seen,
}
use gold_blockchain.FullNode.Manager.Adding.{Answer, add_spendbundle}
use gold_blockchain.FullNode.Manager.NewPeak.{new_peak}
use gold_blockchain.FullNode.Manager.Sound.{IsBalanced}
use gold_blockchain.FullNode.Manager.Peaks.{empty-IsSound, IsSoundFor, remove_seen-IsSoundFor}
use gold_blockchain.FullNode.Manager.Following.{add-IsSoundFor, new_peak-IsSoundFor}

module _ {S : SortedMap (Dict MempoolItem)} (sorted_map : IsSortedMap S)
    (coin_name : Coin → ℕ) where
  add_seen_pool :
      (m : Manager S) (name : ℕ)
      → ((add_and_maybe_pop_seen m name).mempool ≡ m.mempool)
        × ((add_and_maybe_pop_seen m name).constants ≡ m.constants)
  unfolding add_and_maybe_pop_seen
  add_seen_pool m name = (refl, refl)

  -- The states of a manager: each call takes the clock and the coin store as they are then.
  pub data Reached (int_from_bytes : List ℕ → Option ℤ) (quoted : SpendBundle → List ℕ)
      (c : ConsensusConstants) : Manager S → Type 0 where
    starts : (m : Manager S) → m ≡ new_manager S c → Reached int_from_bytes quoted c m
    adds :
        (m m' : Manager S) (now : ℕ) (get_coin_record : ℕ → Option CoinRecord)
        (new_spend : SpendBundle) (npc_result : NpcResult) (name : ℕ) (program : Option (List ℕ))
        (answer : Answer)
        → Reached int_from_bytes quoted c m
        → add_spendbundle coin_name int_from_bytes quoted now get_coin_record m new_spend npc_result
            name program
          ≡ ok (m', answer)
        → Reached int_from_bytes quoted c m'
    follows_peak :
        (m m' : Manager S) (now : ℕ) (get_coin_record : ℕ → Option CoinRecord)
        (new : Option BlockRecord) (coin_changes : List CoinRecord)
        (txs : List (SpendBundle × NpcResult × ℕ))
        → Reached int_from_bytes quoted c m
        → new_peak coin_name int_from_bytes quoted now get_coin_record m new coin_changes
          ≡ ok (m', txs)
        → Reached int_from_bytes quoted c m'
    sees :
        (m m' : Manager S) (name : ℕ)
        → Reached int_from_bytes quoted c m
        → m' ≡ add_and_maybe_pop_seen m name
        → Reached int_from_bytes quoted c m'
    forgets :
        (m m' : Manager S) (name : ℕ)
        → Reached int_from_bytes quoted c m
        → m' ≡ remove_seen m name
        → Reached int_from_bytes quoted c m'

  module _ (int_from_bytes : List ℕ → Option ℤ) (quoted : SpendBundle → List ℕ)
      (c : ConsensusConstants) where
    pub Reached-IsSoundFor :
        (m : Manager S) → Reached int_from_bytes quoted c m → IsSoundFor sorted_map coin_name c m
    unfolding new_manager
    Reached-IsSoundFor m (starts _ is) = rw is (record {
      sound =
          empty-IsSound sorted_map coin_name (limit_cost c)
            (c.max_block_cost_clvm * c.mempool_block_buffer);
      same = refl;
    })
    Reached-IsSoundFor m
          (adds before _ now get_coin_record new_spend npc_result name program answer r e) =
        add-IsSoundFor sorted_map coin_name int_from_bytes quoted now get_coin_record c before
          new_spend npc_result name program {m' = m} {answer = answer} (Reached-IsSoundFor before r)
          e
    Reached-IsSoundFor m (follows_peak before _ now get_coin_record new coin_changes txs r e) =
        new_peak-IsSoundFor sorted_map coin_name int_from_bytes quoted now get_coin_record c before
          new coin_changes {m' = m} {txs = txs} (Reached-IsSoundFor before r) e
    Reached-IsSoundFor m (sees before _ name r is) =
        let h = Reached-IsSoundFor before r in
        let (pool, constants) = add_seen_pool before name in
        rw is (record { sound = rw pool h.sound; same = constants ∙ h.same })
    Reached-IsSoundFor m (forgets before _ name r is) =
        rw is
          (remove_seen-IsSoundFor sorted_map coin_name c before name (Reached-IsSoundFor before r))

    -- In every state that a manager reaches by adding transactions, following the peak and keeping
    -- track of what it has seen, no two transactions of the pool spend the same coin, and each of
    -- them keeps the value of its coins and costs at most half a block.
    pub no_double_spend :
        (m : Manager S) (k j : ℕ) (item other : MempoolItem) (coin : ℕ)
        → Reached int_from_bytes quoted c m
        → lookup k m.mempool.spends ≡ some item
        → lookup j m.mempool.spends ≡ some other
        → is_in coin (spent_names coin_name item) ≡ true
        → is_in coin (spent_names coin_name other) ≡ true
        → (k ≡ j) × (item ≡ other) × IsBalanced sorted_map coin_name (limit_cost c) item
    no_double_spend m k j item other coin r at at' spends spends' =
        let h = (Reached-IsSoundFor m r).sound in
        let same : item ≡ other = ground (
          arith,
          h.consistent.recorded coin k item at spends,
          h.consistent.recorded coin j other at' spends',
        ) in
        (
          ground (
            arith,
            same,
            h.consistent.valid.named k item at,
            h.consistent.valid.named j other at',
          ),
          same,
          h.balanced k item at,
        )

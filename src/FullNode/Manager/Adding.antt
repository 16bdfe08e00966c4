-- ===== src/FullNode/Manager/Adding.antt =====
-- `add_spendbundle` of chia/full_node/mempool_manager.py: the checks, and the writes after them.
use gold_blockchain.Base.{ℕ, Option, none, some, List, [], ◌∷◌, Result, ok, err, ◌>>=◌}
use gold_blockchain.Base.Dict.{Dict}
use gold_blockchain.Base.Int.{ℤ}
use gold_blockchain.Consensus.BlockRecord.{Coin}
use gold_blockchain.FullNode.Conditions.{CoinRecord}
use gold_blockchain.FullNode.Conditions.Errors.{Err}
use gold_blockchain.FullNode.Items.{MempoolItem}
use gold_blockchain.FullNode.Npc.{NpcResult, SpendBundle}
use gold_blockchain.FullNode.PendingTxCache
use gold_blockchain.FullNode.Mempool.{Mempool, remove_from_pool, add_to_pool}
use gold_blockchain.FullNode.Mempool.SortedDict.{SortedMap}
use gold_blockchain.FullNode.Manager.{Manager}
use gold_blockchain.FullNode.Manager.Steps.{
  Step, go, refused, already, waits, raises, MempoolInclusionStatus, success, pending, failed,
}
use gold_blockchain.FullNode.Manager.Validation.{validate}

-- The cost, what became of the transaction, and an error.
abbrev pub Answer : Type 0
Answer = Option ℕ × MempoolInclusionStatus × Option Err

module _ {S : SortedMap (Dict MempoolItem)} (coin_name : Coin → ℕ) where
  -- Remove all conflicting items.
  unfoldable pub remove_items : Mempool S → Dict MempoolItem → Result (Mempool S)
  remove_items pool [] = ok pool
  remove_items pool ((name, mempool_item) ∷ items) = do
    pool' ← remove_from_pool coin_name pool mempool_item
    remove_items pool' items

  -- What follows the checks.
  unfoldable pub finish :
      Manager S → Step (MempoolItem × Dict MempoolItem) → Result (Manager S × Answer)
  unfolding remove_items
  finish m (refused e) = ok (m, (none, failed, some e))
  finish m (already cost) = ok (m, (some cost, success, none))
  finish m (waits potential e) = do
    cache ← PendingTxCache.add m.potential_cache potential
    ok (record m { potential_cache = cache }, (some potential.cost, pending, some e))
  finish m (raises e) = err e
  finish m (go (item, conflicting)) = do
    pool ← remove_items m.mempool conflicting
    pool' ← add_to_pool coin_name pool item
    ok (record m { mempool = pool' }, (some item.cost, success, none))

  unfoldable pub add_spendbundle :
      (List ℕ → Option ℤ)
      → (SpendBundle → List ℕ)
      → ℕ
      → (ℕ → Option CoinRecord)
      → Manager S
      → SpendBundle
      → NpcResult
      → ℕ
      → Option (List ℕ)
      → Result (Manager S × Answer)
  unfolding finish validate
  add_spendbundle int_from_bytes quoted now get_coin_record m new_spend npc_result spend_name
        program =
      finish m (
        validate coin_name int_from_bytes m quoted now get_coin_record new_spend npc_result
          spend_name program)

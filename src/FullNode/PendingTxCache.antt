-- ===== src/FullNode/PendingTxCache.antt =====
-- chia/full_node/pending_tx_cache.py: transactions that wait for a retry, the oldest dropped first.
pub mod Eviction
use gold_blockchain.Base.{ℕ, [], ◌∷◌, if◌then◌else◌, index_error, Result, ok, err, ◌>>=◌, ◌>>◌}
use gold_blockchain.Base.Dict.{Dict, contains, insert}
use gold_blockchain.Base.Int.{ℤ, pos, ◌+ℤ◌, neg, ltb_ℤ}
use gold_blockchain.FullNode.Items.{MempoolItem}

pub record PendingTxCache : Type 0 where
  pub cache_max_total_cost : ℕ
  pub cache_cost : ℤ
  pub txs : Dict MempoolItem

unfoldable pub new_cache : ℕ → PendingTxCache
new_cache cost_limit = record { cache_max_total_cost = cost_limit; cache_cost = pos 0; txs = [] }

-- The `while` loop: the first of the keys is the oldest; on an empty dict reading it raises.
unfoldable pub drop_oldest : ℕ → ℤ → Dict MempoolItem → Result (ℤ × Dict MempoolItem)
drop_oldest limit cost [] = if ltb_ℤ (pos limit) cost then err index_error else ok (cost, [])
drop_oldest limit cost ((first_in, item) ∷ txs) =
    let rest = drop_oldest limit (cost +ℤ neg item.cost) txs in
    if ltb_ℤ (pos limit) cost then rest else ok (cost, (first_in, item) ∷ txs)

unfoldable pub add : PendingTxCache → MempoolItem → Result PendingTxCache
add cache item = if contains item.spend_bundle_name cache.txs then ok cache else do
  (cost, txs) ←
      drop_oldest cache.cache_max_total_cost (cache.cache_cost +ℤ pos item.cost)
        (insert item.spend_bundle_name item cache.txs)
  ok (record cache { cache_cost = cost; txs = txs })

-- The waiting transactions, and the emptied cache.
unfoldable pub drain : PendingTxCache → Dict MempoolItem × PendingTxCache
drain cache = (cache.txs, record cache { cache_cost = pos 0; txs = [] })

unfoldable pub cost : PendingTxCache → ℤ
cost cache = cache.cache_cost

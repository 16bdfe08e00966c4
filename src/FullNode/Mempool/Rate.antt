-- ===== src/FullNode/Mempool/Rate.antt =====
-- `fee_per_cost` of chia/types/mempool_item.py.
use gold_blockchain.Base.{ℕ, Result}
use gold_blockchain.Base.Floats.{true_div}
use gold_blockchain.FullNode.Items.{MempoolItem}

unfoldable pub fee_per_cost : MempoolItem → Result ℕ
fee_per_cost item = true_div item.fee item.cost

-- ===== src/FullNode/Items.antt =====
-- chia/types/mempool_item.py. A program is its bytes.
use gold_blockchain.Base.{ℕ, List}
use gold_blockchain.Consensus.BlockRecord.{Coin}
use gold_blockchain.FullNode.Npc.{NpcResult, SpendBundle}

pub record MempoolItem : Type 0 where
  pub spend_bundle : SpendBundle
  pub fee : ℕ
  pub npc_result : NpcResult
  pub cost : ℕ
  pub spend_bundle_name : ℕ
  pub additions : List Coin
  pub removals : List Coin
  pub program : List ℕ

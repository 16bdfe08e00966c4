-- ===== src/FullNode.antt =====
-- Components of the full node: chia/full_node.
pub mod Npc
pub mod Cost
pub mod Items
pub mod PendingTxCache
pub mod SyncStore
pub mod Conditions
pub mod Mempool
pub mod Manager
pub mod CoinStore

-- ===== src/Util.antt =====
-- Components of chia/util that keep a state of their own.
pub mod MerkleSet
pub mod LruCache

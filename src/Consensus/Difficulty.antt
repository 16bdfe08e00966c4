-- ===== src/Consensus/Difficulty.antt =====
-- chia/consensus/difficulty_adjustment.py: `Ancestors` fetches blocks, `Epoch` says where epochs
-- end, `Adjust` is the arithmetic of a new difficulty and of new sub-slot iterations, and `Rules`
-- the functions that put these together. A walk back along `prev_hash` takes at most one round more
-- than the height of its first block, since heights fall by one with every step.
pub mod Ancestors
pub mod Epoch
pub mod Adjust
pub mod Rules

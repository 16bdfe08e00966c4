-- ===== src/Consensus/ForkPoint.antt =====
-- chia/consensus/find_fork_point.py, for two block records.
pub mod Ancestors
pub mod Common
use gold_blockchain.Base.{
  ℕ, zero, suc, ◌+◌, ◌||◌, ltb, ◌==◌, if◌then◌else◌, no_fuel, Result, ok, err, ◌>>=◌, ◌>>◌,
}
use gold_blockchain.Base.Int.{ℤ, pos, negsuc}
use gold_blockchain.Consensus.BlockRecord.{BlockRecord, same_record}
use gold_blockchain.Consensus.Blocks.{Blocks}

-- The `while` loop, and what follows it: -1 where the chains have no common block.
unfoldable pub fork_loop : ℕ → Blocks → BlockRecord → BlockRecord → Result ℤ
unfolding same_record
fork_loop zero blocks block_1 block_2 = err no_fuel
fork_loop (suc fuel) blocks block_1 block_2 =
    let down_2 = (do
      prev_2 ← blocks.block_record block_2.prev_hash
      fork_loop fuel blocks block_1 prev_2) in
    let down_1 = (do
      prev_1 ← blocks.block_record block_1.prev_hash
      fork_loop fuel blocks prev_1 block_2) in
    let down_both = (do
      prev_2 ← blocks.block_record block_2.prev_hash
      prev_1 ← blocks.block_record block_1.prev_hash
      fork_loop fuel blocks prev_1 prev_2) in
    let level =
      if block_2.header_hash == block_1.header_hash then ok (pos block_2.height) else down_both in
    let above = if ltb block_2.height block_1.height then down_1 else level in
    let body = if ltb block_1.height block_2.height then down_2 else above in
    let ends = if same_record block_2 block_1 then ok (pos 0) else ok (negsuc 0) in
    if ltb 0 block_2.height || ltb 0 block_1.height then body else ends

-- Each round lowers one of the heights.
unfoldable pub find_fork_point_in_chain : Blocks → BlockRecord → BlockRecord → Result ℤ
unfolding fork_loop
find_fork_point_in_chain blocks block_1 block_2 =
    fork_loop (suc (block_1.height + block_2.height)) blocks block_1 block_2

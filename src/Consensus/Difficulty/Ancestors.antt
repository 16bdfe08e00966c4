-- ===== src/Consensus/Difficulty/Ancestors.antt =====
-- `_get_blocks_at_height` and `_get_second_to_last_transaction_block_in_previous_epoch`.
pub mod Paths
pub mod Walks
use gold_blockchain.Base.{
  ℕ, zero, suc, ◌+◌, ◌-◌, ◌*◌, ◌%◌, Bool, false, ◌&&◌, none, some, List, [], ◌∷◌, ltb, ◌==◌,
  if◌then◌else◌, get_elem?, assertion_error, index_error, no_fuel, Result, ok, err, ◌>>=◌, ◌>>◌,
  guard, or_raise,
}
use gold_blockchain.Base.Ints.{uint32, uint32_sub}
use gold_blockchain.Consensus.Constants.{ConsensusConstants}
use gold_blockchain.Consensus.PotIterations.{floor_mod}
use gold_blockchain.Consensus.BlockRecord.{BlockRecord, is_transaction_block, is_some}
use gold_blockchain.Consensus.Blocks.{Blocks}

-- `for h in range(h, h + count)` over the heaviest chain.
unfoldable pub fast_fetch : Blocks → ℕ → ℕ → Result (List BlockRecord)
fast_fetch blocks h zero = ok []
fast_fetch blocks h (suc count) = do
  height ← uint32 h
  guard (blocks.contains_height height) assertion_error
  b ← blocks.height_to_block_record height
  rest ← fast_fetch blocks (h + 1) count
  ok (b ∷ rest)

-- The `while` loop of a fork, which collects blocks from the highest down; consing them gives the
-- list that the source reverses at the end.
unfoldable pub slow_fetch :
    ℕ → Blocks → BlockRecord → ℕ → ℕ → List BlockRecord → Result (List BlockRecord)
slow_fetch zero blocks curr_b target_height limit found = err no_fuel
slow_fetch (suc fuel) blocks curr_b target_height limit found =
    let found' = if ltb curr_b.height limit then curr_b ∷ found else found in
    let rest = (do
      prev ← blocks.block_record curr_b.prev_hash
      slow_fetch fuel blocks prev target_height limit found') in
    if ltb curr_b.height target_height
    then ok found
    else if curr_b.height == 0
    then ok found'
    else rest

-- Whether `prev_b` is in the path of the peak.
unfoldable pub on_main_chain : Blocks → BlockRecord → Bool
on_main_chain blocks prev_b =
    blocks.contains_height prev_b.height && (elim (blocks.height_to_hash prev_b.height) [
      | none ↦ false
      | some h ↦ h == prev_b.header_hash
    ])

unfoldable pub get_blocks_at_height : Blocks → BlockRecord → ℕ → ℕ → Result (List BlockRecord)
get_blocks_at_height blocks prev_b target_height max_num_blocks =
    if on_main_chain blocks prev_b
    then fast_fetch blocks target_height max_num_blocks
    else slow_fetch (suc prev_b.height) blocks prev_b target_height (target_height + max_num_blocks)
        []

-- `while next_b.sub_epoch_summary_included is None`, over the fetched blocks that are left. The
-- result is `curr_b`.
unfoldable pub wait_for_slot : BlockRecord → BlockRecord → List BlockRecord → Result BlockRecord
wait_for_slot curr_b next_b [] =
    if is_some next_b.sub_epoch_summary_included then ok curr_b else err index_error
wait_for_slot curr_b next_b (b ∷ fetched) =
    let rest = wait_for_slot next_b b fetched in
    if is_some next_b.sub_epoch_summary_included then ok curr_b else rest

-- `while found_tx_block < 2`, with the blocks that are still to be found.
unfoldable pub backtrack : ℕ → Blocks → BlockRecord → ℕ → Result BlockRecord
backtrack fuel blocks curr_b zero = ok curr_b
backtrack zero blocks curr_b (suc missing) = err no_fuel
backtrack (suc fuel) blocks curr_b (suc missing) = do
  prev ← blocks.block_record curr_b.prev_hash
  backtrack fuel blocks prev (if is_transaction_block prev then missing else suc missing)

abbrev pub drop {ℓ} : {A : Type ℓ} → ℕ → List A → List A
drop zero xs = xs
drop (suc n) [] = []
drop (suc n) (x ∷ xs) = drop n xs

-- `height_prev_epoch_surpass`, with the assertions about it.
unfoldable pub prev_epoch_surpass : ConsensusConstants → BlockRecord → Result ℕ
prev_epoch_surpass c last_b = do
  let height_in_next_epoch =
      last_b.height + 2 * c.max_sub_slot_blocks + c.min_blocks_per_challenge_block + 5
  past ← floor_mod height_in_next_epoch c.epoch_blocks
  height_epoch_surpass ← uint32 (height_in_next_epoch - past)
  height_prev_epoch_surpass ← uint32_sub height_epoch_surpass c.epoch_blocks
  guard (height_prev_epoch_surpass % c.epoch_blocks == 0) assertion_error
  guard (ltb (height_in_next_epoch - height_epoch_surpass) (5 * c.max_sub_slot_blocks))
      assertion_error
  ok height_prev_epoch_surpass

-- The blocks around the height at which the previous epoch is surpassed.
unfoldable pub fetch_around :
    ConsensusConstants → Blocks → BlockRecord → ℕ → Result (List BlockRecord)
fetch_around c blocks last_b surpass = do
  start ← uint32_sub surpass (c.max_sub_slot_blocks + 1)
  count ← uint32 (3 * c.max_sub_slot_blocks + c.min_blocks_per_challenge_block + 3)
  get_blocks_at_height blocks last_b start count

-- The second to last transaction block before the slot in which the height is surpassed ends.
unfoldable pub second_to_last_before :
    ConsensusConstants → Blocks → List BlockRecord → ℕ → Result BlockRecord
second_to_last_before c blocks fetched surpass = do
  curr_b ← or_raise (get_elem? fetched c.max_sub_slot_blocks) index_error
  guard (suc curr_b.height == surpass) assertion_error
  next_b ← or_raise (get_elem? fetched (c.max_sub_slot_blocks + 1)) index_error
  guard (next_b.height == surpass) assertion_error
  last ← wait_for_slot curr_b next_b (drop (c.max_sub_slot_blocks + 1) fetched)
  backtrack (suc last.height) blocks last (if is_transaction_block last then 1 else 2)

unfoldable pub get_second_to_last_transaction_block_in_previous_epoch :
    ConsensusConstants → Blocks → BlockRecord → Result BlockRecord
get_second_to_last_transaction_block_in_previous_epoch c blocks last_b = do
  surpass ← prev_epoch_surpass c last_b
  if surpass == 0
      then (do
        first ← get_blocks_at_height blocks last_b 0 1
        or_raise (get_elem? first 0) index_error)
      else (do
        fetched ← fetch_around c blocks last_b surpass
        second_to_last_before c blocks fetched surpass)

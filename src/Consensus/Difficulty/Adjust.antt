-- ===== src/Consensus/Difficulty/Adjust.antt =====
-- The arithmetic in `_get_next_difficulty` and `_get_next_sub_slot_iters`.
pub mod Bounds
use gold_blockchain.Base.{
  ℕ, ◌+◌, ◌-◌, ◌*◌, ◌/◌, min, max, ◌&&◌, ltb, leb, ◌==◌, if◌then◌else◌, value_error,
  assertion_error, zero_division_error, Result, ok, err, ◌>>=◌, ◌>>◌, guard,
}
use gold_blockchain.Base.Ints.{uint64}
use gold_blockchain.Base.Int.{ℤ, pos, negsuc}
use gold_blockchain.Consensus.Constants.{ConsensusConstants}
use gold_blockchain.Consensus.PotIterations.{floor_div, floor_mod}
use gold_blockchain.Consensus.SignificantBits.{truncate_to_significant_bits, count_significant_bits}

-- `uint64(k * (a - b) // (c - d))`: the quotient is rounded down, so it is negative, and raises,
-- exactly when the differences have different signs and the first is not 0.
unfoldable pub quotient_of_differences : ℕ → ℕ → ℕ → ℕ → ℕ → Result ℕ
quotient_of_differences k a b c d =
    if c == d
    then err zero_division_error
    else if leb b a && ltb d c
    then uint64 (k * (a - b) / (c - d))
    else if leb a b && ltb c d
    then uint64 (k * (b - a) / (d - c))
    else if k * (a - b) + k * (b - a) == 0
    then ok 0
    else err value_error

-- `uint64` of an integer.
abbrev pub natural : ℤ → Result ℕ
natural (pos n) = uint64 n
natural (negsuc n) = err value_error

-- `new_difficulty_precise` once it is held within the factor of the old difficulty.
unfoldable pub clamp_difficulty : ℕ → ℕ → ℕ → ℕ → ℕ
clamp_difficulty old_difficulty precise max_diff min_diff =
    if leb old_difficulty precise then min precise max_diff else max 1 (max precise min_diff)

-- The truncation of a new difficulty and its assertion.
unfoldable pub truncate_difficulty : ConsensusConstants → ℕ → Result ℕ
truncate_difficulty c precise = do
  let new_difficulty = truncate_to_significant_bits (pos precise) c.significant_bits
  guard (leb (count_significant_bits new_difficulty) c.significant_bits) assertion_error
  natural new_difficulty

-- From the precise new difficulty to the new one.
unfoldable pub adjust_difficulty : ConsensusConstants → ℕ → ℕ → Result ℕ
unfolding clamp_difficulty truncate_difficulty
adjust_difficulty c old_difficulty new_difficulty_precise = do
  max_diff ← uint64 (c.difficulty_change_max_factor * old_difficulty)
  lower ← floor_div old_difficulty c.difficulty_change_max_factor
  min_diff ← uint64 lower
  clamped ← uint64 (clamp_difficulty old_difficulty new_difficulty_precise max_diff min_diff)
  truncate_difficulty c clamped

unfoldable pub clamp_sub_slot_iters : ConsensusConstants → ℕ → ℕ → ℕ → ℕ → ℕ
clamp_sub_slot_iters c old_ssi precise max_ssi min_ssi =
    if leb old_ssi precise
    then min precise max_ssi
    else max c.num_sps_sub_slot (max precise min_ssi)

-- The truncation of new sub-slot iterations, to a multiple of the number of signage points.
unfoldable pub truncate_sub_slot_iters : ConsensusConstants → ℕ → Result ℕ
truncate_sub_slot_iters c precise = do
  truncated ← natural (truncate_to_significant_bits (pos precise) c.significant_bits)
  past ← floor_mod truncated c.num_sps_sub_slot
  new_ssi ← uint64 (truncated - past)
  guard (leb (count_significant_bits (pos new_ssi)) c.significant_bits) assertion_error
  ok new_ssi

-- From the precise new sub-slot iterations to the new ones.
unfoldable pub adjust_sub_slot_iters : ConsensusConstants → ℕ → ℕ → Result ℕ
unfolding clamp_sub_slot_iters truncate_sub_slot_iters
adjust_sub_slot_iters c old_ssi new_ssi_precise = do
  max_ssi ← uint64 (c.difficulty_change_max_factor * old_ssi)
  lower ← floor_div old_ssi c.difficulty_change_max_factor
  min_ssi ← uint64 lower
  clamped ← uint64 (clamp_sub_slot_iters c old_ssi new_ssi_precise max_ssi min_ssi)
  truncate_sub_slot_iters c clamped

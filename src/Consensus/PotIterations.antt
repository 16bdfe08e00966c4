-- ===== src/Consensus/PotIterations.antt =====
-- chia/consensus/pot_iterations.py: the points of a sub-slot, in iterations. Python's `//` and `%`
-- raise on a zero divisor.
pub mod Placement
pub mod Quality
use gold_blockchain.Base.{
  ℕ, ◌+◌, ◌-◌, ◌*◌, ◌/◌, ◌%◌, Bool, not, ◌&&◌, ltb, leb, ◌==◌, if◌then◌else◌, value_error,
  assertion_error, zero_division_error, Result, ok, err, ◌>>=◌, ◌>>◌, guard,
}
use gold_blockchain.Base.Ints.{uint64}
use gold_blockchain.Consensus.Constants.{ConsensusConstants}

-- `a // b` and `a % b` of numbers that are not negative.
abbrev pub floor_div : ℕ → ℕ → Result ℕ
floor_div a b = if b == 0 then err zero_division_error else ok (a / b)

abbrev pub floor_mod : ℕ → ℕ → Result ℕ
floor_mod a b = if b == 0 then err zero_division_error else ok (a % b)

-- A difference below zero counts as zero here: the index is at least both.
unfoldable pub is_overflow_block : ConsensusConstants → ℕ → Result Bool
is_overflow_block c signage_point_index =
    if leb c.num_sps_sub_slot signage_point_index
    then err value_error
    else ok (leb (c.num_sps_sub_slot - c.num_sp_intervals_extra) signage_point_index)

unfoldable pub calculate_sp_interval_iters : ConsensusConstants → ℕ → Result ℕ
calculate_sp_interval_iters c sub_slot_iters = do
  rest ← floor_mod sub_slot_iters c.num_sps_sub_slot
  guard (rest == 0) assertion_error
  uint64 (sub_slot_iters / c.num_sps_sub_slot)

unfoldable pub calculate_sp_iters : ConsensusConstants → ℕ → ℕ → Result ℕ
unfolding calculate_sp_interval_iters
calculate_sp_iters c sub_slot_iters signage_point_index =
    if leb c.num_sps_sub_slot signage_point_index then err value_error else do
      interval ← calculate_sp_interval_iters c sub_slot_iters
      uint64 (interval * signage_point_index)

unfoldable pub calculate_ip_iters : ConsensusConstants → ℕ → ℕ → ℕ → Result ℕ
unfolding calculate_sp_iters calculate_sp_interval_iters
calculate_ip_iters c sub_slot_iters signage_point_index required_iters = do
  sp_iters ← calculate_sp_iters c sub_slot_iters signage_point_index
  sp_interval_iters ← calculate_sp_interval_iters c sub_slot_iters
  rest ← floor_mod sp_iters sp_interval_iters
  guard (rest == 0 && ltb sp_iters sub_slot_iters) value_error
  guard (ltb required_iters sp_interval_iters && not (required_iters == 0)) value_error
  ip ←
      floor_mod (sp_iters + c.num_sp_intervals_extra * sp_interval_iters + required_iters)
        sub_slot_iters
  uint64 ip

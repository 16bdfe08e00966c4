-- ===== src/Consensus/BlockRecord/Positions.antt =====
-- How far a record's infusion point lies from its signage point.
use gold_blockchain.Base.{ℕ, ◌+◌, ◌*◌, ◌/◌, ◌≤◌, ◌≡◌, arith, if◌then◌else◌, ok}
use gold_blockchain.Consensus.Constants.{ConsensusConstants}
use gold_blockchain.Consensus.PotIterations.{
  is_overflow_block, calculate_sp_iters, calculate_ip_iters, calculate_sp_interval_iters,
}
use gold_blockchain.Consensus.PotIterations.Placement.{ip_iters_placement}
use gold_blockchain.Consensus.BlockRecord.{BlockRecord, sp_total_iters}

-- The parts that `sp_total_iters` adds up.
sp_total_iters-parts :
    (b : BlockRecord) (c : ConsensusConstants) {sp : ℕ}
    → sp_total_iters b c ≡ ok sp
    → (ip : ℕ) × (s : ℕ) × (calculate_ip_iters c b.sub_slot_iters b.signage_point_index
          b.required_iters
        ≡ ok ip)
      × (calculate_sp_iters c b.sub_slot_iters b.signage_point_index ≡ ok s)
      × (b.total_iters + s ≡ sp + ip + (if b.overflow then b.sub_slot_iters else 0))
unfolding sp_total_iters
sp_total_iters-parts b c h = ground arith

sp_iters_position :
    (c : ConsensusConstants) (ssi index : ℕ) {s : ℕ}
    → calculate_sp_iters c ssi index ≡ ok s
    → s ≡ ssi / c.num_sps_sub_slot * index
unfolding calculate_sp_iters calculate_sp_interval_iters
sp_iters_position c ssi index h = ground arith

-- For a record whose overflow flag is that of its signage point index, the total iterations are
-- those of the signage point, the extra intervals and the required iterations together.
pub sp_total_iters_distance :
    (b : BlockRecord) (c : ConsensusConstants) {sp : ℕ}
    → c.num_sp_intervals_extra ≤ c.num_sps_sub_slot
    → is_overflow_block c b.signage_point_index ≡ ok b.overflow
    → sp_total_iters b c ≡ ok sp
    → b.total_iters
      ≡ sp + c.num_sp_intervals_extra * (b.sub_slot_iters / c.num_sps_sub_slot) + b.required_iters
sp_total_iters_distance b c extra flag h =
    let (ip, s, hip, hs, sum) = sp_total_iters-parts b c h in
    let placed =
      ip_iters_placement c b.sub_slot_iters b.signage_point_index b.required_iters extra hip flag in
    let at = sp_iters_position c b.sub_slot_iters b.signage_point_index hs in omega arith

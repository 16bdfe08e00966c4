-- ===== src/Consensus/Difficulty/Rules/Arithmetic.antt =====
-- The steps of the rules without a walk.
use gold_blockchain.Base.{ℕ, ◌+◌, arith}
use gold_blockchain.Base.Ends.{Ends, Ends-bind, Ends-if, uint128_sub-Ends}
use gold_blockchain.Consensus.Constants.{ConsensusConstants}
use gold_blockchain.Consensus.PotIterations.{floor_mod, calculate_ip_iters, calculate_sp_iters}
use gold_blockchain.Consensus.BlockRecord.{
  BlockRecord, sp_total_iters, sp_sub_slot_total_iters, sp_iters,
}
use gold_blockchain.Consensus.Difficulty.Epoch.{height_can_be_first_in_epoch}
use gold_blockchain.Consensus.Difficulty.Adjust.{
  quotient_of_differences, adjust_difficulty, adjust_sub_slot_iters, truncate_difficulty, natural,
}

pub quotient-Ends : (k a b c d : ℕ) → Ends (quotient_of_differences k a b c d)
unfolding quotient_of_differences
quotient-Ends k a b c d = ground arith

pub natural-Ends : (z : _) → Ends (natural z)
natural-Ends z = ground arith

pub truncate_difficulty-Ends : (c : ConsensusConstants) (x : ℕ) → Ends (truncate_difficulty c x)
unfolding truncate_difficulty
truncate_difficulty-Ends c x = ground arith

pub adjust_difficulty-Ends :
    (c : ConsensusConstants) (old precise : ℕ) → Ends (adjust_difficulty c old precise)
unfolding adjust_difficulty
adjust_difficulty-Ends c old precise = ground arith

pub adjust_sub_slot_iters-Ends :
    (c : ConsensusConstants) (old precise : ℕ) → Ends (adjust_sub_slot_iters c old precise)
unfolding adjust_sub_slot_iters
adjust_sub_slot_iters-Ends c old precise = ground arith

pub ip_iters-Ends :
    (c : ConsensusConstants) (ssi index required : ℕ)
    → Ends (calculate_ip_iters c ssi index required)
unfolding calculate_ip_iters
ip_iters-Ends c ssi index required = ground arith

pub sp_iters-Ends : (b : BlockRecord) (c : ConsensusConstants) → Ends (sp_iters b c)
unfolding sp_iters calculate_sp_iters
sp_iters-Ends b c = ground arith

pub sp_start-Ends : (b : BlockRecord) (c : ConsensusConstants) → Ends (sp_sub_slot_total_iters b c)
unfolding sp_sub_slot_total_iters
sp_start-Ends b c =
    Ends-bind (calculate_ip_iters c b.sub_slot_iters b.signage_point_index b.required_iters) _
      (ip_iters-Ends c b.sub_slot_iters b.signage_point_index b.required_iters)
      (λ ip.
        Ends-if b.overflow _ _ (uint128_sub-Ends b.total_iters (ip + b.sub_slot_iters))
          (uint128_sub-Ends b.total_iters ip))

pub sp_total_iters-Ends : (b : BlockRecord) (c : ConsensusConstants) → Ends (sp_total_iters b c)
unfolding sp_total_iters
sp_total_iters-Ends b c =
    Ends-bind (sp_sub_slot_total_iters b c) _ (sp_start-Ends b c)
      (λ start. Ends-bind (sp_iters b c) _ (sp_iters-Ends b c) (λ sp. tt))

pub height_can_be_first-Ends :
    (c : ConsensusConstants) (h : ℕ) → Ends (height_can_be_first_in_epoch c h)
unfolding height_can_be_first_in_epoch
height_can_be_first-Ends c h = ground arith

pub floor_mod-Ends : (a b : ℕ) → Ends (floor_mod a b)
floor_mod-Ends a b = ground arith

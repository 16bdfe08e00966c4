-- ===== src/Consensus/PotIterations/Placement.antt =====
-- Where an infusion point lies.
use native.Mathlib.Nat.{mod-eq_of_lt, mod-eq-sub-mod, mul-mod_right}
use gold_blockchain.Base.{
  ℕ, ◌+◌, ◌-◌, ◌*◌, ◌/◌, ◌%◌, ◌^◌, ◌≤◌, ◌<◌, ◌≡◌, ◌↔◌, inl, inr, Bool, arith, leb, if◌then◌else◌,
  Bool-cases, ok,
}
use gold_blockchain.Consensus.Constants.{ConsensusConstants}
use gold_blockchain.Consensus.PotIterations.{is_overflow_block, calculate_ip_iters}

-- The guards that a computed infusion point has passed, with the interval `n` that they speak of.
pub record Passed (c : ConsensusConstants) (ssi index required ip n : ℕ) : Type 0 where
  pub index_low : index < c.num_sps_sub_slot
  pub divides : c.num_sps_sub_slot * n ≡ ssi
  pub exact : ssi % c.num_sps_sub_slot ≡ 0
  pub required_low : required < n
  pub required_pos : 0 < required
  pub position : ip ≡ (n * index + c.num_sp_intervals_extra * n + required) % ssi
  pub fits : ip < 2 ^ 64

pub calculate_ip_iters-Passed :
    (c : ConsensusConstants) (ssi index required : ℕ) {ip : ℕ}
    → calculate_ip_iters c ssi index required ≡ ok ip
    → Passed c ssi index required ip (ssi / c.num_sps_sub_slot)
unfolding calculate_ip_iters
calculate_ip_iters-Passed c ssi index required h = record {
  index_low = ground arith;
  divides = ground arith;
  exact = ground arith;
  required_low = ground arith;
  required_pos = ground arith;
  position = ground arith;
  fits = ground arith;
}

-- The first `m` of `k` steps of size `n` and a rest below one step.
steps_below : (n m k rest : ℕ) → m < k → rest < n → m * n + rest < k * n
steps_below n m k rest h r = grind arith

steps_reach : (n m k : ℕ) → k ≤ m → k * n ≤ m * n
steps_reach n m k h = grind arith

mod_below : (t ssi : ℕ) → t < ssi → t % ssi ≡ t
mod_below t ssi h = mod-eq_of_lt h

mod_late : (t ssi : ℕ) → ssi ≤ t → t < ssi + ssi → (t % ssi < ssi) × (t % ssi + ssi ≡ t)
mod_late t ssi h k =
    let e = mod-eq-sub-mod h in
    let f = mod_below (t - ssi) ssi (omega arith) in (omega arith, omega arith)

mod_early : (t ssi : ℕ) → t < ssi → (t % ssi < ssi) × (t % ssi + 0 ≡ t)
mod_early t ssi h = let e = mod_below t ssi h in (omega arith, omega arith)

-- The arithmetic of an infusion point: `k` intervals of size `n` make a sub-slot, the signage point
-- is the `i`-th, and the infusion point lies `x` intervals and `required` iterations later.
place :
    (n i x k ssi required : ℕ)
    → k * n ≡ ssi
    → x ≤ k
    → i < k
    → required < n
    → (((i + x) * n + required) % ssi < ssi)
      × (((i + x) * n + required) % ssi + (if leb (k - x) i then ssi else 0)
          ≡ (i + x) * n + required)
place n i x k ssi required d extra low r = elim (Bool-cases (leb (k - x) i)) [
  | inl late ↦ rw late (
      mod_late _ ssi (omega (arith, steps_reach n (i + x) k (ground arith)))
        (omega (arith, steps_below n (i + x) (k + k) required (omega arith) r)))
  | inr early ↦
      rw early (mod_early _ ssi (omega (arith, steps_below n (i + x) k required (ground arith) r)))
]

-- The infusion point of a block is its signage point, the extra intervals and the required
-- iterations later; an overflow block's lies in the next sub-slot, so that one sub-slot is
-- subtracted, and a block that is no overflow block has it in its own.
pub ip_iters_placement :
    (c : ConsensusConstants) (ssi index required : ℕ) {ip : ℕ} {overflow : Bool}
    → c.num_sp_intervals_extra ≤ c.num_sps_sub_slot
    → calculate_ip_iters c ssi index required ≡ ok ip
    → is_overflow_block c index ≡ ok overflow
    → (ip < ssi)
      × (ip + (if overflow then ssi else 0)
          ≡ ssi / c.num_sps_sub_slot * (index + c.num_sp_intervals_extra) + required)
unfolding is_overflow_block
ip_iters_placement c ssi index required extra h o =
    let p = calculate_ip_iters-Passed c ssi index required h in
    ground (
      arith,
      place (ssi / c.num_sps_sub_slot) index c.num_sp_intervals_extra c.num_sps_sub_slot ssi
          required,
      p.index_low,
      p.divides,
      p.required_low,
      p.position,
    )

-- Multiples of the interval below the sub-slot's end.
sp_below : (n i k : ℕ) → i < k → 0 < n → n * i < k * n
sp_below n i k h p = omega (arith, steps_below n i k 0 h p)

interval_divides : (n i : ℕ) → (n * i) % n ≡ 0
interval_divides n i = mul-mod_right n i

-- What an infusion point must satisfy, in numbers.
abbrev pub IsPlaced : ConsensusConstants → ℕ → ℕ → ℕ → ℕ → Type 0
IsPlaced c ssi index required ip =
    (index < c.num_sps_sub_slot)
    × (ssi % c.num_sps_sub_slot ≡ 0)
    × (0 < required)
    × (required < ssi / c.num_sps_sub_slot)
    × (ip
        ≡ (ssi / c.num_sps_sub_slot * index
            + c.num_sp_intervals_extra * (ssi / c.num_sps_sub_slot)
            + required)
          % ssi)

ip_iters_defined :
    (c : ConsensusConstants) (ssi index required ip : ℕ)
    → ssi < 2 ^ 64
    → IsPlaced c ssi index required ip
    → calculate_ip_iters c ssi index required ≡ ok ip
unfolding calculate_ip_iters
ip_iters_defined c ssi index required ip fits (low, exact, positive, below, at) = ground (
  arith,
  sp_below (ssi / c.num_sps_sub_slot) index c.num_sps_sub_slot,
  interval_divides (ssi / c.num_sps_sub_slot) index,
)

-- With sub-slot iterations that fit 64 bits, an infusion point is computed exactly for an index
-- below the number of signage points, sub-slot iterations that these divide, and required
-- iterations between 1 and one less than an interval; every other input raises.
pub ip_iters_defined_iff :
    (c : ConsensusConstants) (ssi index required ip : ℕ)
    → ssi < 2 ^ 64
    → (calculate_ip_iters c ssi index required ≡ ok ip) ↔ IsPlaced c ssi index required ip
ip_iters_defined_iff c ssi index required ip fits =
    (from, ip_iters_defined c ssi index required ip fits)
  where
    from : calculate_ip_iters c ssi index required ≡ ok ip → IsPlaced c ssi index required ip
    from h =
        let p = calculate_ip_iters-Passed c ssi index required h in
        (p.index_low, p.exact, p.required_pos, p.required_low, p.position)

-- ===== src/Consensus/Difficulty/Adjust/Bounds.antt =====
-- The bounds of an adjustment, and its assertions.
use native.Mathlib.Nat.{
  mod-add-div', mul-mod_left, le_trans, mod-lt, mod-le, le-div_iff_mul-le, mul-le-mul_right,
  one-le-pow, div-le_self, div-mul-le_self,
}
use gold_blockchain.Base.{
  ℕ, zero, suc, ◌+◌, ◌-◌, ◌*◌, ◌/◌, ◌%◌, ◌^◌, ◌≤◌, ◌<◌, max, ◌≡◌, ap, ◌⊎◌, inl, inr, false, arith,
  leb, lt→ltb, leb→le, le→leb, ==-eq_false, Bool-cases, ok, Returns,
}
use gold_blockchain.Base.Int.{pos}
use gold_blockchain.Base.Bits.{bit_length_mono, two_pow_add, two_pow_mono, bit_length}
use gold_blockchain.Consensus.Constants.{ConsensusConstants}
use gold_blockchain.Consensus.SignificantBits.{count_significant_bits}
use gold_blockchain.Consensus.SignificantBits.Truncation.{
  cleared-le, count_from-le, cleared, truncate-cleared, count-cleared, truncate_close,
  pow_le-cleared,
}
use gold_blockchain.Consensus.Difficulty.Adjust.{
  clamp_difficulty, truncate_difficulty, clamp_sub_slot_iters, truncate_sub_slot_iters,
  adjust_difficulty, adjust_sub_slot_iters,
}

-- What the constants must satisfy for an adjustment to be defined.
abbrev pub IsAdjustable : ConsensusConstants → ℕ → ℕ → Type 0
IsAdjustable c old precise =
    (0 < c.difficulty_change_max_factor)
    × (0 < c.significant_bits)
    × (c.difficulty_change_max_factor * old < 2 ^ 64)
    × (precise < 2 ^ 64)

factor_bounds : (f old : ℕ) → 0 < f → (old / f ≤ old) × (old ≤ f * old)
factor_bounds zero old p = absurd (omega arith)
factor_bounds (suc f) old p = (div-le_self old (suc f), grind arith)

clamp_bounds :
    (f old precise : ℕ)
    → 0 < f
    → 0 < old
    → let x = clamp_difficulty old precise (f * old) (old / f) in
      (0 < x) × (x ≤ f * old) × (old / f ≤ x)
unfolding clamp_difficulty
clamp_bounds f old precise p q = ground (arith, factor_bounds f old p)

truncate_difficulty_lem :
    (c : ConsensusConstants) (x : ℕ)
    → x < 2 ^ 64
    → truncate_difficulty c x ≡ ok (cleared x c.significant_bits)
unfolding truncate_difficulty
truncate_difficulty_lem c x h = rw truncate-cleared (
    rw (le→leb _ _ (count-cleared x c.significant_bits)) (
      rw (
        lt→ltb (cleared x c.significant_bits) (2 ^ 64)
          (omega (arith, cleared-le x c.significant_bits)))))

-- A positive difficulty leads to a new one on every precise value: the assertion on significant
-- bits holds, the new difficulty is positive, it is at most the old one times the factor, and twice
-- the new one is at least the old one divided by the factor (truncation may halve the bound).
pub adjust_difficulty_bounds :
    (c : ConsensusConstants) (old precise : ℕ)
    → IsAdjustable c old precise
    → 0 < old
    → Returns (adjust_difficulty c old precise) (λ d.
      (0 < d)
      × (d ≤ c.difficulty_change_max_factor * old)
      × (old / c.difficulty_change_max_factor ≤ 2 * d))
unfolding adjust_difficulty
adjust_difficulty_bounds c old precise (factor, bits, fits, small) positive =
    let f = c.difficulty_change_max_factor in
    let (low, high, near) = clamp_bounds f old precise factor positive in
    let x = clamp_difficulty old precise (f * old) (old / f) in
    let (cut, close) = truncate_close x c.significant_bits bits in
    let (lower_fits, _) = factor_bounds f old factor in
    rw (lt→ltb (f * old) (2 ^ 64) fits) (
      rw (==-eq_false f 0 (omega arith)) (
        rw (lt→ltb (old / f) (2 ^ 64) (omega arith)) (
          rw (lt→ltb x (2 ^ 64) (omega arith)) (
            rw (truncate_difficulty_lem c x (omega arith))
              (omega arith, omega arith, omega arith)))))

cut_form : (y m : ℕ) → y - y % 2 ^ m ≡ y / 2 ^ m * 2 ^ m
cut_form y m = omega (arith, mod-add-div' y (2 ^ m))

split_pow : (l d m : ℕ) → l ≡ d + m → 2 ^ l ≡ 2 ^ d * 2 ^ m
split_pow l d m e = rw e (two_pow_add d m)

already_multiple :
    (x n m : ℕ) → m ≤ bit_length x - n → cleared x n - cleared x n % 2 ^ m ≡ cleared x n
already_multiple x n m h =
    let l = bit_length x - n in
    let q = x / 2 ^ l in
    let e : q * 2 ^ l ≡ q * 2 ^ (l - m) * 2 ^ m =
      omega (arith, ap (λ (t : ℕ). q * t) (split_pow l (l - m) m (omega arith))) in
    let none : cleared x n % 2 ^ m ≡ 0 = rw e (mul-mod_left (q * 2 ^ (l - m)) (2 ^ m)) in
    omega arith

gtb→lt : (a b : ℕ) → leb a b ≡ false → b < a
gtb→lt a b h = ground arith

-- Cutting a truncated number down to a multiple of a power of two adds no significant bits.
count_after_cut :
    (x n m : ℕ) → let z = cleared x n - cleared x n % 2 ^ m in count_significant_bits (pos z) ≤ n
unfolding count_significant_bits
count_after_cut x n m = elim (Bool-cases (leb m (bit_length x - n))) [
  | inl kept ↦ rw (already_multiple x n m (leb→le _ _ kept)) (count-cleared x n)
  | inr cut ↦ rw (cut_form (cleared x n) m) (
      omega (
        arith,
        count_from-le (cleared x n / 2 ^ m) m 0 (bit_length (cleared x n / 2 ^ m * 2 ^ m)),
        bit_length_mono (cleared x n / 2 ^ m * 2 ^ m) x
            (le_trans (div-mul-le_self (cleared x n) (2 ^ m)) (cleared-le x n)),
        gtb→lt m (bit_length x - n) cut,
      ))
]

cut_divides : (y m : ℕ) → (y - y % 2 ^ m) % 2 ^ m ≡ 0
cut_divides y m = rw cut_form (mul-mod_left (y / 2 ^ m) (2 ^ m))

cut_divides_by : (y m sps : ℕ) → sps ≡ 2 ^ m → (y - y % sps) % sps ≡ 0
cut_divides_by y m sps e = rw e (cut_divides y m)

clamp_sub_slot_iters-le :
    (c : ConsensusConstants) (old precise : ℕ)
    → let f = c.difficulty_change_max_factor in
      0 < f
      → clamp_sub_slot_iters c old precise (f * old) (old / f) ≤ max c.num_sps_sub_slot (f * old)
unfolding clamp_sub_slot_iters
clamp_sub_slot_iters-le c old precise h =
    ground (arith, factor_bounds c.difficulty_change_max_factor old h)

truncate_sub_slot_iters_lem :
    (c : ConsensusConstants) (x m : ℕ)
    → x < 2 ^ 64
    → c.num_sps_sub_slot ≡ 2 ^ m
    → let y = cleared x c.significant_bits in
      truncate_sub_slot_iters c x ≡ ok (y - y % c.num_sps_sub_slot)
unfolding truncate_sub_slot_iters
truncate_sub_slot_iters_lem c x m h power =
    let y = cleared x c.significant_bits in
    let below = cleared-le x c.significant_bits in
    rw truncate-cleared (
      rw (lt→ltb y (2 ^ 64) (omega arith)) (
        rw power (
          rw (==-eq_false (2 ^ m) 0 (omega (arith, one-le-pow m 2 (omega arith)))) (
            rw (lt→ltb (y - y % 2 ^ m) (2 ^ 64) (omega arith))
              (rw (le→leb _ _ (count_after_cut x c.significant_bits m)))))))

clamp_sub_slot_iters-ge :
    (c : ConsensusConstants) (old precise : ℕ)
    → let f = c.difficulty_change_max_factor in
      let x = clamp_sub_slot_iters c old precise (f * old) (old / f) in
      0 < f → (old / f ≤ x) × (c.num_sps_sub_slot ≤ old → c.num_sps_sub_slot ≤ x)
unfolding clamp_sub_slot_iters
clamp_sub_slot_iters-ge c old precise h =
    let bounds = factor_bounds c.difficulty_change_max_factor old h in
    (ground (arith, bounds), (λ k. ground (arith, bounds)))

-- What a cut to a multiple takes away, and that it leaves one where one is there.
cut_loses : (y m sps : ℕ) → sps ≡ 2 ^ m → y < y - y % sps + sps
cut_loses y m sps e =
    rw e (omega (arith, mod-lt y (one-le-pow m 2 (omega arith)), mod-le y (2 ^ m)))

cut_keeps_one : (y m sps : ℕ) → sps ≡ 2 ^ m → sps ≤ y → sps ≤ y - y % sps
cut_keeps_one y m sps e h =
    let once : 1 ≤ y / 2 ^ m =
      (le-div_iff_mul-le (one-le-pow m 2 (omega arith))).1 (omega (arith, e)) in
    rw (e, cut_form) (omega (arith, mul-le-mul_right (2 ^ m) once))

-- When the number of signage points is a power of two, new sub-slot iterations are always defined:
-- the assertion on significant bits holds, the signage points divide them, they are at most the old
-- ones times the factor, or the number of signage points where that is larger, and twice their next
-- multiple is above the old ones divided by the factor (truncation may halve the bound). Old ones of
-- at least the number of signage points lead to new ones of at least that.
pub adjust_sub_slot_iters_bounds :
    (c : ConsensusConstants) (old precise m : ℕ)
    → IsAdjustable c old precise
    → c.num_sps_sub_slot ≡ 2 ^ m
    → m < 64
    → Returns (adjust_sub_slot_iters c old precise) (λ ssi.
      (ssi % c.num_sps_sub_slot ≡ 0)
      × (ssi ≤ max c.num_sps_sub_slot (c.difficulty_change_max_factor * old))
      × (old / c.difficulty_change_max_factor < 2 * (ssi + c.num_sps_sub_slot))
      × ((old < c.num_sps_sub_slot) ⊎ (c.num_sps_sub_slot ≤ ssi)))
unfolding adjust_sub_slot_iters
adjust_sub_slot_iters_bounds c old precise m (factor, bits, fits, small) power low =
    let f = c.difficulty_change_max_factor in
    let x = clamp_sub_slot_iters c old precise (f * old) (old / f) in
    let high = clamp_sub_slot_iters-le c old precise factor in
    let (least, slots) = clamp_sub_slot_iters-ge c old precise factor in
    let y = cleared x c.significant_bits in
    let (cut, close) = truncate_close x c.significant_bits bits in
    let sps : c.num_sps_sub_slot < 2 ^ 64 =
      rw power (omega (arith, two_pow_mono m 63 (omega arith))) in
    rw (lt→ltb (f * old) (2 ^ 64) fits) (
      rw (==-eq_false f 0 (omega arith)) (
        rw (lt→ltb (old / f) (2 ^ 64) (omega (arith, factor_bounds f old factor))) (
          rw (lt→ltb x (2 ^ 64) (omega arith)) (
            rw (truncate_sub_slot_iters_lem c x m (omega arith) power) (
              cut_divides_by y m c.num_sps_sub_slot power,
              omega (arith, cleared-le x c.significant_bits),
              omega (arith, least, close, cut_loses y m c.num_sps_sub_slot power),
              elim (Bool-cases (leb c.num_sps_sub_slot old)) [
                | inr few ↦ inl (gtb→lt c.num_sps_sub_slot old few)
                | inl enough ↦ inr (
                    cut_keeps_one y m c.num_sps_sub_slot power (
                      omega (
                        arith,
                        pow_le-cleared x c.significant_bits m bits
                            (omega (arith, slots (leb→le _ _ enough), power)),
                        power,
                      )))
              ],
            )))))

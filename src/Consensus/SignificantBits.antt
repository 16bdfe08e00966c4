-- ===== src/Consensus/SignificantBits.antt =====
-- chia/util/significant_bits.py.
pub mod Truncation
use gold_blockchain.Base.{ℕ, zero, suc, ◌+◌, ◌-◌, ◌^◌, ltb, if◌then◌else◌}
use gold_blockchain.Base.Int.{ℤ, pos, negsuc, abs, neg}
use gold_blockchain.Base.Bits.{bit_and, bit_length}

-- `x & mask` of the number's size, once it is known to have more bits than are kept.
unfoldable pub masked : ℕ → ℕ → ℕ
masked x num_significant_bits =
    let lower = bit_length x - num_significant_bits in
    let mask = 2 ^ bit_length x - 1 - (2 ^ lower - 1) in bit_and x mask

unfoldable pub truncate_to_significant_bits : ℤ → ℕ → ℤ
truncate_to_significant_bits input_x num_significant_bits =
    let x = abs input_x in
    if ltb (bit_length x) num_significant_bits then input_x else elim input_x [
      | pos _ ↦ pos (masked x num_significant_bits)
      | negsuc _ ↦ neg (masked x num_significant_bits)
    ]

-- The loop over `i` of `range(x.bit_length())`, with the rounds that are left. Python's `&` of a
-- negative number and a bit of it has that bit of the two's complement, which for the lowest one
-- is the bit of the size; so the number enters by its size.
unfoldable pub count_from : ℕ → ℕ → ℕ → ℕ
count_from x i zero = 0
count_from x i (suc rounds) =
    let rest = count_from x (i + 1) rounds in
    if ltb 0 (bit_and x (2 ^ i)) then bit_length x - i else rest

unfoldable pub count_significant_bits : ℤ → ℕ
unfolding count_from
count_significant_bits input_x = count_from (abs input_x) 0 (bit_length (abs input_x))

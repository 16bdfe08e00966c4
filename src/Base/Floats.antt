-- ===== src/Base/Floats.antt =====
-- Doubles. The code only compares the doubles that it computes from natural numbers, so a double is
-- given by its rank: 0 is rank 0, and the double `m * 2 ^ (l - 128)` with `2 ^ 52 ≤ m < 2 ^ 53` has
-- rank `l * 2 ^ 52 + m`. So ranks are ordered and equal as the doubles are, and rounding up to
-- `m = 2 ^ 53` gives the rank of the next power of two. Python's `/` of two integers, and its product
-- of doubles, is the double next to the exact value, ties going to the even one.
use gold_blockchain.Base.{
  ℕ, ◌+◌, ◌-◌, ◌*◌, ◌/◌, ◌%◌, ◌^◌, ◌&&◌, ◌||◌, ltb, ◌==◌, if◌then◌else◌, zero_division_error,
  Result, ok, err,
}
use gold_blockchain.Base.Bits.{bit_length}

-- The rank of the double next to `a * 2 ^ 128 / b`, which has at least 53 bits where a is not 0 and
-- b fits 64 bits: `l` bits are cut off, and what is cut decides the rounding.
unfoldable pub rank : ℕ → ℕ → ℕ
unfolding bit_length
rank scaled b =
    let l = bit_length (scaled / b) - 53 in
    let m = scaled / b / 2 ^ l in
    let cut = scaled - m * 2 ^ l * b in
    let half = 2 ^ l * b in
    if ltb half (2 * cut) || (2 * cut == half) && (m % 2 == 1)
    then l * 2 ^ 52 + m + 1
    else l * 2 ^ 52 + m

-- `a / b`
unfoldable pub true_div : ℕ → ℕ → Result ℕ
unfolding rank
true_div a b =
    if b == 0 then err zero_division_error else if a == 0 then ok 0 else ok (rank (a * 2 ^ 128) b)

-- An integer below `2 ^ 53` as a double.
unfoldable pub int_rank : ℕ → ℕ
unfolding rank
int_rank n = if n == 0 then 0 else rank (n * 2 ^ 128) 1

-- An integer below `2 ^ 53` times a double.
unfoldable pub mul_rank : ℕ → ℕ → ℕ
unfolding rank
mul_rank n r =
    if n == 0 || r == 0 then 0 else rank (n * (2 ^ 52 + r % 2 ^ 52) * 2 ^ (r / 2 ^ 52 - 1)) 1

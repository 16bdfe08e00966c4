-- ===== src/Base/Bits.antt =====
-- Bit lengths and masks. `bit_length` is Python's `int.bit_length`; a mask of high bits cuts the
-- low ones off, a test of one bit is a remainder.
use native.Mathlib.Nat.{
  pow-suc, pow-succ', pow-le-pow_right, add-suc, one-le-pow, div-div-eq-div-mul,
}
use gold_blockchain.Base.{
  ℕ, zero, suc, ◌+◌, ◌-◌, ◌*◌, ◌/◌, ◌%◌, ◌^◌, ◌≤◌, ◌<◌, min, ◌≡◌, refl, ap, inl, inr, arith, leb,
  ◌==◌, leb→le, ==_iff, Bool-cases,
}

-- The bits of `n`, at most `fuel` of them.
count_bits : ℕ → ℕ → ℕ
count_bits zero n = 0
count_bits (suc fuel) n = elim n [ zero ↦ 0 | suc k ↦ suc (count_bits fuel (suc k / 2)) ]

unfoldable pub bit_length : ℕ → ℕ
unfolding count_bits
bit_length n = count_bits n n

count_bits-zero : (fuel : ℕ) → count_bits fuel 0 ≡ 0
unfolding count_bits
count_bits-zero zero = refl
count_bits-zero (suc fuel) = refl

count_bits-lt : (fuel n : ℕ) → n ≤ fuel → n < 2 ^ count_bits fuel n
unfolding count_bits
count_bits-lt zero n h = omega arith
count_bits-lt (suc fuel) n h =
    ground (arith, pow-succ' 2 (count_bits fuel (n / 2)), count_bits-lt fuel (n / 2))

count_bits-le : (fuel n : ℕ) → n ≤ fuel → 0 < n → 2 ^ count_bits fuel n ≤ 2 * n
unfolding count_bits
count_bits-le zero n h p = omega arith
count_bits-le (suc fuel) n h p = elim (Bool-cases (n == 1)) [
  | inl e ↦ let e' : n ≡ 1 = (==_iff n 1).0 e in rw e' (rw (count_bits-zero fuel) (omega arith))
  | inr e ↦ ground (arith, pow-succ' 2 (count_bits fuel (n / 2)), count_bits-le fuel (n / 2))
]

-- `n` has `bit_length n` bits and no fewer.
pub bit_length_bounds : (n : ℕ) → (n < 2 ^ bit_length n) × (0 < n → 2 ^ bit_length n ≤ 2 * n)
unfolding bit_length
bit_length_bounds n = (count_bits-lt n n (omega arith), count_bits-le n n (omega arith))

-- The bits that two numbers share, the lowest one last.
conjoin : ℕ → ℕ → ℕ → ℕ
conjoin zero a b = 0
conjoin (suc rounds) a b = elim a [
  | zero ↦ 0
  | suc k ↦ conjoin rounds (suc k / 2) (b / 2) * 2 + min (suc k % 2) (b % 2)
]

-- `a & b`: halving `a` times leaves nothing of `a`.
unfoldable pub bit_and : ℕ → ℕ → ℕ
unfolding conjoin
bit_and a b = conjoin a a b

conjoin_enough : (n m a b : ℕ) → a ≤ n → a ≤ m → conjoin n a b ≡ conjoin m a b
unfolding conjoin
conjoin_enough (suc n) (suc m) a b low high = ground (arith, conjoin_enough n m (a / 2) (b / 2))
conjoin_enough zero zero a b low high = refl
conjoin_enough zero (suc m) a b low high = ground arith
conjoin_enough (suc n) zero a b low high = ground arith

zero-bit_and : (b : ℕ) → bit_and 0 b ≡ 0
unfolding bit_and
zero-bit_and b = refl

pub bit_and_step : (a b : ℕ) → bit_and a b ≡ bit_and (a / 2) (b / 2) * 2 + min (a % 2) (b % 2)
unfolding bit_and
bit_and_step zero b = omega arith
bit_and_step (suc k) b = ground (arith, conjoin_enough k (suc k / 2) (suc k / 2) (b / 2))

mul-two-pow-suc : (q k : ℕ) → q * 2 ^ suc k ≡ q * 2 ^ k * 2
mul-two-pow-suc q k = omega (arith, ap (λ (t : ℕ). q * t) (pow-suc 2 k))

-- A conjunction with a multiple of `2 ^ l` drops the low `l` bits of both numbers.
pub bit_and-mul-pow : (l a m : ℕ) → bit_and a (m * 2 ^ l) ≡ bit_and (a / 2 ^ l) m * 2 ^ l
bit_and-mul-pow zero a m = ground arith
bit_and-mul-pow (suc l) a m = ground (
  arith,
  bit_and_step a (m * 2 ^ suc l),
  mul-two-pow-suc m l,
  mul-two-pow-suc (bit_and (a / 2 ^ suc l) m) l,
  bit_and-mul-pow l (a / 2) m,
  div-div-eq-div-mul a 2 (2 ^ l),
  pow-succ' 2 l,
)

-- A conjunction with `k` ones keeps a number that fits `k` bits.
pub bit_and_ones : (k a : ℕ) → a < 2 ^ k → bit_and a (2 ^ k - 1) ≡ a
bit_and_ones zero a h = ground (arith, zero-bit_and 0)
bit_and_ones (suc k) a h = ground (
  arith,
  bit_and_step a (2 ^ suc k - 1),
  pow-succ' 2 k,
  one-le-pow k 2,
  bit_and_ones k (a / 2) (omega (arith, pow-succ' 2 k)),
)

-- Powers of two, split and compared.
pub two_pow_add : (a b : ℕ) → 2 ^ (a + b) ≡ 2 ^ a * 2 ^ b
two_pow_add a zero = ground arith
two_pow_add a (suc b) =
    rw (add-suc a b, pow-suc 2 (a + b), pow-suc 2 b, two_pow_add a b) (omega arith)

pub two_pow_mono : (a b : ℕ) → a ≤ b → 2 ^ a ≤ 2 ^ b
two_pow_mono a b h = pow-le-pow_right {n = 2} (omega arith) h

pub bit_length_mono : (x y : ℕ) → x ≤ y → bit_length x ≤ bit_length y
bit_length_mono zero y h = unfold bit_length in omega arith
bit_length_mono (suc n) y h = elim (Bool-cases (leb (bit_length (suc n)) (bit_length y))) [
  | inl low ↦ leb→le _ _ low
  | inr high ↦ absurd (
      omega (
        arith,
        (bit_length_bounds (suc n)).1 (omega arith),
        (bit_length_bounds y).0,
        pow-succ' 2 (bit_length y),
        two_pow_mono (suc (bit_length y)) (bit_length (suc n)) (ground arith),
      ))
]

bit_and-zero_below : (bound a : ℕ) → a ≤ bound → bit_and a 0 ≡ 0
bit_and-zero_below zero a h = let e : a ≡ 0 = omega arith in rw e (zero-bit_and 0)
bit_and-zero_below (suc bound) a h = elim (Bool-cases (a == 0)) [
  | inl e ↦ rw ((==_iff a 0).0 e) (zero-bit_and 0)
  | inr e ↦ ground (arith, bit_and_step a 0, bit_and-zero_below bound (a / 2))
]

-- A conjunction with one bit is that bit of the number.
pub bit_and-two_pow : (a i : ℕ) → bit_and a (2 ^ i) ≡ a / 2 ^ i % 2 * 2 ^ i
bit_and-two_pow a i = ground (
  arith,
  bit_and-mul-pow i a 1,
  bit_and_step (a / 2 ^ i) 1,
  bit_and-zero_below (a / 2 ^ i / 2) (a / 2 ^ i / 2),
)

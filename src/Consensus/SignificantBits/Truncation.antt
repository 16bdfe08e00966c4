-- ===== src/Consensus/SignificantBits/Truncation.antt =====
-- What truncation keeps.
use native.Mathlib.Nat.{
  pow-succ', le-div_iff_mul-le, mul-le-mul_right, lt-div-mul-add, div-lt_iff_lt-mul, pow-suc,
  div-mul-le_self, lt-div-mul-add, one-le-pow, mul-div_left,
}
use gold_blockchain.Base.{
  ℕ, zero, suc, ◌+◌, ◌-◌, ◌*◌, ◌/◌, ◌%◌, ◌^◌, ◌≤◌, ◌<◌, ◌≡◌, refl, sym, ap, ◌∙◌, ◌≢◌, ◌⊎◌, inl, inr,
  arith, ltb, ◌==◌, ltb→lt, lt→ltb, ==_iff, Bool-cases,
}
use gold_blockchain.Base.Int.{ℤ, pos, negsuc, neg, abs}
use gold_blockchain.Base.Bits.{
  bit_and, bit_length, bit_length_bounds, bit_length_mono, two_pow_mono, bit_and-mul-pow,
  bit_and_ones, bit_and-two_pow, two_pow_add,
}
use gold_blockchain.Consensus.SignificantBits.{
  masked, truncate_to_significant_bits, count_from, count_significant_bits,
}

sub_one_mul : (k l : ℕ) → 1 ≤ k → (k - 1) * l ≡ k * l - l
sub_one_mul zero l h = absurd (omega arith)
sub_one_mul (suc k) l h = let e : suc k - 1 ≡ k = omega arith in rw e (omega arith)

mask_as_product :
    (lower kept : ℕ) → 2 ^ (lower + kept) - 1 - (2 ^ lower - 1) ≡ (2 ^ kept - 1) * 2 ^ lower
mask_as_product lower kept = omega (
  arith,
  two_pow_add lower kept,
  one-le-pow lower 2 (omega arith),
  sub_one_mul (2 ^ kept) (2 ^ lower) (one-le-pow kept 2 (omega arith)),
)

div_pow_below : (x lower kept : ℕ) → x < 2 ^ (lower + kept) → x / 2 ^ lower < 2 ^ kept
div_pow_below x lower kept h =
    (div-lt_iff_lt-mul (one-le-pow lower 2 (omega arith))).1 (omega (arith, two_pow_add lower kept))

-- A mask of the high bits of a number cuts its low bits off.
high_mask :
    (x bits lower kept : ℕ)
    → bits ≡ lower + kept
    → x < 2 ^ bits
    → bit_and x (2 ^ bits - 1 - (2 ^ lower - 1)) ≡ x / 2 ^ lower * 2 ^ lower
high_mask x bits lower kept e fits =
    rw (e, mask_as_product, bit_and-mul-pow)
      (rw (bit_and_ones kept (x / 2 ^ lower) (div_pow_below x lower kept (rw e at fits))))

masked_lem :
    (x n : ℕ) → n ≤ bit_length x → masked x n ≡ x / 2 ^ (bit_length x - n) * 2 ^ (bit_length x - n)
unfolding masked
masked_lem x n h =
    high_mask x (bit_length x) (bit_length x - n) n (omega arith) (bit_length_bounds x).0

-- Bits below a power of two that divides the number are not set.
low_bit_clear : (q i d : ℕ) → q * 2 ^ (i + suc d) / 2 ^ i % 2 ≡ 0
low_bit_clear q i d =
    let e : q * 2 ^ (i + suc d) ≡ q * 2 ^ d * 2 * 2 ^ i = omega (
      arith,
      ap (λ (t : ℕ). q * t) (two_pow_add i (suc d)),
      ap (λ (t : ℕ). q * (2 ^ i * t)) (pow-suc 2 d),
    ) in
    rw e (rw (mul-div_left (q * 2 ^ d * 2) (one-le-pow i 2 (omega arith))) (omega arith))

skips_low : (q lower i : ℕ) → i < lower → bit_and (q * 2 ^ lower) (2 ^ i) ≡ 0
skips_low q lower i h =
    let e : lower ≡ i + suc (lower - i - 1) = omega arith in
    rw e (rw bit_and-two_pow (rw (low_bit_clear q i (lower - i - 1)) (omega arith)))

pub count_from-le :
    (q lower i rounds : ℕ)
    → count_from (q * 2 ^ lower) i rounds ≤ bit_length (q * 2 ^ lower) - lower
unfolding count_from
count_from-le q lower i zero = omega arith
count_from-le q lower i (suc rounds) =
    ground (arith, skips_low q lower i, count_from-le q lower (i + 1) rounds)

-- The number with all but its top `n` bits cleared.
abbrev pub cleared : ℕ → ℕ → ℕ
cleared x n = x / 2 ^ (bit_length x - n) * 2 ^ (bit_length x - n)

pub cleared-le : (x n : ℕ) → cleared x n ≤ x
cleared-le x n = div-mul-le_self x (2 ^ (bit_length x - n))

none_cut : (x n : ℕ) → bit_length x ≤ n → cleared x n ≡ x
none_cut x n h = let e : bit_length x - n ≡ 0 = omega arith in rw e (omega arith)

pub truncate-cleared : (x n : ℕ) → truncate_to_significant_bits (pos x) n ≡ pos (cleared x n)
unfolding truncate_to_significant_bits
truncate-cleared x n = elim (Bool-cases (ltb (bit_length x) n)) [
  | inl short ↦ rw short (rw (none_cut x n (omega (arith, ltb→lt _ _ short))))
  | inr long ↦ rw long (rw (masked_lem x n (ground arith)))
]

pub count-cleared : (x n : ℕ) → count_significant_bits (pos (cleared x n)) ≤ n
unfolding count_significant_bits
count-cleared x n = omega (
  arith,
  count_from-le (x / 2 ^ (bit_length x - n)) (bit_length x - n) 0 (bit_length (cleared x n)),
  bit_length_mono (cleared x n) x (cleared-le x n),
)

neg-suc : (k : ℕ) → neg (suc k) ≡ negsuc k
neg-suc k = ground arith

truncate_negsuc-cleared :
    (k n : ℕ) → truncate_to_significant_bits (negsuc k) n ≡ neg (cleared (suc k) n)
unfolding truncate_to_significant_bits
truncate_negsuc-cleared k n = elim (Bool-cases (ltb (bit_length (suc k)) n)) [
  | inl short ↦
      rw short
        (sym (neg-suc k) ∙ ap neg (sym (none_cut (suc k) n (omega (arith, ltb→lt _ _ short)))))
  | inr long ↦ rw long (ap neg (masked_lem (suc k) n (ground arith)))
]

truncate_neg-cleared : (x n : ℕ) → truncate_to_significant_bits (neg x) n ≡ neg (cleared x n)
truncate_neg-cleared zero n =
    let nothing : cleared 0 n ≡ 0 = omega (arith, cleared-le 0 n) in
    truncate-cleared 0 n ∙ ap pos nothing ∙ sym (ap neg nothing)
truncate_neg-cleared (suc k) n =
    ap (λ (z : ℤ). truncate_to_significant_bits z n) (neg-suc k) ∙ truncate_negsuc-cleared k n

abs-neg : (x : ℕ) → abs (neg x) ≡ x
abs-neg zero = refl
abs-neg (suc k) = ap abs (neg-suc k)

count_neg : (x : ℕ) → count_significant_bits (neg x) ≡ count_significant_bits (pos x)
unfolding count_significant_bits
count_neg x = ap (λ (y : ℕ). count_from y 0 (bit_length y)) (abs-neg x)

-- The lowest bit that is set.
lowest_set : (q t : ℕ) → q % 2 ≡ 1 → 0 < bit_and (q * 2 ^ t) (2 ^ t)
lowest_set q t odd = rw bit_and-two_pow (
    rw (mul-div_left q (one-le-pow t 2 (omega arith)))
      (rw odd (omega (arith, one-le-pow t 2 (omega arith)))))

below_length : (q t : ℕ) → q % 2 ≡ 1 → t < bit_length (q * 2 ^ t)
below_length q t odd =
    let x = q * 2 ^ t in
    let once : 1 ≤ q = omega (arith, odd) in
    let fits = (bit_length_bounds x).0 in
    let enough = mul-le-mul_right (2 ^ t) once in
    elim (Bool-cases (ltb t (bit_length x))) [
      | inl lower ↦ ltb→lt _ _ lower
      | inr higher ↦
          let least = two_pow_mono (bit_length x) t (ground (arith, higher)) in
          absurd (omega (arith, fits, enough, least))
    ]

count_from_lowest :
    (q t i rounds : ℕ)
    → q % 2 ≡ 1
    → i ≤ t
    → t < i + rounds
    → count_from (q * 2 ^ t) i rounds ≡ bit_length (q * 2 ^ t) - t
unfolding count_from
count_from_lowest q t i zero odd low high = absurd (omega arith)
count_from_lowest q t i (suc rounds) odd low high = elim (Bool-cases (i == t)) [
  | inl same ↦
      let e : i ≡ t = (==_iff i t).0 same in
      rw e (rw (lt→ltb 0 (bit_and (q * 2 ^ t) (2 ^ t)) (lowest_set q t odd)) refl)
  | inr differ ↦
      let clear = skips_low q t i (ground (arith, low, differ)) in
      rw clear
        (count_from_lowest q t (i + 1) rounds odd (ground (arith, low, differ)) (omega arith))
]

count_lowest :
    (q t : ℕ) → q % 2 ≡ 1 → count_significant_bits (pos (q * 2 ^ t)) + t ≡ bit_length (q * 2 ^ t)
unfolding count_significant_bits
count_lowest q t odd =
    let below = below_length q t odd in
    omega (
      arith,
      count_from_lowest q t 0 (bit_length (q * 2 ^ t)) odd (omega arith) (omega (arith, below)),
      below,
    )

count_zero : count_significant_bits (pos 0) ≡ 0
unfolding count_significant_bits bit_length
count_zero = refl

-- A positive number as an odd one times a power of two.
odd_part : (fuel x : ℕ) → x ≤ fuel → 0 < x → (q : ℕ) × (t : ℕ) × (x ≡ q * 2 ^ t) × (q % 2 ≡ 1)
odd_part zero x enough positive = absurd (omega arith)
odd_part (suc fuel) x enough positive = elim (Bool-cases (x % 2 == 1)) [
  | inl odd ↦ (x, 0, omega arith, (==_iff _ _).0 odd)
  | inr even ↦
      let (q, t, e, odd) = odd_part fuel (x / 2) (omega arith) (ground (arith, even, positive)) in
      let twice : x ≡ x / 2 * 2 = ground (arith, even) in
      (q, suc t, omega (arith, twice, e, ap (λ (y : ℕ). q * y) (pow-suc 2 t)), odd)
]

-- The significant bits of a number: from the top one to the lowest one that is set.
abbrev pub IsCount : ℕ → ℕ → Type 0
IsCount x n =
    (x ≡ 0) × (n ≡ 0) ⊎ ((q : ℕ) × (t : ℕ) × (x ≡ q * 2 ^ t) × (q % 2 ≡ 1) × (n + t ≡ bit_length x))

count_significant_bits-IsCount : (x : ℕ) → IsCount x (count_significant_bits (pos x))
count_significant_bits-IsCount zero = inl (refl, count_zero)
count_significant_bits-IsCount (suc k) =
    let (q, t, e, odd) = odd_part (suc k) (suc k) (omega arith) (omega arith) in
    inr (q, t, e, odd, rw e (count_lowest q t odd))

-- Truncation of a number, and of its negative, clears all bits of its size but the top `n`, keeps
-- the sign, and leaves at most `n` significant bits by the count of the source. The count of both is
-- the number of bits from the top one to the lowest one that is set: of an odd number times `2 ^ t`
-- the length without the `t` bits below, of 0 none.
pub truncate_lem :
    (x n : ℕ)
    → (truncate_to_significant_bits (pos x) n ≡ pos (cleared x n))
      × (truncate_to_significant_bits (neg x) n ≡ neg (cleared x n))
      × (count_significant_bits (truncate_to_significant_bits (pos x) n) ≤ n)
      × (count_significant_bits (truncate_to_significant_bits (neg x) n) ≤ n)
      × IsCount x (count_significant_bits (pos x))
      × IsCount x (count_significant_bits (neg x))
truncate_lem x n = (
  truncate-cleared x n,
  truncate_neg-cleared x n,
  rw truncate-cleared (count-cleared x n),
  rw (truncate_neg-cleared, count_neg) (count-cleared x n),
  count_significant_bits-IsCount x,
  rw count_neg (count_significant_bits-IsCount x),
)

half_pow : (b k : ℕ) → b ≡ suc k → 2 ^ b ≡ 2 * 2 ^ k
half_pow b k e = rw e (pow-succ' 2 k)

has_bit : (x b : ℕ) → 0 < x → x < 2 ^ b → b ≢ 0
has_bit x b p h e = let q : x < 2 ^ 0 = rw e at h in omega arith

low_le : (x n : ℕ) → 0 < n → 0 < x → 2 ^ (bit_length x - n) ≤ x
low_le x n h p =
    let bits : bit_length x ≢ 0 = has_bit x (bit_length x) p (bit_length_bounds x).0 in
    omega (
      arith,
      half_pow (bit_length x) (bit_length x - 1) (omega arith),
      (bit_length_bounds x).1 p,
      two_pow_mono (bit_length x - n) (bit_length x - 1) (omega arith),
    )

-- A power of two that is not above a number stays below it when bits are cleared.
pub pow_le-cleared : (x n m : ℕ) → 0 < n → 2 ^ m ≤ x → 2 ^ m ≤ cleared x n
pow_le-cleared x n m h p =
    let l = bit_length x - n in
    let some_x : 0 < x = omega (arith, one-le-pow m 2 (omega arith)) in
    elim (Bool-cases (ltb m l)) [
      | inl below ↦
          let once : 1 ≤ x / 2 ^ l =
            (le-div_iff_mul-le (one-le-pow l 2 (omega arith))).1
              (omega (arith, low_le x n h some_x)) in
          omega (
            arith,
            two_pow_mono m l (omega (arith, ltb→lt _ _ below)),
            mul-le-mul_right (2 ^ l) once,
          )
      | inr above ↦
          let e : 2 ^ m ≡ 2 ^ (m - l) * 2 ^ l =
            let k : m ≡ (m - l) + l = ground (arith, above) in
            ap (λ (t : ℕ). 2 ^ t) k ∙ two_pow_add (m - l) l in
          let high : 2 ^ (m - l) ≤ x / 2 ^ l =
            (le-div_iff_mul-le (one-le-pow l 2 (omega arith))).1 (omega (arith, e)) in
          omega (arith, e, mul-le-mul_right (2 ^ l) high)
    ]

floor_close : (x low : ℕ) → 0 < low → low ≤ x → x ≤ 2 * (x / low * low)
floor_close x low p h =
    let once : 1 ≤ x / low = (le-div_iff_mul-le p).1 (omega arith) in
    omega (arith, lt-div-mul-add {a = x} p, mul-le-mul_right low once)

pub truncate_close : (x n : ℕ) → 0 < n → (cleared x n ≤ x) × (x ≤ 2 * cleared x n)
truncate_close zero n h = (cleared-le 0 n, omega arith)
truncate_close (suc k) n h = (
  cleared-le (suc k) n,
  floor_close (suc k) (2 ^ (bit_length (suc k) - n)) (one-le-pow _ 2 (omega arith))
      (low_le (suc k) n h (omega arith)),
)

pos-injective : {x y : ℕ} → pos x ≡ pos y → x ≡ y
pos-injective e = cc

-- Truncation never raises a number, and lowers it by at most half when at least one bit is kept.
pub truncate_within_half :
    (x n : ℕ) {y : ℕ}
    → 0 < n
    → truncate_to_significant_bits (pos x) n ≡ pos y
    → (y ≤ x) × (x ≤ 2 * y)
truncate_within_half x n h e =
    let same = pos-injective (rw truncate-cleared at e) in rw (← same) (truncate_close x n h)

-- ===== src/Util/MerkleSet/Bits.antt =====
-- The bits of a hash, with the number of bits that follow: `x / 2 ^ k` is what stands before the
-- last `k` bits.
use gold_blockchain.Base.{
  ℕ, zero, suc, ◌+◌, ◌-◌, ◌*◌, ◌/◌, ◌%◌, ◌^◌, ◌≤◌, ◌<◌, ◌≡◌, ap, inl, inr, true, arith, ltb, ltb→lt,
  Bool-cases, ok,
}
use native.Mathlib.Nat.{pow-suc, div-div-eq-div-mul}
use gold_blockchain.Util.MerkleSet.{get_bit}

-- The bit before the last `k`.
abbrev pub bit_of : ℕ → ℕ → ℕ
bit_of k x = x / 2 ^ k % 2

pub get_bit-at : (x depth k : ℕ) → depth + suc k ≡ 256 → get_bit x depth ≡ ok (bit_of k x)
unfolding get_bit
get_bit-at x depth k e =
    let rest : 255 - depth ≡ k = omega (arith, e) in
    let inside : ltb depth 256 ≡ true = ground (arith, e) in rw (inside, rest)

-- One bit more.
pub prefix_suc : (k x : ℕ) → x / 2 ^ k ≡ 2 * (x / 2 ^ suc k) + bit_of k x
prefix_suc k x = omega (arith, div-div-eq-div-mul x (2 ^ k) 2, ap (λ (t : ℕ). x / t) (pow-suc 2 k))

half_prefix : (k x : ℕ) → x / 2 ^ suc k ≡ x / 2 ^ k / 2
half_prefix k x = omega (arith, div-div-eq-div-mul x (2 ^ k) 2, ap (λ (t : ℕ). x / t) (pow-suc 2 k))

pub prefix_mono : (k a b : ℕ) → a ≤ b → a / 2 ^ k ≤ b / 2 ^ k
prefix_mono zero a b h = omega arith
prefix_mono (suc k) a b h = omega (arith, half_prefix k a, half_prefix k b, prefix_mono k a b h)

pub lt_of_prefix : (k a b : ℕ) → a / 2 ^ k < b / 2 ^ k → a < b
lt_of_prefix k a b h = elim (Bool-cases (ltb a b)) [
  | inl less ↦ ltb→lt a b less
  | inr more ↦ absurd (omega (arith, prefix_mono k b a (ground (arith, more)), h))
]

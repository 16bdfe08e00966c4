-- ===== src/Consensus/Difficulty/Ancestors/Paths.antt =====
-- The two ways to fetch blocks, on the peak's chain.
use mathlib.Core.List.{append-nil}
use gold_blockchain.Base.{
  ℕ, zero, suc, ◌+◌, ◌^◌, ◌≤◌, ◌<◌, ◌≡◌, refl, ap, inl, inr, true, List, [], ◌∷◌, ◌++◌, arith, ltb,
  ltb→lt, Bool-cases, ok,
}
use gold_blockchain.Consensus.BlockRecord.{BlockRecord}
use gold_blockchain.Consensus.Blocks.{Blocks}
use gold_blockchain.Consensus.Blocks.Chain.{IsMainChain}
use gold_blockchain.Consensus.Difficulty.Ancestors.{
  fast_fetch, slow_fetch, on_main_chain, get_blocks_at_height,
}

-- The blocks of the chain at `count` heights from `h` on.
abbrev pub segment : (ℕ → BlockRecord) → ℕ → ℕ → List BlockRecord
segment at h zero = []
segment at h (suc count) = at h ∷ segment at (h + 1) count

module _ {blocks : Blocks} {at : ℕ → BlockRecord} {top : ℕ}
    (chain : IsMainChain blocks at top) where
  fast_fetch-segment :
      (h count : ℕ)
      → h + count ≤ suc top
      → top < 2 ^ 32
      → fast_fetch blocks h count ≡ ok (segment at h count)
  unfolding fast_fetch
  fast_fetch-segment h zero inside fits = refl
  fast_fetch-segment h (suc count) inside fits =
      ground (arith, chain.known h, chain.by_height h, fast_fetch-segment (h + 1) count)

  segment-snoc :
      (t k : ℕ) (found : List BlockRecord)
      → segment at t (suc k) ++ found ≡ segment at t k ++ at (t + k) ∷ found
  segment-snoc t zero found = let e : t + 0 ≡ t = omega arith in rw e
  segment-snoc t (suc k) found =
      let e : t + 1 + k ≡ t + suc k = omega arith in
      ap (λ r. at t ∷ r) (rw (← e) (segment-snoc (t + 1) k found))

  -- Within the range that is asked for, `k` blocks above its start.
  slow_fetch-inside :
      (k fuel h target limit : ℕ) (found : List BlockRecord)
      → h + 1 ≡ target + k
      → h < limit
      → h ≤ top
      → h < fuel
      → slow_fetch fuel blocks (at h) target limit found ≡ ok (segment at target k ++ found)
  unfolding slow_fetch
  slow_fetch-inside k zero h target limit found e low inside enough = absurd (omega arith)
  slow_fetch-inside zero (suc fuel) h target limit found e low inside enough =
      ground (arith, chain.height_at h)
  slow_fetch-inside (suc zero) (suc fuel) zero target limit found e low inside enough =
      let t : target ≡ 0 = omega arith in rw t (ground (arith, chain.height_at 0))
  slow_fetch-inside (suc (suc k)) (suc fuel) zero target limit found e low inside enough =
      absurd (omega arith)
  slow_fetch-inside (suc k) (suc fuel) (suc h) target limit found e low inside enough =
      let t : target + k ≡ suc h = omega arith in
      let same : at (target + k) ≡ at (suc h) = ap at t in
      ground (
        arith,
        chain.height_at (suc h),
        chain.linked h,
        slow_fetch-inside k fuel h target limit (at (suc h) ∷ found),
        segment-snoc target k found,
        same,
      )

  -- Above the range nothing is collected.
  slow_fetch-above :
      (fuel h target count : ℕ)
      → 0 < count
      → target + count ≤ suc h
      → h ≤ top
      → h < fuel
      → slow_fetch fuel blocks (at h) target (target + count) []
        ≡ ok (segment at target count ++ [])
  unfolding slow_fetch
  slow_fetch-above zero h target count positive reach inside enough = absurd (omega arith)
  slow_fetch-above (suc fuel) zero target count positive reach inside enough =
      slow_fetch-inside count (suc fuel) 0 target (target + count) [] (omega arith) (omega arith)
        inside enough
  slow_fetch-above (suc fuel) (suc h) target count positive reach inside enough =
      elim (Bool-cases (ltb (suc h) (target + count))) [
        | inl low ↦
            slow_fetch-inside count (suc fuel) (suc h) target (target + count) []
              (omega (arith, ltb→lt _ _ low)) (ltb→lt _ _ low) inside enough
        | inr high ↦
            ground
              (arith, chain.height_at (suc h), chain.linked h, slow_fetch-above fuel h target count)
      ]

  on_main_chain-at : (h : ℕ) → h ≤ top → on_main_chain blocks (at h) ≡ true
  unfolding on_main_chain
  on_main_chain-at h inside = ground (arith, chain.height_at h, chain.known h, chain.by_hash h)

  -- For a block of the peak's chain and a range that ends at most at this block, the quick way by
  -- height is taken, it yields the blocks of the chain in the range, and the slow way back along
  -- the hashes, which forks take, would yield the same list.
  pub get_blocks_at_height-eq-slow :
      (h target count : ℕ)
      → 0 < count
      → target + count ≤ suc h
      → h ≤ top
      → top < 2 ^ 32
      → (get_blocks_at_height blocks (at h) target count ≡ ok (segment at target count))
        × (slow_fetch (suc h) blocks (at h) target (target + count) []
            ≡ ok (segment at target count))
  unfolding get_blocks_at_height
  get_blocks_at_height-eq-slow h target count positive reach inside fits = (
    rw (on_main_chain-at h inside) (fast_fetch-segment target count (omega arith) fits),
    rw (slow_fetch-above (suc h) h target count positive reach inside (omega arith))
        (rw append-nil),
  )

-- ===== src/Consensus/ForkPoint/Common.antt =====
-- The fork point is the highest common block of two chains.
use gold_blockchain.Base.{
  ℕ, zero, suc, ◌+◌, ◌≤◌, ◌<◌, ◌≡◌, refl, sym, ◌≢◌, inl, inr, ◌||◌, arith, ltb, ◌==◌, if◌then◌else◌,
  ltb→lt, ==_iff, Bool-cases, ok, ◌>>=◌, Gives, Gives-map,
}
use gold_blockchain.Base.Int.{ℤ, pos, negsuc}
use gold_blockchain.Consensus.BlockRecord.{
  BlockRecord, same_record, same_record_of, not_same_record_of,
}
use gold_blockchain.Consensus.Blocks.{Blocks}
use gold_blockchain.Consensus.Blocks.Chain.{IsLinked, IsStored, Gives-step_found}
use gold_blockchain.Consensus.ForkPoint.{fork_loop, find_fork_point_in_chain}
use gold_blockchain.Consensus.ForkPoint.Ancestors.{
  IsAncestor, here, back, AreNamed, same_of_hash, ancestor_height, common_below, common_apart,
  apart_at_ground,
}

-- The highest common block, or that there is none.
abbrev pub IsForkPoint : Blocks → BlockRecord → BlockRecord → ℤ → Type 0
IsForkPoint blocks b1 b2 (pos n) =
    (c : BlockRecord) × IsAncestor blocks c b1
    × IsAncestor blocks c b2
    × (c.height ≡ n)
    × ((d : BlockRecord) → IsAncestor blocks d b1 → IsAncestor blocks d b2 → d.height ≤ n)
IsForkPoint blocks b1 b2 (negsuc n) =
    (d : BlockRecord) → IsAncestor blocks d b1 → ¬ IsAncestor blocks d b2

module _ (blocks : Blocks) (linked : IsLinked blocks) (named : AreNamed blocks) where
  -- One step back on one side, or on both, keeps the common blocks.
  step_up :
      (b1 b2 p1 p2 : BlockRecord) (k : ℤ)
      → ((d : BlockRecord) → IsAncestor blocks d p1 → IsAncestor blocks d b1)
      → ((d : BlockRecord) → IsAncestor blocks d p2 → IsAncestor blocks d b2)
      → ((d : BlockRecord)
          → IsAncestor blocks d b1
          → IsAncestor blocks d b2
          → IsAncestor blocks d p1 × IsAncestor blocks d p2)
      → IsForkPoint blocks p1 p2 k
      → IsForkPoint blocks b1 b2 k
  step_up b1 b2 p1 p2 (pos n) up1 up2 down (c, anc1, anc2, at, most) =
      (c, up1 c anc1, up2 c anc2, at, (λ d h h'. let (k, k') = down d h h' in most d k k'))
  step_up b1 b2 p1 p2 (negsuc n) up1 up2 down nothing =
      λ d h h'. let (k, k') = down d h h' in nothing d k k'

  -- What the rounds that are left give for blocks that lie lower.
  abbrev Below : ℕ → BlockRecord → BlockRecord → Type 0
  Below fuel b1 b2 =
      (c1 c2 : BlockRecord)
      → IsStored blocks c1
      → IsStored blocks c2
      → c1.height + c2.height < b1.height + b2.height
      → Gives (fork_loop fuel blocks c1 c2) (IsForkPoint blocks c1 c2)

  -- The end of the loop, with both blocks at height 0.
  ends_at_ground :
      (b1 b2 : BlockRecord)
      → IsStored blocks b1
      → IsStored blocks b2
      → (b1.height ≡ 0) × (b2.height ≡ 0)
      → Gives (if same_record b2 b1 then ok (pos 0) else ok (negsuc 0)) (IsForkPoint blocks b1 b2)
  ends_at_ground b1 b2 s1 s2 low = elim (Bool-cases (same_record b2 b1)) [
    | inl same ↦ rw same (
      b1,
      here b1 refl,
      here b2 (same_record_of b2 b1 same),
      low.0,
      (λ d h h'. omega (arith, low.0, ancestor_height blocks linked named d b1 s1 h)),
    )
    | inr other ↦ rw other (λ d h.
        apart_at_ground blocks linked named b1 b2 d s1 s2 low (not_same_record_of b2 b1 other) h)
  ]

  steps_down_two :
      (fuel : ℕ) (b1 b2 : BlockRecord)
      → IsStored blocks b1
      → IsStored blocks b2
      → b1.height < b2.height
      → Below fuel b1 b2
      → Gives
          (do p2 ← blocks.block_record b2.prev_hash; fork_loop fuel blocks b1 p2)
          (IsForkPoint blocks b1 b2)
  steps_down_two fuel b1 b2 s1 s2 two below =
      Gives-step_found blocks b2 _ (IsForkPoint blocks b1 b2) linked s2 (λ p2 found lower.
        Gives-map (fork_loop fuel blocks b1 p2) _ _
          (below b1 p2 s1 (b2.prev_hash, found) (omega (arith, lower)))
          (λ k is.
            step_up b1 b2 b1 p2 k (λ d x. x) (λ d x. back b2 p2 found x)
              (λ d h h'. (h, common_below blocks linked named d b2 b1 p2 s1 two h' h found)) is))

  steps_down_one :
      (fuel : ℕ) (b1 b2 : BlockRecord)
      → IsStored blocks b1
      → IsStored blocks b2
      → b2.height < b1.height
      → Below fuel b1 b2
      → Gives
          (do p1 ← blocks.block_record b1.prev_hash; fork_loop fuel blocks p1 b2)
          (IsForkPoint blocks b1 b2)
  steps_down_one fuel b1 b2 s1 s2 one below =
      Gives-step_found blocks b1 _ (IsForkPoint blocks b1 b2) linked s1 (λ p1 found lower.
        Gives-map (fork_loop fuel blocks p1 b2) _ _
          (below p1 b2 (b1.prev_hash, found) s2 (omega (arith, lower)))
          (λ k is.
            step_up b1 b2 p1 b2 k (λ d x. back b1 p1 found x) (λ d x. x)
              (λ d h h'. (common_below blocks linked named d b1 b2 p1 s2 one h h' found, h')) is))

  -- Two blocks of one height: the same one, or a step down on both sides.
  level_lem :
      (fuel : ℕ) (b1 b2 : BlockRecord)
      → IsStored blocks b1
      → IsStored blocks b2
      → b1.height ≡ b2.height
      → Below fuel b1 b2
      → Gives
          (if b2.header_hash == b1.header_hash then ok (pos b2.height) else (do
            p2 ← blocks.block_record b2.prev_hash
            p1 ← blocks.block_record b1.prev_hash
            fork_loop fuel blocks p1 p2))
          (IsForkPoint blocks b1 b2)
  level_lem fuel b1 b2 s1 s2 level below = elim (Bool-cases (b2.header_hash == b1.header_hash)) [
    | inl same ↦ rw same (
        let equal = same_of_hash blocks linked named b2 b1 s2 s1 ((==_iff _ _).0 same) in
        (
          b2,
          here b1 (sym equal),
          here b2 refl,
          refl,
          (λ d h h'. ancestor_height blocks linked named d b2 s2 h'),
        ))
    | inr differ ↦ rw differ (
        let apart : b2.header_hash ≢ b1.header_hash = λ e. ground (arith, e, differ) in
        Gives-step_found blocks b2 _ (IsForkPoint blocks b1 b2) linked s2 (λ p2 found2 lower2.
          Gives-step_found blocks b1 _ (IsForkPoint blocks b1 b2) linked s1 (λ p1 found1 lower1.
            Gives-map (fork_loop fuel blocks p1 p2) _ _
              (below p1 p2 (b1.prev_hash, found1) (b2.prev_hash, found2)
                (omega (arith, lower1, lower2)))
              (λ k is.
                step_up b1 b2 p1 p2 k (λ d x. back b1 p1 found1 x) (λ d x. back b2 p2 found2 x)
                  (λ d h h'. (
                    common_apart blocks linked named d b1 b2 p1 s2 (sym level) apart h h' found1,
                    common_apart blocks linked named d b2 b1 p2 s1 level (λ e. apart (sym e)) h' h
                        found2,
                  ))
                  is))))
  ]

  fork_loop_lem :
      (fuel : ℕ) (b1 b2 : BlockRecord)
      → IsStored blocks b1
      → IsStored blocks b2
      → b1.height + b2.height < fuel
      → Gives (fork_loop fuel blocks b1 b2) (IsForkPoint blocks b1 b2)
  unfolding fork_loop
  fork_loop_lem zero b1 b2 s1 s2 enough = absurd (omega arith)
  fork_loop_lem (suc fuel) b1 b2 s1 s2 enough =
      let below : Below fuel b1 b2 =
        λ c1 c2 t1 t2 lower. fork_loop_lem fuel c1 c2 t1 t2 (omega (arith, lower, enough)) in
      elim (Bool-cases (ltb 0 b2.height || ltb 0 b1.height)) [
        | inr low ↦ rw low (ends_at_ground b1 b2 s1 s2 (ground (arith, low), ground (arith, low)))
        | inl above ↦ rw above (elim (Bool-cases (ltb b1.height b2.height)) [
          | inl two ↦ rw two (steps_down_two fuel b1 b2 s1 s2 (ltb→lt _ _ two) below)
          | inr not_two ↦ rw not_two (elim (Bool-cases (ltb b2.height b1.height)) [
            | inl one ↦ rw one (steps_down_one fuel b1 b2 s1 s2 (ltb→lt _ _ one) below)
            | inr not_one ↦
                rw not_one (level_lem fuel b1 b2 s1 s2 (ground (arith, not_two, not_one)) below)
          ])
        ])
      ]

  -- In a store of linked blocks, each under its hash, the search for the fork point of two stored
  -- blocks ends: it raises, where a predecessor is missing, or it gives the height of the highest
  -- block that both chains have in common, and -1 exactly where they have none.
  pub find_fork_point_lem :
      (b1 b2 : BlockRecord)
      → IsStored blocks b1
      → IsStored blocks b2
      → Gives (find_fork_point_in_chain blocks b1 b2) (IsForkPoint blocks b1 b2)
  unfolding find_fork_point_in_chain
  find_fork_point_lem b1 b2 s1 s2 =
      fork_loop_lem (suc (b1.height + b2.height)) b1 b2 s1 s2 (omega arith)

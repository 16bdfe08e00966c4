-- ===== src/Consensus/Difficulty/Epoch/Finish.antt =====
-- When a sub-epoch may end.
use native.Mathlib.Nat.{mod-lt, mul-mod_right, div-add-mod, add-mul-mod_self_left, mod-eq_of_lt}
use gold_blockchain.Base.{
  ℕ, zero, suc, ◌+◌, ◌-◌, ◌*◌, ◌/◌, ◌%◌, ◌^◌, ◌≤◌, ◌<◌, ◌≡◌, refl, sym, ap, Bool, true, not, ◌&&◌,
  some, List, [], ◌∷◌, ◌++◌, arith, leb, ◌==◌, ok,
}
use gold_blockchain.Consensus.Constants.{ConsensusConstants}
use gold_blockchain.Consensus.BlockRecord.{BlockRecord, is_some}
use gold_blockchain.Consensus.Blocks.{Blocks}
use gold_blockchain.Consensus.Blocks.Chain.{IsMainChain}
use gold_blockchain.Consensus.Difficulty.Ancestors.Paths.{segment}
use gold_blockchain.Consensus.Difficulty.Epoch.{
  height_can_be_first_in_epoch, clear_since_sub_epoch, no_summary_yet, finish_at,
  can_finish_sub_and_full_epoch,
}

-- No block of the list includes a sub-epoch summary.
abbrev pub summaries_absent : List BlockRecord → Bool
summaries_absent [] = true
summaries_absent (b ∷ bs) = not (is_some b.sub_epoch_summary_included) && summaries_absent bs

summaries_absent-append :
    (xs ys : List BlockRecord)
    → summaries_absent (xs ++ ys) ≡ (summaries_absent xs && summaries_absent ys)
summaries_absent-append [] ys = refl
summaries_absent-append (x ∷ xs) ys = ground (arith, summaries_absent-append xs ys)

mod_offset : (s k n : ℕ) → s % n ≡ 0 → k < n → (s + k) % n ≡ k
mod_offset s k n h low =
    let e : s + k ≡ k + n * (s / n) = omega (arith, div-add-mod s n) in
    rw e (rw add-mul-mod_self_left (mod-eq_of_lt low))

module _ (c : ConsensusConstants) {blocks : Blocks} {at : ℕ → BlockRecord} {top : ℕ}
    (chain : IsMainChain blocks at top) where
  -- `segment` as the walk finds it, from the highest block down.
  absent-suc :
      (s k : ℕ)
      → summaries_absent (segment at s (suc k)) ≡ (
          summaries_absent (segment at s k)
          && (not (is_some (at (s + k)).sub_epoch_summary_included) && true))
  absent-suc s zero = let e : s + 0 ≡ s = omega arith in rw e
  absent-suc s (suc k) =
      let e : s + 1 + k ≡ s + suc k = omega arith in ground (arith, rw e at (absent-suc (s + 1) k))

  clear_since-segment :
      (k fuel s h : ℕ)
      → s % c.sub_epoch_blocks ≡ 0
      → k < c.sub_epoch_blocks
      → h ≡ s + k
      → h ≤ top
      → h < fuel
      → clear_since_sub_epoch fuel c blocks (at h) ≡ ok (summaries_absent (segment at s (suc k)))
  unfolding clear_since_sub_epoch
  clear_since-segment k zero s h e low at_h inside enough = absurd (omega arith)
  clear_since-segment zero (suc fuel) s h e low at_h inside enough =
      let same : h ≡ s = omega arith in rw same (ground (arith, chain.height_at s))
  clear_since-segment (suc k) (suc fuel) s zero e low at_h inside enough = absurd (omega arith)
  clear_since-segment (suc k) (suc fuel) s (suc h) e low at_h inside enough =
      let same : at (s + suc k) ≡ at (suc h) = ap at (sym at_h) in
      let past : suc h % c.sub_epoch_blocks ≡ suc k =
        rw at_h (mod_offset s (suc k) c.sub_epoch_blocks e low) in
      ground (
        arith,
        chain.height_at (suc h),
        chain.linked h,
        clear_since-segment k fuel s h,
        absent-suc s (suc k),
        same,
        past,
      )

  -- The blocks since the sub-epoch's first possible height, up to but without the block at `height`.
  abbrev pub since_sub_epoch : ℕ → List BlockRecord
  since_sub_epoch height =
      segment at (height + 1 - (height + 1) % c.sub_epoch_blocks)
        (height - (height + 1 - (height + 1) % c.sub_epoch_blocks))

  since_sub_epoch-nil :
      (h : ℕ) → (suc h + 1) % c.sub_epoch_blocks ≤ 1 → since_sub_epoch (suc h) ≡ []
  since_sub_epoch-nil h low =
      let e : suc h - (suc h + 1 - (suc h + 1) % c.sub_epoch_blocks) ≡ 0 = omega arith in rw e

  clear_since_lem :
      (h : ℕ)
      → 0 < c.sub_epoch_blocks
      → h ≤ top
      → 1 < (suc h + 1) % c.sub_epoch_blocks
      → clear_since_sub_epoch (suc h) c blocks (at h)
        ≡ ok (summaries_absent (since_sub_epoch (suc h)))
  clear_since_lem h positive inside late =
      let n = c.sub_epoch_blocks in
      let past = (suc h + 1) % n in
      let s = suc h + 1 - past in
      let bound : past < n = mod-lt (suc h + 1) positive in
      let whole : s ≡ n * ((suc h + 1) / n) = omega (arith, div-add-mod (suc h + 1) n) in
      let start : s % n ≡ 0 = rw whole (mul-mod_right n ((suc h + 1) / n)) in
      let count : suc h - s ≡ suc (past - 2) = omega arith in
      rw count (
        clear_since-segment (past - 2) (suc h) s h start (omega arith) (omega arith) inside
          (omega arith))

  -- For the block at a height of the peak's chain: its sub-epoch can finish exactly when the height
  -- is late enough, the deficit is 0, the block includes no summary, and none of the blocks before
  -- it since the sub-epoch's first height does; then the epoch can finish too exactly when the next
  -- height can be the first of an epoch.
  pub can_finish_lem :
      (h deficit : ℕ) (included first : Bool)
      → 0 < c.sub_epoch_blocks
      → suc h ≤ top
      → top + 1 < 2 ^ 32
      → height_can_be_first_in_epoch c (suc h + 1) ≡ ok first
      → let finish =
          leb c.sub_epoch_blocks (suc h + 1)
          && (deficit == 0)
          && not included
          && summaries_absent (since_sub_epoch (suc h)) in
        can_finish_sub_and_full_epoch c blocks
          (suc h)
          (some (at (suc h)).prev_hash)
          deficit
          included
        ≡ ok (finish, finish && first)
  unfolding can_finish_sub_and_full_epoch no_summary_yet finish_at
  can_finish_lem h deficit included first positive inside fits aligned = ground (
    arith,
    aligned,
    chain.height_at h,
    chain.linked h,
    clear_since_lem h positive,
    since_sub_epoch-nil h,
  )

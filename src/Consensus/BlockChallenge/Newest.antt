-- ===== src/Consensus/BlockChallenge/Newest.antt =====
-- The challenge of a block is one of the newest of its chain.
use gold_blockchain.Base.{
  ℕ, zero, suc, ◌≤◌, ◌<◌, ◌≡◌, refl, sym, ap, ◌∙◌, inl, inr, Bool, true, false, not, ◌&&◌, none,
  some, List, [], ◌∷◌, ◌++◌, reverse, arith, ltb, ◌==◌, if◌then◌else◌, lt→ltb, Bool-cases,
  Option-cases, length, get_elem?, index_error, ok, ◌>>=◌, or_raise,
}
use mathlib.Core.List.{append-nil, append_assoc}
use gold_blockchain.Consensus.Constants.{ConsensusConstants}
use gold_blockchain.Consensus.BlockRecord.{BlockRecord, first_in_sub_slot}
use gold_blockchain.Consensus.Blocks.{Blocks}
use gold_blockchain.Consensus.Blocks.Chain.{IsMainChain}
use gold_blockchain.Consensus.BlockChallenge.{
  ChallengeChainSubSlot, ChallengedBlock, last_slot, with_challenges, collect_challenges,
  get_block_challenge,
}

-- The challenges of the sub-slots that a block ends.
abbrev pub own_challenges : BlockRecord → List ℕ
own_challenges b = elim b.finished_challenge_slot_hashes [ none ↦ [] | some hashes ↦ hashes ]

-- The challenges of a chain up to the block at a height, the newest first.
abbrev pub newest_challenges : (ℕ → BlockRecord) → ℕ → List ℕ
newest_challenges at zero = reverse (own_challenges (at zero))
newest_challenges at (suc k) = reverse (own_challenges (at (suc k))) ++ newest_challenges at k

with_challenges_lem :
    (seen : List ℕ) (b : BlockRecord)
    → with_challenges seen b ≡ ok (seen ++ reverse (own_challenges b))
unfolding with_challenges first_in_sub_slot
with_challenges_lem seen b = elim (Option-cases b.finished_challenge_slot_hashes) [
  | inl none_there ↦ rw none_there (ap ok (sym (append-nil seen)))
  | inr (hashes, some_there) ↦ rw some_there refl
]

get_elem?-append :
    (xs ys : List ℕ) (i : ℕ) → i < length xs → get_elem? (xs ++ ys) i ≡ get_elem? xs i
get_elem?-append [] ys i h = absurd (omega arith)
get_elem?-append (x ∷ xs) ys zero h = refl
get_elem?-append (x ∷ xs) ys (suc i) h = get_elem?-append xs ys i (omega arith)

-- The first block of the chain ends a sub-slot.
abbrev pub EndsSlots : BlockRecord → Type 0
EndsSlots b =
    (hashes : List ℕ) × (b.finished_challenge_slot_hashes ≡ some hashes) × (0 < length hashes)

module _ (blocks : Blocks) (at : ℕ → BlockRecord) (top : ℕ) (chain : IsMainChain blocks at top)
    (begins : EndsSlots (at 0)) where
  abbrev Collects : ℕ → ℕ → ℕ → List ℕ → Type 0
  Collects fuel k n seen =
      (hashes : List ℕ) × (collect_challenges fuel blocks (suc n) seen (at k) ≡ ok hashes)
      × (get_elem? hashes n ≡ get_elem? (seen ++ newest_challenges at k) n)

  collect_first :
      (fuel n : ℕ) (seen : List ℕ)
      → ltb (length seen) (suc n) ≡ true
      → collect_challenges (suc fuel) blocks (suc n) seen (at 0)
        ≡ ok (seen ++ newest_challenges at 0)
  unfolding collect_challenges
  collect_first fuel n seen more =
      let (own, listed, some_there) = begins in
      let nonempty : ltb 0 (length own) ≡ true = lt→ltb 0 (length own) some_there in
      rw (more, with_challenges_lem seen (at 0), chain.height_at 0, listed, nonempty) refl

  collect_below :
      (fuel k n : ℕ) (seen : List ℕ)
      → suc k ≤ top
      → ltb (length seen) (suc n) ≡ true
      → collect_challenges (suc fuel) blocks (suc n) seen (at (suc k))
        ≡ collect_challenges fuel blocks
            (suc n)
            (seen ++ reverse (own_challenges (at (suc k))))
            (at k)
  unfolding collect_challenges
  collect_below fuel k n seen below more =
      let not_first : ((at (suc k)).height == 0) ≡ false =
        ground (arith, chain.height_at (suc k)) in
      rw (more, with_challenges_lem seen (at (suc k)), not_first, chain.linked k below) refl

  collect_full :
      (fuel k n : ℕ) (seen : List ℕ)
      → ltb (length seen) (suc n) ≡ false
      → collect_challenges (suc fuel) blocks (suc n) seen (at k) ≡ ok seen
  unfolding collect_challenges
  collect_full fuel k n seen full = rw full refl

  -- The challenge in place `n` is that of the chain.
  collect_challenges_lem :
      (fuel k n : ℕ) (seen : List ℕ) → k < fuel → k ≤ top → Collects fuel k n seen
  collect_challenges_lem zero k n seen enough below = absurd (omega arith)
  collect_challenges_lem (suc fuel) k n seen enough below =
      elim (Bool-cases (ltb (length seen) (suc n))) [
        | inr full ↦ (
          seen,
          collect_full fuel k n seen full,
          sym (get_elem?-append seen (newest_challenges at k) n (ground (arith, full))),
        )
        | inl more ↦
            elim k as (λ (k : ℕ). k < suc fuel → k ≤ top → Collects (suc fuel) k n seen) [
              | zero ↦ λ enough below.
                  (seen ++ newest_challenges at 0, collect_first fuel n seen more, refl)
              | suc j ↦ λ enough below.
                  let own = reverse (own_challenges (at (suc j))) in
                  let (hashes, run, same) =
                    collect_challenges_lem fuel j n (seen ++ own) (omega arith) (omega arith) in
                  (
                    hashes,
                    (collect_below fuel j n seen below more ∙ run),
                    (same
                        ∙ ap (λ (xs : List ℕ). get_elem? xs n)
                            (append_assoc seen own (newest_challenges at j))),
                  )
            ]
              enough below
      ]

  challenge_of_slot :
      (get_hash : ChallengeChainSubSlot → ℕ) (c : ConsensusConstants) (b : ChallengedBlock)
      (slot : ChallengeChainSubSlot) (genesis overflow skip : Bool)
      → last_slot b.finished_sub_slots ≡ some slot
      → get_block_challenge get_hash c b blocks genesis overflow skip
        ≡ ok (
            if overflow && not skip
            then slot.challenge_chain_end_of_slot_vdf.challenge
            else get_hash slot)
  unfolding get_block_challenge
  challenge_of_slot get_hash c b slot genesis true true ended = rw (get_block_challenge, ended) refl
  challenge_of_slot get_hash c b slot genesis true false ended =
      rw (get_block_challenge, ended) refl
  challenge_of_slot get_hash c b slot genesis false skip ended =
      rw (get_block_challenge, ended) refl

  searched :
      (hash k n : ℕ)
      → k ≤ top
      → blocks.block_record hash ≡ ok (at k)
      → (do
        curr ← blocks.block_record hash
        hashes ← collect_challenges (suc curr.height) blocks (suc n) [] curr
        or_raise (get_elem? hashes n) index_error)
        ≡ or_raise (get_elem? (newest_challenges at k) n) index_error
  searched hash k n below found =
      let (hashes, run, same) =
        collect_challenges_lem (suc (at k).height) k n [] (ground (arith, chain.height_at k))
          below in
      rw (found, run, same) refl

  challenge_of_chain :
      (get_hash : ChallengeChainSubSlot → ℕ) (c : ConsensusConstants) (b : ChallengedBlock) (k : ℕ)
      (genesis overflow skip : Bool)
      → k ≤ top
      → blocks.block_record b.prev_header_hash ≡ ok (at k)
      → last_slot b.finished_sub_slots ≡ none
      → get_block_challenge get_hash c b blocks genesis overflow skip ≡ (
          if genesis
          then ok c.genesis_challenge
          else or_raise
              (get_elem? (newest_challenges at k) (if overflow && not skip then 1 else 0))
              index_error)
  unfolding get_block_challenge
  challenge_of_chain get_hash c b k true overflow skip below found none_ended =
      rw (get_block_challenge, none_ended) refl
  challenge_of_chain get_hash c b k false true true below found none_ended =
      rw (get_block_challenge, none_ended) (searched b.prev_header_hash k 0 below found)
  challenge_of_chain get_hash c b k false true false below found none_ended =
      rw (get_block_challenge, none_ended) (searched b.prev_header_hash k 1 below found)
  challenge_of_chain get_hash c b k false false skip below found none_ended =
      rw (get_block_challenge, none_ended) (searched b.prev_header_hash k 0 below found)

  -- On a chain whose first block ends a sub-slot: the challenge of a block that ends sub-slots
  -- itself is the hash of the last one, or the challenge that this one ran on, for an overflow block
  -- that leaves out no sub-slot. Of a block that ends none it is the genesis challenge, for the
  -- first block, and otherwise the newest challenge of the chain before it, the second newest for
  -- an overflow block that leaves out no sub-slot; where the chain has too few, IndexError.
  pub get_block_challenge_lem :
      (get_hash : ChallengeChainSubSlot → ℕ) (c : ConsensusConstants) (b : ChallengedBlock) (k : ℕ)
      (genesis overflow skip : Bool)
      → k ≤ top
      → blocks.block_record b.prev_header_hash ≡ ok (at k)
      → get_block_challenge get_hash c b blocks genesis overflow skip
        ≡ (elim (last_slot b.finished_sub_slots) [
          | some slot ↦ ok (
              if overflow && not skip
              then slot.challenge_chain_end_of_slot_vdf.challenge
              else get_hash slot)
          | none ↦
              if genesis
              then ok c.genesis_challenge
              else or_raise
                  (get_elem? (newest_challenges at k) (if overflow && not skip then 1 else 0))
                  index_error
        ])
  get_block_challenge_lem get_hash c b k genesis overflow skip below found =
      elim (Option-cases (last_slot b.finished_sub_slots)) [
        | inr (slot, ended) ↦
            rw ended (challenge_of_slot get_hash c b slot genesis overflow skip ended)
        | inl none_ended ↦
            rw none_ended
              (challenge_of_chain get_hash c b k genesis overflow skip below found none_ended)
      ]

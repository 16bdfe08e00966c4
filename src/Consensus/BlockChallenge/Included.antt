-- ===== src/Consensus/BlockChallenge/Included.antt =====
-- What the answer whether the final sub-slot is included says of a chain.
use gold_blockchain.Base.{
  ℕ, zero, suc, ◌+◌, ◌/◌, ◌≤◌, ◌<◌, ◌≡◌, refl, sym, ap, ◌∙◌, ◌≢◌, ◌↔◌, ◌⊎◌, inl, inr, Bool, true,
  false, ◌||◌, List, [], ◌∷◌, arith, ltb, ◌==◌, Bool-cases, length, ok,
}
use gold_blockchain.Consensus.BlockRecord.{BlockRecord, first_in_sub_slot}
use gold_blockchain.Consensus.Blocks.{Blocks}
use gold_blockchain.Consensus.Blocks.Chain.{IsMainChain}
use gold_blockchain.Consensus.BlockChallenge.{
  ChallengeChainSubSlot, ChallengedBlock, is_near_overflow, search_slot,
  final_eos_is_already_included,
}

lower_or_last : (i m : ℕ) → i ≤ suc m → (i ≤ m) ⊎ (i ≡ suc m)
lower_or_last i m below = elim (Bool-cases (ltb m i)) [
  | inl above ↦ inr (ground (arith, below, above))
  | inr lower ↦ inl (ground (arith, lower))
]

or_true : (b : Bool) → (b || true) ≡ true
or_true b = ground arith

nil_cases :
    (slots : List ChallengeChainSubSlot)
    → ((slots ≡ []) × (ltb 0 (length slots) ≡ false))
      ⊎ ((ltb 0 (length slots) ≡ true) × (slots ≢ []))
nil_cases [] = inl (refl, ground arith)
nil_cases (slot ∷ slots) = inr (ground arith, (λ e. cc))

module _ (blocks : Blocks) (at : ℕ → BlockRecord) (top : ℕ)
    (chain : IsMainChain blocks at top) where
  -- The sub-slot that the block at `k` stands in begins with the block at `j`.
  abbrev pub BeginsSlot : ℕ → ℕ → Type 0
  BeginsSlot k j =
      (j ≤ k)
      × (first_in_sub_slot (at j) ≡ true)
      × ((i : ℕ) → j < i → i ≤ k → first_in_sub_slot (at i) ≡ false)

  module _ (b : ChallengedBlock) (sub_slot_iters : ℕ) where
    -- One of the blocks after the first of the sub-slot is an overflow block close by.
    abbrev pub SeesOverflow : ℕ → Bool → Type 0
    SeesOverflow k seen =
        (j : ℕ) × BeginsSlot k j
        × ((seen ≡ true)
            ⊎ ((i : ℕ) × (j < i) × (i ≤ k) × (is_near_overflow b sub_slot_iters (at i) ≡ true)))

    search_back :
        (fuel m : ℕ) (seen : Bool)
        → suc m ≤ top
        → first_in_sub_slot (at (suc m)) ≡ false
        → search_slot (suc fuel) b blocks sub_slot_iters seen (at (suc m))
          ≡ search_slot fuel b blocks sub_slot_iters
              (is_near_overflow b sub_slot_iters (at (suc m)) || seen)
              (at m)
    unfolding search_slot
    search_back fuel m seen below inner =
        let not_first : ((at (suc m)).height == 0) ≡ false =
          ground (arith, chain.height_at (suc m)) in
        rw (inner, not_first, chain.linked m below) refl

    search_begin :
        (fuel k : ℕ) (seen : Bool)
        → first_in_sub_slot (at k) ≡ true
        → search_slot (suc fuel) b blocks sub_slot_iters seen (at k) ≡ ok seen
    unfolding search_slot
    search_begin fuel k seen first = rw first refl

    search_genesis :
        (fuel : ℕ) (seen : Bool)
        → first_in_sub_slot (at 0) ≡ false
        → search_slot (suc fuel) b blocks sub_slot_iters seen (at 0) ≡ ok false
    unfolding search_slot
    search_genesis fuel seen inner = rw (inner, chain.height_at 0) refl

    not_inner :
        (j m : ℕ)
        → first_in_sub_slot (at (suc m)) ≡ false
        → j ≡ suc m
        → first_in_sub_slot (at j) ≡ true
        → ⊥
    not_inner j m inner last first = let e : first_in_sub_slot (at j) ≡ false = rw last inner in cc

    near_last :
        (i m : ℕ) (seen : Bool)
        → i ≡ suc m
        → is_near_overflow b sub_slot_iters (at i) ≡ true
        → (is_near_overflow b sub_slot_iters (at (suc m)) || seen) ≡ true
    near_last i m seen last near =
        let e : is_near_overflow b sub_slot_iters (at (suc m)) ≡ true =
          sym (ap (λ (x : ℕ). is_near_overflow b sub_slot_iters (at x)) last) ∙ near in
        rw e refl

    -- A sub-slot that begins with the last block.
    sees_begin :
        (k : ℕ) (seen : Bool)
        → first_in_sub_slot (at k) ≡ true
        → (seen ≡ true) ↔ SeesOverflow k seen
    sees_begin k seen first = (
      (λ was_seen.
          (k, (omega arith, first, (λ i above below. absurd (omega arith))), inl was_seen)),
      (λ (j, (lower, first_j, between), why). elim why [
        | inl was_seen ↦ was_seen
        | inr (i, above, below, near) ↦ let e = between k (omega arith) (omega arith) in cc
      ]),
    )

    -- A sub-slot that does not begin with the last block.
    sees_below :
        (m : ℕ) (seen : Bool)
        → first_in_sub_slot (at (suc m)) ≡ false
        → SeesOverflow (suc m) seen
          ↔ SeesOverflow m (is_near_overflow b sub_slot_iters (at (suc m)) || seen)
    sees_below m seen inner = (
      (λ (j, (lower, first, between), why). elim (lower_or_last j m lower) [
        | inr last ↦ absurd (not_inner j m inner last first)
        | inl low ↦ (
          j,
          (low, first, (λ i above below. between i above (omega arith))),
          elim why [
            | inl was_seen ↦
                inl (rw was_seen (or_true (is_near_overflow b sub_slot_iters (at (suc m)))))
            | inr (i, above, below, near) ↦ elim (lower_or_last i m below) [
              | inl lower_i ↦ inr (i, above, lower_i, near)
              | inr last_i ↦ inl (near_last i m seen last_i near)
            ]
          ],
        )
      ]),
      (λ (j, (lower, first, between), why). (
        j,
        (
          omega arith,
          first,
          (λ i above below. elim (lower_or_last i m below) [
            | inl lower_i ↦ between i above lower_i
            | inr last_i ↦ rw last_i inner
          ]),
        ),
        elim why [
          | inr (i, above, below, near) ↦ inr (i, above, omega arith, near)
          | inl sum ↦ elim (Bool-cases (is_near_overflow b sub_slot_iters (at (suc m)))) [
            | inl near ↦ inr (suc m, omega arith, omega arith, near)
            | inr far ↦ inl (sym (ap (λ (x : Bool). x || seen) far) ∙ sum)
          ]
        ],
      )),
    )

    abbrev Answers : ℕ → ℕ → Bool → Type 0
    Answers fuel k seen =
        (result : Bool) × (search_slot fuel b blocks sub_slot_iters seen (at k) ≡ ok result)
        × ((result ≡ true) ↔ SeesOverflow k seen)

    not_first :
        (j : ℕ) → j ≤ 0 → first_in_sub_slot (at 0) ≡ false → first_in_sub_slot (at j) ≡ true → ⊥
    not_first j lower inner first =
        let zero_j : j ≡ 0 = omega arith in
        let e : first_in_sub_slot (at j) ≡ false = rw zero_j inner in cc

    search_slot_lem : (fuel k : ℕ) (seen : Bool) → k < fuel → k ≤ top → Answers fuel k seen
    search_slot_lem zero k seen enough below = absurd (omega arith)
    search_slot_lem (suc fuel) k seen enough below = elim (Bool-cases (first_in_sub_slot (at k))) [
      | inl first ↦ (seen, search_begin fuel k seen first, sees_begin k seen first)
      | inr inner ↦
          elim k
              as (λ (k : ℕ).
                k < suc fuel
                → k ≤ top
                → first_in_sub_slot (at k) ≡ false
                → Answers (suc fuel) k seen) [
                  | zero ↦ λ enough below inner. (
                    false,
                    search_genesis fuel seen inner,
                    (
                      (λ x. cc),
                      (λ (j, (lower, first, between), why). absurd (not_first j lower inner first)),
                    ),
                  )
                  | suc m ↦ λ enough below inner.
                      let (result, run, means) =
                        search_slot_lem fuel m
                          (is_near_overflow b sub_slot_iters (at (suc m)) || seen) (omega arith)
                          (omega arith) in
                      let (to, from) = sees_below m seen inner in
                      (
                        result,
                        (search_back fuel m seen below inner ∙ run),
                        ((λ h. from (means.0 h)), (λ h. means.1 (to h))),
                      )
                ]
            enough below inner
    ]

    final_eos_searched :
        (k : ℕ) (result : Bool)
        → ltb 0 (length b.finished_sub_slots) ≡ false
        → blocks.block_record b.prev_header_hash ≡ ok (at k)
        → search_slot
            (suc (at k).height)
            b
            blocks
            sub_slot_iters
            (is_near_overflow b sub_slot_iters (at k))
            (at k)
          ≡ ok result
        → final_eos_is_already_included b blocks sub_slot_iters ≡ ok result
    unfolding final_eos_is_already_included
    final_eos_searched k result short found run = rw (short, found) run

    -- An overflow block less than half a sub-slot before the block.
    abbrev pub IsNear : BlockRecord → Type 0
    IsNear r = (r.overflow ≡ true) × (b.total_iters < r.total_iters + sub_slot_iters / 2)

    IsNear-iff : (r : BlockRecord) → (is_near_overflow b sub_slot_iters r ≡ true) ↔ IsNear r
    unfolding is_near_overflow
    IsNear-iff r = ground arith

    -- The predecessor at `k`, or a block of its sub-slot after the first, is such a block.
    abbrev pub FollowsOverflow : ℕ → Type 0
    FollowsOverflow k =
        (j : ℕ) × BeginsSlot k j × (IsNear (at k) ⊎ ((i : ℕ) × (j < i) × (i ≤ k) × IsNear (at i)))

    follows_iff :
        (k : ℕ) → SeesOverflow k (is_near_overflow b sub_slot_iters (at k)) ↔ FollowsOverflow k
    follows_iff k = (
      (λ (j, begins, why). (
        j,
        begins,
        elim why [
          | inl near ↦ inl ((IsNear-iff (at k)).0 near)
          | inr (i, above, below, near) ↦ inr (i, above, below, (IsNear-iff (at i)).0 near)
        ],
      )),
      (λ (j, begins, why). (
        j,
        begins,
        elim why [
          | inl near ↦ inl ((IsNear-iff (at k)).1 near)
          | inr (i, above, below, near) ↦ inr (i, above, below, (IsNear-iff (at i)).1 near)
        ],
      )),
    )

    -- For a block whose predecessor is the block of the chain at `k`, the call gives an answer. It is
    -- true exactly where the block ends no sub-slot itself, the chain has the first block of the
    -- sub-slot that its predecessor stands in, and the predecessor, or a block of this sub-slot after
    -- its first, is an overflow block less than half a sub-slot before.
    pub final_eos_is_already_included_lem :
        (k : ℕ)
        → k ≤ top
        → blocks.block_record b.prev_header_hash ≡ ok (at k)
        → (result : Bool) × (final_eos_is_already_included b blocks sub_slot_iters ≡ ok result)
          × ((result ≡ true) ↔ ((b.finished_sub_slots ≡ []) × FollowsOverflow k))
    unfolding final_eos_is_already_included
    final_eos_is_already_included_lem k below found =
        let (result, run, means) =
          search_slot_lem (suc (at k).height) k (is_near_overflow b sub_slot_iters (at k))
            (ground (arith, chain.height_at k)) below in
        elim (nil_cases b.finished_sub_slots) [
          | inl (none_ended, short) ↦ (
            result,
            final_eos_searched k result short found run,
            (
              (λ h. (none_ended, (follows_iff k).0 (means.0 h))),
              (λ h. means.1 ((follows_iff k).1 (h.1))),
            ),
          )
          | inr (nonempty, differ) ↦ (
            false,
            rw (final_eos_is_already_included, nonempty) refl,
            ((λ h. cc), (λ h. absurd (differ (h.0)))),
          )
        ]

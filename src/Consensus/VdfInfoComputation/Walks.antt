-- ===== src/Consensus/VdfInfoComputation/Walks.antt =====
-- Where the walks of the computation end, in a store of linked blocks.
use mathlib.Core.List.{reverse-reverse, reverse-cons}
use gold_blockchain.Base.{
  ℕ, zero, suc, ◌+◌, ◌≤◌, ◌<◌, ◌≡◌, refl, sym, ap, ◌∙◌, ◌≢◌, ◌⊎◌, inl, inr, Bool, true, false, not,
  ◌&&◌, Option, none, some, List, [], ◌∷◌, ◌++◌, reverse, arith, ltb, if◌then◌else◌, ltb→lt,
  Bool-cases, length, get_elem?, all, Exc, assertion_error, index_error, no_fuel, Result, ok,
  or_raise, Gives, Gives-bind, Gives-map,
}
use gold_blockchain.Base.Ints.{uint64_sub}
use gold_blockchain.Consensus.BlockRecord.{BlockRecord, first_in_sub_slot}
use gold_blockchain.Consensus.Blocks.{Blocks}
use gold_blockchain.Consensus.Blocks.Chain.{IsStored, IsLinked, Gives-step_found}
use gold_blockchain.Consensus.VdfInfoComputation.{
  last_hash, zip_slots, walk_to_point, walk_to_slot, slots_of, before_point, find_sub_slots,
}

pub Gives-raise :
    {A : Type 0} (o : Option A) (e : Exc) → e ≢ no_fuel → Gives (or_raise o e) (λ a. o ≡ some a)
Gives-raise none e differ = differ
Gives-raise (some a) e differ = refl

pub Gives-sub : (a b : ℕ) → Gives (uint64_sub a b) (λ d. b + d ≡ a)
Gives-sub a b = ground arith

pub Gives-if :
    {A : Type 0} (test : Bool) (a b : Result A) (P : A → Type 0)
    → (test ≡ true → Gives a P)
    → (test ≡ false → Gives b P)
    → Gives (if test then a else b) P
Gives-if true a b P h k = h refl
Gives-if false a b P h k = k refl

-- The last one of some hashes.
abbrev pub IsLast : List ℕ → ℕ → Type 0
IsLast hashes hash = (front : List ℕ) × (hashes ≡ front ++ hash ∷ [])

first_of_reverse :
    (turned hashes : List ℕ) (hash : ℕ)
    → reverse hashes ≡ turned
    → get_elem? turned 0 ≡ some hash
    → IsLast hashes hash
first_of_reverse [] hashes hash is e = cc
first_of_reverse (h ∷ turned) hashes hash is e =
    let same : h ≡ hash = ground (arith, e) in
    (
      reverse turned,
      sym (reverse-reverse hashes)
          ∙ ap reverse is
          ∙ reverse-cons h turned
          ∙ ap (λ (x : ℕ). reverse turned ++ x ∷ []) same,
    )

pub last_hash-Gives : (hashes : List ℕ) → Gives (last_hash hashes) (IsLast hashes)
last_hash-Gives hashes =
    Gives-map (last_hash hashes) (λ h. get_elem? (reverse hashes) 0 ≡ some h) (IsLast hashes)
      (Gives-raise (get_elem? (reverse hashes) 0) index_error (λ e. cc))
      (λ h e. first_of_reverse (reverse hashes) hashes h refl e)

-- The sub-slots that a block ends, each by the hashes of its two chains, the last one first.
abbrev pub AreSlots : BlockRecord → List (ℕ × ℕ) → Type 0
AreSlots b slots =
    (first_in_sub_slot b ≡ false) × (slots ≡ [])
    ⊎ (first_in_sub_slot b ≡ true)
      × ((challenges : List ℕ) × (rewards : List ℕ) × (b.finished_challenge_slot_hashes
            ≡ some challenges)
          × (b.finished_reward_slot_hashes ≡ some rewards)
          × (slots ≡ reverse (zip_slots challenges rewards)))

pub slots_of-Gives : (b : BlockRecord) → Gives (slots_of b) (AreSlots b)
unfolding slots_of
slots_of-Gives b =
    Gives-if (first_in_sub_slot b) _ _ _
      (λ ends.
        Gives-bind (or_raise b.finished_challenge_slot_hashes assertion_error) _
          (λ l. b.finished_challenge_slot_hashes ≡ some l) _
          (Gives-raise b.finished_challenge_slot_hashes assertion_error (λ e. cc))
          (λ challenges is.
            Gives-bind (or_raise b.finished_reward_slot_hashes assertion_error) _
              (λ l. b.finished_reward_slot_hashes ≡ some l) _
              (Gives-raise b.finished_reward_slot_hashes assertion_error (λ e. cc))
              (λ rewards is'. inr (ends, (challenges, rewards, is, is', refl)))))
      (λ inner. inl (inner, refl))

-- From a block back along the hashes, each block that is left having a property.
pub data WalksTo (blocks : Blocks) (Left : BlockRecord → Type 0)
    : BlockRecord → BlockRecord → Type 0 where
  stays : (b : BlockRecord) → WalksTo blocks Left b b
  steps :
      (b p c : BlockRecord)
      → Left b
      → blocks.block_record b.prev_hash ≡ ok p
      → WalksTo blocks Left p c
      → WalksTo blocks Left b c

module _ (blocks : Blocks) (sp_total_iters : ℕ) where
  -- The first block of the sub-slot that a block stands in.
  abbrev pub IsSlotStart : BlockRecord → BlockRecord → Type 0
  IsSlotStart b s =
      WalksTo blocks (λ x. first_in_sub_slot x ≡ false) b s × (first_in_sub_slot s ≡ true)

  -- The last block of this sub-slot that is not past the point, or the first one of all.
  abbrev pub IsPointBlock : BlockRecord → BlockRecord → Type 0
  IsPointBlock b c =
      WalksTo blocks (λ x. (first_in_sub_slot x ≡ false) × (sp_total_iters < x.total_iters)) b c
      × ((first_in_sub_slot c ≡ true) ⊎ (c.total_iters ≤ sp_total_iters))

  -- The walk over the sub-slots that were ended before, to where two are found or the chain begins.
  pub data Finds : List (ℕ × ℕ) → BlockRecord → BlockRecord → List (ℕ × ℕ) → Type 0 where
    ends :
        (found : List (ℕ × ℕ)) (b : BlockRecord)
        → (2 ≤ length found) ⊎ (b.height ≡ 0)
        → Finds found b b found
    goes_on :
        (found slots all : List (ℕ × ℕ)) (b p e : BlockRecord)
        → (length found < 2) × (0 < b.height)
        → blocks.block_record b.prev_hash ≡ ok p
        → AreSlots p slots
        → Finds (found ++ slots) p e all
        → Finds found b e all

  -- The newest block before the point, of those from `b` back to `e`, where there is one.
  abbrev pub IsNewestBefore : BlockRecord → BlockRecord → Option BlockRecord → Type 0
  IsNewestBefore b e none =
      WalksTo blocks (λ x. sp_total_iters ≤ x.total_iters) b e × (sp_total_iters ≤ e.total_iters)
  IsNewestBefore b e (some c) =
      IsStored blocks c
      × (c.total_iters < sp_total_iters)
      × WalksTo blocks (λ x. sp_total_iters ≤ x.total_iters) b c
      × WalksTo blocks (λ x. Unit) c e

  module _ (linked : IsLinked blocks) where
    before :
        (b : BlockRecord)
        → ltb b.total_iters sp_total_iters ≡ false
        → sp_total_iters ≤ b.total_iters
    before b e = ground (arith, e)

    point_passed :
        (b : BlockRecord)
        → (not (first_in_sub_slot b) && ltb sp_total_iters b.total_iters) ≡ true
        → (first_in_sub_slot b ≡ false) × (sp_total_iters < b.total_iters)
    point_passed b e = ground (arith, e)

    point_reached :
        (b : BlockRecord)
        → (not (first_in_sub_slot b) && ltb sp_total_iters b.total_iters) ≡ false
        → (first_in_sub_slot b ≡ true) ⊎ (b.total_iters ≤ sp_total_iters)
    point_reached b e = elim (Bool-cases (first_in_sub_slot b)) [
      | inl first ↦ inl first
      | inr inner ↦ inr (ground (arith, e, inner))
    ]

    pub walk_to_point-Gives :
        (fuel : ℕ) (b : BlockRecord)
        → IsStored blocks b
        → b.height < fuel
        → Gives
            (walk_to_point fuel blocks sp_total_iters b)
            (λ c. IsStored blocks c × IsPointBlock b c)
    unfolding walk_to_point
    walk_to_point-Gives zero b stored enough = absurd (omega arith)
    walk_to_point-Gives (suc fuel) b stored enough =
        Gives-if (not (first_in_sub_slot b) && ltb sp_total_iters b.total_iters) _ _ _
          (λ back.
            Gives-step_found blocks b _ (λ c. IsStored blocks c × IsPointBlock b c) linked stored
              (λ p found lower.
                Gives-map (walk_to_point fuel blocks sp_total_iters p) _ _
                  (walk_to_point-Gives fuel p (b.prev_hash, found) (omega arith))
                  (λ c (stored_c, (walk, why)).
                    (stored_c, (steps b p c (point_passed b back) found walk, why)))))
          (λ here. (stored, (stays b, point_reached b here)))

    pub walk_to_slot-Gives :
        (fuel : ℕ) (b : BlockRecord)
        → IsStored blocks b
        → b.height < fuel
        → Gives (walk_to_slot fuel blocks b) (IsSlotStart b)
    unfolding walk_to_slot
    walk_to_slot-Gives zero b stored enough = absurd (omega arith)
    walk_to_slot-Gives (suc fuel) b stored enough =
        Gives-if (first_in_sub_slot b) _ _ _ (λ here. (stays b, here))
          (λ back. Gives-step_found blocks b _ (IsSlotStart b) linked stored (λ p found lower.
            Gives-map (walk_to_slot fuel blocks p) _ _
              (walk_to_slot-Gives fuel p (b.prev_hash, found) (omega arith))
              (λ s (walk, first). (steps b p s back found walk, first))))

    -- What is found once the newest block before the point is known.
    abbrev pub Keeps :
        BlockRecord → List (ℕ × ℕ) → Option BlockRecord → List (ℕ × ℕ) × Option BlockRecord → Type 0
    Keeps b found pre (all, pre') = (e : BlockRecord) × Finds found b e all × (elim pre [
      | none ↦ IsNewestBefore b e pre'
      | some c ↦ (pre' ≡ some c) × WalksTo blocks (λ x. Unit) b e
    ])

    more_slots :
        (found : List (ℕ × ℕ)) (b : BlockRecord)
        → (ltb (length found) 2 && ltb 0 b.height) ≡ true
        → (length found < 2) × (0 < b.height)
    more_slots found b e = ground (arith, e)

    no_more_slots :
        (found : List (ℕ × ℕ)) (b : BlockRecord)
        → (ltb (length found) 2 && ltb 0 b.height) ≡ false
        → (2 ≤ length found) ⊎ (b.height ≡ 0)
    no_more_slots found b e = elim (Bool-cases (ltb (length found) 2)) [
      | inl few ↦ inr (ground (arith, e, few))
      | inr enough ↦ inl (ground (arith, enough))
    ]

    kept_end :
        (found : List (ℕ × ℕ)) (pre : Option BlockRecord) (b : BlockRecord)
        → IsStored blocks b
        → (2 ≤ length found) ⊎ (b.height ≡ 0)
        → Keeps b found pre (found, before_point sp_total_iters pre b)
    unfolding before_point
    kept_end found (some c) b stored why = (b, ends found b why, (refl, stays b))
    kept_end found none b stored why = (
      b,
      ends found b why,
      elim (Bool-cases (ltb b.total_iters sp_total_iters)) [
        | inl lower ↦ rw lower (stored, ltb→lt _ _ lower, stays b, stays b)
        | inr higher ↦ rw higher (stays b, before b higher)
      ],
    )

    newest_back :
        (b p e : BlockRecord) (pre : Option BlockRecord)
        → sp_total_iters ≤ b.total_iters
        → blocks.block_record b.prev_hash ≡ ok p
        → IsNewestBefore p e pre
        → IsNewestBefore b e pre
    newest_back b p e none past found (walk, last) = (steps b p e past found walk, last)
    newest_back b p e (some c) past found (stored, lower, walk, rest) =
        (stored, lower, steps b p c past found walk, rest)

    kept_back :
        (found slots all : List (ℕ × ℕ)) (pre pre' : Option BlockRecord) (b p : BlockRecord)
        → IsStored blocks b
        → (length found < 2) × (0 < b.height)
        → blocks.block_record b.prev_hash ≡ ok p
        → AreSlots p slots
        → Keeps p (found ++ slots) (before_point sp_total_iters pre b) (all, pre')
        → Keeps b found pre (all, pre')
    unfolding before_point
    kept_back found slots all (some c) pre' b p stored few at are (e, walk, (same, path)) =
        (e, goes_on found slots all b p e few at are walk, (same, steps b p e tt at path))
    kept_back found slots all none pre' b p stored few at are kept =
        elim (Bool-cases (ltb b.total_iters sp_total_iters)) [
          | inl lower ↦
              let (e, walk, (same, path)) = rw lower at kept in
              (
                e,
                goes_on found slots all b p e few at are walk,
                rw same (stored, ltb→lt _ _ lower, stays b, steps b p e tt at path),
              )
          | inr higher ↦
              let (e, walk, newest) = rw higher at kept in
              (
                e,
                goes_on found slots all b p e few at are walk,
                newest_back b p e pre' (before b higher) at newest,
              )
        ]

    pub find_sub_slots-Gives :
        (fuel : ℕ) (found : List (ℕ × ℕ)) (pre : Option BlockRecord) (b : BlockRecord)
        → IsStored blocks b
        → b.height < fuel
        → Gives (find_sub_slots fuel blocks sp_total_iters found pre b) (Keeps b found pre)
    unfolding find_sub_slots
    find_sub_slots-Gives zero found pre b stored enough = absurd (omega arith)
    find_sub_slots-Gives (suc fuel) found pre b stored enough =
        Gives-if (ltb (length found) 2 && ltb 0 b.height) _ _ _
          (λ back. Gives-step_found blocks b _ (Keeps b found pre) linked stored (λ p at lower.
            Gives-bind (slots_of p) _ (AreSlots p) _ (slots_of-Gives p) (λ slots are.
              Gives-map
                (find_sub_slots fuel blocks sp_total_iters (found ++ slots)
                  (before_point sp_total_iters pre b) p)
                _ _
                (find_sub_slots-Gives fuel (found ++ slots) (before_point sp_total_iters pre b) p
                  (b.prev_hash, at) (omega arith))
                (λ (all, pre') kept.
                  kept_back found slots all pre pre' b p stored (more_slots found b back) at are
                    kept))))
          (λ here. kept_end found pre b stored (no_more_slots found b here))

-- ===== src/Consensus/VdfInfoComputation/Runs.antt =====
-- Where the VDF of a signage point starts, and which challenges it answers.
use mathlib.Core.List.{reverse-reverse, reverse-cons, append_assoc}
use gold_blockchain.Base.{
  ℕ, suc, ◌+◌, ◌≤◌, ◌<◌, ◌≡◌, refl, sym, ap, ◌∙◌, ◌⊎◌, inl, inr, Bool, true, false, Option, none,
  some, List, [], ◌∷◌, ◌++◌, reverse, arith, ltb, ltb→lt, get_elem?, all, assertion_error,
  index_error, ok, ◌>>=◌, or_raise, Gives, Gives-bind, Gives-map,
}
use gold_blockchain.Base.Ints.{uint64_sub}
use gold_blockchain.Consensus.Constants.{ConsensusConstants}
use gold_blockchain.Consensus.BlockRecord.{BlockRecord}
use gold_blockchain.Consensus.Blocks.{Blocks}
use gold_blockchain.Consensus.Blocks.Chain.{IsStored, IsLinked}
use gold_blockchain.Consensus.BlockChallenge.{ChallengeChainSubSlot}
use gold_blockchain.Consensus.VdfInfoComputation.{
  RewardChainSubSlot, EndOfSubSlot, SpVdfInfo, default_element, sp_info, last_hash, walk_to_point,
  walk_to_slot, from_sub_slot, slots_of, find_sub_slots, from_slot_before, from_end, from_chain,
  vdf_info_of, get_signage_point_vdf_info,
}
use gold_blockchain.Consensus.VdfInfoComputation.Walks.{
  Gives-raise, Gives-sub, Gives-if, IsLast, last_hash-Gives, AreSlots, slots_of-Gives, IsSlotStart,
  IsPointBlock, Finds, IsNewestBefore, Keeps, walk_to_point-Gives, walk_to_slot-Gives,
  find_sub_slots-Gives,
}

module _ (blocks : Blocks) (sp_total_iters sp_iters : ℕ) where
  -- A run from the output of a block before the point, for the iterations between them, with the
  -- reward chain's challenge that is infused there.
  abbrev pub RunsFrom : BlockRecord → ℕ → ℕ → ℕ → Type 0
  RunsFrom b iters input rc =
      IsStored blocks b
      × (b.total_iters + iters ≡ sp_total_iters)
      × (0 < iters)
      × (input ≡ b.challenge_vdf_output)
      × (rc ≡ b.reward_infusion_new_challenge)

  -- A run from the default element, for the iterations of the point in its sub-slot.
  abbrev pub RunsFresh : ℕ → ℕ → Type 0
  RunsFresh iters input = (input ≡ default_element) × (iters ≡ sp_iters)

  abbrev pub LastOf : Option (List ℕ) → ℕ → Type 0
  LastOf hashes hash = (l : List ℕ) × (hashes ≡ some l) × IsLast l hash

  -- The point stands in the sub-slot of the block `b`: the run starts from the last block that is
  -- not past the point, or where this one is the first of its sub-slot and not before the point, from
  -- the reward slot that it ends; the challenge is that of the sub-slot.
  abbrev pub RunsInSlot : BlockRecord → SpVdfInfo → Type 0
  RunsInSlot b info =
      (c : BlockRecord) × (s : BlockRecord) × IsPointBlock blocks sp_total_iters b c
      × (RunsFrom c info.cc_vdf_iters info.cc_vdf_input info.rc_vdf_challenge
          ⊎ (sp_total_iters ≤ c.total_iters)
            × RunsFresh info.cc_vdf_iters info.cc_vdf_input
            × LastOf c.finished_reward_slot_hashes info.rc_vdf_challenge)
      × IsSlotStart blocks sp_total_iters c s
      × LastOf s.finished_challenge_slot_hashes info.cc_vdf_challenge

  -- The point stands in the sub-slot before that of the block `b`: of the sub-slots that are ended
  -- back from `b`, until two are found, the second newest one has the challenge; the run starts from
  -- the newest of these blocks before the point, or with the sub-slot where there is none.
  abbrev pub RunsBeforeSlot : BlockRecord → SpVdfInfo → Type 0
  RunsBeforeSlot b info =
      (slots : List (ℕ × ℕ)) × (all : List (ℕ × ℕ)) × (e : BlockRecord) × (reward : ℕ) × AreSlots b
        slots
      × Finds blocks sp_total_iters slots b e all
      × (get_elem? all 1 ≡ some (info.cc_vdf_challenge, reward))
      × (((c : BlockRecord) × IsNewestBefore blocks sp_total_iters b e (some c)
            × RunsFrom c info.cc_vdf_iters info.cc_vdf_input info.rc_vdf_challenge)
          ⊎ IsNewestBefore blocks sp_total_iters b e none
            × RunsFresh info.cc_vdf_iters info.cc_vdf_input
            × (info.rc_vdf_challenge ≡ reward))

  module _ (cc_hash : ChallengeChainSubSlot → ℕ) (rc_hash : RewardChainSubSlot → ℕ)
      (c : ConsensusConstants) where
    -- The finished sub-slot in which the point stands: the last one, for an overflow block the one
    -- before it.
    abbrev pub StandsIn : List EndOfSubSlot → Bool → EndOfSubSlot → Type 0
    StandsIn slots overflow slot =
        (overflow ≡ false) × ((front : List EndOfSubSlot) × (slots ≡ front ++ slot ∷ []))
        ⊎ (overflow ≡ true)
          × ((front : List EndOfSubSlot) × (last : EndOfSubSlot) × (slots
                ≡ front ++ slot ∷ last ∷ []))

    -- No finished sub-slot is the point's: there is none, or only the one after it.
    abbrev pub InSlotOfBlock : List EndOfSubSlot → Bool → Type 0
    InSlotOfBlock slots overflow =
        (overflow ≡ false) × (slots ≡ [])
        ⊎ (overflow ≡ true) × ((last : EndOfSubSlot) × (slots ≡ last ∷ []))

    abbrev pub BeforeSlotOfBlock : List EndOfSubSlot → Bool → Type 0
    BeforeSlotOfBlock slots overflow = (overflow ≡ true) × (slots ≡ [])

    abbrev pub IsRun : List EndOfSubSlot → Bool → Option BlockRecord → SpVdfInfo → Type 0
    IsRun slots overflow prev_b info =
        (info.rc_vdf_iters ≡ info.cc_vdf_iters)
        × (info.rc_vdf_input ≡ default_element)
        × (((slot : EndOfSubSlot) × StandsIn slots overflow slot
              × RunsFresh info.cc_vdf_iters info.cc_vdf_input
              × (info.cc_vdf_challenge ≡ cc_hash slot.challenge_chain)
              × (info.rc_vdf_challenge ≡ rc_hash slot.reward_chain))
            ⊎ (InSlotOfBlock slots overflow ⊎ BeforeSlotOfBlock slots overflow)
              × (prev_b ≡ none)
              × RunsFresh info.cc_vdf_iters info.cc_vdf_input
              × (info.cc_vdf_challenge ≡ c.genesis_challenge)
              × (info.rc_vdf_challenge ≡ c.genesis_challenge)
            ⊎ InSlotOfBlock slots overflow
              × ((b : BlockRecord) × (prev_b ≡ some b) × RunsInSlot b info)
            ⊎ BeforeSlotOfBlock slots overflow
              × ((b : BlockRecord) × (prev_b ≡ some b) × RunsBeforeSlot b info))

  Gives-before :
      (b : BlockRecord) (P : ℕ × ℕ × ℕ → Type 0)
      → IsStored blocks b
      → b.total_iters < sp_total_iters
      → ((point : ℕ × ℕ × ℕ) → RunsFrom b (point.0) (point.1) (point.2) → P point)
      → Gives {A = ℕ × ℕ × ℕ}
          (do
            iters ← uint64_sub sp_total_iters b.total_iters
            ok (iters, b.challenge_vdf_output, b.reward_infusion_new_challenge))
          P
  Gives-before b P stored before then_is =
      Gives-bind (uint64_sub sp_total_iters b.total_iters) _
        (λ d. b.total_iters + d ≡ sp_total_iters) P (Gives-sub sp_total_iters b.total_iters)
        (λ d sum. then_is _ (stored, sum, omega arith, refl, refl))

  module _ (linked : IsLinked blocks) where
    abbrev StartsAt : BlockRecord → ℕ × ℕ × ℕ → Type 0
    StartsAt c (iters, input, rc) =
        RunsFrom c iters input rc
        ⊎ (sp_total_iters ≤ c.total_iters)
          × RunsFresh iters input
          × LastOf c.finished_reward_slot_hashes rc

    from_sub_slot-Gives :
        (b : BlockRecord)
        → IsStored blocks b
        → Gives (from_sub_slot blocks sp_total_iters sp_iters b) (λ info.
          (info.rc_vdf_iters ≡ info.cc_vdf_iters)
          × (info.rc_vdf_input ≡ default_element)
          × RunsInSlot b info)
    unfolding from_sub_slot sp_info
    from_sub_slot-Gives b stored =
        Gives-bind (walk_to_point (suc b.height) blocks sp_total_iters b) _
          (λ c. IsStored blocks c × IsPointBlock blocks sp_total_iters b c) _
          (walk_to_point-Gives blocks sp_total_iters linked (suc b.height) b stored (omega arith))
          (λ curr (stored_c, at_point).
            Gives-bind _ _ (StartsAt curr) _
              (Gives-if (ltb curr.total_iters sp_total_iters) _ _ _
                (λ lower.
                  Gives-before curr (StartsAt curr) stored_c
                    (ltb→lt curr.total_iters sp_total_iters lower) (λ point from. inl from))
                (λ not_lower.
                  Gives-bind (or_raise curr.finished_reward_slot_hashes assertion_error) _
                    (λ l. curr.finished_reward_slot_hashes ≡ some l) _
                    (Gives-raise curr.finished_reward_slot_hashes assertion_error (λ e. cc))
                    (λ l is.
                      Gives-bind (last_hash l) _ (IsLast l) _ (last_hash-Gives l)
                        (λ rc last. inr (ground (arith, not_lower), (refl, refl), (l, is, last))))))
              (λ point start.
                Gives-bind (walk_to_slot (suc curr.height) blocks curr) _
                  (IsSlotStart blocks sp_total_iters curr) _
                  (walk_to_slot-Gives blocks sp_total_iters linked (suc curr.height) curr stored_c
                    (omega arith))
                  (λ first starts.
                    Gives-bind (or_raise first.finished_challenge_slot_hashes assertion_error) _
                      (λ l. first.finished_challenge_slot_hashes ≡ some l) _
                      (Gives-raise first.finished_challenge_slot_hashes assertion_error (λ e. cc))
                      (λ l is.
                        Gives-bind (last_hash l) _ (IsLast l) _ (last_hash-Gives l)
                          (λ cc_challenge last.
                            (refl, refl, (curr, first, at_point, start, starts, (l, is, last))))))))

    abbrev StartsBefore : BlockRecord → BlockRecord → List (ℕ × ℕ) → ℕ × ℕ × ℕ → Type 0
    StartsBefore b e all (iters, input, rc) =
        ((c : BlockRecord) × IsNewestBefore blocks sp_total_iters b e (some c)
          × RunsFrom c iters input rc)
        ⊎ IsNewestBefore blocks sp_total_iters b e none
          × RunsFresh iters input
          × ((challenge : ℕ) × (get_elem? all 1 ≡ some (challenge, rc)))

    StartsBefore-of :
        (b e : BlockRecord) (pre : Option BlockRecord) (all : List (ℕ × ℕ))
        → IsNewestBefore blocks sp_total_iters b e pre
        → Gives {A = ℕ × ℕ × ℕ}
            (elim pre [
              | some b ↦ (do
                iters ← uint64_sub sp_total_iters b.total_iters
                ok (iters, b.challenge_vdf_output, b.reward_infusion_new_challenge))
              | none ↦ (do
                (challenge, reward) ← or_raise (get_elem? all 1) index_error
                ok (sp_iters, default_element, reward))
            ])
            (StartsBefore b e all)
    StartsBefore-of b e (some c) all (stored, lower, walk, rest) =
        Gives-before c (StartsBefore b e all) stored lower
          (λ point from. inl (c, (stored, lower, walk, rest), from))
    StartsBefore-of b e none all newest =
        Gives-bind (or_raise (get_elem? all 1) index_error) _ (λ slot. get_elem? all 1 ≡ some slot)
          _ (Gives-raise (get_elem? all 1) index_error (λ e. cc))
          (λ slot is. inr (newest, (refl, refl), (slot.0, is)))

    second_reward :
        (all : List (ℕ × ℕ)) (slot : ℕ × ℕ) (challenge reward : ℕ)
        → get_elem? all 1 ≡ some slot
        → get_elem? all 1 ≡ some (challenge, reward)
        → reward ≡ slot.1
    second_reward all slot challenge reward is is' =
        ap (λ (o : Option (ℕ × ℕ)). elim o [ none ↦ 0 | some s ↦ s.1 ]) (sym is' ∙ is)

    runs_before :
        (b e : BlockRecord) (slots all : List (ℕ × ℕ)) (point : ℕ × ℕ × ℕ) (second : ℕ × ℕ)
        → AreSlots b slots
        → Finds blocks sp_total_iters slots b e all
        → StartsBefore b e all point
        → get_elem? all 1 ≡ some second
        → RunsBeforeSlot b (sp_info second.0 point.2 point.1 point.0)
    unfolding sp_info
    runs_before b e slots all point second are finds (inl from) is =
        (slots, all, e, second.1, are, finds, is, inl from)
    runs_before b e slots all point second are finds (inr (newest, fresh, (challenge, at))) is = (
      slots,
      all,
      e,
      second.1,
      are,
      finds,
      is,
      inr (newest, fresh, second_reward all second challenge (point.2) is at),
    )

    from_slot_before-Gives :
        (b : BlockRecord)
        → IsStored blocks b
        → Gives (from_slot_before blocks sp_total_iters sp_iters b) (λ info.
          (info.rc_vdf_iters ≡ info.cc_vdf_iters)
          × (info.rc_vdf_input ≡ default_element)
          × RunsBeforeSlot b info)
    unfolding from_slot_before sp_info
    from_slot_before-Gives b stored =
        Gives-bind (slots_of b) _ (AreSlots b) _ (slots_of-Gives b) (λ slots are.
          Gives-bind (find_sub_slots (suc b.height) blocks sp_total_iters slots none b) _
            (Keeps blocks sp_total_iters linked b slots none) _
            (find_sub_slots-Gives blocks sp_total_iters linked (suc b.height) slots none b stored
              (omega arith))
            (λ (all, pre) (e, finds, newest).
              Gives-bind _ _ (StartsBefore b e all) _ (StartsBefore-of b e pre all newest)
                (λ point start.
                  Gives-bind (or_raise (get_elem? all 1) index_error) _
                    (λ second. get_elem? all 1 ≡ some second) _
                    (Gives-raise (get_elem? all 1) index_error (λ e. cc))
                    (λ second is.
                      (refl, refl, runs_before b e slots all point second are finds start is)))))

    vdf_info_of-IsRun :
        (cc_hash : ChallengeChainSubSlot → ℕ) (rc_hash : RewardChainSubSlot → ℕ)
        (c : ConsensusConstants) (slots : List EndOfSubSlot) (overflow : Bool)
        (prev_b : Option BlockRecord)
        → ((b : BlockRecord) → prev_b ≡ some b → IsStored blocks b)
        → Gives
            (vdf_info_of cc_hash rc_hash c slots overflow prev_b blocks sp_total_iters sp_iters)
            (IsRun cc_hash rc_hash c (reverse slots) overflow prev_b)
    unfolding vdf_info_of from_end from_chain sp_info
    vdf_info_of-IsRun cc_hash rc_hash c [] false none stored =
        (refl, refl, inr (inl (inl (inl (refl, refl)), refl, (refl, refl), refl, refl)))
    vdf_info_of-IsRun cc_hash rc_hash c [] true none stored =
        (refl, refl, inr (inl (inr (refl, refl), refl, (refl, refl), refl, refl)))
    vdf_info_of-IsRun cc_hash rc_hash c [] false (some b) stored =
        Gives-map (from_sub_slot blocks sp_total_iters sp_iters b) _ _
          (from_sub_slot-Gives b (stored b refl))
          (λ info (iters, input, run).
            (iters, input, inr (inr (inl (inl (refl, refl), (b, refl, run))))))
    vdf_info_of-IsRun cc_hash rc_hash c [] true (some b) stored =
        Gives-map (from_slot_before blocks sp_total_iters sp_iters b) _ _
          (from_slot_before-Gives b (stored b refl))
          (λ info (iters, input, run).
            (iters, input, inr (inr (inr ((refl, refl), (b, refl, run))))))
    vdf_info_of-IsRun cc_hash rc_hash c (last ∷ slots) false prev_b stored = (
      refl,
      refl,
      inl (last, inl (refl, (reverse slots, reverse-cons last slots)), (refl, refl), refl, refl),
    )
    vdf_info_of-IsRun cc_hash rc_hash c (last ∷ []) true none stored =
        (refl, refl, inr (inl (inl (inr (refl, (last, refl))), refl, (refl, refl), refl, refl)))
    vdf_info_of-IsRun cc_hash rc_hash c (last ∷ []) true (some b) stored =
        Gives-map (from_sub_slot blocks sp_total_iters sp_iters b) _ _
          (from_sub_slot-Gives b (stored b refl))
          (λ info (iters, input, run).
            (iters, input, inr (inr (inl (inr (refl, (last, refl)), (b, refl, run))))))
    vdf_info_of-IsRun cc_hash rc_hash c (last ∷ before ∷ slots) true prev_b stored = (
      refl,
      refl,
      inl (
        before,
        inr (
          refl,
          (
            reverse slots,
            last,
            (reverse-cons last (before ∷ slots)
                ∙ ap (λ l. l ++ last ∷ []) (reverse-cons before slots)
                ∙ append_assoc (reverse slots) (before ∷ []) (last ∷ [])),
          ),
        ),
        (refl, refl),
        refl,
        refl,
      ),
    )

    -- On a store of linked blocks, where the block before is stored: the call ends, with an
    -- exception, or with the run and its challenges. Where the point stands in a finished sub-slot,
    -- the last one, or the one before it for an overflow block, the run starts with it, from the
    -- default element and for the iterations of the point, with the hashes of its two chains. Else
    -- it starts so with the genesis challenge, where there is no block before. Else the block before
    -- stands in the sub-slot of the point, or, for an overflow block with no finished sub-slot, in
    -- the next one: the run starts from the output of the newest block on its chain that is before
    -- the point, for exactly the iterations between them, at least one, with the reward chain's
    -- challenge infused there, or with the sub-slot where it has no such block; the challenge is that
    -- of the sub-slot, which the chain has from its first block, or as the second newest.
    pub get_signage_point_vdf_info_lem :
        (cc_hash : ChallengeChainSubSlot → ℕ) (rc_hash : RewardChainSubSlot → ℕ)
        (c : ConsensusConstants) (slots : List EndOfSubSlot) (overflow : Bool)
        (prev_b : Option BlockRecord)
        → ((b : BlockRecord) → prev_b ≡ some b → IsStored blocks b)
        → Gives
            (get_signage_point_vdf_info cc_hash rc_hash c slots overflow prev_b blocks
              sp_total_iters sp_iters)
            (IsRun cc_hash rc_hash c slots overflow prev_b)
    unfolding get_signage_point_vdf_info
    get_signage_point_vdf_info_lem cc_hash rc_hash c slots overflow prev_b stored =
        Gives-map
          (vdf_info_of cc_hash rc_hash c (reverse slots) overflow prev_b blocks sp_total_iters
            sp_iters)
          (IsRun cc_hash rc_hash c (reverse (reverse slots)) overflow prev_b) _
          (vdf_info_of-IsRun cc_hash rc_hash c (reverse slots) overflow prev_b stored)
          (λ info run. rw (reverse-reverse slots) at run)

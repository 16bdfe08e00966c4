-- ===== src/Consensus/Difficulty/Rules/Termination.antt =====
-- The rules in a store of linked blocks, and the rounds their walks take.
use gold_blockchain.Base.{
  ℕ, zero, suc, ◌+◌, ◌-◌, ◌*◌, ◌%◌, ◌<◌, inl, inr, Bool, true, false, not, ◌||◌, Option, none, some,
  arith, ltb, ◌==◌, Bool-cases, value_error, assertion_error, ok, ◌>>=◌, guard, or_raise, Gives,
  Gives-bind,
}
use gold_blockchain.Base.Ints.{uint32, uint64_sub}
use gold_blockchain.Base.Ends.{
  Ends, Ends-bind, Ends-if, Gives-Ends, uint32-Ends, uint64-Ends, uint64_sub-Ends, guard-Ends,
  or_raise-Ends,
}
use gold_blockchain.Consensus.Constants.{ConsensusConstants}
use gold_blockchain.Consensus.PotIterations.{floor_mod}
use gold_blockchain.Consensus.BlockRecord.{
  BlockRecord, is_transaction_block, is_some, sp_total_iters,
}
use gold_blockchain.Consensus.Blocks.{Blocks}
use gold_blockchain.Consensus.Blocks.Chain.{IsStored, IsLinked, Gives-record, Gives-step_back}
use gold_blockchain.Consensus.Difficulty.Ancestors.{
  get_second_to_last_transaction_block_in_previous_epoch,
}
use gold_blockchain.Consensus.Difficulty.Ancestors.Walks.{get_second_to_last-Gives}
use gold_blockchain.Consensus.Difficulty.Epoch.{
  no_summary_yet, finish_at, clear_since_sub_epoch, height_can_be_first_in_epoch,
  can_finish_sub_and_full_epoch,
}
use gold_blockchain.Consensus.Difficulty.Adjust.{quotient_of_differences}
use gold_blockchain.Consensus.Difficulty.Rules.{
  difficulty_of, measured_sub_slot_iters, measured_difficulty, last_transaction_block, epoch_passed,
  measured_blocks, get_next_sub_slot_iters, get_next_difficulty,
  get_next_sub_slot_iters_and_difficulty,
}
use gold_blockchain.Consensus.Difficulty.Rules.Arithmetic.{
  quotient-Ends, adjust_difficulty-Ends, adjust_sub_slot_iters-Ends, sp_total_iters-Ends,
  height_can_be_first-Ends, floor_mod-Ends,
}

module _ (c : ConsensusConstants) (blocks : Blocks) (linked : IsLinked blocks) where
  clear_since-Ends :
      (fuel : ℕ) (b : BlockRecord)
      → IsStored blocks b
      → b.height < fuel
      → Ends (clear_since_sub_epoch fuel c blocks b)
  unfolding clear_since_sub_epoch
  clear_since-Ends zero b stored h = absurd (omega arith)
  clear_since-Ends (suc fuel) b stored h =
      elim (Bool-cases (ltb 0 (b.height % c.sub_epoch_blocks))) [
        | inl inside ↦ rw inside (elim (Bool-cases (is_some b.sub_epoch_summary_included)) [
          | inl there ↦ rw there tt
          | inr none_there ↦ rw none_there (
              Gives-step_back blocks b _ (λ _. Unit) linked stored
                (λ p at e. clear_since-Ends fuel p at (omega arith)))
        ])
        | inr start ↦ rw start tt
      ]

  clear_from-Ends :
      (h : ℕ)
      → Ends
          (do curr ← blocks.block_record h; clear_since_sub_epoch (suc curr.height) c blocks curr)
  clear_from-Ends h =
      Gives-bind (blocks.block_record h) _ (IsStored blocks) (λ _. Unit)
        (Gives-record blocks h linked)
        (λ b stored. clear_since-Ends (suc b.height) b stored (omega arith))

  no_summary_yet-Ends : (height prev : ℕ) → Ends (no_summary_yet c blocks height prev)
  unfolding no_summary_yet
  no_summary_yet-Ends height prev =
      Ends-bind (floor_mod (height + 1) c.sub_epoch_blocks) _
        (floor_mod-Ends (height + 1) c.sub_epoch_blocks)
        (λ past. Ends-if (ltb 1 past) _ (ok true) (clear_from-Ends prev) tt)

  finish_at-Ends : (height : ℕ) (clear : Bool) → Ends (finish_at c height clear)
  unfolding finish_at
  finish_at-Ends height true = Ends-bind (uint32 (height + 1)) _ (uint32-Ends (height + 1)) (λ next.
      Ends-bind (height_can_be_first_in_epoch c next) _ (height_can_be_first-Ends c next)
        (λ first. tt))
  finish_at-Ends height false = tt

  pub can_finish-Ends :
      (height prev deficit : ℕ) (included : Bool)
      → Ends (can_finish_sub_and_full_epoch c blocks height (some prev) deficit included)
  unfolding can_finish_sub_and_full_epoch
  can_finish-Ends height prev deficit included =
      Ends-if (ltb height (c.sub_epoch_blocks - 1)) (ok (false, false)) _ tt (
        Ends-if (ltb 0 deficit || included) (ok (false, false)) _ tt (
          Ends-bind (no_summary_yet c blocks height prev) _ (no_summary_yet-Ends height prev)
            (λ clear. finish_at-Ends height clear)))

  last_transaction_block-Gives :
      (fuel sp : ℕ) (b : BlockRecord)
      → IsStored blocks b
      → b.height < fuel
      → Gives (last_transaction_block fuel blocks b sp) (IsStored blocks)
  unfolding last_transaction_block
  last_transaction_block-Gives zero sp b stored h = absurd (omega arith)
  last_transaction_block-Gives (suc fuel) sp b stored h =
      elim (Bool-cases (ltb sp b.total_iters || not (is_transaction_block b))) [
        | inl back ↦ rw back (
            Gives-step_back blocks b _ (IsStored blocks) linked stored
              (λ p at e. last_transaction_block-Gives fuel sp p at (omega arith)))
        | inr found ↦ rw found stored
      ]

  measured_blocks-Ends :
      (b : BlockRecord) (sp : ℕ) → IsStored blocks b → Ends (measured_blocks c blocks b sp)
  unfolding measured_blocks
  measured_blocks-Ends b sp stored =
      Gives-bind (get_second_to_last_transaction_block_in_previous_epoch c blocks b) _
        (IsStored blocks) (λ _. Unit) (get_second_to_last-Gives blocks linked c b stored)
        (λ prev _.
          Gives-bind (last_transaction_block (suc b.height) blocks b sp) _ (IsStored blocks)
            (λ _. Unit) (last_transaction_block-Gives (suc b.height) sp b stored (omega arith))
            (λ curr _. tt))

  epoch_passed-Ends :
      (height prev deficit : ℕ) (included new_slot skip : Bool)
      → Ends (epoch_passed c blocks height prev deficit included new_slot skip)
  unfolding epoch_passed
  epoch_passed-Ends height prev deficit included new_slot skip = Ends-if skip (ok true) _ tt (
      Ends-bind (can_finish_sub_and_full_epoch c blocks height (some prev) deficit included) _
        (can_finish-Ends height prev deficit included) (λ finish. tt))

  measured_sub_slot_iters-Ends :
      (b : BlockRecord) (sp : ℕ) → IsStored blocks b → Ends (measured_sub_slot_iters c blocks b sp)
  unfolding measured_sub_slot_iters
  measured_sub_slot_iters-Ends b sp stored =
      Ends-bind (measured_blocks c blocks b sp) _ (measured_blocks-Ends b sp stored) (λ m.
        Ends-bind (or_raise m.0.timestamp assertion_error) _ (or_raise-Ends m.0.timestamp) (λ t.
          Ends-bind (or_raise m.1.timestamp assertion_error) _ (or_raise-Ends m.1.timestamp) (λ u.
            Ends-bind
              (quotient_of_differences c.sub_slot_time_target m.0.total_iters m.1.total_iters t u) _
              (quotient-Ends c.sub_slot_time_target m.0.total_iters m.1.total_iters t u)
              (λ precise. adjust_sub_slot_iters-Ends c m.0.sub_slot_iters precise))))

  pub record-Ends : (h : ℕ) → Ends (blocks.block_record h)
  record-Ends h =
      Gives-Ends (blocks.block_record h) (IsStored blocks) (Gives-record blocks h linked)

  measured_difficulty-Ends :
      (b : BlockRecord) (sp : ℕ) → IsStored blocks b → Ends (measured_difficulty c blocks b sp)
  unfolding measured_difficulty
  measured_difficulty-Ends b sp stored =
      Ends-bind (measured_blocks c blocks b sp) _ (measured_blocks-Ends b sp stored) (λ m.
        Ends-bind (or_raise m.0.timestamp assertion_error) _ (or_raise-Ends m.0.timestamp) (λ t.
          Ends-bind (or_raise m.1.timestamp assertion_error) _ (or_raise-Ends m.1.timestamp) (λ u.
            Ends-bind (uint64_sub t u) _ (uint64_sub-Ends t u) (λ time.
              Ends-bind (blocks.block_record b.prev_hash) _ (record-Ends b.prev_hash) (λ before.
                Ends-bind (uint64_sub b.weight before.weight) _
                  (uint64_sub-Ends b.weight before.weight)
                  (λ old.
                    Ends-bind
                      (quotient_of_differences c.sub_slot_time_target m.0.weight m.1.weight
                        (c.slot_blocks_target * time) 0)
                      _
                      (quotient-Ends c.sub_slot_time_target m.0.weight m.1.weight
                        (c.slot_blocks_target * time) 0)
                      (λ precise. adjust_difficulty-Ends c old precise)))))))

  pub next_sub_slot_iters-Ends :
      (prev height ssi deficit : ℕ) (included new_slot : Bool) (sp : ℕ) (skip : Bool)
      → Ends (get_next_sub_slot_iters c blocks prev height ssi deficit included new_slot sp skip)
  unfolding get_next_sub_slot_iters
  next_sub_slot_iters-Ends prev height ssi deficit included new_slot sp skip =
      Ends-bind (uint32 (height + 1)) _ (uint32-Ends (height + 1)) (λ next.
        Ends-if (ltb next c.epoch_blocks) _ _ (uint64-Ends c.sub_slot_iters_starting) (
          Ends-bind (guard (blocks.contains_block prev) value_error) _
            (guard-Ends (blocks.contains_block prev))
            (λ _.
              Gives-bind (blocks.block_record prev) _ (IsStored blocks) (λ _. Unit)
                (Gives-record blocks prev linked)
                (λ b stored.
                  Ends-bind (epoch_passed c blocks height prev deficit included new_slot skip) _
                    (epoch_passed-Ends height prev deficit included new_slot skip)
                    (λ passed.
                      Ends-if (not passed) (ok ssi) _ tt
                        (measured_sub_slot_iters-Ends b sp stored))))))

  pub next_difficulty-Ends :
      (prev height d deficit : ℕ) (included new_slot : Bool) (sp : ℕ) (skip : Bool)
      → Ends (get_next_difficulty c blocks prev height d deficit included new_slot sp skip)
  unfolding get_next_difficulty
  next_difficulty-Ends prev height d deficit included new_slot sp skip =
      Ends-bind (uint32 (height + 1)) _ (uint32-Ends (height + 1)) (λ next.
        Ends-if (ltb (next + 3 * c.max_sub_slot_blocks) c.epoch_blocks) _ _
          (uint64-Ends c.difficulty_starting)
          (Ends-bind (guard (blocks.contains_block prev) value_error) _
            (guard-Ends (blocks.contains_block prev))
            (λ _.
              Gives-bind (blocks.block_record prev) _ (IsStored blocks) (λ _. Unit)
                (Gives-record blocks prev linked)
                (λ b stored.
                  Ends-bind (epoch_passed c blocks height prev deficit included new_slot skip) _
                    (epoch_passed-Ends height prev deficit included new_slot skip)
                    (λ passed.
                      Ends-if (not passed) (ok d) _ tt (measured_difficulty-Ends b sp stored))))))

  difficulty_of-Ends : (b : BlockRecord) → Ends (difficulty_of blocks b)
  unfolding difficulty_of
  difficulty_of-Ends b = Ends-if (b.height == 0) _ _ (uint64-Ends b.weight) (
      Ends-bind (blocks.block_record b.prev_hash) _ (record-Ends b.prev_hash)
        (λ before. uint64_sub-Ends b.weight before.weight))

  -- For every block record, constants and slot flag the computation of the next sub-slot iterations
  -- and difficulty ends: it returns them or raises an exception of the source.
  pub next_ssi_and_difficulty-Ends :
      (first : Bool) (prev : Option BlockRecord)
      → Ends (get_next_sub_slot_iters_and_difficulty c first prev blocks)
  unfolding get_next_sub_slot_iters_and_difficulty
  next_ssi_and_difficulty-Ends first none = tt
  next_ssi_and_difficulty-Ends first (some b) =
      Ends-bind (difficulty_of blocks b) _ (difficulty_of-Ends b) (λ d.
        Ends-if (is_some b.sub_epoch_summary_included) _ _ tt (
          Ends-bind (sp_total_iters b c) _ (sp_total_iters-Ends b c) (λ sp.
            Ends-bind
              (get_next_difficulty c blocks b.prev_hash b.height d b.deficit false first sp false) _
              (next_difficulty-Ends b.prev_hash b.height d b.deficit false first sp false)
              (λ difficulty.
                Ends-bind
                  (get_next_sub_slot_iters c blocks b.prev_hash b.height b.sub_slot_iters b.deficit
                    false first sp false)
                  _
                  (next_sub_slot_iters-Ends b.prev_hash b.height b.sub_slot_iters b.deficit false
                    first sp false)
                  (λ ssi. tt)))))

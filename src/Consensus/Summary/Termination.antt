-- ===== src/Consensus/Summary/Termination.antt =====
-- The rounds that the computation of a summary takes.
use gold_blockchain.Base.{
  ℕ, zero, suc, ◌+◌, ◌%◌, ◌<◌, inl, inr, Bool, true, false, not, Option, none, some, arith, ltb,
  leb, ◌==◌, if◌then◌else◌, Bool-cases, Option-cases, length, assertion_error, index_error, Result,
  ok, guard, or_raise, Result-cases,
}
use gold_blockchain.Base.Ints.{uint8, uint32, uint64_sub, uint128_sub}
use gold_blockchain.Base.Ends.{
  Ends, Ends-bind, Ends-if, uint32-Ends, uint64_sub-Ends, uint128_sub-Ends,
}
use gold_blockchain.Consensus.Constants.{ConsensusConstants}
use gold_blockchain.Consensus.PotIterations.{
  floor_div, floor_mod, is_overflow_block, calculate_sp_iters, calculate_ip_iters,
}
use gold_blockchain.Consensus.Deficit.{calculate_deficit}
use gold_blockchain.Consensus.BlockRecord.{BlockRecord, SubEpochSummary}
use gold_blockchain.Consensus.Blocks.{Blocks, try_block_record}
use gold_blockchain.Consensus.Blocks.Chain.{IsStored, IsLinked, Gives-step_back}
use gold_blockchain.Consensus.Difficulty.Epoch.{
  height_can_be_first_in_epoch, can_finish_sub_and_full_epoch,
}
use gold_blockchain.Consensus.Difficulty.Rules.{
  get_next_sub_slot_iters, get_next_difficulty, get_next_sub_slot_iters_and_difficulty,
}
use gold_blockchain.Consensus.Difficulty.Rules.Arithmetic.{
  ip_iters-Ends, height_can_be_first-Ends, floor_mod-Ends,
}
use gold_blockchain.Consensus.Difficulty.Rules.Termination.{
  next_ssi_and_difficulty-Ends, next_sub_slot_iters-Ends, next_difficulty-Ends, can_finish-Ends,
  record-Ends,
}
use gold_blockchain.Consensus.Summary.{
  SummarizedBlock, last_with_summary, last_elem?, no_difficulty_since, can_finish_epoch_soon,
  finish_after, make_sub_epoch_summary, epoch_values, has_difficulty, has_summary, summary_after,
  next_sub_epoch_summary,
}

sp_iters-Ends : (c : ConsensusConstants) (ssi index : ℕ) → Ends (calculate_sp_iters c ssi index)
unfolding calculate_sp_iters
sp_iters-Ends c ssi index = ground arith

overflow-Ends : (c : ConsensusConstants) (index : ℕ) → Ends (is_overflow_block c index)
unfolding is_overflow_block
overflow-Ends c index = ground arith

deficit-Ends :
    (c : ConsensusConstants) (h : ℕ) (b : BlockRecord) (overflow : Bool) (n : ℕ)
    → Ends (calculate_deficit c h (some b) overflow n)
unfolding calculate_deficit
deficit-Ends c h b overflow n = ground arith

module _ (c : ConsensusConstants) (blocks : Blocks) (linked : IsLinked blocks) where
  last_with_summary-Ends :
      (fuel : ℕ) (b : BlockRecord)
      → IsStored blocks b
      → b.height < fuel
      → Ends (last_with_summary fuel blocks b)
  unfolding last_with_summary
  last_with_summary-Ends zero b stored h = absurd (omega arith)
  last_with_summary-Ends (suc fuel) b stored h = elim (Option-cases b.sub_epoch_summary_included) [
    | inr (ses, e) ↦ rw e tt
    | inl e ↦ rw e (
        Gives-step_back blocks b _ (λ _. Unit) linked stored
          (λ p at e. last_with_summary-Ends fuel p at (omega arith)))
  ]

  no_difficulty_since-Ends :
      (fuel : ℕ) (b : BlockRecord)
      → IsStored blocks b
      → b.height < fuel
      → Ends (no_difficulty_since fuel c blocks b)
  unfolding no_difficulty_since
  no_difficulty_since-Ends zero b stored h = absurd (omega arith)
  no_difficulty_since-Ends (suc fuel) b stored h =
      Ends-if (ltb 0 (b.height % c.sub_epoch_blocks)) _ _
        (Gives-step_back blocks b _ (λ _. Unit) linked stored
          (λ p at e.
            Ends-bind (no_difficulty_since fuel c blocks p) _
              (no_difficulty_since-Ends fuel p at (omega arith)) (λ clear. tt)))
        tt

  can_finish_epoch_soon-Ends :
      (b : BlockRecord) → IsStored blocks b → Ends (can_finish_epoch_soon c blocks b)
  unfolding can_finish_epoch_soon
  can_finish_epoch_soon-Ends b stored =
      Ends-bind (uint32 (b.height + 2)) _ (uint32-Ends (b.height + 2)) (λ next.
        Ends-bind (height_can_be_first_in_epoch c next) _ (height_can_be_first-Ends c next)
          (λ first.
            Ends-if first _ _
              (Ends-bind (floor_mod (b.height + 2) c.sub_epoch_blocks) _
                (floor_mod-Ends (b.height + 2) c.sub_epoch_blocks)
                (λ past.
                  Ends-if (ltb 1 past) _ (ok true)
                    (no_difficulty_since-Ends (suc b.height) b stored (omega arith)) tt))
              (Ends-bind (uint32 (b.height + c.max_sub_slot_blocks + 2)) _
                (uint32-Ends (b.height + c.max_sub_slot_blocks + 2))
                (λ later. height_can_be_first-Ends c later))))

  finish_after-Ends :
      (b : BlockRecord) (overflow : Bool) (n : ℕ) (soon : Bool)
      → IsStored blocks b
      → Ends (finish_after c blocks b overflow n soon)
  unfolding finish_after
  finish_after-Ends b overflow n soon stored =
      Ends-if soon _ _
        (Ends-bind (can_finish_epoch_soon c blocks b) _ (can_finish_epoch_soon-Ends b stored)
          (λ epoch. tt))
        (Ends-bind (uint32 (b.height + 1)) _ (uint32-Ends (b.height + 1)) (λ height.
          Ends-bind (calculate_deficit c height (some b) overflow n) _
            (deficit-Ends c height b overflow n)
            (λ deficit.
              Ends-bind
                (can_finish_sub_and_full_epoch c blocks height (some b.header_hash) deficit false) _
                (can_finish-Ends c blocks linked height b.header_hash deficit false)
                (λ finish. tt))))

  epoch_values-Ends :
      (block : SummarizedBlock) (b : BlockRecord) (required ssi : ℕ) (overflow : Bool) (deficit : ℕ)
      → Ends (epoch_values c blocks block b required ssi overflow deficit)
  unfolding epoch_values
  epoch_values-Ends block b required ssi overflow deficit =
      Ends-bind (calculate_sp_iters c ssi block.signage_point_index) _
        (sp_iters-Ends c ssi block.signage_point_index)
        (λ sp.
          Ends-bind (calculate_ip_iters c ssi block.signage_point_index required) _
            (ip_iters-Ends c ssi block.signage_point_index required)
            (λ ip. Ends-bind (uint32 (b.height + 1)) _ (uint32-Ends (b.height + 1)) (λ height.
              Ends-bind (blocks.block_record b.prev_hash) _
                (record-Ends c blocks linked b.prev_hash)
                (λ before.
                  Ends-bind (uint64_sub b.weight before.weight) _
                    (uint64_sub-Ends b.weight before.weight)
                    (λ d.
                      Ends-bind
                        (uint128_sub (block.total_iters + sp) (ip + (if overflow then ssi else 0)))
                        _
                        (uint128_sub-Ends (block.total_iters + sp)
                          (ip + (if overflow then ssi else 0)))
                        (λ at.
                          Ends-bind
                            (get_next_difficulty c blocks block.prev_header_hash height d deficit
                              false true at true)
                            _
                            (next_difficulty-Ends c blocks linked block.prev_header_hash height d
                              deficit false true at true)
                            (λ nd.
                              Ends-bind
                                (get_next_sub_slot_iters c blocks block.prev_header_hash height ssi
                                  deficit false true at true)
                                _
                                (next_sub_slot_iters-Ends c blocks linked block.prev_header_hash
                                  height ssi deficit false true at true)
                                (λ nssi. tt))))))))

  genesis_or-Ends :
      {A : Type 0} (b : Bool) (x : A) (rest : Result A)
      → Ends rest
      → Ends (if b then ok x else rest)
  genesis_or-Ends b x rest h = Ends-if b (ok x) rest tt h

  make_summary-Ends :
      (get_hash : SubEpochSummary → ℕ) (height : ℕ) (b : BlockRecord) (nd nssi : Option ℕ)
      → IsStored blocks b
      → Ends (make_sub_epoch_summary get_hash c blocks height b nd nssi)
  unfolding make_sub_epoch_summary
  make_summary-Ends get_hash height b nd nssi stored =
      Ends-bind (guard (b.height + 2 == height) assertion_error) _ (ground arith) (λ _.
        Ends-bind (floor_div (height + c.max_sub_slot_blocks) c.sub_epoch_blocks) _ (ground arith)
          (λ sub_epochs. genesis_or-Ends (leb sub_epochs 1) _ _ (
            Ends-bind (last_with_summary (suc b.height) blocks b) _
              (last_with_summary-Ends (suc b.height) b stored (omega arith))
              (λ found.
                Ends-bind (or_raise found.0.finished_reward_slot_hashes assertion_error) _
                  (ground arith)
                  (λ slots.
                    Ends-bind (or_raise (last_elem? slots) index_error) _ (ground arith) (λ hash.
                      Ends-bind (uint8 (found.0.height % c.sub_epoch_blocks)) _ (ground arith)
                        (λ n. tt)))))))

  summary_after-Ends :
      (get_hash : SubEpochSummary → ℕ) (required : ℕ) (block : SummarizedBlock) (soon : Bool)
      (b : BlockRecord)
      → IsStored blocks b
      → Ends (summary_after get_hash c blocks required block soon b)
  unfolding summary_after
  summary_after-Ends get_hash required block soon b stored =
      let n = length block.finished_sub_slots in
      Ends-if (has_difficulty block) (ok none) _ tt (
        Ends-bind (get_next_sub_slot_iters_and_difficulty c (ltb 0 n) (some b) blocks) _
          (next_ssi_and_difficulty-Ends c blocks linked (ltb 0 n) (some b))
          (λ next.
            Ends-bind (is_overflow_block c block.signage_point_index) _
              (overflow-Ends c block.signage_point_index)
              (λ overflow. Ends-if (has_summary block) (ok none) _ tt (
                Ends-bind (finish_after c blocks b overflow n soon) _
                  (finish_after-Ends b overflow n soon stored)
                  (λ finish. Ends-if (not finish.1) (ok none) _ tt (
                    Ends-bind
                      (if finish.2
                        then epoch_values c blocks block b required next.0 overflow finish.0
                        else ok (none, none))
                      _
                      (Ends-if finish.2 _ (ok (none, none))
                        (epoch_values-Ends block b required next.0 overflow finish.0) tt)
                      (λ values.
                        Ends-bind (uint32 (b.height + 2)) _ (uint32-Ends (b.height + 2)) (λ height.
                          Ends-bind
                            (make_sub_epoch_summary get_hash c blocks height b values.0 values.1) _
                            (make_summary-Ends get_hash height b values.0 values.1 stored)
                            (λ summary. tt)))))))))

  -- For every block, in a store of linked blocks, the summary that its successor includes is
  -- computed: the call returns it or none, or raises an exception of the source.
  pub next_summary-Ends :
      (get_hash : SubEpochSummary → ℕ) (required : ℕ) (block : SummarizedBlock) (soon : Bool)
      → Ends (next_sub_epoch_summary get_hash c blocks required block soon)
  unfolding next_sub_epoch_summary try_block_record
  next_summary-Ends get_hash required block soon =
      elim (Bool-cases (blocks.contains_block block.prev_header_hash)) [
        | inr missing ↦ rw missing tt
        | inl there ↦ rw there (elim (Result-cases (blocks.block_record block.prev_header_hash)) [
          | inr (e, raised) ↦ rw (raised, linked.misses block.prev_header_hash e raised) (λ x. cc)
          | inl (b, found) ↦ rw found (
              Ends-if (b.height == 0) (ok none) _ tt
                (summary_after-Ends get_hash required block soon b (block.prev_header_hash, found)))
        ])
      ]

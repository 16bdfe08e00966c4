-- ===== src/Consensus/Difficulty/Ancestors/Walks.antt =====
-- The walks along the hashes in a store of linked blocks, their rounds and what they find.
use gold_blockchain.Base.{
  ℕ, zero, suc, ◌+◌, ◌*◌, ◌^◌, ◌<◌, inl, inr, Bool, true, false, List, [], ◌∷◌, arith, ltb, ◌==◌,
  if◌then◌else◌, Bool-cases, get_elem?, All, assertion_error, index_error, guard, or_raise, Gives,
  Gives-bind,
}
use gold_blockchain.Base.Ints.{uint32, uint32_sub}
use gold_blockchain.Consensus.Constants.{ConsensusConstants}
use gold_blockchain.Consensus.BlockRecord.{BlockRecord, is_transaction_block, is_some}
use gold_blockchain.Consensus.Blocks.{Blocks}
use gold_blockchain.Consensus.Blocks.Chain.{IsStored, IsLinked, Gives-height, Gives-step_back}
use gold_blockchain.Consensus.Difficulty.Ancestors.{
  fast_fetch, slow_fetch, on_main_chain, get_blocks_at_height, backtrack, wait_for_slot, drop,
  prev_epoch_surpass, fetch_around, second_to_last_before,
  get_second_to_last_transaction_block_in_previous_epoch,
}

module _ (blocks : Blocks) (linked : IsLinked blocks) where
  abbrev AllStored : List BlockRecord → Type 0
  AllStored = All (IsStored blocks)

  fast_fetch-Gives : (h count : ℕ) → Gives (fast_fetch blocks h count) AllStored
  unfolding fast_fetch
  fast_fetch-Gives h zero = tt
  fast_fetch-Gives h (suc count) = elim (Bool-cases (ltb h (2 ^ 32))) [
    | inl fits ↦ rw fits (elim (Bool-cases (blocks.contains_height h)) [
      | inl known ↦ rw known (
          Gives-bind (blocks.height_to_block_record h) _ (IsStored blocks) AllStored
            (Gives-height blocks h linked)
            (λ b stored.
              Gives-bind (fast_fetch blocks (h + 1) count) _ AllStored AllStored
                (fast_fetch-Gives (h + 1) count) (λ rest all_stored. (stored, all_stored))))
      | inr unknown ↦ rw unknown (λ e. cc)
    ])
    | inr large ↦ rw large (λ e. cc)
  ]

  slow_fetch-Gives :
      (fuel target limit : ℕ) (b : BlockRecord) (found : List BlockRecord)
      → IsStored blocks b
      → AllStored found
      → b.height < fuel
      → Gives (slow_fetch fuel blocks b target limit found) AllStored
  unfolding slow_fetch
  slow_fetch-Gives zero target limit b found stored fs h = absurd (omega arith)
  slow_fetch-Gives (suc fuel) target limit b found stored fs h =
      elim (Bool-cases (ltb b.height target)) [
        | inl low ↦ rw low fs
        | inr high ↦ rw high (elim (Bool-cases (b.height == 0)) [
          | inl genesis ↦ rw genesis kept
          | inr above ↦ rw above (
              Gives-step_back blocks b _ AllStored linked stored (λ p at e.
                slow_fetch-Gives fuel target limit p
                  (if ltb b.height limit then b ∷ found else found) at kept (omega arith)))
        ])
      ]
    where
      kept : AllStored (if ltb b.height limit then b ∷ found else found)
      kept = elim (Bool-cases (ltb b.height limit)) [
        | inl inside ↦ rw inside (stored, fs)
        | inr outside ↦ rw outside fs
      ]

  get_blocks_at_height-Gives :
      (b : BlockRecord) (target count : ℕ)
      → IsStored blocks b
      → Gives (get_blocks_at_height blocks b target count) AllStored
  unfolding get_blocks_at_height
  get_blocks_at_height-Gives b target count stored = elim (Bool-cases (on_main_chain blocks b)) [
    | inl main ↦ rw main (fast_fetch-Gives target count)
    | inr fork ↦
        rw fork
          (slow_fetch-Gives (suc b.height) target (target + count) b [] stored tt (omega arith))
  ]

  wait_for_slot-Gives :
      (curr next : BlockRecord) (fetched : List BlockRecord)
      → IsStored blocks curr
      → IsStored blocks next
      → AllStored fetched
      → Gives (wait_for_slot curr next fetched) (IsStored blocks)
  unfolding wait_for_slot
  wait_for_slot-Gives curr next [] sc sn sf =
      elim (Bool-cases (is_some next.sub_epoch_summary_included)) [
        | inl there ↦ rw there sc
        | inr missing ↦ rw missing (λ e. cc)
      ]
  wait_for_slot-Gives curr next (x ∷ fetched) sc sn sf =
      elim (Bool-cases (is_some next.sub_epoch_summary_included)) [
        | inl there ↦ rw there sc
        | inr missing ↦ rw missing (wait_for_slot-Gives next x fetched sn sf.0 sf.1)
      ]

  backtrack-Gives :
      (fuel missing : ℕ) (b : BlockRecord)
      → IsStored blocks b
      → b.height < fuel
      → Gives (backtrack fuel blocks b missing) (IsStored blocks)
  unfolding backtrack
  backtrack-Gives fuel zero b stored h = stored
  backtrack-Gives zero (suc missing) b stored h = absurd (omega arith)
  backtrack-Gives (suc fuel) (suc missing) b stored h =
      Gives-step_back blocks b _ (IsStored blocks) linked stored (λ p at e.
        backtrack-Gives fuel (if is_transaction_block p then missing else suc missing) p at
          (omega arith))

  get_elem?-Gives :
      (xs : List BlockRecord) (i : ℕ)
      → AllStored xs
      → Gives (or_raise (get_elem? xs i) index_error) (IsStored blocks)
  get_elem?-Gives [] i h = λ e. cc
  get_elem?-Gives (x ∷ xs) zero h = h.0
  get_elem?-Gives (x ∷ xs) (suc i) h = get_elem?-Gives xs i h.1

  drop-AllStored : (n : ℕ) (xs : List BlockRecord) → AllStored xs → AllStored (drop n xs)
  drop-AllStored zero xs h = h
  drop-AllStored (suc n) [] h = tt
  drop-AllStored (suc n) (x ∷ xs) h = drop-AllStored n xs h.1

  prev_epoch_surpass-Gives :
      (c : ConsensusConstants) (b : BlockRecord) → Gives (prev_epoch_surpass c b) (λ _. Unit)
  unfolding prev_epoch_surpass
  prev_epoch_surpass-Gives c b = ground arith

  guard-Gives : (b : Bool) → Gives (guard b assertion_error) (λ _. Unit)
  guard-Gives true = tt
  guard-Gives false = λ e. cc

  fetch_around-Gives :
      (c : ConsensusConstants) (b : BlockRecord) (surpass : ℕ)
      → IsStored blocks b
      → Gives (fetch_around c blocks b surpass) AllStored
  unfolding fetch_around
  fetch_around-Gives c b surpass stored =
      Gives-bind (uint32_sub surpass (c.max_sub_slot_blocks + 1)) _ (λ _. Unit) AllStored
        (ground arith)
        (λ start _.
          Gives-bind (uint32 (3 * c.max_sub_slot_blocks + c.min_blocks_per_challenge_block + 3)) _
            (λ _. Unit) AllStored (ground arith)
            (λ count _. get_blocks_at_height-Gives b start count stored))

  second_to_last_before-Gives :
      (c : ConsensusConstants) (fetched : List BlockRecord) (surpass : ℕ)
      → AllStored fetched
      → Gives (second_to_last_before c blocks fetched surpass) (IsStored blocks)
  unfolding second_to_last_before
  second_to_last_before-Gives c fetched surpass stored =
      let P = IsStored blocks in
      let k = c.max_sub_slot_blocks in
      Gives-bind (or_raise (get_elem? fetched k) index_error) _ P P
        (get_elem?-Gives fetched k stored)
        (λ curr sc.
          Gives-bind (guard (suc curr.height == surpass) assertion_error) _ (λ _. Unit) P
            (guard-Gives (suc curr.height == surpass))
            (λ _ _.
              Gives-bind (or_raise (get_elem? fetched (k + 1)) index_error) _ P P
                (get_elem?-Gives fetched (k + 1) stored)
                (λ next sn.
                  Gives-bind (guard (next.height == surpass) assertion_error) _ (λ _. Unit) P
                    (guard-Gives (next.height == surpass))
                    (λ _ _.
                      Gives-bind (wait_for_slot curr next (drop (k + 1) fetched)) _ P P
                        (wait_for_slot-Gives curr next (drop (k + 1) fetched) sc sn
                          (drop-AllStored (k + 1) fetched stored))
                        (λ last sl.
                          backtrack-Gives (suc last.height)
                            (if is_transaction_block last then 1 else 2) last sl (omega arith))))))

  -- The search for the block from which the last epoch is measured ends: at a stored block, or at
  -- an error of the source.
  pub get_second_to_last-Gives :
      (c : ConsensusConstants) (b : BlockRecord)
      → IsStored blocks b
      → Gives (get_second_to_last_transaction_block_in_previous_epoch c blocks b) (IsStored blocks)
  unfolding get_second_to_last_transaction_block_in_previous_epoch
  get_second_to_last-Gives c b stored =
      let P = IsStored blocks in
      Gives-bind (prev_epoch_surpass c b) _ (λ _. Unit) P (prev_epoch_surpass-Gives c b)
        (λ surpass _. elim (Bool-cases (surpass == 0)) [
          | inl genesis ↦ rw genesis (
              Gives-bind (get_blocks_at_height blocks b 0 1) _ AllStored P
                (get_blocks_at_height-Gives b 0 1 stored)
                (λ xs all_stored. get_elem?-Gives xs 0 all_stored))
          | inr later ↦ rw later (
              Gives-bind (fetch_around c blocks b surpass) _ AllStored P
                (fetch_around-Gives c b surpass stored)
                (λ xs all_stored. second_to_last_before-Gives c xs surpass all_stored))
        ])

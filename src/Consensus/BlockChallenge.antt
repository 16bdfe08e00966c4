-- ===== src/Consensus/BlockChallenge.antt =====
-- chia/consensus/get_block_challenge.py: which challenge a block answers, and whether the sub-slot
-- that its proof ends is in the chain already. Of a block the model has the fields that are read, of
-- the sub-slots that it ends their challenge chains (chia/types/blockchain_format/slots.py).
pub mod Newest
pub mod Included
use gold_blockchain.Base.{
  ℕ, zero, suc, ◌+◌, ◌-◌, ◌/◌, Bool, false, not, ◌&&◌, ◌||◌, Option, none, some, List, [], ◌∷◌,
  ◌++◌, reverse, ltb, ◌==◌, if◌then◌else◌, length, get_elem?, assertion_error, index_error, no_fuel,
  Result, ok, err, ◌>>=◌, ◌>>◌, guard, or_raise,
}
use gold_blockchain.Consensus.Constants.{ConsensusConstants}
use gold_blockchain.Consensus.BlockRecord.{BlockRecord, first_in_sub_slot}
use gold_blockchain.Consensus.Blocks.{Blocks}

pub record VdfInfo : Type 0 where
  pub challenge : ℕ
  pub number_of_iterations : ℕ
  pub output : ℕ

pub record ChallengeChainSubSlot : Type 0 where
  pub challenge_chain_end_of_slot_vdf : VdfInfo
  pub infused_challenge_chain_sub_slot_hash : Option ℕ
  pub subepoch_summary_hash : Option ℕ
  pub new_sub_slot_iters : Option ℕ
  pub new_difficulty : Option ℕ

pub record ChallengedBlock : Type 0 where
  pub prev_header_hash : ℕ
  pub total_iters : ℕ
  pub finished_sub_slots : List ChallengeChainSubSlot

-- `slots[-1]`, where there is one.
abbrev pub last_slot : List ChallengeChainSubSlot → Option ChallengeChainSubSlot
last_slot [] = none
last_slot (slot ∷ []) = some slot
last_slot (slot ∷ next ∷ slots) = last_slot (next ∷ slots)

-- The challenges with those of one more block.
unfoldable pub with_challenges : List ℕ → BlockRecord → Result (List ℕ)
unfolding first_in_sub_slot
with_challenges reversed_challenge_hashes curr =
    let added = (do
      hashes ← or_raise curr.finished_challenge_slot_hashes assertion_error
      ok (reversed_challenge_hashes ++ reverse hashes)) in
    if first_in_sub_slot curr then added else ok reversed_challenge_hashes

-- The `while` loop back along the chain, until enough challenges are seen.
unfoldable pub collect_challenges : ℕ → Blocks → ℕ → List ℕ → BlockRecord → Result (List ℕ)
unfolding with_challenges
collect_challenges zero blocks challenges_to_look_for reversed_challenge_hashes curr = err no_fuel
collect_challenges (suc fuel) blocks challenges_to_look_for reversed_challenge_hashes curr =
    let more = (do
      hashes ← with_challenges reversed_challenge_hashes curr
      let below = (do
        prev ← blocks.block_record curr.prev_hash
        collect_challenges fuel blocks challenges_to_look_for hashes prev)
      let first = (do
        own ← or_raise curr.finished_challenge_slot_hashes assertion_error
        guard (ltb 0 (length own)) assertion_error
        ok hashes)
      (if curr.height == 0 then first else below)) in
    if ltb (length reversed_challenge_hashes) challenges_to_look_for
    then more
    else ok reversed_challenge_hashes

abbrev pub number_to_look_for : Bool → Bool → ℕ
number_to_look_for overflow skip_overflow_last_ss_validation =
    if overflow then (if skip_overflow_last_ss_validation then 1 else 2) else 1

module _ (get_hash : ChallengeChainSubSlot → ℕ) where
  unfoldable pub get_block_challenge :
      ConsensusConstants → ChallengedBlock → Blocks → Bool → Bool → Bool → Result ℕ
  unfolding collect_challenges
  get_block_challenge c header_block blocks genesis_block overflow
        skip_overflow_last_ss_validation =
      elim (last_slot header_block.finished_sub_slots) [
        | some slot ↦
            if overflow
            then ok (
                if skip_overflow_last_ss_validation
                then get_hash slot
                else slot.challenge_chain_end_of_slot_vdf.challenge)
            else ok (get_hash slot)
        | none ↦
            let challenges_to_look_for =
              number_to_look_for overflow skip_overflow_last_ss_validation in
            let searched = (do
              curr ← blocks.block_record header_block.prev_header_hash
              hashes ← collect_challenges (suc curr.height) blocks challenges_to_look_for [] curr
              or_raise (get_elem? hashes (challenges_to_look_for - 1)) index_error) in
            if genesis_block then ok c.genesis_challenge else searched
      ]

-- Whether an overflow block is close to this one. The source subtracts the iterations of the record
-- from the block's, which may be fewer.
unfoldable pub is_near_overflow : ChallengedBlock → ℕ → BlockRecord → Bool
is_near_overflow header_block sub_slot_iters curr =
    curr.overflow && ltb header_block.total_iters (curr.total_iters + sub_slot_iters / 2)

-- The `while` loop to the beginning of the sub-slot, and the answer.
unfoldable pub search_slot : ℕ → ChallengedBlock → Blocks → ℕ → Bool → BlockRecord → Result Bool
unfolding is_near_overflow first_in_sub_slot
search_slot zero header_block blocks sub_slot_iters seen_overflow_block curr = err no_fuel
search_slot (suc fuel) header_block blocks sub_slot_iters seen_overflow_block curr =
    let seen = is_near_overflow header_block sub_slot_iters curr || seen_overflow_block in
    let rest = (do
      prev ← blocks.block_record curr.prev_hash
      search_slot fuel header_block blocks sub_slot_iters seen prev) in
    if not (first_in_sub_slot curr) && not (curr.height == 0)
    then rest
    else ok (first_in_sub_slot curr && seen_overflow_block)

unfoldable pub final_eos_is_already_included : ChallengedBlock → Blocks → ℕ → Result Bool
unfolding search_slot
final_eos_is_already_included header_block blocks sub_slot_iters =
    let searched = (do
      curr ← blocks.block_record header_block.prev_header_hash
      let seen_overflow_block = is_near_overflow header_block sub_slot_iters curr
      search_slot (suc curr.height) header_block blocks sub_slot_iters seen_overflow_block curr) in
    if ltb 0 (length header_block.finished_sub_slots) then ok false else searched

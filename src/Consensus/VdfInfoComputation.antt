-- ===== src/Consensus/VdfInfoComputation.antt =====
-- chia/consensus/vdf_info_computation.py: from where, and for how many iterations, the VDF of a
-- signage point runs. The hashes of a sub-slot's chains are parameters.
pub mod Walks
pub mod Runs
use gold_blockchain.Base.{
  ℕ, zero, suc, ◌*◌, ◌^◌, Bool, true, false, not, ◌&&◌, Option, none, some, List, [], ◌∷◌, ◌++◌,
  reverse, ltb, if◌then◌else◌, length, get_elem?, assertion_error, index_error, no_fuel, Result, ok,
  err, ◌>>=◌, ◌>>◌, or_raise,
}
use gold_blockchain.Base.Ints.{uint64_sub}
use gold_blockchain.Consensus.Constants.{ConsensusConstants}
use gold_blockchain.Consensus.BlockRecord.{BlockRecord, first_in_sub_slot}
use gold_blockchain.Consensus.Blocks.{Blocks}
use gold_blockchain.Consensus.BlockChallenge.{VdfInfo, ChallengeChainSubSlot}

pub record RewardChainSubSlot : Type 0 where
  pub end_of_slot_vdf : VdfInfo
  pub challenge_chain_sub_slot_hash : ℕ
  pub infused_challenge_chain_sub_slot_hash : Option ℕ
  pub deficit : ℕ

-- Of a bundle at the end of a sub-slot, the chains that are hashed.
pub record EndOfSubSlot : Type 0 where
  pub challenge_chain : ChallengeChainSubSlot
  pub reward_chain : RewardChainSubSlot

-- The six results; the two numbers of iterations are always the same.
pub record SpVdfInfo : Type 0 where
  pub cc_vdf_challenge : ℕ
  pub rc_vdf_challenge : ℕ
  pub cc_vdf_input : ℕ
  pub rc_vdf_input : ℕ
  pub cc_vdf_iters : ℕ
  pub rc_vdf_iters : ℕ

-- `ClassgroupElement.get_default_element()`: the byte 8 and 99 zeros.
abbrev pub default_element : ℕ
default_element = 8 * 256 ^ 99

unfoldable pub sp_info : ℕ → ℕ → ℕ → ℕ → SpVdfInfo
sp_info cc_vdf_challenge rc_vdf_challenge cc_vdf_input sp_vdf_iters = record {
  cc_vdf_challenge = cc_vdf_challenge;
  rc_vdf_challenge = rc_vdf_challenge;
  cc_vdf_input = cc_vdf_input;
  rc_vdf_input = default_element;
  cc_vdf_iters = sp_vdf_iters;
  rc_vdf_iters = sp_vdf_iters;
}

-- `hashes[-1]`
abbrev pub last_hash : List ℕ → Result ℕ
last_hash hashes = or_raise (get_elem? (reverse hashes) 0) index_error

-- `while not curr.first_in_sub_slot and curr.total_iters > sp_total_iters`
unfoldable pub walk_to_point : ℕ → Blocks → ℕ → BlockRecord → Result BlockRecord
unfolding first_in_sub_slot
walk_to_point zero blocks sp_total_iters curr = err no_fuel
walk_to_point (suc fuel) blocks sp_total_iters curr =
    let rest = (do
      prev ← blocks.block_record curr.prev_hash
      walk_to_point fuel blocks sp_total_iters prev) in
    if not (first_in_sub_slot curr) && ltb sp_total_iters curr.total_iters then rest else ok curr

-- `while not curr.first_in_sub_slot`
unfoldable pub walk_to_slot : ℕ → Blocks → BlockRecord → Result BlockRecord
unfolding first_in_sub_slot
walk_to_slot zero blocks curr = err no_fuel
walk_to_slot (suc fuel) blocks curr =
    let rest = (do prev ← blocks.block_record curr.prev_hash; walk_to_slot fuel blocks prev) in
    if first_in_sub_slot curr then ok curr else rest

-- The cases 4 and 6: from the block before the point, or from the beginning of its sub-slot.
unfoldable pub from_sub_slot : Blocks → ℕ → ℕ → BlockRecord → Result SpVdfInfo
unfolding walk_to_point walk_to_slot sp_info
from_sub_slot blocks sp_total_iters sp_iters prev_b = do
  curr ← walk_to_point (suc prev_b.height) blocks sp_total_iters prev_b
  let from_block = (do
    sp_vdf_iters ← uint64_sub sp_total_iters curr.total_iters
    ok (sp_vdf_iters, curr.challenge_vdf_output, curr.reward_infusion_new_challenge))
  let from_slot = (do
    hashes ← or_raise curr.finished_reward_slot_hashes assertion_error
    rc_vdf_challenge ← last_hash hashes
    ok (sp_iters, default_element, rc_vdf_challenge))
  (sp_vdf_iters, cc_vdf_input, rc_vdf_challenge) ←
      (if ltb curr.total_iters sp_total_iters then from_block else from_slot)
  start ← walk_to_slot (suc curr.height) blocks curr
  hashes ← or_raise start.finished_challenge_slot_hashes assertion_error
  cc_vdf_challenge ← last_hash hashes
  ok (sp_info cc_vdf_challenge rc_vdf_challenge cc_vdf_input sp_vdf_iters)

abbrev pub zip_slots : List ℕ → List ℕ → List (ℕ × ℕ)
zip_slots [] rewards = []
zip_slots (c ∷ challenges) [] = []
zip_slots (c ∷ challenges) (r ∷ rewards) = (c, r) ∷ zip_slots challenges rewards

-- The sub-slots that a block ends, the last one first.
unfoldable pub slots_of : BlockRecord → Result (List (ℕ × ℕ))
unfolding first_in_sub_slot
slots_of curr =
    let ended = (do
      challenges ← or_raise curr.finished_challenge_slot_hashes assertion_error
      rewards ← or_raise curr.finished_reward_slot_hashes assertion_error
      ok (reverse (zip_slots challenges rewards))) in
    if first_in_sub_slot curr then ended else ok []

-- `sp_pre_sb`, once the walk is at one more block.
unfoldable pub before_point : ℕ → Option BlockRecord → BlockRecord → Option BlockRecord
before_point sp_total_iters (some sp_pre_sb) curr = some sp_pre_sb
before_point sp_total_iters none curr =
    if ltb curr.total_iters sp_total_iters then some curr else none

-- The `while` loop of case 5, with the check after it.
unfoldable pub find_sub_slots :
    ℕ
    → Blocks
    → ℕ
    → List (ℕ × ℕ)
    → Option BlockRecord
    → BlockRecord
    → Result (List (ℕ × ℕ) × Option BlockRecord)
unfolding slots_of before_point
find_sub_slots zero blocks sp_total_iters found_sub_slots sp_pre_sb curr = err no_fuel
find_sub_slots (suc fuel) blocks sp_total_iters found_sub_slots sp_pre_sb curr =
    let pre = before_point sp_total_iters sp_pre_sb curr in
    let rest = (do
      prev ← blocks.block_record curr.prev_hash
      ended ← slots_of prev
      find_sub_slots fuel blocks sp_total_iters (found_sub_slots ++ ended) pre prev) in
    if ltb (length found_sub_slots) 2 && ltb 0 curr.height then rest else ok (found_sub_slots, pre)

-- The case 5: the point stands in the sub-slot before.
unfoldable pub from_slot_before : Blocks → ℕ → ℕ → BlockRecord → Result SpVdfInfo
unfolding find_sub_slots sp_info
from_slot_before blocks sp_total_iters sp_iters prev_b = do
  ended ← slots_of prev_b
  (found_sub_slots, sp_pre_sb) ←
      find_sub_slots (suc prev_b.height) blocks sp_total_iters ended none prev_b
  let second = or_raise (get_elem? found_sub_slots 1) index_error
  (sp_vdf_iters, cc_vdf_input, rc_vdf_challenge) ← (elim sp_pre_sb [
    | some b ↦ (do
      iters ← uint64_sub sp_total_iters b.total_iters
      ok (iters, b.challenge_vdf_output, b.reward_infusion_new_challenge))
    | none ↦ (do (challenge, reward) ← second; ok (sp_iters, default_element, reward))
  ])
  (cc_vdf_challenge, reward) ← second
  ok (sp_info cc_vdf_challenge rc_vdf_challenge cc_vdf_input sp_vdf_iters)

module _ (cc_hash : ChallengeChainSubSlot → ℕ) (rc_hash : RewardChainSubSlot → ℕ) where
  unfoldable pub from_end : EndOfSubSlot → ℕ → SpVdfInfo
  unfolding sp_info
  from_end slot sp_iters =
      sp_info (cc_hash slot.challenge_chain) (rc_hash slot.reward_chain) default_element sp_iters

  -- From the genesis challenge, where there is no block before.
  unfoldable pub from_chain :
      ConsensusConstants
      → Option BlockRecord
      → ℕ
      → (BlockRecord → Result SpVdfInfo)
      → Result SpVdfInfo
  unfolding sp_info
  from_chain c none sp_iters search =
      ok (sp_info c.genesis_challenge c.genesis_challenge default_element sp_iters)
  from_chain c (some prev_b) sp_iters search = search prev_b

  -- On the sub-slots, the last one first.
  unfoldable pub vdf_info_of :
      ConsensusConstants
      → List EndOfSubSlot
      → Bool
      → Option BlockRecord
      → Blocks
      → ℕ
      → ℕ
      → Result SpVdfInfo
  unfolding from_end from_chain from_sub_slot from_slot_before
  vdf_info_of c (last ∷ slots) false prev_b blocks sp_total_iters sp_iters =
      ok (from_end last sp_iters)
  vdf_info_of c (last ∷ before ∷ slots) true prev_b blocks sp_total_iters sp_iters =
      ok (from_end before sp_iters)
  vdf_info_of c (last ∷ []) true prev_b blocks sp_total_iters sp_iters =
      from_chain c prev_b sp_iters (from_sub_slot blocks sp_total_iters sp_iters)
  vdf_info_of c [] true prev_b blocks sp_total_iters sp_iters =
      from_chain c prev_b sp_iters (from_slot_before blocks sp_total_iters sp_iters)
  vdf_info_of c [] false prev_b blocks sp_total_iters sp_iters =
      from_chain c prev_b sp_iters (from_sub_slot blocks sp_total_iters sp_iters)

  unfoldable pub get_signage_point_vdf_info :
      ConsensusConstants
      → List EndOfSubSlot
      → Bool
      → Option BlockRecord
      → Blocks
      → ℕ
      → ℕ
      → Result SpVdfInfo
  unfolding vdf_info_of
  get_signage_point_vdf_info c finished_sub_slots overflow prev_b blocks sp_total_iters sp_iters =
      vdf_info_of c (reverse finished_sub_slots) overflow prev_b blocks sp_total_iters sp_iters

-- ===== src/Tests/Challenge.antt =====
-- The challenges of a chain of forty blocks, whose first one and every tenth begin sub-slots.
use gold_blockchain.Base.{
  ℕ, zero, suc, ◌+◌, ◌%◌, ◌≡◌, refl, ap, ◌↔◌, Bool, true, false, ◌&&◌, Option, none, some, [], ◌∷◌,
  arith, ltb, leb, ◌==◌, if◌then◌else◌, ltb→lt, leb→le, get_elem?, Exc, index_error, key_error,
  Result, ok, err, or_raise, Gives,
}
use gold_blockchain.Consensus.Constants.{default_constants}
use gold_blockchain.Consensus.BlockRecord.{BlockRecord, first_in_sub_slot}
use gold_blockchain.Consensus.Blocks.{Blocks}
use gold_blockchain.Consensus.Blocks.Chain.{IsStored, IsLinked, IsMainChain}
use gold_blockchain.Consensus.BlockChallenge.{
  ChallengedBlock, with_challenges, collect_challenges, get_block_challenge, is_near_overflow,
  search_slot, final_eos_is_already_included,
}
use gold_blockchain.Consensus.BlockChallenge.Newest.{newest_challenges, get_block_challenge_lem}
use gold_blockchain.Consensus.BlockChallenge.Included.{
  FollowsOverflow, final_eos_is_already_included_lem,
}
use gold_blockchain.Consensus.VdfInfoComputation.{
  sp_info, walk_to_point, walk_to_slot, from_sub_slot, slots_of, before_point, find_sub_slots,
  from_slot_before, from_chain, vdf_info_of, get_signage_point_vdf_info,
}
use gold_blockchain.Consensus.VdfInfoComputation.Runs.{IsRun, get_signage_point_vdf_info_lem}
use gold_blockchain.Tests.Chain.{small_block}

-- The blocks of the small chain, two sub-slots ended by every tenth, overflow blocks at 5 and 15.
abbrev slot_block : ℕ → BlockRecord
slot_block k = record (small_block k) {
  finished_challenge_slot_hashes = if k % 10 == 0 then some ((100 + k) ∷ (101 + k) ∷ []) else none;
  finished_reward_slot_hashes = if k % 10 == 0 then some ((200 + k) ∷ (201 + k) ∷ []) else none;
  overflow = k % 10 == 5;
}

abbrev find_slot_block : ℕ → Result BlockRecord
find_slot_block zero = err key_error
find_slot_block (suc k) = if ltb k 40 then ok (slot_block k) else err key_error

abbrev slot_chain : Blocks
slot_chain = record {
  contains_block = λ h. leb 1 h && leb h 40;
  block_record = find_slot_block;
  contains_height = λ k. ltb k 40;
  height_to_hash = λ k. if ltb k 40 then some (suc k) else none;
  height_to_block_record = λ k. if ltb k 40 then ok (slot_block k) else err key_error;
}

slot_chain-IsMainChain : IsMainChain slot_chain slot_block 39
slot_chain-IsMainChain = record {
  height_at = λ k. refl;
  linked = λ k h. ground arith;
  known = λ k h. ground arith;
  by_hash = λ k h. ground arith;
  by_height = λ k h. ground arith;
}

find_slot_block-height :
    (h : ℕ) (b : BlockRecord)
    → find_slot_block h ≡ ok b
    → (suc b.height ≡ h) × (b.prev_hash ≡ b.height)
find_slot_block-height zero b e = cc
find_slot_block-height (suc k) b e = ground arith

find_slot_block-misses : (h : ℕ) (e : Exc) → find_slot_block h ≡ err e → e ≡ key_error
find_slot_block-misses zero e m = cc
find_slot_block-misses (suc k) e m = ground arith

slot_chain-IsLinked : IsLinked slot_chain
slot_chain-IsLinked = record {
  falls = λ b p stored e. omega (
    arith,
    (find_slot_block-height stored.0 b stored.1).1,
    (find_slot_block-height b.prev_hash p e).0,
  );
  misses = find_slot_block-misses;
  by_height = λ h b e. (suc h, e);
  misses_height = λ h e m. find_slot_block-misses (suc h) e m;
}

abbrev new_block : ChallengedBlock
new_block = record { prev_header_hash = 18; total_iters = 24400; finished_sub_slots = [] }

challenge_found :
    get_block_challenge (λ slot. 0) default_constants new_block slot_chain false true false ≡ ok 110
unfolding get_block_challenge collect_challenges with_challenges first_in_sub_slot
challenge_found = refl

slot_included : final_eos_is_already_included new_block slot_chain 6400 ≡ ok true
unfolding final_eos_is_already_included search_slot is_near_overflow first_in_sub_slot
slot_included = refl

get_block_challenge_lem_example :
    get_block_challenge (λ slot. 0) default_constants new_block slot_chain false true false
    ≡ or_raise (get_elem? (newest_challenges slot_block 17) 1) index_error
get_block_challenge_lem_example =
    get_block_challenge_lem slot_chain slot_block 39 slot_chain-IsMainChain
      (100 ∷ 101 ∷ [], refl, ltb→lt 0 2 refl) (λ slot. 0) default_constants new_block 17 false true
      false (leb→le 17 39 refl) refl

final_eos_is_already_included_lem_example :
    (result : Bool) × (final_eos_is_already_included new_block slot_chain 6400 ≡ ok result)
    × ((result ≡ true) ↔ (
        (new_block.finished_sub_slots ≡ [])
        × FollowsOverflow slot_chain slot_block 39 slot_chain-IsMainChain new_block 6400 17))
final_eos_is_already_included_lem_example =
    final_eos_is_already_included_lem slot_chain slot_block 39 slot_chain-IsMainChain new_block 6400
      17 (leb→le 17 39 refl) refl

-- The point lies at 23500, after the block at 17 with the total 23400.
run_found :
    get_signage_point_vdf_info
      (λ slot. 0)
      (λ slot. 0)
      default_constants
      []
      false
      (some (slot_block 18))
      slot_chain
      23500
      500
    ≡ ok (sp_info 111 0 0 100)
unfolding get_signage_point_vdf_info vdf_info_of from_chain from_sub_slot walk_to_point walk_to_slot
    first_in_sub_slot sp_info
run_found = refl

run_before :
    get_signage_point_vdf_info
      (λ slot. 0)
      (λ slot. 0)
      default_constants
      []
      true
      (some (slot_block 18))
      slot_chain
      16500
      500
    ≡ ok (sp_info 110 0 0 100)
unfolding get_signage_point_vdf_info vdf_info_of from_chain from_slot_before find_sub_slots slots_of
    before_point first_in_sub_slot sp_info
run_before = refl

IsStored-18 : (b : BlockRecord) → some (slot_block 18) ≡ some b → IsStored slot_chain b
IsStored-18 b e =
    let same : slot_block 18 ≡ b =
      ap (λ (o : Option BlockRecord). elim o [ some x ↦ x | none ↦ slot_block 18 ]) e in
    rw⁻¹ same (19, refl)

get_signage_point_vdf_info_lem_example :
    Gives
      (get_signage_point_vdf_info
        (λ slot. 0)
        (λ slot. 0)
        default_constants
        []
        false
        (some (slot_block 18))
        slot_chain
        23500
        500)
      (IsRun slot_chain 23500 500
        (λ slot. 0)
        (λ slot. 0)
        default_constants
        []
        false
        (some (slot_block 18)))
get_signage_point_vdf_info_lem_example =
    get_signage_point_vdf_info_lem slot_chain 23500 500 slot_chain-IsLinked (λ slot. 0) (λ slot. 0)
      default_constants [] false (some (slot_block 18)) IsStored-18

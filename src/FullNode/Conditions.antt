-- ===== src/FullNode/Conditions.antt =====
-- chia/full_node/mempool_check_conditions.py: the conditions that are checked against the chain,
-- with chia/types/condition_opcodes.py, condition_with_args.py and coin_record.py. Byte strings are
-- lists of bytes. `int_from_bytes`, of the CLVM package, is a parameter; none is its `ValueError`.
-- So is the clock, which is read where no timestamp is given.
pub mod Errors
pub mod Meaning
use gold_blockchain.Base.{
  ℕ, Bool, Option, none, some, List, [], ◌∷◌, if◌then◌else◌, get_elem?, assertion_error,
  index_error, Result, ok, err, ◌>>=◌, ◌>>◌, or_raise,
}
use gold_blockchain.Base.Int.{ℤ, pos, ◌+ℤ◌, ltb_ℤ}
use gold_blockchain.Consensus.BlockRecord.{Coin}
use gold_blockchain.FullNode.Conditions.Errors.{
  Err, invalid_condition, assert_height_absolute_failed, assert_height_relative_failed,
  assert_seconds_absolute_failed, assert_seconds_relative_failed,
}

pub data ConditionOpcode : Type 0 where
  agg_sig_unsafe agg_sig_me create_coin reserve_fee create_coin_announcement
        assert_coin_announcement :
      ConditionOpcode
  create_puzzle_announcement assert_puzzle_announcement assert_my_coin_id assert_my_parent_id :
      ConditionOpcode
  assert_my_puzzlehash assert_my_amount assert_seconds_relative assert_seconds_absolute :
      ConditionOpcode
  assert_height_relative assert_height_absolute : ConditionOpcode

pub record ConditionWithArgs : Type 0 where
  pub opcode : ConditionOpcode
  pub vars : List (List ℕ)

pub record CoinRecord : Type 0 where
  pub coin : Coin
  pub confirmed_block_index : ℕ
  pub spent_block_index : ℕ
  pub spent : Bool
  pub coinbase : Bool
  pub timestamp : ℕ

-- The values of a dict of conditions: a list for each opcode.
abbrev pub Conditions : Type 0
Conditions = List (List ConditionWithArgs)

module _ (int_from_bytes : List ℕ → Option ℤ) (now : ℕ) where
  -- A test of the number in a condition, and the error where it is below what is asked for.
  unfoldable pub exceeds : ConditionWithArgs → ℕ → ℕ → Err → Result (Option Err)
  exceeds condition base reached failed = do
    blob ← or_raise (get_elem? condition.vars 0) index_error
    elim (int_from_bytes blob) [
      | none ↦ ok (some invalid_condition)
      | some n ↦ if ltb_ℤ (pos reached) (n +ℤ pos base) then ok (some failed) else ok none
    ]

  unfoldable pub mempool_assert_absolute_block_height_exceeds :
      ConditionWithArgs → ℕ → Result (Option Err)
  unfolding exceeds
  mempool_assert_absolute_block_height_exceeds condition prev_transaction_block_height =
      exceeds condition 0 prev_transaction_block_height assert_height_absolute_failed

  unfoldable pub mempool_assert_relative_block_height_exceeds :
      ConditionWithArgs → CoinRecord → ℕ → Result (Option Err)
  unfolding exceeds
  mempool_assert_relative_block_height_exceeds condition unspent prev_transaction_block_height =
      exceeds condition unspent.confirmed_block_index prev_transaction_block_height
        assert_height_relative_failed

  -- The clock where no timestamp is given.
  abbrev pub or_now : Option ℕ → ℕ
  or_now none = now
  or_now (some timestamp) = timestamp

  unfoldable pub mempool_assert_absolute_time_exceeds :
      ConditionWithArgs → Option ℕ → Result (Option Err)
  unfolding exceeds
  mempool_assert_absolute_time_exceeds condition timestamp =
      exceeds condition 0 (or_now timestamp) assert_seconds_absolute_failed

  unfoldable pub mempool_assert_relative_time_exceeds :
      ConditionWithArgs → CoinRecord → Option ℕ → Result (Option Err)
  unfolding exceeds
  mempool_assert_relative_time_exceeds condition unspent timestamp =
      exceeds condition unspent.timestamp (or_now timestamp) assert_seconds_relative_failed

  -- The branches on the opcode; every other opcode is no error here.
  unfoldable pub check_condition :
      CoinRecord → ConditionWithArgs → ℕ → Option ℕ → Result (Option Err)
  unfolding mempool_assert_absolute_block_height_exceeds
      mempool_assert_relative_block_height_exceeds mempool_assert_absolute_time_exceeds
      mempool_assert_relative_time_exceeds
  check_condition unspent cvp height timestamp = elim cvp.opcode [
    | assert_height_absolute ↦ mempool_assert_absolute_block_height_exceeds cvp height
    | assert_height_relative ↦ mempool_assert_relative_block_height_exceeds cvp unspent height
    | assert_seconds_absolute ↦ mempool_assert_absolute_time_exceeds cvp timestamp
    | assert_seconds_relative ↦ mempool_assert_relative_time_exceeds cvp unspent timestamp
    | assert_my_coin_id ↦ err assertion_error
    | assert_coin_announcement ↦ err assertion_error
    | assert_puzzle_announcement ↦ err assertion_error
    | assert_my_parent_id ↦ err assertion_error
    | assert_my_puzzlehash ↦ err assertion_error
    | assert_my_amount ↦ err assertion_error
    | agg_sig_unsafe ↦ ok none
    | agg_sig_me ↦ ok none
    | create_coin ↦ ok none
    | reserve_fee ↦ ok none
    | create_coin_announcement ↦ ok none
    | create_puzzle_announcement ↦ ok none
  ]

  unfoldable pub check_list :
      CoinRecord → List ConditionWithArgs → ℕ → Option ℕ → Result (Option Err)
  check_list unspent [] height timestamp = ok none
  check_list unspent (cvp ∷ con_list) height timestamp = do
    error ← check_condition unspent cvp height timestamp
    let rest = check_list unspent con_list height timestamp
    elim error [ some e ↦ ok (some e) | none ↦ rest ]

  unfoldable pub mempool_check_conditions_dict :
      CoinRecord → Conditions → ℕ → Option ℕ → Result (Option Err)
  mempool_check_conditions_dict unspent [] height timestamp = ok none
  mempool_check_conditions_dict unspent (con_list ∷ conditions) height timestamp = do
    error ← check_list unspent con_list height timestamp
    let rest = mempool_check_conditions_dict unspent conditions height timestamp
    elim error [ some e ↦ ok (some e) | none ↦ rest ]

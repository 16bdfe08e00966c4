-- ===== src/FullNode/Conditions/Meaning.antt =====
-- When the conditions of a coin pass.
use gold_blockchain.Base.{
  ℕ, ◌≡◌, refl, ◌↔◌, Bool, true, false, Option, none, some, List, [], ◌∷◌, arith, if◌then◌else◌,
  get_elem?, All, Result, ok, err, ◌>>=◌,
}
use gold_blockchain.Base.Int.{ℤ, pos, ◌+ℤ◌, ◌≤ℤ◌, ltb_ℤ}
use gold_blockchain.FullNode.Conditions.Errors.{
  Err, invalid_condition, assert_height_absolute_failed, assert_height_relative_failed,
  assert_seconds_absolute_failed, assert_seconds_relative_failed,
}
use gold_blockchain.FullNode.Conditions.{
  ConditionOpcode, ConditionWithArgs, CoinRecord, Conditions, exceeds, or_now, check_condition,
  check_list, mempool_check_conditions_dict, agg_sig_unsafe, agg_sig_me, create_coin, reserve_fee,
  create_coin_announcement, assert_coin_announcement, create_puzzle_announcement,
  assert_puzzle_announcement, assert_my_coin_id, assert_my_parent_id, assert_my_puzzlehash,
  assert_my_amount, assert_seconds_relative, assert_seconds_absolute, assert_height_relative,
  assert_height_absolute,
}

module _ (int_from_bytes : List ℕ → Option ℤ) (now : ℕ) (unspent : CoinRecord) (height : ℕ)
    (timestamp : Option ℕ) where
  -- What the opcodes ask of the chain: the height or the time that is reached, and where counting
  -- starts. None is an opcode that asks for nothing here.
  abbrev pub reached : ConditionOpcode → Option (ℕ × ℕ)
  reached assert_height_absolute = some (height, 0)
  reached assert_height_relative = some (height, unspent.confirmed_block_index)
  reached assert_seconds_absolute = some (or_now int_from_bytes now timestamp, 0)
  reached assert_seconds_relative = some (or_now int_from_bytes now timestamp, unspent.timestamp)
  reached _ = none

  -- The opcodes that are checked before the conditions come here.
  abbrev pub is_checked_before : ConditionOpcode → Bool
  is_checked_before assert_my_coin_id = true
  is_checked_before assert_coin_announcement = true
  is_checked_before assert_puzzle_announcement = true
  is_checked_before assert_my_parent_id = true
  is_checked_before assert_my_puzzlehash = true
  is_checked_before assert_my_amount = true
  is_checked_before _ = false

  -- The number in the first argument.
  abbrev pub argument : ConditionWithArgs → Option ℤ
  argument c = elim (get_elem? c.vars 0) [ none ↦ none | some blob ↦ int_from_bytes blob ]

  -- The first argument is a number, and the chain has come that far from where counting starts.
  abbrev pub IsReached : ConditionWithArgs → Option (ℕ × ℕ) → Type 0
  IsReached c none = Unit
  IsReached c (some (here, start)) = elim (argument c) [
    | none ↦ ⊥
    | some n ↦ n +ℤ pos start ≤ℤ pos here
  ]

  abbrev pub Holds : ConditionWithArgs → Type 0
  Holds c = (is_checked_before c.opcode ≡ false) × IsReached c (reached c.opcode)

  unfoldable pub AllHold : Conditions → Type 0
  AllHold conditions = All (All Holds) conditions

  -- Two checks in a row pass when both do.
  passes_both :
      {P Q : Type 0} (first second : Result (Option Err))
      → (first ≡ ok none) ↔ P
      → (second ≡ ok none) ↔ Q
      → ((do error ← first; elim error [ some e ↦ ok (some e) | none ↦ second ]) ≡ ok none)
        ↔ (P × Q)
  passes_both (ok none) second p q = (λ e. (p.0 refl, q.0 e), λ h. q.1 h.1)
  passes_both (ok (some x)) second p q = (λ e. cc, λ h. let e = p.1 h.0 in cc)
  passes_both (err x) second p q = (λ e. cc, λ h. let e = p.1 h.0 in cc)

  compare_iff :
      (a b : ℤ) (failed : Err)
      → ((if ltb_ℤ a b then ok (some failed) else ok none) ≡ ok none) ↔ (b ≤ℤ a)
  compare_iff a b failed = (λ e. ground arith, λ h. ground arith)

  number_iff :
      (r : Option ℤ) (base here : ℕ) (failed : Err)
      → ((elim r [
        | none ↦ ok (some invalid_condition)
        | some n ↦ if ltb_ℤ (pos here) (n +ℤ pos base) then ok (some failed) else ok none
      ])
          ≡ ok none)
        ↔ (elim r [ none ↦ ⊥ | some n ↦ n +ℤ pos base ≤ℤ pos here ])
  number_iff none base here failed = (λ e. cc, λ x. absurd x)
  number_iff (some n) base here failed = compare_iff (pos here) (n +ℤ pos base) failed

  exceeds_iff :
      (o : ConditionOpcode) (vars : List (List ℕ)) (base here : ℕ) (failed : Err)
      → let c : ConditionWithArgs = record { opcode = o; vars = vars } in
        (exceeds int_from_bytes now c base here failed ≡ ok none) ↔ IsReached c (some (here, base))
  unfolding exceeds
  exceeds_iff o [] base here failed = (λ e. cc, λ x. absurd x)
  exceeds_iff o (blob ∷ vars) base here failed = number_iff (int_from_bytes blob) base here failed

  -- A condition that asks for a height or a time is checked as its table entry says.
  holds_iff : {A B : Type 0} → A ↔ B → A ↔ ((◌≡◌ {A = Bool} false false) × B)
  holds_iff h = (λ e. (refl, h.0 e), λ k. h.1 k.1)

  check_condition_iff :
      (o : ConditionOpcode) (vars : List (List ℕ))
      → let c : ConditionWithArgs = record { opcode = o; vars = vars } in
        (check_condition int_from_bytes now unspent c height timestamp ≡ ok none) ↔ Holds c
  unfolding check_condition
  check_condition_iff assert_height_absolute vars =
      holds_iff (exceeds_iff assert_height_absolute vars 0 height assert_height_absolute_failed)
  check_condition_iff assert_height_relative vars = holds_iff (
      exceeds_iff assert_height_relative vars unspent.confirmed_block_index height
        assert_height_relative_failed)
  check_condition_iff assert_seconds_absolute vars = holds_iff (
      exceeds_iff assert_seconds_absolute vars 0 (or_now int_from_bytes now timestamp)
        assert_seconds_absolute_failed)
  check_condition_iff assert_seconds_relative vars = holds_iff (
      exceeds_iff assert_seconds_relative vars unspent.timestamp
        (or_now int_from_bytes now timestamp) assert_seconds_relative_failed)
  check_condition_iff assert_my_coin_id vars = (λ e. cc, λ h. cc)
  check_condition_iff assert_coin_announcement vars = (λ e. cc, λ h. cc)
  check_condition_iff assert_puzzle_announcement vars = (λ e. cc, λ h. cc)
  check_condition_iff assert_my_parent_id vars = (λ e. cc, λ h. cc)
  check_condition_iff assert_my_puzzlehash vars = (λ e. cc, λ h. cc)
  check_condition_iff assert_my_amount vars = (λ e. cc, λ h. cc)
  check_condition_iff agg_sig_unsafe vars = (λ _. (refl, tt), λ _. refl)
  check_condition_iff agg_sig_me vars = (λ _. (refl, tt), λ _. refl)
  check_condition_iff create_coin vars = (λ _. (refl, tt), λ _. refl)
  check_condition_iff reserve_fee vars = (λ _. (refl, tt), λ _. refl)
  check_condition_iff create_coin_announcement vars = (λ _. (refl, tt), λ _. refl)
  check_condition_iff create_puzzle_announcement vars = (λ _. (refl, tt), λ _. refl)

  check_list_iff :
      (con_list : List ConditionWithArgs)
      → (check_list int_from_bytes now unspent con_list height timestamp ≡ ok none)
        ↔ All Holds con_list
  unfolding check_list
  check_list_iff [] = (λ _. tt, λ _. refl)
  check_list_iff (c ∷ con_list) =
      passes_both (check_condition int_from_bytes now unspent c height timestamp)
        (check_list int_from_bytes now unspent con_list height timestamp)
        (check_condition_iff c.opcode c.vars) (check_list_iff con_list)

  -- The conditions of a coin pass exactly when none is of an opcode that is checked earlier and each
  -- that asks for a height or a time has a number as its first argument that the chain has come to,
  -- counted from the coin's own height and time for the relative ones.
  pub conditions_pass_iff :
      (conditions : Conditions)
      → (mempool_check_conditions_dict int_from_bytes now unspent conditions height timestamp
          ≡ ok none)
        ↔ AllHold conditions
  unfolding mempool_check_conditions_dict AllHold
  conditions_pass_iff [] = (λ _. tt, λ _. refl)
  conditions_pass_iff (con_list ∷ conditions) =
      passes_both (check_list int_from_bytes now unspent con_list height timestamp)
        (mempool_check_conditions_dict int_from_bytes now unspent conditions height timestamp)
        (check_list_iff con_list) (conditions_pass_iff conditions)

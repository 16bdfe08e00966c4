-- ===== src/FullNode/Manager/Accepted.antt =====
-- What `add_spendbundle` of chia/full_node/mempool_manager.py accepts.
use gold_blockchain.Base.{
  ℕ, ◌+◌, ◌≤◌, ◌≡◌, refl, sym, ap, ◌∙◌, ◌⊎◌, inl, inr, false, Option, none, some, List, [], ◌∷◌,
  map, arith, Bool-cases, All, ok,
}
use gold_blockchain.Base.Dict.{Dict, contains, lookup}
use gold_blockchain.Base.Floats.{true_div}
use gold_blockchain.Base.Int.{ℤ}
use gold_blockchain.Consensus.BlockRecord.{BlockRecord, Coin}
use gold_blockchain.FullNode.Conditions.{CoinRecord}
use gold_blockchain.FullNode.Conditions.Errors.{Err, mempool_conflict}
use gold_blockchain.FullNode.Items.{MempoolItem}
use gold_blockchain.FullNode.Npc.{Npc, NpcResult, SpendBundle}
use gold_blockchain.FullNode.Mempool.SortedDict.{SortedMap}
use gold_blockchain.FullNode.Mempool.Coins.{is_in, spent_names, IsConsistent}
use gold_blockchain.FullNode.Manager.{
  Manager, limit_cost, conflicts_among, check_removals, can_replace,
}
use gold_blockchain.FullNode.Manager.Steps.{call, Passes, Passes-skip, Passes-call, Passes-then}
use gold_blockchain.FullNode.Manager.Checks.{
  by_name, check_fee, verify_conditions, coins_of, conflicting_items, removal_records,
}
use gold_blockchain.FullNode.Manager.Validation.{
  Outputs, removal_names, check_bundle, check_amounts, resolve, check_conflicts, check_item,
  validate,
}
use gold_blockchain.FullNode.Manager.Amounts.{
  total, IsKnown, removal_records_lem, check_bundle_lem, check_amounts_lem,
}
use gold_blockchain.FullNode.Manager.Conflicts.{
  AreOf, Covers, conflicts_among_covers, conflicts_among-none, conflicts_among_unspent,
  conflicts_among_cases, conflicting_items_lem,
}

-- A coin that the store has unspent, or that the item itself creates.
abbrev pub IsSpendable : (Coin → ℕ) → (ℕ → Option CoinRecord) → List Coin → Coin → Type 0
IsSpendable coin_name get_coin_record additions coin =
    ((name : ℕ) × (r : CoinRecord) × (get_coin_record name ≡ some r)
      × (r.coin ≡ coin)
      × (r.spent ≡ false))
    ⊎ ((name : ℕ) × (lookup name (by_name coin_name additions []) ≡ some coin))

module _ {S : SortedMap (Dict MempoolItem)} (coin_name : Coin → ℕ)
    (int_from_bytes : List ℕ → Option ℤ) (m : Manager S)
    (consistent : IsConsistent coin_name m.mempool) where
  -- The items that the new one replaces are the pool's, and all that spend one of its coins.
  abbrev pub Replaces : Dict CoinRecord → Dict MempoolItem → Type 0
  Replaces records conflicting =
      All (λ (e : ℕ × CoinRecord). e.1.spent ≡ false) records
      × AreOf m.mempool conflicting
      × Covers m.mempool (λ c. is_in c (map coin_name (coins_of records))) conflicting

  nothing_covered :
      (records : Dict CoinRecord)
      → (conflicts_among coin_name m.mempool.removals [] records).0 ≡ none
      → Replaces records []
  nothing_covered records e = (
    conflicts_among_unspent coin_name m.mempool.removals [] records (λ x. cc),
    record { distinct = tt; held = λ k item at. cc },
    (λ c item spent at. absurd (
        ground (
          arith,
          e,
          spent,
          at,
          conflicts_among-none coin_name m.mempool.removals [] records,
          conflicts_among_covers coin_name m.mempool.removals c [] records,
        ))),
  )

  all_covered :
      (records : Dict CoinRecord) (conflicting : Dict MempoolItem)
      → (conflicts_among coin_name m.mempool.removals [] records).0 ≡ some mempool_conflict
      → AreOf m.mempool conflicting
      → Covers m.mempool
          (λ c. is_in c (map coin_name (conflicts_among coin_name m.mempool.removals [] records).1))
          conflicting
      → Replaces records conflicting
  all_covered records conflicting e of covers = (
    conflicts_among_unspent coin_name m.mempool.removals [] records (λ x. cc),
    of,
    (λ c item spent at.
        covers c item
          (ground
            (arith, e, spent, at, conflicts_among_covers coin_name m.mempool.removals c [] records))
          at),
  )

  removals_checked :
      (records : Dict CoinRecord) (found : Option Err × List Coin)
      → check_removals coin_name m records ≡ ok found
      → conflicts_among coin_name m.mempool.removals [] records ≡ (found.0, found.1)
  unfolding check_removals
  removals_checked records found asked = ground arith

  resolve-Replaces :
      (records : Dict CoinRecord) (item : MempoolItem) (fees_per_cost : ℕ)
      (fail_reason : Option Err) (conflicts : List Coin)
      → conflicts_among coin_name m.mempool.removals [] records ≡ (fail_reason, conflicts)
      → Passes
          (resolve coin_name int_from_bytes m records item fees_per_cost fail_reason conflicts)
          (Replaces records)
  unfolding resolve
  resolve-Replaces records item fees_per_cost fail_reason conflicts is =
      let first : (conflicts_among coin_name m.mempool.removals [] records).0 ≡ fail_reason =
        ap (λ r. r.0) is in
      let second : (conflicts_among coin_name m.mempool.removals [] records).1 ≡ conflicts =
        ap (λ r. r.1) is in
      elim (conflicts_among_cases coin_name m.mempool.removals [] records) [
        | inl none_there ↦ rw (sym first ∙ none_there) (nothing_covered records none_there)
        | inr (inl spent) ↦ rw (sym first ∙ spent) tt
        | inr (inr conflict) ↦ rw (sym first ∙ conflict) (
            Passes-then (conflicting_items coin_name m.mempool.removals [] conflicts) _ _ _
              (conflicting_items_lem coin_name m.mempool consistent [] conflicts
                (record { distinct = tt; held = λ k item at. cc }))
              (λ conflicting (of, still, covers).
                Passes-call (can_replace coin_name conflicting records item.fee fees_per_cost) _ _
                  (λ better asked. elim (Bool-cases better) [
                    | inl replaces ↦
                        rw replaces (all_covered records conflicting conflict of (rw second covers))
                    | inr waiting ↦ rw waiting tt
                  ])))
      ]

  pub check_conflicts-Replaces :
      (records : Dict CoinRecord) (item : MempoolItem) (fees_per_cost : ℕ)
      → Passes
          (check_conflicts coin_name int_from_bytes m records item fees_per_cost)
          (Replaces records)
  unfolding check_conflicts check_removals
  check_conflicts-Replaces records item fees_per_cost =
      Passes-call (check_removals coin_name m records) _ _ (λ found asked.
        resolve-Replaces records item fees_per_cost found.0 found.1
          (removals_checked records found asked))

  -- What the checks establish of an item and of those that it replaces.
  pub record IsAccepted (get_coin_record : ℕ → Option CoinRecord) (spend_name : ℕ)
      (item : MempoolItem) (conflicting : Dict MempoolItem) : Type 0 where
    pub named : item.spend_bundle_name ≡ spend_name
    pub new : lookup spend_name m.mempool.spends ≡ none
    pub of : AreOf m.mempool conflicting
    pub covers : Covers m.mempool (λ c. is_in c (spent_names coin_name item)) conflicting
    pub balanced : total item.additions + item.fee ≡ total item.removals
    pub within : item.cost ≤ limit_cost m.constants
    pub spendable : All (IsSpendable coin_name get_coin_record item.additions) item.removals

  IsSpendable-coins :
      (get_coin_record : ℕ → Option CoinRecord) (peak : BlockRecord) (additions : List Coin)
      (records : Dict CoinRecord)
      → All
          (λ (e : ℕ × CoinRecord).
            IsKnown get_coin_record peak (by_name coin_name additions []) e.0 e.1)
          records
      → All (λ (e : ℕ × CoinRecord). e.1.spent ≡ false) records
      → All (IsSpendable coin_name get_coin_record additions) (coins_of records)
  IsSpendable-coins get_coin_record peak additions [] known unspent = tt
  IsSpendable-coins get_coin_record peak additions ((name, r) ∷ records) (inl stored, known)
        (fresh, unspent) =
      (
        inl (name, r, stored, refl, fresh),
        IsSpendable-coins get_coin_record peak additions records known unspent,
      )
  IsSpendable-coins get_coin_record peak additions ((name, r) ∷ records) (inr made, known)
        (fresh, unspent) =
      (inr (name, made), IsSpendable-coins get_coin_record peak additions records known unspent)

  -- What remains to be shown of an item once its own sums are checked.
  check_item-passes :
      (now : ℕ) (peak : BlockRecord) (records : Dict CoinRecord) (npc_list : List Npc)
      (item : MempoolItem) (P : MempoolItem × Dict MempoolItem → Type 0)
      → ((conflicting : Dict MempoolItem) → Replaces records conflicting → P (item, conflicting))
      → Passes (check_item coin_name int_from_bytes m now peak records npc_list item) P
  unfolding check_item
  check_item-passes now peak records npc_list item P accept =
      Passes-skip (call (true_div item.fee item.cost)) _ P (λ fees_per_cost.
        Passes-skip (check_fee m.mempool item.cost fees_per_cost) _ P (λ _.
          Passes-then (check_conflicts coin_name int_from_bytes m records item fees_per_cost) _ _ P
            (check_conflicts-Replaces records item fees_per_cost)
            (λ conflicting replaces.
              Passes-skip (verify_conditions int_from_bytes now peak records item npc_list) _ P
                (λ _. accept conflicting replaces))))

  pub validate-IsAccepted :
      (quoted : SpendBundle → List ℕ) (now : ℕ) (get_coin_record : ℕ → Option CoinRecord)
      (new_spend : SpendBundle) (npc_result : NpcResult) (spend_name : ℕ)
      (program : Option (List ℕ))
      → Passes
          (validate coin_name int_from_bytes m quoted now get_coin_record new_spend npc_result
            spend_name program)
          (λ (item, conflicting). IsAccepted get_coin_record spend_name item conflicting)
  unfolding validate total
  validate-IsAccepted quoted now get_coin_record new_spend npc_result spend_name given_program =
      let item_of : ℕ → Dict CoinRecord → Outputs → MempoolItem = λ fees records outputs. record {
        spend_bundle = new_spend;
        fee = fees;
        npc_result = npc_result;
        cost = outputs.cost;
        spend_bundle_name = spend_name;
        additions = outputs.additions;
        removals = coins_of records;
        program = elim given_program [ none ↦ quoted new_spend | some p ↦ p ];
      } in
      let P : MempoolItem × Dict MempoolItem → Type 0 =
        λ (item, conflicting). IsAccepted get_coin_record spend_name item conflicting in
      Passes-skip _ _ P (λ peak.
        Passes-then (check_bundle coin_name int_from_bytes m.constants new_spend npc_result _) _ _ P
          (check_bundle_lem coin_name int_from_bytes m.constants new_spend npc_result _)
          (λ outputs (sums, within, apart).
            elim (Bool-cases (contains spend_name m.mempool.spends)) [
              | inl there ↦ rw there tt
              | inr absent ↦ rw absent (
                  Passes-then
                    (removal_records get_coin_record peak (by_name coin_name outputs.additions []) 0
                      [] (removal_names npc_result))
                    _ _ P
                    (removal_records_lem get_coin_record peak
                      (by_name coin_name outputs.additions []) 0 [] (removal_names npc_result) apart
                      (λ n among. refl) refl tt)
                    (λ (removal_amount, records) (amounts, known).
                      Passes-then
                        (check_amounts coin_name int_from_bytes npc_result.npc_list outputs.cost
                          outputs.addition_amount removal_amount)
                        _ _ P
                        (check_amounts_lem coin_name int_from_bytes npc_result.npc_list outputs.cost
                          outputs.addition_amount removal_amount)
                        (λ fees (paid, positive).
                          check_item-passes now peak records npc_result.npc_list
                            (item_of fees records outputs) P
                            (λ conflicting (unspent, of, covers). record {
                              named = refl;
                              new = ground (arith, absent);
                              of = of;
                              covers = covers;
                              balanced = omega (arith, sums, paid, amounts);
                              within = within;
                              spendable =
                                  IsSpendable-coins get_coin_record peak outputs.additions records
                                    known unspent;
                            }))))
            ]))

-- ===== src/FullNode/Manager/Amounts.antt =====
-- The amounts that `add_spendbundle` of chia/full_node/mempool_manager.py adds up.
use gold_blockchain.Base.{
  ℕ, ◌+◌, ◌-◌, ◌≤◌, ◌<◌, ◌≡◌, refl, ◌⊎◌, inl, inr, true, false, not, Option, none, some, List, [],
  ◌∷◌, ◌++◌, map, arith, ltb, ◌==◌, Option-cases, All, All-append, assertion_error, guard, or_raise,
}
use gold_blockchain.Base.Dict.{Dict, insert, lookup, lookup-insert, insert-append}
use gold_blockchain.Base.Int.{ℤ}
use gold_blockchain.Base.Ints.{uint32, uint64}
use gold_blockchain.Consensus.BlockRecord.{BlockRecord, Coin}
use gold_blockchain.Consensus.Constants.{ConsensusConstants}
use gold_blockchain.FullNode.Conditions.{CoinRecord}
use gold_blockchain.FullNode.Cost.{calculate_cost_of_program}
use gold_blockchain.FullNode.Npc.{Npc, NpcResult, SpendBundle, bundle_removals, additions_for_npc}
use gold_blockchain.FullNode.Mempool.Coins.{is_in}
use gold_blockchain.FullNode.Manager.{limit_cost}
use gold_blockchain.FullNode.Manager.Steps.{
  call, Passes, Passes-skip, Passes-refuse, Passes-call, Passes-then, Passes-map,
}
use gold_blockchain.FullNode.Manager.Checks.{
  coins_of, ephemeral_record, has_duplicates, same_elements, removal_records, removal_record,
  reserved_fees, sum_additions,
}
use gold_blockchain.FullNode.Manager.Validation.{
  Outputs, removal_names, check_bundle, check_amounts,
}

-- The sum of the amounts of coins.
unfoldable pub total : List Coin → ℕ
total [] = 0
total (coin ∷ coins) = coin.amount + total coins

total-append_one :
    (coins : List Coin) (coin : Coin) → total (coins ++ coin ∷ []) ≡ total coins + coin.amount
unfolding total
total-append_one [] coin = omega arith
total-append_one (c ∷ coins) coin = omega (arith, total-append_one coins coin)

coins_of-append_one :
    (records : Dict CoinRecord) (name : ℕ) (r : CoinRecord)
    → coins_of (records ++ (name, r) ∷ []) ≡ coins_of records ++ r.coin ∷ []
coins_of-append_one [] name r = refl
coins_of-append_one (e ∷ records) name r = ground (arith, coins_of-append_one records name r)

pub sum_additions_lem :
    (limit start : ℕ) (coins : List Coin)
    → Passes (sum_additions limit start coins) (λ sum. sum ≡ start + total coins)
unfolding sum_additions total
sum_additions_lem limit start [] = omega arith
sum_additions_lem limit start (coin ∷ coins) = Passes-refuse (ltb limit coin.amount) _ _ _ (λ fine.
    Passes-call (uint64 (start + coin.amount)) _ _ (λ sum added.
      Passes-map (sum_additions limit sum coins) _ _ (sum_additions_lem limit sum coins) (λ r is.
        let e : sum ≡ start + coin.amount = ground (arith, added) in omega (arith, is, e))))

module _ (get_coin_record : ℕ → Option CoinRecord) (peak : BlockRecord)
    (additions : Dict Coin) where
  -- A coin of the store, or one that the same transaction creates.
  abbrev pub IsKnown : ℕ → CoinRecord → Type 0
  IsKnown name r = (get_coin_record name ≡ some r) ⊎ (lookup name additions ≡ some r.coin)

  removal_record-IsKnown :
      (name : ℕ) → Passes (removal_record get_coin_record peak additions name) (IsKnown name)
  unfolding removal_record ephemeral_record
  removal_record-IsKnown name = elim (Option-cases (lookup name additions)) [
    | inl outside ↦ elim (Option-cases (get_coin_record name)) [
      | inl missing ↦ rw (outside, missing, removal_record) tt
      | inr (r, there) ↦ rw (outside, there, removal_record) (inl there)
    ]
    | inr (coin, made) ↦
        rw (made, removal_record)
          (Passes-skip (call (or_raise peak.timestamp assertion_error)) _ _ (λ timestamp.
            Passes-skip (call (uint32 (peak.height + 1))) _ _
              (λ height. Passes-skip (call (uint64 (timestamp + 1))) _ _ (λ timestamp'. inr made))))
  ]

  abbrev AreNew : Dict CoinRecord → List ℕ → Type 0
  AreNew records names = (n : ℕ) → is_in n names ≡ true → lookup n records ≡ none

  still_new :
      (records : Dict CoinRecord) (name : ℕ) (names : List ℕ) (r : CoinRecord)
      → has_duplicates (name ∷ names) ≡ false
      → AreNew records (name ∷ names)
      → AreNew (insert name r records) names
  still_new records name names r apart new n among =
      ground (arith, apart, among, new n, lookup-insert name n r records)

  -- The records are known, and their amounts add up.
  pub removal_records_lem :
      (amount : ℕ) (records : Dict CoinRecord) (names : List ℕ)
      → has_duplicates names ≡ false
      → AreNew records names
      → amount ≡ total (coins_of records)
      → All (λ (e : ℕ × CoinRecord). IsKnown e.0 e.1) records
      → Passes (removal_records get_coin_record peak additions amount records names) (λ (sum, out).
        (sum ≡ total (coins_of out)) × All (λ (e : ℕ × CoinRecord). IsKnown e.0 e.1) out)
  unfolding removal_records
  removal_records_lem amount records [] apart new sums known = (sums, known)
  removal_records_lem amount records (name ∷ names) apart new sums known =
      Passes-then (removal_record get_coin_record peak additions name) _ _ _
        (removal_record-IsKnown name)
        (λ r is_known.
          let grown : insert name r records ≡ records ++ (name, r) ∷ [] =
            insert-append name r records (new name (ground arith)) in
          Passes-call (uint64 (amount + r.coin.amount)) _ _ (λ sum added.
            removal_records_lem sum (insert name r records) names (ground (arith, apart))
              (still_new records name names r apart new)
              (rw grown (
                ground (
                  arith,
                  added,
                  sums,
                  coins_of-append_one records name r,
                  total-append_one (coins_of records) r.coin,
                )))
              (rw grown (All-append _ records ((name, r) ∷ []) known (is_known, tt)))))

-- What a bundle creates is counted and within the limit, and no coin is spent twice.
abbrev pub IsCounted : ConsensusConstants → NpcResult → Outputs → Type 0
IsCounted c npc_result outputs =
    (outputs.addition_amount ≡ total outputs.additions)
    × (outputs.cost ≤ limit_cost c)
    × (has_duplicates (removal_names npc_result) ≡ false)

abbrev pub IsPaid : ℕ → ℕ → ℕ → ℕ → Type 0
IsPaid cost addition_amount removal_amount fees =
    (addition_amount + fees ≡ removal_amount) × (0 < cost)

module _ (coin_name : Coin → ℕ) (int_from_bytes : List ℕ → Option ℤ) where
  pub check_bundle_lem :
      (c : ConsensusConstants) (new_spend : SpendBundle) (npc_result : NpcResult) (program : List ℕ)
      → Passes
          (check_bundle coin_name int_from_bytes c new_spend npc_result program)
          (IsCounted c npc_result)
  unfolding check_bundle
  check_bundle_lem c new_spend npc_result program =
      let Q = IsCounted c npc_result in
      Passes-skip (call (guard _ assertion_error)) _ Q (λ _.
        Passes-skip (call (calculate_cost_of_program program npc_result c.cost_per_byte)) _ Q
          (λ cost. Passes-refuse (ltb (limit_cost c) cost) _ _ Q (λ within.
            Passes-refuse
              (not (
                same_elements (removal_names npc_result)
                  (map coin_name (bundle_removals new_spend))))
              _ _ Q
              (λ same.
                Passes-skip (call (additions_for_npc int_from_bytes npc_result.npc_list)) _ Q
                  (λ additions.
                    Passes-then (sum_additions c.max_coin_amount 0 additions) _ _ Q
                      (sum_additions_lem c.max_coin_amount 0 additions)
                      (λ sum is.
                        Passes-refuse (has_duplicates (map coin_name additions)) _ _ Q (λ apart.
                          Passes-refuse (has_duplicates (removal_names npc_result)) _ _ Q (λ once.
                            let outputs : Outputs = record {
                              cost = cost;
                              additions = additions;
                              addition_amount = sum;
                            } in
                            let fine : IsCounted c npc_result outputs =
                              (omega (arith, is), ground (arith, within), once) in
                            fine))))))))

  pub check_amounts_lem :
      (npc_list : List Npc) (cost addition_amount removal_amount : ℕ)
      → Passes
          (check_amounts coin_name int_from_bytes npc_list cost addition_amount removal_amount)
          (IsPaid cost addition_amount removal_amount)
  unfolding check_amounts
  check_amounts_lem npc_list cost addition_amount removal_amount =
      let Q = IsPaid cost addition_amount removal_amount in
      Passes-refuse (ltb removal_amount addition_amount) _ _ Q (λ enough.
        Passes-call (uint64 (removal_amount - addition_amount)) _ Q (λ fees is.
          Passes-skip (reserved_fees int_from_bytes 0 npc_list) _ Q (λ reserved.
            Passes-refuse (ltb fees reserved) _ _ Q (λ covered.
              Passes-refuse (cost == 0) _ _ Q
                (λ some_cost. (ground (arith, enough, is), ground (arith, some_cost)))))))

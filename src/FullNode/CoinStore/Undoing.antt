-- ===== src/FullNode/CoinStore/Undoing.antt =====
-- What blocks above an index leave of the rows after a rollback.
use gold_blockchain.Base.{
  ℕ, ◌≡◌, refl, sym, ap, ◌∙◌, ◌⊎◌, inl, inr, Bool, true, false, not, none, some, List, [], ◌∷◌,
  ◌++◌, map, arith, ◌==◌, if◌then◌else◌, ==_iff, Bool-cases, Option-cases, All, ok,
}
use gold_blockchain.Base.Dict.{Dict, lookup, IsDict, lookup-append_fresh, append_fresh-IsDict}
use gold_blockchain.Base.Int.{ℤ}
use gold_blockchain.Consensus.BlockRecord.{Coin}
use gold_blockchain.FullNode.Conditions.{CoinRecord}
use gold_blockchain.FullNode.CoinStore.{
  mark_spent, mark_unspent, new_record, update_spent, update_all_spent, above, not_confirmed_above,
  reset_spent, reset_all_spent, insert_rows,
}
use gold_blockchain.FullNode.CoinStore.Rows.{lookup-update_spent, update_spent-IsDict, rolled_back}
use gold_blockchain.FullNode.CoinStore.Coherent.{insert_rows_fresh, insert_rows_known}

abbrev pub IsUnspent : CoinRecord → Type 0
IsUnspent r = (r.spent ≡ false) × (r.spent_block_index ≡ 0)

module _ (i : ℤ) where
  -- A record whose spending above the index leaves no trace in a rollback.
  abbrev pub IsFree : CoinRecord → Type 0
  IsFree r =
      (above i r.confirmed_block_index ≡ true) ⊎ (above i r.spent_block_index ≡ true) ⊎ IsUnspent r

  unspent_same : (r : CoinRecord) → IsUnspent r → reset_spent i r ≡ mark_unspent r
  unspent_same r free = ground arith

  reset-mark_spent :
      (index : ℕ) (r : CoinRecord)
      → above i index ≡ true
      → (above i r.spent_block_index ≡ true) ⊎ IsUnspent r
      → reset_spent i (mark_spent index r) ≡ reset_spent i r
  reset-mark_spent index r later (inl spent) = rw (later, spent) refl
  reset-mark_spent index r later (inr free) = rw later (sym (unspent_same r free))

  update_spent-missing :
      (index name : ℕ) (rows : Dict CoinRecord)
      → lookup name rows ≡ none
      → update_spent index name rows ≡ rows
  update_spent-missing index name [] e = refl
  update_spent-missing index name ((k, r) ∷ rows) e =
      ground (arith, update_spent-missing index name rows)

  -- One row, and the rows after it.
  unfoldable pub roll_row : ℕ → CoinRecord → Dict CoinRecord → Dict CoinRecord
  roll_row k r rolled =
      if above i r.confirmed_block_index then rolled else (k, reset_spent i r) ∷ rolled

  pub rolled_back_row :
      (k : ℕ) (r : CoinRecord) (rows : Dict CoinRecord)
      → rolled_back i ((k, r) ∷ rows) ≡ roll_row k r (rolled_back i rows)
  unfolding roll_row
  rolled_back_row k r rows = elim (Bool-cases (above i r.confirmed_block_index)) [
    | inl gone ↦ rw gone (
        ap
          (λ (b : Bool). reset_all_spent i (elim (not b) [
            | true ↦ (k, r) ∷ not_confirmed_above i rows
            | false ↦ not_confirmed_above i rows
          ]))
          gone)
    | inr stays ↦ rw stays (
        ap
          (λ (b : Bool). reset_all_spent i (elim (not b) [
            | true ↦ (k, r) ∷ not_confirmed_above i rows
            | false ↦ not_confirmed_above i rows
          ]))
          stays)
  ]

  roll_row-mark_spent :
      (index k : ℕ) (r : CoinRecord) (rolled : Dict CoinRecord)
      → above i index ≡ true
      → IsFree r
      → roll_row k (mark_spent index r) rolled ≡ roll_row k r rolled
  unfolding roll_row
  roll_row-mark_spent index k r rolled later (inl gone) = rw gone refl
  roll_row-mark_spent index k r rolled later (inr free) =
      ap (λ (s : CoinRecord). if above i r.confirmed_block_index then rolled else (k, s) ∷ rolled)
        (reset-mark_spent index r later free)

  rolled_back-update_spent :
      (index name : ℕ) (rows : Dict CoinRecord)
      → above i index ≡ true
      → IsDict rows
      → ((r : CoinRecord) → lookup name rows ≡ some r → IsFree r)
      → rolled_back i (update_spent index name rows) ≡ rolled_back i rows
  rolled_back-update_spent index name [] later distinct free = refl
  rolled_back-update_spent index name ((k, r) ∷ rows) later distinct free =
      elim (Bool-cases (k == name)) [
        | inl same ↦
            let gone : lookup name rows ≡ none = rw (← (==_iff k name).0 same) (distinct.0) in
            let at : (name == k) ≡ true = ground (arith, same) in
            rw (same, update_spent-missing index name rows gone)
              (rolled_back_row k (mark_spent index r) rows
                ∙ roll_row-mark_spent index k r (rolled_back i rows) later (free r (rw at refl))
                ∙ sym (rolled_back_row k r rows))
        | inr differ ↦
            let at : (name == k) ≡ false = ground (arith, differ) in
            rw differ (
              rolled_back_row k r (update_spent index name rows)
              ∙ ap (roll_row k r) (
                  rolled_back-update_spent index name rows later (distinct.1)
                    (λ s e. free s (rw at e)))
              ∙ sym (rolled_back_row k r rows))
      ]

  -- Spending keeps every record free.
  update_spent-IsFree :
      (index name : ℕ) (rows : Dict CoinRecord)
      → above i index ≡ true
      → (j : ℕ) → ((r : CoinRecord) → lookup j rows ≡ some r → IsFree r)
      → (r : CoinRecord) → lookup j (update_spent index name rows) ≡ some r
      → IsFree r
  update_spent-IsFree index name rows later j free r e = elim (Option-cases (lookup j rows)) [
    | inl missing ↦ absurd (ground (arith, lookup-update_spent index name j rows, e, missing))
    | inr (s, found) ↦ elim (Bool-cases (j == name)) [
      | inl same ↦
          let is : mark_spent index s ≡ r =
            ground (arith, lookup-update_spent index name j rows, e, found, same) in
          rw (← is) (inr (inl later))
      | inr differ ↦
          let is : s ≡ r =
            ground (arith, lookup-update_spent index name j rows, e, found, differ) in
          rw (← is) (free s found)
    ]
  ]

  abbrev pub AreFree : List ℕ → Dict CoinRecord → Type 0
  AreFree names rows = All (λ name. (r : CoinRecord) → lookup name rows ≡ some r → IsFree r) names

  update_spent-AreFree :
      (index name : ℕ) (names : List ℕ) (rows : Dict CoinRecord)
      → above i index ≡ true
      → AreFree names rows
      → AreFree names (update_spent index name rows)
  update_spent-AreFree index name [] rows later free = tt
  update_spent-AreFree index name (j ∷ names) rows later free = (
    update_spent-IsFree index name rows later j (free.0),
    update_spent-AreFree index name names rows later (free.1),
  )

  pub rolled_back-update_all_spent :
      (index : ℕ) (names : List ℕ) (rows : Dict CoinRecord)
      → above i index ≡ true
      → IsDict rows
      → AreFree names rows
      → rolled_back i (update_all_spent index names rows) ≡ rolled_back i rows
  rolled_back-update_all_spent index [] rows later distinct free = refl
  rolled_back-update_all_spent index (name ∷ names) rows later distinct free =
      rolled_back-update_all_spent index names (update_spent index name rows) later
        (update_spent-IsDict index name rows distinct)
        (update_spent-AreFree index name names rows later (free.1))
      ∙ rolled_back-update_spent index name rows later distinct (free.0)

  rolled_back-append :
      (k : ℕ) (r : CoinRecord) (rows : Dict CoinRecord)
      → above i r.confirmed_block_index ≡ true
      → rolled_back i (rows ++ (k, r) ∷ []) ≡ rolled_back i rows
  unfolding roll_row
  rolled_back-append k r [] later = rolled_back_row k r [] ∙ rw later refl
  rolled_back-append k r ((j, s) ∷ rows) later =
      rolled_back_row j s (rows ++ (k, r) ∷ [])
      ∙ ap (roll_row j s) (rolled_back-append k r rows later)
      ∙ sym (rolled_back_row j s rows)

  -- Rows of coins that are created above the index.
  abbrev pub AreLater : List CoinRecord → Type 0
  AreLater records = All (λ r. above i r.confirmed_block_index ≡ true) records

  pub created-AreLater :
      (height timestamp : ℕ) (coinbase : Bool) (coins : List Coin)
      → above i height ≡ true
      → AreLater (map (new_record height timestamp coinbase) coins)
  created-AreLater height timestamp coinbase [] later = tt
  created-AreLater height timestamp coinbase (coin ∷ coins) later =
      (later, created-AreLater height timestamp coinbase coins later)

  module _ (coin_name : Coin → ℕ) where
    insert_none :
        (rows rows' : Dict CoinRecord) → insert_rows coin_name [] rows ≡ ok rows' → rows ≡ rows'
    unfolding insert_rows
    insert_none rows rows' e = cc

    pub insert_rows_lem :
        (records : List CoinRecord) (rows rows' : Dict CoinRecord)
        → AreLater records
        → insert_rows coin_name records rows ≡ ok rows'
        → (rolled_back i rows' ≡ rolled_back i rows)
          × ((name : ℕ)
              → ((r : CoinRecord) → lookup name rows ≡ some r → IsFree r)
              → (r : CoinRecord) → lookup name rows' ≡ some r
              → IsFree r)
          × (IsDict rows → IsDict rows')
    insert_rows_lem [] rows rows' later e =
        let same : rows ≡ rows' = insert_none rows rows' e in
        rw (← same) (refl, (λ name free. free), (λ d. d))
    insert_rows_lem (r ∷ records) rows rows' later e =
        elim (Option-cases (lookup (coin_name r.coin) rows)) [
          | inr (old, there) ↦
              absurd (ground (arith, e, insert_rows_known coin_name r old records rows there))
          | inl fresh ↦
              let more = rows ++ (coin_name r.coin, r) ∷ [] in
              let (same, free, distinct) =
                insert_rows_lem records more rows' (later.1)
                  (sym (insert_rows_fresh coin_name r records rows fresh) ∙ e) in
              (
                same ∙ rolled_back-append (coin_name r.coin) r rows (later.0),
                (λ name was. free name (λ s found. elim (Bool-cases (name == coin_name r.coin)) [
                  | inl here ↦
                      let is : r ≡ s = ground (
                        arith,
                        lookup-append_fresh name (coin_name r.coin) r rows fresh,
                        found,
                        here,
                      ) in
                      rw (← is) (inl (later.0))
                  | inr differ ↦ was s (
                      ground (
                        arith,
                        lookup-append_fresh name (coin_name r.coin) r rows fresh,
                        found,
                        differ,
                      ))
                ])),
                (λ d. distinct (append_fresh-IsDict (coin_name r.coin) r rows d fresh)),
              )
        ]

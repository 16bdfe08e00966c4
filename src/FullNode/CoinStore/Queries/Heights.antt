-- ===== src/FullNode/CoinStore/Queries/Heights.antt =====
-- Which coins the queries by height find after a block.
use gold_blockchain.Base.{
  ℕ, ◌≡◌, refl, sym, ap, ◌∙◌, ◌≢◌, inl, inr, Bool, true, false, List, [], ◌∷◌, ◌++◌, map, arith,
  ◌==◌, if◌then◌else◌, ==_refl, Bool-cases, Option-cases, keep, All, All-append, ok,
}
use mathlib.Core.List.{append-nil, append_assoc}
use gold_blockchain.Base.Dict.{Dict, lookup}
use gold_blockchain.Consensus.BlockRecord.{Coin}
use gold_blockchain.FullNode.Conditions.{CoinRecord}
use gold_blockchain.FullNode.CoinStore.{
  CoinStore, values, mark_spent, new_record, update_spent, update_all_spent, insert_rows, new_block,
}
use gold_blockchain.FullNode.CoinStore.Coherent.{
  insert_rows_fresh, insert_rows_known, created, new_block_parts,
}
use gold_blockchain.FullNode.CoinStore.Queries.{
  select, one_of, get_coins_added_at_height, get_coins_removed_at_height,
}

-- Nothing of the table is of this height.
abbrev pub IsNewHeight : ℕ → Dict CoinRecord → Type 0
IsNewHeight height rows =
    All
      (λ row.
        ((row.1.confirmed_block_index == height) ≡ false)
        × ((row.1.spent_block_index == height) ≡ false))
      rows

abbrev coins : Dict CoinRecord → List Coin
coins rows = map (λ (row : ℕ × CoinRecord). row.1.coin) rows

abbrev pub coins_of : List CoinRecord → List Coin
coins_of records = map (λ (r : CoinRecord). r.coin) records

coins_of-values : (rows : Dict CoinRecord) → coins_of (values rows) ≡ coins rows
coins_of-values [] = refl
coins_of-values ((k, r) ∷ rows) = ap (◌∷◌ r.coin) (coins_of-values rows)

-- The rows that a block creates.
abbrev added_rows : ℕ → Dict CoinRecord → Dict CoinRecord
added_rows height rows = keep (λ row. row.1.confirmed_block_index == height) rows

added_rows-update_spent :
    (height index name : ℕ) (rows : Dict CoinRecord)
    → coins (added_rows height (update_spent index name rows)) ≡ coins (added_rows height rows)
added_rows-update_spent height index name [] = refl
added_rows-update_spent height index name ((k, r) ∷ rows) =
    ground (arith, added_rows-update_spent height index name rows)

added_rows-update_all_spent :
    (height index : ℕ) (names : List ℕ) (rows : Dict CoinRecord)
    → coins (added_rows height (update_all_spent index names rows)) ≡ coins (added_rows height rows)
added_rows-update_all_spent height index [] rows = refl
added_rows-update_all_spent height index (name ∷ names) rows =
    added_rows-update_all_spent height index names (update_spent index name rows)
    ∙ added_rows-update_spent height index name rows

added_rows-new :
    (height : ℕ) (rows : Dict CoinRecord) → IsNewHeight height rows → added_rows height rows ≡ []
added_rows-new height [] new = refl
added_rows-new height ((k, r) ∷ rows) new = ground (arith, added_rows-new height rows (new.1))

added_rows-append :
    (height k : ℕ) (r : CoinRecord) (rows : Dict CoinRecord)
    → r.confirmed_block_index ≡ height
    → coins (added_rows height (rows ++ (k, r) ∷ []))
      ≡ coins (added_rows height rows) ++ r.coin ∷ []
added_rows-append height k r [] e = ground (arith, e)
added_rows-append height k r ((j, s) ∷ rows) e = ground (arith, added_rows-append height k r rows e)

abbrev AreOf : ℕ → List CoinRecord → Type 0
AreOf height records =
    All (λ r. (r.confirmed_block_index ≡ height) × (r.spent_block_index ≡ 0)) records

-- Rows that no block has spent at the height.
abbrev AreNotSpentAt : ℕ → Dict CoinRecord → Type 0
AreNotSpentAt height rows = All (λ row. (row.1.spent_block_index == height) ≡ false) rows

not_spent_append :
    (height k : ℕ) (r : CoinRecord) (rows : Dict CoinRecord)
    → AreNotSpentAt height rows
    → (r.spent_block_index == height) ≡ false
    → AreNotSpentAt height (rows ++ (k, r) ∷ [])
not_spent_append height k r rows spent e =
    All-append (λ row. (row.1.spent_block_index == height) ≡ false) rows ((k, r) ∷ []) spent (e, tt)

of_new_height :
    (height : ℕ) (rows : Dict CoinRecord) → IsNewHeight height rows → AreNotSpentAt height rows
of_new_height height [] new = tt
of_new_height height (row ∷ rows) new = (new.0.1, of_new_height height rows (new.1))

created-AreOf :
    (height timestamp : ℕ) (coinbase : Bool) (cs : List Coin)
    → AreOf height (map (new_record height timestamp coinbase) cs)
created-AreOf height timestamp coinbase [] = tt
created-AreOf height timestamp coinbase (coin ∷ cs) =
    ((refl, refl), created-AreOf height timestamp coinbase cs)

mark_twice :
    (b : Bool) (index : ℕ) (r : CoinRecord)
    → (if b then mark_spent index (mark_spent index r) else mark_spent index r) ≡ mark_spent index r
mark_twice true index r = refl
mark_twice false index r = refl

-- The rows that a block spends.
update_all_spent-cons :
    (index : ℕ) (names : List ℕ) (k : ℕ) (r : CoinRecord) (rows : Dict CoinRecord)
    → update_all_spent index names ((k, r) ∷ rows)
      ≡ (k, (if one_of names k then mark_spent index r else r)) ∷ update_all_spent index names rows
update_all_spent-cons index [] k r rows = refl
update_all_spent-cons index (name ∷ names) k r rows = elim (Bool-cases (k == name)) [
  | inl same ↦ rw same (
      update_all_spent-cons index names k (mark_spent index r) (update_spent index name rows)
      ∙ ap
          (λ (s : CoinRecord). (k, s) ∷ update_all_spent index names (update_spent index name rows))
          (mark_twice (one_of names k) index r))
  | inr differ ↦ rw differ (update_all_spent-cons index names k r (update_spent index name rows))
]

abbrev marked : ℕ → List ℕ → Dict CoinRecord → Dict CoinRecord
marked index names [] = []
marked index names ((k, r) ∷ rows) =
    (k, (if one_of names k then mark_spent index r else r)) ∷ marked index names rows

update_all_spent-nil : (index : ℕ) (names : List ℕ) → update_all_spent index names [] ≡ []
update_all_spent-nil index [] = refl
update_all_spent-nil index (name ∷ names) = update_all_spent-nil index names

update_all_spent-marked :
    (index : ℕ) (names : List ℕ) (rows : Dict CoinRecord)
    → update_all_spent index names rows ≡ marked index names rows
update_all_spent-marked index names [] = update_all_spent-nil index names
update_all_spent-marked index names ((k, r) ∷ rows) =
    update_all_spent-cons index names k r rows
    ∙ ap (◌∷◌ (k, (if one_of names k then mark_spent index r else r)))
        (update_all_spent-marked index names rows)

-- The rows that were spent at the height are those of the names.
removed_rows :
    (height : ℕ) (names : List ℕ) (rows : Dict CoinRecord)
    → AreNotSpentAt height rows
    → keep
        (λ (r : CoinRecord). r.spent)
        (values (keep (λ row. row.1.spent_block_index == height) (marked height names rows)))
      ≡ values (keep (λ row. one_of names row.0) (marked height names rows))
removed_rows height names [] fresh = refl
removed_rows height names ((k, r) ∷ rows) fresh = elim (Bool-cases (one_of names k)) [
  | inl spends ↦
      rw spends (ground (arith, removed_rows height names rows (fresh.1), ==_refl height))
  | inr other ↦ rw other (ground (arith, removed_rows height names rows (fresh.1), fresh.0))
]

module _ (coin_name : Coin → ℕ) where
  insert_rows-added :
      (height : ℕ) (records : List CoinRecord) (rows rows' : Dict CoinRecord)
      → AreOf height records
      → (0 == height) ≡ false
      → AreNotSpentAt height rows
      → insert_rows coin_name records rows ≡ ok rows'
      → (coins (added_rows height rows') ≡ coins (added_rows height rows) ++ coins_of records)
        × AreNotSpentAt height rows'
  unfolding insert_rows
  insert_rows-added height [] rows rows' of later fresh e =
      let same : rows ≡ rows' = cc in
      rw (← same) (sym (append-nil (coins (added_rows height rows))), fresh)
  insert_rows-added height (r ∷ records) rows rows' of later fresh e =
      elim (Option-cases (lookup (coin_name r.coin) rows)) [
        | inr (old, there) ↦
            absurd (ground (arith, e, insert_rows_known coin_name r old records rows there))
        | inl new ↦
            let more = rows ++ (coin_name r.coin, r) ∷ [] in
            let (is, fresh') =
              insert_rows-added height records more rows' (of.1) later
                (not_spent_append height (coin_name r.coin) r rows fresh (rw (of.0.1) later))
                (sym (insert_rows_fresh coin_name r records rows new) ∙ e) in
            (
              is
                  ∙ ap (λ (cs : List Coin). cs ++ coins_of records)
                      (added_rows-append height (coin_name r.coin) r rows (of.0.0))
                  ∙ append_assoc (coins (added_rows height rows)) (r.coin ∷ []) (coins_of records),
              fresh',
            )
      ]

  -- After a block of a height that is new to the table and is not 0: `get_coins_added_at_height`
  -- finds the coins that the block adds, with its rewards last, and `get_coins_removed_at_height`
  -- the coins of the table that its removals name.
  pub coins_at_height_lem :
      (height timestamp : ℕ) (rewards additions : List Coin) (removals : List ℕ) (store : CoinStore)
      {store' : CoinStore} {added : List CoinRecord}
      → IsNewHeight height store.coin_record_db
      → height ≢ 0
      → new_block coin_name height timestamp rewards additions removals store ≡ ok (store', added)
      → (coins_of (get_coins_added_at_height height store')
          ≡ coins_of (created height timestamp rewards additions))
        × (get_coins_removed_at_height height store'
            ≡ select (λ name r. one_of removals name) store')
  unfolding get_coins_added_at_height get_coins_removed_at_height
  coins_at_height_lem height timestamp rewards additions removals store {store'} {added} new
        positive e =
      let (rows, put_in, is) =
        new_block_parts coin_name height timestamp rewards additions removals store
          {store' = store'} {added = added} e in
      let records = created height timestamp rewards additions in
      let later : (0 == height) ≡ false = ground (arith, positive) in
      let later' : (height == 0) ≡ false = ground (arith, positive) in
      let of =
        All-append
          (λ (r : CoinRecord). (r.confirmed_block_index ≡ height) × (r.spent_block_index ≡ 0))
          (map (new_record height timestamp false) additions)
          (map (new_record height timestamp true) rewards)
          (created-AreOf height timestamp false additions)
          (created-AreOf height timestamp true rewards) in
      let (grown, fresh) =
        insert_rows-added height records store.coin_record_db rows of later
          (of_new_height height store.coin_record_db new) put_in in
      let marks = update_all_spent-marked height removals rows in
      rw is (
        (coins_of-values (added_rows height (update_all_spent height removals rows))
            ∙ added_rows-update_all_spent height height removals rows
            ∙ grown
            ∙ ap (λ (old : Dict CoinRecord). coins old ++ coins_of records)
                (added_rows-new height store.coin_record_db new)),
        rw (later', marks) (removed_rows height removals rows fresh),
      )

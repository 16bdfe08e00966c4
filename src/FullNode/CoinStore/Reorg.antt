-- ===== src/FullNode/CoinStore/Reorg.antt =====
-- That a rollback undoes blocks.
use gold_blockchain.Base.{
  ℕ, ◌≡◌, refl, ap, ◌∙◌, inr, true, false, some, List, [], ◌∷◌, map, All, All-append, ok,
}
use gold_blockchain.Base.Dict.{Dict, lookup}
use gold_blockchain.Base.Int.{ℤ}
use gold_blockchain.Consensus.BlockRecord.{Coin}
use gold_blockchain.FullNode.Conditions.{CoinRecord}
use gold_blockchain.FullNode.CoinStore.{
  CoinStore, new_record, update_all_spent, above, new_block, get_coin_record, rollback_to_block,
}
use gold_blockchain.FullNode.CoinStore.Rows.{rolled_back}
use gold_blockchain.FullNode.CoinStore.Coherent.{
  IsCoherent, created, new_block_parts, new_block-IsCoherent,
}
use gold_blockchain.FullNode.CoinStore.Reading.{get_coin_record-IsCoherent}
use gold_blockchain.FullNode.CoinStore.Cached.{rollback-IsCoherent}
use gold_blockchain.FullNode.CoinStore.Undoing.{
  IsUnspent, IsFree, AreFree, roll_row, rolled_back_row, rolled_back-update_all_spent,
  created-AreLater, insert_rows_lem,
}

module _ (i : ℤ) where
  module _ (coin_name : Coin → ℕ) where
    -- The coins that a block spends are unspent before it, where they are there.
    abbrev pub SpendsUnspent : List ℕ → Dict CoinRecord → Type 0
    SpendsUnspent names rows =
        All (λ name. (r : CoinRecord) → lookup name rows ≡ some r → IsUnspent r) names

    spends-AreFree :
        (names : List ℕ) (rows rows' : Dict CoinRecord)
        → SpendsUnspent names rows
        → ((name : ℕ)
            → ((r : CoinRecord) → lookup name rows ≡ some r → IsFree i r)
            → (r : CoinRecord) → lookup name rows' ≡ some r
            → IsFree i r)
        → AreFree i names rows'
    spends-AreFree [] rows rows' unspent free = tt
    spends-AreFree (name ∷ names) rows rows' unspent free = (
      free name (λ r e. inr (inr ((unspent.0) r e))),
      spends-AreFree names rows rows' (unspent.1) free,
    )

    block_undone :
        (height timestamp : ℕ) (rewards additions : List Coin) (removals : List ℕ)
        (store : CoinStore) {store' : CoinStore} {added : List CoinRecord}
        → above i height ≡ true
        → IsCoherent coin_name store
        → SpendsUnspent removals store.coin_record_db
        → new_block coin_name height timestamp rewards additions removals store ≡ ok (store', added)
        → rolled_back i store'.coin_record_db ≡ rolled_back i store.coin_record_db
    block_undone height timestamp rewards additions removals store {store'} {added} later a unspent
          e =
        let (rows, put_in, is) =
          new_block_parts coin_name height timestamp rewards additions removals store
            {store' = store'} {added = added} e in
        let (same, free, distinct) =
          insert_rows_lem i coin_name (created height timestamp rewards additions)
            store.coin_record_db rows
            (All-append (λ (r : CoinRecord). above i r.confirmed_block_index ≡ true)
              (map (new_record height timestamp false) additions)
              (map (new_record height timestamp true) rewards)
              (created-AreLater i height timestamp false additions later)
              (created-AreLater i height timestamp true rewards later))
            put_in in
        let db : store'.coin_record_db ≡ update_all_spent height removals rows =
          ap (λ (t : CoinStore). t.coin_record_db) is in
        ap (rolled_back i) db
        ∙ rolled_back-update_all_spent i height removals rows later (distinct a.distinct)
            (spends-AreFree removals store.coin_record_db rows unspent free)
        ∙ same

    -- What a store is after blocks above the index, each of which spends coins that are unspent, and
    -- after readings.
    pub data Follows (from : CoinStore) : CoinStore → Type 0 where
      here : Follows from from
      block :
          (s s' : CoinStore) (height timestamp : ℕ) (rewards additions : List Coin)
          (removals : List ℕ) (added : List CoinRecord)
          → Follows from s
          → above i height ≡ true
          → SpendsUnspent removals s.coin_record_db
          → new_block coin_name height timestamp rewards additions removals s ≡ ok (s', added)
          → Follows from s'
      read :
          (s s' : CoinStore) (name : ℕ)
          → Follows from s
          → s' ≡ (get_coin_record coin_name name s).1
          → Follows from s'

    Follows-undone :
        (s s' : CoinStore)
        → IsCoherent coin_name s
        → Follows s s'
        → IsCoherent coin_name s'
          × (rolled_back i s'.coin_record_db ≡ rolled_back i s.coin_record_db)
    Follows-undone s s' a here = (a, refl)
    Follows-undone s s' a
          (block t _ height timestamp rewards additions removals added f later unspent e) =
        let (b, same) = Follows-undone s t a f in
        (
          new_block-IsCoherent coin_name height timestamp rewards additions removals t {store' = s'}
              {added = added} b e,
          block_undone height timestamp rewards additions removals t {store' = s'} {added = added}
                later b unspent e
              ∙ same,
        )
    Follows-undone s s' a (read t _ name f is) =
        let (b, same) = Follows-undone s t a f in
        let (value, db, c) = get_coin_record-IsCoherent coin_name name t b in
        (rw is c, rw is (ap (rolled_back i) db ∙ same))

    -- Nothing in the table happened above the index.
    abbrev pub IsAt : Dict CoinRecord → Type 0
    IsAt rows =
        All
          (λ row.
            (above i row.1.confirmed_block_index ≡ false)
            × (above i row.1.spent_block_index ≡ false))
          rows

    rolled_back-IsAt : (rows : Dict CoinRecord) → IsAt rows → rolled_back i rows ≡ rows
    unfolding roll_row
    rolled_back-IsAt [] at = refl
    rolled_back-IsAt ((k, r) ∷ rows) at =
        rolled_back_row i k r rows
        ∙ rw (at.0.0, at.0.1) (ap (◌∷◌ (k, r)) (rolled_back-IsAt rows (at.1)))

    -- A reorganisation: from a store in good order whose rows are at most at a block index, any blocks
    -- above it are added, each spending coins that are unspent, with readings in between. Then
    -- `rollback_to_block` succeeds, and the table is exactly as it was, with a cache that agrees.
    pub rollback_undoes_blocks :
        (s s' : CoinStore)
        → IsCoherent coin_name s
        → IsAt s.coin_record_db
        → Follows s s'
        → (s'' : CoinStore) × (changed : List CoinRecord) × (rollback_to_block coin_name i s'
            ≡ ok (s'', changed))
          × (s''.coin_record_db ≡ s.coin_record_db)
          × IsCoherent coin_name s''
    rollback_undoes_blocks s s' a at f =
        let (b, same) = Follows-undone s s' a f in
        let (s'', changed, run, db, c) = rollback-IsCoherent coin_name i s' b in
        (s'', changed, run, db ∙ same ∙ rolled_back-IsAt s.coin_record_db at, c)

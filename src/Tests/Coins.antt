-- ===== src/Tests/Coins.antt =====
-- Runs of the coin store, and instances of its theorems.
use gold_blockchain.Base.{
  ℕ, ◌≡◌, refl, Bool, true, false, none, some, List, [], ◌∷◌, map, arith, if◌then◌else◌,
  assertion_error, Result, ok, err,
}
use gold_blockchain.Base.Dict.{Dict, lookup, IsDict}
use gold_blockchain.Base.Int.{pos}
use gold_blockchain.Consensus.BlockRecord.{Coin}
use gold_blockchain.FullNode.Conditions.{CoinRecord}
use gold_blockchain.Util.LruCache.{new_lru_cache, move_to_end, get, put, remove}
use gold_blockchain.FullNode.CoinStore.{
  CoinStore, create, above, values, insert_rows, put_records, add_coin_records, set_spent_cached,
  set_all_spent_cached, set_spent, new_block, get_coin_record, renew_cached, delete_cached,
  deleted_changes, unspent_changes, rollback_to_block,
}
use gold_blockchain.FullNode.CoinStore.Rows.{and_then}
use gold_blockchain.FullNode.CoinStore.Coherent.{IsCoherent, created}
use gold_blockchain.FullNode.CoinStore.Queries.{
  select, one_of, get_coins_added_at_height, get_coins_removed_at_height,
}
use gold_blockchain.FullNode.CoinStore.Queries.Heights.{coins_of, coins_at_height_lem}
use gold_blockchain.FullNode.CoinStore.Reorg.{Follows, here, block, rollback_undoes_blocks}
use gold_blockchain.FullNode.CoinStore.Life.{
  Reached, creates, adds, Reached-IsCoherent, as_deleted, get_coin_record-reads_table,
  rollback_report_lem,
}

abbrev coin : ℕ → Coin
coin n = record { parent_coin_info = n; puzzle_hash = 7; amount = n }

abbrev name_of : Coin → ℕ
name_of c = c.parent_coin_info

-- Two blocks; the second spends a coin of the first. The cache holds three records.
abbrev after_first : Result (CoinStore × List CoinRecord)
after_first = new_block name_of 1 100 (coin 1 ∷ coin 2 ∷ []) (coin 3 ∷ []) [] (create 3)

abbrev record_of : ℕ → ℕ → ℕ → Bool → Bool → ℕ → CoinRecord
record_of n confirmed spent_index spent coinbase timestamp = record {
  coin = coin n;
  confirmed_block_index = confirmed;
  spent_block_index = spent_index;
  spent = spent;
  coinbase = coinbase;
  timestamp = timestamp;
}

abbrev first_rows : Dict CoinRecord
first_rows =
    (3, record_of 3 1 0 false false 100)
    ∷ (1, record_of 1 1 0 false true 100)
    ∷ (2, record_of 2 1 0 false true 100)
    ∷ []

abbrev first : CoinStore
first = record {
  coin_record_db = first_rows;
  coin_record_cache = record { cache = first_rows; capacity = 3 };
}

abbrev second_rows : Dict CoinRecord
second_rows =
    (3, record_of 3 1 2 true false 100)
    ∷ (1, record_of 1 1 0 false true 100)
    ∷ (2, record_of 2 1 0 false true 100)
    ∷ (6, record_of 6 2 0 false false 120)
    ∷ (4, record_of 4 2 0 false true 120)
    ∷ (5, record_of 5 2 0 false true 120)
    ∷ []

abbrev second_cached : Dict CoinRecord
second_cached =
    (6, record_of 6 2 0 false false 120)
    ∷ (4, record_of 4 2 0 false true 120)
    ∷ (5, record_of 5 2 0 false true 120)
    ∷ []

abbrev second : CoinStore
second = record {
  coin_record_db = second_rows;
  coin_record_cache = record { cache = second_cached; capacity = 3 };
}

abbrev second_added : List CoinRecord
second_added = values second_cached

first_lem : after_first ≡ ok (first, values first_rows)
unfolding new_block add_coin_records insert_rows put_records set_spent set_all_spent_cached create
    new_lru_cache put move_to_end
first_lem = refl

second_lem :
    new_block name_of 2 120 (coin 4 ∷ coin 5 ∷ []) (coin 6 ∷ []) (3 ∷ []) first
    ≡ ok (second, second_added)
unfolding new_block add_coin_records insert_rows put_records set_spent set_all_spent_cached
    set_spent_cached create get put move_to_end
second_lem = refl

-- The coin 3 is unspent again, and is not reported.
rolled_lem :
    rollback_to_block name_of (pos 1) second
    ≡ ok (
      record {
        coin_record_db = first_rows;
        coin_record_cache = record { cache = []; capacity = 3 };
      },
      map as_deleted second_added,
    )
unfolding rollback_to_block renew_cached delete_cached remove deleted_changes unspent_changes
rolled_lem = refl

no_rewards : new_block name_of 1 100 (coin 1 ∷ []) [] [] (create 3) ≡ err assertion_error
unfolding new_block
no_rewards = refl

first-Reached : Reached name_of 3 first
first-Reached =
    adds (create 3) first 1 100 (coin 1 ∷ coin 2 ∷ []) (coin 3 ∷ []) [] (values first_rows)
      (creates (create 3) refl) first_lem

second-Reached : Reached name_of 3 second
second-Reached =
    adds first second 2 120 (coin 4 ∷ coin 5 ∷ []) (coin 6 ∷ []) (3 ∷ []) second_added first-Reached
      second_lem

second-Follows : Follows (pos 1) name_of first second
second-Follows =
    block first second 2 120 (coin 4 ∷ coin 5 ∷ []) (coin 6 ∷ []) (3 ∷ []) second_added here refl
      ((λ r e. ground arith), tt) second_lem

get_coin_record-reads_table_example :
    ((get_coin_record name_of 3 second).0 ≡ lookup 3 second_rows)
    × ((get_coin_record name_of 3 second).1.coin_record_db ≡ second_rows)
get_coin_record-reads_table_example = get_coin_record-reads_table name_of 3 second 3 second-Reached

rollback_undoes_blocks_example :
    (s'' : CoinStore) × (changed : List CoinRecord) × (rollback_to_block name_of (pos 1) second
      ≡ ok (s'', changed))
    × (s''.coin_record_db ≡ first_rows)
    × IsCoherent name_of s''
rollback_undoes_blocks_example =
    rollback_undoes_blocks (pos 1) name_of first second
      (Reached-IsCoherent name_of 3 first first-Reached)
      ((refl, refl), ((refl, refl), ((refl, refl), tt))) second-Follows

rollback_report_lem_example :
    (changes : Dict CoinRecord) × (map as_deleted second_added ≡ values changes)
    × IsDict changes
    × ((k : ℕ)
        → lookup k changes
          ≡ and_then
              (lookup k second_rows)
              (λ r. if above (pos 1) r.confirmed_block_index then some (as_deleted r) else none))
rollback_report_lem_example =
    rollback_report_lem name_of (pos 1) second
      (record {
        coin_record_db = first_rows;
        coin_record_cache = record { cache = []; capacity = 3 };
      })
      (map as_deleted second_added) (Reached-IsCoherent name_of 3 second second-Reached) rolled_lem

coins_at_height_lem_example :
    (coins_of (get_coins_added_at_height 2 second)
      ≡ coins_of (created 2 120 (coin 4 ∷ coin 5 ∷ []) (coin 6 ∷ [])))
    × (get_coins_removed_at_height 2 second ≡ select (λ name r. one_of (3 ∷ []) name) second)
coins_at_height_lem_example =
    coins_at_height_lem name_of 2 120 (coin 4 ∷ coin 5 ∷ []) (coin 6 ∷ []) (3 ∷ []) first
      {store' = second} {added = second_added} ((refl, refl), ((refl, refl), ((refl, refl), tt)))
      (λ e. omega arith) second_lem

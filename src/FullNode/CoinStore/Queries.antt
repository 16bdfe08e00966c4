-- ===== src/FullNode/CoinStore/Queries.antt =====
-- The queries of chia/full_node/coin_store.py: which rows they select. A set of results is listed in
-- the order of the table, where no coin stands twice.
pub mod Heights
use gold_blockchain.Base.{
  ℕ, Bool, not, ◌&&◌, ◌||◌, Option, none, some, List, [], ◌∷◌, map, ltb, leb, ◌==◌, if◌then◌else◌,
  any, keep,
}
use gold_blockchain.Base.Dict.{Dict}
use gold_blockchain.Consensus.BlockRecord.{Coin}
use gold_blockchain.FullNode.Conditions.{CoinRecord}
use gold_blockchain.FullNode.CoinStore.{CoinStore, values}

pub record CoinState : Type 0 where
  pub coin : Coin
  pub spent_height : Option ℕ
  pub created_height : Option ℕ

-- `SELECT * from coin_record WHERE ...`
abbrev pub select : (ℕ → CoinRecord → Bool) → CoinStore → List CoinRecord
select test store = values (keep (λ row. test row.0 row.1) store.coin_record_db)

unfoldable pub get_coins_added_at_height : ℕ → CoinStore → List CoinRecord
get_coins_added_at_height height store = select (λ name r. r.confirmed_block_index == height) store

unfoldable pub get_coins_removed_at_height : ℕ → CoinStore → List CoinRecord
get_coins_removed_at_height height store =
    if height == 0
    then []
    else keep (λ r. r.spent) (select (λ name r. r.spent_block_index == height) store)

-- The heights of a query, and whether it includes spent coins.
abbrev pub in_range : Bool → ℕ → ℕ → CoinRecord → Bool
in_range include_spent_coins start_height end_height r =
    leb start_height r.confirmed_block_index
    && ltb r.confirmed_block_index end_height
    && (include_spent_coins || not r.spent)

abbrev pub one_of : List ℕ → ℕ → Bool
one_of hashes hash = any (λ h. hash == h) hashes

unfoldable pub get_coin_records_by_puzzle_hash : Bool → ℕ → ℕ → ℕ → CoinStore → List CoinRecord
get_coin_records_by_puzzle_hash include_spent_coins puzzle_hash start_height end_height store =
    select
      (λ name r.
        r.coin.puzzle_hash == puzzle_hash && in_range include_spent_coins start_height end_height r)
      store

unfoldable pub get_coin_records_by_puzzle_hashes :
    Bool → List ℕ → ℕ → ℕ → CoinStore → List CoinRecord
get_coin_records_by_puzzle_hashes include_spent_coins [] start_height end_height store = []
get_coin_records_by_puzzle_hashes include_spent_coins (ph ∷ phs) start_height end_height store =
    select
      (λ name r.
        one_of (ph ∷ phs) r.coin.puzzle_hash
        && in_range include_spent_coins start_height end_height r)
      store

unfoldable pub get_coin_records_by_names : Bool → List ℕ → ℕ → ℕ → CoinStore → List CoinRecord
get_coin_records_by_names include_spent_coins [] start_height end_height store = []
get_coin_records_by_names include_spent_coins (n ∷ names) start_height end_height store =
    select
      (λ name r. one_of (n ∷ names) name && in_range include_spent_coins start_height end_height r)
      store

unfoldable pub get_coin_records_by_parent_ids : Bool → List ℕ → ℕ → ℕ → CoinStore → List CoinRecord
get_coin_records_by_parent_ids include_spent_coins [] start_height end_height store = []
get_coin_records_by_parent_ids include_spent_coins (pid ∷ pids) start_height end_height store =
    select
      (λ name r.
        one_of (pid ∷ pids) r.coin.parent_coin_info
        && in_range include_spent_coins start_height end_height r)
      store

unfoldable pub row_to_coin_state : CoinRecord → CoinState
row_to_coin_state r = record {
  coin = r.coin;
  spent_height = if r.spent then some r.spent_block_index else none;
  created_height = some r.confirmed_block_index;
}

unfoldable pub get_coin_states_by_puzzle_hashes : Bool → List ℕ → ℕ → ℕ → CoinStore → List CoinState
unfolding get_coin_records_by_puzzle_hashes row_to_coin_state
get_coin_states_by_puzzle_hashes include_spent_coins puzzle_hashes start_height end_height store =
    map row_to_coin_state (
      get_coin_records_by_puzzle_hashes include_spent_coins puzzle_hashes start_height end_height
        store)

unfoldable pub get_coin_state_by_ids : Bool → List ℕ → ℕ → ℕ → CoinStore → List CoinState
unfolding get_coin_records_by_names row_to_coin_state
get_coin_state_by_ids include_spent_coins coin_ids start_height end_height store =
    map row_to_coin_state
      (get_coin_records_by_names include_spent_coins coin_ids start_height end_height store)

unfoldable pub get_unspent_coins_before_height : ℕ → ℕ → CoinStore → List CoinRecord
get_unspent_coins_before_height puzzle_hash height store =
    select
      (λ name r.
        r.coin.puzzle_hash == puzzle_hash
        && ltb r.confirmed_block_index height
        && (not r.spent || leb height r.spent_block_index))
      store

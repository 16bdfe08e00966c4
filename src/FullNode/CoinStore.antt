-- ===== src/FullNode/CoinStore.antt =====
-- chia/full_node/coin_store.py, with CoinState of chia/protocols/wallet_protocol.py. The table
-- coin_record is a dict by its primary key, with its rows in the order of their insertion; a row
-- holds the fields of a record. The statements are read as SQLite documents them. A set of coins is
-- a list without repetitions; the name of a coin is a parameter. An exception gives no state.
pub mod Queries
pub mod Coherent
pub mod Rows
pub mod Renewing
pub mod Deleting
pub mod Cached
pub mod Reading
pub mod Undoing
pub mod Reorg
pub mod Life
use gold_blockchain.Base.{
  ℕ, Bool, true, false, not, Option, none, some, List, [], ◌∷◌, ◌++◌, map, leb, ◌==◌, if◌then◌else◌,
  length, keep, assertion_error, integrity_error, Result, ok, err, ◌>>=◌, ◌>>◌, guard,
}
use gold_blockchain.Base.Dict.{Dict, lookup, insert, contains}
use gold_blockchain.Base.Int.{ℤ, pos, ltb_ℤ}
use gold_blockchain.Consensus.BlockRecord.{Coin}
use gold_blockchain.FullNode.Conditions.{CoinRecord}
use gold_blockchain.Util.LruCache.{LruCache, new_lru_cache, get, put, remove}

pub record CoinStore : Type 0 where
  pub coin_record_db : Dict CoinRecord
  pub coin_record_cache : LruCache CoinRecord

-- An empty table, and a cache of this size.
unfoldable pub create : ℕ → CoinStore
unfolding new_lru_cache
create cache_size = record { coin_record_db = []; coin_record_cache = new_lru_cache cache_size }

-- A record of a coin that the block at a height creates.
abbrev pub new_record : ℕ → ℕ → Bool → Coin → CoinRecord
new_record height timestamp coinbase coin = record {
  coin = coin;
  confirmed_block_index = height;
  spent_block_index = 0;
  spent = false;
  coinbase = coinbase;
  timestamp = timestamp;
}

abbrev pub mark_spent : ℕ → CoinRecord → CoinRecord
mark_spent index r = record r { spent_block_index = index; spent = true }

abbrev pub mark_unspent : CoinRecord → CoinRecord
mark_unspent r = record r { spent_block_index = 0; spent = false }

-- `UPDATE OR FAIL coin_record SET spent=1,spent_index=? WHERE coin_name=?`
abbrev pub update_spent : ℕ → ℕ → Dict CoinRecord → Dict CoinRecord
update_spent index name [] = []
update_spent index name ((k, r) ∷ rows) =
    (k, (if k == name then mark_spent index r else r)) ∷ update_spent index name rows

abbrev pub update_all_spent : ℕ → List ℕ → Dict CoinRecord → Dict CoinRecord
update_all_spent index [] rows = rows
update_all_spent index (name ∷ names) rows =
    update_all_spent index names (update_spent index name rows)

-- Whether a height lies above a block index, which may be negative.
abbrev pub above : ℤ → ℕ → Bool
above block_index height = ltb_ℤ block_index (pos height)

-- `SELECT * FROM coin_record WHERE confirmed_index>?`, and what `DELETE` leaves of the table.
abbrev pub confirmed_above : ℤ → Dict CoinRecord → Dict CoinRecord
confirmed_above block_index rows = keep (λ row. above block_index row.1.confirmed_block_index) rows

abbrev pub not_confirmed_above : ℤ → Dict CoinRecord → Dict CoinRecord
not_confirmed_above block_index rows =
    keep (λ row. not (above block_index row.1.confirmed_block_index)) rows

abbrev pub reset_spent : ℤ → CoinRecord → CoinRecord
reset_spent block_index r = if above block_index r.spent_block_index then mark_unspent r else r

-- `UPDATE coin_record SET spent_index = 0, spent = 0 WHERE spent_index>?`
abbrev pub reset_all_spent : ℤ → Dict CoinRecord → Dict CoinRecord
reset_all_spent block_index [] = []
reset_all_spent block_index ((k, r) ∷ rows) =
    (k, reset_spent block_index r) ∷ reset_all_spent block_index rows

abbrev pub values : Dict CoinRecord → List CoinRecord
values changes = map (λ (entry : ℕ × CoinRecord). entry.1) changes

module _ (coin_name : Coin → ℕ) where
  -- `INSERT`, which a key that is there makes fail.
  unfoldable pub insert_rows : List CoinRecord → Dict CoinRecord → Result (Dict CoinRecord)
  insert_rows [] rows = ok rows
  insert_rows (r ∷ records) rows =
      let rest = insert_rows records (rows ++ (coin_name r.coin, r) ∷ []) in
      if contains (coin_name r.coin) rows then err integrity_error else rest

  unfoldable pub put_records : List CoinRecord → LruCache CoinRecord → LruCache CoinRecord
  put_records [] cache = cache
  put_records (r ∷ records) cache = put_records records (put (coin_name r.coin) r cache)

  unfoldable pub add_coin_records : List CoinRecord → CoinStore → Result CoinStore
  unfolding insert_rows put_records
  add_coin_records records store = do
    rows ← insert_rows records store.coin_record_db
    ok (record {
      coin_record_db = rows;
      coin_record_cache = put_records records store.coin_record_cache;
    })

  -- A coin that is cached is marked in the cache too.
  unfoldable pub set_spent_cached : ℕ → ℕ → LruCache CoinRecord → LruCache CoinRecord
  set_spent_cached index name cache = elim (get name cache).0 [
    | none ↦ (get name cache).1
    | some r ↦ put (coin_name r.coin) (mark_spent index r) (get name cache).1
  ]

  unfoldable pub set_all_spent_cached : ℕ → List ℕ → LruCache CoinRecord → LruCache CoinRecord
  unfolding set_spent_cached
  set_all_spent_cached index [] cache = cache
  set_all_spent_cached index (name ∷ names) cache =
      set_all_spent_cached index names (set_spent_cached index name cache)

  unfoldable pub set_spent : List ℕ → ℕ → CoinStore → CoinStore
  unfolding set_all_spent_cached
  set_spent coin_names index store = record {
    coin_record_db = update_all_spent index coin_names store.coin_record_db;
    coin_record_cache = set_all_spent_cached index coin_names store.coin_record_cache;
  }

  unfoldable pub new_block :
      ℕ → ℕ → List Coin → List Coin → List ℕ → CoinStore → Result (CoinStore × List CoinRecord)
  unfolding add_coin_records set_spent
  new_block height timestamp included_reward_coins tx_additions tx_removals store = do
    guard
        (if height == 0
          then length included_reward_coins == 0
          else leb 2 (length included_reward_coins))
        assertion_error
    let additions =
        map (new_record height timestamp false) tx_additions
        ++ map (new_record height timestamp true) included_reward_coins
    added ← add_coin_records additions store
    ok (set_spent tx_removals height added, additions)

  -- A record that is not cached is read from the table and put in the cache.
  unfoldable pub get_coin_record : ℕ → CoinStore → Option CoinRecord × CoinStore
  get_coin_record name store =
      let (cached, cache) = get name store.coin_record_cache in
      elim cached [
        | some r ↦ (some r, record store { coin_record_cache = cache })
        | none ↦ (elim (lookup name store.coin_record_db) [
          | none ↦ (none, record store { coin_record_cache = cache })
          | some r ↦ (some r, record store { coin_record_cache = put (coin_name r.coin) r cache })
        ])
      ]

  -- The first loop of `rollback_to_block`, over the entries as they were.
  unfoldable pub renew_cached : ℤ → Dict CoinRecord → LruCache CoinRecord → LruCache CoinRecord
  renew_cached block_index [] cache = cache
  renew_cached block_index ((k, r) ∷ entries) cache = renew_cached block_index entries (
      if above block_index r.spent_block_index
      then put (coin_name r.coin) (mark_unspent r) cache
      else cache)

  -- The loop over the queue of deletions, which these entries fill.
  unfoldable pub delete_cached :
      ℤ → Dict CoinRecord → LruCache CoinRecord → Result (LruCache CoinRecord)
  delete_cached block_index [] cache = ok cache
  delete_cached block_index ((k, r) ∷ entries) cache =
      let deleted = (do rest ← remove k cache; delete_cached block_index entries rest) in
      let kept = delete_cached block_index entries cache in
      if above block_index r.confirmed_block_index then deleted else kept

  -- The coins that a rollback deletes, as it reports them.
  unfoldable pub deleted_changes : Dict CoinRecord → Dict CoinRecord → Dict CoinRecord
  deleted_changes [] changes = changes
  deleted_changes ((k, r) ∷ rows) changes =
      deleted_changes rows
        (insert (coin_name r.coin) (record r { confirmed_block_index = 0; timestamp = 0 }) changes)

  unfoldable pub unspent_changes : Dict CoinRecord → Dict CoinRecord → Dict CoinRecord
  unspent_changes [] changes = changes
  unspent_changes ((k, r) ∷ rows) changes = unspent_changes rows (
      if contains (coin_name r.coin) changes
      then changes
      else insert (coin_name r.coin) (mark_unspent r) changes)

  unfoldable pub rollback_to_block : ℤ → CoinStore → Result (CoinStore × List CoinRecord)
  unfolding renew_cached delete_cached deleted_changes unspent_changes
  rollback_to_block block_index store = do
    let entries = store.coin_record_cache.cache
    cache ←
        delete_cached block_index entries (renew_cached block_index entries store.coin_record_cache)
    let deleted = deleted_changes (confirmed_above block_index store.coin_record_db) []
    let rows = not_confirmed_above block_index store.coin_record_db
    let changes = unspent_changes (confirmed_above block_index rows) deleted
    ok (
      record { coin_record_db = reset_all_spent block_index rows; coin_record_cache = cache },
      values changes,
    )

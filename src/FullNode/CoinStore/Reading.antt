-- ===== src/FullNode/CoinStore/Reading.antt =====
-- Reading a record of the coin store, from the cache or the table.
use gold_blockchain.Base.{ℕ, ◌≡◌, refl, sym, ◌∙◌, inl, inr, none, some, Option-cases}
use gold_blockchain.Base.Dict.{Dict, lookup}
use gold_blockchain.Consensus.BlockRecord.{Coin}
use gold_blockchain.FullNode.Conditions.{CoinRecord}
use gold_blockchain.Util.LruCache.{LruCache, get, put}
use gold_blockchain.Util.LruCache.Laws.{get-IsLru, get_lem, lookup-get}
use gold_blockchain.FullNode.CoinStore.{CoinStore, get_coin_record}
use gold_blockchain.FullNode.CoinStore.Coherent.{Agrees, IsCoherent, put-Agrees}

module _ (coin_name : Coin → ℕ) where
  read_cached :
      (name : ℕ) (r : CoinRecord) (store : CoinStore)
      → lookup name store.coin_record_cache.cache ≡ some r
      → get_coin_record coin_name name store
        ≡ (some r, record store { coin_record_cache = (get name store.coin_record_cache).1 })
  unfolding get_coin_record
  read_cached name r store e = rw (get_coin_record, get_lem name store.coin_record_cache ∙ e) refl

  read_row :
      (name : ℕ) (r : CoinRecord) (store : CoinStore)
      → lookup name store.coin_record_cache.cache ≡ none
      → lookup name store.coin_record_db ≡ some r
      → get_coin_record coin_name name store ≡ (
        some r,
        record store {
          coin_record_cache = put (coin_name r.coin) r (get name store.coin_record_cache).1;
        },
      )
  unfolding get_coin_record
  read_row name r store e e' =
      rw (get_coin_record, get_lem name store.coin_record_cache ∙ e, e') refl

  read_nothing :
      (name : ℕ) (store : CoinStore)
      → lookup name store.coin_record_cache.cache ≡ none
      → lookup name store.coin_record_db ≡ none
      → get_coin_record coin_name name store
        ≡ (none, record store { coin_record_cache = (get name store.coin_record_cache).1 })
  unfolding get_coin_record
  read_nothing name store e e' =
      rw (get_coin_record, get_lem name store.coin_record_cache ∙ e, e') refl

  used-Agrees :
      (name : ℕ) (cache : LruCache CoinRecord) (rows : Dict CoinRecord)
      → Agrees coin_name cache rows
      → Agrees coin_name (get name cache).1 rows
  used-Agrees name cache rows a = record {
    lru = get-IsLru name cache a.lru;
    distinct = a.distinct;
    named = a.named;
    cached = λ j s e. a.cached j s (sym (lookup-get j name cache a.lru) ∙ e);
  }

  -- A record that is read is that of the table, which stays as it is.
  pub get_coin_record-IsCoherent :
      (name : ℕ) (store : CoinStore)
      → IsCoherent coin_name store
      → ((get_coin_record coin_name name store).0 ≡ lookup name store.coin_record_db)
        × ((get_coin_record coin_name name store).1.coin_record_db ≡ store.coin_record_db)
        × IsCoherent coin_name (get_coin_record coin_name name store).1
  get_coin_record-IsCoherent name store a =
      let used = used-Agrees name store.coin_record_cache store.coin_record_db a in
      elim (Option-cases (lookup name store.coin_record_cache.cache)) [
        | inr (r, e) ↦ rw (read_cached name r store e) (sym (a.cached name r e), refl, used)
        | inl e ↦ elim (Option-cases (lookup name store.coin_record_db)) [
          | inl e' ↦ rw (read_nothing name store e e') (sym e', refl, used)
          | inr (r, e') ↦
              let own = a.named name r e' in
              rw (read_row name r store e e') (
                sym e',
                refl,
                rw own (
                    put-Agrees coin_name name r (get name store.coin_record_cache).1
                      store.coin_record_db used.lru used.distinct used.named e'
                      (λ j s differ found. used.cached j s found)),
              )
        ]
      ]

-- ===== src/FullNode/CoinStore/Cached.antt =====
-- The cache of the coin store after a rollback.
use gold_blockchain.Base.{
  ℕ, ◌≡◌, refl, sym, ap, ◌∙◌, inl, inr, Option, some, List, [], arith, Option-cases, ok,
}
use gold_blockchain.Base.Dict.{Dict, lookup, IsDict}
use gold_blockchain.Base.Int.{ℤ}
use gold_blockchain.Consensus.BlockRecord.{Coin}
use gold_blockchain.FullNode.Conditions.{CoinRecord}
use gold_blockchain.Util.LruCache.{LruCache}
use gold_blockchain.Util.LruCache.Laws.{IsLru}
use gold_blockchain.FullNode.CoinStore.{
  CoinStore, reset_spent, renew_cached, delete_cached, deleted_changes, unspent_changes,
  confirmed_above, not_confirmed_above, values, rollback_to_block,
}
use gold_blockchain.FullNode.CoinStore.Rows.{
  and_then, rolled_back, rolled_record, lookup-rolled_back, rolled_back-IsDict,
}
use gold_blockchain.FullNode.CoinStore.Coherent.{IsNamed, Agrees, IsCoherent}
use gold_blockchain.FullNode.CoinStore.Renewing.{renew_lem}
use gold_blockchain.FullNode.CoinStore.Deleting.{left, delete_lem}

module _ (coin_name : Coin → ℕ) (i : ℤ) where
  same_coin :
      (k : ℕ) (r s : CoinRecord) (rows : Dict CoinRecord)
      → IsDict rows
      → lookup k rows ≡ some s
      → lookup k (rolled_back i rows) ≡ some r
      → r.coin ≡ s.coin
  same_coin k r s rows distinct found e =
      ground (arith, lookup-rolled_back i k rows distinct, found, e)

  rolled_back-IsNamed :
      (rows : Dict CoinRecord)
      → IsNamed coin_name rows
      → IsDict rows
      → IsNamed coin_name (rolled_back i rows)
  rolled_back-IsNamed rows named distinct k r e = elim (Option-cases (lookup k rows)) [
    | inl missing ↦ absurd (ground (arith, lookup-rolled_back i k rows distinct, e, missing))
    | inr (s, found) ↦ ap coin_name (same_coin k r s rows distinct found e) ∙ named k s found
  ]

  -- What a rollback makes of the cache.
  pub rolled_cache :
      (cache : LruCache CoinRecord) (rows : Dict CoinRecord)
      → Agrees coin_name cache rows
      → (cache' : LruCache CoinRecord) × (delete_cached coin_name i cache.cache
            (renew_cached coin_name i cache.cache cache)
          ≡ ok cache')
        × IsLru cache'
        × ((j : ℕ) → lookup j cache'.cache ≡ and_then (lookup j cache.cache) (rolled_record i))
  rolled_cache cache rows a =
      let entries = cache.cache in
      let (lru, looks) =
        renew_lem coin_name i entries cache a.lru a.lru.distinct
          (λ k r e. (e, a.named k r (a.cached k r e))) in
      let (cache', run, lru', after) =
        delete_lem coin_name i entries (renew_cached coin_name i entries cache) lru a.lru.distinct
          (λ k r e. (reset_spent i r, looks k ∙ rw e refl)) in
      (
        cache',
        run,
        lru',
        (λ j. after j ∙ elim (Option-cases (lookup j entries)) [
          | inl missing ↦ rw missing (looks j ∙ rw missing refl)
          | inr (r, found) ↦
              rw found
                (ap (λ (o : Option CoinRecord). left coin_name i o r) (looks j ∙ rw found refl))
        ]),
      )

  -- A rollback succeeds: each row loses its spending above the index, or goes, and so in the cache.
  pub rollback-IsCoherent :
      (store : CoinStore)
      → IsCoherent coin_name store
      → (store' : CoinStore) × (changed : List CoinRecord) × (rollback_to_block coin_name i store
          ≡ ok (store', changed))
        × (store'.coin_record_db ≡ rolled_back i store.coin_record_db)
        × IsCoherent coin_name store'
  unfolding rollback_to_block
  rollback-IsCoherent store a =
      let rows = store.coin_record_db in
      let (cache', run, lru, looks) = rolled_cache store.coin_record_cache rows a in
      let at = λ (j : ℕ). lookup-rolled_back i j rows a.distinct in
      let next : CoinStore = record {
        coin_record_db = rolled_back i rows;
        coin_record_cache = cache';
      } in
      let changes = values (
        unspent_changes coin_name (confirmed_above i (not_confirmed_above i rows))
          (deleted_changes coin_name (confirmed_above i rows) [])) in
      (
        next,
        changes,
        rw (rollback_to_block, run) refl,
        refl,
        record {
          lru = lru;
          distinct = rolled_back-IsDict i rows a.distinct;
          named = rolled_back-IsNamed rows a.named a.distinct;
          cached = λ k r e. elim (Option-cases (lookup k store.coin_record_cache.cache)) [
            | inl missing ↦ absurd (ground (arith, looks k, e, missing))
            | inr (s, found) ↦
                let row = a.cached k s found in at k ∙ rw row (sym (looks k ∙ rw found refl) ∙ e)
          ];
        },
      )

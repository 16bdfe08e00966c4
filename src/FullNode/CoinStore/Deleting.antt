-- ===== src/FullNode/CoinStore/Deleting.antt =====
-- The second loop of a rollback over the cache: entries above the index go.
use gold_blockchain.Base.{
  ℕ, ◌≡◌, refl, ap, ◌∙◌, inl, inr, true, false, Option, none, some, [], ◌∷◌, ◌==◌, if◌then◌else◌,
  ==_iff, ==_refl, Bool-cases, ok,
}
use gold_blockchain.Base.Dict.{Dict, lookup, IsDict}
use gold_blockchain.Base.Int.{ℤ}
use gold_blockchain.Consensus.BlockRecord.{Coin}
use gold_blockchain.FullNode.Conditions.{CoinRecord}
use gold_blockchain.Util.LruCache.{LruCache, remove}
use gold_blockchain.Util.LruCache.Laws.{IsLru, remove-IsLru}
use gold_blockchain.FullNode.CoinStore.{above, delete_cached}
use gold_blockchain.FullNode.CoinStore.Renewing.{replaced, other_key}

module _ (coin_name : Coin → ℕ) (i : ℤ) where
  -- What is left of the entry of a record.
  abbrev pub left : Option CoinRecord → CoinRecord → Option CoinRecord
  left old r = if above i r.confirmed_block_index then none else old

  abbrev pub Deletes : Dict CoinRecord → LruCache CoinRecord → Type 0
  Deletes entries cache =
      (cache' : LruCache CoinRecord) × (delete_cached coin_name i entries cache ≡ ok cache')
      × IsLru cache'
      × ((j : ℕ)
          → lookup j cache'.cache
            ≡ replaced (lookup j entries) (left (lookup j cache.cache)) (lookup j cache.cache))

  delete_going :
      (k : ℕ) (r : CoinRecord) (entries : Dict CoinRecord) (cache next : LruCache CoinRecord)
      → above i r.confirmed_block_index ≡ true
      → remove k cache ≡ ok next
      → delete_cached coin_name i ((k, r) ∷ entries) cache ≡ delete_cached coin_name i entries next
  unfolding delete_cached
  delete_going k r entries cache next goes removed = rw (delete_cached, goes, removed) refl

  delete_staying :
      (k : ℕ) (r : CoinRecord) (entries : Dict CoinRecord) (cache : LruCache CoinRecord)
      → above i r.confirmed_block_index ≡ false
      → delete_cached coin_name i ((k, r) ∷ entries) cache ≡ delete_cached coin_name i entries cache
  unfolding delete_cached
  delete_staying k r entries cache stays = rw (delete_cached, stays) refl

  pub delete_lem :
      (entries : Dict CoinRecord) (cache : LruCache CoinRecord)
      → IsLru cache
      → IsDict entries
      → ((k : ℕ) (r : CoinRecord)
          → lookup k entries ≡ some r
          → (s : CoinRecord) × (lookup k cache.cache ≡ some s))
      → Deletes entries cache
  unfolding delete_cached
  delete_lem [] cache lru distinct known = (cache, refl, lru, (λ j. refl))
  delete_lem ((k, r) ∷ entries) cache lru distinct known =
      elim (Bool-cases (above i r.confirmed_block_index)) [
        | inl goes ↦
            let (s, at) = known k r (rw (==_refl k) refl) in
            let (next, removed, lru', looks) = remove-IsLru k s cache lru at in
            let (cache', run, lru'', after) = delete_lem entries next lru' (distinct.1) (λ j t e.
              let differ : (j == k) ≡ false = other_key j k t entries (distinct.0) e in
              let (u, was) = known j t (rw differ e) in (u, looks j ∙ rw differ was)) in
            (
              cache',
              delete_going k r entries cache next goes removed ∙ run,
              lru'',
              (λ j. after j ∙ elim (Bool-cases (j == k)) [
                | inl same ↦
                    let gone : lookup j entries ≡ none = rw ((==_iff j k).0 same) (distinct.0) in
                    rw (same, gone, goes) (looks j ∙ rw same refl)
                | inr differ ↦ rw differ (
                    ap (λ (o : Option CoinRecord). replaced (lookup j entries) (left o) o)
                      (looks j ∙ rw differ refl))
              ]),
            )
        | inr stays ↦
            let (cache', run, lru'', after) = delete_lem entries cache lru (distinct.1) (λ j t e.
              let differ : (j == k) ≡ false = other_key j k t entries (distinct.0) e in
              known j t (rw differ e)) in
            (
              cache',
              delete_staying k r entries cache stays ∙ run,
              lru'',
              (λ j. after j ∙ elim (Bool-cases (j == k)) [
                | inl same ↦
                    let gone : lookup j entries ≡ none = rw ((==_iff j k).0 same) (distinct.0) in
                    rw (same, gone, stays) refl
                | inr differ ↦ rw differ refl
              ]),
            )
      ]

-- ===== src/FullNode/CoinStore/Renewing.antt =====
-- The first loop of a rollback over the cache: spendings above the index are undone.
use gold_blockchain.Base.{
  ℕ, ◌≡◌, refl, ap, ◌∙◌, inl, inr, false, Option, none, some, [], ◌∷◌, ◌==◌, if◌then◌else◌, ==_iff,
  ==_refl, Bool-cases,
}
use gold_blockchain.Base.Dict.{Dict, lookup, IsDict}
use gold_blockchain.Base.Int.{ℤ}
use gold_blockchain.Consensus.BlockRecord.{Coin}
use gold_blockchain.FullNode.Conditions.{CoinRecord}
use gold_blockchain.Util.LruCache.{LruCache, put}
use gold_blockchain.Util.LruCache.Laws.{IsLru, put-IsLru, lookup-put_known}
use gold_blockchain.FullNode.CoinStore.{mark_unspent, above, reset_spent, renew_cached}

-- What stands for a key that is among the entries, and otherwise.
abbrev pub replaced :
    Option CoinRecord → (CoinRecord → Option CoinRecord) → Option CoinRecord → Option CoinRecord
replaced none f old = old
replaced (some r) f old = f r

pub other_key :
    (j k : ℕ) (s : CoinRecord) (entries : Dict CoinRecord)
    → lookup k entries ≡ none
    → lookup j entries ≡ some s
    → (j == k) ≡ false
other_key j k s entries gone e = elim (Bool-cases (j == k)) [
  | inl same ↦ let there : lookup k entries ≡ some s = rw (← (==_iff j k).0 same) e in cc
  | inr differ ↦ differ
]

module _ (coin_name : Coin → ℕ) (i : ℤ) where
  -- One step of the first loop.
  renew_one :
      (k : ℕ) (r : CoinRecord) (cache : LruCache CoinRecord)
      → IsLru cache
      → lookup k cache.cache ≡ some r
      → coin_name r.coin ≡ k
      → let next =
          if above i r.spent_block_index
          then put (coin_name r.coin) (mark_unspent r) cache
          else cache in
        IsLru next
        × ((j : ℕ)
            → lookup j next.cache
              ≡ (if j == k then some (reset_spent i r) else lookup j cache.cache))
  renew_one k r cache lru known own = elim (Bool-cases (above i r.spent_block_index)) [
    | inl resets ↦
        rw (resets, own)
          (
            put-IsLru k (mark_unspent r) cache lru,
            (λ j. lookup-put_known j k (mark_unspent r) r cache lru known),
          )
    | inr stays ↦ rw stays (
      lru,
      (λ j. elim (Bool-cases (j == k)) [
        | inl same ↦ rw same (rw ((==_iff j k).0 same) known)
        | inr differ ↦ rw differ refl
      ]),
    )
  ]

  pub renew_lem :
      (entries : Dict CoinRecord) (cache : LruCache CoinRecord)
      → IsLru cache
      → IsDict entries
      → ((k : ℕ) (r : CoinRecord)
          → lookup k entries ≡ some r
          → (lookup k cache.cache ≡ some r) × (coin_name r.coin ≡ k))
      → IsLru (renew_cached coin_name i entries cache)
        × ((j : ℕ)
            → lookup j (renew_cached coin_name i entries cache).cache
              ≡ replaced (lookup j entries) (λ r. some (reset_spent i r)) (lookup j cache.cache))
  unfolding renew_cached
  renew_lem [] cache lru distinct known = (lru, (λ j. refl))
  renew_lem ((k, r) ∷ entries) cache lru distinct known =
      let (at, own) = known k r (rw (==_refl k) refl) in
      let (lru', looks) = renew_one k r cache lru at own in
      let next =
        if above i r.spent_block_index
        then put (coin_name r.coin) (mark_unspent r) cache
        else cache in
      let (lru'', after) = renew_lem entries next lru' (distinct.1) (λ j s e.
        let differ : (j == k) ≡ false = other_key j k s entries (distinct.0) e in
        let was = known j s (rw differ e) in (looks j ∙ rw differ (was.0), was.1)) in
      (
        lru'',
        (λ j. after j ∙ elim (Bool-cases (j == k)) [
          | inl same ↦
              let gone : lookup j entries ≡ none = rw ((==_iff j k).0 same) (distinct.0) in
              rw (same, gone) (looks j ∙ rw same refl)
          | inr differ ↦ rw differ (
              ap
                (λ (o : Option CoinRecord).
                  replaced (lookup j entries) (λ r. some (reset_spent i r)) o)
                (looks j ∙ rw differ refl))
        ]),
      )

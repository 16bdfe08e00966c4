-- ===== src/FullNode/CoinStore/Life.antt =====
-- A coin store over its life, and what a rollback reports.
use gold_blockchain.Base.{
  ℕ, ◌≡◌, refl, ap, ◌∙◌, inl, inr, Option, none, some, List, [], ◌∷◌, arith, ◌==◌, if◌then◌else◌,
  ==_iff, ==_refl, Bool-cases, Option-cases, ok,
}
use gold_blockchain.Base.Dict.{Dict, lookup, insert, IsDict, lookup-insert, insert-IsDict}
use gold_blockchain.Base.Int.{ℤ}
use gold_blockchain.Consensus.BlockRecord.{Coin}
use gold_blockchain.FullNode.Conditions.{CoinRecord}
use gold_blockchain.Util.LruCache.Laws.{new_lru_cache-IsLru}
use gold_blockchain.FullNode.CoinStore.{
  CoinStore, create, above, confirmed_above, not_confirmed_above, deleted_changes, unspent_changes,
  values, new_block, get_coin_record, rollback_to_block,
}
use gold_blockchain.FullNode.CoinStore.Rows.{and_then, lookup-kept, kept-IsDict}
use gold_blockchain.FullNode.CoinStore.Coherent.{IsNamed, IsCoherent, new_block-IsCoherent}
use gold_blockchain.FullNode.CoinStore.Reading.{get_coin_record-IsCoherent}
use gold_blockchain.FullNode.CoinStore.Renewing.{replaced, other_key}
use gold_blockchain.FullNode.CoinStore.Cached.{rolled_cache, rollback-IsCoherent}

-- A coin that is deleted, as a rollback reports it.
abbrev pub as_deleted : CoinRecord → CoinRecord
as_deleted r = record r { confirmed_block_index = 0; timestamp = 0 }

module _ (coin_name : Coin → ℕ) where
  -- The states of a store.
  pub data Reached (cache_size : ℕ) : CoinStore → Type 0 where
    creates : (s : CoinStore) → s ≡ create cache_size → Reached cache_size s
    adds :
        (s s' : CoinStore) (height timestamp : ℕ) (rewards additions : List Coin)
        (removals : List ℕ) (added : List CoinRecord)
        → Reached cache_size s
        → new_block coin_name height timestamp rewards additions removals s ≡ ok (s', added)
        → Reached cache_size s'
    reads :
        (s s' : CoinStore) (name : ℕ)
        → Reached cache_size s
        → s' ≡ (get_coin_record coin_name name s).1
        → Reached cache_size s'
    rolls_back :
        (s s' : CoinStore) (i : ℤ) (changed : List CoinRecord)
        → Reached cache_size s
        → rollback_to_block coin_name i s ≡ ok (s', changed)
        → Reached cache_size s'

  create-IsCoherent : (cache_size : ℕ) → IsCoherent coin_name (create cache_size)
  unfolding create
  create-IsCoherent cache_size = record {
    lru = new_lru_cache-IsLru cache_size;
    distinct = tt;
    named = λ k r e. cc;
    cached = λ k r e. cc;
  }

  pub Reached-IsCoherent :
      (cache_size : ℕ) (s : CoinStore) → Reached cache_size s → IsCoherent coin_name s
  Reached-IsCoherent cache_size s (creates _ is) = rw is (create-IsCoherent cache_size)
  Reached-IsCoherent cache_size s (adds t _ height timestamp rewards additions removals added r e) =
      new_block-IsCoherent coin_name height timestamp rewards additions removals t {store' = s}
        {added = added} (Reached-IsCoherent cache_size t r) e
  Reached-IsCoherent cache_size s (reads t _ name r is) =
      rw is ((get_coin_record-IsCoherent coin_name name t (Reached-IsCoherent cache_size t r)).2)
  Reached-IsCoherent cache_size s (rolls_back t _ i changed r e) =
      let (s', changed', run, db, a) =
        rollback-IsCoherent coin_name i t (Reached-IsCoherent cache_size t r) in
      let same : s' ≡ s = ground (arith, run, e) in rw (← same) a

  -- In every state that a store reaches by blocks that are added, readings and rollbacks, `get_coin_record` answers
  -- with the row of the table, whatever the cache holds and has evicted, and leaves the table as it is.
  pub get_coin_record-reads_table :
      (cache_size : ℕ) (s : CoinStore) (name : ℕ)
      → Reached cache_size s
      → ((get_coin_record coin_name name s).0 ≡ lookup name s.coin_record_db)
        × ((get_coin_record coin_name name s).1.coin_record_db ≡ s.coin_record_db)
  get_coin_record-reads_table cache_size s name r =
      let (value, db, a) =
        get_coin_record-IsCoherent coin_name name s (Reached-IsCoherent cache_size s r) in
      (value, db)

  lookup-deleted_changes :
      (j : ℕ) (rows changes : Dict CoinRecord)
      → IsDict rows
      → IsNamed coin_name rows
      → lookup j (deleted_changes coin_name rows changes)
        ≡ replaced (lookup j rows) (λ r. some (as_deleted r)) (lookup j changes)
  unfolding deleted_changes
  lookup-deleted_changes j [] changes distinct named = refl
  lookup-deleted_changes j ((k, r) ∷ rows) changes distinct named =
      let own = named k r (rw (==_refl k) refl) in
      let ih =
        lookup-deleted_changes j rows (insert k (as_deleted r) changes) (distinct.1)
          (λ l s e. named l s (rw (other_key l k s rows (distinct.0) e) e)) in
      rw own (
        ih ∙ elim (Bool-cases (j == k)) [
          | inl same ↦
              let gone : lookup j rows ≡ none = rw ((==_iff j k).0 same) (distinct.0) in
              rw (same, gone) (lookup-insert k j (as_deleted r) changes ∙ rw same refl)
          | inr differ ↦ rw differ (
              ap (λ (o : Option CoinRecord). replaced (lookup j rows) (λ s. some (as_deleted s)) o)
                (lookup-insert k j (as_deleted r) changes ∙ rw differ refl))
        ])

  deleted_changes-IsDict :
      (rows changes : Dict CoinRecord)
      → IsDict changes
      → IsDict (deleted_changes coin_name rows changes)
  unfolding deleted_changes
  deleted_changes-IsDict [] changes distinct = distinct
  deleted_changes-IsDict ((k, r) ∷ rows) changes distinct =
      deleted_changes-IsDict rows (insert (coin_name r.coin) (as_deleted r) changes)
        (insert-IsDict (coin_name r.coin) (as_deleted r) changes distinct)

  kept-IsNamed :
      (i : ℤ) (rows : Dict CoinRecord)
      → IsNamed coin_name rows
      → IsDict rows
      → IsNamed coin_name (confirmed_above i rows)
  kept-IsNamed i rows named distinct k r e =
      let at = lookup-kept (λ r. above i r.confirmed_block_index) k rows distinct in
      elim (Option-cases (lookup k rows)) [
        | inl missing ↦ absurd (ground (arith, at, e, missing))
        | inr (s, found) ↦ ap coin_name (ground (arith, at, e, found)) ∙ named k s found
      ]

  -- After the deletion no row is above the index.
  none_above :
      (i : ℤ) (rows : Dict CoinRecord) → confirmed_above i (not_confirmed_above i rows) ≡ []
  none_above i [] = refl
  none_above i ((k, r) ∷ rows) = ground (arith, none_above i rows)

  no_unspent_changes : (changes : Dict CoinRecord) → unspent_changes coin_name [] changes ≡ changes
  unfolding unspent_changes
  no_unspent_changes changes = refl

  -- What `rollback_to_block` reports as changed, on a store in good order: of each coin, exactly
  -- where it was created above the index, its record with the height and the time of its creation
  -- cleared. A coin that stays, and whose spending above the index is undone, is not reported.
  pub rollback_report_lem :
      (i : ℤ) (s s' : CoinStore) (changed : List CoinRecord)
      → IsCoherent coin_name s
      → rollback_to_block coin_name i s ≡ ok (s', changed)
      → (changes : Dict CoinRecord) × (changed ≡ values changes)
        × IsDict changes
        × ((k : ℕ)
            → lookup k changes
              ≡ and_then
                  (lookup k s.coin_record_db)
                  (λ r. if above i r.confirmed_block_index then some (as_deleted r) else none))
  unfolding rollback_to_block
  rollback_report_lem i s s' changed a e =
      let rows = s.coin_record_db in
      let above_rows = confirmed_above i rows in
      let changes = deleted_changes coin_name above_rows [] in
      let (cache', run, lru, looks) = rolled_cache coin_name i s.coin_record_cache rows a in
      let at = λ (k : ℕ). lookup-kept (λ r. above i r.confirmed_block_index) k rows a.distinct in
      (
        changes,
        ground (arith, e, run, none_above i rows, no_unspent_changes changes),
        deleted_changes-IsDict above_rows [] tt,
        (λ k.
            lookup-deleted_changes k above_rows []
              (kept-IsDict (λ r. above i r.confirmed_block_index) rows a.distinct)
              (kept-IsNamed i rows a.named a.distinct)
            ∙ ap (λ (o : Option CoinRecord). replaced o (λ r. some (as_deleted r)) none) (at k)
            ∙ elim (Option-cases (lookup k rows)) [
              | inl missing ↦ rw missing refl
              | inr (r, found) ↦ elim (Bool-cases (above i r.confirmed_block_index)) [
                | inl gone ↦ rw (found, gone) refl
                | inr stays ↦ rw (found, stays) refl
              ]
            ]),
      )

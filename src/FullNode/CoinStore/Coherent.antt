-- ===== src/FullNode/CoinStore/Coherent.antt =====
-- That the cache of the coin store agrees with the table: adding and spending coins.
use gold_blockchain.Base.{
  ℕ, ◌≡◌, refl, sym, ap, ◌∙◌, inl, inr, true, false, none, some, List, [], ◌∷◌, ◌++◌, map, arith,
  leb, ◌==◌, if◌then◌else◌, ==_iff, ==_refl, Bool-cases, Option-cases, length, integrity_error, ok,
  err, Result-cases,
}
use gold_blockchain.Base.Dict.{
  Dict, lookup, contains, IsDict, lookup-append_fresh, append_fresh-IsDict,
}
use gold_blockchain.Consensus.BlockRecord.{Coin}
use gold_blockchain.FullNode.Conditions.{CoinRecord}
use gold_blockchain.Util.LruCache.{LruCache, get, put}
use gold_blockchain.Util.LruCache.Laws.{
  IsLru, put-IsLru, lookup-put, get-IsLru, get_lem, lookup-get,
}
use gold_blockchain.FullNode.CoinStore.{
  CoinStore, mark_spent, new_record, update_spent, update_all_spent, insert_rows, put_records,
  set_spent_cached, set_all_spent_cached, new_block,
}
use gold_blockchain.FullNode.CoinStore.Rows.{lookup-update_spent, update_spent-IsDict}

-- The records of the coins that a block creates.
abbrev pub created : ℕ → ℕ → List Coin → List Coin → List CoinRecord
created height timestamp rewards additions =
    map (new_record height timestamp false) additions
    ++ map (new_record height timestamp true) rewards

module _ (coin_name : Coin → ℕ) where
  -- Every row stands under the name of its coin.
  abbrev pub IsNamed : Dict CoinRecord → Type 0
  IsNamed rows = (k : ℕ) (r : CoinRecord) → lookup k rows ≡ some r → coin_name r.coin ≡ k

  -- What is cached is the row of the table.
  pub record Agrees (cache : LruCache CoinRecord) (rows : Dict CoinRecord) : Type 0 where
    pub lru : IsLru cache
    pub distinct : IsDict rows
    pub named : IsNamed rows
    pub cached : (k : ℕ) (r : CoinRecord) → lookup k cache.cache ≡ some r → lookup k rows ≡ some r

  -- A record that is put in the cache, where the table has it.
  pub put-Agrees :
      (k : ℕ) (r : CoinRecord) (cache : LruCache CoinRecord) (rows : Dict CoinRecord)
      → IsLru cache
      → IsDict rows
      → IsNamed rows
      → lookup k rows ≡ some r
      → ((j : ℕ) (s : CoinRecord)
          → (j == k) ≡ false
          → lookup j cache.cache ≡ some s
          → lookup j rows ≡ some s)
      → Agrees (put k r cache) rows
  put-Agrees k r cache rows lru distinct named found others = record {
    lru = put-IsLru k r cache lru;
    distinct = distinct;
    named = named;
    cached = λ j s e.
        let was = lookup-put j k r s cache lru e in
        elim (Bool-cases (j == k)) [
          | inl same ↦ let at = (==_iff j k).0 same in rw at (found ∙ (rw same at was))
          | inr differ ↦ others j s differ (rw differ at was)
        ];
  }

  add_row-Agrees :
      (r : CoinRecord) (cache : LruCache CoinRecord) (rows : Dict CoinRecord)
      → Agrees cache rows
      → lookup (coin_name r.coin) rows ≡ none
      → Agrees (put (coin_name r.coin) r cache) (rows ++ (coin_name r.coin, r) ∷ [])
  add_row-Agrees r cache rows a fresh =
      let at = λ (j : ℕ). lookup-append_fresh j (coin_name r.coin) r rows fresh in
      put-Agrees (coin_name r.coin) r cache (rows ++ (coin_name r.coin, r) ∷ []) a.lru
        (append_fresh-IsDict (coin_name r.coin) r rows a.distinct fresh)
        (λ j s e. elim (Bool-cases (j == coin_name r.coin)) [
          | inl same ↦
              let rs : r ≡ s = ground (arith, at j, e, same) in
              rw (← rs) (sym ((==_iff j (coin_name r.coin)).0 same))
          | inr differ ↦ a.named j s (ground (arith, at j, e, differ))
        ])
        (at (coin_name r.coin) ∙ rw (==_refl (coin_name r.coin)) refl)
        (λ j s differ e. at j ∙ rw differ (a.cached j s e))

  pub insert_rows_fresh :
      (r : CoinRecord) (records : List CoinRecord) (rows : Dict CoinRecord)
      → lookup (coin_name r.coin) rows ≡ none
      → insert_rows coin_name (r ∷ records) rows
        ≡ insert_rows coin_name records (rows ++ (coin_name r.coin, r) ∷ [])
  unfolding insert_rows
  insert_rows_fresh r records rows fresh =
      let new : contains (coin_name r.coin) rows ≡ false = ground (arith, fresh) in
      rw (insert_rows, new) refl

  pub insert_rows_known :
      (r old : CoinRecord) (records : List CoinRecord) (rows : Dict CoinRecord)
      → lookup (coin_name r.coin) rows ≡ some old
      → insert_rows coin_name (r ∷ records) rows ≡ err integrity_error
  unfolding insert_rows
  insert_rows_known r old records rows there =
      let known : contains (coin_name r.coin) rows ≡ true = ground (arith, there) in
      rw (insert_rows, known) refl

  add-Agrees :
      (records : List CoinRecord) (cache : LruCache CoinRecord) (rows rows' : Dict CoinRecord)
      → Agrees cache rows
      → insert_rows coin_name records rows ≡ ok rows'
      → Agrees (put_records coin_name records cache) rows'
  unfolding insert_rows put_records
  add-Agrees [] cache rows rows' a e = let same : rows ≡ rows' = cc in rw (← same) a
  add-Agrees (r ∷ records) cache rows rows' a e =
      elim (Option-cases (lookup (coin_name r.coin) rows)) [
        | inl fresh ↦
            add-Agrees records (put (coin_name r.coin) r cache) (rows ++ (coin_name r.coin, r) ∷ [])
              rows' (add_row-Agrees r cache rows a fresh)
              (sym (insert_rows_fresh r records rows fresh) ∙ e)
        | inr (old, there) ↦ absurd (ground (arith, e, insert_rows_known r old records rows there))
      ]

  spent_missing :
      (i name : ℕ) (cache : LruCache CoinRecord)
      → lookup name cache.cache ≡ none
      → set_spent_cached coin_name i name cache ≡ (get name cache).1
  unfolding set_spent_cached
  spent_missing i name cache missing = rw (set_spent_cached, get_lem name cache ∙ missing) refl

  spent_known :
      (i name : ℕ) (r : CoinRecord) (cache : LruCache CoinRecord)
      → lookup name cache.cache ≡ some r
      → set_spent_cached coin_name i name cache
        ≡ put (coin_name r.coin) (mark_spent i r) (get name cache).1
  unfolding set_spent_cached
  spent_known i name r cache known = rw (set_spent_cached, get_lem name cache ∙ known) refl

  lookup_others :
      (i name j : ℕ) (s : CoinRecord) (rows : Dict CoinRecord)
      → (j == name) ≡ false
      → lookup j rows ≡ some s
      → lookup j (update_spent i name rows) ≡ some s
  lookup_others i name j s rows differ e = lookup-update_spent i name j rows ∙ rw (e, differ) refl

  update_spent-IsNamed :
      (i name : ℕ) (rows : Dict CoinRecord) → IsNamed rows → IsNamed (update_spent i name rows)
  update_spent-IsNamed i name rows named j s e = elim (Option-cases (lookup j rows)) [
    | inl missing ↦ absurd (ground (arith, lookup-update_spent i name j rows, e, missing))
    | inr (r, found) ↦
        let at = named j r found in
        let was : coin_name s.coin ≡ coin_name r.coin =
          ap coin_name (ground (arith, lookup-update_spent i name j rows, e, found)) in
        was ∙ at
  ]

  -- A coin that is marked as spent in the table and the cache.
  spend_one-Agrees :
      (i name : ℕ) (cache : LruCache CoinRecord) (rows : Dict CoinRecord)
      → Agrees cache rows
      → Agrees (set_spent_cached coin_name i name cache) (update_spent i name rows)
  spend_one-Agrees i name cache rows a =
      let lru = get-IsLru name cache a.lru in
      let distinct = update_spent-IsDict i name rows a.distinct in
      let named = update_spent-IsNamed i name rows a.named in
      let others =
        λ (j : ℕ) (s : CoinRecord) (differ : (j == name) ≡ false)
            (e : lookup j (get name cache).1.cache ≡ some s).
          lookup_others i name j s rows differ
            (a.cached j s (sym (lookup-get j name cache a.lru) ∙ e)) in
      elim (Option-cases (lookup name cache.cache)) [
        | inl missing ↦ rw (spent_missing i name cache missing) (record {
          lru = lru;
          distinct = distinct;
          named = named;
          cached = λ j s e. elim (Bool-cases (j == name)) [
            | inl same ↦
                let gone : lookup j cache.cache ≡ none = rw ((==_iff j name).0 same) missing in
                let there = sym (lookup-get j name cache a.lru) ∙ e in cc
            | inr differ ↦ others j s differ e
          ];
        })
        | inr (r, known) ↦
            let found = a.cached name r known in
            let own = a.named name r found in
            let marked : lookup name (update_spent i name rows) ≡ some (mark_spent i r) =
              lookup-update_spent i name name rows ∙ rw (found, ==_refl name) refl in
            rw (spent_known i name r cache known, own)
              (put-Agrees name (mark_spent i r) (get name cache).1 (update_spent i name rows) lru
                distinct named marked others)
      ]

  spend_all-Agrees :
      (i : ℕ) (names : List ℕ) (cache : LruCache CoinRecord) (rows : Dict CoinRecord)
      → Agrees cache rows
      → Agrees (set_all_spent_cached coin_name i names cache) (update_all_spent i names rows)
  unfolding set_all_spent_cached
  spend_all-Agrees i [] cache rows a = a
  spend_all-Agrees i (name ∷ names) cache rows a =
      spend_all-Agrees i names (set_spent_cached coin_name i name cache) (update_spent i name rows)
        (spend_one-Agrees i name cache rows a)

  -- A store whose cache agrees with its table.
  abbrev pub IsCoherent : CoinStore → Type 0
  IsCoherent store = Agrees store.coin_record_cache store.coin_record_db

  -- A block that is accepted.
  pub new_block_parts :
      (height timestamp : ℕ) (rewards additions : List Coin) (removals : List ℕ) (store : CoinStore)
      {store' : CoinStore} {added : List CoinRecord}
      → new_block coin_name height timestamp rewards additions removals store ≡ ok (store', added)
      → (rows : Dict CoinRecord) × (insert_rows coin_name
            (created height timestamp rewards additions)
            store.coin_record_db
          ≡ ok rows)
        × (store' ≡ record {
          coin_record_db = update_all_spent height removals rows;
          coin_record_cache = set_all_spent_cached coin_name height removals (
              put_records coin_name
                (created height timestamp rewards additions)
                store.coin_record_cache);
        })
  unfolding new_block
  new_block_parts height timestamp rewards additions removals store {store'} {added} e =
      elim (Bool-cases (if height == 0 then length rewards == 0 else leb 2 (length rewards))) [
        | inr refused ↦ absurd (ground (arith, e, refused))
        | inl allowed ↦
            elim (Result-cases (
              insert_rows coin_name (created height timestamp rewards additions)
                store.coin_record_db)) [
                  | inr (x, fails) ↦ absurd (ground (arith, e, allowed, fails))
                  | inl (rows, put_in) ↦ (rows, put_in, ground (arith, e, allowed, put_in))
                ]
      ]

  pub new_block-IsCoherent :
      (height timestamp : ℕ) (rewards additions : List Coin) (removals : List ℕ) (store : CoinStore)
      {store' : CoinStore} {added : List CoinRecord}
      → IsCoherent store
      → new_block coin_name height timestamp rewards additions removals store ≡ ok (store', added)
      → IsCoherent store'
  new_block-IsCoherent height timestamp rewards additions removals store {store'} {added} a e =
      let (rows, put_in, is) =
        new_block_parts height timestamp rewards additions removals store {store' = store'}
          {added = added} e in
      let records = created height timestamp rewards additions in
      rw is (
        spend_all-Agrees height removals (put_records coin_name records store.coin_record_cache)
          rows (add-Agrees records store.coin_record_cache store.coin_record_db rows a put_in))

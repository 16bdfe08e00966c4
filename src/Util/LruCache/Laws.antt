-- ===== src/Util/LruCache/Laws.antt =====
-- What the entries of a cache are after each operation.
use gold_blockchain.Base.{
  ℕ, suc, ◌-◌, ◌≤◌, ◌≡◌, refl, sym, ◌∙◌, inl, inr, false, none, some, [], ◌∷◌, arith, ltb, ◌==◌,
  if◌then◌else◌, ==_iff, Bool-cases, Option-cases, length, length-append, ok,
}
use gold_blockchain.Base.Dict.{
  Dict, lookup, insert, erase, IsDict, lookup-insert, insert-IsDict, lookup-erase, erase-IsDict,
  length-erase, lookup-append_fresh, append_fresh-IsDict,
}
use gold_blockchain.Util.LruCache.{
  LruCache, new_lru_cache, move_to_end, pop_oldest, get, put, remove,
}

module _ {V : Type 0} where
  -- No key is listed twice, and the capacity is not exceeded.
  pub record IsLru (c : LruCache V) : Type 0 where
    pub distinct : IsDict c.cache
    pub bounded : length c.cache ≤ c.capacity

  pub new_lru_cache-IsLru : (capacity : ℕ) → IsLru (new_lru_cache capacity)
  unfolding new_lru_cache
  new_lru_cache-IsLru capacity = record { distinct = tt; bounded = omega arith }

  -- Moving a key to the end.
  pub lookup-move_to_end :
      (j k : ℕ) (v : V) (d : Dict V)
      → IsDict d
      → lookup j (move_to_end k v d) ≡ (if j == k then some v else lookup j d)
  unfolding move_to_end
  lookup-move_to_end j k v d h =
      ground
        (arith, lookup-append_fresh j k v (erase k d), lookup-erase k j d h, lookup-erase k k d h)

  pub move_to_end-IsDict : (k : ℕ) (v : V) (d : Dict V) → IsDict d → IsDict (move_to_end k v d)
  unfolding move_to_end
  move_to_end-IsDict k v d h =
      append_fresh-IsDict k v (erase k d) (erase-IsDict k d h)
        (ground (arith, lookup-erase k k d h))

  length-move_to_end :
      (k : ℕ) (v w : V) (d : Dict V) → lookup k d ≡ some w → length (move_to_end k v d) ≡ length d
  unfolding move_to_end
  length-move_to_end k v w d e =
      omega (arith, length-append (erase k d) ((k, v) ∷ []), length-erase k w d e)

  length-insert : (k : ℕ) (v : V) (d : Dict V) → length (insert k v d) ≤ suc (length d)
  length-insert k v [] = omega arith
  length-insert k v ((j, w) ∷ d) = ground (arith, length-insert k v d)

  length-insert_known :
      (k : ℕ) (v w : V) (d : Dict V) → lookup k d ≡ some w → length (insert k v d) ≡ length d
  length-insert_known k v w [] e = cc
  length-insert_known k v w ((j, u) ∷ d) e = ground (arith, length-insert_known k v w d)

  lookup-pop_oldest :
      (j : ℕ) (w : V) (d : Dict V)
      → IsDict d
      → lookup j (pop_oldest d) ≡ some w
      → lookup j d ≡ some w
  lookup-pop_oldest j w [] h e = e
  lookup-pop_oldest j w ((k, v) ∷ d) h e = ground arith

  pop_oldest-IsDict : (d : Dict V) → IsDict d → IsDict (pop_oldest d)
  pop_oldest-IsDict [] h = tt
  pop_oldest-IsDict (e ∷ d) h = h.1

  length-pop_oldest : (d : Dict V) → length (pop_oldest d) ≡ length d - 1
  length-pop_oldest [] = omega arith
  length-pop_oldest (e ∷ d) = omega arith

  put_entries : ℕ → V → LruCache V → Dict V
  put_entries k v c = move_to_end k v (insert k v c.cache)

  put_entries-IsDict : (k : ℕ) (v : V) (c : LruCache V) → IsLru c → IsDict (put_entries k v c)
  unfolding put_entries
  put_entries-IsDict k v c h =
      move_to_end-IsDict k v (insert k v c.cache) (insert-IsDict k v c.cache h.distinct)

  lookup-put_entries :
      (j k : ℕ) (v : V) (c : LruCache V)
      → IsLru c
      → lookup j (put_entries k v c) ≡ (if j == k then some v else lookup j c.cache)
  unfolding put_entries
  lookup-put_entries j k v c h = ground (
    arith,
    lookup-move_to_end j k v (insert k v c.cache) (insert-IsDict k v c.cache h.distinct),
    lookup-insert k j v c.cache,
  )

  length-put_entries :
      (k : ℕ) (v : V) (c : LruCache V) → length (put_entries k v c) ≡ length (insert k v c.cache)
  unfolding put_entries
  length-put_entries k v c =
      length-move_to_end k v v (insert k v c.cache) (ground (arith, lookup-insert k k v c.cache))

  -- A write keeps the cache within its capacity.
  pub put-IsLru : (k : ℕ) (v : V) (c : LruCache V) → IsLru c → IsLru (put k v c)
  unfolding put put_entries
  put-IsLru k v c h =
      let entries = put_entries k v c in
      let size = length-put_entries k v c in
      let more = length-insert k v c.cache in
      let distinct = put_entries-IsDict k v c h in
      let bounded = h.bounded in
      elim (Bool-cases (ltb c.capacity (length entries))) [
        | inl full ↦ record {
          distinct = rw full (pop_oldest-IsDict entries distinct);
          bounded = rw full (omega (arith, length-pop_oldest entries, size, more, bounded));
        }
        | inr fits ↦ record {
          distinct = rw fits distinct;
          bounded = rw fits (ground (arith, fits));
        }
      ]

  -- What is found after a write was written, or stood there.
  pub lookup-put :
      (j k : ℕ) (v w : V) (c : LruCache V)
      → IsLru c
      → lookup j (put k v c).cache ≡ some w
      → (if j == k then some v else lookup j c.cache) ≡ some w
  unfolding put put_entries
  lookup-put j k v w c h e =
      let entries = put_entries k v c in
      elim (Bool-cases (ltb c.capacity (length entries))) [
        | inl full ↦
            sym (lookup-put_entries j k v c h)
            ∙ lookup-pop_oldest j w entries (put_entries-IsDict k v c h) (rw full at e)
        | inr fits ↦ sym (lookup-put_entries j k v c h) ∙ (rw fits at e)
      ]

  -- A write to a key that is there evicts nothing.
  pub lookup-put_known :
      (j k : ℕ) (v u : V) (c : LruCache V)
      → IsLru c
      → lookup k c.cache ≡ some u
      → lookup j (put k v c).cache ≡ (if j == k then some v else lookup j c.cache)
  unfolding put put_entries
  lookup-put_known j k v u c h known =
      let size = length-put_entries k v c in
      let same = length-insert_known k v u c.cache known in
      let bounded = h.bounded in
      let fits : ltb c.capacity (length (put_entries k v c)) ≡ false =
        ground (arith, size, same, bounded) in
      rw fits (lookup-put_entries j k v c h)

  same_entry :
      (j k : ℕ) (v : V) (d : Dict V)
      → lookup k d ≡ some v
      → (if j == k then some v else lookup j d) ≡ lookup j d
  same_entry j k v d known = elim (Bool-cases (j == k)) [
    | inl same ↦ let e = (==_iff j k).0 same in rw same (rw e (sym known))
    | inr differ ↦ rw differ
  ]

  get_missing : (k : ℕ) (c : LruCache V) → lookup k c.cache ≡ none → get k c ≡ (none, c)
  unfolding get
  get_missing k c missing = rw (get, missing) refl

  get_known :
      (k : ℕ) (v : V) (c : LruCache V)
      → lookup k c.cache ≡ some v
      → get k c ≡ (some v, record c { cache = move_to_end k v c.cache })
  unfolding get
  get_known k v c known = rw (get, known) refl

  pub get_lem : (k : ℕ) (c : LruCache V) → (get k c).0 ≡ lookup k c.cache
  unfolding get
  get_lem k c = ground arith

  pub get-IsLru : (k : ℕ) (c : LruCache V) → IsLru c → IsLru (get k c).1
  get-IsLru k c h = elim (Option-cases (lookup k c.cache)) [
    | inl missing ↦ rw (get_missing k c missing) h
    | inr (v, known) ↦
        let bounded = h.bounded in
        rw (get_known k v c known) (record {
          distinct = move_to_end-IsDict k v c.cache h.distinct;
          bounded = omega (arith, length-move_to_end k v v c.cache known, bounded);
        })
  ]

  pub lookup-get :
      (j k : ℕ) (c : LruCache V) → IsLru c → lookup j (get k c).1.cache ≡ lookup j c.cache
  lookup-get j k c h = elim (Option-cases (lookup k c.cache)) [
    | inl missing ↦ rw (get_missing k c missing) refl
    | inr (v, known) ↦
        rw (get_known k v c known)
          (lookup-move_to_end j k v c.cache h.distinct ∙ same_entry j k v c.cache known)
  ]

  pub remove-IsLru :
      (k : ℕ) (v : V) (c : LruCache V)
      → IsLru c
      → lookup k c.cache ≡ some v
      → (c' : LruCache V) × (remove k c ≡ ok c')
        × IsLru c'
        × ((j : ℕ) → lookup j c'.cache ≡ (if j == k then none else lookup j c.cache))
  unfolding remove
  remove-IsLru k v c h known =
      let bounded = h.bounded in
      let shorter = length-erase k v c.cache known in
      (
        record c { cache = erase k c.cache },
        rw (remove, known) refl,
        record {
          distinct = erase-IsDict k c.cache h.distinct;
          bounded = omega (arith, bounded, shorter);
        },
        (λ j. lookup-erase k j c.cache h.distinct),
      )

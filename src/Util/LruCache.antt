-- ===== src/Util/LruCache.antt =====
-- chia/util/lru_cache.py: a dict whose entries stand in the order of their last use, the newest at
-- the end.
pub mod Laws
use gold_blockchain.Base.{
  ℕ, Option, none, some, [], ◌∷◌, ◌++◌, ltb, if◌then◌else◌, length, key_error, Result, ok, err,
}
use gold_blockchain.Base.Dict.{Dict, lookup, insert, erase}

pub record LruCache {ℓ} (V : Type ℓ) : Type ℓ where
  pub cache : Dict V
  pub capacity : ℕ

module _ {ℓ} {V : Type ℓ} where
  unfoldable pub new_lru_cache : ℕ → LruCache V
  new_lru_cache capacity = record { cache = []; capacity = capacity }

  -- `move_to_end`, of an entry with this value.
  unfoldable pub move_to_end : ℕ → V → Dict V → Dict V
  move_to_end key value entries = erase key entries ++ (key, value) ∷ []

  -- `popitem(last=False)`
  abbrev pub pop_oldest : Dict V → Dict V
  pop_oldest [] = []
  pop_oldest (oldest ∷ entries) = entries

  unfoldable pub get : ℕ → LruCache V → Option V × LruCache V
  unfolding move_to_end
  get key c = elim (lookup key c.cache) [
    | none ↦ (none, c)
    | some value ↦ (some value, record c { cache = move_to_end key value c.cache })
  ]

  unfoldable pub put : ℕ → V → LruCache V → LruCache V
  unfolding move_to_end
  put key value c =
      let entries = move_to_end key value (insert key value c.cache) in
      record c { cache = if ltb c.capacity (length entries) then pop_oldest entries else entries }

  unfoldable pub remove : ℕ → LruCache V → Result (LruCache V)
  remove key c = elim (lookup key c.cache) [
    | none ↦ err key_error
    | some value ↦ ok (record c { cache = erase key c.cache })
  ]

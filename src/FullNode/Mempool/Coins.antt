-- ===== src/FullNode/Mempool/Coins.antt =====
-- The coins that the pool's transactions spend: `removals` has each of them with its transaction.
pub mod Removing
pub mod Adding
use gold_blockchain.Base.{
  ℕ, ◌≡◌, refl, inl, inr, Bool, true, none, some, List, [], ◌∷◌, map, arith, ◌==◌, if◌then◌else◌,
  Bool-cases, any, Result, ok, err, Gives,
}
use gold_blockchain.Base.Dict.{
  Dict, contains, insert, lookup, erase, IsDict, lookup-erase, erase-IsDict, lookup-insert,
  insert-IsDict,
}
use gold_blockchain.Consensus.BlockRecord.{Coin}
use gold_blockchain.FullNode.Items.{MempoolItem}
use gold_blockchain.FullNode.Mempool.SortedDict.{SortedMap, IsSortedMap}
use gold_blockchain.FullNode.Mempool.{Mempool, del, del_all, insert_all, remove_from_pool}
use gold_blockchain.FullNode.Mempool.Totals.{IsValid}

-- A name among names.
abbrev pub is_in : ℕ → List ℕ → Bool
is_in c ks = any (λ k. c == k) ks

-- The names of the coins that a transaction spends.
abbrev pub spent_names : (Coin → ℕ) → MempoolItem → List ℕ
spent_names coin_name item = map coin_name item.removals

-- A pool in good order, whose record of spent coins is exact.
pub record IsConsistent {S : SortedMap (Dict MempoolItem)} (coin_name : Coin → ℕ) (pool : Mempool S)
    : Type 0 where
  pub valid : IsValid pool
  pub spent_by :
      (c : ℕ) (item : MempoolItem)
      → lookup c pool.removals ≡ some item
      → (lookup item.spend_bundle_name pool.spends ≡ some item)
        × (is_in c (spent_names coin_name item) ≡ true)
  pub recorded :
      (c k : ℕ) (item : MempoolItem)
      → lookup k pool.spends ≡ some item
      → is_in c (spent_names coin_name item) ≡ true
      → lookup c pool.removals ≡ some item
  pub distinct : IsDict pool.removals

-- What a call gives where it returns.
pub Gives-at {ℓ} : {A : Type ℓ} (r : Result A) (P : A → Type 0) {a : A} → Gives r P → r ≡ ok a → P a
Gives-at (ok b) P {a} h e = let same : b ≡ a = cc in rw (← same) h
Gives-at (err x) P h e = cc

pub del_all-IsDict :
    (ks : List ℕ) (d : Dict MempoolItem) {left : Dict MempoolItem}
    → IsDict d
    → del_all ks d ≡ ok left
    → IsDict left
unfolding del_all del
del_all-IsDict [] d {left} h e = let same : d ≡ left = cc in rw (← same) h
del_all-IsDict (k ∷ ks) d {left} h e = elim (Bool-cases (contains k d)) [
  | inl here ↦
      del_all-IsDict ks (erase k d) {left = left} (erase-IsDict k d h) (ground (arith, e, here))
  | inr missing ↦ absurd (ground (arith, e, missing))
]

pub lookup-del_all :
    (ks : List ℕ) (c : ℕ) (d : Dict MempoolItem) {left : Dict MempoolItem}
    → IsDict d
    → del_all ks d ≡ ok left
    → lookup c left ≡ (if is_in c ks then none else lookup c d)
unfolding del_all del
lookup-del_all [] c d h e = ground arith
lookup-del_all (k ∷ ks) c d {left} h e = elim (Bool-cases (contains k d)) [
  | inl here ↦ ground (
    arith,
    lookup-erase k c d h,
    lookup-del_all ks c (erase k d) {left = left} (erase-IsDict k d h) (ground (arith, e, here)),
  )
  | inr missing ↦ absurd (ground (arith, e, missing))
]

pub lookup-insert_all :
    (ks : List ℕ) (c : ℕ) (v : MempoolItem) (d : Dict MempoolItem)
    → lookup c (insert_all ks v d) ≡ (if is_in c ks then some v else lookup c d)
lookup-insert_all [] c v d = refl
lookup-insert_all (k ∷ ks) c v d =
    ground (arith, lookup-insert_all ks c v (insert k v d), lookup-insert k c v d)

pub insert_all-IsDict :
    (ks : List ℕ) (v : MempoolItem) (d : Dict MempoolItem) → IsDict d → IsDict (insert_all ks v d)
insert_all-IsDict [] v d h = h
insert_all-IsDict (k ∷ ks) v d h = insert_all-IsDict ks v (insert k v d) (insert-IsDict k v d h)

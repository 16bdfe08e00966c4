-- ===== src/FullNode/Mempool/Totals.antt =====
-- The pool's books: what holds of a pool in good order.
use gold_blockchain.Base.{
  ℕ, ◌≡◌, inl, inr, none, some, List, [], ◌∷◌, arith, ◌==◌, if◌then◌else◌, ==_iff, Bool-cases,
  Option-cases, length, ok, Gives, Gives-bind,
}
use gold_blockchain.Base.Dict.{
  Dict, lookup, erase, IsDict, lookup-erase, lookup-erase_ne, erase-IsDict,
}
use gold_blockchain.Base.Sums.{sum}
use gold_blockchain.FullNode.Items.{MempoolItem}
use gold_blockchain.Base.Floats.{true_div}
use gold_blockchain.FullNode.Mempool.Rate.{fee_per_cost}
use gold_blockchain.FullNode.Mempool.SortedDict.{SortedMap, IsSortedMap}
use gold_blockchain.FullNode.Mempool.{Mempool, del, del_all, remove_sorted}

-- A transaction listed under a rate is the pool's of its name, and the rate is its own.
abbrev pub IsListed : Dict MempoolItem → Dict (Dict MempoolItem) → Type 0
IsListed spends sorted =
    (rate name : ℕ) (dic : Dict MempoolItem) (item : MempoolItem)
    → lookup rate sorted ≡ some dic
    → lookup name dic ≡ some item
    → (lookup name spends ≡ some item) × (fee_per_cost item ≡ ok rate)

-- No name is listed twice under a rate.
abbrev pub IsListing : Dict (Dict MempoolItem) → Type 0
IsListing sorted = (rate : ℕ) (dic : Dict MempoolItem) → lookup rate sorted ≡ some dic → IsDict dic

pub record IsValid {S : SortedMap (Dict MempoolItem)} (pool : Mempool S) : Type 0 where
  pub distinct : IsDict pool.spends
  pub named :
      (k : ℕ) (item : MempoolItem) → lookup k pool.spends ≡ some item → item.spend_bundle_name ≡ k
  pub listed : IsListed pool.spends (S.items pool.sorted_spends)
  pub listing : IsListing (S.items pool.sorted_spends)
  pub counted : pool.total_mempool_cost ≡ sum (λ item. item.cost) pool.spends

pub del-Gives : {V : Type 0} (k : ℕ) (d : Dict V) → Gives (del k d) (λ left. left ≡ erase k d)
unfolding del
del-Gives k d = ground arith

pub del_all-Gives : {V : Type 0} (ks : List ℕ) (d : Dict V) → Gives (del_all ks d) (λ _. Unit)
unfolding del_all
del_all-Gives [] d = tt
del_all-Gives (k ∷ ks) d =
    Gives-bind (del k d) _ (λ _. Unit) (λ _. Unit) (ground arith) (λ left _. del_all-Gives ks left)

pub rate-Gives :
    (item : MempoolItem) → Gives (fee_per_cost item) (λ rate. fee_per_cost item ≡ ok rate)
unfolding fee_per_cost true_div
rate-Gives item = ground arith

module _ (spends : Dict MempoolItem) (sorted : Dict (Dict MempoolItem))
    (listed : IsListed spends sorted) (listing : IsListing sorted) where
  -- What an entry of the listing is worth once a name is taken off it.
  entry_kept :
      (rate name r n : ℕ) {item it : MempoolItem} {dic d : Dict MempoolItem}
      → lookup name spends ≡ some item
      → fee_per_cost item ≡ ok rate
      → lookup rate sorted ≡ some dic
      → (if r == rate then some (erase name dic) else lookup r sorted) ≡ some d
      → lookup n d ≡ some it
      → (lookup n (erase name spends) ≡ some it) × (fee_per_cost it ≡ ok r)
  entry_kept rate name r n {item} {it} {dic} {d} at own e found there =
      elim (Bool-cases (r == rate)) [
        | inl same ↦
            let r_rate : r ≡ rate = (==_iff r rate).0 same in
            let d_is : erase name dic ≡ d = ground (arith, found, same) in
            let gone = lookup-erase name n dic (listing rate dic e) in
            let here : (if n == name then none else lookup n dic) ≡ some it =
              ground (arith, gone, d_is, there) in
            ground (arith, here, r_rate, listed rate n dic it e, lookup-erase_ne n name spends)
        | inr other ↦
            let found' : lookup r sorted ≡ some d = ground (arith, found, other) in
            let (held, its) = listed r n d it found' there in
            ground (arith, held, its, at, own, other, lookup-erase_ne n name spends)
      ]

  listing_kept :
      (rate name r : ℕ) {dic d : Dict MempoolItem}
      → lookup rate sorted ≡ some dic
      → (if r == rate then some (erase name dic) else lookup r sorted) ≡ some d
      → IsDict d
  listing_kept rate name r {dic} {d} e found = elim (Bool-cases (r == rate)) [
    | inl same ↦
        let d_is : erase name dic ≡ d = ground (arith, found, same) in
        rw (← d_is) (erase-IsDict name dic (listing rate dic e))
    | inr other ↦ listing r d (ground (arith, found, other))
  ]

module _ {S : SortedMap (Dict MempoolItem)} (sorted_map : IsSortedMap S) where
  -- Taking a name off the listing under its rate.
  pub remove_sorted-Gives :
      (rate name : ℕ) (sorted : S.Carrier) (spends : Dict MempoolItem) {item : MempoolItem}
      → lookup name spends ≡ some item
      → fee_per_cost item ≡ ok rate
      → IsListed spends (S.items sorted)
      → IsListing (S.items sorted)
      → Gives
          (remove_sorted S rate name sorted)
          (λ after. IsListed (erase name spends) (S.items after) × IsListing (S.items after))
  unfolding remove_sorted
  remove_sorted-Gives rate name sorted spends {item} at own listed listing =
      let items = S.items sorted in
      elim (Option-cases (lookup rate items)) [
        | inl missing ↦ rw missing (λ e. cc)
        | inr (dic, e) ↦ rw e (
            Gives-bind (del name dic) _ (λ left. left ≡ erase name dic) _ (del-Gives name dic)
              (λ left is. rw is (elim (Bool-cases (length (erase name dic) == 0)) [
                | inl last ↦ rw last (
                  (λ r n d it found there.
                      entry_kept spends items listed listing rate name r n at own e
                        (ground (arith, found, sorted_map.lookup_delete rate r sorted)) there),
                  (λ r d found.
                      listing_kept spends items listed listing rate name r e
                        (ground (arith, found, sorted_map.lookup_delete rate r sorted))),
                )
                | inr more ↦ rw more (
                  (λ r n d it found there.
                      entry_kept spends items listed listing rate name r n at own e
                        (ground
                          (arith, found, sorted_map.lookup_write rate r (erase name dic) sorted))
                        there),
                  (λ r d found. listing_kept spends items listed listing rate name r e (
                      ground
                        (arith, found, sorted_map.lookup_write rate r (erase name dic) sorted))),
                )
              ])))
      ]

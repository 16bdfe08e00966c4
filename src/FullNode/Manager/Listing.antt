-- ===== src/FullNode/Manager/Listing.antt =====
-- What `get_items_not_in_filter` of chia/full_node/mempool_manager.py sends.
use gold_blockchain.Base.{
  ℕ, zero, suc, ◌+◌, ◌≡◌, refl, sym, ap, ◌∙◌, inl, inr, Bool, true, false, not, List, [], ◌∷◌, ◌++◌,
  arith, ◌==◌, Bool-cases, length, length-append, keep,
}
use gold_blockchain.Base.Dict.{Dict}
use gold_blockchain.FullNode.Items.{MempoolItem}
use gold_blockchain.FullNode.Mempool.SortedDict.{SortedMap}
use gold_blockchain.FullNode.Manager.{Manager, not_matched, not_in_filter, get_items_not_in_filter}
use gold_blockchain.FullNode.Manager.Taking.{values, items_of}

abbrev pub take : ℕ → List MempoolItem → List MempoolItem
take zero xs = []
take (suc n) [] = []
take (suc n) (x ∷ xs) = x ∷ take n xs

-- The items that a filter does not match.
unfoldable pub missed : (ℕ → Bool) → List MempoolItem → List MempoolItem
missed matches = keep (λ item. not (matches item.spend_bundle_name))

missed-cons_hit :
    (matches : ℕ → Bool) (item : MempoolItem) (items : List MempoolItem)
    → matches item.spend_bundle_name ≡ true
    → missed matches (item ∷ items) ≡ missed matches items
unfolding missed
missed-cons_hit matches item items h = ground arith

missed-cons_miss :
    (matches : ℕ → Bool) (item : MempoolItem) (items : List MempoolItem)
    → matches item.spend_bundle_name ≡ false
    → missed matches (item ∷ items) ≡ item ∷ missed matches items
unfolding missed
missed-cons_miss matches item items h = ground arith

append_one-append :
    (xs ys : List MempoolItem) (x : MempoolItem) → (xs ++ x ∷ []) ++ ys ≡ xs ++ (x ∷ ys)
append_one-append [] ys x = refl
append_one-append (z ∷ xs) ys x = ap (◌∷◌ z) (append_one-append xs ys x)

append-nil : (xs : List MempoolItem) → xs ++ [] ≡ xs
append-nil [] = refl
append-nil (x ∷ xs) = ap (◌∷◌ x) (append-nil xs)

module _ (matches : ℕ → Bool) (limit : ℕ) where
  -- What is found of some items, `found` of them before: it is broken off when the limit is reached.
  abbrev IsFound : List MempoolItem → List MempoolItem → List MempoolItem → Type 0
  IsFound found items after =
      (room : ℕ) → length found + room ≡ limit → after ≡ found ++ take room (missed matches items)

  not_matched_lem :
      (room : ℕ) (found : List MempoolItem) (dic : Dict MempoolItem) (rest : List MempoolItem)
      → length found + room ≡ limit
      → let (after, broke) = not_matched matches limit found dic in
        (broke ≡ true → after ≡ found ++ take room (missed matches (values dic ++ rest)))
        × (broke ≡ false
            → (left : ℕ) × (length after + left ≡ limit)
              × (found ++ take room (missed matches (values dic ++ rest))
                  ≡ after ++ take left (missed matches rest)))
  unfolding not_matched
  not_matched_lem room found [] rest fits = ((λ h. cc), λ h. (room, fits, refl))
  not_matched_lem zero found ((name, item) ∷ dic) rest fits =
      let full : (length found == limit) ≡ true = ground (arith, fits) in
      rw full ((λ h. sym (append-nil found)), λ h. cc)
  not_matched_lem (suc room) found ((name, item) ∷ dic) rest fits =
      let open_yet : (length found == limit) ≡ false = ground (arith, fits) in
      rw open_yet (elim (Bool-cases (matches item.spend_bundle_name)) [
        | inl hit ↦
            rw (hit, missed-cons_hit matches item (values dic ++ rest) hit)
              (not_matched_lem (suc room) found dic rest fits)
        | inr miss ↦
            rw (miss, missed-cons_miss matches item (values dic ++ rest) miss)
              (let (ended, goes_on) =
                  not_matched_lem room (found ++ item ∷ []) dic rest
                    (omega (arith, fits, length-append found (item ∷ []))) in
                let moved =
                  append_one-append found (take room (missed matches (values dic ++ rest))) item in
                (
                  (λ h. ended h ∙ moved),
                  (λ h. let (left, fits', is) = goes_on h in (left, fits', sym moved ∙ is)),
                ))
      ])

  not_in_filter_lem :
      (room : ℕ) (found : List MempoolItem) (rates : Dict (Dict MempoolItem))
      → length found + room ≡ limit
      → not_in_filter matches limit found rates
        ≡ found ++ take room (missed matches (items_of rates))
  unfolding not_in_filter items_of missed
  not_in_filter_lem zero found [] fits = sym (append-nil found)
  not_in_filter_lem (suc room) found [] fits = sym (append-nil found)
  not_in_filter_lem room found ((rate, dic) ∷ rates) fits =
      let (ended, goes_on) = not_matched_lem room found dic (items_of rates) fits in
      elim (Bool-cases (not_matched matches limit found dic).1) [
        | inl broke ↦ rw broke (ended broke)
        | inr more ↦ rw more (
            let (left, fits', is) = goes_on more in
            not_in_filter_lem left (not_matched matches limit found dic).0 rates fits' ∙ sym is)
      ]

-- The items that are sent are the first ones, up to the limit, of those that the filter does not
-- match, in the order of the listing by fee rate.
pub items_not_in_filter_lem :
    {S : SortedMap (Dict MempoolItem)} (m : Manager S) (matches : ℕ → Bool) (limit : ℕ)
    → get_items_not_in_filter m matches limit
      ≡ take limit (missed matches (items_of (S.items m.mempool.sorted_spends)))
unfolding get_items_not_in_filter
items_not_in_filter_lem {S} m matches limit =
    not_in_filter_lem matches limit limit [] (S.items m.mempool.sorted_spends) (omega arith)

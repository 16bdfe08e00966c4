-- ===== src/Tests/SortedList.antt =====
-- A sorted dict as a list with ascending keys.
use gold_blockchain.Base.{
  ℕ, suc, ◌≤◌, ◌<◌, ◌≡◌, refl, none, some, [], ◌∷◌, arith, ltb, ◌==◌, if◌then◌else◌,
}
use gold_blockchain.Base.Dict.{Dict, lookup, erase, lookup-erase, IsDict}
use gold_blockchain.FullNode.Mempool.SortedDict.{SortedMap, IsSortedMap, IsAscending}

module _ {V : Type 0} where
  abbrev pub insert_sorted : ℕ → V → Dict V → Dict V
  insert_sorted k v [] = (k, v) ∷ []
  insert_sorted k v ((j, w) ∷ d) =
      let rest = insert_sorted k v d in
      if k == j then (k, v) ∷ d else if ltb k j then (k, v) ∷ (j, w) ∷ d else (j, w) ∷ rest

  IsAscending-lower :
      (low high : ℕ) (d : Dict V) → low ≤ high → IsAscending high d → IsAscending low d
  IsAscending-lower low high [] h a = tt
  IsAscending-lower low high ((k, v) ∷ d) h (bound, a) = (omega arith, a)

  pub insert_sorted-IsAscending :
      (low k : ℕ) (v : V) (d : Dict V)
      → low ≤ k
      → IsAscending low d
      → IsAscending low (insert_sorted k v d)
  insert_sorted-IsAscending low k v [] h a = (h, tt)
  insert_sorted-IsAscending low k v ((j, w) ∷ d) h (bound, a) =
      ground (arith, insert_sorted-IsAscending (suc j) k v d)

  pub erase-IsAscending : (low k : ℕ) (d : Dict V) → IsAscending low d → IsAscending low (erase k d)
  erase-IsAscending low k [] a = tt
  erase-IsAscending low k ((j, w) ∷ d) (bound, a) =
      ground (arith, IsAscending-lower low (suc j) d, erase-IsAscending (suc j) k d)

  below-none : (low k : ℕ) (d : Dict V) → k < low → IsAscending low d → lookup k d ≡ none
  below-none low k [] h a = refl
  below-none low k ((j, w) ∷ d) h (bound, a) = ground (arith, below-none (suc j) k d)

  IsAscending-IsDict : (low : ℕ) (d : Dict V) → IsAscending low d → IsDict d
  IsAscending-IsDict low [] a = tt
  IsAscending-IsDict low ((j, w) ∷ d) (bound, a) =
      (below-none (suc j) j d (omega arith) a, IsAscending-IsDict (suc j) d a)

  lookup-insert_sorted :
      (k j : ℕ) (v : V) (d : Dict V)
      → lookup j (insert_sorted k v d) ≡ (if j == k then some v else lookup j d)
  lookup-insert_sorted k j v [] = ground arith
  lookup-insert_sorted k j v ((i, w) ∷ d) = ground (arith, lookup-insert_sorted k j v d)

  abbrev pub sorted_list : SortedMap V
  sorted_list = record {
    Carrier = (d : Dict V) × IsAscending 0 d;
    empty = ([], tt);
    items = λ s. s.0;
    write = λ k v s. (insert_sorted k v s.0, insert_sorted-IsAscending 0 k v s.0 (omega arith) s.1);
    delete = λ k s. (erase k s.0, erase-IsAscending 0 k s.0 s.1);
  }

  pub sorted_list-IsSortedMap : IsSortedMap sorted_list
  sorted_list-IsSortedMap = record {
    items_empty = refl;
    lookup_write = λ k j v s. lookup-insert_sorted k j v s.0;
    lookup_delete = λ k j s. lookup-erase k j s.0 (IsAscending-IsDict 0 s.0 s.1);
    ascending = λ s. s.1;
  }

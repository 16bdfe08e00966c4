-- ===== src/FullNode/Mempool/SortedDict.antt =====
-- `SortedDict` of the package sortedcontainers, as far as the mempool uses it: its items come in
-- ascending order of the keys, and writing and deleting act on one key.
use gold_blockchain.Base.{ℕ, suc, ◌≤◌, ◌≡◌, none, some, [], ◌∷◌, ◌==◌, if◌then◌else◌}
use gold_blockchain.Base.Dict.{Dict, lookup}

pub record SortedMap (V : Type 0) : Type 1 where
  pub Carrier : Type 0
  pub empty : Carrier
  pub items : Carrier → Dict V
  pub write : ℕ → V → Carrier → Carrier
  pub delete : ℕ → Carrier → Carrier

-- The keys ascend, from a bound on.
abbrev pub IsAscending : {V : Type 0} → ℕ → Dict V → Type 0
IsAscending bound [] = Unit
IsAscending bound ((k, v) ∷ d) = (bound ≤ k) × IsAscending (suc k) d

-- What the package documents.
pub record IsSortedMap {V : Type 0} (S : SortedMap V) : Type 0 where
  pub items_empty : S.items S.empty ≡ []
  pub lookup_write :
      (k j : ℕ) (v : V) (s : S.Carrier)
      → lookup j (S.items (S.write k v s)) ≡ (if j == k then some v else lookup j (S.items s))
  pub lookup_delete :
      (k j : ℕ) (s : S.Carrier)
      → lookup j (S.items (S.delete k s)) ≡ (if j == k then none else lookup j (S.items s))
  pub ascending : (s : S.Carrier) → IsAscending 0 (S.items s)

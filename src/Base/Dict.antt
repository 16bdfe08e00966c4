-- ===== src/Base/Dict.antt =====
-- A Python dict keyed by numbers (hashes are only compared), in insertion order: a write to a key
-- that is there keeps its place, a new key goes to the end.
use gold_blockchain.Base.Tests.{◌==◌, if◌then◌else◌}
use gold_blockchain.Base.Lists.{length}
use Prim.Native.Nat.{ℕ, suc}
use mathlib.Core.Path.{◌≡◌, refl}
use mathlib.Core.Logic.{◌≢◌}
use mathlib.Core.Bool.{Bool, true, false}
use mathlib.Core.Option.{Option, none, some}
use mathlib.Core.List.{List, [], ◌∷◌, ◌++◌}
use native.Mathlib.Omega.{arith}

abbrev pub Dict {ℓ} : Type ℓ → Type ℓ
Dict V = List (ℕ × V)

module _ {ℓ} {V : Type ℓ} where
  -- `d[k] = v`
  abbrev pub insert : ℕ → V → Dict V → Dict V
  insert key v [] = (key, v) ∷ []
  insert key v ((j, old) ∷ d) = if key == j then (j, v) ∷ d else (j, old) ∷ insert key v d

  abbrev pub lookup : ℕ → Dict V → Option V
  lookup key [] = none
  lookup key ((j, v) ∷ d) = if key == j then some v else lookup key d

  pub lookup-insert :
      (k j : ℕ) (v : V) (d : Dict V)
      → lookup j (insert k v d) ≡ (if j == k then some v else lookup j d)
  lookup-insert k j v [] = ground arith
  lookup-insert k j v (e ∷ d) = ground (arith, lookup-insert k j v d)

  pub insert-append :
      (k : ℕ) (v : V) (d : Dict V) → lookup k d ≡ none → insert k v d ≡ d ++ (k, v) ∷ []
  insert-append k v [] e = refl
  insert-append k v ((j, w) ∷ d) e = ground (arith, insert-append k v d)

  -- `k in d`
  abbrev pub contains : ℕ → Dict V → Bool
  contains key d = elim (lookup key d) [ some _ ↦ true | none ↦ false ]

  -- `d.pop(k, None)`
  abbrev pub erase : ℕ → Dict V → Dict V
  erase key [] = []
  erase key ((j, v) ∷ d) = if key == j then d else (j, v) ∷ erase key d

  pub lookup-erase_ne :
      (other k : ℕ) (d : Dict V) → other ≢ k → lookup other (erase k d) ≡ lookup other d
  lookup-erase_ne other k [] differ = refl
  lookup-erase_ne other k ((j, v) ∷ d) differ = ground (arith, lookup-erase_ne other k d differ)

module _ {V : Type 0} where
  -- No key is listed twice.
  abbrev pub IsDict : Dict V → Type 0
  IsDict [] = Unit
  IsDict ((k, v) ∷ d) = (lookup k d ≡ none) × IsDict d

  pub lookup-erase_self : (k : ℕ) (d : Dict V) → IsDict d → lookup k (erase k d) ≡ none
  lookup-erase_self k [] h = refl
  lookup-erase_self k (e ∷ d) h = ground (arith, lookup-erase_self k d h.1)

  pub insert-IsDict : (k : ℕ) (v : V) (d : Dict V) → IsDict d → IsDict (insert k v d)
  insert-IsDict k v [] h = (refl, tt)
  insert-IsDict k v (e ∷ d) h = ground (arith, insert-IsDict k v d h.1, lookup-insert k e.0 v d)

  pub erase-IsDict : (k : ℕ) (d : Dict V) → IsDict d → IsDict (erase k d)
  erase-IsDict k [] h = tt
  erase-IsDict k (e ∷ d) h = ground (arith, erase-IsDict k d h.1, lookup-erase_ne e.0 k d)

  pub lookup-erase :
      (k j : ℕ) (d : Dict V)
      → IsDict d
      → lookup j (erase k d) ≡ (if j == k then none else lookup j d)
  lookup-erase k j d h = ground (arith, lookup-erase_self k d h, lookup-erase_ne j k d)

  pub length-erase :
      (k : ℕ) (v : V) (d : Dict V) → lookup k d ≡ some v → suc (length (erase k d)) ≡ length d
  length-erase k v [] e = cc
  length-erase k v ((j, w) ∷ d) e = ground (arith, length-erase k v d)

  pub lookup-append_fresh :
      (j k : ℕ) (v : V) (d : Dict V)
      → lookup k d ≡ none
      → lookup j (d ++ (k, v) ∷ []) ≡ (if j == k then some v else lookup j d)
  lookup-append_fresh j k v [] fresh = refl
  lookup-append_fresh j k v ((i, w) ∷ d) fresh = ground (arith, lookup-append_fresh j k v d)

  pub append_fresh-IsDict :
      (k : ℕ) (v : V) (d : Dict V) → IsDict d → lookup k d ≡ none → IsDict (d ++ (k, v) ∷ [])
  append_fresh-IsDict k v [] h fresh = (refl, tt)
  append_fresh-IsDict k v ((i, w) ∷ d) h fresh =
      ground (arith, append_fresh-IsDict k v d h.1, lookup-append_fresh i k v d)

-- ===== src/Base/Sums.antt =====
-- The sum of a number that each value of a dict carries, under each update.
use gold_blockchain.Base.Dict.{Dict, lookup, insert, erase}
use Prim.Native.Nat.{ℕ, ◌+◌}
use mathlib.Core.Path.{◌≡◌}
use mathlib.Core.Option.{none, some}
use mathlib.Core.List.{[], ◌∷◌}
use native.Mathlib.Omega.{arith}

module _ {ℓ} {V : Type ℓ} (weight : V → ℕ) where
  abbrev pub sum : Dict V → ℕ
  sum [] = 0
  sum ((k, v) ∷ d) = weight v + sum d

  pub sum-insert_new :
      (k : ℕ) (v : V) (d : Dict V) → lookup k d ≡ none → sum (insert k v d) ≡ sum d + weight v
  sum-insert_new k v [] e = omega arith
  sum-insert_new k v (x ∷ d) e = ground (arith, sum-insert_new k v d)

  pub sum-erase :
      (k : ℕ) (v : V) (d : Dict V) → lookup k d ≡ some v → sum (erase k d) + weight v ≡ sum d
  sum-erase k v [] e = cc
  sum-erase k v (x ∷ d) e = ground (arith, sum-erase k v d)

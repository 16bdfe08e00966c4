-- ===== src/Base/Ends.antt =====
-- Calls that do not run out of rounds: the plain forms of `Gives`.
use gold_blockchain.Base.{
  ℕ, Bool, true, false, Option, none, some, arith, if◌then◌else◌, value_error, assertion_error,
  Result, ok, err, ◌>>=◌, guard, or_raise, Gives, Gives-bind,
}
use gold_blockchain.Base.Ints.{uint32, uint64, uint64_sub, uint128_sub}

abbrev pub Ends : {A : Type 0} → Result A → Type 0
Ends r = Gives r (λ _. Unit)

pub Ends-bind :
    {A B : Type 0} (m : Result A) (f : A → Result B)
    → Ends m
    → ((a : A) → Ends (f a))
    → Ends (m >>= f)
Ends-bind m f h k = Gives-bind m f (λ _. Unit) (λ _. Unit) h (λ a _. k a)

pub Ends-if : {A : Type 0} (b : Bool) (m n : Result A) → Ends m → Ends n → Ends (if b then m else n)
Ends-if true m n h k = h
Ends-if false m n h k = k

pub uint32-Ends : (n : ℕ) → Ends (uint32 n)
uint32-Ends n = ground arith

pub uint64-Ends : (n : ℕ) → Ends (uint64 n)
uint64-Ends n = ground arith

pub uint64_sub-Ends : (a b : ℕ) → Ends (uint64_sub a b)
uint64_sub-Ends a b = ground arith

pub uint128_sub-Ends : (a b : ℕ) → Ends (uint128_sub a b)
uint128_sub-Ends a b = ground arith

pub guard-Ends : (b : Bool) → Ends (guard b value_error)
guard-Ends true = tt
guard-Ends false = λ e. cc

pub or_raise-Ends : (o : Option ℕ) → Ends (or_raise o assertion_error)
or_raise-Ends none = λ e. cc
or_raise-Ends (some a) = tt

pub Gives-Ends : {A : Type 0} (r : Result A) (P : A → Type 0) → Gives r P → Ends r
Gives-Ends (ok a) P h = tt
Gives-Ends (err e) P h = h

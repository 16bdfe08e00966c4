-- ===== src/Base/Outcome.antt =====
-- Python's exceptions as values: a call returns, or it raises one of the classes that the code
-- raises. `no_fuel` is no exception of the program: a loop of the model that was given too few
-- rounds returns it.
use mathlib.Core.Path.{◌≡◌, refl}
use mathlib.Core.Logic.{◌⊎◌, ◌≢◌, inl, inr}
use mathlib.Core.Bool.{Bool, true, false}
use mathlib.Core.Option.{Option, none, some}

pub data Exc : Type 0 where
  value_error assertion_error index_error key_error zero_division_error set_error integrity_error
        no_fuel :
      Exc

pub data Result {ℓ} (A : Type ℓ) : Type ℓ where
  ok : A → Result A
  err : Exc → Result A

-- A call, and what is done with its value; an exception is passed on.
infixl 5 ◌>>=◌
abbrev pub ◌>>=◌ {ℓ κ} : {A : Type ℓ} {B : Type κ} → Result A → (A → Result B) → Result B
err e >>= next = err e
ok a >>= next = next a

-- `if not b: raise e`
abbrev pub guard : Bool → Exc → Result (Unit {0})
guard true e = ok tt
guard false e = err e

-- A read that raises where there is nothing.
abbrev pub or_raise {ℓ} : {A : Type ℓ} → Option A → Exc → Result A
or_raise none e = err e
or_raise (some a) e = ok a

-- The call returns, and its value satisfies `P`.
abbrev pub Returns {ℓ} : {A : Type ℓ} → Result A → (A → Type 0) → Type 0
Returns (ok a) P = P a
Returns (err e) P = ⊥

-- A statement, and what follows it.
infixl 5 ◌>>◌
abbrev pub ◌>>◌ {ℓ} : {B : Type ℓ} → Result (Unit {0}) → Result B → Result B
statement >> next = statement >>= λ _. next

pub Result-cases {ℓ} :
    {A : Type ℓ} (r : Result A) → ((a : A) × (r ≡ ok a)) ⊎ ((e : Exc) × (r ≡ err e))
Result-cases (ok a) = inl (a, refl)
Result-cases (err e) = inr (e, refl)

-- What a call gives when it returns; an error is allowed, but not that rounds run out.
abbrev pub Gives {ℓ} : {A : Type ℓ} → Result A → (A → Type 0) → Type 0
Gives (ok a) P = P a
Gives (err e) P = e ≢ no_fuel

pub Gives-bind {ℓ κ} :
    {A : Type ℓ} {B : Type κ} (m : Result A) (f : A → Result B) (P : A → Type 0) (Q : B → Type 0)
    → Gives m P
    → ((a : A) → P a → Gives (f a) Q)
    → Gives (m >>= f) Q
Gives-bind (ok a) f P Q h k = k a h
Gives-bind (err e) f P Q h k = h

-- What holds where a call returns.
abbrev pub Ensures {ℓ} : {A : Type ℓ} → Result A → (A → Type 0) → Type 0
Ensures (ok a) P = P a
Ensures (err e) P = Unit

module _ {ℓ} {A : Type ℓ} where
  pub Ensures-of : (r : Result A) (P : A → Type 0) → ((a : A) → r ≡ ok a → P a) → Ensures r P
  Ensures-of (ok a) P h = h a refl
  Ensures-of (err e) P h = tt

  pub Ensures-at : (r : Result A) (P : A → Type 0) {a : A} → Ensures r P → r ≡ ok a → P a
  Ensures-at (ok b) P {a} h e = let same : b ≡ a = cc in rw (← same) h
  Ensures-at (err x) P h e = cc

  pub Ensures-bind {κ} :
      {B : Type κ} (m : Result A) (f : A → Result B) (Q : B → Type 0)
      → ((a : A) → m ≡ ok a → Ensures (f a) Q)
      → Ensures (m >>= f) Q
  Ensures-bind (ok a) f Q k = k a refl
  Ensures-bind (err e) f Q k = tt

pub Gives-map {ℓ} :
    {A : Type ℓ} (r : Result A) (P Q : A → Type 0) → Gives r P → ((a : A) → P a → Q a) → Gives r Q
Gives-map (ok a) P Q h k = k a h
Gives-map (err e) P Q h k = h

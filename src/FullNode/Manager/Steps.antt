-- ===== src/FullNode/Manager/Steps.antt =====
-- How far `add_spendbundle` comes: its early returns as values. Nothing is written before the last
-- of its checks but to the cache of waiting transactions.
use gold_blockchain.Base.{ℕ, ◌≡◌, refl, Bool, true, false, Exc, Result, ok, err}
use gold_blockchain.FullNode.Conditions.Errors.{Err}
use gold_blockchain.FullNode.Items.{MempoolItem}

-- chia/types/mempool_inclusion_status.py
pub data MempoolInclusionStatus : Type 0 where
  success pending failed : MempoolInclusionStatus

-- `go` goes on; a check refuses, finds the transaction in the pool already, has it wait, or raises.
pub data Step (A : Type 0) : Type 0 where
  go : A → Step A
  refused : Err → Step A
  already : ℕ → Step A
  waits : MempoolItem → Err → Step A
  raises : Exc → Step A

infixl 5 ◌>>=◌
abbrev pub ◌>>=◌ : {A B : Type 0} → Step A → (A → Step B) → Step B
raises e >>= next = raises e
refused e >>= next = refused e
already cost >>= next = already cost
waits item e >>= next = waits item e
go a >>= next = next a

-- A check, and what follows it.
infixl 5 ◌>>◌
abbrev pub ◌>>◌ : {B : Type 0} → Step (Unit {0}) → Step B → Step B
check >> next = check >>= λ _. next

-- A call that may raise.
abbrev pub call : {A : Type 0} → Result A → Step A
call (ok a) = go a
call (err e) = raises e

-- `if b: return None, MempoolInclusionStatus.FAILED, e`
abbrev pub refuse_if : Bool → Err → Step (Unit {0})
refuse_if true e = refused e
refuse_if false e = go tt

-- What holds where the checks pass.
abbrev pub Passes : {A : Type 0} → Step A → (A → Type 0) → Type 0
Passes (go a) P = P a
Passes (refused e) P = Unit
Passes (already cost) P = Unit
Passes (waits item e) P = Unit
Passes (raises e) P = Unit

pub Passes-then :
    {A B : Type 0} (m : Step A) (f : A → Step B) (P : A → Type 0) (Q : B → Type 0)
    → Passes m P
    → ((a : A) → P a → Passes (f a) Q)
    → Passes (m >>= f) Q
Passes-then (go a) f P Q h k = k a h
Passes-then (refused e) f P Q h k = tt
Passes-then (already cost) f P Q h k = tt
Passes-then (waits item e) f P Q h k = tt
Passes-then (raises e) f P Q h k = tt

-- A step of which nothing is needed.
pub Passes-skip :
    {A B : Type 0} (m : Step A) (f : A → Step B) (Q : B → Type 0)
    → ((a : A) → Passes (f a) Q)
    → Passes (m >>= f) Q
Passes-skip (go a) f Q k = k a
Passes-skip (refused e) f Q k = tt
Passes-skip (already cost) f Q k = tt
Passes-skip (waits item e) f Q k = tt
Passes-skip (raises e) f Q k = tt

-- A check that refuses where a test holds.
pub Passes-refuse :
    {B : Type 0} (b : Bool) (e : Err) (f : Unit {0} → Step B) (Q : B → Type 0)
    → (b ≡ false → Passes (f tt) Q)
    → Passes (refuse_if b e >>= f) Q
Passes-refuse true e f Q k = tt
Passes-refuse false e f Q k = k refl

-- A call whose value is used.
pub Passes-call :
    {A B : Type 0} (r : Result A) (f : A → Step B) (Q : B → Type 0)
    → ((a : A) → r ≡ ok a → Passes (f a) Q)
    → Passes (call r >>= f) Q
Passes-call (ok a) f Q k = k a refl
Passes-call (err e) f Q k = tt

pub Passes-map :
    {A : Type 0} (m : Step A) (P Q : A → Type 0) → Passes m P → ((a : A) → P a → Q a) → Passes m Q
Passes-map (go a) P Q h k = k a h
Passes-map (refused e) P Q h k = tt
Passes-map (already cost) P Q h k = tt
Passes-map (waits item e) P Q h k = tt
Passes-map (raises e) P Q h k = tt

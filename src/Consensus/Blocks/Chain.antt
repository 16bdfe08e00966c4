-- ===== src/Consensus/Blocks/Chain.antt =====
-- What the rules rely on of a store of validated blocks: a block stands one above its predecessor.
use gold_blockchain.Base.{
  ℕ, suc, ◌≤◌, ◌≡◌, inl, inr, true, some, Exc, key_error, Result, ok, err, ◌>>=◌, Result-cases,
  Gives,
}
use gold_blockchain.Consensus.BlockRecord.{BlockRecord}
use gold_blockchain.Consensus.Blocks.{Blocks}

-- The record is one of the store.
abbrev pub IsStored : Blocks → BlockRecord → Type 0
IsStored blocks b = (h : ℕ) × (blocks.block_record h ≡ ok b)

pub record IsLinked (blocks : Blocks) : Type 0 where
  pub falls :
      (b p : BlockRecord)
      → IsStored blocks b
      → blocks.block_record b.prev_hash ≡ ok p
      → suc p.height ≡ b.height
  pub misses : (h : ℕ) (e : Exc) → blocks.block_record h ≡ err e → e ≡ key_error
  pub by_height :
      (h : ℕ) (b : BlockRecord) → blocks.height_to_block_record h ≡ ok b → IsStored blocks b
  pub misses_height : (h : ℕ) (e : Exc) → blocks.height_to_block_record h ≡ err e → e ≡ key_error

-- The chain of the peak up to a height `top`: `at k` is its block at height `k`, and both ways to
-- look a block up agree on it.
pub record IsMainChain (blocks : Blocks) (at : ℕ → BlockRecord) (top : ℕ) : Type 0 where
  pub height_at : (k : ℕ) → (at k).height ≡ k
  pub linked : (k : ℕ) → suc k ≤ top → blocks.block_record (at (suc k)).prev_hash ≡ ok (at k)
  pub known : (k : ℕ) → k ≤ top → blocks.contains_height k ≡ true
  pub by_hash : (k : ℕ) → k ≤ top → blocks.height_to_hash k ≡ some (at k).header_hash
  pub by_height : (k : ℕ) → k ≤ top → blocks.height_to_block_record k ≡ ok (at k)

pub Gives-record :
    (blocks : Blocks) (h : ℕ) → IsLinked blocks → Gives (blocks.block_record h) (IsStored blocks)
Gives-record blocks h linked = elim (Result-cases (blocks.block_record h)) [
  | inl (b, found) ↦ rw found (h, found)
  | inr (e, missing) ↦ rw (missing, linked.misses h e missing) (λ x. cc)
]

pub Gives-height :
    (blocks : Blocks) (h : ℕ)
    → IsLinked blocks
    → Gives (blocks.height_to_block_record h) (IsStored blocks)
Gives-height blocks h linked = elim (Result-cases (blocks.height_to_block_record h)) [
  | inl (b, found) ↦ rw found (linked.by_height h b found)
  | inr (e, missing) ↦ rw (missing, linked.misses_height h e missing) (λ x. cc)
]

-- One step back from a stored block does not run out of rounds, if what follows does not.
pub Gives-step_back :
    {A : Type 0} (blocks : Blocks) (b : BlockRecord) (k : BlockRecord → Result A) (P : A → Type 0)
    → IsLinked blocks
    → IsStored blocks b
    → ((p : BlockRecord) → IsStored blocks p → suc p.height ≡ b.height → Gives (k p) P)
    → Gives (blocks.block_record b.prev_hash >>= k) P
Gives-step_back blocks b k P linked stored rest =
    elim (Result-cases (blocks.block_record b.prev_hash)) [
      | inl (p, found) ↦ rw found (rest p (b.prev_hash, found) (linked.falls b p stored found))
      | inr (e, missing) ↦ rw (missing, linked.misses b.prev_hash e missing) (λ x. cc)
    ]

-- The same, where the predecessor is needed as what the store gives.
pub Gives-step_found :
    {A : Type 0} (blocks : Blocks) (b : BlockRecord) (k : BlockRecord → Result A) (P : A → Type 0)
    → IsLinked blocks
    → IsStored blocks b
    → ((p : BlockRecord)
        → blocks.block_record b.prev_hash ≡ ok p
        → suc p.height ≡ b.height
        → Gives (k p) P)
    → Gives (blocks.block_record b.prev_hash >>= k) P
Gives-step_found blocks b k P linked stored rest =
    elim (Result-cases (blocks.block_record b.prev_hash)) [
      | inl (p, found) ↦ rw found (rest p found (linked.falls b p stored found))
      | inr (e, missing) ↦ rw (missing, linked.misses b.prev_hash e missing) (λ x. cc)
    ]

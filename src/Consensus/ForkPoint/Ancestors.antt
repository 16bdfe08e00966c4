-- ===== src/Consensus/ForkPoint/Ancestors.antt =====
-- The ancestors of a block, by its previous hashes.
use gold_blockchain.Base.{ℕ, ◌≤◌, ◌<◌, ◌≡◌, sym, ap, ◌∙◌, ◌≢◌, arith, ok}
use gold_blockchain.Consensus.BlockRecord.{BlockRecord}
use gold_blockchain.Consensus.Blocks.{Blocks}
use gold_blockchain.Consensus.Blocks.Chain.{IsLinked, IsStored}

-- The blocks that a block's previous hashes lead to, itself included.
pub data IsAncestor (blocks : Blocks) (d : BlockRecord) : BlockRecord → Type 0 where
  here : (b : BlockRecord) → b ≡ d → IsAncestor blocks d b
  back :
      (b p : BlockRecord)
      → blocks.block_record b.prev_hash ≡ ok p
      → IsAncestor blocks d p
      → IsAncestor blocks d b

-- A block is stored under its hash.
abbrev pub AreNamed : Blocks → Type 0
AreNamed blocks = (h : ℕ) (b : BlockRecord) → blocks.block_record h ≡ ok b → b.header_hash ≡ h

module _ (blocks : Blocks) (linked : IsLinked blocks) (named : AreNamed blocks) where
  pub same_of_hash :
      (b c : BlockRecord)
      → IsStored blocks b
      → IsStored blocks c
      → b.header_hash ≡ c.header_hash
      → b ≡ c
  same_of_hash b c (h, at) (k, at') e =
      let keys : h ≡ k = ground (arith, named h b at, named k c at', e) in
      ground (arith, at, at', keys)

  pub ancestor_height :
      (d b : BlockRecord) → IsStored blocks b → IsAncestor blocks d b → d.height ≤ b.height
  ancestor_height d b stored (here _ e) = rw e (omega arith)
  ancestor_height d b stored (back _ p found up) =
      omega (arith, ancestor_height d p (b.prev_hash, found) up, linked.falls b p stored found)

  -- An ancestor that is lower than the block is one of its predecessor.
  IsAncestor-below :
      (d b p : BlockRecord)
      → IsAncestor blocks d b
      → b ≢ d
      → blocks.block_record b.prev_hash ≡ ok p
      → IsAncestor blocks d p
  IsAncestor-below d b p (here _ e) other found = absurd (other e)
  IsAncestor-below d b p (back _ q at up) other found =
      let same : q ≡ p = ground (arith, at, found) in rw (← same) up

  -- An ancestor as high as the block is the block.
  ancestor_level :
      (d b : BlockRecord) → IsStored blocks b → IsAncestor blocks d b → d.height ≡ b.height → b ≡ d
  ancestor_level d b stored (here _ e) level = e
  ancestor_level d b stored (back _ p found up) level = absurd (
      omega
        (arith, ancestor_height d p (b.prev_hash, found) up, linked.falls b p stored found, level))

  -- The common blocks of two chains, one of which is the higher, lie below its block.
  pub common_below :
      (d b c p : BlockRecord)
      → IsStored blocks c
      → c.height < b.height
      → IsAncestor blocks d b
      → IsAncestor blocks d c
      → blocks.block_record b.prev_hash ≡ ok p
      → IsAncestor blocks d p
  common_below d b c p stored lower anc anc' found =
      IsAncestor-below d b p anc
        (λ e. absurd (omega (arith, ancestor_height d c stored anc', ap (λ x. x.height) e, lower)))
        found

  pub common_apart :
      (d b c p : BlockRecord)
      → IsStored blocks c
      → c.height ≡ b.height
      → c.header_hash ≢ b.header_hash
      → IsAncestor blocks d b
      → IsAncestor blocks d c
      → blocks.block_record b.prev_hash ≡ ok p
      → IsAncestor blocks d p
  common_apart d b c p stored level differ anc anc' found =
      IsAncestor-below d b p anc
        (λ e. differ (
          ap (λ x. x.header_hash)
            (ancestor_level d c stored anc' (sym (ap (λ x. x.height) e) ∙ sym level) ∙ sym e)))
        found

  -- At height 0 each block is all of its chain.
  pub apart_at_ground :
      (b1 b2 d : BlockRecord)
      → IsStored blocks b1
      → IsStored blocks b2
      → (b1.height ≡ 0) × (b2.height ≡ 0)
      → b2 ≢ b1
      → IsAncestor blocks d b1
      → ¬ IsAncestor blocks d b2
  apart_at_ground b1 b2 d s1 s2 (low1, low2) other anc = λ anc'.
      let h1 = ancestor_height d b1 s1 anc in
      let level1 : d.height ≡ b1.height = omega (arith, h1, low1) in
      let level2 : d.height ≡ b2.height = omega (arith, h1, low1, low2) in
      other (ancestor_level d b2 s2 anc' level2 ∙ sym (ancestor_level d b1 s1 anc level1))

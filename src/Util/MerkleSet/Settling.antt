-- ===== src/Util/MerkleSet/Settling.antt =====
-- What becomes of a middle node one of whose children has lost a hash: `collapse`.
use gold_blockchain.Base.{
  ℕ, suc, ◌+◌, ◌*◌, ◌/◌, ◌^◌, ◌≡◌, refl, ◌∙◌, inl, inr, Bool, true, false, ◌&&◌, arith, ok,
}
use gold_blockchain.Util.MerkleSet.{
  Node, empty, terminal, middle, truncated, Kind, is_empty, is_terminal, new_middle, collapse,
}
use gold_blockchain.Util.MerkleSet.Bits.{prefix_suc}
use gold_blockchain.Util.MerkleSet.Nodes.{
  IsTree, AreChildren, is_member, apart, bit_cases, new_middle-returns,
}

-- What two children become, one of which has lost a hash.
pub record IsSettled (k p : ℕ) (l r t : Node) : Type 0 where
  pub tree : IsTree (suc k) p t
  pub full : is_empty t ≡ false
  pub members :
      (z : ℕ) → z / 2 ^ suc k ≡ p → is_member (suc k) z t ≡ is_member (suc k) z (middle l r 0)

above_left : (k p h : ℕ) → h / 2 ^ k ≡ 2 * p → h / 2 ^ suc k ≡ p
above_left k p h e = ground (arith, prefix_suc k h, e)

above_right : (k p h : ℕ) → h / 2 ^ k ≡ 2 * p + 1 → h / 2 ^ suc k ≡ p
above_right k p h e = ground (arith, prefix_suc k h, e)

and_comm : (a b : Bool) → (a && b) ≡ (b && a)
and_comm a b = ground arith

module _ (hashdown : Kind × ℕ → Kind × ℕ → ℕ) where
  abbrev pub Settles : ℕ → ℕ → Node → Node → Type 0
  Settles k p l r =
      (t : Node) × (collapse hashdown l r (new_middle hashdown l r) ≡ ok (t, true))
      × (collapse hashdown r l (new_middle hashdown l r) ≡ ok (t, true))
      × IsSettled k p l r t

  settle_middle :
      (k p : ℕ) (l r : Node)
      → IsTree k (2 * p) l
      → IsTree k (2 * p + 1) r
      → AreChildren l r
      → (is_empty l && is_terminal r) ≡ false
      → (is_terminal l && is_empty r) ≡ false
      → Settles k p l r
  unfolding collapse
  settle_middle k p l r left right shape no_right no_left =
      let (h, made) = new_middle-returns hashdown k p l r left right shape in
      (
        middle l r h,
        rw (no_right, no_left, made) refl,
        rw
            (
              and_comm (is_empty r) (is_terminal l) ∙ no_left,
              and_comm (is_terminal r) (is_empty l) ∙ no_right,
              made,
            )
            refl,
        record { tree = (left, right, shape); full = refl; members = λ z begin_z. refl },
      )

  pub settle :
      (k p : ℕ) (l r : Node)
      → IsTree k (2 * p) l
      → IsTree k (2 * p + 1) r
      → (is_empty l ≡ true → is_empty r ≡ false)
      → Settles k p l r
  unfolding collapse
  settle k p empty empty left right left_one = let e : true ≡ false = left_one refl in cc
  settle k p empty (terminal b) left right left_one = (
    terminal b,
    refl,
    refl,
    record {
      tree = above_right k p b right;
      full = refl;
      members = λ z begin_z. elim (bit_cases k z) [
        | inl low ↦ rw (low, apart k z b (ground (arith, right, low)))
        | inr high ↦ rw high
      ];
    },
  )
  settle k p (terminal a) empty left right left_one = (
    terminal a,
    refl,
    refl,
    record {
      tree = above_left k p a left;
      full = refl;
      members = λ z begin_z. elim (bit_cases k z) [
        | inl low ↦ rw low
        | inr high ↦ rw (high, apart k z a (ground (arith, left, high)))
      ];
    },
  )
  settle k p empty (middle rl rr h) left right left_one =
      settle_middle k p empty (middle rl rr h) left right ((λ x. refl), (λ x. cc)) refl refl
  settle k p (middle ll lr h) empty left right left_one =
      settle_middle k p (middle ll lr h) empty left right ((λ x. cc), (λ x. refl)) refl refl
  settle k p (truncated h) r left right left_one = absurd left
  settle k p l (truncated h) left right left_one = absurd right
  settle k p (terminal a) (terminal b) left right left_one =
      settle_middle k p (terminal a) (terminal b) left right ((λ x. cc), (λ x. cc)) refl refl
  settle k p (terminal a) (middle rl rr h) left right left_one =
      settle_middle k p (terminal a) (middle rl rr h) left right ((λ x. cc), (λ x. cc)) refl refl
  settle k p (middle ll lr h) (terminal b) left right left_one =
      settle_middle k p (middle ll lr h) (terminal b) left right ((λ x. cc), (λ x. cc)) refl refl
  settle k p (middle ll lr h) (middle rl rr h') left right left_one =
      settle_middle k p (middle ll lr h) (middle rl rr h') left right ((λ x. cc), (λ x. cc)) refl
        refl

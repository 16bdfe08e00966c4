-- ===== src/Util/MerkleSet/Rebuilding.antt =====
-- A middle node one of whose children has got a hash, or holds it already.
use gold_blockchain.Base.{
  ℕ, suc, ◌+◌, ◌*◌, ◌/◌, ◌^◌, ◌≡◌, refl, sym, ap, ◌∙◌, inl, inr, Bool, true, false, ◌||◌, arith,
  ◌==◌, ok,
}
use gold_blockchain.Util.MerkleSet.{Node, middle, Kind, is_empty, new_middle}
use gold_blockchain.Util.MerkleSet.Bits.{bit_of, prefix_suc}
use gold_blockchain.Util.MerkleSet.Nodes.{
  IsTree, AreChildren, is_member, is_middle, apart, bit_cases, new_middle-returns,
}

-- What a tree `t` is after `y` is added.
pub record IsAdded (k p y : ℕ) (t t' : Node) (changed : Bool) : Type 0 where
  pub tree : IsTree k p t'
  pub full : is_empty t' ≡ false
  pub mid : is_middle t ≡ true → is_middle t' ≡ true
  pub kept : changed ≡ false → t' ≡ t
  pub members : (z : ℕ) → z / 2 ^ k ≡ p → is_member k z t' ≡ (z == y || is_member k z t)

module _ (hashdown : Kind × ℕ → Kind × ℕ → ℕ) where
  pub rebuilt_left :
      (k p y h : ℕ) (l l' r : Node) (changed : Bool)
      → IsTree (suc k) p (middle l r h)
      → bit_of k y ≡ 0
      → IsAdded k (2 * p) y l l' changed
      → (t : Node) × (new_middle hashdown l' r ≡ ok t) × IsAdded (suc k) p y (middle l r h) t true
  rebuilt_left k p y h l l' r changed (left, right, shape) low added =
      let shape' : AreChildren l' r =
        ((λ none_left. cc), (λ none_right. added.mid (shape.1 none_right))) in
      let (hash, made) = new_middle-returns hashdown k p l' r added.tree right shape' in
      (
        middle l' r hash,
        made,
        record {
          tree = (added.tree, right, shape');
          full = refl;
          mid = λ m. refl;
          kept = λ c. cc;
          members = λ z begin_z. elim (bit_cases k z) [
            | inl low_z ↦ rw low_z (added.members z (omega (arith, prefix_suc k z, begin_z, low_z)))
            | inr high_z ↦ rw (high_z, apart k z y (ground (arith, low, high_z)))
          ];
        },
      )

  pub rebuilt_right :
      (k p y h : ℕ) (l r r' : Node) (changed : Bool)
      → IsTree (suc k) p (middle l r h)
      → bit_of k y ≡ 1
      → IsAdded k (2 * p + 1) y r r' changed
      → (t : Node) × (new_middle hashdown l r' ≡ ok t) × IsAdded (suc k) p y (middle l r h) t true
  rebuilt_right k p y h l r r' changed (left, right, shape) high added =
      let shape' : AreChildren l r' =
        ((λ none_left. added.mid (shape.0 none_left)), (λ none_right. cc)) in
      let (hash, made) = new_middle-returns hashdown k p l r' left added.tree shape' in
      (
        middle l r' hash,
        made,
        record {
          tree = (left, added.tree, shape');
          full = refl;
          mid = λ m. refl;
          kept = λ c. cc;
          members = λ z begin_z. elim (bit_cases k z) [
            | inl low_z ↦ rw (low_z, apart k z y (ground (arith, high, low_z)))
            | inr high_z ↦
                rw high_z (added.members z (omega (arith, prefix_suc k z, begin_z, high_z)))
          ];
        },
      )

  -- A child that does not change holds the hash already.
  pub same_left :
      (k p y h : ℕ) (l l' r : Node)
      → IsTree (suc k) p (middle l r h)
      → bit_of k y ≡ 0
      → IsAdded k (2 * p) y l l' false
      → IsAdded (suc k) p y (middle l r h) (middle l r h) false
  same_left k p y h l l' r tree low added = record {
    tree = tree;
    full = refl;
    mid = λ m. m;
    kept = λ c. refl;
    members = λ z begin_z. elim (bit_cases k z) [
      | inl low_z ↦
          let e : is_member k z l' ≡ is_member k z l = ap (is_member k z) (added.kept refl) in
          rw low_z (sym e ∙ added.members z (omega (arith, prefix_suc k z, begin_z, low_z)))
      | inr high_z ↦ rw (high_z, apart k z y (ground (arith, low, high_z)))
    ];
  }

  pub same_right :
      (k p y h : ℕ) (l r r' : Node)
      → IsTree (suc k) p (middle l r h)
      → bit_of k y ≡ 1
      → IsAdded k (2 * p + 1) y r r' false
      → IsAdded (suc k) p y (middle l r h) (middle l r h) false
  same_right k p y h l r r' tree high added = record {
    tree = tree;
    full = refl;
    mid = λ m. m;
    kept = λ c. refl;
    members = λ z begin_z. elim (bit_cases k z) [
      | inl low_z ↦ rw (low_z, apart k z y (ground (arith, high, low_z)))
      | inr high_z ↦
          let e : is_member k z r' ≡ is_member k z r = ap (is_member k z) (added.kept refl) in
          rw high_z (sym e ∙ added.members z (omega (arith, prefix_suc k z, begin_z, high_z)))
    ];
  }

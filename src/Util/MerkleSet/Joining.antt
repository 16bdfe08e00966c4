-- ===== src/Util/MerkleSet/Joining.antt =====
-- The node that two terminal nodes are joined in.
use gold_blockchain.Base.{
  ℕ, zero, suc, ◌+◌, ◌*◌, ◌/◌, ◌^◌, ◌<◌, ◌≡◌, refl, ap, ◌∙◌, inl, inr, true, ◌||◌, arith, ◌==◌,
  if◌then◌else◌, Bool-cases, ok, ◌>>=◌,
}
use gold_blockchain.Util.MerkleSet.{
  Node, empty, terminal, middle, Kind, get_bit, new_middle, make_middle,
}
use gold_blockchain.Util.MerkleSet.Bits.{bit_of, get_bit-at, prefix_suc, prefix_mono}
use gold_blockchain.Util.MerkleSet.Nodes.{
  IsTree, AreChildren, is_member, is_middle, not_both, apart, bit_cases, or_false,
  new_middle-returns,
}

module _ (hashdown : Kind × ℕ → Kind × ℕ → ℕ) where
  -- What joining two different hashes gives.
  pub record IsJoined (k p a b : ℕ) (t : Node) : Type 0 where
    pub tree : IsTree k p t
    pub mid : is_middle t ≡ true
    pub members : (y : ℕ) → y / 2 ^ k ≡ p → is_member k y t ≡ (y == a || y == b)

  -- A child that holds both hashes, beside an empty one.
  IsJoined-left :
      (k p a b : ℕ) (rest : Node)
      → IsJoined k (2 * p) a b rest
      → bit_of k a ≡ 0
      → bit_of k b ≡ 0
      → (t : Node) × (new_middle hashdown rest empty ≡ ok t) × IsJoined (suc k) p a b t
  IsJoined-left k p a b rest joined low_a low_b =
      let shape : AreChildren rest empty =
        ((λ none_left. absurd (not_both rest joined.mid none_left)), (λ x. joined.mid)) in
      let (h, made) = new_middle-returns hashdown k p rest empty joined.tree tt shape in
      (
        middle rest empty h,
        made,
        record {
          tree = (joined.tree, tt, shape);
          mid = refl;
          members = λ y begin_y. elim (Bool-cases (bit_of k y == 0)) [
            | inl low ↦ rw low (joined.members y (ground (arith, prefix_suc k y, begin_y, low)))
            | inr high ↦ rw (high, apart k y a (rw (low_a, high)), apart k y b (rw (low_b, high)))
          ];
        },
      )

  IsJoined-right :
      (k p a b : ℕ) (rest : Node)
      → IsJoined k (2 * p + 1) a b rest
      → bit_of k a ≡ 1
      → bit_of k b ≡ 1
      → (t : Node) × (new_middle hashdown empty rest ≡ ok t) × IsJoined (suc k) p a b t
  IsJoined-right k p a b rest joined high_a high_b =
      let shape : AreChildren empty rest =
        ((λ x. joined.mid), (λ none_right. absurd (not_both rest joined.mid none_right))) in
      let (h, made) = new_middle-returns hashdown k p empty rest tt joined.tree shape in
      (
        middle empty rest h,
        made,
        record {
          tree = (tt, joined.tree, shape);
          mid = refl;
          members = λ y begin_y. elim (Bool-cases (bit_of k y == 0)) [
            | inl low ↦ rw (
              low,
              apart k y a (ground (arith, high_a, low)),
              apart k y b (ground (arith, high_b, low)),
            )
            | inr high ↦ rw high (joined.members y (ground (arith, prefix_suc k y, begin_y, high)))
          ];
        },
      )

  IsJoined-apart :
      (k p a b : ℕ)
      → a / 2 ^ suc k ≡ p
      → b / 2 ^ suc k ≡ p
      → bit_of k a ≡ 0
      → bit_of k b ≡ 1
      → (t : Node) × (new_middle hashdown (terminal a) (terminal b) ≡ ok t)
        × IsJoined (suc k) p a b t
  IsJoined-apart k p a b begin_a begin_b low high =
      let tree_a : IsTree k (2 * p) (terminal a) = omega (arith, prefix_suc k a, begin_a, low) in
      let tree_b : IsTree k (2 * p + 1) (terminal b) =
        omega (arith, prefix_suc k b, begin_b, high) in
      let (h, made) =
        new_middle-returns hashdown k p (terminal a) (terminal b) tree_a tree_b
          ((λ x. cc), (λ x. cc)) in
      (
        middle (terminal a) (terminal b) h,
        made,
        record {
          tree = (tree_a, tree_b, ((λ x. cc), (λ x. cc)));
          mid = refl;
          members = λ y begin_y. elim (Bool-cases (bit_of k y == 0)) [
            | inl low_y ↦ rw (low_y, apart k y b (ground (arith, high, low_y)), or_false (y == a))
            | inr high_y ↦ rw (high_y, apart k y a (ground (arith, low, high_y)))
          ];
        },
      )

  make_middle_step :
      (fuel a b depth x y : ℕ)
      → get_bit a depth ≡ ok x
      → get_bit b depth ≡ ok y
      → make_middle hashdown (suc fuel) a b depth ≡ (
          let deeper = (do
            rest ← make_middle hashdown fuel a b (depth + 1)
            (if x == 0 then new_middle hashdown rest empty else new_middle hashdown empty rest)) in
          if x == y then deeper else new_middle hashdown (terminal a) (terminal b))
  unfolding make_middle
  make_middle_step fuel a b depth x y read_a read_b = rw (read_a, read_b)

  abbrev Joins : ℕ → ℕ → ℕ → ℕ → ℕ → ℕ → Type 0
  Joins fuel k depth p a b =
      (t : Node) × (make_middle hashdown fuel a b depth ≡ ok t) × IsJoined k p a b t

  -- Both hashes go to one side, or they part here.
  Joins-left :
      (fuel k depth p a b : ℕ)
      → depth + suc k ≡ 256
      → bit_of k a ≡ 0
      → bit_of k b ≡ 0
      → Joins fuel k (depth + 1) (2 * p) a b
      → Joins (suc fuel) (suc k) depth p a b
  Joins-left fuel k depth p a b at low_a low_b (rest, made_rest, joined) =
      let (t, made, joined_t) = IsJoined-left k p a b rest joined low_a low_b in
      let step =
        make_middle_step fuel a b depth _ _ (get_bit-at a depth k at ∙ ap ok low_a)
          (get_bit-at b depth k at ∙ ap ok low_b) in
      (t, rw (step, made_rest) made, joined_t)

  Joins-right :
      (fuel k depth p a b : ℕ)
      → depth + suc k ≡ 256
      → bit_of k a ≡ 1
      → bit_of k b ≡ 1
      → Joins fuel k (depth + 1) (2 * p + 1) a b
      → Joins (suc fuel) (suc k) depth p a b
  Joins-right fuel k depth p a b at high_a high_b (rest, made_rest, joined) =
      let (t, made, joined_t) = IsJoined-right k p a b rest joined high_a high_b in
      let step =
        make_middle_step fuel a b depth _ _ (get_bit-at a depth k at ∙ ap ok high_a)
          (get_bit-at b depth k at ∙ ap ok high_b) in
      (t, rw (step, made_rest) made, joined_t)

  Joins-apart :
      (fuel k depth p a b : ℕ)
      → depth + suc k ≡ 256
      → a / 2 ^ suc k ≡ p
      → b / 2 ^ suc k ≡ p
      → bit_of k a ≡ 0
      → bit_of k b ≡ 1
      → Joins (suc fuel) (suc k) depth p a b
  Joins-apart fuel k depth p a b at begin_a begin_b low high =
      let (t, made, joined) = IsJoined-apart k p a b begin_a begin_b low high in
      let step =
        make_middle_step fuel a b depth _ _ (get_bit-at a depth k at ∙ ap ok low)
          (get_bit-at b depth k at ∙ ap ok high) in
      (t, step ∙ made, joined)

  pub make_middle-IsJoined :
      (fuel k depth p a b : ℕ)
      → depth + k ≡ 256
      → k < fuel
      → a < b
      → a / 2 ^ k ≡ p
      → b / 2 ^ k ≡ p
      → (t : Node) × (make_middle hashdown fuel a b depth ≡ ok t) × IsJoined k p a b t
  make_middle-IsJoined zero k depth p a b at enough less begin_a begin_b = absurd (omega arith)
  make_middle-IsJoined (suc fuel) zero depth p a b at enough less begin_a begin_b =
      absurd (omega arith)
  make_middle-IsJoined (suc fuel) (suc k) depth p a b at enough less begin_a begin_b =
      let step_a = prefix_suc k a in
      let step_b = prefix_suc k b in
      let mono = prefix_mono k a b (omega arith) in
      elim (bit_cases k a) [
        | inl low_a ↦ elim (bit_cases k b) [
          | inl low_b ↦ Joins-left fuel k depth p a b at low_a low_b (
              make_middle-IsJoined fuel k (depth + 1) (2 * p) a b (omega arith) (omega arith) less
                (omega (arith, step_a, begin_a, low_a)) (omega (arith, step_b, begin_b, low_b)))
          | inr high_b ↦ Joins-apart fuel k depth p a b at begin_a begin_b low_a high_b
        ]
        | inr high_a ↦
            let high_b : bit_of k b ≡ 1 =
              ground (arith, mono, high_a, step_a, step_b, begin_a, begin_b) in
            Joins-right fuel k depth p a b at high_a high_b (
              make_middle-IsJoined fuel k (depth + 1) (2 * p + 1) a b (omega arith) (omega arith)
                less (omega (arith, step_a, begin_a, high_a))
                (omega (arith, step_b, begin_b, high_b)))
      ]

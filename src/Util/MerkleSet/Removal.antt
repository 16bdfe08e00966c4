-- ===== src/Util/MerkleSet/Removal.antt =====
-- The hashes of a tree after one is removed.
use gold_blockchain.Base.{
  ℕ, zero, suc, ◌+◌, ◌*◌, ◌/◌, ◌^◌, ◌<◌, ◌≡◌, refl, sym, ap, ◌∙◌, inl, inr, Bool, true, false, not,
  ◌&&◌, List, arith, ◌==◌, if◌then◌else◌, ==_iff, Bool-cases, ok,
}
use gold_blockchain.Util.MerkleSet.{
  Node, empty, terminal, middle, truncated, Kind, is_empty, new_middle, collapse, remove,
  remove_already_hashed, Piece, is_included_already_hashed,
}
use gold_blockchain.Util.MerkleSet.Bits.{bit_of, get_bit-at, prefix_suc}
use gold_blockchain.Util.MerkleSet.Nodes.{IsTree, is_member, is_middle, apart, bit_cases}
use gold_blockchain.Util.MerkleSet.Lookup.{is_included_already_hashed-member, div_small}
use gold_blockchain.Util.MerkleSet.Settling.{settle}

and_false : (b : Bool) → (b && false) ≡ false
and_false b = ground arith

not_and : (b : Bool) → (not b && b) ≡ false
not_and b = ground arith

keep_other : (y h z : ℕ) → (y == h) ≡ false → (z == h) ≡ (not (z == y) && z == h)
keep_other y h z differ = ground (arith, differ)

module _ (hashdown : Kind × ℕ → Kind × ℕ → ℕ) where
  -- What a tree `t` is after `y` is removed; a middle node holds two hashes at least.
  pub record IsRemoved (k p y : ℕ) (t t' : Node) (changed : Bool) : Type 0 where
    pub tree : IsTree k p t'
    pub full : is_middle t ≡ true → is_empty t' ≡ false
    pub kept : changed ≡ false → t' ≡ t
    pub members : (z : ℕ) → z / 2 ^ k ≡ p → is_member k z t' ≡ (not (z == y) && is_member k z t)

  abbrev Removes : ℕ → ℕ → ℕ → ℕ → Node → Type 0
  Removes k depth p y t =
      (t' : Node) × (changed : Bool) × (remove hashdown t y depth ≡ ok (t', changed))
      × IsRemoved k p y t t' changed

  remove_left :
      (depth k y h : ℕ) (l r : Node) (result : Node × Bool)
      → depth + suc k ≡ 256
      → bit_of k y ≡ 0
      → remove hashdown l y (depth + 1) ≡ ok result
      → remove hashdown (middle l r h) y depth ≡ (
          if result.1
          then collapse hashdown (result.0) r (new_middle hashdown (result.0) r)
          else ok (middle l r h, false))
  unfolding remove
  remove_left depth k y h l r result at low e = rw (get_bit-at y depth k at ∙ ap ok low, e)

  remove_right :
      (depth k y h : ℕ) (l r : Node) (result : Node × Bool)
      → depth + suc k ≡ 256
      → bit_of k y ≡ 1
      → remove hashdown r y (depth + 1) ≡ ok result
      → remove hashdown (middle l r h) y depth ≡ (
          if result.1
          then collapse hashdown (result.0) l (new_middle hashdown l (result.0))
          else ok (middle l r h, false))
  unfolding remove
  remove_right depth k y h l r result at high e = rw (get_bit-at y depth k at ∙ ap ok high, e)

  -- A child that loses its last hash stood beside another one.
  not_both_empty :
      (l l' r : Node)
      → (is_empty r ≡ true → is_middle l ≡ true)
      → (is_middle l ≡ true → is_empty l' ≡ false)
      → is_empty l' ≡ true
      → is_empty r ≡ false
  not_both_empty l l' r shape full none_here = elim (Bool-cases (is_empty r)) [
    | inl none_there ↦ let some_here = full (shape none_there) in cc
    | inr some_there ↦ some_there
  ]

  removed_left :
      (k depth p y h : ℕ) (l r : Node)
      → depth + suc k ≡ 256
      → IsTree (suc k) p (middle l r h)
      → bit_of k y ≡ 0
      → Removes k (depth + 1) (2 * p) y l
      → Removes (suc k) depth p y (middle l r h)
  removed_left k depth p y h l r at (left, right, shape) low (l', true, e, removed) =
      let (t, made, _, settled) =
        settle hashdown k p l' r removed.tree right
          (not_both_empty l l' r (shape.1) removed.full) in
      (
        t,
        true,
        (remove_left depth k y h l r (l', true) at low e ∙ made),
        record {
          tree = settled.tree;
          full = λ m. settled.full;
          kept = λ c. cc;
          members = λ z begin_z. settled.members z begin_z ∙ elim (bit_cases k z) [
            | inl low_z ↦
                rw low_z (removed.members z (omega (arith, prefix_suc k z, begin_z, low_z)))
            | inr high_z ↦ rw (high_z, apart k z y (ground (arith, low, high_z)))
          ];
        },
      )
  removed_left k depth p y h l r at (left, right, shape) low (l', false, e, removed) = (
    middle l r h,
    false,
    remove_left depth k y h l r (l', false) at low e,
    record {
      tree = (left, right, shape);
      full = λ m. refl;
      kept = λ c. refl;
      members = λ z begin_z. elim (bit_cases k z) [
        | inl low_z ↦
            let same : is_member k z l' ≡ is_member k z l =
              ap (is_member k z) (removed.kept refl) in
            rw low_z (sym same ∙ removed.members z (omega (arith, prefix_suc k z, begin_z, low_z)))
        | inr high_z ↦ rw (high_z, apart k z y (ground (arith, low, high_z)))
      ];
    },
  )

  removed_right :
      (k depth p y h : ℕ) (l r : Node)
      → depth + suc k ≡ 256
      → IsTree (suc k) p (middle l r h)
      → bit_of k y ≡ 1
      → Removes k (depth + 1) (2 * p + 1) y r
      → Removes (suc k) depth p y (middle l r h)
  removed_right k depth p y h l r at (left, right, shape) high (r', true, e, removed) =
      let some_left = not_both_empty r r' l (shape.0) removed.full in
      let (t, _, made, settled) = settle hashdown k p l r' left removed.tree (λ none_left.
        elim (Bool-cases (is_empty r')) [
          | inl none_right ↦ let some_here = some_left none_right in cc
          | inr some_right ↦ some_right
        ]) in
      (
        t,
        true,
        (remove_right depth k y h l r (r', true) at high e ∙ made),
        record {
          tree = settled.tree;
          full = λ m. settled.full;
          kept = λ c. cc;
          members = λ z begin_z. settled.members z begin_z ∙ elim (bit_cases k z) [
            | inl low_z ↦ rw (low_z, apart k z y (ground (arith, high, low_z)))
            | inr high_z ↦
                rw high_z (removed.members z (omega (arith, prefix_suc k z, begin_z, high_z)))
          ];
        },
      )
  removed_right k depth p y h l r at (left, right, shape) high (r', false, e, removed) = (
    middle l r h,
    false,
    remove_right depth k y h l r (r', false) at high e,
    record {
      tree = (left, right, shape);
      full = λ m. refl;
      kept = λ c. refl;
      members = λ z begin_z. elim (bit_cases k z) [
        | inl low_z ↦ rw (low_z, apart k z y (ground (arith, high, low_z)))
        | inr high_z ↦
            let same : is_member k z r' ≡ is_member k z r =
              ap (is_member k z) (removed.kept refl) in
            rw high_z
              (sym same ∙ removed.members z (omega (arith, prefix_suc k z, begin_z, high_z)))
      ];
    },
  )

  removed_terminal : (k depth p y h : ℕ) → h / 2 ^ k ≡ p → Removes k depth p y (terminal h)
  unfolding remove
  removed_terminal k depth p y h begin_h = elim (Bool-cases (y == h)) [
    | inl same ↦ (
      empty,
      true,
      rw same refl,
      record {
        tree = tt;
        full = λ m. cc;
        kept = λ c. cc;
        members = λ z begin_z. let e = (==_iff y h).0 same in rw e (sym (not_and (z == h)));
      },
    )
    | inr differ ↦ (
      terminal h,
      false,
      rw differ refl,
      record {
        tree = begin_h;
        full = λ m. refl;
        kept = λ c. refl;
        members = λ z begin_z. keep_other y h z differ;
      },
    )
  ]

  remove-IsRemoved :
      (k depth p y : ℕ) (t : Node)
      → depth + k ≡ 256
      → y / 2 ^ k ≡ p
      → IsTree k p t
      → Removes k depth p y t
  unfolding remove
  remove-IsRemoved k depth p y empty at begin_y tree = (
    empty,
    false,
    refl,
    record {
      tree = tt;
      full = λ m. cc;
      kept = λ c. refl;
      members = λ z begin_z. sym (and_false (not (z == y)));
    },
  )
  remove-IsRemoved k depth p y (terminal h) at begin_y tree = removed_terminal k depth p y h tree
  remove-IsRemoved k depth p y (truncated h) at begin_y tree = absurd tree
  remove-IsRemoved zero depth p y (middle l r h) at begin_y tree = absurd tree
  remove-IsRemoved (suc k) depth p y (middle l r h) at begin_y tree = elim (bit_cases k y) [
    | inl low ↦ removed_left k depth p y h l r at tree low (
        remove-IsRemoved k (depth + 1) (2 * p) y l (omega arith)
          (omega (arith, prefix_suc k y, low, begin_y)) (tree.0))
    | inr high ↦ removed_right k depth p y h l r at tree high (
        remove-IsRemoved k (depth + 1) (2 * p + 1) y r (omega arith)
          (omega (arith, prefix_suc k y, high, begin_y)) (tree.1))
  ]

  -- A hash of 256 bits can be removed from a set whose hashes stand where their bits say; the new
  -- set is of that kind too, it holds what the old one held except for the hash, and `is_included`
  -- answers so for every hash of 256 bits.
  pub remove_already_hashed_lem :
      (root : Node) (toremove : ℕ)
      → IsTree 256 0 root
      → toremove < 2 ^ 256
      → (root' : Node) × (remove_already_hashed hashdown root toremove ≡ ok root')
        × IsTree 256 0 root'
        × ((y : ℕ)
            → y < 2 ^ 256
            → (pieces : List Piece) × (is_included_already_hashed root' y
                ≡ ok ((not (y == toremove) && is_member 256 y root), pieces)))
        × ((y : ℕ)
            → (pieces : List Piece) × (is_included_already_hashed root y
                ≡ ok (is_member 256 y root, pieces)))
  unfolding remove_already_hashed
  remove_already_hashed_lem root toremove tree small =
      let (root', changed, e, removed) =
        remove-IsRemoved 256 0 0 toremove root refl (div_small toremove small) tree in
      (
        root',
        rw e refl,
        removed.tree,
        (λ y small_y.
            let (pieces, found) = is_included_already_hashed-member root' y removed.tree in
            (
              pieces,
              found ∙ ap (λ (b : Bool). ok (b, pieces)) (removed.members y (div_small y small_y)),
            )),
        (λ y. is_included_already_hashed-member root y tree),
      )

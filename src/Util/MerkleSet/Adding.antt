-- ===== src/Util/MerkleSet/Adding.antt =====
-- The hashes of a tree after one is added.
use gold_blockchain.Base.{
  ℕ, zero, suc, ◌+◌, ◌*◌, ◌/◌, ◌^◌, ◌<◌, ◌≡◌, refl, sym, ap, ◌∙◌, inl, inr, Bool, true, false, ◌||◌,
  List, arith, ltb, ◌==◌, if◌then◌else◌, ltb→lt, ==_iff, Bool-cases, Result, ok, ◌>>=◌,
}
use gold_blockchain.Util.MerkleSet.{
  Node, empty, terminal, middle, truncated, Kind, new_middle, add, add_already_hashed, Piece,
  is_included_already_hashed,
}
use gold_blockchain.Util.MerkleSet.Bits.{bit_of, get_bit-at, prefix_suc}
use gold_blockchain.Util.MerkleSet.Nodes.{
  IsTree, is_member, is_middle-ne_empty, bit_cases, or_false, or_same, or_comm,
}
use gold_blockchain.Util.MerkleSet.Joining.{IsJoined, make_middle-IsJoined}
use gold_blockchain.Util.MerkleSet.Lookup.{is_included_already_hashed-member, div_small}
use gold_blockchain.Util.MerkleSet.Rebuilding.{
  IsAdded, rebuilt_left, rebuilt_right, same_left, same_right,
}

module _ (hashdown : Kind × ℕ → Kind × ℕ → ℕ) where
  joined-IsAdded :
      (k p y h a b : ℕ) (t : Node)
      → IsJoined hashdown k p a b t
      → ((z : ℕ) → (z == a || z == b) ≡ (z == y || z == h))
      → IsAdded k p y (terminal h) t true
  joined-IsAdded k p y h a b t joined same = record {
    tree = joined.tree;
    full = is_middle-ne_empty t joined.mid;
    mid = λ m. joined.mid;
    kept = λ c. cc;
    members = λ z begin_z. joined.members z begin_z ∙ same z;
  }

  IsAdded-terminal :
      (k depth p y h : ℕ)
      → depth + k ≡ 256
      → y / 2 ^ k ≡ p
      → h / 2 ^ k ≡ p
      → (t' : Node) × (changed : Bool) × (add hashdown (terminal h) y depth ≡ ok (t', changed))
        × IsAdded k p y (terminal h) t' changed
  unfolding add
  IsAdded-terminal k depth p y h at begin_y begin_h = elim (Bool-cases (y == h)) [
    | inl same ↦ (
      terminal h,
      false,
      rw same refl,
      record {
        tree = begin_h;
        full = refl;
        mid = λ m. m;
        kept = λ c. refl;
        members = λ z begin_z. let e = (==_iff y h).0 same in rw e (sym (or_same (z == h)));
      },
    )
    | inr differ ↦ elim (Bool-cases (ltb h y)) [
      | inl above ↦
          let (t, made, joined) =
            make_middle-IsJoined hashdown 257 k depth p h y at (omega arith) (ltb→lt h y above)
              begin_h begin_y in
          (
            t,
            true,
            rw (differ, above, made) refl,
            joined-IsAdded k p y h h y t joined (λ z. or_comm (z == h) (z == y)),
          )
      | inr below ↦
          let (t, made, joined) =
            make_middle-IsJoined hashdown 257 k depth p y h at (omega arith)
              (ground (arith, below, differ)) begin_y begin_h in
          (t, true, rw (differ, below, made) refl, joined-IsAdded k p y h y h t joined (λ z. refl))
    ]
  ]

  add_left :
      (depth k y h : ℕ) (l r : Node) (result : Node × Bool)
      → depth + suc k ≡ 256
      → bit_of k y ≡ 0
      → add hashdown l y (depth + 1) ≡ ok result
      → add hashdown (middle l r h) y depth ≡ (
          let new = (do node ← new_middle hashdown (result.0) r; ok (node, true)) in
          if result.1 then new else ok (middle l r h, false))
  unfolding add
  add_left depth k y h l r result at low e = rw (get_bit-at y depth k at ∙ ap ok low, e)

  add_right :
      (depth k y h : ℕ) (l r : Node) (result : Node × Bool)
      → depth + suc k ≡ 256
      → bit_of k y ≡ 1
      → add hashdown r y (depth + 1) ≡ ok result
      → add hashdown (middle l r h) y depth ≡ (
          let new = (do node ← new_middle hashdown l (result.0); ok (node, true)) in
          if result.1 then new else ok (middle l r h, false))
  unfolding add
  add_right depth k y h l r result at high e = rw (get_bit-at y depth k at ∙ ap ok high, e)

  -- That adding `y` at `depth` gives the tree with it.
  abbrev Adds : ℕ → ℕ → ℕ → ℕ → Node → Type 0
  Adds k depth p y t =
      (t' : Node) × (changed : Bool) × (add hashdown t y depth ≡ ok (t', changed))
      × IsAdded k p y t t' changed

  added_left :
      (k depth p y h : ℕ) (l r : Node)
      → depth + suc k ≡ 256
      → IsTree (suc k) p (middle l r h)
      → bit_of k y ≡ 0
      → Adds k (depth + 1) (2 * p) y l
      → Adds (suc k) depth p y (middle l r h)
  added_left k depth p y h l r at tree low (l', true, e, added) =
      let (t, made, done) = rebuilt_left hashdown k p y h l l' r true tree low added in
      (
        t,
        true,
        (add_left depth k y h l r (l', true) at low e
            ∙ ap (λ (x : Result Node). do node ← x; ok (node, true)) made),
        done,
      )
  added_left k depth p y h l r at tree low (l', false, e, added) = (
    middle l r h,
    false,
    add_left depth k y h l r (l', false) at low e,
    same_left hashdown k p y h l l' r tree low added,
  )

  added_right :
      (k depth p y h : ℕ) (l r : Node)
      → depth + suc k ≡ 256
      → IsTree (suc k) p (middle l r h)
      → bit_of k y ≡ 1
      → Adds k (depth + 1) (2 * p + 1) y r
      → Adds (suc k) depth p y (middle l r h)
  added_right k depth p y h l r at tree high (r', true, e, added) =
      let (t, made, done) = rebuilt_right hashdown k p y h l r r' true tree high added in
      (
        t,
        true,
        (add_right depth k y h l r (r', true) at high e
            ∙ ap (λ (x : Result Node). do node ← x; ok (node, true)) made),
        done,
      )
  added_right k depth p y h l r at tree high (r', false, e, added) = (
    middle l r h,
    false,
    add_right depth k y h l r (r', false) at high e,
    same_right hashdown k p y h l r r' tree high added,
  )

  add-IsAdded :
      (k depth p y : ℕ) (t : Node)
      → depth + k ≡ 256
      → y / 2 ^ k ≡ p
      → IsTree k p t
      → Adds k depth p y t
  unfolding add
  add-IsAdded k depth p y empty at begin_y tree = (
    terminal y,
    true,
    refl,
    record {
      tree = begin_y;
      full = refl;
      mid = λ m. cc;
      kept = λ c. cc;
      members = λ z begin_z. sym (or_false (z == y));
    },
  )
  add-IsAdded k depth p y (terminal h) at begin_y tree =
      IsAdded-terminal k depth p y h at begin_y tree
  add-IsAdded k depth p y (truncated h) at begin_y tree = absurd tree
  add-IsAdded zero depth p y (middle l r h) at begin_y tree = absurd tree
  add-IsAdded (suc k) depth p y (middle l r h) at begin_y tree = elim (bit_cases k y) [
    | inl low ↦ added_left k depth p y h l r at tree low (
        add-IsAdded k (depth + 1) (2 * p) y l (omega arith)
          (omega (arith, prefix_suc k y, low, begin_y)) (tree.0))
    | inr high ↦ added_right k depth p y h l r at tree high (
        add-IsAdded k (depth + 1) (2 * p + 1) y r (omega arith)
          (omega (arith, prefix_suc k y, high, begin_y)) (tree.1))
  ]

  -- A hash of 256 bits can be added to a set whose hashes stand where their bits say; the new set
  -- is of that kind too, it holds the hash and what the old one held, and `is_included` answers
  -- so for every hash of 256 bits.
  pub add_already_hashed_lem :
      (root : Node) (toadd : ℕ)
      → IsTree 256 0 root
      → toadd < 2 ^ 256
      → (root' : Node) × (add_already_hashed hashdown root toadd ≡ ok root')
        × IsTree 256 0 root'
        × ((y : ℕ)
            → y < 2 ^ 256
            → (pieces : List Piece) × (is_included_already_hashed root' y
                ≡ ok ((y == toadd || is_member 256 y root), pieces)))
        × ((y : ℕ)
            → (pieces : List Piece) × (is_included_already_hashed root y
                ≡ ok (is_member 256 y root, pieces)))
  unfolding add_already_hashed
  add_already_hashed_lem root toadd tree small =
      let (root', changed, e, added) =
        add-IsAdded 256 0 0 toadd root refl (div_small toadd small) tree in
      (
        root',
        rw e refl,
        added.tree,
        (λ y small_y.
            let (pieces, found) = is_included_already_hashed-member root' y added.tree in
            (
              pieces,
              found ∙ ap (λ (b : Bool). ok (b, pieces)) (added.members y (div_small y small_y)),
            )),
        (λ y. is_included_already_hashed-member root y tree),
      )

-- ===== src/Util/MerkleSet/Lookup.antt =====
-- What the lookup of a hash in a tree answers.
use gold_blockchain.Base.{
  ℕ, zero, suc, ◌+◌, ◌*◌, ◌/◌, ◌^◌, ◌<◌, ◌≡◌, refl, inl, inr, Bool, true, false, not, List, [], ◌∷◌,
  ◌++◌, arith, Bool-cases, ok,
}
use gold_blockchain.Util.MerkleSet.{
  Node, empty, terminal, middle, truncated, is_empty, Piece, empty_piece, terminal_piece,
  middle_piece, truncated_piece, other_included, is_included, is_included_already_hashed,
}
use gold_blockchain.Util.MerkleSet.Bits.{bit_of, get_bit-at}
use gold_blockchain.Util.MerkleSet.Nodes.{IsTree, is_member, is_double-returns, bit_cases}

other_included-returns :
    (k p : ℕ) (t : Node) (run : Bool × List Piece) (collapsed : Bool)
    → IsTree k p t
    → (pieces : List Piece) × (other_included t (ok run) collapsed ≡ ok pieces)
unfolding other_included
other_included-returns k p empty run collapsed tree = (empty_piece ∷ [], refl)
other_included-returns k p (terminal h) run collapsed tree = (terminal_piece h ∷ [], refl)
other_included-returns k p (truncated h) run collapsed tree = absurd tree
other_included-returns k p (middle l r h) run true tree = (truncated_piece h ∷ [], refl)
other_included-returns k p (middle l r h) run false tree =
    let (double, e) = is_double-returns k p (middle l r h) tree refl in
    elim (Bool-cases double) [
      | inl two ↦ (run.1, rw (e, two) refl)
      | inr more ↦ (truncated_piece h ∷ [], rw (e, more) refl)
    ]

-- What a lookup answers.
abbrev pub Finds : Node → ℕ → ℕ → Bool → Type 0
Finds t y depth found = (pieces : List Piece) × (is_included t y depth ≡ ok (found, pieces))

found_left :
    (k depth p y h : ℕ) (l r : Node) (found other : Bool)
    → depth + suc k ≡ 256
    → bit_of k y ≡ 0
    → IsTree k (2 * p + 1) r
    → Finds l y (depth + 1) found
    → Finds r y (depth + 1) other
    → Finds (middle l r h) y depth found
unfolding is_included
found_left k depth p y h l r found other at low tree (pieces, e) (pieces', e') =
    let (rest, written) =
      other_included-returns k (2 * p + 1) r (other, pieces') (not (is_empty l)) tree in
    (middle_piece ∷ pieces ++ rest, rw (get_bit-at y depth k at, low, e, e', written) refl)

found_right :
    (k depth p y h : ℕ) (l r : Node) (found other : Bool)
    → depth + suc k ≡ 256
    → bit_of k y ≡ 1
    → IsTree k (2 * p) l
    → Finds r y (depth + 1) found
    → Finds l y (depth + 1) other
    → Finds (middle l r h) y depth found
unfolding is_included
found_right k depth p y h l r found other at high tree (pieces, e) (pieces', e') =
    let (rest, written) =
      other_included-returns k (2 * p) l (other, pieces') (not (is_empty r)) tree in
    (middle_piece ∷ rest ++ pieces, rw (get_bit-at y depth k at, high, e, e', written) refl)

pub is_included-member :
    (k depth p y : ℕ) (t : Node)
    → depth + k ≡ 256
    → IsTree k p t
    → Finds t y depth (is_member k y t)
unfolding is_included
is_included-member k depth p y empty at tree = (empty_piece ∷ [], refl)
is_included-member k depth p y (terminal h) at tree = (terminal_piece h ∷ [], refl)
is_included-member k depth p y (truncated h) at tree = absurd tree
is_included-member zero depth p y (middle l r h) at tree = absurd tree
is_included-member (suc k) depth p y (middle l r h) at (left, right, shape) =
    let in_left = is_included-member k (depth + 1) (2 * p) y l (omega arith) left in
    let in_right = is_included-member k (depth + 1) (2 * p + 1) y r (omega arith) right in
    elim (bit_cases k y) [
      | inl low ↦ rw low (
          found_left k depth p y h l r (is_member k y l) (is_member k y r) at low right in_left
            in_right)
      | inr high ↦ rw high (
          found_right k depth p y h l r (is_member k y r) (is_member k y l) at high left in_right
            in_left)
    ]

-- The same of a root.
pub is_included_already_hashed-member :
    (root : Node) (y : ℕ)
    → IsTree 256 0 root
    → (pieces : List Piece) × (is_included_already_hashed root y
        ≡ ok (is_member 256 y root, pieces))
unfolding is_included_already_hashed
is_included_already_hashed-member root y tree = is_included-member 256 0 0 y root refl tree

pub div_small : (y : ℕ) → y < 2 ^ 256 → y / 2 ^ 256 ≡ 0
div_small y small = ground (arith, small)

-- ===== src/Util/MerkleSet/Nodes.antt =====
-- Trees whose hashes stand where their bits say, and the nodes that are built from them.
use gold_blockchain.Base.{
  ℕ, zero, suc, ◌+◌, ◌*◌, ◌/◌, ◌^◌, ◌<◌, ◌≡◌, refl, ◌⊎◌, inl, inr, Bool, true, false, ◌&&◌, ◌||◌,
  arith, leb, ◌==◌, if◌then◌else◌, ==_iff, ==_refl, Bool-cases, ok,
}
use gold_blockchain.Util.MerkleSet.{
  Node, empty, terminal, middle, truncated, Kind, node_hash, is_empty, is_terminal, is_double,
  get_hash, hashed, new_middle,
}
use gold_blockchain.Util.MerkleSet.Bits.{bit_of, lt_of_prefix}

abbrev pub is_middle : Node → Bool
is_middle empty = false
is_middle (terminal h) = false
is_middle (middle l r h) = true
is_middle (truncated h) = false

pub is_middle-ne_empty : (t : Node) → is_middle t ≡ true → is_empty t ≡ false
is_middle-ne_empty empty mid = cc
is_middle-ne_empty (terminal h) mid = cc
is_middle-ne_empty (truncated h) mid = cc
is_middle-ne_empty (middle l r h) mid = refl

pub not_both : (t : Node) → is_middle t ≡ true → is_empty t ≡ true → ⊥
not_both t mid none_here = let some_here = is_middle-ne_empty t mid in cc

pub or_false : (b : Bool) → (b || false) ≡ b
or_false b = ground arith

pub or_same : (b : Bool) → (b || b) ≡ b
or_same b = ground arith

pub or_comm : (a b : Bool) → (a || b) ≡ (b || a)
or_comm a b = ground arith

-- Hashes with different bits.
pub apart : (k y a : ℕ) → (bit_of k y == bit_of k a) ≡ false → (y == a) ≡ false
apart k y a differ = elim (Bool-cases (y == a)) [
  | inl same ↦
      let e = (==_iff y a).0 same in
      let f : (bit_of k y == bit_of k a) ≡ true = rw e (==_refl (bit_of k a)) in cc
  | inr other ↦ other
]

pub bit_cases : (k y : ℕ) → (bit_of k y ≡ 0) ⊎ (bit_of k y ≡ 1)
bit_cases k y = elim (Bool-cases (bit_of k y == 0)) [
  | inl low ↦ inl ((==_iff (bit_of k y) 0).0 low)
  | inr high ↦ inr (ground (arith, high))
]

-- Two children of a middle node: beside an empty one stands a middle node.
abbrev pub AreChildren : Node → Node → Type 0
AreChildren l r =
    (is_empty l ≡ true → is_middle r ≡ true) × (is_empty r ≡ true → is_middle l ≡ true)

-- A tree of hashes with a common beginning `p` before their last `k` bits.
abbrev pub IsTree : ℕ → ℕ → Node → Type 0
IsTree k p empty = Unit
IsTree k p (terminal h) = h / 2 ^ k ≡ p
IsTree k p (truncated h) = ⊥
IsTree zero p (middle l r h) = ⊥
IsTree (suc k) p (middle l r h) = IsTree k (2 * p) l × IsTree k (2 * p + 1) r × AreChildren l r

-- The hashes of a tree, by their bits.
abbrev pub is_member : ℕ → ℕ → Node → Bool
is_member k y empty = false
is_member k y (terminal h) = y == h
is_member k y (truncated h) = false
is_member zero y (middle l r h) = false
is_member (suc k) y (middle l r h) =
    let left = is_member k y l in
    let right = is_member k y r in if bit_of k y == 0 then left else right

pub is_double-returns :
    (k p : ℕ) (t : Node) → IsTree k p t → is_middle t ≡ true → (b : Bool) × (is_double t ≡ ok b)
unfolding is_double
is_double-returns k p empty tree mid = cc
is_double-returns k p (terminal h) tree mid = cc
is_double-returns k p (truncated h) tree mid = absurd tree
is_double-returns zero p (middle l r h) tree mid = absurd tree
is_double-returns (suc k) p (middle l r h) (left, right, shape) mid =
    elim (Bool-cases (is_empty l)) [
      | inl none_left ↦
          let (b, e) = is_double-returns k (2 * p + 1) r right (shape.0 none_left) in
          (b, rw none_left e)
      | inr some_left ↦ elim (Bool-cases (is_empty r)) [
        | inl none_right ↦
            let (b, e) = is_double-returns k (2 * p) l left (shape.1 none_right) in
            (b, rw (some_left, none_right) e)
        | inr some_right ↦ (is_terminal l && is_terminal r, rw (some_left, some_right))
      ]
    ]

module _ (hashdown : Kind × ℕ → Kind × ℕ → ℕ) where
  hashed_lem :
      (k p : ℕ) (l r : Node)
      → IsTree k (2 * p) l
      → IsTree k (2 * p + 1) r
      → AreChildren l r
      → hashed hashdown l r ≡ ok (middle l r (hashdown (get_hash l) (get_hash r)))
  unfolding hashed
  hashed_lem k p (terminal a) (terminal b) left right shape =
      let less : a < b = lt_of_prefix k a b (omega (arith, left, right)) in
      let ordered : leb b a ≡ false = ground (arith, less) in rw ordered
  hashed_lem k p empty empty left right shape = ground arith
  hashed_lem k p empty r left right shape = ground arith
  hashed_lem k p l empty left right shape = ground arith
  hashed_lem k p l r left right shape = ground arith

  -- A middle node of two trees.
  pub new_middle-returns :
      (k p : ℕ) (l r : Node)
      → IsTree k (2 * p) l
      → IsTree k (2 * p + 1) r
      → AreChildren l r
      → (h : ℕ) × (new_middle hashdown l r ≡ ok (middle l r h))
  unfolding new_middle
  new_middle-returns k p l r left right shape = elim (Bool-cases (is_empty l)) [
    | inl none_left ↦
        let (double, e) = is_double-returns k (2 * p + 1) r right (shape.0 none_left) in
        let some_right = is_middle-ne_empty r (shape.0 none_left) in
        elim (Bool-cases double) [
          | inl two ↦ (node_hash r, rw (none_left, e, two))
          | inr not_two ↦ (
            hashdown (get_hash l) (get_hash r),
            rw (none_left, e, not_two, some_right) (hashed_lem k p l r left right shape),
          )
        ]
    | inr some_left ↦ elim (Bool-cases (is_empty r)) [
      | inl none_right ↦
          let (double, e) = is_double-returns k (2 * p) l left (shape.1 none_right) in
          elim (Bool-cases double) [
            | inl two ↦ (node_hash l, rw (some_left, none_right, e, two))
            | inr not_two ↦ (
              hashdown (get_hash l) (get_hash r),
              rw (some_left, none_right, e, not_two) (hashed_lem k p l r left right shape),
            )
          ]
      | inr some_right ↦ (
        hashdown (get_hash l) (get_hash r),
        rw (some_left, some_right) (hashed_lem k p l r left right shape),
      )
    ]
  ]

-- ===== src/Util/MerkleSet.antt =====
-- chia/util/merkle_set.py: the nodes of a Merkle set and how hashes are added, removed and looked
-- up. A hash of 32 bytes is the number with these bytes; the hash of a pair of children is a
-- parameter. A node carries its hash as in the source. A lookup lists the pieces of its
-- proof, which the source joins to bytes.
pub mod Bits
pub mod Nodes
pub mod Joining
pub mod Lookup
pub mod Rebuilding
pub mod Adding
pub mod Settling
pub mod Removal
use gold_blockchain.Base.{
  ℕ, zero, suc, ◌+◌, ◌-◌, ◌/◌, ◌%◌, ◌^◌, Bool, true, false, not, ◌&&◌, ◌||◌, List, [], ◌∷◌, ◌++◌,
  ltb, leb, ◌==◌, if◌then◌else◌, index_error, set_error, no_fuel, Result, ok, err, ◌>>=◌, ◌>>◌,
}

pub data Node : Type 0 where
  empty : Node
  terminal : ℕ → Node
  middle : Node → Node → ℕ → Node
  truncated : ℕ → Node

-- The byte that tags a hash.
pub data Kind : Type 0 where
  empty_kind terminal_kind middle_kind : Kind

abbrev pub node_hash : Node → ℕ
node_hash empty = 0
node_hash (terminal h) = h
node_hash (middle l r h) = h
node_hash (truncated h) = h

unfoldable pub get_hash : Node → Kind × ℕ
get_hash empty = (empty_kind, 0)
get_hash (terminal h) = (terminal_kind, h)
get_hash (middle l r h) = (middle_kind, h)
get_hash (truncated h) = (middle_kind, h)

abbrev pub is_empty : Node → Bool
is_empty empty = true
is_empty (terminal h) = false
is_empty (middle l r h) = false
is_empty (truncated h) = false

abbrev pub is_terminal : Node → Bool
is_terminal empty = false
is_terminal (terminal h) = true
is_terminal (middle l r h) = false
is_terminal (truncated h) = false

unfoldable pub is_double : Node → Result Bool
is_double empty = err set_error
is_double (terminal h) = err set_error
is_double (truncated h) = ok false
is_double (middle l r h) =
    let left = is_double l in
    let right = is_double r in
    if is_empty l then right else if is_empty r then left else ok (is_terminal l && is_terminal r)

-- Bit `pos` of 32 bytes, the highest one first.
unfoldable pub get_bit : ℕ → ℕ → Result ℕ
get_bit hash pos = if ltb pos 256 then ok (hash / 2 ^ (255 - pos) % 2) else err index_error

module _ (hashdown : Kind × ℕ → Kind × ℕ → ℕ) where
  -- The checks of `MiddleNode`, and the hash of two children that are hashed together.
  unfoldable pub hashed : Node → Node → Result Node
  unfolding get_hash
  hashed l r =
      if is_empty l && (is_empty r || is_terminal r)
      then err set_error
      else if is_empty r && is_terminal l
      then err set_error
      else if is_terminal l && is_terminal r && leb (node_hash r) (node_hash l)
      then err set_error
      else ok (middle l r (hashdown (get_hash l) (get_hash r)))

  -- `MiddleNode(children)`: exactly two hashes beside an empty child keep their hash.
  unfoldable pub new_middle : Node → Node → Result Node
  new_middle l r = do
    left ← (if is_empty l then is_double r else ok false)
    right ← (if not left && is_empty r then is_double l else ok false)
    (if left
        then ok (middle l r (node_hash r))
        else if right
        then ok (middle l r (node_hash l))
        else hashed l r)

  -- `_make_middle`, on the hashes of two terminal nodes.
  unfoldable pub make_middle : ℕ → ℕ → ℕ → ℕ → Result Node
  unfolding new_middle get_bit
  make_middle zero a b depth = err no_fuel
  make_middle (suc fuel) a b depth = do
    bit_a ← get_bit a depth
    bit_b ← get_bit b depth
    let deeper = (do
      rest ← make_middle fuel a b (depth + 1)
      (if bit_a == 0 then new_middle rest empty else new_middle empty rest))
    (if bit_a == bit_b then deeper else new_middle (terminal a) (terminal b))

  -- The node after adding a hash, and whether it is another one.
  unfoldable pub add : Node → ℕ → ℕ → Result (Node × Bool)
  unfolding make_middle
  add empty toadd depth = ok (terminal toadd, true)
  add (truncated h) toadd depth = ok (truncated h, false)
  add (terminal h) toadd depth =
      let joined =
        if ltb h toadd then make_middle 257 h toadd depth else make_middle 257 toadd h depth in
      if toadd == h then ok (terminal h, false) else (do node ← joined; ok (node, true))
  add (middle l r h) toadd depth = do
    bit ← get_bit toadd depth
    let in_left = (do
      (l', changed) ← add l toadd (depth + 1)
      let new = (do node ← new_middle l' r; ok (node, true))
      (if changed then new else ok (middle l r h, false)))
    let in_right = (do
      (r', changed) ← add r toadd (depth + 1)
      let new = (do node ← new_middle l r'; ok (node, true))
      (if changed then new else ok (middle l r h, false)))
    (if bit == 0 then in_left else in_right)

  -- What a middle node becomes when one child has changed: a single hash moves up.
  unfoldable pub collapse : Node → Node → Result Node → Result (Node × Bool)
  collapse newchild otherchild rebuilt =
      let new = (do node ← rebuilt; ok (node, true)) in
      if is_empty newchild && is_terminal otherchild
      then ok (otherchild, true)
      else if is_terminal newchild && is_empty otherchild
      then ok (newchild, true)
      else new

  unfoldable pub remove : Node → ℕ → ℕ → Result (Node × Bool)
  unfolding new_middle collapse get_bit
  remove empty toremove depth = ok (empty, false)
  remove (truncated h) toremove depth = ok (truncated h, false)
  remove (terminal h) toremove depth =
      ok (if toremove == h then (empty, true) else (terminal h, false))
  remove (middle l r h) toremove depth = do
    bit ← get_bit toremove depth
    let in_left = (do
      (l', changed) ← remove l toremove (depth + 1)
      (if changed then collapse l' r (new_middle l' r) else ok (middle l r h, false)))
    let in_right = (do
      (r', changed) ← remove r toremove (depth + 1)
      (if changed then collapse r' l (new_middle l r') else ok (middle l r h, false)))
    (if bit == 0 then in_left else in_right)

  -- The root after the two methods of `MerkleSet`.
  unfoldable pub add_already_hashed : Node → ℕ → Result Node
  unfolding add
  add_already_hashed root toadd = do (node, _) ← add root toadd 0; ok node

  unfoldable pub remove_already_hashed : Node → ℕ → Result Node
  unfolding remove
  remove_already_hashed root toremove = do (node, _) ← remove root toremove 0; ok node

-- The pieces that a proof is put together from.
pub data Piece : Type 0 where
  empty_piece : Piece
  terminal_piece : ℕ → Piece
  middle_piece : Piece
  truncated_piece : ℕ → Piece

-- What `other_included` appends for a node, given the run of `is_included` on it.
unfoldable pub other_included : Node → Result (Bool × List Piece) → Bool → Result (List Piece)
unfolding is_double
other_included empty included collapsed = ok (empty_piece ∷ [])
other_included (terminal h) included collapsed = ok (terminal_piece h ∷ [])
other_included (truncated h) included collapsed = ok (truncated_piece h ∷ [])
other_included (middle l r h) included collapsed = do
  double ← (if collapsed then ok false else is_double (middle l r h))
  let proof = (do (_, pieces) ← included; ok pieces)
  (if double then proof else ok (truncated_piece h ∷ []))

-- Whether a hash is in the tree, and the pieces of the proof.
unfoldable pub is_included : Node → ℕ → ℕ → Result (Bool × List Piece)
unfolding get_bit other_included
is_included empty tocheck depth = ok (false, empty_piece ∷ [])
is_included (terminal h) tocheck depth = ok (tocheck == h, terminal_piece h ∷ [])
is_included (truncated h) tocheck depth = err set_error
is_included (middle l r h) tocheck depth = do
  bit ← get_bit tocheck depth
  let in_left = is_included l tocheck (depth + 1)
  let in_right = is_included r tocheck (depth + 1)
  let from_left = (do
    (found, proof) ← in_left
    other ← other_included r in_right (not (is_empty l))
    ok (found, middle_piece ∷ proof ++ other))
  let from_right = (do
    other ← other_included l in_left (not (is_empty r))
    (found, proof) ← in_right
    ok (found, middle_piece ∷ other ++ proof))
  (if bit == 0 then from_left else from_right)

unfoldable pub is_included_already_hashed : Node → ℕ → Result (Bool × List Piece)
unfolding is_included
is_included_already_hashed root tocheck = is_included root tocheck 0

-- ===== src/Tests/Merkle.antt =====
-- Runs of the Merkle sets, and instances of their theorems.
use gold_blockchain.Base.{
  ℕ, ◌+◌, ◌^◌, ◌<◌, ◌≡◌, refl, true, not, ◌&&◌, ◌||◌, List, [], ◌∷◌, arith, ◌==◌, ok, ◌>>=◌,
}
use gold_blockchain.Util.MerkleSet.{
  Node, empty, terminal, middle, Kind, Piece, terminal_piece, middle_piece, get_bit, get_hash,
  hashed, is_double, new_middle, make_middle, add, collapse, remove, add_already_hashed,
  remove_already_hashed, is_included, is_included_already_hashed, other_included,
}
use gold_blockchain.Util.MerkleSet.Nodes.{IsTree, is_member}
use gold_blockchain.Util.MerkleSet.Adding.{add_already_hashed_lem}
use gold_blockchain.Util.MerkleSet.Removal.{remove_already_hashed_lem}

abbrev sum_hash : Kind × ℕ → Kind × ℕ → ℕ
sum_hash (kind, a) (kind', b) = a + b

-- Two hashes, the lower one with the highest bit clear.
abbrev two : Node
two = middle (terminal 1) (terminal (2 ^ 255)) (2 ^ 255 + 1)

two-IsTree : IsTree 256 0 two
two-IsTree = (refl, refl, ((λ x. cc), (λ x. cc)))

added_two :
    (do one ← add_already_hashed sum_hash empty 1; add_already_hashed sum_hash one (2 ^ 255))
    ≡ ok two
unfolding add_already_hashed add make_middle get_bit new_middle hashed get_hash is_double
added_two = refl

removed_two : remove_already_hashed sum_hash two 1 ≡ ok (terminal (2 ^ 255))
unfolding remove_already_hashed remove collapse get_bit new_middle hashed get_hash is_double
removed_two = refl

found_one :
    is_included_already_hashed two 1
    ≡ ok (true, middle_piece ∷ terminal_piece 1 ∷ terminal_piece (2 ^ 255) ∷ [])
unfolding is_included_already_hashed is_included get_bit other_included
found_one = refl

add_already_hashed_lem_example :
    (root' : Node) × (add_already_hashed sum_hash two 5 ≡ ok root')
    × IsTree 256 0 root'
    × ((y : ℕ)
        → y < 2 ^ 256
        → (pieces : List Piece) × (is_included_already_hashed root' y
            ≡ ok ((y == 5 || is_member 256 y two), pieces)))
    × ((y : ℕ)
        → (pieces : List Piece) × (is_included_already_hashed two y
            ≡ ok (is_member 256 y two, pieces)))
add_already_hashed_lem_example = add_already_hashed_lem sum_hash two 5 two-IsTree (omega arith)

remove_already_hashed_lem_example :
    (root' : Node) × (remove_already_hashed sum_hash two 1 ≡ ok root')
    × IsTree 256 0 root'
    × ((y : ℕ)
        → y < 2 ^ 256
        → (pieces : List Piece) × (is_included_already_hashed root' y
            ≡ ok ((not (y == 1) && is_member 256 y two), pieces)))
    × ((y : ℕ)
        → (pieces : List Piece) × (is_included_already_hashed two y
            ≡ ok (is_member 256 y two, pieces)))
remove_already_hashed_lem_example =
    remove_already_hashed_lem sum_hash two 1 two-IsTree (omega arith)

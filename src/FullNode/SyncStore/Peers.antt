-- ===== src/FullNode/SyncStore/Peers.antt =====
-- Which peers are found for a block, and what is left of a peer that disconnects.
use gold_blockchain.Base.{
  ℕ, ◌≡◌, refl, inl, inr, Bool, true, false, not, ◌||◌, List, [], ◌∷◌, arith, ◌==◌, ==_iff, ==_refl,
  Bool-cases, any, keep,
}
use gold_blockchain.Base.Dict.{Dict}
use gold_blockchain.FullNode.SyncStore.{
  SyncStore, add_to_set, peers_of, add_all, collect_peers, get_peers_that_have_peak, without,
  peer_disconnected,
}

-- Membership in the sets that are built up.
add_to_set-any :
    (x n : ℕ) (xs : List ℕ)
    → any (λ y. n == y) (add_to_set x xs) ≡ ((n == x) || any (λ y. n == y) xs)
add_to_set-any x n xs = elim (Bool-cases (any (λ y. x == y) xs)) [
  | inl there ↦ rw there (same x n xs there)
  | inr new ↦ rw new refl
]
  where
    same :
        (x n : ℕ) (xs : List ℕ)
        → any (λ y. x == y) xs ≡ true
        → any (λ y. n == y) xs ≡ ((n == x) || any (λ y. n == y) xs)
    same x n xs there = elim (Bool-cases (n == x)) [
      | inl e ↦ rw ((==_iff n x).0 e) (rw (==_refl x) there)
      | inr e ↦ rw e refl
    ]

add_all-any :
    (n : ℕ) (peers xs : List ℕ)
    → any (λ y. n == y) (add_all peers xs) ≡ (any (λ y. n == y) peers || any (λ y. n == y) xs)
add_all-any n [] xs = refl
add_all-any n (p ∷ peers) xs =
    ground (arith, add_all-any n peers (add_to_set p xs), add_to_set-any p n xs)

-- Whether the peer is known to have one of the blocks.
abbrev pub has_one_of : SyncStore → ℕ → List ℕ → Bool
has_one_of store node_id hashes =
    any (λ h. any (λ p. node_id == p) (peers_of store.peak_to_peer h)) hashes

collect_peers-any :
    (store : SyncStore) (n : ℕ) (hashes xs : List ℕ)
    → any (λ y. n == y) (collect_peers store hashes xs)
      ≡ (has_one_of store n hashes || any (λ y. n == y) xs)
collect_peers-any store n [] xs = refl
collect_peers-any store n (h ∷ hashes) xs = ground (
  arith,
  collect_peers-any store n hashes (add_all (peers_of store.peak_to_peer h) xs),
  add_all-any n (peers_of store.peak_to_peer h) xs,
)

kept-other : (n : ℕ) (peers : List ℕ) → any (λ p. n == p) (keep (λ p. not (n == p)) peers) ≡ false
kept-other n [] = refl
kept-other n (p ∷ peers) = ground (arith, kept-other n peers)

without-peers :
    (n h : ℕ) (sets : Dict (List ℕ)) → any (λ p. n == p) (peers_of (without n sets) h) ≡ false
without-peers n h [] = refl
without-peers n h ((peak, peers) ∷ sets) =
    ground (arith, kept-other n peers, without-peers n h sets)

disconnected-absent :
    (store : SyncStore) (n : ℕ) (hashes : List ℕ)
    → has_one_of (peer_disconnected store n) n hashes ≡ false
unfolding peer_disconnected
disconnected-absent store n [] = refl
disconnected-absent store n (h ∷ hashes) =
    rw (without-peers n h store.peak_to_peer) (disconnected-absent store n hashes)

or_false : (b : Bool) → (b || false) ≡ b
or_false b = ground arith

-- The peers found for some blocks are exactly those that are known to have one of them, and none of
-- them is a peer that has disconnected.
pub peers_that_have_peak_lem :
    (store : SyncStore) (node_id : ℕ) (hashes : List ℕ)
    → (any (λ p. node_id == p) (get_peers_that_have_peak store hashes)
        ≡ has_one_of store node_id hashes)
      × (any (λ p. node_id == p) (get_peers_that_have_peak (peer_disconnected store node_id) hashes)
          ≡ false)
unfolding get_peers_that_have_peak
peers_that_have_peak_lem store node_id hashes = (
  rw (collect_peers-any store node_id hashes []) (or_false (has_one_of store node_id hashes)),
  rw (collect_peers-any (peer_disconnected store node_id) node_id hashes [])
      (rw (disconnected-absent store node_id hashes) refl),
)

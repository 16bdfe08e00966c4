-- ===== src/FullNode/SyncStore.antt =====
-- chia/full_node/sync_store.py: which peer has which block, and each peer's peak. A set of peers is
-- a list without repeats; `peers_changed`, an event, is whether it is set. The fields that nothing
-- here reads (`batch_syncing`, `backtrack_syncing`, `peak_fork_point`) are left out.
pub mod Peaks
pub mod Peers
use gold_blockchain.Base.{
  ℕ, Bool, true, false, not, ◌||◌, Option, none, some, List, [], ◌∷◌, ltb, ◌==◌, if◌then◌else◌,
  length, any, keep, assertion_error, Result, ok, err,
}
use gold_blockchain.Base.Dict.{Dict, contains, insert, lookup, erase}

pub record Peak : Type 0 where
  pub header_hash : ℕ
  pub height : ℕ
  pub weight : ℕ

pub record SyncStore : Type 0 where
  pub sync_mode : Bool
  pub long_sync : Bool
  pub peak_to_peer : Dict (List ℕ)
  pub peer_to_peak : Dict Peak
  pub sync_target_header_hash : Option ℕ
  pub sync_target_height : Option ℕ
  pub peers_changed : Bool

unfoldable pub create : SyncStore
create = record {
  sync_mode = false;
  long_sync = false;
  peak_to_peer = [];
  peer_to_peak = [];
  sync_target_header_hash = none;
  sync_target_height = none;
  peers_changed = false;
}

unfoldable pub set_peak_target : SyncStore → ℕ → ℕ → SyncStore
set_peak_target store peak_hash target_height = record store {
  sync_target_header_hash = some peak_hash;
  sync_target_height = some target_height;
}

unfoldable pub set_sync_mode : SyncStore → Bool → SyncStore
set_sync_mode store sync_mode = record store { sync_mode = sync_mode }

unfoldable pub set_long_sync : SyncStore → Bool → SyncStore
set_long_sync store long_sync = record store { long_sync = long_sync }

unfoldable pub seen_header_hash : SyncStore → ℕ → Bool
seen_header_hash store header_hash = contains header_hash store.peak_to_peer

-- `set.add`
abbrev pub add_to_set : ℕ → List ℕ → List ℕ
add_to_set x xs = if any (λ y. x == y) xs then xs else x ∷ xs

-- `header_hash == self.sync_target_header_hash`
abbrev pub is_target : SyncStore → ℕ → Bool
is_target store header_hash = elim store.sync_target_header_hash [
  | none ↦ false
  | some target ↦ header_hash == target
]

-- The peers that are known to have a block.
abbrev pub peers_of : Dict (List ℕ) → ℕ → List ℕ
peers_of peak_to_peer header_hash = elim (lookup header_hash peak_to_peer) [
  | none ↦ []
  | some peers ↦ peers
]

unfoldable pub peer_has_block : SyncStore → ℕ → ℕ → ℕ → ℕ → Bool → SyncStore
peer_has_block store header_hash peer_id weight height new_peak = record store {
  peers_changed = is_target store header_hash || store.peers_changed;
  peak_to_peer =
      insert header_hash (add_to_set peer_id (peers_of store.peak_to_peer header_hash))
        store.peak_to_peer;
  peer_to_peak =
      if new_peak
      then insert peer_id (record { header_hash = header_hash; height = height; weight = weight })
          store.peer_to_peak
      else store.peer_to_peak;
}

-- The nodes of a set added to another one by one.
abbrev pub add_all : List ℕ → List ℕ → List ℕ
add_all [] node_ids = node_ids
add_all (node_id ∷ peers) node_ids = add_all peers (add_to_set node_id node_ids)

abbrev pub collect_peers : SyncStore → List ℕ → List ℕ → List ℕ
collect_peers store [] node_ids = node_ids
collect_peers store (header_hash ∷ hashes) node_ids =
    collect_peers store hashes (add_all (peers_of store.peak_to_peer header_hash) node_ids)

unfoldable pub get_peers_that_have_peak : SyncStore → List ℕ → List ℕ
get_peers_that_have_peak store header_hashes = collect_peers store header_hashes []

abbrev pub known_peaks : SyncStore → Dict Peak → Dict Peak
known_peaks store [] = []
known_peaks store ((peer_id, v) ∷ peaks) =
    let rest = known_peaks store peaks in
    if contains v.header_hash store.peak_to_peer then (peer_id, v) ∷ rest else rest

unfoldable pub get_peak_of_each_peer : SyncStore → Dict Peak
get_peak_of_each_peer store = known_peaks store store.peer_to_peak

-- The loop, with the heaviest peak so far.
unfoldable pub heavier : SyncStore → Option Peak → Dict Peak → Option Peak
heavier store heaviest [] = heaviest
heavier store heaviest ((peer_id, peak) ∷ peaks) =
    let skipped = heavier store heaviest peaks in
    let taken = heavier store (some peak) peaks in
    if not (contains peak.header_hash store.peak_to_peer) then skipped else elim heaviest [
      | none ↦ taken
      | some best ↦ if ltb best.weight peak.weight then taken else skipped
    ]

-- The assertion fails where no peer's peak is known.
unfoldable pub get_heaviest_peak : SyncStore → Result (Option Peak)
get_heaviest_peak store =
    if length store.peer_to_peak == 0
    then ok none
    else elim (heavier store none store.peer_to_peak) [
      | none ↦ err assertion_error
      | some heaviest ↦ ok (some heaviest)
    ]

unfoldable pub clear_sync_info : SyncStore → SyncStore
clear_sync_info store = record store { peak_to_peer = [] }

-- `set.remove`, where the node is in the set.
abbrev pub without : ℕ → Dict (List ℕ) → Dict (List ℕ)
without node_id [] = []
without node_id ((peak, peers) ∷ rest) =
    (peak, keep (λ p. not (node_id == p)) peers) ∷ without node_id rest

unfoldable pub peer_disconnected : SyncStore → ℕ → SyncStore
peer_disconnected store node_id = record store {
  peer_to_peak = erase node_id store.peer_to_peak;
  peak_to_peer = without node_id store.peak_to_peer;
  peers_changed = true;
}

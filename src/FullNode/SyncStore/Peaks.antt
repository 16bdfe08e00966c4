-- ===== src/FullNode/SyncStore/Peaks.antt =====
-- The heaviest peak.
use gold_blockchain.Base.{
  ℕ, ◌≤◌, ◌<◌, ◌≡◌, refl, ◌⊎◌, inl, inr, Bool, true, false, ◌||◌, none, some, [], ◌∷◌, arith, ltb,
  ◌==◌, ltb→lt, ==-eq_false, Bool-cases, length, assertion_error, ok, err,
}
use gold_blockchain.Base.Dict.{Dict, contains}
use gold_blockchain.FullNode.SyncStore.{
  Peak, SyncStore, heavier, get_heaviest_peak, clear_sync_info,
}

-- A peak is known when some peer is known to have its block.
abbrev pub is_known : SyncStore → Peak → Bool
is_known store peak = contains peak.header_hash store.peak_to_peer

-- The peak of some peer in the list.
abbrev pub IsPeakOf : Dict Peak → Peak → Type 0
IsPeakOf [] peak = ⊥
IsPeakOf ((peer_id, p) ∷ peaks) peak = (p ≡ peak) ⊎ IsPeakOf peaks peak

-- No known peak of the list is heavier.
abbrev pub IsHeaviest : SyncStore → Dict Peak → Peak → Type 0
IsHeaviest store [] best = Unit
IsHeaviest store ((peer_id, p) ∷ peaks) best =
    ((is_known store p ≡ false) ⊎ (p.weight ≤ best.weight)) × IsHeaviest store peaks best

-- The peak is one of the list whose block is known.
abbrev pub IsKnownPeakOf : SyncStore → Dict Peak → Peak → Type 0
IsKnownPeakOf store peaks peak = IsPeakOf peaks peak × (is_known store peak ≡ true)

from_first :
    (store : SyncStore) (peer_id : ℕ) (p best : Peak) (peaks : Dict Peak)
    → is_known store p ≡ true
    → (p ≡ best) ⊎ IsKnownPeakOf store peaks best
    → IsKnownPeakOf store ((peer_id, p) ∷ peaks) best
from_first store peer_id p best peaks known (inl e) = (inl e, rw (← e) known)
from_first store peer_id p best peaks known (inr (later, k)) = (inr later, k)

from_rest :
    (store : SyncStore) (peer_id : ℕ) (p start best : Peak) (peaks : Dict Peak)
    → (start ≡ best) ⊎ IsKnownPeakOf store peaks best
    → (start ≡ best) ⊎ IsKnownPeakOf store ((peer_id, p) ∷ peaks) best
from_rest store peer_id p start best peaks (inl e) = inl e
from_rest store peer_id p start best peaks (inr (later, k)) = inr (inr later, k)

-- What the loop gives from a peak on.
heavier-some :
    (store : SyncStore) (start : Peak) (peaks : Dict Peak)
    → (best : Peak) × (heavier store (some start) peaks ≡ some best)
      × (start.weight ≤ best.weight)
      × ((start ≡ best) ⊎ IsKnownPeakOf store peaks best)
      × IsHeaviest store peaks best
unfolding heavier
heavier-some store start [] = (start, refl, omega arith, inl refl, tt)
heavier-some store start ((peer_id, p) ∷ peaks) =
    let (best, e, above, from, top) = heavier-some store start peaks in
    let (best', e', above', from', top') = heavier-some store p peaks in
    elim (Bool-cases (is_known store p)) [
      | inr unknown ↦
          rw unknown
            (best, e, above, from_rest store peer_id p start best peaks from, (inl refl, top))
      | inl known ↦ elim (Bool-cases (ltb start.weight p.weight)) [
        | inl up ↦
            rw (known, up)
              (
                best',
                e',
                omega (arith, ltb→lt _ _ up),
                inr (from_first store peer_id p best' peaks known from'),
                (inr above', top'),
              )
        | inr stay ↦
            rw (known, stay)
              (
                best,
                e,
                above,
                from_rest store peer_id p start best peaks from,
                (inr (below start p best stay above), top),
              )
      ]
    ]
  where
    below :
        (a b c : Peak) → ltb a.weight b.weight ≡ false → a.weight ≤ c.weight → b.weight ≤ c.weight
    below a b c h k = ground arith

-- Some peak of the list is known.
abbrev pub some_known : SyncStore → Dict Peak → Bool
some_known store [] = false
some_known store ((peer_id, p) ∷ peaks) = is_known store p || some_known store peaks

heavier-none :
    (store : SyncStore) (peaks : Dict Peak)
    → (some_known store peaks ≡ false → heavier store none peaks ≡ none)
      × (some_known store peaks ≡ true
          → (best : Peak) × (heavier store none peaks ≡ some best)
            × IsKnownPeakOf store peaks best
            × IsHeaviest store peaks best)
unfolding heavier
heavier-none store [] = (λ _. refl, λ h. cc)
heavier-none store ((peer_id, p) ∷ peaks) =
    let (none_there, some_there) = heavier-none store peaks in
    let (best', e', above', from', top') = heavier-some store p peaks in
    elim (Bool-cases (is_known store p)) [
      | inl known ↦ rw known (
        (λ h. cc),
        λ h. (best', e', from_first store peer_id p best' peaks known from', (inr above', top')),
      )
      | inr unknown ↦ rw unknown (
        none_there,
        λ h.
            (let (best, e, (of_peer, k), top) = some_there h in
              (best, e, (inr of_peer, k), (inl refl, top))),
      )
    ]

-- With a peer whose peak's block is known, the heaviest peak is returned: it is the peak of a peer,
-- its block is known, and no peer's known peak is heavier.
pub heaviest_peak_lem :
    (store : SyncStore)
    → some_known store store.peer_to_peak ≡ true
    → (best : Peak) × (get_heaviest_peak store ≡ ok (some best))
      × IsKnownPeakOf store store.peer_to_peak best
      × IsHeaviest store store.peer_to_peak best
unfolding get_heaviest_peak
heaviest_peak_lem store known =
    let (best, e, from, top) = (heavier-none store store.peer_to_peak).1 known in
    (best, rw (not_empty store store.peer_to_peak known, e) refl, from, top)
  where
    not_empty :
        (store : SyncStore) (peaks : Dict Peak)
        → some_known store peaks ≡ true
        → (length peaks == 0) ≡ false
    not_empty store [] e = cc
    not_empty store (x ∷ peaks) e = ground arith

unknown_after_clear :
    (store : SyncStore) (peaks : Dict Peak) → some_known (clear_sync_info store) peaks ≡ false
unfolding clear_sync_info
unknown_after_clear store [] = refl
unknown_after_clear store (x ∷ peaks) = ground (arith, unknown_after_clear store peaks)

-- After the sync information is cleared while a peer is connected, asking for the heaviest peak
-- fails an assertion.
pub heaviest_peak-cleared :
    (store : SyncStore)
    → 0 < length store.peer_to_peak
    → get_heaviest_peak (clear_sync_info store) ≡ err assertion_error
unfolding get_heaviest_peak clear_sync_info
heaviest_peak-cleared store peers =
    let cleared = clear_sync_info store in
    let unknown = unknown_after_clear store store.peer_to_peak in
    rw (==-eq_false (length store.peer_to_peak) 0 (omega arith))
      (rw ((heavier-none cleared store.peer_to_peak).0 unknown) refl)

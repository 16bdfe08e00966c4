-- ===== src/FullNode/Manager/Peaks.antt =====
-- A manager's pool after `new_peak` of chia/full_node/mempool_manager.py, and over its life.
use gold_blockchain.Base.{
  ℕ, ◌≡◌, refl, ap, ◌∙◌, inl, inr, none, some, List, [], ◌∷◌, arith, ◌==◌, Bool-cases, Option-cases,
  any, ok, Result-cases,
}
use gold_blockchain.Base.Dict.{Dict, lookup}
use gold_blockchain.Consensus.BlockRecord.{Coin}
use gold_blockchain.Consensus.Constants.{ConsensusConstants}
use gold_blockchain.FullNode.Items.{MempoolItem}
use gold_blockchain.FullNode.Mempool.{Mempool, new_mempool, add_to_pool}
use gold_blockchain.FullNode.Mempool.SortedDict.{SortedMap, IsSortedMap}
use gold_blockchain.FullNode.Mempool.Coins.{IsConsistent}
use gold_blockchain.FullNode.Mempool.Coins.Adding.{AreUnspent, IsAdded, add_to_pool-IsAdded}
use gold_blockchain.FullNode.Manager.{Manager, limit_cost, remove_seen}
use gold_blockchain.FullNode.Manager.NewPeak.{keep_item, keep_unspent}
use gold_blockchain.FullNode.Manager.Conflicts.{AreOf}
use gold_blockchain.FullNode.Manager.Sound.{IsSound, added-IsSound}

module _ {S : SortedMap (Dict MempoolItem)} (sorted_map : IsSortedMap S)
    (coin_name : Coin → ℕ) where
  pub empty-IsSound : (limit size : ℕ) → IsSound sorted_map coin_name limit (new_mempool S size)
  unfolding new_mempool
  empty-IsSound limit size = record {
    consistent = record {
      valid = record {
        distinct = tt;
        named = λ k it found. cc;
        listed =
            λ r n d it found there. ground (arith, found, ap (lookup r) sorted_map.items_empty);
        listing = λ r d found. absurd (ground (arith, found, ap (lookup r) sorted_map.items_empty));
        counted = refl;
      };
      spent_by = λ c it found. cc;
      recorded = λ c k it found spends. cc;
      distinct = tt;
    };
    balanced = λ k it found. cc;
  }

  -- A manager with a sound pool, under given constants.
  pub record IsSoundFor (c : ConsensusConstants) (m : Manager S) : Type 0 where
    pub sound : IsSound sorted_map coin_name (limit_cost c) m.mempool
    pub same : m.constants ≡ c

  pub remove_seen_pool :
      (m : Manager S) (name : ℕ)
      → ((remove_seen m name).mempool ≡ m.mempool) × ((remove_seen m name).constants ≡ m.constants)
  unfolding remove_seen
  remove_seen_pool m name = ground arith

  pub remove_seen-IsSoundFor :
      (c : ConsensusConstants) (m : Manager S) (name : ℕ)
      → IsSoundFor c m
      → IsSoundFor c (remove_seen m name)
  remove_seen-IsSoundFor c m name h =
      let (pool, constants) = remove_seen_pool m name in
      record { sound = rw pool h.sound; same = constants ∙ h.same }

  -- Items of a sound pool that are still to be put back.
  pub record ArePending (old pool : Mempool S) (items : Dict MempoolItem) : Type 0 where
    pub of : AreOf old items
    pub kept :
        (k : ℕ) (it : MempoolItem) → lookup k pool.spends ≡ some it → lookup k old.spends ≡ some it
    pub waiting :
        (k : ℕ) (it : MempoolItem) → lookup k items ≡ some it → lookup k pool.spends ≡ none

  pending_coins :
      (c : ConsensusConstants) (old : Mempool S) (m : Manager S) (k : ℕ) (item : MempoolItem)
      (items : Dict MempoolItem)
      → IsConsistent coin_name old
      → IsSoundFor c m
      → ArePending old m.mempool ((k, item) ∷ items)
      → AreUnspent sorted_map coin_name item m.mempool
  pending_coins c old m k item items consistent h pending coin spends =
      elim (Option-cases (lookup coin m.mempool.removals)) [
        | inl free ↦ free
        | inr (it, found) ↦
            let (there, spent) = h.sound.consistent.spent_by coin it found in
            let old_it = pending.kept it.spend_bundle_name it there in
            let (name_is, at) = pending.of.held k item (ground arith) in
            absurd (
              ground (
                arith,
                there,
                pending.waiting k item (ground arith),
                name_is,
                consistent.recorded coin it.spend_bundle_name it old_it spent,
                consistent.recorded coin k item at spends,
              ))
      ]

  module _ (c : ConsensusConstants) (old : Mempool S)
      (old_sound : IsSound sorted_map coin_name (limit_cost c) old) (changed_coins : List ℕ) where
    skipped :
        (pool : Mempool S) (k : ℕ) (item : MempoolItem) (items : Dict MempoolItem)
        → ArePending old pool ((k, item) ∷ items)
        → ArePending old pool items
    skipped pool k item items pending = record {
      of = record {
        distinct = pending.of.distinct.1;
        held = λ j it found. pending.of.held j it (ground (arith, found, pending.of.distinct.0));
      };
      kept = pending.kept;
      waiting = λ j it found. pending.waiting j it (ground (arith, found, pending.of.distinct.0));
    }

    put_back :
        (pool after : Mempool S) (k : ℕ) (item : MempoolItem) (items : Dict MempoolItem)
        → ArePending old pool ((k, item) ∷ items)
        → IsAdded sorted_map coin_name pool item after
        → ArePending old after items
    put_back pool after k item items pending added =
        let rest = skipped pool k item items pending in
        let (name_is, at) = pending.of.held k item (ground arith) in
        record {
          of = rest.of;
          kept = λ j it found. elim (added.kept j it found) [
            | inl new ↦
                ground (arith, new, name_is, at, found, added.consistent.valid.named j it found)
            | inr before ↦ rest.kept j it before
          ];
          waiting = λ j it found. elim (Option-cases (lookup j after.spends)) [
            | inl none_there ↦ none_there
            | inr (it', there) ↦ elim (added.kept j it' there) [
              | inl new ↦ absurd (
                  ground (
                    arith,
                    new,
                    name_is,
                    found,
                    added.consistent.valid.named j it' there,
                    pending.of.distinct.0,
                  ))
              | inr before ↦ absurd (ground (arith, before, rest.waiting j it found))
            ]
          ];
        }

    keep_item_lem :
        (m : Manager S) (k : ℕ) (item : MempoolItem) (items : Dict MempoolItem) {m' : Manager S}
        → IsSoundFor c m
        → ArePending old m.mempool ((k, item) ∷ items)
        → keep_item coin_name changed_coins m item ≡ ok m'
        → IsSoundFor c m' × ArePending old m'.mempool items
    unfolding keep_item
    keep_item_lem m k item items {m'} h pending e =
        elim (Bool-cases
          (any (λ coin. any (λ ch. coin_name coin == ch) changed_coins) item.removals)) [
            | inl changed ↦
                let same : remove_seen m item.spend_bundle_name ≡ m' = ground (arith, e, changed) in
                rw (← same) (
                  remove_seen-IsSoundFor c m item.spend_bundle_name h,
                  rw ((remove_seen_pool m item.spend_bundle_name).0)
                      (skipped m.mempool k item items pending),
                )
            | inr unchanged ↦ elim (Result-cases (add_to_pool coin_name m.mempool item)) [
              | inr (x, fails) ↦ absurd (ground (arith, e, unchanged, fails))
              | inl (pool, put) ↦
                  let same : record m { mempool = pool } ≡ m' = ground (arith, e, unchanged, put) in
                  let (name_is, at) = pending.of.held k item (ground arith) in
                  let added =
                    add_to_pool-IsAdded sorted_map coin_name m.mempool item {after = pool}
                      h.sound.consistent (ground (arith, name_is, pending.waiting k item))
                      (pending_coins c old m k item items old_sound.consistent h pending) put in
                  rw (← same) (
                    record {
                      sound =
                          added-IsSound sorted_map coin_name (limit_cost c) m.mempool pool item
                            h.sound (old_sound.balanced k item at) added;
                      same = h.same;
                    },
                    put_back m.mempool pool k item items pending added,
                  )
            ]
          ]

    pub keep_unspent_lem :
        (m : Manager S) (items : Dict MempoolItem) {m' : Manager S}
        → IsSoundFor c m
        → ArePending old m.mempool items
        → keep_unspent coin_name changed_coins m items ≡ ok m'
        → IsSoundFor c m'
    unfolding keep_unspent
    keep_unspent_lem m [] {m'} h pending e = let same : m ≡ m' = cc in rw (← same) h
    keep_unspent_lem m ((k, item) ∷ items) {m'} h pending e =
        elim (Result-cases (keep_item coin_name changed_coins m item)) [
          | inr (x, fails) ↦ absurd (ground (arith, e, fails))
          | inl (next, put) ↦
              let (h', pending') = keep_item_lem m k item items {m' = next} h pending put in
              keep_unspent_lem next items {m' = m'} h' pending' (ground (arith, e, put))
        ]

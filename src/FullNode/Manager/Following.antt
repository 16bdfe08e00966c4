-- ===== src/FullNode/Manager/Following.antt =====
-- A manager's pool after one call: `add_spendbundle` and `new_peak` of
-- chia/full_node/mempool_manager.py.
use gold_blockchain.Base.{
  ℕ, ◌≡◌, refl, ◌∙◌, inl, inr, not, ◌||◌, Option, none, some, List, [], ◌∷◌, ◌++◌, map, arith,
  if◌then◌else◌, Bool-cases, assertion_error, ok, guard, Result-cases, Ensures-at, Ensures-bind,
}
use gold_blockchain.Base.Dict.{Dict}
use gold_blockchain.Base.Int.{ℤ}
use gold_blockchain.Consensus.BlockRecord.{BlockRecord, Coin, is_some, is_transaction_block}
use gold_blockchain.Consensus.Constants.{ConsensusConstants}
use gold_blockchain.FullNode.Conditions.{CoinRecord}
use gold_blockchain.FullNode.Items.{MempoolItem}
use gold_blockchain.FullNode.Npc.{NpcResult, SpendBundle}
use gold_blockchain.FullNode.PendingTxCache.{drain}
use gold_blockchain.FullNode.Mempool.{new_mempool, get_min_fee_rate}
use gold_blockchain.FullNode.Mempool.SortedDict.{SortedMap, IsSortedMap}
use gold_blockchain.FullNode.Manager.{Manager, limit_cost, remove_seen}
use gold_blockchain.FullNode.Manager.Adding.{Answer, add_spendbundle}
use gold_blockchain.FullNode.Manager.NewPeak.{
  follows, is_success, is_peak, add_item, add_again, add_waiting, refill, follow_peak, new_peak,
}
use gold_blockchain.FullNode.Manager.Sound.{add_spendbundle-AddsSoundly}
use gold_blockchain.FullNode.Manager.Peaks.{
  empty-IsSound, IsSoundFor, remove_seen-IsSoundFor, ArePending, keep_unspent_lem,
}

module _ {S : SortedMap (Dict MempoolItem)} (sorted_map : IsSortedMap S)
    (coin_name : Coin → ℕ) where
  module _ (int_from_bytes : List ℕ → Option ℤ) (quoted : SpendBundle → List ℕ) (now : ℕ)
      (get_coin_record : ℕ → Option CoinRecord) (c : ConsensusConstants) where
    pub add-IsSoundFor :
        (m : Manager S) (new_spend : SpendBundle) (npc_result : NpcResult) (name : ℕ)
        (program : Option (List ℕ)) {m' : Manager S} {answer : Answer}
        → IsSoundFor sorted_map coin_name c m
        → add_spendbundle coin_name int_from_bytes quoted now get_coin_record m new_spend npc_result
            name program
          ≡ ok (m', answer)
        → IsSoundFor sorted_map coin_name c m'
    add-IsSoundFor m new_spend npc_result name program {m'} {answer} h e =
        let adds =
          add_spendbundle-AddsSoundly sorted_map coin_name int_from_bytes get_coin_record name m
            (rw (h.same) h.sound) quoted now new_spend npc_result program {m' = m'}
            {answer = answer} e in
        record { sound = rw (← h.same) adds.0; same = adds.1.0 ∙ h.same }

    pub add_again_lem :
        (m : Manager S) (items : Dict MempoolItem) {m' : Manager S}
        → IsSoundFor sorted_map coin_name c m
        → add_again coin_name int_from_bytes quoted now get_coin_record m items ≡ ok m'
        → IsSoundFor sorted_map coin_name c m'
    unfolding add_again
    add_again_lem m [] {m'} h e = let same : m ≡ m' = cc in rw (← same) h
    add_again_lem m ((k, item) ∷ items) {m'} h e =
        elim (Result-cases (add_item coin_name int_from_bytes quoted now get_coin_record m item)) [
          | inr (x, fails) ↦ absurd (ground (arith, e, fails))
          | inl ((next, answer), put) ↦
              let h' =
                add-IsSoundFor m item.spend_bundle item.npc_result item.spend_bundle_name
                  (some item.program) {m' = next} {answer = answer} h put in
              elim (Bool-cases (is_success answer.1)) [
                | inl added ↦ add_again_lem next items {m' = m'} h' (ground (arith, e, put, added))
                | inr dropped ↦
                    add_again_lem (remove_seen next item.spend_bundle_name) items {m' = m'}
                      (remove_seen-IsSoundFor sorted_map coin_name c next item.spend_bundle_name h')
                      (ground (arith, e, put, dropped))
              ]
        ]

    pub add_waiting_lem :
        (m : Manager S) (txs : List (SpendBundle × NpcResult × ℕ)) (items : Dict MempoolItem)
        {m' : Manager S} {txs' : List (SpendBundle × NpcResult × ℕ)}
        → IsSoundFor sorted_map coin_name c m
        → add_waiting coin_name int_from_bytes quoted now get_coin_record m txs items
          ≡ ok (m', txs')
        → IsSoundFor sorted_map coin_name c m'
    unfolding add_waiting
    add_waiting_lem m txs [] {m'} h e = let same : m ≡ m' = ground (arith, e) in rw (← same) h
    add_waiting_lem m txs ((k, item) ∷ items) {m'} {txs'} h e =
        elim (Result-cases (add_item coin_name int_from_bytes quoted now get_coin_record m item)) [
          | inr (x, fails) ↦ absurd (ground (arith, e, fails))
          | inl ((next, answer), put) ↦
              let h' =
                add-IsSoundFor m item.spend_bundle item.npc_result item.spend_bundle_name
                  (some item.program) {m' = next} {answer = answer} h put in
              add_waiting_lem next
                (if is_success answer.1
                  then txs ++ (item.spend_bundle, item.npc_result, item.spend_bundle_name) ∷ []
                  else txs)
                items {m' = m'} {txs' = txs'} h' (ground (arith, e, put))
        ]

    all_pending :
        (m : Manager S) (size : ℕ)
        → IsSoundFor sorted_map coin_name c m
        → ArePending sorted_map coin_name m.mempool (new_mempool S size) m.mempool.spends
    unfolding new_mempool
    all_pending m size h = record {
      of = record {
        distinct = h.sound.consistent.valid.distinct;
        held = λ k it found. (h.sound.consistent.valid.named k it found, found);
      };
      kept = λ k it found. cc;
      waiting = λ k it found. refl;
    }

    abbrev emptied : Manager S → BlockRecord → Manager S
    emptied m new = record m { peak = some new; mempool = new_mempool S m.mempool_max_total_cost }

    emptied-IsSoundFor :
        (m : Manager S) (new : BlockRecord)
        → IsSoundFor sorted_map coin_name c m
        → IsSoundFor sorted_map coin_name c (emptied m new)
    emptied-IsSoundFor m new h = record {
      sound = empty-IsSound sorted_map coin_name (limit_cost c) m.mempool_max_total_cost;
      same = h.same;
    }

    refilled :
        (m : Manager S) (new : BlockRecord) (changed : List ℕ) (m' : Manager S)
        → IsSoundFor sorted_map coin_name c m
        → refill coin_name int_from_bytes quoted now get_coin_record m new changed ≡ ok m'
        → IsSoundFor sorted_map coin_name c m'
    unfolding refill
    refilled m new changed m' h e = elim (Bool-cases (follows m.peak new)) [
      | inl fast ↦
          keep_unspent_lem sorted_map coin_name c m.mempool h.sound changed (emptied m new)
            m.mempool.spends {m' = m'} (emptied-IsSoundFor m new h)
            (all_pending m m.mempool_max_total_cost h) (ground (arith, e, fast))
      | inr slow ↦
          add_again_lem (emptied m new) m.mempool.spends {m' = m'} (emptied-IsSoundFor m new h)
            (ground (arith, e, slow))
    ]

    follow_peak-IsSoundFor :
        (m : Manager S) (new : BlockRecord) (coin_changes : List CoinRecord) {m' : Manager S}
        {txs : List (SpendBundle × NpcResult × ℕ)}
        → IsSoundFor sorted_map coin_name c m
        → follow_peak coin_name int_from_bytes quoted now get_coin_record m new coin_changes
          ≡ ok (m', txs)
        → IsSoundFor sorted_map coin_name c m'
    unfolding follow_peak
    follow_peak-IsSoundFor m new coin_changes {m'} {txs} h e =
        let P : Manager S × List (SpendBundle × NpcResult × ℕ) → Type 0 =
          λ r. IsSoundFor sorted_map coin_name c r.0 in
        Ensures-at
          (follow_peak coin_name int_from_bytes quoted now get_coin_record m new coin_changes) P
          (Ensures-bind (guard (is_some new.timestamp) assertion_error) _ P (λ _ _.
            Ensures-bind
              (refill coin_name int_from_bytes quoted now get_coin_record m new
                (map (λ (r : CoinRecord). coin_name r.coin) coin_changes))
              _ P
              (λ next filled.
                let sound = refilled m new _ next h filled in
                Ensures-bind
                  (add_waiting coin_name int_from_bytes quoted now get_coin_record
                    (record next { potential_cache = (drain next.potential_cache).1 }) []
                    (drain next.potential_cache).0)
                  _ P
                  (λ last waited. Ensures-bind (get_min_fee_rate last.0.mempool 100000) _ P (λ _ _.
                    add_waiting_lem
                      (record next { potential_cache = (drain next.potential_cache).1 }) []
                      (drain next.potential_cache).0 {m' = last.0} {txs' = last.1}
                      (record { sound = sound.sound; same = sound.same }) waited)))))
          e

    pub new_peak-IsSoundFor :
        (m : Manager S) (new : Option BlockRecord) (coin_changes : List CoinRecord) {m' : Manager S}
        {txs : List (SpendBundle × NpcResult × ℕ)}
        → IsSoundFor sorted_map coin_name c m
        → new_peak coin_name int_from_bytes quoted now get_coin_record m new coin_changes
          ≡ ok (m', txs)
        → IsSoundFor sorted_map coin_name c m'
    unfolding new_peak
    new_peak-IsSoundFor m none coin_changes {m'} h e =
        let same : m ≡ m' = ground (arith, e) in rw (← same) h
    new_peak-IsSoundFor m (some new) coin_changes {m'} {txs} h e =
        elim (Bool-cases (not (is_transaction_block new) || is_peak m.peak new)) [
          | inl stays ↦ let same : m ≡ m' = ground (arith, e, stays) in rw (← same) h
          | inr follows_it ↦
              follow_peak-IsSoundFor m new coin_changes {m' = m'} {txs = txs} h (rw follows_it at e)
        ]

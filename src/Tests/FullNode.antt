-- ===== src/Tests/FullNode.antt =====
-- The full node's components on small states.
use gold_blockchain.Base.{
  ℕ, ◌+◌, ◌*◌, ◌^◌, ◌≤◌, ◌<◌, ◌≡◌, refl, ◌↔◌, true, false, Option, none, some, List, [], ◌∷◌, arith,
  value_error, assertion_error, ok, err, Gives,
}
use gold_blockchain.Base.Bits.{bit_length}
use gold_blockchain.Base.Int.{ℤ, pos}
use gold_blockchain.Consensus.BlockRecord.{Coin}
use gold_blockchain.FullNode.Items.{MempoolItem}
use gold_blockchain.FullNode.PendingTxCache.{PendingTxCache, add}
use gold_blockchain.FullNode.PendingTxCache.Eviction.{add_keeps_newest, total_cost}
use gold_blockchain.FullNode.SyncStore.{SyncStore, Peak, get_heaviest_peak, clear_sync_info}
use gold_blockchain.FullNode.SyncStore.Peaks.{
  heaviest_peak_lem, heaviest_peak-cleared, IsKnownPeakOf, IsHeaviest,
}
use gold_blockchain.FullNode.Conditions.{
  CoinRecord, Conditions, mempool_check_conditions_dict, assert_height_relative, create_coin,
}
use gold_blockchain.FullNode.Conditions.Meaning.{AllHold, conditions_pass_iff}
use gold_blockchain.FullNode.Mempool.{Mempool, add_to_pool, get_min_fee_rate}
use gold_blockchain.Base.Floats.{true_div, rank}
use gold_blockchain.FullNode.Mempool.Rate.{fee_per_cost}
use gold_blockchain.FullNode.Mempool.Totals.{IsValid}
use gold_blockchain.FullNode.Mempool.Evicting.{IsFiled}
use gold_blockchain.FullNode.Mempool.MakingRoom.{IsGrown, add_to_pool-IsGrown}
use gold_blockchain.FullNode.Mempool.FeeRate.{min_fee_rate_error_iff}
use gold_blockchain.Tests.SortedList.{sorted_list, sorted_list-IsSortedMap}

abbrev coin : ℕ → Coin
coin n = record { parent_coin_info = n; puzzle_hash = 0; amount = 100 }

abbrev coin_name : Coin → ℕ
coin_name c = c.parent_coin_info

abbrev spend : ℕ → ℕ → ℕ → MempoolItem
spend name fee cost = record {
  spend_bundle = record { coin_spends = []; aggregated_signature = name };
  fee = fee;
  npc_result = record { error = none; npc_list = []; clvm_cost = 0 };
  cost = cost;
  spend_bundle_name = name;
  additions = coin (100 + name) ∷ [];
  removals = coin name ∷ [];
  program = [];
}

abbrev pending : PendingTxCache
pending = record {
  cache_max_total_cost = 50;
  cache_cost = pos 45;
  txs = (1, spend 1 9 30) ∷ (2, spend 2 9 15) ∷ [];
}

add_keeps_newest_example :
    (add pending (spend 3 9 20)
      ≡ ok (record pending {
        cache_cost = pos 35;
        txs = (2, spend 2 9 15) ∷ (3, spend 3 9 20) ∷ [];
      }))
    × (total_cost ((2, spend 2 9 15) ∷ (3, spend 3 9 20) ∷ []) ≤ 50)
add_keeps_newest_example = add_keeps_newest pending (spend 3 9 20) refl refl

abbrev peers : SyncStore
peers = record {
  sync_mode = true;
  long_sync = false;
  peak_to_peer = (10, 1 ∷ 2 ∷ []) ∷ (11, 2 ∷ []) ∷ [];
  peer_to_peak =
      (1, record { header_hash = 10; height = 5; weight = 50 })
      ∷ (2, record { header_hash = 11; height = 6; weight = 60 })
      ∷ (3, record { header_hash = 12; height = 7; weight = 70 })
      ∷ [];
  sync_target_header_hash = none;
  sync_target_height = none;
  peers_changed = false;
}

heaviest_peak_lem_example :
    (best : Peak) × (get_heaviest_peak peers ≡ ok (some best))
    × IsKnownPeakOf peers peers.peer_to_peak best
    × IsHeaviest peers peers.peer_to_peak best
heaviest_peak_lem_example = heaviest_peak_lem peers refl

heaviest_peak-cleared_example : get_heaviest_peak (clear_sync_info peers) ≡ err assertion_error
heaviest_peak-cleared_example = heaviest_peak-cleared peers (ground arith)

-- Numbers of one byte.
abbrev one_byte : List ℕ → Option ℤ
one_byte [] = some (pos 0)
one_byte (b ∷ []) = some (pos b)
one_byte (b ∷ c ∷ bs) = none

abbrev coin_record : CoinRecord
coin_record = record {
  coin = coin 1;
  confirmed_block_index = 100;
  spent_block_index = 0;
  spent = false;
  coinbase = false;
  timestamp = 5000;
}

abbrev two_conditions : Conditions
two_conditions =
    (record { opcode = create_coin; vars = [] } ∷ [])
    ∷ (record { opcode = assert_height_relative; vars = (20 ∷ []) ∷ [] } ∷ [])
    ∷ []

conditions_pass_iff_example :
    (mempool_check_conditions_dict one_byte 0 coin_record two_conditions 130 (some 6000) ≡ ok none)
    ↔ AllHold one_byte 0 coin_record 130 (some 6000) two_conditions
conditions_pass_iff_example =
    conditions_pass_iff one_byte 0 coin_record 130 (some 6000) two_conditions

free : fee_per_cost (spend 2 0 7) ≡ ok 0
unfolding fee_per_cost true_div
free = refl

-- 0.5 as a double.
half : fee_per_cost (spend 1 9 18) ≡ ok (75 * 2 ^ 52 + 2 ^ 52)
unfolding fee_per_cost true_div rank bit_length
half = refl

rounded : fee_per_cost (spend 1 9 30) ≡ true_div 3 10
unfolding fee_per_cost true_div rank bit_length
rounded = refl

-- A pool with one transaction that pays nothing.
abbrev pool : Mempool sorted_list
pool = record {
  spends = (2, spend 2 0 7) ∷ [];
  sorted_spends = ((0, (2, spend 2 0 7) ∷ []) ∷ [], (omega arith, tt));
  additions = (102, spend 2 0 7) ∷ [];
  removals = (2, spend 2 0 7) ∷ [];
  max_size_in_cost = 10;
  total_mempool_cost = 7;
}

pool-IsValid : IsValid pool
pool-IsValid = record {
  distinct = (refl, tt);
  named = λ k it e. ground arith;
  listed = λ r n d it found there. ground (arith, free);
  listing = λ r d found. ground arith;
  counted = refl;
}

pool-IsFiled : IsFiled coin_name pool
pool-IsFiled = record {
  valid = pool-IsValid;
  complete = λ name rate item found its. ground (arith, free);
  made_once = (refl, tt);
  spent_once = (refl, tt);
}

add_to_pool-IsGrown_example :
    Gives
      (add_to_pool coin_name pool (spend 3 5 6))
      (IsGrown sorted_list-IsSortedMap coin_name pool (spend 3 5 6))
add_to_pool-IsGrown_example =
    add_to_pool-IsGrown sorted_list-IsSortedMap coin_name pool (spend 3 5 6) pool-IsFiled refl

min_fee_rate_error_iff_example : (get_min_fee_rate pool 11 ≡ err value_error) ↔ (10 + 7 < 7 + 11)
min_fee_rate_error_iff_example = min_fee_rate_error_iff pool 11

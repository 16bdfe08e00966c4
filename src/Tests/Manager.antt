-- ===== src/Tests/Manager.antt =====
-- The mempool manager on a small pool.
use gold_blockchain.Base.{
  ℕ, zero, suc, ◌+◌, ◌*◌, ◌≤◌, ◌<◌, ◌≡◌, refl, ◌↔◌, true, false, Option, none, some, List, [], ◌∷◌,
  ◌==◌, if◌then◌else◌, all, ok,
}
use gold_blockchain.Base.Bits.{bit_length}
use gold_blockchain.Base.Floats.{true_div, rank}
use gold_blockchain.Base.Int.{ℤ, pos}
use gold_blockchain.Consensus.BlockRecord.{Coin}
use gold_blockchain.Consensus.Constants.{default_constants}
use gold_blockchain.FullNode.Conditions.{CoinRecord, create_coin, check_list, check_condition}
use gold_blockchain.FullNode.Items.{MempoolItem}
use gold_blockchain.FullNode.Npc.{NpcResult, SpendBundle}
use gold_blockchain.FullNode.Mempool.{new_mempool, add_to_pool, make_room, place}
use gold_blockchain.FullNode.Mempool.Rate.{fee_per_cost}
use gold_blockchain.FullNode.Manager.{
  Manager, new_manager, can_replace, create_bundle_from_mempool, limit_cost, min_fee_increase,
  get_items_not_in_filter,
}
use gold_blockchain.FullNode.Manager.Steps.{success}
use gold_blockchain.FullNode.Manager.Adding.{Answer, add_spendbundle}
use gold_blockchain.FullNode.Manager.NewPeak.{new_peak}
use gold_blockchain.FullNode.Manager.Sound.{
  IsBalanced, IsSound, AddsSoundly, add_spendbundle-AddsSoundly,
}
use gold_blockchain.FullNode.Manager.Peaks.{empty-IsSound}
use gold_blockchain.FullNode.Manager.Life.{Reached, starts, adds, follows_peak, no_double_spend}
use gold_blockchain.FullNode.Manager.Taking.{items_of}
use gold_blockchain.FullNode.Manager.Bundle.{IsBundleOf, create_bundle_lem}
use gold_blockchain.FullNode.Manager.Replacing.{spends_all, can_replace_iff}
use gold_blockchain.FullNode.Manager.Listing.{take, missed, items_not_in_filter_lem}
use gold_blockchain.Tests.Chain.{small_block}
use gold_blockchain.Tests.SortedList.{sorted_list, sorted_list-IsSortedMap}

abbrev coin : Coin
coin = record { parent_coin_info = 1; puzzle_hash = 77; amount = 100 }

-- Names of small coins.
abbrev coin_name : Coin → ℕ
coin_name c = c.parent_coin_info * 1000 + c.amount

abbrev one_byte : List ℕ → Option ℤ
one_byte [] = some (pos 0)
one_byte (b ∷ []) = some (pos b)
one_byte (b ∷ c ∷ bs) = none

abbrev store : ℕ → Option CoinRecord
store name =
    if name == 1100
    then some (record {
      coin = coin;
      confirmed_block_index = 3;
      spent_block_index = 0;
      spent = false;
      coinbase = false;
      timestamp = 5000;
    })
    else none

abbrev zeros : ℕ → List ℕ
zeros zero = []
zeros (suc n) = 0 ∷ zeros n

-- One coin of 100 is spent for one of 90.
abbrev npc_result : NpcResult
npc_result = record {
  error = none;
  npc_list =
      record {
        coin_name = 1100;
        puzzle_hash = 77;
        conditions =
            (create_coin, record { opcode = create_coin; vars = zeros 32 ∷ (90 ∷ []) ∷ [] } ∷ [])
            ∷ [];
      }
      ∷ [];
  clvm_cost = 7;
}

abbrev bundle : SpendBundle
bundle = record {
  coin_spends = record { coin = coin; puzzle_reveal = []; solution = [] } ∷ [];
  aggregated_signature = 4;
}

abbrev quoted : SpendBundle → List ℕ
quoted b = 9 ∷ []

abbrev made : Coin
made = record { parent_coin_info = 1100; puzzle_hash = 0; amount = 90 }

abbrev item : MempoolItem
item = record {
  spend_bundle = bundle;
  fee = 10;
  npc_result = npc_result;
  cost = 1812007;
  spend_bundle_name = 8;
  additions = made ∷ [];
  removals = coin ∷ [];
  program = 9 ∷ [];
}

abbrev with_peak : Manager sorted_list
with_peak = record {
  constants = default_constants;
  seen_bundle_hashes = [];
  mempool_max_total_cost = 11000000000 * 10;
  potential_cache = record { cache_max_total_cost = 55000000000; cache_cost = pos 0; txs = [] };
  seen_cache_size = 10000;
  peak = some (small_block 6);
  mempool = record {
    spends = [];
    sorted_spends = ([], tt);
    additions = [];
    removals = [];
    max_size_in_cost = 110000000000;
    total_mempool_cost = 0;
  };
}

-- 10 / 1812007 as a double.
abbrev fee_rate : ℕ
fee_rate = 267724159513044085

abbrev with_item : Manager sorted_list
with_item = record with_peak {
  mempool = record {
    spends = (8, item) ∷ [];
    sorted_spends = sorted_list.write fee_rate ((8, item) ∷ []) ([], tt);
    additions = (1100090, item) ∷ [];
    removals = (1100, item) ∷ [];
    max_size_in_cost = 110000000000;
    total_mempool_cost = 1812007;
  };
}

abbrev answer : Answer
answer = (some 1812007, success, none)

accepts :
    add_spendbundle coin_name one_byte quoted 0 store with_peak bundle npc_result 8 none
    ≡ ok (with_item, answer)
unfolding add_spendbundle fee_per_cost true_div rank bit_length check_list check_condition
    add_to_pool make_room place
accepts = refl

empty_pool :
    IsSound sorted_list-IsSortedMap coin_name (limit_cost default_constants) with_peak.mempool
unfolding new_mempool
empty_pool =
    empty-IsSound sorted_list-IsSortedMap coin_name (limit_cost default_constants) 110000000000

add_spendbundle-AddsSoundly_example :
    AddsSoundly sorted_list-IsSortedMap coin_name store 8 with_peak with_item answer
add_spendbundle-AddsSoundly_example =
    add_spendbundle-AddsSoundly sorted_list-IsSortedMap coin_name one_byte store 8 with_peak
      empty_pool quoted 0 bundle npc_result none accepts

peak_followed :
    new_peak coin_name one_byte quoted 0 store
      (new_manager sorted_list default_constants)
      (some (small_block 6))
      []
    ≡ ok (with_peak, [])
unfolding new_peak new_manager
peak_followed = refl

reached : Reached sorted_list-IsSortedMap coin_name one_byte quoted default_constants with_item
reached =
    adds with_peak with_item 0 store bundle npc_result 8 none answer
      (follows_peak (new_manager sorted_list default_constants) with_peak 0 store
        (some (small_block 6)) [] [] (starts (new_manager sorted_list default_constants) refl)
        peak_followed)
      accepts

no_double_spend_example :
    (◌≡◌ {A = ℕ} 8 8)
    × (item ≡ item)
    × IsBalanced sorted_list-IsSortedMap coin_name (limit_cost default_constants) item
no_double_spend_example =
    no_double_spend sorted_list-IsSortedMap coin_name one_byte quoted default_constants with_item 8
      8 item item 1100 reached refl refl refl refl

abbrev taken_bundle : SpendBundle
taken_bundle = record bundle { aggregated_signature = 4 }

bundle_taken :
    create_bundle_from_mempool (λ signatures. 4) with_item 7
    ≡ ok (some (taken_bundle, made ∷ [], coin ∷ []))
unfolding create_bundle_from_mempool true_div rank bit_length
bundle_taken = refl

create_bundle_lem_example :
    IsBundleOf default_constants
      (λ signatures. 4)
      (items_of ((fee_rate, (8, item) ∷ []) ∷ []))
      taken_bundle
      (made ∷ [])
      (coin ∷ [])
create_bundle_lem_example =
    create_bundle_lem (λ signatures. 4) with_item 7 taken_bundle (made ∷ []) (coin ∷ [])
      bundle_taken

can_replace_iff_example :
    (can_replace coin_name ((8, item) ∷ []) [] 20000000 fee_rate ≡ ok true) ↔ (
      (all (λ (e : ℕ × MempoolItem). spends_all coin_name [] e.1) ((8, item) ∷ []) ≡ true)
      × ((rate : ℕ) × (true_div 10 1812007 ≡ ok rate) × (rate < fee_rate))
      × (10 + min_fee_increase ≤ 20000000))
can_replace_iff_example = can_replace_iff coin_name [] ((8, item) ∷ []) 20000000 fee_rate

items_not_in_filter_lem_example :
    get_items_not_in_filter with_item (λ name. name == 9) 100
    ≡ take 100 (missed (λ name. name == 9) (items_of ((fee_rate, (8, item) ∷ []) ∷ [])))
items_not_in_filter_lem_example = items_not_in_filter_lem with_item (λ name. name == 9) 100

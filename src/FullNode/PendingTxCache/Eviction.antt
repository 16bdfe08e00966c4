-- ===== src/FullNode/PendingTxCache/Eviction.antt =====
-- What the cache keeps.
use gold_blockchain.Base.{
  ℕ, ◌+◌, ◌≤◌, ◌≡◌, refl, false, none, [], ◌∷◌, ◌++◌, arith, leb, if◌then◌else◌, ok,
}
use gold_blockchain.Base.Dict.{Dict, contains, lookup, insert-append}
use gold_blockchain.Base.Sums.{sum}
use gold_blockchain.Base.Int.{pos, ◌+ℤ◌, neg}
use gold_blockchain.FullNode.Items.{MempoolItem}
use gold_blockchain.FullNode.PendingTxCache.{PendingTxCache, drop_oldest, add}

abbrev pub total_cost : Dict MempoolItem → ℕ
total_cost = sum (λ item. item.cost)

-- The longest end of the list that costs no more than the limit.
abbrev pub longest_end : ℕ → Dict MempoolItem → Dict MempoolItem
longest_end limit [] = []
longest_end limit (x ∷ txs) =
    let rest = longest_end limit txs in if leb (total_cost (x ∷ txs)) limit then x ∷ txs else rest

-- The cost that is kept is that of the transactions.
abbrev pub IsCounted : PendingTxCache → Type 0
IsCounted cache = cache.cache_cost ≡ pos (total_cost cache.txs)

take_back : (a c : ℕ) → pos (c + a) +ℤ neg c ≡ pos a
take_back a c = ground arith

drop_oldest_lem :
    (limit : ℕ) (txs : Dict MempoolItem)
    → drop_oldest limit (pos (total_cost txs)) txs
      ≡ ok (pos (total_cost (longest_end limit txs)), longest_end limit txs)
unfolding drop_oldest
drop_oldest_lem limit [] = ground arith
drop_oldest_lem limit ((k, item) ∷ txs) =
    ground (arith, take_back (total_cost txs) item.cost, drop_oldest_lem limit txs)

longest_end-fits : (limit : ℕ) (txs : Dict MempoolItem) → total_cost (longest_end limit txs) ≤ limit
longest_end-fits limit [] = omega arith
longest_end-fits limit (x ∷ txs) = ground (arith, longest_end-fits limit txs)

total_cost-append :
    (xs ys : Dict MempoolItem) → total_cost (xs ++ ys) ≡ total_cost xs + total_cost ys
total_cost-append [] ys = omega arith
total_cost-append (x ∷ xs) ys = omega (arith, total_cost-append xs ys)

absent : (k : ℕ) (d : Dict MempoolItem) → contains k d ≡ false → lookup k d ≡ none
absent k d e = ground arith

-- Adding a transaction that is not in the cache always succeeds, and leaves the longest run of the
-- newest transactions, the new one last, whose cost is within the limit, with its cost counted.
pub add_keeps_newest :
    (cache : PendingTxCache) (item : MempoolItem)
    → IsCounted cache
    → contains item.spend_bundle_name cache.txs ≡ false
    → let kept =
        longest_end cache.cache_max_total_cost (cache.txs ++ (item.spend_bundle_name, item) ∷ []) in
      (add cache item ≡ ok (record cache { cache_cost = pos (total_cost kept); txs = kept }))
      × (total_cost kept ≤ cache.cache_max_total_cost)
unfolding add
add_keeps_newest cache item counted new =
    let name = item.spend_bundle_name in
    let txs = cache.txs ++ (name, item) ∷ [] in
    let e = insert-append name item cache.txs (absent name cache.txs new) in
    let more : cache.cache_cost +ℤ pos item.cost ≡ pos (total_cost txs) =
      ground (arith, counted, total_cost-append cache.txs ((name, item) ∷ [])) in
    (
      rw (new, e, more) (rw (drop_oldest_lem cache.cache_max_total_cost txs) refl),
      longest_end-fits cache.cache_max_total_cost txs,
    )

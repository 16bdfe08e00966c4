-- ===== src/Server/RateLimits/Limits.antt =====
-- The counters of a limiter and their limits, as messages are processed.
use gold_blockchain.Base.{
  ℕ, ◌+◌, ◌≡◌, refl, sym, ap, ◌∙◌, ◌⊎◌, inl, inr, Bool, true, false, ◌||◌, none, some, arith, ◌==◌,
  if◌then◌else◌, ==_iff, ==_refl, Bool-cases,
}
use gold_blockchain.Base.Dict.{Dict, insert, lookup-insert}
use gold_blockchain.Base.Floats.{int_rank}
use gold_blockchain.Server.RateLimits.Types.{ProtocolMessageTypes, of_value}
use gold_blockchain.Server.RateLimits.Tables.{non_tx_freq, non_tx_max_total_size}
use gold_blockchain.Server.RateLimits.{
  RateLimiter, count, is_within, limits_of, is_non_tx, total_limit, reset_minute, counted, passes,
  process_msg_and_check, new_limiter,
}

-- Every counter passes the test of its limit.
pub record PassesAll (limiter : RateLimiter) : Type 0 where
  pub counts :
      (n : ℕ) (t : ProtocolMessageTypes)
      → of_value n ≡ some t
      → is_within limiter.percentage_of_limit
          (limits_of t).frequency
          (count n limiter.message_counts)
        ≡ true
  pub sizes :
      (n : ℕ) (t : ProtocolMessageTypes)
      → of_value n ≡ some t
      → is_within limiter.percentage_of_limit
          (total_limit (limits_of t))
          (count n limiter.message_cumulative_sizes)
        ≡ true
  pub non_tx_counts :
      is_within limiter.percentage_of_limit non_tx_freq limiter.non_tx_message_counts ≡ true
  pub non_tx_sizes :
      is_within limiter.percentage_of_limit non_tx_max_total_size limiter.non_tx_cumulative_size
      ≡ true

zero_within : (p limit : ℕ) → is_within p limit 0 ≡ true
unfolding is_within int_rank
zero_within p limit = ground arith

pub new_limiter-PassesAll :
    (incoming : Bool) (minute p : ℕ) → PassesAll (new_limiter incoming minute p)
unfolding new_limiter
new_limiter-PassesAll incoming minute p = record {
  counts = λ n t e. zero_within p _;
  sizes = λ n t e. zero_within p _;
  non_tx_counts = zero_within p _;
  non_tx_sizes = zero_within p _;
}

pub reset_minute-PassesAll :
    (limiter : RateLimiter) (minute : ℕ)
    → PassesAll limiter
    → PassesAll (reset_minute limiter minute)
unfolding reset_minute
reset_minute-PassesAll limiter minute within =
    elim (Bool-cases (minute == limiter.current_minute)) [
      | inl same ↦ rw same within
      | inr later ↦ rw later (record {
        counts = λ n t e. zero_within _ _;
        sizes = λ n t e. zero_within _ _;
        non_tx_counts = zero_within _ _;
        non_tx_sizes = zero_within _ _;
      })
    ]

pub reset_minute-incoming :
    (limiter : RateLimiter) (minute : ℕ) {b : Bool}
    → limiter.incoming ≡ b
    → (reset_minute limiter minute).incoming ≡ b
unfolding reset_minute
reset_minute-incoming limiter minute h = ground arith

pub count-insert :
    (n m v : ℕ) (counter : Dict ℕ)
    → count m (insert n v counter) ≡ (if m == n then v else count m counter)
count-insert n m v counter = ground (arith, lookup-insert n m v counter)

-- A counter with a new value under a number is within the limits when the value is.
insert_within :
    (p n m v : ℕ) (limit : ProtocolMessageTypes → ℕ) (t u : ProtocolMessageTypes) (counter : Dict ℕ)
    → of_value n ≡ some t
    → of_value m ≡ some u
    → is_within p (limit t) (count n (insert n v counter)) ≡ true
    → is_within p (limit u) (count m counter) ≡ true
    → is_within p (limit u) (count m (insert n v counter)) ≡ true
insert_within p n m v limit t u counter is_t is_u new old = elim (Bool-cases (m == n)) [
  | inl same ↦
      let m_n : m ≡ n = (==_iff m n).0 same in
      let t_u : some t ≡ some u = sym is_t ∙ ap of_value (sym m_n) ∙ is_u in
      let e : t ≡ u = cc in rw m_n (rw (← e) new)
  | inr other ↦ rw (count-insert n m v counter) (rw other old)
]

-- What a message that passes has been checked for.
passes-parts :
    (after : RateLimiter) (n : ℕ) (t : ProtocolMessageTypes) (size : ℕ)
    → passes after n t size ≡ true
    → let p = after.percentage_of_limit in
      ((is_non_tx t ≡ false)
        ⊎ ((is_within p non_tx_freq after.non_tx_message_counts ≡ true)
            × (is_within p non_tx_max_total_size after.non_tx_cumulative_size ≡ true)))
      × (is_within p (limits_of t).frequency (count n after.message_counts) ≡ true)
      × (is_within p (total_limit (limits_of t)) (count n after.message_cumulative_sizes) ≡ true)
unfolding passes
passes-parts after n t size h = ground arith

non_tx_within :
    (p limit old new : ℕ) (b : Bool)
    → (b ≡ false) ⊎ (is_within p limit (if b then new else old) ≡ true)
    → is_within p limit old ≡ true
    → is_within p limit (if b then new else old) ≡ true
non_tx_within p limit old new true (inl e) k = cc
non_tx_within p limit old new true (inr h) k = h
non_tx_within p limit old new false h k = k

first_part : {A B C : Type 0} → A ⊎ (B × C) → A ⊎ B
first_part (inl a) = inl a
first_part (inr (b, c)) = inr b

second_part : {A B C : Type 0} → A ⊎ (B × C) → A ⊎ C
second_part (inl a) = inl a
second_part (inr (b, c)) = inr c

pub counted-PassesAll :
    (limiter : RateLimiter) (n : ℕ) (t : ProtocolMessageTypes) (size : ℕ)
    → of_value n ≡ some t
    → PassesAll limiter
    → passes (counted limiter n t size) n t size ≡ true
    → PassesAll (counted limiter n t size)
unfolding counted
counted-PassesAll limiter n t size known within passed =
    let p = limiter.percentage_of_limit in
    let (aggregate, freq, total) = passes-parts (counted limiter n t size) n t size passed in
    record {
      counts = λ m u e.
          insert_within p n m _ (λ x. (limits_of x).frequency) t u limiter.message_counts known e
            freq (within.counts m u e);
      sizes = λ m u e.
          insert_within p n m _ (λ x. total_limit (limits_of x)) t u
            limiter.message_cumulative_sizes known e total (within.sizes m u e);
      non_tx_counts =
          non_tx_within p non_tx_freq _ _ (is_non_tx t) (first_part aggregate) within.non_tx_counts;
      non_tx_sizes =
          non_tx_within p non_tx_max_total_size _ _ (is_non_tx t) (second_part aggregate)
            within.non_tx_sizes;
    }

pub process-unknown :
    (limiter : RateLimiter) (minute n size : ℕ)
    → of_value n ≡ none
    → process_msg_and_check limiter minute n size ≡ (true, reset_minute limiter minute)
unfolding process_msg_and_check
process-unknown limiter minute n size unknown = ground (arith, unknown)

pub process-known :
    (limiter : RateLimiter) (minute n size : ℕ) (t : ProtocolMessageTypes) {incoming ret : Bool}
    → of_value n ≡ some t
    → let current = reset_minute limiter minute in
      current.incoming ≡ incoming
      → passes (counted current n t size) n t size ≡ ret
      → process_msg_and_check limiter minute n size
        ≡ (ret, if incoming || ret then counted current n t size else current)
unfolding process_msg_and_check
process-known limiter minute n size t known way answer = ground (arith, known, way, answer)

pub counted_lem :
    (limiter : RateLimiter) (n : ℕ) (t : ProtocolMessageTypes) (size : ℕ)
    → (count n (counted limiter n t size).message_counts ≡ count n limiter.message_counts + 1)
      × (count n (counted limiter n t size).message_cumulative_sizes
          ≡ count n limiter.message_cumulative_sizes + size)
unfolding counted
counted_lem limiter n t size = (
  rw (count-insert n n _ limiter.message_counts) (rw (==_refl n) refl),
  rw (count-insert n n _ limiter.message_cumulative_sizes) (rw (==_refl n) refl),
)

-- A limiter of incoming messages counts every message of a known type, the refused ones too: the
-- count of its type in the minute rises by one and the size of its type by its size.
pub process-incoming :
    (limiter : RateLimiter) (minute n size : ℕ) (t : ProtocolMessageTypes)
    → limiter.incoming ≡ true
    → of_value n ≡ some t
    → let current = reset_minute limiter minute in
      let after = (process_msg_and_check limiter minute n size).1 in
      (count n after.message_counts ≡ count n current.message_counts + 1)
      × (count n after.message_cumulative_sizes ≡ count n current.message_cumulative_sizes + size)
process-incoming limiter minute n size t incoming known =
    let current = reset_minute limiter minute in
    let e : current.incoming ≡ true = reset_minute-incoming limiter minute incoming in
    rw (process-known limiter minute n size t known e refl) (counted_lem current n t size)

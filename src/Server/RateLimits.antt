-- ===== src/Server/RateLimits.antt =====
-- chia/server/rate_limits.py: how many messages of a type a connection may send or receive in a
-- minute. The clock is an argument, the minute at the call. The proportion of the limits is a double,
-- and so is its product with a limit; they are given by their ranks.
pub mod Types
pub mod Tables
pub mod Limits
pub mod Sending
pub mod Recovery
use gold_blockchain.Base.{
  ℕ, ◌+◌, ◌*◌, ◌^◌, Bool, true, false, not, ◌&&◌, ◌||◌, none, some, [], leb, ◌==◌, if◌then◌else◌,
}
use gold_blockchain.Base.Dict.{Dict, lookup, insert}
use gold_blockchain.Base.Floats.{rank, int_rank, mul_rank}
use gold_blockchain.Server.RateLimits.Types.{ProtocolMessageTypes, of_value}
use gold_blockchain.Server.RateLimits.Tables.{
  RlSettings, default_settings, non_tx_freq, non_tx_max_total_size, rate_limits_tx,
  rate_limits_other,
}

-- The counters are keyed by the numbers of the message types.
pub record RateLimiter : Type 0 where
  pub incoming : Bool
  pub current_minute : ℕ
  pub message_counts : Dict ℕ
  pub message_cumulative_sizes : Dict ℕ
  pub percentage_of_limit : ℕ
  pub non_tx_message_counts : ℕ
  pub non_tx_cumulative_size : ℕ

unfoldable pub new_limiter : Bool → ℕ → ℕ → RateLimiter
new_limiter incoming minute percentage_of_limit = record {
  incoming = incoming;
  current_minute = minute;
  message_counts = [];
  message_cumulative_sizes = [];
  percentage_of_limit = percentage_of_limit;
  non_tx_message_counts = 0;
  non_tx_cumulative_size = 0;
}

-- A `Counter` has 0 for a missing key.
abbrev pub count : ℕ → Dict ℕ → ℕ
count key counter = elim (lookup key counter) [ none ↦ 0 | some n ↦ n ]

-- `percentage_of_limit / 100`
unfoldable pub proportion : ℕ → ℕ
unfolding rank
proportion percentage = if percentage == 0 then 0 else rank (percentage * 2 ^ 128) 100

-- `n <= limit * proportion_of_limit`
unfoldable pub is_within : ℕ → ℕ → ℕ → Bool
unfolding proportion int_rank mul_rank
is_within percentage limit n = leb (int_rank n) (mul_rank limit (proportion percentage))

unfoldable pub limits_of : ProtocolMessageTypes → RlSettings
limits_of t = elim (rate_limits_tx t) [
  | some limits ↦ limits
  | none ↦ elim (rate_limits_other t) [ some limits ↦ limits | none ↦ default_settings ]
]

-- Whether the aggregate limits apply: only the second table's types are counted there.
unfoldable pub is_non_tx : ProtocolMessageTypes → Bool
is_non_tx t = elim (rate_limits_tx t) [
  | some _ ↦ false
  | none ↦ elim (rate_limits_other t) [ some _ ↦ true | none ↦ false ]
]

-- `limits.max_total_size`, once it is filled in.
unfoldable pub total_limit : RlSettings → ℕ
total_limit limits = elim limits.max_total_size [
  | none ↦ limits.frequency * limits.max_size
  | some n ↦ n
]

unfoldable pub reset_minute : RateLimiter → ℕ → RateLimiter
reset_minute limiter minute = if minute == limiter.current_minute then limiter else record limiter {
  current_minute = minute;
  message_counts = [];
  message_cumulative_sizes = [];
  non_tx_message_counts = 0;
  non_tx_cumulative_size = 0;
}

-- The counters with a message of a type and size.
unfoldable pub counted : RateLimiter → ℕ → ProtocolMessageTypes → ℕ → RateLimiter
counted limiter n t size = record limiter {
  message_counts = insert n (count n limiter.message_counts + 1) limiter.message_counts;
  message_cumulative_sizes =
      insert n (count n limiter.message_cumulative_sizes + size) limiter.message_cumulative_sizes;
  non_tx_message_counts =
      if is_non_tx t then limiter.non_tx_message_counts + 1 else limiter.non_tx_message_counts;
  non_tx_cumulative_size =
      if is_non_tx t then limiter.non_tx_cumulative_size + size else limiter.non_tx_cumulative_size;
}

-- The checks of the new counters, in the source's order.
unfoldable pub passes : RateLimiter → ℕ → ProtocolMessageTypes → ℕ → Bool
passes after n t size =
    let limits = limits_of t in
    let p = after.percentage_of_limit in
    (not (is_non_tx t)
      || is_within p non_tx_freq after.non_tx_message_counts
        && is_within p non_tx_max_total_size after.non_tx_cumulative_size)
    && is_within p limits.frequency (count n after.message_counts)
    && leb size limits.max_size
    && is_within p (total_limit limits) (count n after.message_cumulative_sizes)

-- The answer and the limiter afterwards; a number that is no message type passes uncounted.
unfoldable pub process_msg_and_check : RateLimiter → ℕ → ℕ → ℕ → Bool × RateLimiter
process_msg_and_check limiter minute n size =
    let current = reset_minute limiter minute in
    elim (of_value n) [
      | none ↦ (true, current)
      | some t ↦
          let after = counted current n t size in
          let ret = passes after n t size in
          (ret, if current.incoming || ret then after else current)
    ]

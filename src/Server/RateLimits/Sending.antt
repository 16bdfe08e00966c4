-- ===== src/Server/RateLimits/Sending.antt =====
-- What an outgoing limiter lets pass, and what it counts.
use gold_blockchain.Base.{
  ℕ, ◌+◌, ◌*◌, ◌≤◌, ◌≡◌, refl, sym, ap, ◌∙◌, ◌↔◌, ◌⊎◌, inl, inr, Bool, true, false, none, some,
  arith, ◌==◌, if◌then◌else◌, leb→le, le→leb, Bool-cases, Option-cases, all, ok,
}
use gold_blockchain.Base.Floats.{true_div, int_rank, mul_rank}
use gold_blockchain.Server.RateLimits.Types.{ProtocolMessageTypes, of_value}
use gold_blockchain.Server.RateLimits.Tables.{
  RlSettings, default_settings, non_tx_freq, non_tx_max_total_size, rate_limits_tx,
  rate_limits_other,
}
use gold_blockchain.Server.RateLimits.{
  RateLimiter, count, is_within, limits_of, is_non_tx, total_limit, reset_minute, counted, passes,
  process_msg_and_check, new_limiter, proportion,
}
use gold_blockchain.Server.RateLimits.Limits.{
  PassesAll, reset_minute-PassesAll, reset_minute-incoming, counted-PassesAll, process-unknown,
  process-known, count-insert, new_limiter-PassesAll,
}

-- A number is at most a limit times `p / 100`, as doubles.
abbrev pub AtMost : ℕ → ℕ → ℕ → Type 0
AtMost p limit n = (r : ℕ) × (true_div p 100 ≡ ok r) × (int_rank n ≤ mul_rank limit r)

-- The settings of a type: of the first table, else of the second, else the default.
abbrev pub IsLimitOf : ProtocolMessageTypes → RlSettings → Type 0
IsLimitOf t l =
    (rate_limits_tx t ≡ some l)
    ⊎ (rate_limits_tx t ≡ none) × (rate_limits_other t ≡ some l)
    ⊎ (rate_limits_tx t ≡ none) × (rate_limits_other t ≡ none) × (l ≡ default_settings)

-- The limit on the sizes of a minute: its own, else that of the number times that of one size.
abbrev pub IsTotalOf : RlSettings → ℕ → Type 0
IsTotalOf l total =
    (l.max_total_size ≡ some total) ⊎ (l.max_total_size ≡ none) × (total ≡ l.frequency * l.max_size)

-- Every counter of a minute is within its limit.
pub record IsWithin (limiter : RateLimiter) : Type 0 where
  pub counts :
      (n : ℕ) (t : ProtocolMessageTypes) (l : RlSettings)
      → of_value n ≡ some t
      → IsLimitOf t l
      → AtMost limiter.percentage_of_limit l.frequency (count n limiter.message_counts)
  pub sizes :
      (n : ℕ) (t : ProtocolMessageTypes) (l : RlSettings) (total : ℕ)
      → of_value n ≡ some t
      → IsLimitOf t l
      → IsTotalOf l total
      → AtMost limiter.percentage_of_limit total (count n limiter.message_cumulative_sizes)
  pub non_tx_counts : AtMost limiter.percentage_of_limit non_tx_freq limiter.non_tx_message_counts
  pub non_tx_sizes :
      AtMost limiter.percentage_of_limit non_tx_max_total_size limiter.non_tx_cumulative_size

-- The aggregate counters count the types of the second table that are not in the first.
abbrev pub IsAggregated : ProtocolMessageTypes → Type 0
IsAggregated t = (rate_limits_tx t ≡ none) × (l : RlSettings) × (rate_limits_other t ≡ some l)

-- A limiter with one message of a type and a size counted in.
pub record IsCounted (before : RateLimiter) (n : ℕ) (t : ProtocolMessageTypes) (size : ℕ)
    (after : RateLimiter) : Type 0 where
  pub settings :
      (after.incoming ≡ before.incoming)
      × (after.current_minute ≡ before.current_minute)
      × (after.percentage_of_limit ≡ before.percentage_of_limit)
  pub counts :
      (m : ℕ)
      → count m after.message_counts
        ≡ (if m == n then count n before.message_counts + 1 else count m before.message_counts)
  pub sizes :
      (m : ℕ)
      → count m after.message_cumulative_sizes ≡ (
          if m == n
          then count n before.message_cumulative_sizes + size
          else count m before.message_cumulative_sizes)
  pub aggregate :
      IsAggregated t
        × (after.non_tx_message_counts ≡ before.non_tx_message_counts + 1)
        × (after.non_tx_cumulative_size ≡ before.non_tx_cumulative_size + size)
      ⊎ (¬ IsAggregated t)
        × (after.non_tx_message_counts ≡ before.non_tx_message_counts)
        × (after.non_tx_cumulative_size ≡ before.non_tx_cumulative_size)

proportion_lem : (p : ℕ) → true_div p 100 ≡ ok (proportion p)
unfolding proportion true_div
proportion_lem p = ground arith

is_within_iff : (p limit n : ℕ) → (is_within p limit n ≡ true) ↔ AtMost p limit n
unfolding is_within
is_within_iff p limit n = (
  (λ h. (proportion p, proportion_lem p, leb→le _ _ h)),
  (λ (r, e, h).
      let same : proportion p ≡ r = ground (arith, proportion_lem p, e) in rw same (le→leb _ _ h)),
)

limits_of-IsLimitOf : (t : ProtocolMessageTypes) → IsLimitOf t (limits_of t)
unfolding limits_of
limits_of-IsLimitOf t = elim (Option-cases (rate_limits_tx t)) [
  | inr (l, e) ↦ rw (e, limits_of) (inl refl)
  | inl none_there ↦ elim (Option-cases (rate_limits_other t)) [
    | inr (l, e) ↦ rw (none_there, e, limits_of) (inr (inl (refl, refl)))
    | inl neither ↦ rw (none_there, neither, limits_of) (inr (inr (refl, refl, refl)))
  ]
]

limit_is : (t : ProtocolMessageTypes) (l : RlSettings) → IsLimitOf t l → limits_of t ≡ l
unfolding limits_of
limit_is t l (inl e) = rw (e, limits_of) refl
limit_is t l (inr (inl (e, e'))) = rw (e, e', limits_of) refl
limit_is t l (inr (inr (e, e', is))) = rw (e, e', limits_of) (sym is)

total_is : (l : RlSettings) (total : ℕ) → IsTotalOf l total → total_limit l ≡ total
unfolding total_limit
total_is l total (inl e) = rw e refl
total_is l total (inr (e, is)) = rw e (sym is)

total_limit-IsTotalOf : (l : RlSettings) → IsTotalOf l (total_limit l)
unfolding total_limit
total_limit-IsTotalOf l = elim (Option-cases l.max_total_size) [
  | inl none_there ↦ rw none_there (inr (refl, refl))
  | inr (total, e) ↦ rw e (inl refl)
]

is_non_tx_iff : (t : ProtocolMessageTypes) → (is_non_tx t ≡ true) ↔ IsAggregated t
unfolding is_non_tx
is_non_tx_iff t = elim (Option-cases (rate_limits_tx t)) [
  | inr (l, e) ↦ rw (e, is_non_tx) ((λ h. cc), (λ h. cc))
  | inl none_there ↦ elim (Option-cases (rate_limits_other t)) [
    | inr (l, e) ↦ rw (none_there, e, is_non_tx) ((λ h. (refl, l, refl)), (λ h. refl))
    | inl neither ↦ rw (none_there, neither, is_non_tx) ((λ h. cc), (λ h. cc))
  ]
]

PassesAll-IsWithin : (limiter : RateLimiter) → PassesAll limiter → IsWithin limiter
PassesAll-IsWithin limiter all = record {
  counts =
      λ n t l known is. rw (← limit_is t l is) ((is_within_iff _ _ _).0 (all.counts n t known));
  sizes = λ n t l total known is sum.
      let bound : total_limit (limits_of t) ≡ total =
        ap total_limit (limit_is t l is) ∙ total_is l total sum in
      rw (← bound) ((is_within_iff _ _ _).0 (all.sizes n t known));
  non_tx_counts = (is_within_iff _ _ _).0 all.non_tx_counts;
  non_tx_sizes = (is_within_iff _ _ _).0 all.non_tx_sizes;
}

IsWithin-PassesAll : (limiter : RateLimiter) → IsWithin limiter → PassesAll limiter
IsWithin-PassesAll limiter within = record {
  counts = λ n t known.
      (is_within_iff _ _ _).1 (within.counts n t (limits_of t) known (limits_of-IsLimitOf t));
  sizes = λ n t known. (is_within_iff _ _ _).1 (
      within.sizes n t (limits_of t) (total_limit (limits_of t)) known (limits_of-IsLimitOf t)
        (total_limit-IsTotalOf (limits_of t)));
  non_tx_counts = (is_within_iff _ _ _).1 within.non_tx_counts;
  non_tx_sizes = (is_within_iff _ _ _).1 within.non_tx_sizes;
}

pub new_limiter-IsWithin :
    (incoming : Bool) (minute p : ℕ) → IsWithin (new_limiter incoming minute p)
new_limiter-IsWithin incoming minute p =
    PassesAll-IsWithin (new_limiter incoming minute p) (new_limiter-PassesAll incoming minute p)

counted-IsCounted :
    (limiter : RateLimiter) (n : ℕ) (t : ProtocolMessageTypes) (size : ℕ)
    → IsCounted limiter n t size (counted limiter n t size)
unfolding counted
counted-IsCounted limiter n t size = record {
  settings = (refl, refl, refl);
  counts = λ m. count-insert n m _ limiter.message_counts;
  sizes = λ m. count-insert n m _ limiter.message_cumulative_sizes;
  aggregate = elim (Bool-cases (is_non_tx t)) [
    | inl counts ↦ rw counts (inl ((is_non_tx_iff t).0 counts, refl, refl))
    | inr passes_by ↦ rw passes_by (inr ((λ a. let e = (is_non_tx_iff t).1 a in cc), refl, refl))
  ];
}

-- A message that passes is small enough, and one that is small enough passes unless it would take a
-- counter over its limit.
passes-small :
    (after : RateLimiter) (n : ℕ) (t : ProtocolMessageTypes) (size : ℕ)
    → passes after n t size ≡ true
    → size ≤ (limits_of t).max_size
unfolding passes
passes-small after n t size h = ground arith

all_pass :
    (after : RateLimiter) (n : ℕ) (t : ProtocolMessageTypes) (size : ℕ)
    → of_value n ≡ some t
    → size ≤ (limits_of t).max_size
    → PassesAll after
    → passes after n t size ≡ true
unfolding passes
all_pass after n t size known small all =
    ground (arith, all.counts n t known, all.sizes n t known, all.non_tx_counts, all.non_tx_sizes)

-- A limiter of outgoing messages whose counters are within their limits: a message whose number is
-- no type passes, and nothing is counted. Another one passes exactly when its size is at most the
-- largest one of its type and, with it counted in, all counters are within their limits: those of
-- the number and of the sizes of each type in the minute, and the two aggregate ones. Where it
-- passes it is counted, otherwise nothing is, so that the counters stay within the limits.
pub process-IsWithin :
    (limiter : RateLimiter) (minute n size : ℕ)
    → limiter.incoming ≡ false
    → IsWithin limiter
    → let (answer, after) = process_msg_and_check limiter minute n size in
      let current = reset_minute limiter minute in
      IsWithin after
      × ((of_value n ≡ none) × (answer ≡ true) × (after ≡ current)
          ⊎ ((t : ProtocolMessageTypes) × (l : RlSettings) × (with_it : RateLimiter) × (of_value n
                ≡ some t)
              × IsLimitOf t l
              × IsCounted current n t size with_it
              × ((answer ≡ true) × (after ≡ with_it) × (size ≤ l.max_size)
                  ⊎ (answer ≡ false)
                    × (after ≡ current)
                    × (¬ ((size ≤ l.max_size) × IsWithin with_it)))))
process-IsWithin limiter minute n size outgoing within =
    let current = reset_minute limiter minute in
    let fresh = reset_minute-PassesAll limiter minute (IsWithin-PassesAll limiter within) in
    let out : current.incoming ≡ false = reset_minute-incoming limiter minute outgoing in
    elim (Option-cases (of_value n)) [
      | inl unknown ↦
          rw (process-unknown limiter minute n size unknown)
            (PassesAll-IsWithin current fresh, inl (unknown, refl, refl))
      | inr (t, known) ↦
          let after = counted current n t size in
          let counts = counted-IsCounted current n t size in
          elim (Bool-cases (passes after n t size)) [
            | inl passed ↦ rw (process-known limiter minute n size t known out passed) (
              PassesAll-IsWithin after (counted-PassesAll current n t size known fresh passed),
              inr (
                t,
                limits_of t,
                after,
                known,
                limits_of-IsLimitOf t,
                counts,
                inl (refl, refl, passes-small after n t size passed),
              ),
            )
            | inr refused ↦ rw (process-known limiter minute n size t known out refused) (
              PassesAll-IsWithin current fresh,
              inr (
                t,
                limits_of t,
                after,
                known,
                limits_of-IsLimitOf t,
                counts,
                inr (
                  refl,
                  refl,
                  (λ (small, w).
                      let e = all_pass after n t size known small (IsWithin-PassesAll after w) in
                      cc),
                ),
              ),
            )
          ]
    ]

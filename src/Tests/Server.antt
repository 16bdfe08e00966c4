-- ===== src/Tests/Server.antt =====
-- The rate limiter on single messages.
use gold_blockchain.Base.{
  ◌+◌, ◌≤◌, ◌≡◌, refl, ◌≢◌, ◌⊎◌, true, false, none, some, [], ◌∷◌, ◌++◌, arith,
}
use gold_blockchain.Server.RateLimits.Types.{ProtocolMessageTypes, handshake, of_value}
use gold_blockchain.Server.RateLimits.{
  RateLimiter, count, new_limiter, reset_minute, process_msg_and_check,
}
use gold_blockchain.Server.RateLimits.Limits.{process-incoming}
use gold_blockchain.Server.RateLimits.Tables.{RlSettings}
use gold_blockchain.Server.RateLimits.Sending.{
  IsWithin, IsLimitOf, IsCounted, new_limiter-IsWithin, process-IsWithin,
}
use gold_blockchain.Server.RateLimits.Recovery.{run_messages, minutes_are_independent}

abbrev sender : RateLimiter
sender = new_limiter false 7 100

abbrev receiver : RateLimiter
receiver = new_limiter true 7 100

outgoing : sender.incoming ≡ false
unfolding new_limiter
outgoing = refl

incoming : receiver.incoming ≡ true
unfolding new_limiter
incoming = refl

-- A handshake of 20 kB is refused, one of 200 bytes passes.
handshakes :
    ((process_msg_and_check sender 7 1 20000).0 ≡ false)
    × ((process_msg_and_check sender 7 1 200).0 ≡ true)
unfolding process_msg_and_check of_value new_limiter reset_minute
    gold_blockchain.Server.RateLimits.counted gold_blockchain.Server.RateLimits.passes
    gold_blockchain.Server.RateLimits.is_within gold_blockchain.Server.RateLimits.limits_of
    gold_blockchain.Server.RateLimits.is_non_tx gold_blockchain.Server.RateLimits.total_limit
    gold_blockchain.Server.RateLimits.proportion
    gold_blockchain.Server.RateLimits.Tables.rate_limits_tx
    gold_blockchain.Server.RateLimits.Tables.rate_limits_other gold_blockchain.Base.Floats.int_rank
    gold_blockchain.Base.Floats.mul_rank gold_blockchain.Base.Floats.rank
    gold_blockchain.Base.Bits.bit_length
handshakes = (refl, refl)

process-IsWithin_example :
    let (answer, after) = process_msg_and_check sender 8 1 20000 in
    let current = reset_minute sender 8 in
    IsWithin after
    × ((of_value 1 ≡ none) × (answer ≡ true) × (after ≡ current)
        ⊎ ((t : ProtocolMessageTypes) × (l : RlSettings) × (with_it : RateLimiter) × (of_value 1
              ≡ some t)
            × IsLimitOf t l
            × IsCounted current 1 t 20000 with_it
            × ((answer ≡ true) × (after ≡ with_it) × (20000 ≤ l.max_size)
                ⊎ (answer ≡ false)
                  × (after ≡ current)
                  × (¬ ((20000 ≤ l.max_size) × IsWithin with_it)))))
process-IsWithin_example =
    process-IsWithin sender 8 1 20000 outgoing (new_limiter-IsWithin false 7 100)

known : of_value 1 ≡ some handshake
unfolding of_value
known = refl

process-incoming_example :
    let current = reset_minute receiver 7 in
    let after = (process_msg_and_check receiver 7 1 20000).1 in
    (count 1 after.message_counts ≡ count 1 current.message_counts + 1)
    × (count 1 after.message_cumulative_sizes ≡ count 1 current.message_cumulative_sizes + 20000)
process-incoming_example = process-incoming receiver 7 1 20000 handshake incoming known

at_seven : sender.current_minute ≢ 9
unfolding new_limiter
at_seven = omega arith

-- A refusal in minute 8 does not matter in minute 9.
minutes_are_independent_example :
    (run_messages sender ((8, 1, 20000) ∷ (9, 1, 200) ∷ [])).0
    ≡ (run_messages sender ((8, 1, 20000) ∷ [])).0
      ++ (run_messages
          (new_limiter sender.incoming 9 sender.percentage_of_limit)
          ((9, 1, 200) ∷ [])).0
minutes_are_independent_example =
    minutes_are_independent sender ((8, 1, 20000) ∷ []) 9 1 200 [] at_seven (omega arith, tt)

-- ===== src/Server/RateLimits/Recovery.antt =====
-- The rate limiter on a sequence of messages: what a minute's answers depend on.
use gold_blockchain.Base.{
  ℕ, ◌≡◌, refl, sym, ap, ◌∙◌, ◌≢◌, inl, inr, Bool, true, ◌||◌, List, [], ◌∷◌, ◌++◌, ◌==◌,
  if◌then◌else◌, ==_iff, ==_refl, ==-eq_false, Bool-cases, Option-cases, All,
}
use gold_blockchain.Server.RateLimits.Types.{of_value}
use gold_blockchain.Server.RateLimits.{
  RateLimiter, new_limiter, reset_minute, counted, passes, process_msg_and_check,
}

-- The answers to messages, each a minute, a type's number and a size, and the limiter afterwards.
unfoldable pub run_messages : RateLimiter → List (ℕ × ℕ × ℕ) → List Bool × RateLimiter
run_messages limiter [] = ([], limiter)
run_messages limiter ((minute, n, size) ∷ messages) =
    let step = process_msg_and_check limiter minute n size in
    let rest = run_messages step.1 messages in (step.0 ∷ rest.0, rest.1)

-- A limiter with the settings of another, at the start of a minute.
abbrev pub fresh : RateLimiter → ℕ → RateLimiter
fresh limiter minute = new_limiter limiter.incoming minute limiter.percentage_of_limit

reset_other :
    (limiter : RateLimiter) (minute : ℕ)
    → limiter.current_minute ≢ minute
    → reset_minute limiter minute ≡ fresh limiter minute
unfolding reset_minute new_limiter
reset_other limiter minute other =
    rw (==-eq_false minute limiter.current_minute (λ e. other (sym e))) refl

reset_fresh :
    (limiter : RateLimiter) (minute : ℕ)
    → reset_minute (fresh limiter minute) minute ≡ fresh limiter minute
unfolding reset_minute new_limiter
reset_fresh limiter minute = rw (==_refl minute) refl

process_reset :
    (limiter limiter' : RateLimiter) (minute n size : ℕ)
    → reset_minute limiter minute ≡ reset_minute limiter' minute
    → process_msg_and_check limiter minute n size ≡ process_msg_and_check limiter' minute n size
unfolding process_msg_and_check
process_reset limiter limiter' minute n size same = elim (Option-cases (of_value n)) [
  | inl unknown ↦ rw (unknown, process_msg_and_check) (ap (λ current. (true, current)) same)
  | inr (t, known) ↦
      rw (known, process_msg_and_check)
        (ap
          (λ current.
            let after = counted current n t size in
            let ret = passes after n t size in
            (ret, if current.incoming || ret then after else current))
          same)
]

-- What a message leaves of the settings, and the minute that it leaves.
abbrev Keeps : RateLimiter → ℕ → RateLimiter → Type 0
Keeps limiter minute after =
    (after.incoming ≡ limiter.incoming)
    × (after.percentage_of_limit ≡ limiter.percentage_of_limit)
    × (after.current_minute ≡ minute)

reset_minute-Keeps :
    (limiter : RateLimiter) (minute : ℕ) → Keeps limiter minute (reset_minute limiter minute)
unfolding reset_minute
reset_minute-Keeps limiter minute = elim (Bool-cases (minute == limiter.current_minute)) [
  | inl same ↦ rw same (refl, refl, sym ((==_iff _ _).0 same))
  | inr other ↦ rw other (refl, refl, refl)
]

process-Keeps :
    (limiter : RateLimiter) (minute n size : ℕ)
    → Keeps limiter minute (process_msg_and_check limiter minute n size).1
unfolding process_msg_and_check counted
process-Keeps limiter minute n size = elim (Option-cases (of_value n)) [
  | inl unknown ↦ rw (unknown, process_msg_and_check) (reset_minute-Keeps limiter minute)
  | inr (t, known) ↦
      rw (known, process_msg_and_check)
        (elim (Bool-cases (
          (reset_minute limiter minute).incoming
          || passes (counted (reset_minute limiter minute) n t size) n t size)) [
            | inl counts ↦ rw counts (reset_minute-Keeps limiter minute)
            | inr refused ↦ rw refused (reset_minute-Keeps limiter minute)
          ])
]

-- Whatever messages came in other minutes, the messages from a minute's first one on are answered
-- as by a new limiter with the same settings.
pub minutes_are_independent :
    (limiter : RateLimiter) (before : List (ℕ × ℕ × ℕ)) (minute n size : ℕ)
    (messages : List (ℕ × ℕ × ℕ))
    → limiter.current_minute ≢ minute
    → All (λ message. message.0 ≢ minute) before
    → (run_messages limiter (before ++ (minute, n, size) ∷ messages)).0
      ≡ (run_messages limiter before).0
        ++ (run_messages
            (new_limiter limiter.incoming minute limiter.percentage_of_limit)
            ((minute, n, size) ∷ messages)).0
unfolding run_messages
minutes_are_independent limiter [] minute n size messages other others =
    let same =
      process_reset limiter (fresh limiter minute) minute n size
        (reset_other limiter minute other ∙ sym (reset_fresh limiter minute)) in
    rw same refl
minutes_are_independent limiter ((m, k, s) ∷ before) minute n size messages other others =
    let (incoming, percentage, now) = process-Keeps limiter m k s in
    let tail =
      minutes_are_independent (process_msg_and_check limiter m k s).1 before minute n size messages
        (λ e. others.0 (sym now ∙ e)) others.1 in
    rw tail (rw incoming (rw percentage refl))

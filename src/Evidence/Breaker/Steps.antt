-- ===== src/Evidence/Breaker/Steps.antt =====
-- The breaker of the evidence providers as a state machine.
use telegram_digest_bot.Base.{ℕ, zero, suc, ◌+◌, ◌≤◌, ◌<◌, ◌≡◌, true, arith}
use telegram_digest_bot.Base.Int.{ℤ, pos, negsuc}
use telegram_digest_bot.Evidence.Breaker.{
  closed, open_state, half_open, CircuitBreaker, circuit_breaker_threshold, new_circuit_breaker,
  can_attempt, record_success, record_failure,
}

-- What the registry does with a breaker, in any order and at any moments.
pub data Step (cb : CircuitBreaker) : CircuitBreaker → Type 0 where
  attempt : (now : ℕ) {next : CircuitBreaker} → next ≡ (can_attempt now cb).0 → Step cb next
  success : {next : CircuitBreaker} → next ≡ record_success cb → Step cb next
  failure : (now : ℕ) {next : CircuitBreaker} → next ≡ record_failure now cb → Step cb next

pub data Reach (start : CircuitBreaker) : CircuitBreaker → Type 0 where
  here : Reach start start
  next : {cb cb' : CircuitBreaker} → Reach start cb → Step cb cb' → Reach start cb'

pub record IsSound (cb : CircuitBreaker) : Type 0 where
  pub closed_below : cb.state ≡ closed → cb.failures < circuit_breaker_threshold
  pub probing_below : cb.state ≡ half_open → cb.success_count < 2
  pub pause : 0 < cb.reset_after

can_attempt-IsSound : (now : ℕ) (cb : CircuitBreaker) → IsSound cb → IsSound (can_attempt now cb).0
unfolding can_attempt
can_attempt-IsSound now cb s = ground arith

record_success-IsSound : (cb : CircuitBreaker) → IsSound cb → IsSound (record_success cb)
unfolding record_success
record_success-IsSound cb s = ground arith

record_failure-IsSound :
    (now : ℕ) (cb : CircuitBreaker) → IsSound cb → IsSound (record_failure now cb)
unfolding record_failure
record_failure-IsSound now cb s = ground arith

new_circuit_breaker-IsSound : (reset_after : ℤ) → IsSound (new_circuit_breaker reset_after)
unfolding new_circuit_breaker
new_circuit_breaker-IsSound (pos zero) = ground arith
new_circuit_breaker-IsSound (pos (suc n)) = ground arith
new_circuit_breaker-IsSound (negsuc n) = ground arith

Step-IsSound : {cb cb' : CircuitBreaker} → Step cb cb' → IsSound cb → IsSound cb'
Step-IsSound {cb} (attempt now e) s = rw e (can_attempt-IsSound now cb s)
Step-IsSound {cb} (success e) s = rw e (record_success-IsSound cb s)
Step-IsSound {cb} (failure now e) s = rw e (record_failure-IsSound now cb s)

Reach-IsSound : {start cb : CircuitBreaker} → IsSound start → Reach start cb → IsSound cb
Reach-IsSound s here = s
Reach-IsSound s (next r st) = Step-IsSound st (Reach-IsSound s r)

-- Whatever is asked of a new breaker and reported to it, a closed breaker has counted fewer failures
-- than the threshold, and a half-open one fewer than two successes.
pub Reach-new_IsSound :
    (reset_after : ℤ) {cb : CircuitBreaker}
    → Reach (new_circuit_breaker reset_after) cb
    → IsSound cb
Reach-new_IsSound reset_after r = Reach-IsSound (new_circuit_breaker-IsSound reset_after) r

-- What a step was.
pub data Event : Type 0 where
  attempted : ℕ → Event
  succeeded : Event
  failed_at : ℕ → Event

abbrev pub event : {cb cb' : CircuitBreaker} → Step cb cb' → Event
event (attempt now e) = attempted now
event (success e) = succeeded
event (failure now e) = failed_at now

-- What keeps an event from changing the state: an attempt before the pause is over, a first success,
-- and a failure below the threshold.
abbrev pub IsQuiet : Event → CircuitBreaker → Type 0
IsQuiet (attempted now) cb = cb.state ≡ open_state → now ≤ cb.last_failure + cb.reset_after
IsQuiet succeeded cb = cb.state ≡ half_open → cb.success_count ≡ 0
IsQuiet (failed_at now) cb = 3 ≤ cb.failures + 1 → cb.state ≡ open_state

-- The transitions of the state, with the events that make them and what they need.
pub data Allowed (ev : Event) (cb cb' : CircuitBreaker) : Type 0 where
  stays : cb'.state ≡ cb.state → IsQuiet ev cb → Allowed ev cb cb'
  opens :
      (now : ℕ)
      → ev ≡ failed_at now
      → cb'.state ≡ open_state
      → cb'.last_failure ≡ now
      → cb'.failures ≡ cb.failures + 1
      → 3 ≤ cb'.failures
      → Allowed ev cb cb'
  probes :
      (now : ℕ)
      → ev ≡ attempted now
      → cb.state ≡ open_state
      → cb.last_failure + cb.reset_after < now
      → cb'.state ≡ half_open
      → cb'.success_count ≡ 0
      → Allowed ev cb cb'
  closes :
      ev ≡ succeeded
      → cb.state ≡ half_open
      → cb.success_count ≡ 1
      → cb'.state ≡ closed
      → cb'.failures ≡ 0
      → Allowed ev cb cb'

-- An open breaker whose pause is over is closed, with no failure counted, by an attempt and two
-- successes, and before the second of them it lets every attempt through.
pub recovers :
    (now : ℕ) (cb : CircuitBreaker)
    → cb.state ≡ open_state
    → cb.last_failure + cb.reset_after < now
    → let probing = (can_attempt now cb).0 in
      ((can_attempt now cb).1 ≡ true)
      × ((later : ℕ) → (can_attempt later (record_success probing)).1 ≡ true)
      × ((record_success (record_success probing)).state ≡ closed)
      × ((record_success (record_success probing)).failures ≡ 0)
unfolding can_attempt record_success
recovers now cb is_open over = (ground arith, λ later. ground arith, ground arith, ground arith)

-- ===== src/Evidence/Breaker.antt =====
-- The circuit breaker of the evidence providers (the end of internal/process/enrichment/providers.go).
-- Moments are numbers of nanoseconds, and `time.Now()` is the argument `now`. Each method holds the
-- mutex, so it is one step. The metric that counts openings is left out.
pub mod Steps
mod Tests
use telegram_digest_bot.Base.{
  ℕ, zero, suc, ◌+◌, ◌*◌, ◌-◌, Bool, true, false, ltb, leb, if◌then◌else◌,
}
use telegram_digest_bot.Base.Int.{ℤ, pos, negsuc}

pub data CircuitState : Type 0 where
  closed open_state half_open : CircuitState

pub record CircuitBreaker : Type 0 where
  pub failures : ℕ
  pub last_failure : ℕ
  pub state : CircuitState
  pub success_count : ℕ
  pub reset_after : ℕ

abbrev pub circuit_breaker_threshold : ℕ
circuit_breaker_threshold = 3

-- Five minutes.
abbrev pub default_circuit_breaker_reset_after : ℕ
default_circuit_breaker_reset_after = 300_000_000_000

-- A pause that is not positive is replaced by the default.
abbrev pub positive_or_default : ℤ → ℕ
positive_or_default (pos zero) = default_circuit_breaker_reset_after
positive_or_default (pos (suc n)) = suc n
positive_or_default (negsuc n) = default_circuit_breaker_reset_after

unfoldable pub new_circuit_breaker : ℤ → CircuitBreaker
new_circuit_breaker reset_after = record {
  failures = 0;
  last_failure = 0;
  state = closed;
  success_count = 0;
  reset_after = positive_or_default reset_after;
}

-- `time.Since(cb.lastFailure) > cb.resetAfter`
abbrev rested : ℕ → CircuitBreaker → Bool
rested now cb = ltb (cb.last_failure + cb.reset_after) now

can_attempt_in : CircuitState → ℕ → CircuitBreaker → CircuitBreaker × Bool
can_attempt_in closed now cb = (cb, true)
can_attempt_in open_state now cb =
    if rested now cb
    then (record cb { state = half_open; success_count = 0 }, true)
    else (cb, false)
can_attempt_in half_open now cb = (cb, true)

unfoldable pub can_attempt : ℕ → CircuitBreaker → CircuitBreaker × Bool
unfolding can_attempt_in
can_attempt now cb = can_attempt_in cb.state now cb

succeed_in : CircuitState → CircuitBreaker → CircuitBreaker
succeed_in half_open cb =
    let counted = record cb { success_count = cb.success_count + 1 } in
    if leb 2 counted.success_count then record counted { state = closed } else counted
succeed_in closed cb = cb
succeed_in open_state cb = cb

unfoldable pub record_success : CircuitBreaker → CircuitBreaker
unfolding succeed_in
record_success cb = let cleared = record cb { failures = 0 } in succeed_in cleared.state cleared

unfoldable pub record_failure : ℕ → CircuitBreaker → CircuitBreaker
record_failure now cb =
    let failed = record cb { failures = cb.failures + 1; last_failure = now } in
    if leb circuit_breaker_threshold failed.failures
    then record failed { state = open_state }
    else failed

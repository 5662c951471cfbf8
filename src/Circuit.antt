-- ===== src/Circuit.antt =====
-- The circuit breaker that guards the LLM and the embedding providers
-- (internal/core/embeddings/circuit.go).
-- A moment is the number of nanoseconds since Go's zero time, and `time.Now()` is the argument `now`
-- of each operation. Thresholds and durations are those of a configuration, not negative. The log
-- and the mutex, which makes each method one step, are left out.
pub mod Opening
mod Tests
use telegram_digest_bot.Base.{ℕ, ◌+◌, Bool, Option, none, some, ltb, leb, if◌then◌else◌}

pub record CircuitBreakerConfig : Type 0 where
  pub threshold : ℕ
  pub reset_after : ℕ

pub record CircuitBreaker : Type 0 where
  pub threshold : ℕ
  pub reset_after : ℕ
  pub consecutive_failures : ℕ
  pub open_until : ℕ

unfoldable pub new_circuit_breaker : CircuitBreakerConfig → CircuitBreaker
new_circuit_breaker cfg = record {
  threshold = cfg.threshold;
  reset_after = cfg.reset_after;
  consecutive_failures = 0;
  open_until = 0;
}

-- `time.Now().After(cb.openUntil)`
unfoldable pub can_attempt : ℕ → CircuitBreaker → Bool
can_attempt now cb = ltb cb.open_until now

-- The error carries the moment until which the circuit is open.
unfoldable pub check_circuit : ℕ → CircuitBreaker → Option ℕ
check_circuit now cb = if ltb now cb.open_until then some cb.open_until else none

unfoldable pub record_success : CircuitBreaker → CircuitBreaker
record_success cb = record cb { consecutive_failures = 0 }

unfoldable pub record_failure : ℕ → CircuitBreaker → CircuitBreaker
record_failure now cb =
    let failed = record cb { consecutive_failures = cb.consecutive_failures + 1 } in
    if leb failed.threshold failed.consecutive_failures
    then record failed { open_until = now + failed.reset_after }
    else failed

unfoldable pub is_open : ℕ → CircuitBreaker → Bool
is_open now cb = ltb now cb.open_until

unfoldable pub reset : CircuitBreaker → CircuitBreaker
reset cb = record cb { consecutive_failures = 0; open_until = 0 }

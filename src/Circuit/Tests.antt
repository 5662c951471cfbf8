-- ===== src/Circuit/Tests.antt =====
-- Runs of the circuit breaker, and its theorems at concrete inputs.
use telegram_digest_bot.Base.{◌≡◌, refl, [], ◌∷◌, arith, List}
use telegram_digest_bot.Circuit.{CircuitBreakerConfig, CircuitBreaker, new_circuit_breaker}
use telegram_digest_bot.Circuit.Opening.{
  Event, success, failure, run, failures, run-failures, Opened, open_needs_failures,
}

abbrev two_strikes : CircuitBreakerConfig
two_strikes = record { threshold = 2; reset_after = 60 }

abbrev fresh : CircuitBreaker
fresh = record { threshold = 2; reset_after = 60; consecutive_failures = 0; open_until = 0 }

run-failures_example :
    run fresh (failures (10 ∷ 20 ∷ []))
    ≡ record { threshold = 2; reset_after = 60; consecutive_failures = 2; open_until = 80 }
run-failures_example = run-failures fresh 10 (20 ∷ [])

abbrev flaky : List Event
flaky = failure 5 ∷ success ∷ failure 10 ∷ failure 20 ∷ []

open_needs_failures_example : Opened 2 flaky
unfolding run new_circuit_breaker
open_needs_failures_example = open_needs_failures two_strikes flaky (omega arith)

-- After the pause one more failure opens the breaker again: the count is reset by a success only.
reopened : (run fresh (failures (10 ∷ 20 ∷ 100 ∷ []))).open_until ≡ 160
unfolding run
reopened = refl

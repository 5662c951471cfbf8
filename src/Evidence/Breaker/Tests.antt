-- ===== src/Evidence/Breaker/Tests.antt =====
-- The breaker of the evidence providers at concrete inputs.
use telegram_digest_bot.Base.{ℕ, ◌≡◌, refl, true, arith}
use telegram_digest_bot.Base.Int.{pos}
use telegram_digest_bot.Evidence.Breaker.{
  closed, open_state, half_open, CircuitBreaker, new_circuit_breaker, can_attempt, record_success,
  record_failure,
}
use telegram_digest_bot.Evidence.Breaker.Steps.{
  Reach, here, next, failure, IsSound, Reach-new_IsSound, recovers,
}

abbrev tripped : CircuitBreaker
tripped = record {
  failures = 3;
  last_failure = 30;
  state = open_state;
  success_count = 0;
  reset_after = 60;
}

three_failures : Reach (new_circuit_breaker (pos 60)) tripped
unfolding new_circuit_breaker record_failure
three_failures = next (next (next here (failure 10 refl)) (failure 20 refl)) (failure 30 refl)

Reach-new_IsSound_example : IsSound tripped
Reach-new_IsSound_example = Reach-new_IsSound (pos 60) three_failures

recovers_example :
    let probing = (can_attempt 100 tripped).0 in
    ((can_attempt 100 tripped).1 ≡ true)
    × ((later : ℕ) → (can_attempt later (record_success probing)).1 ≡ true)
    × ((record_success (record_success probing)).state ≡ closed)
    × ((record_success (record_success probing)).failures ≡ 0)
recovers_example = recovers 100 tripped refl (omega arith)

-- A success while probing clears the count, so one failure behind it does not open the breaker.
still_probing : (record_failure 101 (record_success (can_attempt 100 tripped).0)).state ≡ half_open
unfolding can_attempt record_success record_failure
still_probing = refl

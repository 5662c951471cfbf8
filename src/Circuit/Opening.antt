-- ===== src/Circuit/Opening.antt =====
-- When a run of calls opens the breaker of circuit.go, and for how long.
use telegram_digest_bot.Base.{
  ℕ, suc, ◌+◌, ◌≤◌, ◌≡◌, refl, List, [], ◌∷◌, ◌++◌, true, false, length, length-append,
  append_assoc, arith, tests, leb, if◌then◌else◌, Bool-cases, inl, inr, append-nil, ap, ◌≢◌, subst,
  some, ◌↔◌,
}
use telegram_digest_bot.Circuit.{
  CircuitBreaker, can_attempt, record_success, record_failure, reset, CircuitBreakerConfig,
  new_circuit_breaker, is_open, check_circuit,
}

-- What the callers of a breaker report to it.
pub data Event : Type 0 where
  success : Event
  failure : ℕ → Event
  cleared : Event

unfoldable pub apply : CircuitBreaker → Event → CircuitBreaker
unfolding record_success record_failure reset
apply cb success = record_success cb
apply cb (failure now) = record_failure now cb
apply cb cleared = reset cb

unfoldable pub run : CircuitBreaker → List Event → CircuitBreaker
unfolding apply
run cb [] = cb
run cb (e ∷ es) = run (apply cb e) es

-- Failures at the given moments, one after the other.
abbrev pub failures : List ℕ → List Event
failures [] = []
failures (t ∷ ts) = failure t ∷ failures ts

abbrev pub last : ℕ → List ℕ → ℕ
last t [] = t
last t (u ∷ us) = last u us

-- After a run of failures the count has grown by the length of the run, and the breaker is open until
-- `reset_after` past the last of them exactly if the count has reached the threshold.
pub run-failures :
    (cb : CircuitBreaker) (t : ℕ) (ts : List ℕ)
    → let count = cb.consecutive_failures + suc (length ts) in
      run cb (failures (t ∷ ts)) ≡ record cb {
        consecutive_failures = count;
        open_until = if leb cb.threshold count then last t ts + cb.reset_after else cb.open_until;
      }
unfolding run
run-failures cb t [] = ground arith
run-failures cb t (u ∷ us) = ground (arith, run-failures (record_failure t cb) u us)

failures-append : (ts us : List ℕ) → failures (ts ++ us) ≡ failures ts ++ failures us
failures-append [] us = refl
failures-append (t ∷ ts) us = ap (λ es. failure t ∷ es) (failures-append ts us)

-- A history that holds a run of at least so many failures with nothing between them.
abbrev pub Opened : ℕ → List Event → Type 0
Opened threshold es =
    (pre : List Event) × (ts : List ℕ) × (post : List Event) × (((pre ++ failures ts) ++ post) ≡ es)
    × (threshold ≤ length ts)

regroup_gap :
    (pre : List Event) (ts : List ℕ) (e : Event) (es : List Event)
    → ((pre ++ failures ts) ++ e ∷ [] ++ []) ++ es ≡ (pre ++ failures ts) ++ e ∷ es
regroup_gap pre ts e es = simp (append_assoc, append-nil)

regroup_failure :
    (pre : List Event) (ts : List ℕ) (t : ℕ) (es : List Event)
    → (pre ++ failures (ts ++ t ∷ [])) ++ es ≡ (pre ++ failures ts) ++ failure t ∷ es
regroup_failure pre ts t es = simp (failures-append, append_assoc)

failure_below :
    (cb : CircuitBreaker) (t : ℕ)
    → leb cb.threshold (cb.consecutive_failures + 1) ≡ false
    → record_failure t cb ≡ record cb { consecutive_failures = cb.consecutive_failures + 1 }
unfolding record_failure
failure_below cb t few = rw few

length-snoc : (ts : List ℕ) (t : ℕ) → length ts + 1 ≡ length (ts ++ t ∷ [])
length-snoc ts t = omega (arith, length-append ts (t ∷ []))

-- `pre ++ failures ts` is what happened, and the last `length ts` events of it were counted.
Opened-after :
    (cb : CircuitBreaker) (pre : List Event) (ts : List ℕ) (es : List Event)
    → cb.consecutive_failures ≡ length ts
    → cb.open_until ≡ 0
    → (run cb es).open_until ≢ 0
    → Opened cb.threshold ((pre ++ failures ts) ++ es)
unfolding run
Opened-after cb pre ts [] count shut opened = absurd (opened shut)
Opened-after cb pre ts (success ∷ es) count shut opened =
    subst (Opened cb.threshold) (regroup_gap pre ts success es) (
      Opened-after (record_success cb) ((pre ++ failures ts) ++ success ∷ []) [] es refl shut
        opened)
Opened-after cb pre ts (cleared ∷ es) count shut opened =
    subst (Opened cb.threshold) (regroup_gap pre ts cleared es)
      (Opened-after (reset cb) ((pre ++ failures ts) ++ cleared ∷ []) [] es refl refl opened)
Opened-after cb pre ts (failure t ∷ es) count shut opened =
    elim (Bool-cases (leb cb.threshold (cb.consecutive_failures + 1))) [
      | inl enough ↦ (
        pre,
        ts ++ t ∷ [],
        es,
        regroup_failure pre ts t es,
        omega (tests, length-snoc ts t, count),
      )
      | inr few ↦ subst (Opened cb.threshold) (regroup_failure pre ts t es) (
          Opened-after (record cb { consecutive_failures = cb.consecutive_failures + 1 }) pre
            (ts ++ t ∷ []) es count_snoc shut
            (subst (λ c. (run c es).open_until ≢ 0) (failure_below cb t few) opened))
    ]
  where
    count_snoc : cb.consecutive_failures + 1 ≡ length (ts ++ t ∷ [])
    count_snoc = omega (arith, length-snoc ts t, count)

-- A breaker that was never opened before is opened by a history of successes, failures and resets only
-- if that history holds at least `threshold` failures in a row.
pub open_needs_failures :
    (cfg : CircuitBreakerConfig) (es : List Event)
    → (run (new_circuit_breaker cfg) es).open_until ≢ 0
    → Opened cfg.threshold es
unfolding new_circuit_breaker
open_needs_failures cfg es opened = Opened-after (new_circuit_breaker cfg) [] [] es refl refl opened

-- At every moment the breaker refuses calls or is closed for `check_circuit` and `is_open`, which
-- agree; `can_attempt` is their negation but at the moment `open_until` itself, where all say no.
pub tests_agree :
    (now : ℕ) (cb : CircuitBreaker)
    → ((is_open now cb ≡ true) ↔ (check_circuit now cb ≡ some cb.open_until))
      × ((can_attempt now cb ≡ true) ↔ ((is_open now cb ≡ false) × (now ≢ cb.open_until)))
unfolding is_open check_circuit can_attempt
tests_agree now cb = ((ground arith, ground arith), (ground arith, ground arith))

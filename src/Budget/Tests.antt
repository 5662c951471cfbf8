-- ===== src/Budget/Tests.antt =====
-- The budget at concrete inputs, with a coarse arithmetic in place of the floats: a number of the model
-- is a number of tenths.
use telegram_digest_bot.Base.{
  ℕ, ◌+◌, ◌*◌, ◌/◌, ◌^◌, ◌≤◌, ◌≡◌, refl, [], ◌∷◌, List, true, false, arith, ltb, leb, ◌==◌, ◌-◌,
}
use telegram_digest_bot.Base.Float.{FloatOps}
use telegram_digest_bot.Budget.{warning, critical, BudgetTracker, record_tokens, get_daily_usage}
use telegram_digest_bot.Budget.Alerts.{
  GoesOn, record_all, count_on, one_of, one_alert_per_day, warning_after_critical,
}
use telegram_digest_bot.Budget.Usage.{usage_of_day}

abbrev tenths : FloatOps
tenths = record {
  Num = ℕ;
  of_nat = λ n. n * 10;
  of_i64 = λ n. n * 10;
  decimal = λ n d. n * 10 / 10 ^ d;
  add = λ x y. x + y;
  sub = λ x y. x - y;
  mul = λ x y. x * y / 10;
  div = λ x y. x * 10 / y;
  sqrt = λ x. x;
  floor = λ x. x / 10;
  lt = ltb;
  le = leb;
  eq = ◌==◌;
}

abbrev idle : BudgetTracker
idle = record {
  daily_tokens = 0;
  daily_limit = 100;
  last_reset_date = 0;
  warning_fired = false;
  critical_fired = false;
  has_callback = true;
}

abbrev calls : List (ℕ × ℕ)
calls = (1, 85) ∷ (2, 20) ∷ (3, 50) ∷ []

one_alert_per_day_example : count_on tenths warning 0 (record_all tenths calls idle).1 ≤ 1
unfolding GoesOn
one_alert_per_day_example =
    one_alert_per_day tenths warning 0 calls idle (omega arith, (omega arith, (omega arith, tt)))

raised : count_on tenths warning 0 (record_all tenths calls idle).1 ≡ 1
unfolding record_all record_tokens count_on
raised = refl

warning_after_critical_example :
    one_of tenths warning (record_tokens tenths 2 1 (record_tokens tenths 1 120 idle).0).1 ≡ 1
unfolding record_tokens
warning_after_critical_example =
    warning_after_critical tenths 1 2 120 1 idle
      (record {
        level = critical;
        tokens = 120;
        budget_limit = 100;
        percentage = 12;
        timestamp = 1;
      })
      refl refl refl refl refl

usage_of_day_example : (get_daily_usage 9 (record_all tenths calls idle).0).1 ≡ 155
usage_of_day_example = usage_of_day tenths 0 1 85 ((2, 20) ∷ (3, 50) ∷ []) idle 9 (omega arith)

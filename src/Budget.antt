-- ===== src/Budget.antt =====
-- The daily token budget of the LLM registry (internal/core/llm/budget.go).
-- An int64 is its bit pattern, a number below 2^64 that is negative from 2^63 on. A moment is a number
-- of nanoseconds since Go's zero time, and a date, which the source prints, is the number of its day
-- in UTC. Of the callback the model keeps whether it is set: an alert is an output of the call that
-- fires it. The log and the mutex are left out.
pub mod Alerts
pub mod Usage
mod Tests
use telegram_digest_bot.Base.{
  ℕ, ◌+◌, ◌/◌, ◌%◌, ◌^◌, Bool, true, false, not, ◌&&◌, ◌||◌, Option, none, some, ltb, ◌==◌,
  if◌then◌else◌,
}
use telegram_digest_bot.Base.Float.{FloatOps}

-- `x > 0` and `x + y` on int64.
abbrev pub is_pos_i64 : ℕ → Bool
is_pos_i64 x = ltb 0 x && ltb x (2 ^ 63)

abbrev pub add_i64 : ℕ → ℕ → ℕ
add_i64 x y = (x + y) % 2 ^ 64

abbrev pub nanos_per_day : ℕ
nanos_per_day = 86_400_000_000_000

-- `now.UTC().Format(dateFormatYMD)`
abbrev pub date : ℕ → ℕ
date now = now / nanos_per_day

pub data Level : Type 0 where
  warning critical : Level

pub record BudgetTracker : Type 0 where
  pub daily_tokens : ℕ
  pub daily_limit : ℕ
  pub last_reset_date : ℕ
  pub warning_fired : Bool
  pub critical_fired : Bool
  pub has_callback : Bool

unfoldable pub new_budget_tracker : ℕ → ℕ → BudgetTracker
new_budget_tracker now limit = record {
  daily_tokens = 0;
  daily_limit = limit;
  last_reset_date = date now;
  warning_fired = false;
  critical_fired = false;
  has_callback = false;
}

-- The argument tells whether the callback is set, and not nil.
unfoldable pub set_alert_callback : Bool → BudgetTracker → BudgetTracker
set_alert_callback is_set bt = record bt { has_callback = is_set }

unfoldable pub set_daily_limit : ℕ → BudgetTracker → BudgetTracker
set_daily_limit limit bt = record bt { daily_limit = limit }

unfoldable pub check_date_reset : ℕ → BudgetTracker → BudgetTracker
check_date_reset now bt = if bt.last_reset_date == date now then bt else record bt {
  daily_tokens = 0;
  warning_fired = false;
  critical_fired = false;
  last_reset_date = date now;
}

unfoldable pub get_daily_usage : ℕ → BudgetTracker → BudgetTracker × ℕ
unfolding check_date_reset
get_daily_usage now bt = let checked = check_date_reset now bt in (checked, checked.daily_tokens)

module _ (floats : FloatOps) where
  open floats use {Num, of_nat, of_i64, decimal, div, le}

  pub record BudgetAlert : Type 0 where
    pub level : Level
    pub tokens : ℕ
    pub budget_limit : ℕ
    pub percentage : Num
    pub timestamp : ℕ

  -- `BudgetThresholdWarning` and `BudgetThresholdCritical`
  abbrev pub threshold_warning : Num
  threshold_warning = decimal 8 1

  abbrev pub threshold_critical : Num
  threshold_critical = decimal 10 1

  unfoldable pub fire_alert : ℕ → Level → Num → BudgetTracker → BudgetAlert
  fire_alert now level percentage bt = record {
    level = level;
    tokens = bt.daily_tokens;
    budget_limit = bt.daily_limit;
    percentage = percentage;
    timestamp = now;
  }

  -- `float64(bt.dailyTokens) / float64(bt.dailyLimit)`
  abbrev pub usage : BudgetTracker → Num
  usage bt = div (of_i64 bt.daily_tokens) (of_i64 bt.daily_limit)

  -- The part of `RecordTokens` behind the addition.
  unfoldable pub check_thresholds : ℕ → BudgetTracker → BudgetTracker × Option BudgetAlert
  unfolding fire_alert
  check_thresholds now bt =
      if not (is_pos_i64 bt.daily_limit) || not bt.has_callback
      then (bt, none)
      else if not bt.critical_fired && le threshold_critical (usage bt)
      then (record bt { critical_fired = true }, some (fire_alert now critical (usage bt) bt))
      else if not bt.warning_fired && le threshold_warning (usage bt)
      then (record bt { warning_fired = true }, some (fire_alert now warning (usage bt) bt))
      else (bt, none)

  unfoldable pub record_tokens : ℕ → ℕ → BudgetTracker → BudgetTracker × Option BudgetAlert
  unfolding check_date_reset check_thresholds
  record_tokens now tokens bt =
      let today = check_date_reset now bt in
      check_thresholds now (record today { daily_tokens = add_i64 today.daily_tokens tokens })

  unfoldable pub get_status : ℕ → BudgetTracker → BudgetTracker × ℕ × ℕ × Num
  unfolding check_date_reset
  get_status now bt =
      let checked = check_date_reset now bt in
      (
        checked,
        checked.daily_tokens,
        checked.daily_limit,
        if is_pos_i64 checked.daily_limit then usage checked else of_nat 0,
      )

-- ===== src/Budget/Alerts.antt =====
-- How often the budget of budget.go raises an alert.
use telegram_digest_bot.Base.{
  ℕ, ◌+◌, ◌≤◌, ◌≡◌, Bool, true, false, List, [], ◌∷◌, Option, none, some, ◌==◌, arith,
  if◌then◌else◌, subst, sym, ltb, ◌-◌, ◌&&◌,
}
use telegram_digest_bot.Base.Float.{FloatOps}
use telegram_digest_bot.Budget.{
  Level, warning, critical, BudgetTracker, BudgetAlert, date, record_tokens, usage,
  threshold_warning, add_i64,
}

-- The dates of the calls never fall, from a first date on.
unfoldable pub GoesOn : ℕ → List (ℕ × ℕ) → Type 0
GoesOn last [] = Unit
GoesOn last ((now, tokens) ∷ calls) = (last ≤ date now) × GoesOn (date now) calls

abbrev pub is_level : Level → Level → Bool
is_level warning warning = true
is_level critical critical = true
is_level _ _ = false

abbrev fired : Level → BudgetTracker → ℕ
fired warning bt = if bt.warning_fired then 1 else 0
fired critical bt = if bt.critical_fired then 1 else 0

module _ (floats : FloatOps) where
  -- The tracker and the alerts after a list of calls, each with its moment and its tokens.
  unfoldable pub record_all :
      List (ℕ × ℕ) → BudgetTracker → BudgetTracker × List (Option (BudgetAlert floats))
  record_all [] bt = (bt, [])
  record_all ((now, tokens) ∷ calls) bt =
      let (bt', alert) = record_tokens floats now tokens bt in
      let (end, alerts) = record_all calls bt' in (end, alert ∷ alerts)

  abbrev pub one_of : Level → Option (BudgetAlert floats) → ℕ
  one_of l none = 0
  one_of l (some alert) = if is_level l alert.level then 1 else 0

  -- Whether an alert of a level was raised on a date, and how many.
  abbrev pub one_on : Level → ℕ → Option (BudgetAlert floats) → ℕ
  one_on l day none = 0
  one_on l day (some alert) = if is_level l alert.level && date alert.timestamp == day then 1 else 0

  unfoldable pub count_on : Level → ℕ → List (Option (BudgetAlert floats)) → ℕ
  count_on l day [] = 0
  count_on l day (a ∷ as') = one_on l day a + count_on l day as'

  record_tokens-date :
      (now tokens : ℕ) (bt : BudgetTracker)
      → (record_tokens floats now tokens bt).0.last_reset_date ≡ date now
  unfolding record_tokens
  record_tokens-date now tokens bt = ground arith

  -- An alert of a level spends the flag of that level, which only a new date gives back, and carries
  -- the date of the call.
  one_on-record_tokens :
      (l : Level) (day now tokens : ℕ) (bt : BudgetTracker)
      → one_on l day (record_tokens floats now tokens bt).1
          + (if bt.last_reset_date == date now then fired l bt else 0)
        ≤ fired l (record_tokens floats now tokens bt).0
  unfolding record_tokens
  one_on-record_tokens warning day now tokens bt = ground arith
  one_on-record_tokens critical day now tokens bt = ground arith

  one_on-other_day :
      (l : Level) (day now tokens : ℕ) (bt : BudgetTracker)
      → ¬ (date now ≡ day)
      → one_on l day (record_tokens floats now tokens bt).1 ≡ 0
  unfolding record_tokens
  one_on-other_day warning day now tokens bt other = ground (arith, other)
  one_on-other_day critical day now tokens bt other = ground (arith, other)

  fired_le_one : (l : Level) (bt : BudgetTracker) → fired l bt ≤ 1
  fired_le_one warning bt = ground arith
  fired_le_one critical bt = ground arith

  -- How many alerts of a level a date may still have: none before the last date, and on it none once the
  -- flag is spent.
  abbrev left_on : Level → ℕ → BudgetTracker → ℕ
  left_on l day bt =
      if ltb day bt.last_reset_date
      then 0
      else if day == bt.last_reset_date
      then 1 - fired l bt
      else 1

  left_on-record_tokens :
      (l : Level) (day now tokens : ℕ) (bt : BudgetTracker)
      → bt.last_reset_date ≤ date now
      → one_on l day (record_tokens floats now tokens bt).1
          + left_on l day (record_tokens floats now tokens bt).0
        ≤ left_on l day bt
  left_on-record_tokens l day now tokens bt later = ground (
    arith,
    later,
    record_tokens-date now tokens bt,
    one_on-record_tokens l day now tokens bt,
    one_on-other_day l day now tokens bt,
    fired_le_one l bt,
    fired_le_one l (record_tokens floats now tokens bt).0,
  )

  count_on-record_all :
      (l : Level) (day : ℕ) (calls : List (ℕ × ℕ)) (bt : BudgetTracker)
      → GoesOn bt.last_reset_date calls
      → count_on l day (record_all calls bt).1 ≤ left_on l day bt
  unfolding record_all count_on GoesOn
  count_on-record_all l day [] bt on = omega arith
  count_on-record_all l day ((now, tokens) ∷ calls) bt (later, on) =
      let bt' = (record_tokens floats now tokens bt).0 in
      omega (
        arith,
        left_on-record_tokens l day now tokens bt later,
        count_on-record_all l day calls bt'
            (subst (λ d. GoesOn d calls) (sym (record_tokens-date now tokens bt)) on),
      )

  -- However many tokens are recorded, as long as the dates of the calls never fall, the alerts of one
  -- level that carry one date are at most one.
  pub one_alert_per_day :
      (l : Level) (day : ℕ) (calls : List (ℕ × ℕ)) (bt : BudgetTracker)
      → GoesOn bt.last_reset_date calls
      → count_on l day (record_all calls bt).1 ≤ 1
  one_alert_per_day l day calls bt on =
      ground (arith, count_on-record_all l day calls bt on, fired_le_one l bt)

  -- A call that raises the critical alert before any warning was raised leaves the warning to the next
  -- call: on the same date, with the limit in place and the use at the warning threshold, that call
  -- raises a warning after the critical alert.
  pub warning_after_critical :
      (now now' tokens tokens' : ℕ) (bt : BudgetTracker) (a : BudgetAlert floats)
      → bt.warning_fired ≡ false
      → (record_tokens floats now tokens bt).1 ≡ some a
      → a.level ≡ critical
      → date now' ≡ date now
      → FloatOps.le floats (threshold_warning floats) (
          usage floats (record (record_tokens floats now tokens bt).0 {
            daily_tokens = add_i64 (record_tokens floats now tokens bt).0.daily_tokens tokens';
          }))
        ≡ true
      → one_of warning (record_tokens floats now' tokens' (record_tokens floats now tokens bt).0).1
        ≡ 1
  unfolding record_tokens
  warning_after_critical now now' tokens tokens' bt a quiet raised is_critical same enough =
      ground arith

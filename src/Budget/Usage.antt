-- ===== src/Budget/Usage.antt =====
-- What the counter of budget.go holds after the calls of one day.
use telegram_digest_bot.Base.{
  ℕ, ◌+◌, ◌%◌, ◌^◌, ◌<◌, ◌≡◌, List, [], ◌∷◌, All, ◌==◌, arith, if◌then◌else◌,
}
use telegram_digest_bot.Base.Float.{FloatOps}
use telegram_digest_bot.Budget.{BudgetTracker, date, record_tokens, get_daily_usage}
use telegram_digest_bot.Budget.Alerts.{record_all}

abbrev pub total : List (ℕ × ℕ) → ℕ
total [] = 0
total ((now, tokens) ∷ calls) = tokens + total calls

abbrev pub OnDate : ℕ → List (ℕ × ℕ) → Type 0
OnDate day = All (λ call. date call.0 ≡ day)

-- What a day starts with.
abbrev pub carried : ℕ → BudgetTracker → ℕ
carried day bt = if bt.last_reset_date == day then bt.daily_tokens else 0

module _ (floats : FloatOps) where
  step_same :
      (now tokens : ℕ) (bt : BudgetTracker)
      → ((record_tokens floats now tokens bt).0.daily_tokens
          ≡ (carried (date now) bt + tokens) % 2 ^ 64)
        × ((record_tokens floats now tokens bt).0.last_reset_date ≡ date now)
  unfolding record_tokens
  step_same now tokens bt = (ground arith, ground arith)

  record_all-total :
      (day : ℕ) (calls : List (ℕ × ℕ)) (bt : BudgetTracker)
      → OnDate day calls
      → bt.last_reset_date ≡ day
      → bt.daily_tokens < 2 ^ 64
      → ((record_all floats calls bt).0.daily_tokens ≡ (bt.daily_tokens + total calls) % 2 ^ 64)
        × ((record_all floats calls bt).0.last_reset_date ≡ day)
  unfolding record_all
  record_all-total day [] bt _ on fits = (omega arith, on)
  record_all-total day ((now, tokens) ∷ calls) bt (is_day, rest) on fits =
      let bt' = (record_tokens floats now tokens bt).0 in
      let step = step_same now tokens bt in
      ground (arith, step, record_all-total day calls bt' rest)

  -- The calls of one day, at least one, leave the counter at what the day started with and all their
  -- tokens, as an int64, and that is what is read on the same day; on any other date 0 is read.
  pub usage_of_day :
      (day now tokens : ℕ) (calls : List (ℕ × ℕ)) (bt : BudgetTracker) (later : ℕ)
      → OnDate day ((now, tokens) ∷ calls)
      → (get_daily_usage later (record_all floats ((now, tokens) ∷ calls) bt).0).1 ≡ (
          if day == date later
          then (carried day bt + total ((now, tokens) ∷ calls)) % 2 ^ 64
          else 0)
  unfolding get_daily_usage record_all
  usage_of_day day now tokens calls bt later (is_day, rest) =
      let bt' = (record_tokens floats now tokens bt).0 in
      let step = step_same now tokens bt in
      ground (arith, step, record_all-total day calls bt' rest)

-- ===== src/Weekly/Tests.antt =====
-- A task of every Sunday at midnight, checked at some moments; a day has 100 units.
use telegram_digest_bot.Base.{ℕ, ◌/◌, ◌%◌, ◌≡◌, refl, true, ◌&&◌, List, [], ◌∷◌}
use telegram_digest_bot.Weekly.{WeeklyTask, check_and_run_task, should_run_weekly}
use telegram_digest_bot.Weekly.Spacing.{
  Check, successes, IsSpaced, successes-IsSpaced, should_run_weekly_lem,
}

abbrev day_of : ℕ → ℕ
day_of t = t / 100 % 7

abbrev hour : ℕ → ℕ
hour t = t % 100 / 4

abbrev sunday : WeeklyTask
sunday = record { name = "stats"; day = 0; hour = 0; grace_period = 600; last_run = 0 }

abbrev check_at : ℕ → Check
check_at t = record { now = t; is_enabled = true; succeeds = true }

abbrev checks : List Check
checks = check_at 700 ∷ check_at 702 ∷ check_at 1000 ∷ check_at 1401 ∷ []

sunday-runs : successes day_of hour checks sunday ≡ 700 ∷ 1401 ∷ []
unfolding successes
sunday-runs = refl

successes-IsSpaced_example : IsSpaced day_of hour 600 0 (successes day_of hour checks sunday)
successes-IsSpaced_example = successes-IsSpaced day_of hour checks sunday

should_run_weekly_lem_example :
    (check_and_run_task day_of hour 700 true true sunday).1
    ≡ (true && should_run_weekly day_of hour 700 0 0 0 600)
should_run_weekly_lem_example = should_run_weekly_lem day_of hour 700 true true sunday 600 refl

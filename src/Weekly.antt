-- ===== src/Weekly.antt =====
-- The weekly tasks of the workers (internal/platform/worker/weekly.go).
-- A moment is the number of nanoseconds since Go's zero time, so that 0 is the zero time. Grace periods
-- are not negative. `weekday` and `hour` stand for the calendar of the process's time zone. What the
-- functions of a task answer is given with each call; they are functions of the task's name.
pub mod Spacing
mod Tests
use telegram_digest_bot.Base.{
  ℕ, ◌+◌, ◌*◌, Bool, true, false, not, ◌&&◌, ◌||◌, List, [], ◌∷◌, ◌++◌, String, Option, none, some,
  leb, ◌==◌, str_eq, if◌then◌else◌,
}

pub record WeeklyTask : Type 0 where
  pub name : String
  pub day : ℕ
  pub hour : ℕ
  pub grace_period : ℕ
  pub last_run : ℕ

abbrev pub default_weekly_grace_period : ℕ
default_weekly_grace_period = 6 * 24 * 3600000000000

abbrev pub or_default : ℕ → ℕ
or_default grace = if grace == 0 then default_weekly_grace_period else grace

unfoldable pub add_task : WeeklyTask → List WeeklyTask → List WeeklyTask
add_task task tasks = tasks ++ record task { grace_period = or_default task.grace_period } ∷ []

-- `!lastRun.IsZero() && now.Sub(lastRun) <= gracePeriod`
abbrev pub is_within_grace : ℕ → ℕ → ℕ → Bool
is_within_grace now last_run grace = not (last_run == 0) && leb now (last_run + grace)

module _ (weekday : ℕ → ℕ) (hour_of : ℕ → ℕ) where
  -- `checkAndRunTask`: the task, and whether it was run. `is_enabled` and `succeeds` are the answers of
  -- its functions; a missing `IsEnabled` enables it.
  unfoldable pub check_and_run_task : ℕ → Bool → Bool → WeeklyTask → WeeklyTask × Bool
  check_and_run_task now is_enabled succeeds task =
      if not is_enabled
      then (task, false)
      else if not (weekday now == task.day)
      then (task, false)
      else if not (hour_of now == task.hour)
      then (task, false)
      else if is_within_grace now task.last_run task.grace_period
      then (task, false)
      else if succeeds
      then (record task { last_run = now }, true)
      else (task, true)

  -- `CheckAndRun`, with the moment of each check.
  unfoldable pub check_and_run :
      (String → ℕ) → (String → Bool) → (String → Bool) → List WeeklyTask → List WeeklyTask
  unfolding check_and_run_task
  check_and_run now is_enabled succeeds [] = []
  check_and_run now is_enabled succeeds (task ∷ tasks) =
      (check_and_run_task (now task.name) (is_enabled task.name) (succeeds task.name) task).0
      ∷ check_and_run now is_enabled succeeds tasks

  unfoldable pub should_run_weekly : ℕ → ℕ → ℕ → ℕ → ℕ → Bool
  should_run_weekly now day hour last_run grace_period =
      if not (weekday now == day)
      then false
      else if not (hour_of now == hour)
      then false
      else not (is_within_grace now last_run (or_default grace_period))

  -- `ShouldRunSundayMidnight`
  unfoldable pub should_run_sunday_midnight : ℕ → ℕ → Bool
  unfolding should_run_weekly
  should_run_sunday_midnight now last_run =
      should_run_weekly now 0 0 last_run default_weekly_grace_period

-- The first task of the name is changed.
unfoldable pub set_last_run : String → ℕ → List WeeklyTask → List WeeklyTask
set_last_run name last_run [] = []
set_last_run name last_run (task ∷ tasks) =
    let rest = set_last_run name last_run tasks in
    if str_eq task.name name then record task { last_run = last_run } ∷ tasks else task ∷ rest

unfoldable pub get_last_run : String → List WeeklyTask → Option ℕ
get_last_run name [] = none
get_last_run name (task ∷ tasks) =
    if str_eq task.name name then some task.last_run else get_last_run name tasks

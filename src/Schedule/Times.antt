-- ===== src/Schedule/Times.antt =====
-- The moments at which a digest is due: `NextTimes`, `PreviousTimeBefore` and `TimesBetween`.
-- A moment is a number of nanoseconds and a date the number of its day, day 0 being a Sunday more than a
-- week before every moment. What the source asks of a time zone is a parameter: the local date of a
-- moment, and `time.Date`, the moment of a date and a minute in it.
pub mod Next
pub mod Previous
mod Tests
use telegram_digest_bot.Base.{
  ℕ, zero, suc, ◌+◌, ◌-◌, ◌%◌, Bool, true, false, not, ◌&&◌, ◌||◌, List, [], ◌∷◌, ◌++◌, map, Option,
  none, some, ◌⊎◌, inl, inr, length, find, ltb, leb, ◌==◌, if◌then◌else◌,
}
use mathlib.Core.List.{reverse}
use telegram_digest_bot.Base.Int.{ℤ, pos, negsuc}
use telegram_digest_bot.Schedule.{
  Text, ScheduleError, invalid_timezone, DaySchedule, Schedule, ◌>>=◌, require, is_empty,
}
use telegram_digest_bot.Schedule.Clock.{trim_space, trim_left, trim_right}
use telegram_digest_bot.Schedule.Days.{expand_day_times, normalize_timezone, sorted_minutes}

pub record Zone : Type 0 where
  pub day_of : ℕ → ℕ
  pub at : ℕ → ℕ → ℕ

-- `daySchedule` for the weekday of a date.
unfoldable pub day_schedule : Schedule → ℕ → DaySchedule
day_schedule s day = if (day % 7 == 6) || (day % 7 == 0) then s.weekends else s.weekdays

-- `Location`; `load` is `time.LoadLocation`.
unfoldable pub location :
    Zone → (Text → Text) → (Text → Option Zone) → Schedule → ScheduleError ⊎ Zone
unfolding trim_left trim_right normalize_timezone
location utc alias load s =
    if is_empty (trim_space s.timezone)
    then inr utc
    else require invalid_timezone (load (normalize_timezone alias s.timezone))

-- The moments of one date, in the order of its minutes.
unfoldable pub moments : Schedule → Zone → ℕ → ScheduleError ⊎ List ℕ
moments s zone day =
    expand_day_times (day_schedule s day) >>= λ minutes. inr (map (zone.at day) minutes)

-- The inner loop of `NextTimes`.
unfoldable pub take_later : ℕ → ℕ → List ℕ → List ℕ → List ℕ
take_later after count results [] = results
take_later after count results (t ∷ ts) =
    let added = results ++ t ∷ [] in
    let rest = take_later after count (if ltb after t then added else results) ts in
    if ltb after t && leb count (length added) then added else rest

-- Its outer loop, over the dates from `day` on.
unfoldable pub next_from : Schedule → Zone → ℕ → ℕ → ℕ → ℕ → List ℕ → ScheduleError ⊎ List ℕ
next_from s zone after count zero day results = inr results
next_from s zone after count (suc rounds) day results =
    let more = moments s zone day >>= λ ts.
    next_from s zone after count rounds (suc day) (take_later after count results ts) in
    if leb count (length results) then inr results else more

module _ (utc : Zone) (alias : Text → Text) (load : Text → Option Zone) where
  abbrev pub next_times_of : Schedule → ℕ → ℕ → ScheduleError ⊎ List ℕ
  next_times_of s after count = do
    zone ← location utc alias load s
    next_from s zone after count 370 (zone.day_of after) []

  unfoldable pub next_times : Schedule → ℕ → ℤ → ScheduleError ⊎ List ℕ
  next_times s after (negsuc n) = inr []
  next_times s after (pos count) = if count == 0 then inr [] else next_times_of s after count

-- The loop of `PreviousTimeBefore`, over the dates back from `day`.
unfoldable pub previous_from : Schedule → Zone → ℕ → ℕ → ℕ → ScheduleError ⊎ Option ℕ
previous_from s zone before zero day = inr none
previous_from s zone before (suc rounds) day = moments s zone day >>= λ ts.
    elim (find (λ t. ltb t before) (reverse ts)) [
      | some t ↦ inr (some t)
      | none ↦ previous_from s zone before rounds (day - 1)
    ]

abbrev pub keep_between : ℕ → ℕ → List ℕ → List ℕ
keep_between start end [] = []
keep_between start end (t ∷ ts) =
    let rest = keep_between start end ts in if ltb t start || ltb end t then rest else t ∷ rest

-- The loop of `TimesBetween`, over the dates from `day` on.
unfoldable pub between_from : Schedule → Zone → ℕ → ℕ → ℕ → ℕ → ScheduleError ⊎ List ℕ
between_from s zone start end zero day = inr []
between_from s zone start end (suc rounds) day = do
  ts ← moments s zone day
  rest ← between_from s zone start end rounds (suc day)
  inr (keep_between start end ts ++ rest)

module _ (utc : Zone) (alias : Text → Text) (load : Text → Option Zone) where
  unfoldable pub previous_time_before : Schedule → ℕ → ScheduleError ⊎ Option ℕ
  unfolding previous_from
  previous_time_before s before = do
    zone ← location utc alias load s
    previous_from s zone before 8 (zone.day_of before)

  -- `sort.Slice` by the moments, which are all that the results hold.
  abbrev pub sorted_between : Schedule → ℕ → ℕ → ScheduleError ⊎ List ℕ
  unfolding between_from sorted_minutes
  sorted_between s start end = do
    zone ← location utc alias load s
    ts ←
        between_from s zone start end (suc (zone.day_of end) - zone.day_of start)
          (zone.day_of start)
    inr (sorted_minutes ts)

  unfoldable pub times_between : Schedule → ℕ → ℕ → ScheduleError ⊎ List ℕ
  unfolding sorted_between
  times_between s start end = if ltb end start then inr [] else sorted_between s start end

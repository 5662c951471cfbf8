-- ===== src/Schedule/Days.antt =====
-- The minutes of a day at which a digest is due, and the validation of a schedule.
-- A set of minutes is a list without repetitions, in the order in which they were added.
pub mod Expansion
pub mod Validation
mod Tests
use telegram_digest_bot.Base.{
  ℕ, zero, suc, ◌+◌, ◌*◌, ◌/◌, ◌%◌, Bool, true, false, not, List, [], ◌∷◌, ◌++◌, String, Option,
  none, some, ◌⊎◌, inl, inr, any, ltb, leb, ◌==◌, if◌then◌else◌,
}
use telegram_digest_bot.Schedule.{
  Text, ScheduleError, midnight_crossing, HourlyRange, DaySchedule, Schedule, ◌>>=◌, day_is_empty,
  is_empty,
}
use telegram_digest_bot.Schedule.Clock.{parse_time_hm, trim_space, trim_left, trim_right}

abbrev pub mem : ℕ → List ℕ → Bool
mem m set = any (λ x. x == m) set

-- `set[m] = struct{}{}`
unfoldable pub add_minute : ℕ → List ℕ → List ℕ
add_minute m set = if mem m set then set else set ++ m ∷ []

unfoldable pub add_explicit_times : List Text → List ℕ → ScheduleError ⊎ List ℕ
add_explicit_times [] set = inr set
add_explicit_times (t ∷ times) set =
    parse_time_hm t >>= λ m. add_explicit_times times (add_minute m set)

-- The loop over the hours, with fuel: the hours of a day are 24.
unfoldable pub add_hours : ℕ → ℕ → ℕ → List ℕ → List ℕ
add_hours zero hour end set = set
add_hours (suc fuel) hour end set =
    let rest = add_hours fuel (suc hour) end (add_minute (hour * 60) set) in
    if leb (hour * 60) end then rest else set

abbrev pub add_range : ℕ → ℕ → List ℕ → ScheduleError ⊎ List ℕ
add_range start end set =
    if ltb end start
    then inl midnight_crossing
    else let first_hour = if not (start % 60 == 0) then suc (start / 60) else start / 60 in
      inr (add_hours 24 first_hour end set)

unfoldable pub add_hourly_times : Option HourlyRange → List ℕ → ScheduleError ⊎ List ℕ
add_hourly_times none set = inr set
add_hourly_times (some range) set = do
  start ← parse_time_hm range.start
  end ← parse_time_hm range.end
  add_range start end set

unfoldable pub insert_minute : ℕ → List ℕ → List ℕ
insert_minute m [] = m ∷ []
insert_minute m (x ∷ xs) = let rest = insert_minute m xs in if ltb x m then x ∷ rest else m ∷ x ∷ xs

-- `sort.Ints`
unfoldable pub sorted_minutes : List ℕ → List ℕ
unfolding insert_minute
sorted_minutes [] = []
sorted_minutes (m ∷ ms) = insert_minute m (sorted_minutes ms)

unfoldable pub expand_day_times : DaySchedule → ScheduleError ⊎ List ℕ
unfolding sorted_minutes
expand_day_times d = if day_is_empty d then inr [] else do
  explicit ← add_explicit_times d.times []
  all ← add_hourly_times d.hourly explicit
  inr (sorted_minutes all)

-- What `Validate` reports, with the label of the part.
pub data ValidationError : Type 0 where
  bad_timezone : ValidationError
  bad_time : String → Text → ScheduleError → ValidationError
  bad_start : String → Text → ScheduleError → ValidationError
  bad_end : String → Text → ScheduleError → ValidationError
  crosses_midnight : String → ValidationError

abbrev pub validate_times : String → List Text → Option ValidationError
validate_times label [] = none
validate_times label (t ∷ times) = elim (parse_time_hm t) [
  | inl e ↦ some (bad_time label t e)
  | inr m ↦ validate_times label times
]

abbrev pub validate_range : String → Option HourlyRange → Option ValidationError
validate_range label none = none
validate_range label (some range) = elim (parse_time_hm range.start) [
  | inl e ↦ some (bad_start label range.start e)
  | inr start ↦ elim (parse_time_hm range.end) [
    | inl e ↦ some (bad_end label range.end e)
    | inr end ↦ if ltb end start then some (crosses_midnight label) else none
  ]
]

-- The first error of two.
abbrev pub or_error : Option ValidationError → Option ValidationError → Option ValidationError
or_error none second = second
or_error (some e) second = some e

unfoldable pub validate_day : String → DaySchedule → Option ValidationError
validate_day label d = or_error (validate_times label d.times) (validate_range label d.hourly)

-- `NormalizeTimezone`, with the one alias of the source.
unfoldable pub normalize_timezone : (Text → Text) → Text → Text
unfolding trim_left trim_right
normalize_timezone alias value =
    let trimmed = trim_space value in if is_empty trimmed then [] else alias trimmed

-- `Validate`; `is_known` tells whether `time.LoadLocation` finds a zone.
unfoldable pub validate : (Text → Text) → (Text → Bool) → Schedule → Option ValidationError
unfolding validate_day normalize_timezone
validate alias is_known s =
    let days = or_error (validate_day "weekdays" s.weekdays) (validate_day "weekends" s.weekends) in
    if is_empty (trim_space s.timezone)
    then days
    else if is_known (normalize_timezone alias s.timezone)
    then days
    else some bad_timezone

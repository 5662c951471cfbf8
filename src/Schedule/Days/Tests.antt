-- ===== src/Schedule/Days/Tests.antt =====
-- A day with the times 21:00 and 9:00 and a range from 8:00 to 10:00.
use telegram_digest_bot.Base.{ℕ, ◌≡◌, refl, ◌↔◌, ◌⊎◌, inl, inr, true, [], ◌∷◌, none, some}
use telegram_digest_bot.Schedule.{midnight_crossing, DaySchedule}
use telegram_digest_bot.Schedule.Clock.{parse_time_hm, print_time}
use telegram_digest_bot.Schedule.Days.{
  mem, add_minute, add_explicit_times, add_hours, add_hourly_times, expand_day_times, validate_day,
  crosses_midnight,
}
use telegram_digest_bot.Schedule.Days.Expansion.{IsExplicit, IsHourly, expand_day_times_lem}
use telegram_digest_bot.Schedule.Days.Expansion.Sorting.{IsIncreasing}
use telegram_digest_bot.Schedule.Days.Validation.{Succeeds, validate_day_iff}

abbrev busy : DaySchedule
busy = record {
  times = print_time 21 0 ∷ print_time 9 0 ∷ [];
  hourly = some (record { start = print_time 8 0; end = print_time 10 0 });
}

abbrev backwards : DaySchedule
backwards = record {
  times = [];
  hourly = some (record { start = print_time 22 0; end = print_time 6 0 });
}

busy-expanded : expand_day_times busy ≡ inr (480 ∷ 540 ∷ 600 ∷ 1260 ∷ [])
unfolding expand_day_times parse_time_hm add_explicit_times add_hourly_times add_minute add_hours
busy-expanded = refl

backwards-refused :
    (expand_day_times backwards ≡ inl midnight_crossing)
    × (validate_day "weekends" backwards ≡ some (crosses_midnight "weekends"))
unfolding expand_day_times parse_time_hm add_explicit_times add_hourly_times validate_day
backwards-refused = (refl, refl)

expand_day_times_lem_example :
    IsIncreasing (480 ∷ 540 ∷ 600 ∷ 1260 ∷ [])
    × ((m : ℕ)
        → (mem m (480 ∷ 540 ∷ 600 ∷ 1260 ∷ []) ≡ true)
          ↔ (IsExplicit busy.times m ⊎ IsHourly busy.hourly m))
expand_day_times_lem_example = expand_day_times_lem busy (480 ∷ 540 ∷ 600 ∷ 1260 ∷ []) busy-expanded

validate_day_iff_example : (validate_day "weekdays" busy ≡ none) ↔ Succeeds (expand_day_times busy)
validate_day_iff_example = validate_day_iff "weekdays" busy

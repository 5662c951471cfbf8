-- ===== src/Schedule/Times/Tests.antt =====
-- A schedule of 9:00 on weekdays and of nothing on weekends, in a zone that counts in minutes.
use telegram_digest_bot.Base.{◌+◌, ◌*◌, ◌/◌, ◌≡◌, refl, [], ◌∷◌, none, some, take, ltb}
use telegram_digest_bot.Schedule.{Schedule}
use telegram_digest_bot.Schedule.Clock.{print_time}
use telegram_digest_bot.Schedule.Times.{Zone}
use telegram_digest_bot.Schedule.Times.Next.Timetable.{keep, timetable}
use telegram_digest_bot.Schedule.Times.Previous.{last}

abbrev utc : Zone
utc = record { day_of = λ t. t / 1440; at = λ day minute. day * 1440 + minute }

abbrev mornings : Schedule
mornings = record {
  timezone = [];
  weekdays = record { times = print_time 9 0 ∷ []; hourly = none };
  weekends = record { times = []; hourly = none };
}

-- Friday at 9:00 is followed by Monday at 9:00.
friday-monday : take 2 (keep (ltb 17819) (timetable utc (540 ∷ []) [] 12 6)) ≡ 17820 ∷ 22140 ∷ []
unfolding timetable
friday-monday = refl

previous-monday : last (keep (λ t. ltb t 22140) (timetable utc (540 ∷ []) [] 8 8)) ≡ some 17820
unfolding timetable
previous-monday = refl

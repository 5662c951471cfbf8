-- ===== src/Schedule/Times/Next.antt =====
-- `NextTimes` against the list of all due moments.
pub mod Timetable
use telegram_digest_bot.Base.{
  ◌+◌, ◌-◌, Bool, true, not, ◌&&◌, map, none, some, ◌⊎◌, length-take, if◌then◌else◌,
}
use telegram_digest_bot.Schedule.{ScheduleError, Schedule, ◌>>=◌}
use telegram_digest_bot.Schedule.Times.{moments}

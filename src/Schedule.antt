-- ===== src/Schedule.antt =====
-- The publication schedule (internal/platform/schedule/schedule.go): its data and errors.
-- A text is the list of its code points.
pub mod Clock
pub mod Days
pub mod Times
use telegram_digest_bot.Base.{
  ℕ, Bool, true, false, ◌&&◌, List, [], ◌∷◌, Option, none, some, ◌⊎◌, inl, inr,
}

abbrev pub Text : Type 0
Text = List ℕ

pub data ScheduleError : Type 0 where
  midnight_crossing time_format invalid_hour invalid_minute : ScheduleError
  minute_not_zero hour_out_of_range invalid_timezone : ScheduleError

-- An inclusive range of full hours.
pub record HourlyRange : Type 0 where
  pub start : Text
  pub end : Text

pub record DaySchedule : Type 0 where
  pub times : List Text
  pub hourly : Option HourlyRange

pub record Schedule : Type 0 where
  pub timezone : Text
  pub weekdays : DaySchedule
  pub weekends : DaySchedule

infixl 5 ◌>>=◌
abbrev pub ◌>>=◌ : {A B : Type 0} → ScheduleError ⊎ A → (A → ScheduleError ⊎ B) → ScheduleError ⊎ B
inl e >>= f = inl e
inr a >>= f = f a

abbrev pub require : {A : Type 0} → ScheduleError → Option A → ScheduleError ⊎ A
require e none = inl e
require e (some a) = inr a

abbrev pub is_empty : {A : Type 0} → List A → Bool
is_empty [] = true
is_empty (x ∷ xs) = false

-- `DaySchedule.IsEmpty`
abbrev pub day_is_empty : DaySchedule → Bool
day_is_empty d = is_empty d.times && elim d.hourly [ none ↦ true | some range ↦ false ]

-- `Schedule.IsEmpty`
abbrev pub schedule_is_empty : Schedule → Bool
schedule_is_empty s = day_is_empty s.weekdays && day_is_empty s.weekends

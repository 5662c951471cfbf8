-- ===== src/Schedule/Times/Previous.antt =====
-- `PreviousTimeBefore` against the list of all due moments.
use telegram_digest_bot.Base.{ℕ, ◌≡◌, Bool, List, [], ◌∷◌, Option, none, some, inr, ltb}
use telegram_digest_bot.Schedule.{Schedule}
use telegram_digest_bot.Schedule.Days.{expand_day_times}
use telegram_digest_bot.Schedule.Times.{Zone}

-- The last element of a list.
abbrev pub last : {A : Type 0} → List A → Option A
last [] = none
last (x ∷ []) = some x
last (x ∷ y ∷ ys) = last (y ∷ ys)

-- The first of two options that holds a value.
abbrev first_some : {A : Type 0} → Option A → Option A → Option A
first_some (some x) o = some x
first_some none o = o

module _ (s : Schedule) (zone : Zone) (weekday weekend : List ℕ)
    (on_weekdays : expand_day_times s.weekdays ≡ inr weekday)
    (on_weekends : expand_day_times s.weekends ≡ inr weekend) (before : ℕ) where
  abbrev is_before : ℕ → Bool
  is_before t = ltb t before

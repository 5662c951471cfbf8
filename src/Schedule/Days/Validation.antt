-- ===== src/Schedule/Days/Validation.antt =====
-- A day that passes the validation is a day that expands.
use telegram_digest_bot.Base.{
  ℕ, suc, ◌/◌, ◌%◌, not, ◌==◌, ◌≡◌, refl, sym, ap, ◌∙◌, ◌↔◌, ◌⊎◌, inl, inr, List, [], ◌∷◌, String,
  Option, none, some, ltb, if◌then◌else◌, arith, Bool-cases,
}
use telegram_digest_bot.Schedule.{
  Text, ScheduleError, midnight_crossing, HourlyRange, DaySchedule, ◌>>=◌,
}
use telegram_digest_bot.Schedule.Clock.{parse_time_hm}
use telegram_digest_bot.Schedule.Clock.RoundTrip.{>>=-inr, if_failed-inr}
use telegram_digest_bot.Schedule.Days.{
  add_minute, add_explicit_times, add_hours, add_hourly_times, expand_day_times, validate_times,
  validate_range, validate_day, sorted_minutes,
}
use telegram_digest_bot.Schedule.Days.Expansion.{expansion, expand_day_times-expansion}

-- A result that is not an error.
abbrev pub Succeeds : {A : Type 0} → ScheduleError ⊎ A → Type 0
Succeeds {A} r = (a : A) × (r ≡ inr a)

Result-cases :
    {A : Type 0} (r : ScheduleError ⊎ A) → ((e : ScheduleError) × (r ≡ inl e)) ⊎ Succeeds r
Result-cases (inl e) = inl (e, refl)
Result-cases (inr a) = inr (a, refl)

times-Succeeds :
    (label : String) (times : List Text) (set : List ℕ)
    → validate_times label times ≡ none
    → Succeeds (add_explicit_times times set)
unfolding add_explicit_times
times-Succeeds label [] set h = (set, refl)
times-Succeeds label (t ∷ times) set h = elim (Result-cases (parse_time_hm t)) [
  | inl (e, bad) ↦ absurd (ground (arith, h, bad))
  | inr (m, read) ↦
      let (out, done) = times-Succeeds label times (add_minute m set) (ground (arith, h, read)) in
      (out, ap (λ r. r >>= λ n. add_explicit_times times (add_minute n set)) read ∙ done)
]

times_valid :
    (label : String) (times : List Text) (set out : List ℕ)
    → add_explicit_times times set ≡ inr out
    → validate_times label times ≡ none
unfolding add_explicit_times
times_valid label [] set out h = refl
times_valid label (t ∷ times) set out h =
    let (n, read, rest) = >>=-inr (parse_time_hm t) _ out h in
    ground (arith, read, times_valid label times (add_minute n set) out rest)

range-Succeeds :
    (label : String) (range : Option HourlyRange) (set : List ℕ)
    → validate_range label range ≡ none
    → Succeeds (add_hourly_times range set)
unfolding add_hourly_times
range-Succeeds label none set h = (set, refl)
range-Succeeds label (some range) set h = elim (Result-cases (parse_time_hm range.start)) [
  | inl (e, bad) ↦ absurd (ground (arith, h, bad))
  | inr (start, read) ↦ elim (Result-cases (parse_time_hm range.end)) [
    | inl (e, bad) ↦ absurd (ground (arith, h, read, bad))
    | inr (end, read') ↦ elim (Bool-cases (ltb end start)) [
      | inl crosses ↦ absurd (ground (arith, h, read, read', crosses))
      | inr ordered ↦ (
        add_hours 24 (if not (start % 60 == 0) then suc (start / 60) else start / 60) end set,
        rw (read, read', ordered) refl,
      )
    ]
  ]
]

range_valid :
    (label : String) (range : Option HourlyRange) (set out : List ℕ)
    → add_hourly_times range set ≡ inr out
    → validate_range label range ≡ none
unfolding add_hourly_times
range_valid label none set out h = refl
range_valid label (some range) set out h =
    let (start, read, rest) = >>=-inr (parse_time_hm range.start) _ out h in
    let (end, read', rest') = >>=-inr (parse_time_hm range.end) _ out rest in
    let (ordered, _) = if_failed-inr (ltb end start) midnight_crossing _ out rest' in
    ground (arith, read, read', ordered)

-- The validation of a day reports no error exactly if the day expands to minutes without an error.
pub validate_day_iff :
    (label : String) (d : DaySchedule)
    → (validate_day label d ≡ none) ↔ Succeeds (expand_day_times d)
unfolding validate_day expansion
validate_day_iff label d = (
  λ h.
      let (set, h1) = times-Succeeds label d.times [] (ground (arith, h)) in
      let (all, h2) = range-Succeeds label d.hourly set (ground (arith, h)) in
      (
        sorted_minutes all,
        expand_day_times-expansion d
            ∙ ap
                (λ r. r >>= λ explicit.
                  add_hourly_times d.hourly explicit >>= λ all'. inr (sorted_minutes all'))
                h1
            ∙ ap (λ r. r >>= λ all'. inr (sorted_minutes all')) h2,
      ),
  λ s.
      let (minutes, h) = s in
      let (set, h1, rest) =
        >>=-inr (add_explicit_times d.times []) _ minutes
          (sym (expand_day_times-expansion d) ∙ h) in
      let (all, h2, _) = >>=-inr (add_hourly_times d.hourly set) _ minutes rest in
      ground (arith, times_valid label d.times [] set h1, range_valid label d.hourly set all h2),
)

-- ===== src/Schedule/Times/Next/Timetable.antt =====
-- All moments at which a digest is due on a run of dates, in order.
use telegram_digest_bot.Base.{
  ℕ, zero, suc, ◌+◌, ◌%◌, ◌≡◌, refl, sym, ap, ◌∙◌, Bool, ◌||◌, List, [], ◌∷◌, ◌++◌, append_assoc,
  append-nil, map, inr, inl, ◌==◌, if◌then◌else◌, Bool-cases, arith,
}
use telegram_digest_bot.Schedule.{Schedule}
use telegram_digest_bot.Schedule.Days.{expand_day_times}
use telegram_digest_bot.Schedule.Times.{Zone, day_schedule, moments}

-- The elements that pass a test.
abbrev pub keep : {A : Type 0} → (A → Bool) → List A → List A
keep p [] = []
keep p (x ∷ xs) = let rest = keep p xs in if p x then x ∷ rest else rest

pub keep-append :
    {A : Type 0} (p : A → Bool) (xs ys : List A) → keep p (xs ++ ys) ≡ keep p xs ++ keep p ys
keep-append p [] ys = refl
keep-append p (x ∷ xs) ys = elim (Bool-cases (p x)) [
  | inl holds ↦ rw holds (ap (λ zs. x ∷ zs) (keep-append p xs ys))
  | inr fails ↦ rw fails (keep-append p xs ys)
]

-- The due moments of one date, for the minutes of weekdays and of weekends.
abbrev pub due_on : Zone → List ℕ → List ℕ → ℕ → List ℕ
due_on zone weekday weekend day =
    map (zone.at day) (if (day % 7 == 6) || (day % 7 == 0) then weekend else weekday)

-- Those of `rounds` dates from `day` on.
unfoldable pub timetable : Zone → List ℕ → List ℕ → ℕ → ℕ → List ℕ
timetable zone weekday weekend day zero = []
timetable zone weekday weekend day (suc rounds) =
    due_on zone weekday weekend day ++ timetable zone weekday weekend (suc day) rounds

pub timetable-snoc :
    (zone : Zone) (weekday weekend : List ℕ) (day rounds : ℕ)
    → timetable zone weekday weekend day (suc rounds)
      ≡ timetable zone weekday weekend day rounds ++ due_on zone weekday weekend (day + rounds)
unfolding timetable
timetable-snoc zone weekday weekend day zero =
    let e : day ≡ day + 0 = omega arith in
    append-nil (due_on zone weekday weekend day) ∙ ap (due_on zone weekday weekend) e
timetable-snoc zone weekday weekend day (suc rounds) =
    let e : suc day + rounds ≡ day + suc rounds = omega arith in
    ap (λ ts. due_on zone weekday weekend day ++ ts)
      (timetable-snoc zone weekday weekend (suc day) rounds
        ∙ ap (λ d. timetable zone weekday weekend (suc day) rounds ++ due_on zone weekday weekend d)
            e)
    ∙ sym (
        append_assoc (due_on zone weekday weekend day)
          (timetable zone weekday weekend (suc day) rounds)
          (due_on zone weekday weekend (day + suc rounds)))

pub moments-due_on :
    (s : Schedule) (zone : Zone) (weekday weekend : List ℕ)
    → expand_day_times s.weekdays ≡ inr weekday
    → expand_day_times s.weekends ≡ inr weekend
    → (day : ℕ) → moments s zone day ≡ inr (due_on zone weekday weekend day)
unfolding moments day_schedule
moments-due_on s zone weekday weekend h h' day =
    elim (Bool-cases ((day % 7 == 6) || (day % 7 == 0))) [
      | inl rest ↦ rw (rest, h') refl
      | inr work ↦ rw (work, h) refl
    ]

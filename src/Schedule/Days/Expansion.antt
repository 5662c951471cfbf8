-- ===== src/Schedule/Days/Expansion.antt =====
-- Which minutes a day schedule expands to.
pub mod Sorting
use telegram_digest_bot.Base.{
  ℕ, zero, suc, ◌+◌, ◌*◌, ◌/◌, ◌%◌, ◌≤◌, ◌<◌, ◌≡◌, refl, sym, ap, ◌∙◌, subst, ◌↔◌, ◌⊎◌, inl, inr,
  Bool, true, false, not, ◌&&◌, ◌||◌, List, [], ◌∷◌, ◌++◌, String, Option, none, some, any, All, In,
  here, there, ltb, leb, ◌==◌, if◌then◌else◌, Bool-cases, arith,
}
use telegram_digest_bot.Schedule.{
  Text, ScheduleError, midnight_crossing, HourlyRange, DaySchedule, ◌>>=◌, day_is_empty, is_empty,
}
use telegram_digest_bot.Schedule.Clock.{parse_time_hm, normalize_time_hm, parse_normalized}
use telegram_digest_bot.Schedule.Clock.RoundTrip.{>>=-inr, if_failed-inr, normalize_time_hm_lem}
use telegram_digest_bot.Schedule.Days.{
  mem, add_minute, add_explicit_times, add_hours, add_range, add_hourly_times, insert_minute,
  sorted_minutes, expand_day_times,
}
use telegram_digest_bot.Schedule.Days.Expansion.Sorting.{
  IsIncreasing, IsDistinct, mem-append, mem-add_minute, add_minute-IsDistinct, mem-sorted_minutes,
  sorted_minutes-IsIncreasing,
}

-- What is read as a time of day is a full hour.
pub parse_time_hm-hour :
    (value : Text) (m : ℕ) → parse_time_hm value ≡ inr m → (m % 60 ≡ 0) × (m ≤ 1380)
unfolding parse_time_hm
parse_time_hm-hour value m h =
    let (t, normal, _) = >>=-inr (normalize_time_hm value) parse_normalized m h in
    let (hour, le, _, read, _) = normalize_time_hm_lem value t normal in
    let m_is : m ≡ hour * 60 = cc in (omega (arith, m_is), omega (arith, m_is, le))

-- A minute that the list of times gives.
abbrev pub IsExplicit : List Text → ℕ → Type 0
IsExplicit times m = (t : Text) × In t times × (parse_time_hm t ≡ inr m)

-- A full hour from the start of the range to its end.
abbrev pub IsHourly : Option HourlyRange → ℕ → Type 0
IsHourly none m = ⊥
IsHourly (some range) m =
    (start : ℕ) × (end : ℕ) × (parse_time_hm range.start ≡ inr start)
    × (parse_time_hm range.end ≡ inr end)
    × (m % 60 ≡ 0)
    × (start ≤ m)
    × (m ≤ end)

IsExplicit-mem :
    (times : List Text) (set out : List ℕ) (m : ℕ)
    → add_explicit_times times set ≡ inr out
    → (mem m out ≡ true) ↔ ((mem m set ≡ true) ⊎ IsExplicit times m)
unfolding add_explicit_times
IsExplicit-mem [] set out m h =
    let same : set ≡ out = cc in
    (
      λ k. inl (subst (λ s. mem m s ≡ true) (sym same) k),
      λ k. elim k [ inl k' ↦ subst (λ s. mem m s ≡ true) same k' | inr (t, i, _) ↦ elim i [ ] ],
    )
IsExplicit-mem (t ∷ times) set out m h =
    let (n, read, rest) =
      >>=-inr (parse_time_hm t) (λ n. add_explicit_times times (add_minute n set)) out h in
    let (to, from) = IsExplicit-mem times (add_minute n set) out m rest in
    let added = mem-add_minute m n set in
    (
      λ k. elim (to k) [
        | inl old ↦ elim (Bool-cases (mem m set)) [
          | inl before ↦ inl before
          | inr new ↦
              let n_is : n ≡ m = ground (arith, old, new, added) in
              inr (t, here refl, read ∙ ap inr n_is)
        ]
        | inr (u, i, is) ↦ inr (u, there i, is)
      ],
      λ k. elim k [
        | inl before ↦ from (inl (ground (arith, before, added)))
        | inr (u, here e, is) ↦
            let n_is : n ≡ m = cc (ap parse_time_hm e) in from (inl (ground (arith, n_is, added)))
        | inr (u, there i, is) ↦ from (inr (u, i, is))
      ],
    )

-- A full hour from `hour` on, within the rounds and up to the end.
abbrev IsFullHour : ℕ → ℕ → ℕ → ℕ → Type 0
IsFullHour fuel hour end m = (m % 60 ≡ 0) × (hour * 60 ≤ m) × (m < (hour + fuel) * 60) × (m ≤ end)

hours-mem :
    (fuel hour end : ℕ) (set : List ℕ) (m : ℕ)
    → (mem m (add_hours fuel hour end set) ≡ true)
      ↔ ((mem m set ≡ true) ⊎ IsFullHour fuel hour end m)
unfolding add_hours
hours-mem zero hour end set m = ground arith
hours-mem (suc fuel) hour end set m = ground (
  arith,
  hours-mem fuel (suc hour) end (add_minute (hour * 60) set) m,
  mem-add_minute m (hour * 60) set,
)

range-mem :
    (start end : ℕ) (set out : List ℕ) (m : ℕ)
    → start ≤ 1380
    → end ≤ 1380
    → add_range start end set ≡ inr out
    → (mem m out ≡ true) ↔ ((mem m set ≡ true) ⊎ ((m % 60 ≡ 0) × (start ≤ m) × (m ≤ end)))
range-mem start end set out m hs he h =
    let (_, same) = if_failed-inr (ltb end start) midnight_crossing _ out h in
    let out_is : add_hours 24 first end set ≡ out = cc (same) in
    subst (λ o. (mem m o ≡ true) ↔ ((mem m set ≡ true) ⊎ ((m % 60 ≡ 0) × (start ≤ m) × (m ≤ end))))
      out_is (ground (arith, he, first_le, first_lt, hours-mem 24 first end set m))
  where
    first : ℕ
    first = if not (start % 60 == 0) then suc (start / 60) else start / 60

    first_le : start ≤ first * 60
    first_le = ground arith

    first_lt : first * 60 < start + 60
    first_lt = ground arith

IsHourly-mem :
    (range : Option HourlyRange) (set out : List ℕ) (m : ℕ)
    → add_hourly_times range set ≡ inr out
    → (mem m out ≡ true) ↔ ((mem m set ≡ true) ⊎ IsHourly range m)
unfolding add_hourly_times
IsHourly-mem none set out m h =
    let same : set ≡ out = cc in
    (
      λ k. inl (subst (λ s. mem m s ≡ true) (sym same) k),
      λ k. elim k [ inl k' ↦ subst (λ s. mem m s ≡ true) same k' | inr never ↦ elim never [ ] ],
    )
IsHourly-mem (some range) set out m h =
    let (start, read, rest) = >>=-inr (parse_time_hm range.start) _ out h in
    let (end, read', rest') = >>=-inr (parse_time_hm range.end) _ out rest in
    let (to, from) =
      range-mem start end set out m (parse_time_hm-hour range.start start read).1
        (parse_time_hm-hour range.end end read').1 rest' in
    (
      λ k. elim (to k) [
        | inl old ↦ inl old
        | inr (full, low, high) ↦ inr (start, end, read, read', full, low, high)
      ],
      λ k. elim k [
        | inl old ↦ from (inl old)
        | inr (s, e, is, is', full, low, high) ↦
            let s_is : s ≡ start = cc in
            let e_is : e ≡ end = cc in
            from (inr (full, omega (arith, low, s_is), omega (arith, high, e_is)))
      ],
    )

explicit-IsDistinct :
    (times : List Text) (set out : List ℕ)
    → add_explicit_times times set ≡ inr out
    → IsDistinct set
    → IsDistinct out
unfolding add_explicit_times
explicit-IsDistinct [] set out h d = subst IsDistinct (cc) d
explicit-IsDistinct (t ∷ times) set out h d =
    let (n, _, rest) = >>=-inr (parse_time_hm t) _ out h in
    explicit-IsDistinct times (add_minute n set) out rest (add_minute-IsDistinct n set d)

hours-IsDistinct :
    (fuel hour end : ℕ) (set : List ℕ) → IsDistinct set → IsDistinct (add_hours fuel hour end set)
unfolding add_hours
hours-IsDistinct zero hour end set d = d
hours-IsDistinct (suc fuel) hour end set d = elim (Bool-cases (leb (hour * 60) end)) [
  | inl more ↦ rw more (
      hours-IsDistinct fuel (suc hour) end (add_minute (hour * 60) set)
        (add_minute-IsDistinct (hour * 60) set d))
  | inr over ↦ rw over d
]

hourly-IsDistinct :
    (range : Option HourlyRange) (set out : List ℕ)
    → add_hourly_times range set ≡ inr out
    → IsDistinct set
    → IsDistinct out
unfolding add_hourly_times
hourly-IsDistinct none set out h d = subst IsDistinct (cc) d
hourly-IsDistinct (some range) set out h d =
    let (start, _, rest) = >>=-inr (parse_time_hm range.start) _ out h in
    let (end, _, rest') = >>=-inr (parse_time_hm range.end) _ out rest in
    let (_, same) = if_failed-inr (ltb end start) midnight_crossing _ out rest' in
    subst IsDistinct (cc (same)) (
      hours-IsDistinct 24 (if not (start % 60 == 0) then suc (start / 60) else start / 60) end set
        d)

-- An empty day needs no case of its own.
unfoldable pub expansion : DaySchedule → ScheduleError ⊎ List ℕ
expansion d = add_explicit_times d.times [] >>= λ explicit.
    add_hourly_times d.hourly explicit >>= λ all. inr (sorted_minutes all)

pub expand_day_times-expansion : (d : DaySchedule) → expand_day_times d ≡ expansion d
unfolding expand_day_times expansion add_explicit_times add_hourly_times
expand_day_times-expansion d = go d.times d.hourly
  where
    go :
        (times : List Text) (range : Option HourlyRange)
        → expand_day_times (record { times = times; hourly = range })
          ≡ expansion (record { times = times; hourly = range })
    go [] none = refl
    go [] (some range) = refl
    go (t ∷ times) none = refl
    go (t ∷ times) (some range) = refl

-- A day schedule without an error expands to the minutes that its list of times names and the full hours
-- of its range, in increasing order and each once.
pub expand_day_times_lem :
    (d : DaySchedule) (minutes : List ℕ)
    → expand_day_times d ≡ inr minutes
    → IsIncreasing minutes
      × ((m : ℕ) → (mem m minutes ≡ true) ↔ (IsExplicit d.times m ⊎ IsHourly d.hourly m))
unfolding expansion
expand_day_times_lem d minutes h =
    let (set, h1, rest) =
      >>=-inr (add_explicit_times d.times []) _ minutes (sym (expand_day_times-expansion d) ∙ h) in
    let (all, h2, rest') = >>=-inr (add_hourly_times d.hourly set) _ minutes rest in
    let same : sorted_minutes all ≡ minutes = cc (rest') in
    (
      subst IsIncreasing same (
          sorted_minutes-IsIncreasing all
            (hourly-IsDistinct d.hourly set all h2 (explicit-IsDistinct d.times [] set h1 tt))),
      λ m.
          let in_all : mem m minutes ≡ mem m all =
            ap (mem m) (sym same) ∙ mem-sorted_minutes m all in
          let (to, from) = IsHourly-mem d.hourly set all m h2 in
          let (to', from') = IsExplicit-mem d.times [] set m h1 in
          (
            λ k. elim (to (sym in_all ∙ k)) [
              | inr hourly ↦ inr hourly
              | inl old ↦ elim (to' old) [ inl never ↦ absurd (cc) | inr explicit ↦ inl explicit ]
            ],
            λ k. elim k [
              | inl explicit ↦ in_all ∙ from (inl (from' (inr explicit)))
              | inr hourly ↦ in_all ∙ from (inr hourly)
            ],
          ),
    )

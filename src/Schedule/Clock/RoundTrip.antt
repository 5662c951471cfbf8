-- ===== src/Schedule/Clock/RoundTrip.antt =====
-- What is read as a time of day, and that a normalized time is read back.
use telegram_digest_bot.Base.{
  ℕ, zero, suc, ◌*◌, ◌≤◌, ◌<◌, ◌≡◌, refl, sym, ap, ◌∙◌, subst, Bool, true, false, ◌&&◌, not, List,
  [], ◌∷◌, inl, inr, ◌⊎◌, ◌==◌, ==_iff, if◌then◌else◌, arith,
}
use telegram_digest_bot.Schedule.{
  Text, ScheduleError, time_format, minute_not_zero, is_empty, ◌>>=◌,
}
use telegram_digest_bot.Schedule.Clock.{
  parse_hour_minute, parse_parts, parse_normalized, print_time, normalize_time_hm, parse_time_hm,
  split_colon, trim_space,
}

abbrev equal_texts : Text → Text → Bool
equal_texts [] [] = true
equal_texts [] (y ∷ ys) = false
equal_texts (x ∷ xs) [] = false
equal_texts (x ∷ xs) (y ∷ ys) = (x == y) && equal_texts xs ys

equal_texts-eq : (xs ys : Text) → equal_texts xs ys ≡ true → xs ≡ ys
equal_texts-eq [] [] h = refl
equal_texts-eq [] (y ∷ ys) h = absurd (cc)
equal_texts-eq (x ∷ xs) [] h = absurd (cc)
equal_texts-eq (x ∷ xs) (y ∷ ys) h =
    let heads : x ≡ y = ground (arith, h) in
    let tails = equal_texts-eq xs ys (ground (arith, h)) in cc

abbrev is_text : Text → ScheduleError ⊎ Text → Bool
is_text t (inl e) = false
is_text t (inr u) = equal_texts u t

is_text-eq : (t : Text) (r : ScheduleError ⊎ Text) → is_text t r ≡ true → r ≡ inr t
is_text-eq t (inl e) h = absurd (cc)
is_text-eq t (inr u) h = ap inr (equal_texts-eq u t h)

abbrev is_number : ℕ → ScheduleError ⊎ ℕ → Bool
is_number n (inl e) = false
is_number n (inr m) = m == n

is_number-eq : (n : ℕ) (r : ScheduleError ⊎ ℕ) → is_number n r ≡ true → r ≡ inr n
is_number-eq n (inl e) h = absurd (cc)
is_number-eq n (inr m) h = ap inr ((==_iff m n).0 h)

all_below : ℕ → (ℕ → Bool) → Bool
all_below zero p = true
all_below (suc n) p = p n && all_below n p

all_below_sound : (n : ℕ) (p : ℕ → Bool) (k : ℕ) → all_below n p ≡ true → k < n → p k ≡ true
unfolding all_below
all_below_sound zero p k h lt = absurd (omega (arith, lt))
all_below_sound (suc n) p k h lt = ground (arith, h, lt, all_below_sound n p k)

printed_hours :
    all_below 24 (λ h.
      is_text (print_time h 0) (normalize_time_hm (print_time h 0))
      && is_number (h * 60) (parse_time_hm (print_time h 0)))
    ≡ true
unfolding all_below normalize_time_hm parse_time_hm
printed_hours = refl

-- A printed hour is its own normal form, and is read as its minutes.
print_time-normal :
    (h : ℕ)
    → h ≤ 23
    → (normalize_time_hm (print_time h 0) ≡ inr (print_time h 0))
      × (parse_time_hm (print_time h 0) ≡ inr (h * 60))
print_time-normal h le = (
  is_text-eq (print_time h 0) (normalize_time_hm (print_time h 0)) (ground (arith, checked)),
  is_number-eq (h * 60) (parse_time_hm (print_time h 0)) (ground (arith, checked)),
)
  where
    checked :
        (is_text (print_time h 0) (normalize_time_hm (print_time h 0))
          && is_number (h * 60) (parse_time_hm (print_time h 0)))
        ≡ true
    checked = all_below_sound 24 _ h printed_hours (omega (arith, le))

parse_parts-le :
    (parts : List Text) (hour minute : ℕ)
    → parse_parts parts ≡ inr (hour, minute)
    → (hour ≤ 23) × (minute ≤ 59)
parse_parts-le [] hour minute h = absurd (cc)
parse_parts-le (a ∷ []) hour minute h = absurd (cc)
parse_parts-le (a ∷ b ∷ []) hour minute h = ground (arith, h)
parse_parts-le (a ∷ b ∷ c ∷ parts) hour minute h = absurd (cc)

pub >>=-inr :
    {A B : Type 0} (m : ScheduleError ⊎ A) (f : A → ScheduleError ⊎ B) (b : B)
    → (m >>= f) ≡ inr b
    → (a : A) × (m ≡ inr a) × (f a ≡ inr b)
>>=-inr (inl e) f b h = absurd (cc)
>>=-inr (inr a) f b h = (a, refl, h)

pub if_failed-inr :
    {A : Type 0} (b : Bool) (e : ScheduleError) (r : ScheduleError ⊎ A) (a : A)
    → (if b then inl e else r) ≡ inr a
    → (b ≡ false) × (r ≡ inr a)
if_failed-inr true e r a h = absurd (cc)
if_failed-inr false e r a h = (refl, h)

parse_hour_minute-le :
    (value : Text) (hour minute : ℕ)
    → parse_hour_minute value ≡ inr (hour, minute)
    → (hour ≤ 23) × (minute ≤ 59)
unfolding parse_hour_minute
parse_hour_minute-le value hour minute h =
    parse_parts-le (split_colon (trim_space value)) hour minute
      (if_failed-inr (is_empty (trim_space value)) time_format _ (hour, minute) h).1

normalize_time_hm-print_time :
    (value t : Text)
    → normalize_time_hm value ≡ inr t
    → (hour : ℕ) × (hour ≤ 23) × (t ≡ print_time hour 0)
unfolding normalize_time_hm
normalize_time_hm-print_time value t h =
    let ((hour, minute), parsed, rest) = >>=-inr (parse_hour_minute value) _ t h in
    (hour, (parse_hour_minute-le value hour minute parsed).0, final hour minute rest)
  where
    final :
        (hour minute : ℕ)
        → (if not (minute == 0) then inl minute_not_zero else inr (print_time hour minute)) ≡ inr t
        → t ≡ print_time hour 0
    final hour minute e =
        let (zero_minute, same) = if_failed-inr (not (minute == 0)) minute_not_zero _ t e in
        let m_is : minute ≡ 0 = ground (arith, zero_minute) in
        let printed : print_time hour minute ≡ t = cc (same) in
        sym printed ∙ ap (print_time hour) m_is

-- A text that normalizes is a full hour of the day: the normal form is that hour printed, which is what
-- the text is read as, and normalizing again changes nothing.
pub normalize_time_hm_lem :
    (value t : Text)
    → normalize_time_hm value ≡ inr t
    → (hour : ℕ) × (hour ≤ 23)
      × (t ≡ print_time hour 0)
      × (parse_time_hm value ≡ inr (hour * 60))
      × (normalize_time_hm t ≡ inr t)
unfolding parse_time_hm
normalize_time_hm_lem value t h =
    let (hour, le, printed) = normalize_time_hm-print_time value t h in
    let (normal, read) = print_time-normal hour le in
    (
      hour,
      le,
      printed,
      ap (λ r. r >>= parse_normalized) (h ∙ ap inr printed ∙ sym normal) ∙ read,
      subst (λ u. normalize_time_hm u ≡ inr u) (sym printed) normal,
    )

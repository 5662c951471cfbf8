-- ===== src/Schedule/Clock.antt =====
-- The reading of a time of day: `parseHourMinute`, `NormalizeTimeHM` and `parseTimeHM`.
pub mod RoundTrip
mod Tests
use telegram_digest_bot.Base.{
  ℕ, zero, suc, ◌+◌, ◌-◌, ◌*◌, ◌/◌, ◌%◌, ◌^◌, Bool, true, false, not, ◌&&◌, ◌||◌, List, [], ◌∷◌,
  ◌++◌, Option, none, some, ◌⊎◌, inl, inr, take, drop, ltb, leb, ◌==◌, if◌then◌else◌,
}
use telegram_digest_bot.Base.Int.{ℤ, pos, negsuc}
use telegram_digest_bot.Schedule.{
  Text, ScheduleError, time_format, invalid_hour, invalid_minute, minute_not_zero,
  hour_out_of_range, ◌>>=◌, require, is_empty,
}

-- `unicode.IsSpace`
unfoldable pub is_space : ℕ → Bool
is_space c =
    (leb 9 c && leb c 13)
    || c == 32
    || c == 133
    || c == 160
    || c == 5760
    || (leb 8192 c && leb c 8202)
    || c == 8232
    || c == 8233
    || c == 8239
    || c == 8287
    || c == 12288

unfoldable pub trim_left : Text → Text
unfolding is_space
trim_left [] = []
trim_left (c ∷ cs) = if is_space c then trim_left cs else c ∷ cs

unfoldable pub trim_right : Text → Text
unfolding is_space
trim_right [] = []
trim_right (c ∷ cs) =
    let rest = trim_right cs in if is_space c && is_empty rest then [] else c ∷ rest

-- `strings.TrimSpace`
abbrev pub trim_space : Text → Text
trim_space cs = trim_right (trim_left cs)

abbrev pub push_front : ℕ → List Text → List Text
push_front c [] = (c ∷ []) ∷ []
push_front c (part ∷ parts) = (c ∷ part) ∷ parts

-- `strings.Split(value, ":")`
unfoldable pub split_colon : Text → List Text
split_colon [] = [] ∷ []
split_colon (c ∷ cs) =
    let parts = split_colon cs in if c == b':' then [] ∷ parts else push_front c parts

-- `len` of a text: the bytes of its code points in UTF-8.
unfoldable pub byte_length : Text → ℕ
byte_length [] = 0
byte_length (c ∷ cs) =
    (if ltb c 128 then 1 else if ltb c 2048 then 2 else if ltb c 65536 then 3 else 4)
    + byte_length cs

unfoldable pub digits_from : ℕ → Text → Option ℕ
digits_from acc [] = some acc
digits_from acc (c ∷ cs) =
    let rest = digits_from (acc * 10 + (c - b'0')) cs in
    if leb b'0' c && leb c b'9' then rest else none

abbrev pub unsigned : Text → Option ℕ
unsigned [] = none
unsigned (c ∷ cs) = digits_from 0 (c ∷ cs)

-- An int64, or the error of a value out of range.
abbrev pub positive : Option ℕ → Option ℤ
positive none = none
positive (some n) = if ltb n (2 ^ 63) then some (pos n) else none

abbrev pub negate : ℕ → ℤ
negate zero = pos 0
negate (suc n) = negsuc n

abbrev pub negative : Option ℕ → Option ℤ
negative none = none
negative (some n) = if leb n (2 ^ 63) then some (negate n) else none

-- `strconv.Atoi`
unfoldable pub atoi : Text → Option ℤ
unfolding digits_from
atoi [] = none
atoi (c ∷ cs) =
    if c == b'-'
    then negative (unsigned cs)
    else if c == b'+'
    then positive (unsigned cs)
    else positive (unsigned (c ∷ cs))

-- A number from 0 to `most`.
abbrev pub within : ℕ → ScheduleError → ℤ → ScheduleError ⊎ ℕ
within most e (negsuc n) = inl e
within most e (pos n) = if ltb most n then inl e else inr n

abbrev pub parse_parts : List Text → ScheduleError ⊎ (ℕ × ℕ)
parse_parts [] = inl time_format
parse_parts (hour_part ∷ []) = inl time_format
parse_parts (hour_part ∷ minute_part ∷ []) =
    if not (byte_length minute_part == 2) then inl time_format else do
      h ← require invalid_hour (atoi hour_part)
      m ← require invalid_minute (atoi minute_part)
      hour ← within 23 hour_out_of_range h
      minute ← within 59 invalid_minute m
      inr (hour, minute)
parse_parts (hour_part ∷ minute_part ∷ other ∷ parts) = inl time_format

unfoldable pub parse_hour_minute : Text → ScheduleError ⊎ (ℕ × ℕ)
unfolding trim_left trim_right split_colon byte_length atoi
parse_hour_minute value =
    let trimmed = trim_space value in
    if is_empty trimmed then inl time_format else parse_parts (split_colon trimmed)

-- `%02d` of a number below 100.
abbrev pub two_digits : ℕ → Text
two_digits n = (b'0' + n / 10) ∷ (b'0' + n % 10) ∷ []

abbrev pub print_time : ℕ → ℕ → Text
print_time hour minute = two_digits hour ++ b':' ∷ two_digits minute

unfoldable pub normalize_time_hm : Text → ScheduleError ⊎ Text
unfolding parse_hour_minute
normalize_time_hm value = do
  (hour, minute) ← parse_hour_minute value
  if not (minute == 0) then inl minute_not_zero else inr (print_time hour minute)

abbrev pub minutes_of : ℤ → ℤ → ℕ
minutes_of (pos hour) (pos minute) = hour * 60 + minute
minutes_of (pos hour) (negsuc n) = hour * 60 - suc n
minutes_of (negsuc n) minute = 0

-- The parts of a normalized time have two digits, so that the numbers read here are not negative.
abbrev pub parse_normalized : Text → ScheduleError ⊎ ℕ
parse_normalized normalized = do
  hour ← require invalid_hour (atoi (take 2 normalized))
  minute ← require invalid_minute (atoi (drop 3 normalized))
  inr (minutes_of hour minute)

unfoldable pub parse_time_hm : Text → ScheduleError ⊎ ℕ
unfolding normalize_time_hm atoi
parse_time_hm value = normalize_time_hm value >>= parse_normalized

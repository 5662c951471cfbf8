-- ===== src/Schedule/Clock/Tests.antt =====
-- Times of day as they are written in a configuration.
use telegram_digest_bot.Base.{ℕ, ◌*◌, ◌≤◌, ◌≡◌, refl, [], ◌∷◌, inl, inr}
use telegram_digest_bot.Schedule.{Text, time_format, minute_not_zero, hour_out_of_range}
use telegram_digest_bot.Schedule.Clock.{print_time, normalize_time_hm, parse_time_hm}
use telegram_digest_bot.Schedule.Clock.RoundTrip.{normalize_time_hm_lem}

-- " 8:00"
abbrev eight : Text
eight = b' ' ∷ b'8' ∷ b':' ∷ b'0' ∷ b'0' ∷ []

eight-normal : normalize_time_hm eight ≡ inr (b'0' ∷ b'8' ∷ b':' ∷ b'0' ∷ b'0' ∷ [])
unfolding normalize_time_hm
eight-normal = refl

-- "24:00", "8:30" and "8:0"
refused :
    (normalize_time_hm (b'2' ∷ b'4' ∷ b':' ∷ b'0' ∷ b'0' ∷ []) ≡ inl hour_out_of_range)
    × (normalize_time_hm (b'8' ∷ b':' ∷ b'3' ∷ b'0' ∷ []) ≡ inl minute_not_zero)
    × (normalize_time_hm (b'8' ∷ b':' ∷ b'0' ∷ []) ≡ inl time_format)
unfolding normalize_time_hm
refused = (refl, refl, refl)

normalize_time_hm_lem_example :
    (hour : ℕ) × (hour ≤ 23)
    × ((b'0' ∷ b'8' ∷ b':' ∷ b'0' ∷ b'0' ∷ []) ≡ print_time hour 0)
    × (parse_time_hm eight ≡ inr (hour * 60))
    × (normalize_time_hm (b'0' ∷ b'8' ∷ b':' ∷ b'0' ∷ b'0' ∷ [])
        ≡ inr (b'0' ∷ b'8' ∷ b':' ∷ b'0' ∷ b'0' ∷ []))
normalize_time_hm_lem_example =
    normalize_time_hm_lem eight (b'0' ∷ b'8' ∷ b':' ∷ b'0' ∷ b'0' ∷ []) eight-normal

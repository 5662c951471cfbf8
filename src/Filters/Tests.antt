-- ===== src/Filters/Tests.antt =====
-- A message under an allow pattern and a deny pattern; a text contains another only if they are the same.
use telegram_digest_bot.Base.{ℕ, ◌≡◌, refl, ◌↔◌, Bool, true, false, List, [], ◌∷◌, String, str_eq}
use telegram_digest_bot.Base.Int.{pos}
use telegram_digest_bot.Filters.{Filter, Filterer, new_filterer, filter_reason, is_filtered}
use telegram_digest_bot.Filters.Passing.{Passes, is_filtered_iff}

abbrev no_fold : String → String
no_fold s = s

abbrev is_same : String → String → Bool
is_same text part = str_eq text part

abbrev long : String → ℕ
long s = 100

abbrev rules : List Filter
rules =
    record { kind = "deny"; pattern_text = "casino" }
    ∷ record { kind = "allow"; pattern_text = "election" }
    ∷ []

abbrev mixed : Filterer
mixed = record {
  ads_enabled = true;
  min_length = pos 20;
  ads_keywords = "promo" ∷ [];
  filters = rules;
  mode = "mixed";
}

mixed-new : new_filterer rules true (pos 0) ("promo" ∷ []) "" ≡ mixed
unfolding new_filterer
mixed-new = refl

mixed-reasons :
    (filter_reason no_fold is_same long mixed "casino" ≡ (true, "filter_deny"))
    × (filter_reason no_fold is_same long mixed "promo" ≡ (true, "filter_ads"))
    × (filter_reason no_fold is_same long mixed "weather" ≡ (true, "filter_allow_miss"))
unfolding filter_reason
mixed-reasons = (refl, refl, refl)

election-passes : is_filtered no_fold is_same long mixed "election" ≡ false
unfolding is_filtered
election-passes = refl

is_filtered_iff_example :
    (is_filtered no_fold is_same long mixed "election" ≡ false)
    ↔ Passes no_fold is_same long mixed "election"
is_filtered_iff_example = is_filtered_iff no_fold is_same long mixed "election"

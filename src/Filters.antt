-- ===== src/Filters.antt =====
-- The filters of messages (internal/process/filters/filters.go).
-- `fold` is the case folding of golang.org/x/text, `contains` is `strings.Contains`, and `byte_length`
-- is Go's `len` of a string.
pub mod Passing
mod Tests
use telegram_digest_bot.Base.{
  ℕ, Bool, true, false, not, ◌&&◌, ◌||◌, List, [], ◌∷◌, String, ltb, ◌==◌, any, if◌then◌else◌,
  str_eq,
}
use telegram_digest_bot.Base.Int.{ℤ, pos, negsuc}

abbrev pub filter_mode_allowlist : String
filter_mode_allowlist = "allowlist"

abbrev pub filter_mode_mixed : String
filter_mode_mixed = "mixed"

abbrev pub filter_mode_denylist : String
filter_mode_denylist = "denylist"

-- The columns of a stored filter that are read here.
pub record Filter : Type 0 where
  pub kind : String
  pub pattern_text : String

pub record Filterer : Type 0 where
  pub ads_enabled : Bool
  pub min_length : ℤ
  pub ads_keywords : List String
  pub filters : List Filter
  pub mode : String

abbrev pub default_ads_keywords : List String
default_ads_keywords =
    "#ad" ∷ "sponsored" ∷ "promo" ∷ "подпишись" ∷ "купи" ∷ "зарабатывай" ∷ "выигрывай" ∷ []

abbrev pub or_default_keywords : List String → List String
or_default_keywords [] = default_ads_keywords
or_default_keywords (kw ∷ kws) = kw ∷ kws

abbrev pub or_default_length : ℤ → ℤ
or_default_length (pos n) = if n == 0 then pos 20 else pos n
or_default_length (negsuc n) = pos 20

-- `New`
unfoldable pub new_filterer : List Filter → Bool → ℤ → List String → String → Filterer
new_filterer filters ads_enabled min_length ads_keywords mode = record {
  ads_enabled = ads_enabled;
  min_length = or_default_length min_length;
  ads_keywords = or_default_keywords ads_keywords;
  filters = filters;
  mode = if str_eq mode "" then filter_mode_mixed else mode;
}

-- `minLength > 0 && len(text) < minLength`
abbrev pub is_shorter : ℕ → ℤ → Bool
is_shorter length (pos n) = ltb length n
is_shorter length (negsuc n) = false

module _ (fold : String → String) (contains : String → String → Bool)
    (byte_length : String → ℕ) where
  unfoldable pub contains_ads : Filterer → String → Bool
  contains_ads f lower_text =
      if not f.ads_enabled then false else any (λ kw. contains lower_text (fold kw)) f.ads_keywords

  abbrev pub uses_deny : String → Bool
  uses_deny mode = str_eq mode filter_mode_denylist || str_eq mode filter_mode_mixed

  abbrev pub uses_allow : String → Bool
  uses_allow mode = str_eq mode filter_mode_allowlist || str_eq mode filter_mode_mixed

  unfoldable pub matches_deny_filter : Filterer → String → Bool
  matches_deny_filter f lower_text =
      if not (uses_deny f.mode)
      then false
      else any (λ x. str_eq x.kind "deny" && contains lower_text (fold x.pattern_text)) f.filters

  -- The loop of `failsAllowFilter`, with its two flags.
  abbrev pub allow_loop : String → List Filter → Bool → Bool → Bool × Bool
  allow_loop lower_text [] has_allow_filters matched_allow = (has_allow_filters, matched_allow)
  allow_loop lower_text (x ∷ filters) has_allow_filters matched_allow =
      let allows = str_eq x.kind "allow" in
      allow_loop lower_text filters (has_allow_filters || allows)
        (matched_allow || (allows && contains lower_text (fold x.pattern_text)))

  unfoldable pub fails_allow_filter : Filterer → String → Bool
  fails_allow_filter f lower_text =
      let (has_allow_filters, matched_allow) = allow_loop lower_text f.filters false false in
      if not (uses_allow f.mode) then false else has_allow_filters && not matched_allow

  unfoldable pub filter_reason_with_min_length : Filterer → String → ℤ → Bool × String
  unfolding contains_ads matches_deny_filter fails_allow_filter
  filter_reason_with_min_length f text min_length =
      let lower_text = fold text in
      if is_shorter (byte_length text) min_length
      then (true, "filter_min_length")
      else if contains_ads f lower_text
      then (true, "filter_ads")
      else if matches_deny_filter f lower_text
      then (true, "filter_deny")
      else if fails_allow_filter f lower_text
      then (true, "filter_allow_miss")
      else (false, "")

  unfoldable pub filter_reason : Filterer → String → Bool × String
  unfolding filter_reason_with_min_length
  filter_reason f text = filter_reason_with_min_length f text f.min_length

  unfoldable pub is_filtered : Filterer → String → Bool
  unfolding filter_reason
  is_filtered f text = (filter_reason f text).0

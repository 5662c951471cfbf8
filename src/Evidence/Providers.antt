-- ===== src/Evidence/Providers.antt =====
-- The registry of evidence providers (internal/process/enrichment/providers.go).
-- The answers of a provider to one search are fields of it, with the query, the language and the limit
-- given; `A` is a search result, `E` an error. Registration gives every provider its breaker, so a
-- missing breaker, which is a nil pointer in the source, is not met. Locks are left out.
pub mod Search
mod Tests
use telegram_digest_bot.Base.{
  ℕ, Bool, true, false, List, [], ◌∷◌, ◌++◌, String, Option, none, some, map, if◌then◌else◌,
}
use telegram_digest_bot.Base.Dict
use telegram_digest_bot.Base.Int.{ℤ, pos, negsuc}
use telegram_digest_bot.Evidence.Breaker.{
  CircuitBreaker, new_circuit_breaker, can_attempt, record_success, record_failure,
}
use telegram_digest_bot.Evidence.Select.{
  FanOutResult, Event, Selection, no_providers_available, select_best_result,
}

pub data Found (A E : Type 0) : Type 0 where
  results : List A → Found A E
  failure : E → Found A E

-- A provider may also search by language.
pub record Provider (A E : Type 0) : Type 0 where
  pub name : String
  pub priority : ℕ
  pub is_available : Bool
  pub search : Found A E
  pub search_with_language : Option (Found A E)

pub record ProviderRegistry (A E : Type 0) : Type 0 where
  pub providers : List (String × Provider A E)
  pub order : List String
  pub circuit_breakers : List (String × CircuitBreaker)
  pub cooldown : ℤ
  pub grace_period : ℕ

-- A negative period is none.
abbrev pub non_negative : ℤ → ℕ
non_negative (pos d) = d
non_negative (negsuc d) = 0

abbrev pub is_none : {B : Type 0} → List B → Bool
is_none [] = true
is_none (p ∷ ps) = false

module _ {A E : Type 0} where
  unfoldable pub new_provider_registry : ℤ → ProviderRegistry A E
  new_provider_registry cooldown = record {
    providers = [];
    order = [];
    circuit_breakers = [];
    cooldown = cooldown;
    grace_period = 0;
  }

  unfoldable pub register : Provider A E → ProviderRegistry A E → ProviderRegistry A E
  register p r = record r {
    providers = Dict.insert p.name p r.providers;
    order = r.order ++ p.name ∷ [];
    circuit_breakers = Dict.insert p.name (new_circuit_breaker r.cooldown) r.circuit_breakers;
  }

  unfoldable pub set_grace_period : ℤ → ProviderRegistry A E → ProviderRegistry A E
  set_grace_period d r = record r { grace_period = non_negative d }

  unfoldable pub get : String → ProviderRegistry A E → Option (Provider A E)
  get name r = Dict.lookup name r.providers

  abbrev pub store : String → CircuitBreaker → ProviderRegistry A E → ProviderRegistry A E
  store name cb r = record r { circuit_breakers = Dict.insert name cb r.circuit_breakers }

  -- `p.IsAvailable(ctx) && r.getCircuitBreaker(p.Name()).canAttempt()`, at the moment `now`: an open
  -- breaker whose pause is over begins to probe.
  unfoldable pub check_provider :
      ℕ → Provider A E → ProviderRegistry A E → ProviderRegistry A E × Bool
  check_provider now p r =
      if p.is_available
      then elim (Dict.lookup p.name r.circuit_breakers) [
        | some cb ↦ let (cb', allowed) = can_attempt now cb in (store p.name cb' r, allowed)
        | none ↦ (r, false)
      ]
      else (r, false)

  -- `getActiveProviders`, over the providers in the order in which the map yields them.
  unfoldable pub get_active_providers :
      (String → ℕ)
      → List (String × Provider A E)
      → ProviderRegistry A E
      → ProviderRegistry A E × List (Provider A E)
  unfolding check_provider
  get_active_providers now [] r = (r, [])
  get_active_providers now ((name, p) ∷ ps) r =
      let (r', active) = check_provider (now name) p r in
      let (end, others) = get_active_providers now ps r' in
      (end, if active then p ∷ others else others)

  -- `AvailableProviders`, over the order of registration.
  unfoldable pub available_providers :
      (String → ℕ) → List String → ProviderRegistry A E → ProviderRegistry A E × List String
  unfolding check_provider
  available_providers now [] r = (r, [])
  available_providers now (name ∷ names) r =
      let checked : ProviderRegistry A E × Bool = elim (Dict.lookup name r.providers) [
        | some p ↦ check_provider (now name) p r
        | none ↦ (r, false)
      ] in
      let (r', active) = checked in
      let (end, others) = available_providers now names r' in
      (end, if active then name ∷ others else others)

  -- `searchWithLanguage`; the error is wrapped with the provider's name, which `wrap` stands for.
  unfoldable pub search_with_language : (String → E → E) → Provider A E → Found A E
  search_with_language wrap p =
      let found : Found A E = elim p.search_with_language [ some rs ↦ rs | none ↦ p.search ] in
      elim found [ results rs ↦ results rs | failure e ↦ failure (wrap p.name e) ]

  -- What the goroutine of a provider sends.
  unfoldable pub fan_out : (String → E → E) → Provider A E → FanOutResult A E
  unfolding search_with_language
  fan_out wrap p = elim (search_with_language wrap p) [
    | results rs ↦ record { results = rs; name = p.name; err = none; priority = p.priority }
    | failure e ↦ record { results = []; name = p.name; err = some e; priority = p.priority }
  ]

  -- What it reports to the breaker, at the moment `now`.
  unfoldable pub report :
      (String → E → E) → ℕ → Provider A E → ProviderRegistry A E → ProviderRegistry A E
  report wrap now p r = elim (Dict.lookup p.name r.circuit_breakers) [
    | none ↦ r
    | some cb ↦ elim (search_with_language wrap p) [
      | results rs ↦ store p.name (record_success cb) r
      | failure e ↦ store p.name (record_failure now cb) r
    ]
  ]

  unfoldable pub report_all :
      (String → E → E)
      → (String → ℕ)
      → List (Provider A E)
      → ProviderRegistry A E
      → ProviderRegistry A E
  unfolding report
  report_all wrap now [] r = r
  report_all wrap now (p ∷ ps) r = report_all wrap now ps (report wrap (now p.name) p r)

  -- `SearchWithFallback`. `checked` and `returned` are the moments that the breakers read; `interleave`
  -- arranges what the goroutines send among the other events of the selecting loop. The goroutines all
  -- run to their end, also after the loop has returned.
  unfoldable pub search_with_fallback :
      (String → E → E)
      → (String → ℕ)
      → (String → ℕ)
      → (List (FanOutResult A E) → List (Event A E))
      → ProviderRegistry A E
      → ProviderRegistry A E × Option (Selection A E)
  unfolding get_active_providers report_all fan_out
  search_with_fallback wrap checked returned interleave r =
      let (r', active) = get_active_providers checked r.providers r in
      if is_none active then (r', some no_providers_available) else (
        report_all wrap returned active r',
        select_best_result r'.grace_period (interleave (map (fan_out wrap) active)),
      )

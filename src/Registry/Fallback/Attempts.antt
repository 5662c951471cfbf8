-- ===== src/Registry/Fallback/Attempts.antt =====
-- What a series of attempts at the providers of a chain of registry.go comes to.
use telegram_digest_bot.Base.{
  ℕ, suc, ◌+◌, ◌≡◌, List, [], ◌∷◌, ◌++◌, String, Option, none, some, length, str_eq, if◌then◌else◌,
}
use telegram_digest_bot.Registry.{ProviderModel, Registry}
use telegram_digest_bot.Registry.Fallback.{
  Attempt, skipped, failed, succeeded, panicked, ExecError, no_providers_available,
  all_providers_failed,
}

-- An attempt after which the loop goes on.
abbrev pub IsPassed : {T E : Type 0} → Attempt T E → Type 0
IsPassed skipped = Unit
IsPassed (failed e) = Unit
IsPassed (succeeded v) = ⊥
IsPassed panicked = ⊥

abbrev pub error_of : {T E : Type 0} → Attempt T E → Option E → Option E
error_of (failed e) last = some e
error_of skipped last = last
error_of (succeeded v) last = last
error_of panicked last = last

-- The name that is kept after an attempt: that of the first failure stays.
abbrev pub failed_name : {T E : Type 0} → Attempt T E → String → Option String → Option String
failed_name (failed e) name none = some name
failed_name (failed e) name (some first) = some first
failed_name skipped name previous = previous
failed_name (succeeded v) name previous = previous
failed_name panicked name previous = previous

-- The fallback that is counted for a provider that answers, given the first one that failed: none
-- without a failure, or when the first that failed has no name.
abbrev pub counted_fallback : Option String → String → Option (String × String)
counted_fallback none name = none
counted_fallback (some first) name = if str_eq first "" then none else some (first, name)

-- Why a call gives up, by the error of the last provider that failed.
abbrev pub reason : {E : Type 0} → Option E → ExecError E
reason none = no_providers_available
reason (some e) = all_providers_failed e

-- The name of a provider that failed, or else a later one.
abbrev pub named_failure : {T E : Type 0} → Attempt T E → String → Option String → Option String
named_failure (failed e) name later = some name
named_failure skipped name later = later
named_failure (succeeded v) name later = later
named_failure panicked name later = later

module _ {T E : Type 0} (attempt : ℕ → ProviderModel → Registry → Registry × Attempt T E) where
  -- The registry after attempts at every provider of a chain, from place `i` on.
  abbrev pub after : ℕ → List ProviderModel → Registry → Registry
  after i [] r = r
  after i (pm ∷ pms) r = after (suc i) pms (attempt i pm r).0

  -- No attempt at the chain ends the loop.
  abbrev pub AllPassed : ℕ → List ProviderModel → Registry → Type 0
  AllPassed i [] r = Unit
  AllPassed i (pm ∷ pms) r = IsPassed (attempt i pm r).1 × AllPassed (suc i) pms (attempt i pm r).0

  -- The error of the last provider that failed, and the name of the first.
  abbrev pub last_error : ℕ → List ProviderModel → Registry → Option E → Option E
  last_error i [] r last = last
  last_error i (pm ∷ pms) r last =
      last_error (suc i) pms (attempt i pm r).0 (error_of (attempt i pm r).1 last)

  abbrev pub first_failure : ℕ → List ProviderModel → Registry → Option String
  first_failure i [] r = none
  first_failure i (pm ∷ pms) r =
      let rest = first_failure (suc i) pms (attempt i pm r).0 in
      named_failure (attempt i pm r).1 pm.provider rest

  -- The way to a success: the providers before it were passed.
  abbrev pub Reached : ℕ → List ProviderModel → Registry → T → Type 0
  Reached i pms r v =
      (pre : List ProviderModel) × (pm : ProviderModel) × (post : List ProviderModel) × (pms
        ≡ pre ++ pm ∷ post)
      × AllPassed i pre r
      × ((attempt (i + length pre) pm (after i pre r)).1 ≡ succeeded v)

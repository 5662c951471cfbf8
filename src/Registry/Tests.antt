-- ===== src/Registry/Tests.antt =====
-- A registry of two providers, and the theorems on it.
use telegram_digest_bot.Base.{
  ℕ, ◌≡◌, refl, ◌≢◌, List, [], ◌∷◌, ◌++◌, String, some, All, In, IsSublist, str_eq, true, false, ap,
  if◌then◌else◌,
}
use telegram_digest_bot.Base.Dict
use telegram_digest_bot.Circuit.{
  CircuitBreakerConfig, new_circuit_breaker, record_success, record_failure, can_attempt,
}
use telegram_digest_bot.Registry.{
  Provider, ProviderModel, Registry, register, get_task_model_override, get_provider_chain,
  get_circuit_breaker,
}
use telegram_digest_bot.Registry.Config.{new_registry}
use telegram_digest_bot.Registry.Order.{IsWellFormed, register-IsWellFormed}
use telegram_digest_bot.Registry.Chain.{
  own_chain, providers_of, IsFallback, AreDistinct, get_provider_chain_for_task,
  get_provider_chain_for_task_lem,
}
use telegram_digest_bot.Registry.Fallback.{
  value, error, Env, nil_breaker, all_providers_failed, returned, gave_up,
  execute_with_task_fallback, try_provider_exec,
}
use telegram_digest_bot.Registry.Fallback.Attempts.{after, Reached}
use telegram_digest_bot.Registry.Fallback.FirstSuccess.{
  attempts, execute_with_task_fallback-returns, execute_with_task_fallback-gives_up,
  execute_with_task_fallback_sound,
}
use telegram_digest_bot.Registry.Fallback.NilBreaker.{
  Keeps, execute_with_task_fallback-IsWellFormed,
}

abbrev provider : String → ℕ → Provider
provider name priority = record {
  name = name;
  priority = priority;
  is_available = true;
  supports_image_generation = false;
}

abbrev strict : CircuitBreakerConfig
strict = record { threshold = 1; reset_after = 60 }

-- OpenAI and a local provider, registered from low to high priority.
abbrev two : Registry
two = register (provider "openai" 100) strict (register (provider "mock" 10) strict new_registry)

two-order : two.order ≡ "openai" ∷ "mock" ∷ []
unfolding register new_registry Dict.lookup Dict.insert
two-order = refl

new_registry-IsWellFormed : IsWellFormed new_registry
unfolding new_registry
new_registry-IsWellFormed = record {
  known = tt;
  listed = λ name h. absurd (h (unfold Dict.lookup in refl));
  falling = tt;
}

register-IsWellFormed_example : IsWellFormed two
register-IsWellFormed_example =
    register-IsWellFormed (provider "openai" 100) strict
      (register (provider "mock" 10) strict new_registry)
      (register-IsWellFormed (provider "mock" 10) strict new_registry new_registry-IsWellFormed)

get_provider_chain_for_task_lem_example :
    (extra : List ProviderModel) × (get_provider_chain_for_task "summarize" two
      ≡ own_chain (Dict.lookup "summarize" two.task_config) ++ extra)
    × All (IsFallback (own_chain (Dict.lookup "summarize" two.task_config))) extra
    × AreDistinct (providers_of extra)
    × IsSublist (providers_of extra) two.order
    × ((name : String)
        → In name two.order
        → In name (providers_of (get_provider_chain_for_task "summarize" two)))
get_provider_chain_for_task_lem_example = get_provider_chain_for_task_lem "summarize" two

-- Every provider is asked at moment 5; all but the mock fail at moment 6.
abbrev env : Env String String
env i name = record {
  checked = 5;
  returned = 6;
  answer = λ model. if str_eq name "mock" then value "summary" else error "timeout";
}

abbrev all_down : Env String String
all_down i name = record { checked = 5; returned = 6; answer = λ model. error "timeout" }

abbrev model : String → String → ProviderModel
model name m = record { provider = name; model = m }

-- What stands before the mock in the chain of a summary.
abbrev before_mock : List ProviderModel
before_mock =
    model "google" "gemini-2.0-flash-lite"
    ∷ model "openai" "gpt-5-nano"
    ∷ model "openrouter" "openai/gpt-oss-120b"
    ∷ []

execute_with_task_fallback-returns_example : execute_with_task_fallback env "summarize" "" two ≡ (
  (attempts env "summarize" "" two 3
      (model "mock" "")
      (after (attempts env "summarize" "" two) 0 before_mock two)).0,
  returned "summary" (some ("openai", "mock")),
)
unfolding register new_registry Dict.lookup Dict.insert get_provider_chain_for_task
    get_provider_chain try_provider_exec get_circuit_breaker can_attempt new_circuit_breaker
    get_task_model_override record_success record_failure
execute_with_task_fallback-returns_example =
    execute_with_task_fallback-returns env "summarize" "" two before_mock [] (model "mock" "")
      "summary" refl (tt, (tt, (tt, tt))) refl

execute_with_task_fallback-gives_up_example :
    execute_with_task_fallback all_down "summarize" "" two ≡ (
      after
          (attempts all_down "summarize" "" two)
          0
          (get_provider_chain_for_task "summarize" two)
          two,
      gave_up (all_providers_failed "timeout"),
    )
unfolding register new_registry Dict.lookup Dict.insert get_provider_chain_for_task
    get_provider_chain try_provider_exec get_circuit_breaker can_attempt new_circuit_breaker
    get_task_model_override record_success record_failure
execute_with_task_fallback-gives_up_example =
    execute_with_task_fallback-gives_up all_down "summarize" "" two (tt, (tt, (tt, (tt, tt))))

execute_with_task_fallback_sound_example :
    Reached
      (attempts env "summarize" "" two)
      0
      (get_provider_chain_for_task "summarize" two)
      two
      "summary"
execute_with_task_fallback_sound_example =
    execute_with_task_fallback_sound env "summarize" "" two "summary" (some ("openai", "mock"))
      (ap (λ res. res.1) execute_with_task_fallback-returns_example)

execute_with_task_fallback-IsWellFormed_example :
    ((execute_with_task_fallback env "summarize" "" two).1 ≢ gave_up nil_breaker)
    × IsWellFormed (execute_with_task_fallback env "summarize" "" two).0
    × Keeps two (execute_with_task_fallback env "summarize" "" two).0
execute_with_task_fallback-IsWellFormed_example =
    execute_with_task_fallback-IsWellFormed env "summarize" "" two register-IsWellFormed_example

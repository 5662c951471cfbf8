-- ===== src/Registry.antt =====
-- The registry of LLM providers (internal/core/llm/registry.go, internal/core/llm/task_config.go): its
-- state, the registration of providers and the settings that override a task's model.
-- Names of providers, tasks and models are texts, as in the source. A provider of the model is what the
-- registry asks of it; its answers are the environment of a call (Registry/Fallback). Priorities
-- are the constants of the source, not negative. Logs, metrics and the locks are left out.
pub mod Config
pub mod Order
pub mod Chain
pub mod Fallback
pub mod Overrides
mod Tests
use telegram_digest_bot.Base.{
  ℕ, ◌+◌, Bool, Option, none, some, List, [], ◌∷◌, ◌++◌, String, ltb, if◌then◌else◌, str_eq,
}
use telegram_digest_bot.Base.Dict
use telegram_digest_bot.Circuit.{CircuitBreaker, CircuitBreakerConfig, new_circuit_breaker}

pub record Provider : Type 0 where
  pub name : String
  pub priority : ℕ
  pub is_available : Bool
  pub supports_image_generation : Bool

pub record ProviderModel : Type 0 where
  pub provider : String
  pub model : String

pub record TaskProviderChain : Type 0 where
  pub default : ProviderModel
  pub fallbacks : List ProviderModel

unfoldable pub get_provider_chain : TaskProviderChain → List ProviderModel
get_provider_chain tc = tc.default ∷ tc.fallbacks

pub record Registry : Type 0 where
  pub providers : List (String × Provider)
  pub order : List String
  pub circuit_breakers : List (String × CircuitBreaker)
  pub task_config : List (String × TaskProviderChain)
  pub model_overrides : List (String × String)

-- `r.providers[name].Priority()`, for a name that is registered.
abbrev pub priority_of : List (String × Provider) → String → ℕ
priority_of providers name = elim (Dict.lookup name providers) [ some p ↦ p.priority | none ↦ 0 ]

-- `sort.SliceStable` by falling priority: names of one priority keep their order.
unfoldable pub insert_by_priority : List (String × Provider) → String → List String → List String
insert_by_priority providers name [] = name ∷ []
insert_by_priority providers name (other ∷ names) =
    if ltb (priority_of providers name) (priority_of providers other)
    then other ∷ insert_by_priority providers name names
    else name ∷ other ∷ names

unfoldable pub sort_by_priority : List (String × Provider) → List String → List String
unfolding insert_by_priority
sort_by_priority providers [] = []
sort_by_priority providers (name ∷ names) =
    insert_by_priority providers name (sort_by_priority providers names)

unfoldable pub sort_providers_by_priority : Registry → Registry
unfolding sort_by_priority
sort_providers_by_priority r = record r { order = sort_by_priority r.providers r.order }

unfoldable pub register : Provider → CircuitBreakerConfig → Registry → Registry
unfolding sort_providers_by_priority
register p cfg r = sort_providers_by_priority (record r {
  providers = Dict.insert p.name p r.providers;
  order = r.order ++ p.name ∷ [];
  circuit_breakers = Dict.insert p.name (new_circuit_breaker cfg) r.circuit_breakers;
})

unfoldable pub get_circuit_breaker : String → Registry → Option CircuitBreaker
get_circuit_breaker name r = Dict.lookup name r.circuit_breakers

-- An empty model leaves the registry as it is.
unfoldable pub set_task_model_override : String → String → Registry → Registry
set_task_model_override task model r =
    if str_eq model ""
    then r
    else record r { model_overrides = Dict.insert task model r.model_overrides }

-- A missing entry reads as the empty text.
unfoldable pub get_task_model_override : String → Registry → String
get_task_model_override task r = elim (Dict.lookup task r.model_overrides) [
  | some model ↦ model
  | none ↦ ""
]

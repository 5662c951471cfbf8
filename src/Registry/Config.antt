-- ===== src/Registry/Config.antt =====
-- The chains of providers and models that the registry starts with (task_config.go), and the settings
-- that override a task's model.
use telegram_digest_bot.Base.{List, [], ◌∷◌, String, Option, none, some, str_eq, if◌then◌else◌}
use telegram_digest_bot.Base.Dict
use telegram_digest_bot.Registry.{
  ProviderModel, TaskProviderChain, Registry, set_task_model_override,
}

abbrev chain : String → String → List ProviderModel → TaskProviderChain
chain provider model fallbacks = record {
  default = record { provider = provider; model = model };
  fallbacks = fallbacks;
}

abbrev via : String → String → ProviderModel
via provider model = record { provider = provider; model = model }

abbrev pub default_task_config : List (String × TaskProviderChain)
default_task_config =
    (
      "summarize",
      chain "google" "gemini-2.0-flash-lite"
          (via "openai" "gpt-5-nano" ∷ via "openrouter" "openai/gpt-oss-120b" ∷ []),
    )
    ∷ (
      "cluster_summary",
      chain "cohere" "command-r-08-2024"
          (via "openai" "gpt-5" ∷ via "google" "gemini-2.0-flash-lite" ∷ []),
    )
    ∷ (
      "cluster_topic",
      chain "openai" "gpt-5-nano" (
          via "google" "gemini-2.0-flash-lite"
          ∷ via "openrouter" "mistralai/mistral-small-2603"
          ∷ []),
    )
    ∷ (
      "narrative",
      chain "google" "gemini-2.0-flash-lite"
          (via "anthropic" "claude-haiku-4.5" ∷ via "openai" "gpt-5.2" ∷ []),
    )
    ∷ (
      "translate",
      chain "openrouter" "meta-llama/llama-3.1-8b-instruct" (via "openai" "gpt-5-nano" ∷ []),
    )
    ∷ (
      "complete",
      chain "openrouter" "meta-llama/llama-3.1-8b-instruct" (via "openai" "gpt-4o-mini" ∷ []),
    )
    ∷ (
      "relevance_gate",
      chain "openrouter" "meta-llama/llama-3.1-8b-instruct" (via "openai" "gpt-5-nano" ∷ []),
    )
    ∷ ("compress", chain "openai" "gpt-4o-mini" (via "openrouter" "openai/gpt-oss-120b" ∷ []))
    ∷ ("image_gen", chain "openai" "gpt-image-1.5" [])
    ∷ (
      "bullet_extract",
      chain "google" "gemini-2.0-flash-lite"
          (via "openai" "gpt-5-nano" ∷ via "openrouter" "meta-llama/llama-3.1-8b-instruct" ∷ []),
    )
    ∷ []

unfoldable pub new_registry : Registry
new_registry = record {
  providers = [];
  order = [];
  circuit_breakers = [];
  task_config = default_task_config;
  model_overrides = [];
}

-- `DBSettingToTaskType`
abbrev pub db_setting_to_task_type : List (String × String)
db_setting_to_task_type =
    ("llm_override_summarize", "summarize")
    ∷ ("llm_override_cluster", "cluster_summary")
    ∷ ("llm_override_narrative", "narrative")
    ∷ ("llm_override_topic", "cluster_topic")
    ∷ []

-- `reader.GetSetting(ctx, key, &model)`: `none` is an error; a key that is not stored leaves "".
abbrev pub SettingsReader : Type 0
SettingsReader = String → Option String

-- The loop of `LoadOverridesFromDB`, over the entries of `DBSettingToTaskType` in any order.
unfoldable pub load_overrides : SettingsReader → List (String × String) → Registry → Registry
load_overrides reader [] r = r
load_overrides reader ((key, task) ∷ entries) r =
    load_overrides reader entries
      (elim (reader key) [ some model ↦ set_task_model_override task model r | none ↦ r ])

unfoldable pub refresh_override : SettingsReader → String → Registry → Registry
refresh_override reader key r = elim (Dict.lookup key db_setting_to_task_type) [
  | none ↦ r
  | some task ↦ elim (reader key) [
    | none ↦ r
    | some model ↦
        if str_eq model ""
        then record r { model_overrides = Dict.delete task r.model_overrides }
        else set_task_model_override task model r
  ]
]

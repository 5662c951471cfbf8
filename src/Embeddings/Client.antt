-- ===== src/Embeddings/Client.antt =====
-- The construction of the registry (internal/core/embeddings/client.go) with the providers of openai.go,
-- cohere.go, google.go and mock.go, of which the registry needs the name, priority and dimensions.
-- The functions of Go on texts are parameters, and so is whether the client of Google can be created.
pub mod Sorting
pub mod Registering
pub mod Order
use telegram_digest_bot.Base.{
  ℕ, zero, suc, Bool, true, false, not, ◌&&◌, List, [], ◌∷◌, String, length, ◌==◌, if◌then◌else◌,
  str_eq,
}
use telegram_digest_bot.Circuit.{CircuitBreakerConfig}
use telegram_digest_bot.Embeddings.{Provider, Registry, new_registry, register, provider_count}

pub record Config : Type 0 where
  pub openai_api_key : String
  pub openai_dimensions : ℕ
  pub cohere_api_key : String
  pub google_api_key : String
  pub provider_order : String
  pub circuit_breaker_config : CircuitBreakerConfig
  pub target_dimensions : ℕ

abbrev pub default_dimensions : ℕ
default_dimensions = 1536

abbrev pub new_openai_provider : Config → Provider
new_openai_provider cfg = record {
  name = "openai";
  is_available = not (str_eq cfg.openai_api_key "") && not (str_eq cfg.openai_api_key "mock");
  priority = 100;
  dimensions = if cfg.openai_dimensions == 0 then default_dimensions else cfg.openai_dimensions;
}

abbrev pub new_cohere_provider : Config → Provider
new_cohere_provider cfg = record {
  name = "cohere";
  is_available = not (str_eq cfg.cohere_api_key "");
  priority = 50;
  dimensions = 1024;
}

-- For a key that is not empty and a client that could be created.
abbrev pub new_google_provider : Provider
new_google_provider = record {
  name = "google";
  is_available = true;
  priority = 25;
  dimensions = 3072;
}

abbrev pub new_mock_provider : Provider
new_mock_provider = record {
  name = "mock";
  is_available = true;
  priority = 0;
  dimensions = default_dimensions;
}

abbrev pub has_openai : Config → Bool
has_openai cfg = not (str_eq cfg.openai_api_key "") && not (str_eq cfg.openai_api_key "mock")

abbrev pub has_cohere : Config → Bool
has_cohere cfg = not (str_eq cfg.cohere_api_key "")

unfoldable pub register_openai : Config → Registry → Registry
register_openai cfg r =
    if has_openai cfg then register (new_openai_provider cfg) cfg.circuit_breaker_config r else r

unfoldable pub register_cohere : Config → Registry → Registry
register_cohere cfg r =
    if has_cohere cfg then register (new_cohere_provider cfg) cfg.circuit_breaker_config r else r

module _ (google_works : Bool) where
  abbrev pub has_google : Config → Bool
  has_google cfg = not (str_eq cfg.google_api_key "") && google_works

  unfoldable pub register_google : Config → Registry → Registry
  register_google cfg r =
      if has_google cfg then register new_google_provider cfg.circuit_breaker_config r else r

  -- The `switch` of `NewClient`.
  unfoldable pub register_provider : Config → String → Registry → Registry
  register_provider cfg provider r =
      if str_eq provider "openai"
      then register_openai cfg r
      else if str_eq provider "cohere"
      then register_cohere cfg r
      else if str_eq provider "google"
      then register_google cfg r
      else r

  unfoldable pub register_providers : Config → List String → Registry → Registry
  register_providers cfg [] r = r
  register_providers cfg (provider ∷ names) r =
      register_providers cfg names (register_provider cfg provider r)

module _ (split_commas : String → List String) (trim_space : String → String)
    (to_lower : String → String) where
  abbrev pub parse_parts : List String → List String
  parse_parts [] = []
  parse_parts (p ∷ parts) =
      let trimmed = trim_space p in
      let rest = parse_parts parts in if str_eq trimmed "" then rest else to_lower trimmed ∷ rest

  unfoldable pub parse_provider_order : String → List String
  parse_provider_order order =
      if str_eq order ""
      then "openai" ∷ "cohere" ∷ "google" ∷ []
      else parse_parts (split_commas order)

  module _ (google_works : Bool) where
    unfoldable pub registered : Config → Registry
    registered cfg = register_providers google_works cfg (parse_provider_order cfg.provider_order) (
        new_registry
          (if cfg.target_dimensions == 0 then default_dimensions else cfg.target_dimensions))

    unfoldable pub new_client : Config → Registry
    new_client cfg =
        if provider_count (registered cfg) == 0
        then register new_mock_provider cfg.circuit_breaker_config (registered cfg)
        else registered cfg

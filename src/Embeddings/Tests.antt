-- ===== src/Embeddings/Tests.antt =====
-- Two providers, of which the first fails on every call and the second answers with three numbers.
use telegram_digest_bot.Base.{
  ℕ, ◌≡◌, refl, true, false, [], ◌∷◌, String, inl, inr, if◌then◌else◌, str_eq,
}
use telegram_digest_bot.Base.Dict
use telegram_digest_bot.Circuit.{
  CircuitBreakerConfig, new_circuit_breaker, can_attempt, record_success, record_failure,
}
use telegram_digest_bot.Embeddings.{
  Provider, Registry, new_registry, register, sort_providers_by_priority, get_active_providers,
  pad_to_target_dimensions, Env, try_provider, embed_loop, get_embedding, metadata_loop,
  get_embedding_with_metadata, no_providers_available, all_providers_failed, circuit_breaker_open,
}
use telegram_digest_bot.Embeddings.Client.{Config, new_client, parse_provider_order}
use telegram_digest_bot.Embeddings.Client.Order.{new_client-order}
use telegram_digest_bot.Embeddings.Agreement.{Agrees, get_embedding_lem}

abbrev config : CircuitBreakerConfig
config = record { threshold = 1; reset_after = 60 }

abbrev openai : Provider
openai = record { name = "openai"; is_available = true; priority = 100; dimensions = 2 }

abbrev cohere : Provider
cohere = record { name = "cohere"; is_available = true; priority = 50; dimensions = 3 }

abbrev both : Registry
both = register openai config (register cohere config (new_registry 2))

-- At the moment `now`.
abbrev replies : ℕ → Env ℕ String
replies now i name = record {
  checked = now;
  returned = now;
  answer =
      if str_eq name "openai"
      then inl "quota"
      else inr (record { vector = 1 ∷ 2 ∷ 3 ∷ []; dimensions = 3; provider = "cohere" });
}

-- The vector of the second provider is cut to two numbers.
falls_back : (get_embedding 0 (λ text. str_eq text "") (replies 1) "text" both).1 ≡ inr (1 ∷ 2 ∷ [])
unfolding get_embedding get_active_providers embed_loop try_provider pad_to_target_dimensions
    register new_registry sort_providers_by_priority Dict.lookup Dict.insert can_attempt
    new_circuit_breaker record_success record_failure
falls_back = refl

-- When the breaker of the only provider is open, the two methods report different errors.
open_breaker :
    let failing =
      (get_embedding 0
        (λ text. false)
        (replies 1)
        "text"
        (register openai config (new_registry 2))).0 in
    ((get_embedding 0 (λ text. false) (replies 2) "text" failing).1
      ≡ inl (all_providers_failed circuit_breaker_open))
    × ((get_embedding_with_metadata 0 (λ text. false) (replies 2) "text" failing).1
        ≡ inl no_providers_available)
unfolding get_embedding get_active_providers embed_loop try_provider pad_to_target_dimensions
    register new_registry sort_providers_by_priority Dict.lookup Dict.insert can_attempt
    new_circuit_breaker record_success record_failure get_embedding_with_metadata metadata_loop
open_breaker = (refl, refl)

get_embedding_lem_example :
    Agrees 0
      (λ text. str_eq text "")
      (replies 1)
      both.target_dimension
      (get_embedding 0 (λ text. str_eq text "") (replies 1) "text" both)
      (get_embedding_with_metadata 0 (λ text. str_eq text "") (replies 1) "text" both)
get_embedding_lem_example = get_embedding_lem 0 (λ text. str_eq text "") (replies 1) "text" both

-- A client whose order asks for Google, then OpenAI.
abbrev google_first : Config
google_first = record {
  openai_api_key = "key";
  openai_dimensions = 0;
  cohere_api_key = "";
  google_api_key = "key";
  provider_order = "google,openai";
  circuit_breaker_config = config;
  target_dimensions = 0;
}

new_client-order_example :
    (new_client (λ s. "google" ∷ "openai" ∷ []) (λ s. s) (λ s. s) true google_first).order
    ≡ "openai" ∷ "google" ∷ []
unfolding parse_provider_order
new_client-order_example =
    new_client-order (λ s. "google" ∷ "openai" ∷ []) (λ s. s) (λ s. s) true google_first

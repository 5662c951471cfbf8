-- ===== src/Embeddings/Client/Order.antt =====
-- The order of the providers of a new client.
use telegram_digest_bot.Base.{
  ℕ, ◌+◌, ◌≡◌, refl, ap, ◌∙◌, Bool, List, [], ◌∷◌, ◌++◌, String, inl, inr, ◌==◌, if◌then◌else◌,
  Bool-cases, arith,
}
use telegram_digest_bot.Base.Dict
use telegram_digest_bot.Base.Dict.{lookup-insert, lookup-insert_self}
use telegram_digest_bot.Circuit.{CircuitBreakerConfig}
use telegram_digest_bot.Embeddings.{
  provider_count, Registry, new_registry, register, insert_by_priority, sort_providers_by_priority,
}
use telegram_digest_bot.Embeddings.Client.Sorting.{by_priority, HasProviders}
use telegram_digest_bot.Embeddings.Client.{
  Config, has_openai, has_cohere, has_google, register_provider, register_providers,
  parse_provider_order, registered, new_client, default_dimensions, new_mock_provider,
}
use telegram_digest_bot.Embeddings.Client.Registering.{
  registrations, registration, HasProviders-at, register_provider-HasProviders,
}

module _ (cfg : Config) (works : Bool) where
  register_providers-HasProviders :
      (names : List String) (r : Registry) (a b c : ℕ)
      → HasProviders r a b c
      → HasProviders
          (register_providers works cfg names r)
          (a + registrations (has_openai cfg) "openai" names)
          (b + registrations (has_cohere cfg) "cohere" names)
          (c + registrations (has_google works cfg) "google" names)
  unfolding register_providers
  register_providers-HasProviders [] r a b c h =
      HasProviders-at r a b c _ _ _ (ground arith) (ground arith) (ground arith) h
  register_providers-HasProviders (provider ∷ names) r a b c h =
      HasProviders-at (register_providers works cfg names (register_provider works cfg provider r))
        _ _ _ _ _ _ (added a (has_openai cfg) "openai") (added b (has_cohere cfg) "cohere")
        (added c (has_google works cfg) "google")
        (register_providers-HasProviders names (register_provider works cfg provider r) _ _ _
          (register_provider-HasProviders cfg r a b c h works provider))
    where
      added :
          (n : ℕ) (has : Bool) (name : String)
          → n + registration has name provider + registrations has name names
            ≡ n + registrations has name (provider ∷ names)
      added n has name = ground arith

registered-HasProviders :
    (split_commas : String → List String) (trim_space to_lower : String → String) (works : Bool)
    (cfg : Config)
    → let names = parse_provider_order split_commas trim_space to_lower cfg.provider_order in
      HasProviders
        (registered split_commas trim_space to_lower works cfg)
        (registrations (has_openai cfg) "openai" names)
        (registrations (has_cohere cfg) "cohere" names)
        (registrations (has_google works cfg) "google" names)
unfolding registered new_registry
registered-HasProviders split_commas trim_space to_lower works cfg =
    HasProviders-at (registered split_commas trim_space to_lower works cfg) _ _ _ _ _ _
      (omega arith) (omega arith) (omega arith)
      (register_providers-HasProviders cfg works
        (parse_provider_order split_commas trim_space to_lower cfg.provider_order)
        (new_registry
          (if cfg.target_dimensions == 0 then default_dimensions else cfg.target_dimensions))
        0 0 0
        (
          refl,
          (
            λ le. absurd (omega (arith, le)),
            λ le. absurd (omega (arith, le)),
            λ le. absurd (omega (arith, le)),
          ),
          refl,
        ))

with_mock-order :
    (cfg : CircuitBreakerConfig) (r : Registry) (a b c : ℕ)
    → HasProviders r a b c
    → (if provider_count r == 0 then register new_mock_provider cfg r else r).order
      ≡ (if a + b + c == 0 then "mock" ∷ [] else by_priority a b c)
unfolding register sort_providers_by_priority insert_by_priority
with_mock-order cfg r a b c h = elim (Bool-cases (a + b + c == 0)) [
  | inr some_left ↦ rw (h.2 ∙ some_left, some_left) h.0
  | inl none_left ↦
      let ea : a ≡ 0 = ground (arith, none_left) in
      let eb : b ≡ 0 = ground (arith, none_left) in
      let ec : c ≡ 0 = ground (arith, none_left) in
      let is_nil : r.order ≡ [] =
        h.0
        ∙ ap (λ n. by_priority n b c) ea
        ∙ ap (λ n. by_priority 0 n c) eb
        ∙ ap (λ n. by_priority 0 0 n) ec in
      let providers = Dict.insert "mock" new_mock_provider r.providers in
      rw (h.2 ∙ none_left, none_left)
        (ap (λ l. sort_providers_by_priority providers (l ++ "mock" ∷ [])) is_nil)
]

-- The providers of a new client are tried in the order of their fixed priorities, whatever the order that
-- is configured: each as often as it is named there, if it has its key, or the mock alone if there are none.
pub new_client-order :
    (split_commas : String → List String) (trim_space to_lower : String → String) (works : Bool)
    (cfg : Config)
    → let names = parse_provider_order split_commas trim_space to_lower cfg.provider_order in
      let a = registrations (has_openai cfg) "openai" names in
      let b = registrations (has_cohere cfg) "cohere" names in
      let c = registrations (has_google works cfg) "google" names in
      (new_client split_commas trim_space to_lower works cfg).order
      ≡ (if a + b + c == 0 then "mock" ∷ [] else by_priority a b c)
unfolding new_client
new_client-order split_commas trim_space to_lower works cfg =
    with_mock-order cfg.circuit_breaker_config
      (registered split_commas trim_space to_lower works cfg) _ _ _
      (registered-HasProviders split_commas trim_space to_lower works cfg)

-- ===== src/Embeddings/Client/Registering.antt =====
-- The registration of the provider of one name.
use telegram_digest_bot.Base.{
  ℕ, ◌+◌, ◌≡◌, refl, sym, ◌∙◌, subst, Bool, true, false, ◌&&◌, List, String, inl, inr,
  if◌then◌else◌, str_eq, eq_iff, Bool-cases, arith,
}
use telegram_digest_bot.Embeddings.{Registry, register}
use telegram_digest_bot.Embeddings.Client.Sorting.{
  occurrences, HasProviders, priority_of-insert, register-HasProviders,
}
use telegram_digest_bot.Embeddings.Client.{
  Config, has_openai, has_cohere, has_google, register_openai, register_cohere, register_google,
  register_provider, new_openai_provider, new_cohere_provider, new_google_provider,
}

-- How often a provider that has its key is registered for some names.
abbrev pub registrations : Bool → String → List String → ℕ
registrations has name names = if has then occurrences name names else 0

-- The same for one name.
abbrev pub registration : Bool → String → String → ℕ
registration has name other = if str_eq other name && has then 1 else 0

pub HasProviders-at :
    (r : Registry) (a b c a' b' c' : ℕ)
    → a ≡ a'
    → b ≡ b'
    → c ≡ c'
    → HasProviders r a b c
    → HasProviders r a' b' c'
HasProviders-at r a b c a' b' c' ea eb ec h =
    subst (λ n. HasProviders r n b' c') ea
      (subst (λ n. HasProviders r a n c') eb (subst (λ n. HasProviders r a b n) ec h))

module _ (cfg : Config) (r : Registry) (a b c : ℕ) (h : HasProviders r a b c) where
  unchanged : HasProviders r (a + 0) (b + 0) (c + 0)
  unchanged =
      HasProviders-at r a b c (a + 0) (b + 0) (c + 0) (omega arith) (omega arith) (omega arith) h

  register_openai-HasProviders :
      HasProviders
        (register_openai cfg r)
        (a + registration (has_openai cfg) "openai" "openai")
        (b + 0)
        (c + 0)
  unfolding register_openai
  register_openai-HasProviders = go (has_openai cfg)
    where
      go :
          (has : Bool)
          → HasProviders
              (if has then register (new_openai_provider cfg) cfg.circuit_breaker_config r else r)
              (a + (if has then 1 else 0))
              (b + 0)
              (c + 0)
      go false = unchanged
      go true =
          register-HasProviders cfg.circuit_breaker_config r a b c h (new_openai_provider cfg) 1 0 0
            (
              λ le. priority_of-insert "openai" "openai" (new_openai_provider cfg) r.providers,
              λ le.
                  priority_of-insert "openai" "cohere" (new_openai_provider cfg) r.providers
                  ∙ h.1.1 (omega (arith, le)),
              λ le.
                  priority_of-insert "openai" "google" (new_openai_provider cfg) r.providers
                  ∙ h.1.2 (omega (arith, le)),
            )
            refl (omega arith)

  register_cohere-HasProviders :
      HasProviders
        (register_cohere cfg r)
        (a + 0)
        (b + registration (has_cohere cfg) "cohere" "cohere")
        (c + 0)
  unfolding register_cohere
  register_cohere-HasProviders = go (has_cohere cfg)
    where
      go :
          (has : Bool)
          → HasProviders
              (if has then register (new_cohere_provider cfg) cfg.circuit_breaker_config r else r)
              (a + 0)
              (b + (if has then 1 else 0))
              (c + 0)
      go false = unchanged
      go true =
          register-HasProviders cfg.circuit_breaker_config r a b c h (new_cohere_provider cfg) 0 1 0
            (
              λ le.
                  priority_of-insert "cohere" "openai" (new_cohere_provider cfg) r.providers
                  ∙ h.1.0 (omega (arith, le)),
              λ le. priority_of-insert "cohere" "cohere" (new_cohere_provider cfg) r.providers,
              λ le.
                  priority_of-insert "cohere" "google" (new_cohere_provider cfg) r.providers
                  ∙ h.1.2 (omega (arith, le)),
            )
            refl (omega arith)

  register_google-HasProviders :
      (works : Bool)
      → HasProviders
          (register_google works cfg r)
          (a + 0)
          (b + 0)
          (c + registration (has_google works cfg) "google" "google")
  unfolding register_google
  register_google-HasProviders works = go (has_google works cfg)
    where
      go :
          (has : Bool)
          → HasProviders
              (if has then register new_google_provider cfg.circuit_breaker_config r else r)
              (a + 0)
              (b + 0)
              (c + (if has then 1 else 0))
      go false = unchanged
      go true =
          register-HasProviders cfg.circuit_breaker_config r a b c h new_google_provider 0 0 1
            (
              λ le.
                  priority_of-insert "google" "openai" new_google_provider r.providers
                  ∙ h.1.0 (omega (arith, le)),
              λ le.
                  priority_of-insert "google" "cohere" new_google_provider r.providers
                  ∙ h.1.1 (omega (arith, le)),
              λ le. priority_of-insert "google" "google" new_google_provider r.providers,
            )
            refl (omega arith)

  -- One name of the configured order.
  pub register_provider-HasProviders :
      (works : Bool) (provider : String)
      → HasProviders
          (register_provider works cfg provider r)
          (a + registration (has_openai cfg) "openai" provider)
          (b + registration (has_cohere cfg) "cohere" provider)
          (c + registration (has_google works cfg) "google" provider)
  unfolding register_provider
  register_provider-HasProviders works provider = elim (Bool-cases (str_eq provider "openai")) [
    | inl is_openai ↦
        subst IsRegistered (sym ((eq_iff provider "openai").0 is_openai))
          register_openai-HasProviders
    | inr not_openai ↦ elim (Bool-cases (str_eq provider "cohere")) [
      | inl is_cohere ↦
          subst IsRegistered (sym ((eq_iff provider "cohere").0 is_cohere))
            register_cohere-HasProviders
      | inr not_cohere ↦ elim (Bool-cases (str_eq provider "google")) [
        | inl is_google ↦
            subst IsRegistered (sym ((eq_iff provider "google").0 is_google))
              (register_google-HasProviders works)
        | inr not_google ↦ rw (not_openai, not_cohere, not_google) unchanged
      ]
    ]
  ]
    where
      IsRegistered : String → Type 0
      IsRegistered p =
          HasProviders (register_provider works cfg p r)
            (a + registration (has_openai cfg) "openai" p)
            (b + registration (has_cohere cfg) "cohere" p)
            (c + registration (has_google works cfg) "google" p)

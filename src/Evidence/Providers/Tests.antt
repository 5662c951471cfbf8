-- ===== src/Evidence/Providers/Tests.antt =====
-- A search over two providers, one of which fails.
use telegram_digest_bot.Base.{
  ℕ, ◌≡◌, refl, true, List, [], ◌∷◌, ◌++◌, map, String, none, some, In, here, there,
}
use telegram_digest_bot.Base.Dict
use telegram_digest_bot.Base.Int.{pos}
use telegram_digest_bot.Evidence.Select.{
  FanOutResult, Event, received, channel_closed, found, select_best_result,
}
use telegram_digest_bot.Evidence.Breaker.{can_attempt, new_circuit_breaker}
use telegram_digest_bot.Evidence.Providers.{
  Found, results, failure, Provider, ProviderRegistry, new_provider_registry, register,
  search_with_fallback,
}
use telegram_digest_bot.Evidence.Providers.Search.{IsAnswer, search_with_fallback_sound}

abbrev provider : String → ℕ → Found ℕ String → Provider ℕ String
provider name priority answer = record {
  name = name;
  priority = priority;
  is_available = true;
  search = answer;
  search_with_language = none;
}

abbrev two : ProviderRegistry ℕ String
unfolding register new_provider_registry
two =
    register (provider "gdelt" 90 (failure "timeout"))
      (register (provider "newsapi" 60 (results (7 ∷ []))) (new_provider_registry (pos 600)))

abbrev in_order : List (FanOutResult ℕ String) → List (Event ℕ String)
in_order sent = map received sent ++ channel_closed ∷ []

abbrev plain : String → String → String
plain name e = e

two-answers :
    (search_with_fallback plain (λ _. 0) (λ _. 1) in_order two).1 ≡ some (found (7 ∷ []) "newsapi")
unfolding search_with_fallback two Dict.insert Dict.lookup can_attempt new_circuit_breaker
    select_best_result
two-answers = refl

received_was_sent :
    (sent : List (FanOutResult ℕ String)) (res : FanOutResult ℕ String)
    → In (received res) (in_order sent)
    → In res sent
received_was_sent [] res (here e) = absurd cc
received_was_sent [] res (there m) = elim m [ ]
received_was_sent (x ∷ sent) res (here e) = here cc
received_was_sent (x ∷ sent) res (there m) = there (received_was_sent sent res m)

search_with_fallback_sound_example : IsAnswer plain two.providers (7 ∷ []) "newsapi"
search_with_fallback_sound_example =
    search_with_fallback_sound plain (λ _. 0) (λ _. 1) in_order two (7 ∷ []) "newsapi"
      received_was_sent two-answers

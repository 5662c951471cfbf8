-- ===== src/Evidence/Select/Tests.antt =====
-- The selection at concrete interleavings.
use telegram_digest_bot.Base.{
  ℕ, ◌≡◌, refl, ◌≢◌, List, [], ◌∷◌, String, Option, none, some, All, In, here, there,
}
use telegram_digest_bot.Evidence.Select.{
  FanOutResult, Event, received, channel_closed, grace_over, found, select_best_result,
}
use telegram_digest_bot.Evidence.Select.Best.{IsUseful, IsBelow, best_of-maximal}
use telegram_digest_bot.Evidence.Select.Ends.{
  Decides, select_best_result_sound, select_best_result_ends,
}

abbrev reply : String → ℕ → List ℕ → Option String → Event ℕ String
reply name priority results err =
    received (record { results = results; name = name; err = err; priority = priority })

-- An error, an empty answer, two answers, and the end.
abbrev four : List (Event ℕ String)
four =
    reply "gdelt" 90 [] (some "timeout")
    ∷ reply "searxng" 80 [] none
    ∷ reply "newsapi" 60 (1 ∷ []) none
    ∷ reply "eventregistry" 70 (2 ∷ []) none
    ∷ channel_closed
    ∷ []

four-found : select_best_result 0 four ≡ some (found (2 ∷ []) "eventregistry")
unfolding select_best_result
four-found = refl

-- With a grace period the loop may end before the better answer comes.
four-hasty :
    select_best_result 5
      (reply "newsapi" 60 (1 ∷ []) none ∷ grace_over ∷ reply "eventregistry" 70 (2 ∷ []) none ∷ [])
    ≡ some (found (1 ∷ []) "newsapi")
unfolding select_best_result
four-hasty = refl

select_best_result_sound_example : Decides four (found (2 ∷ []) "eventregistry")
select_best_result_sound_example =
    select_best_result_sound 0 four (found (2 ∷ []) "eventregistry") four-found

select_best_result_ends_example : select_best_result 0 four ≢ none
select_best_result_ends_example =
    select_best_result_ends 0 four (there (there (there (there (here refl)))))

abbrev winner : FanOutResult ℕ String
winner = record { results = 2 ∷ []; name = "eventregistry"; err = none; priority = 70 }

best_of-maximal_example : In (received winner) four × IsUseful winner × All (IsBelow winner) four
best_of-maximal_example = best_of-maximal four winner refl

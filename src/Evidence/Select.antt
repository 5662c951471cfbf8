-- ===== src/Evidence/Select.antt =====
-- `selectBestResult` of internal/process/enrichment/providers.go: the loop that waits for the answers of
-- all providers at once. The events that its `select` may meet come in a list, in the order in which it
-- meets them; the list stands for one interleaving of the providers, the grace timer and the context.
pub mod Best
pub mod Ends
mod Tests
use telegram_digest_bot.Base.{
  ℕ, Bool, true, false, ◌&&◌, not, List, [], ◌∷◌, String, Option, none, some, ltb, leb,
  if◌then◌else◌,
}

-- What a provider's goroutine sends. `A` is a search result, `E` an error.
pub record FanOutResult (A E : Type 0) : Type 0 where
  pub results : List A
  pub name : String
  pub err : Option E
  pub priority : ℕ

pub data Event (A E : Type 0) : Type 0 where
  grace_over : Event A E
  cancelled : E → Event A E
  received : FanOutResult A E → Event A E
  channel_closed : Event A E

pub data Selection (A E : Type 0) : Type 0 where
  found : List A → String → Selection A E
  search_failed : E → Selection A E
  context_cancelled : E → Selection A E
  no_providers_available : Selection A E

-- The variables of the loop. `best` is `none` while `bestResults` is nil, and then `bestPriority` is -1.
pub record State (A E : Type 0) : Type 0 where
  pub best : Option (FanOutResult A E)
  pub last_err : Option E
  pub timer_made : Bool
  pub timer_set : Bool

abbrev pub priority_high_self_hosted : ℕ
priority_high_self_hosted = 100

abbrev pub is_empty : {A : Type 0} → List A → Bool
is_empty [] = true
is_empty (x ∷ xs) = false

module _ {A E : Type 0} where
  abbrev pub start : State A E
  start = record { best = none; last_err = none; timer_made = false; timer_set = false }

  -- `len(res.results) > 0 && res.priority > bestPriority`
  abbrev pub better : FanOutResult A E → Option (FanOutResult A E) → Bool
  better res none = not (is_empty res.results)
  better res (some best) = not (is_empty res.results) && ltb best.priority res.priority

  -- `handleChanClosed`
  unfoldable pub handle_chan_closed : State A E → Selection A E
  handle_chan_closed s = elim s.best [
    | some best ↦ found best.results best.name
    | none ↦ elim s.last_err [ some e ↦ search_failed e | none ↦ no_providers_available ]
  ]

  -- A better result is taken over; the timer is made once, if there is a grace period.
  abbrev pub take_over : ℕ → FanOutResult A E → State A E → State A E
  take_over grace res s =
      if s.timer_made
      then record s { best = some res }
      else if ltb 0 grace
      then record s { best = some res; timer_made = true; timer_set = true }
      else record s { best = some res; timer_set = false }

  -- One round of the loop: the state of the next, or what the loop returns.
  unfoldable pub on_result : ℕ → FanOutResult A E → State A E → State A E × Option (Selection A E)
  on_result grace res s = elim res.err [
    | some e ↦ (record s { last_err = some e }, none)
    | none ↦
        if better res s.best
        then (if leb priority_high_self_hosted res.priority
            then (record s { best = some res }, some (found res.results res.name))
            else (take_over grace res s, none))
        else (s, none)
  ]

  abbrev pub on_best :
      State A E → State A E → Option (Selection A E) → State A E × Option (Selection A E)
  on_best s next otherwise = elim s.best [
    | some best ↦ (s, some (found best.results best.name))
    | none ↦ (next, otherwise)
  ]

  -- A nil timer channel is never ready.
  unfoldable pub step : ℕ → Event A E → State A E → State A E × Option (Selection A E)
  unfolding on_result handle_chan_closed
  step grace grace_over s =
      if s.timer_set then on_best s (record s { timer_set = false }) none else (s, none)
  step grace (cancelled e) s = on_best s s (some (context_cancelled e))
  step grace (received res) s = on_result grace res s
  step grace channel_closed s = (s, some (handle_chan_closed s))

  -- `none` means that the loop still waits.
  unfoldable pub select_from : ℕ → List (Event A E) → State A E → Option (Selection A E)
  unfolding step
  select_from grace [] s = none
  select_from grace (e ∷ es) s =
      let (s', done) = step grace e s in
      elim done [ some selection ↦ some selection | none ↦ select_from grace es s' ]

  unfoldable pub select_best_result : ℕ → List (Event A E) → Option (Selection A E)
  unfolding select_from
  select_best_result grace es = select_from grace es start

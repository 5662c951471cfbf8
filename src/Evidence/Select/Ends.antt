-- ===== src/Evidence/Select/Ends.antt =====
-- What `selectBestResult` of providers.go returns, whatever the interleaving.
use telegram_digest_bot.Base.{
  ℕ, ◌≡◌, refl, ◌≢◌, sym, ap, subst, subst₂, ◌∙◌, List, [], ◌∷◌, ◌++◌, String, Option, none, some,
  Option-cases, inl, inr, In, here, there, arith, append_assoc,
}
use telegram_digest_bot.Evidence.Select.{
  FanOutResult, Event, grace_over, cancelled, received, channel_closed, Selection, found,
  search_failed, context_cancelled, no_providers_available, State, start, step, select_from,
  select_best_result,
}
use telegram_digest_bot.Evidence.Select.Best.{
  best_from, best_of, best_from-append, last_err_from, last_err_from-append,
}

module _ {A E : Type 0} where
  -- What the caller sees of a result.
  abbrev pub shown : Option (FanOutResult A E) → Option (List A × String)
  shown none = none
  shown (some res) = some (res.results, res.name)

  -- What the loop may return when the best result and the last error are the given ones.
  abbrev pub Accounts : Option (FanOutResult A E) → Option E → Selection A E → Type 0
  Accounts best last (found results name) = shown best ≡ some (results, name)
  Accounts best last (search_failed e) = (best ≡ none) × (last ≡ some e)
  Accounts best last (context_cancelled e) = best ≡ none
  Accounts best last no_providers_available = (best ≡ none) × (last ≡ none)

  abbrev pub Explains : List (Event A E) → Selection A E → Type 0
  Explains es = Accounts (best_of es) (last_err_from none es)

  step_waits :
      (grace : ℕ) (e : Event A E) (s : State A E)
      → (step grace e s).1 ≡ none
      → ((step grace e s).0.best ≡ best_from s.best (e ∷ []))
        × ((step grace e s).0.last_err ≡ last_err_from s.last_err (e ∷ []))
  unfolding step
  step_waits grace grace_over s wait = (ground arith, ground arith)
  step_waits grace (cancelled e) s wait = (ground arith, ground arith)
  step_waits grace (received res) s wait = (ground arith, ground arith)
  step_waits grace channel_closed s wait = (ground arith, ground arith)

  step_ends :
      (grace : ℕ) (e : Event A E) (s : State A E) (selection : Selection A E)
      → (step grace e s).1 ≡ some selection
      → Accounts (best_from s.best (e ∷ [])) (last_err_from s.last_err (e ∷ [])) selection
  unfolding step
  step_ends grace grace_over s (found results name) ended = ground arith
  step_ends grace (cancelled e) s (found results name) ended = ground arith
  step_ends grace (received res) s (found results name) ended = ground arith
  step_ends grace channel_closed s (found results name) ended = ground arith
  step_ends grace grace_over s _ ended = ground arith
  step_ends grace (cancelled e) s _ ended = ground arith
  step_ends grace (received res) s _ ended = ground arith
  step_ends grace channel_closed s _ ended = ground arith

  select_waits :
      (grace : ℕ) (e : Event A E) (es : List (Event A E)) (s : State A E)
      → (step grace e s).1 ≡ none
      → select_from grace (e ∷ es) s ≡ select_from grace es (step grace e s).0
  unfolding select_from
  select_waits grace e es s wait = ground arith

  select_ends :
      (grace : ℕ) (e : Event A E) (es : List (Event A E)) (s : State A E)
      (selection : Selection A E)
      → (step grace e s).1 ≡ some selection
      → select_from grace (e ∷ es) s ≡ some selection
  unfolding select_from
  select_ends grace e es s selection now = ground arith

  -- The loop decides on what it has seen so far.
  abbrev pub Decides : List (Event A E) → Selection A E → Type 0
  Decides es selection =
      (seen : List (Event A E)) × (unseen : List (Event A E)) × (es ≡ seen ++ unseen)
      × Explains seen selection

  select_from_sound :
      (grace : ℕ) (past es : List (Event A E)) (s : State A E) (selection : Selection A E)
      → (s.best ≡ best_of past)
      → (s.last_err ≡ last_err_from none past)
      → select_from grace es s ≡ some selection
      → Decides (past ++ es) selection
  unfolding select_from
  select_from_sound grace past [] s selection b l ended = absurd (cc)
  select_from_sound grace past (e ∷ es) s selection b l ended =
      elim (Option-cases (step grace e s).1) [
        | inl wait ↦
            subst (λ hist. Decides hist selection) (regroup e)
              (select_from_sound grace (past ++ e ∷ []) es (step grace e s).0 selection
                ((step_waits grace e s wait).0
                  ∙ ap (λ x. best_from x (e ∷ [])) b
                  ∙ sym (best_from-append past (e ∷ []) none))
                ((step_waits grace e s wait).1
                  ∙ ap (λ x. last_err_from x (e ∷ [])) l
                  ∙ sym (last_err_from-append past (e ∷ []) none))
                (sym (select_waits grace e es s wait) ∙ ended))
        | inr (sel, now) ↦ (
          past ++ e ∷ [],
          es,
          sym (regroup e),
          subst (λ x. Accounts (best_of (past ++ e ∷ [])) (last_err_from none (past ++ e ∷ [])) x)
              {x = sel} {y = selection} (cc (select_ends grace e es s sel now, ended))
              (subst₂ (λ x y. Accounts x y sel)
                (ap (λ x. best_from x (e ∷ [])) b ∙ sym (best_from-append past (e ∷ []) none))
                (ap (λ x. last_err_from x (e ∷ [])) l
                  ∙ sym (last_err_from-append past (e ∷ []) none))
                (step_ends grace e s sel now)),
        )
      ]
    where
      regroup : (x : Event A E) → (past ++ x ∷ []) ++ es ≡ past ++ x ∷ es
      regroup x = append_assoc past (x ∷ []) es

  -- Whatever the interleaving, the loop returns what some first part of the events accounts for: the
  -- best result received so far, or, if nothing useful was received, the cancellation, the error of the
  -- last provider that failed, or that there was no provider.
  pub select_best_result_sound :
      (grace : ℕ) (es : List (Event A E)) (selection : Selection A E)
      → select_best_result grace es ≡ some selection
      → Decides es selection
  unfolding select_best_result
  select_best_result_sound grace es selection ended =
      select_from_sound grace [] es start selection refl refl ended

  step-channel_closed : (grace : ℕ) (s : State A E) → (step grace channel_closed s).1 ≢ none
  unfolding step
  step-channel_closed grace s = λ h. cc

  select_from_ends :
      (grace : ℕ) (es : List (Event A E)) (s : State A E)
      → In channel_closed es
      → select_from grace es s ≢ none
  select_from_ends grace [] s m = elim m [ ]
  select_from_ends grace (e ∷ es) s (here is) = λ h. elim (Option-cases (step grace e s).1) [
    | inl wait ↦ step-channel_closed grace s (subst (λ x. (step grace x s).1 ≡ none) is wait)
    | inr (sel, now) ↦ cc (h, select_ends grace e es s sel now)
  ]
  select_from_ends grace (e ∷ es) s (there m) = λ h. elim (Option-cases (step grace e s).1) [
    | inl wait ↦
        select_from_ends grace es (step grace e s).0 m (sym (select_waits grace e es s wait) ∙ h)
    | inr (sel, now) ↦ cc (h, select_ends grace e es s sel now)
  ]

  -- The loop ends: once all providers have answered and the channel is closed, it has returned.
  pub select_best_result_ends :
      (grace : ℕ) (es : List (Event A E))
      → In channel_closed es
      → select_best_result grace es ≢ none
  unfolding select_best_result
  select_best_result_ends grace es m = select_from_ends grace es start m

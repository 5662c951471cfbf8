-- ===== src/Registry/Fallback/Loop.antt =====
-- The loop of executeWithTaskFallback in registry.go, over a series of attempts.
use telegram_digest_bot.Base.{
  ℕ, suc, ◌+◌, ◌≡◌, refl, sym, subst, ap, ◌∙◌, List, [], ◌∷◌, ◌++◌, append-nil, String, Option,
  none, some, ◌⊎◌, inl, inr, length, arith,
}
use telegram_digest_bot.Registry.{ProviderModel, Registry}
use telegram_digest_bot.Registry.Fallback.{
  Attempt, skipped, failed, succeeded, panicked, ExecError, nil_breaker, returned, gave_up,
  exhausted, fallback_loop,
}
use telegram_digest_bot.Registry.Fallback.Attempts.{
  IsPassed, error_of, failed_name, counted_fallback, named_failure, after, AllPassed, last_error,
  first_failure, Reached,
}

module _ {T E : Type 0} (attempt : ℕ → ProviderModel → Registry → Registry × Attempt T E) where
  -- The first of two names.
  abbrev earlier : Option String → Option String → Option String
  earlier none later = later
  earlier (some name) later = some name

  -- The name that the loop keeps is that of the first failure, before the chain or in it.
  earlier-failed_name :
      (a : Attempt T E) (name : String) (previous later : Option String)
      → earlier (failed_name a name previous) later ≡ earlier previous (named_failure a name later)
  earlier-failed_name skipped name previous later = refl
  earlier-failed_name (failed e) name none later = refl
  earlier-failed_name (failed e) name (some first) later = refl
  earlier-failed_name (succeeded v) name previous later = refl
  earlier-failed_name panicked name previous later = refl

  earlier-none : (previous : Option String) → earlier previous none ≡ previous
  earlier-none none = refl
  earlier-none (some name) = refl

  module _ (none_tried : ExecError E) where
    loop_step :
        (i : ℕ) (pm : ProviderModel) (pms : List ProviderModel) (last : Option E)
        (previous : Option String) (r : Registry)
        → IsPassed (attempt i pm r).1
        → fallback_loop attempt none_tried i (pm ∷ pms) last previous r
          ≡ fallback_loop attempt none_tried
              (suc i)
              pms
              (error_of (attempt i pm r).1 last)
              (failed_name (attempt i pm r).1 pm.provider previous)
              (attempt i pm r).0
    unfolding fallback_loop
    loop_step i pm pms last none r passed = ground arith
    loop_step i pm pms last (some first) r passed = ground arith

    loop_passes :
        (i : ℕ) (pre post : List ProviderModel) (last : Option E) (previous : Option String)
        (r : Registry)
        → AllPassed attempt i pre r
        → fallback_loop attempt none_tried i (pre ++ post) last previous r
          ≡ fallback_loop attempt none_tried
              (i + length pre)
              post
              (last_error attempt i pre r last)
              (earlier previous (first_failure attempt i pre r))
              (after attempt i pre r)
    loop_passes i [] post last previous r _ =
        let e : i ≡ i + 0 = omega arith in
        ap (λ j. fallback_loop attempt none_tried j post last previous r) e
        ∙ ap (λ p. fallback_loop attempt none_tried (i + 0) post last p r)
            (sym (earlier-none previous))
    loop_passes i (pm ∷ pre) post last previous r (passed, rest) =
        loop_step i pm (pre ++ post) last previous r passed
        ∙ loop_passes (suc i) pre post _ _ (attempt i pm r).0 rest
        ∙ ap
            (λ j.
              fallback_loop attempt none_tried j post (last_error attempt i (pm ∷ pre) r last)
                (earlier (failed_name (attempt i pm r).1 pm.provider previous)
                  (first_failure attempt (suc i) pre (attempt i pm r).0))
                (after attempt i (pm ∷ pre) r))
            (omega arith)
        ∙ ap
            (λ p.
              fallback_loop attempt none_tried (i + length (pm ∷ pre)) post
                (last_error attempt i (pm ∷ pre) r last) p (after attempt i (pm ∷ pre) r))
            (earlier-failed_name (attempt i pm r).1 pm.provider previous
              (first_failure attempt (suc i) pre (attempt i pm r).0))

    -- A loop that passes every provider gives up.
    pub loop_gives_up :
        (pms : List ProviderModel) (r : Registry)
        → AllPassed attempt 0 pms r
        → fallback_loop attempt none_tried 0 pms none none r
          ≡ (after attempt 0 pms r, exhausted none_tried (last_error attempt 0 pms r none))
    unfolding fallback_loop
    loop_gives_up pms r passed =
        subst
          (λ l.
            fallback_loop attempt none_tried 0 l none none r
            ≡ (after attempt 0 pms r, exhausted none_tried (last_error attempt 0 pms r none)))
          (append-nil pms) (loop_passes 0 pms [] none none r passed)

    loop_succeeds :
        (i : ℕ) (pm : ProviderModel) (pms : List ProviderModel) (last : Option E)
        (previous : Option String) (r : Registry) (v : T)
        → (attempt i pm r).1 ≡ succeeded v
        → fallback_loop attempt none_tried i (pm ∷ pms) last previous r
          ≡ ((attempt i pm r).0, returned v (counted_fallback previous pm.provider))
    unfolding fallback_loop
    loop_succeeds i pm pms last none r v ok = ground arith
    loop_succeeds i pm pms last (some first) r v ok = ground arith

    -- A loop returns at the first provider that succeeds.
    pub loop_returns :
        (pre post : List ProviderModel) (pm : ProviderModel) (r : Registry) (v : T)
        → AllPassed attempt 0 pre r
        → (attempt (length pre) pm (after attempt 0 pre r)).1 ≡ succeeded v
        → fallback_loop attempt none_tried 0 (pre ++ pm ∷ post) none none r ≡ (
          (attempt (length pre) pm (after attempt 0 pre r)).0,
          returned v (counted_fallback (first_failure attempt 0 pre r) pm.provider),
        )
    loop_returns pre post pm r v passed ok =
        loop_passes 0 pre (pm ∷ post) none none r passed
        ∙ ap
            (λ j.
              fallback_loop attempt none_tried j (pm ∷ post) (last_error attempt 0 pre r none)
                (first_failure attempt 0 pre r) (after attempt 0 pre r))
            (omega arith)
        ∙ loop_succeeds (length pre) pm post _ _ (after attempt 0 pre r) v ok

  reach_next :
      (i : ℕ) (pm : ProviderModel) (pms : List ProviderModel) (r : Registry) (v : T)
      → IsPassed (attempt i pm r).1
      → Reached attempt (suc i) pms (attempt i pm r).0 v
      → Reached attempt i (pm ∷ pms) r v
  reach_next i pm pms r v passed (pre, last, post, split, rest, ok) = (
    pm ∷ pre,
    last,
    post,
    ap (λ l. pm ∷ l) split,
    (passed, rest),
    subst (λ j. (attempt j last (after attempt (suc i) pre (attempt i pm r).0)).1 ≡ succeeded v)
        (omega arith) ok,
  )

  Attempt-cases : (a : Attempt T E) → IsPassed a ⊎ ((w : T) × (a ≡ succeeded w)) ⊎ (a ≡ panicked)
  Attempt-cases skipped = inl tt
  Attempt-cases (failed e) = inl tt
  Attempt-cases (succeeded w) = inr (inl (w, refl))
  Attempt-cases panicked = inr (inr refl)

  module _ (none_tried : ExecError E) where
    loop_panics :
        (i : ℕ) (pm : ProviderModel) (pms : List ProviderModel) (last : Option E)
        (previous : Option String) (r : Registry)
        → (attempt i pm r).1 ≡ panicked
        → (fallback_loop attempt none_tried i (pm ∷ pms) last previous r).1 ≡ gave_up nil_breaker
    unfolding fallback_loop
    loop_panics i pm pms last previous r bad = ground arith

    pub loop_sound :
        (i : ℕ) (pms : List ProviderModel) (last : Option E) (previous : Option String)
        (r : Registry) (v : T) (counted : Option (String × String))
        → (fallback_loop attempt none_tried i pms last previous r).1 ≡ returned v counted
        → Reached attempt i pms r v
    loop_sound i [] none previous r v counted ok = absurd (unfold fallback_loop in cc)
    loop_sound i [] (some e) previous r v counted ok = absurd (unfold fallback_loop in cc)
    loop_sound i (pm ∷ pms) last previous r v counted ok = elim (Attempt-cases (attempt i pm r).1) [
      | inl passed ↦ reach_next i pm pms r v passed (
          loop_sound (suc i) pms _ _ (attempt i pm r).0 v counted (
            subst (λ res. res.1 ≡ returned v counted)
              (loop_step none_tried i pm pms last previous r passed) ok))
      | inr (inl (w, won)) ↦ (
        [],
        pm,
        pms,
        refl,
        tt,
        subst (λ j. (attempt j pm r).1 ≡ succeeded v) {x = i} {y = i + 0} (omega arith)
            (cc (
              won,
              ok,
              ap (λ res. res.1) (loop_succeeds none_tried i pm pms last previous r w won),
            )),
      )
      | inr (inr bad) ↦ absurd (cc (ok, loop_panics i pm pms last previous r bad))
    ]

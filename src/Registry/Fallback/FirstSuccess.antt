-- ===== src/Registry/Fallback/FirstSuccess.antt =====
-- What the fallback of registry.go over a chain of providers returns.
use telegram_digest_bot.Base.{
  ℕ, ◌≡◌, refl, ap, ◌∙◌, List, ◌∷◌, ◌++◌, String, Option, none, some, length, str_eq, if◌then◌else◌,
}
use telegram_digest_bot.Registry.{ProviderModel, Registry, get_task_model_override}
use telegram_digest_bot.Registry.Chain.{get_provider_chain_for_task}
use telegram_digest_bot.Registry.Fallback.{
  Attempt, succeeded, no_providers_available, returned, gave_up, Env, try_provider_exec, exhausted,
  execute_with_task_fallback,
}
use telegram_digest_bot.Registry.Fallback.Attempts.{
  counted_fallback, reason, after, AllPassed, last_error, first_failure, Reached,
}
use telegram_digest_bot.Registry.Fallback.Loop.{loop_returns, loop_gives_up, loop_sound}

exhausted-reason :
    {T E : Type 0} (last : Option E)
    → exhausted {T = T} no_providers_available last ≡ gave_up (reason last)
exhausted-reason none = refl
exhausted-reason (some e) = refl

-- The attempts of a call: one with the model that was asked for, or else the task's override, or else
-- the model of the chain.
abbrev pub attempts :
    {T E : Type 0}
    → Env T E
    → String
    → String
    → Registry
    → ℕ
    → ProviderModel
    → Registry
    → Registry × Attempt T E
attempts env task model_override r i pm =
    try_provider_exec env i
      (if str_eq model_override "" then get_task_model_override task r else model_override) pm

module _ {T E : Type 0} (env : Env T E) (task model_override : String) (r : Registry) where
  -- The call returns what the first provider of the chain that succeeds has answered, and leaves the
  -- registry as that attempt does; a fallback is counted from the first provider that failed, unless none
  -- failed or the name of that one is empty.
  pub execute_with_task_fallback-returns :
      (pre post : List ProviderModel) (pm : ProviderModel) (v : T)
      → get_provider_chain_for_task task r ≡ pre ++ pm ∷ post
      → AllPassed (attempts env task model_override r) 0 pre r
      → (attempts env task model_override r
          (length pre)
          pm
          (after (attempts env task model_override r) 0 pre r)).1
        ≡ succeeded v
      → execute_with_task_fallback env task model_override r ≡ (
        (attempts env task model_override r
            (length pre)
            pm
            (after (attempts env task model_override r) 0 pre r)).0,
        returned v (
            counted_fallback
              (first_failure (attempts env task model_override r) 0 pre r)
              pm.provider),
      )
  unfolding execute_with_task_fallback
  execute_with_task_fallback-returns pre post pm v split passed ok = rw split (
      loop_returns (attempts env task model_override r) no_providers_available pre post pm r v
        passed ok)

  -- If no provider of the chain succeeds, the call gives up with the error of the last one that failed,
  -- or says that there is no provider if none was called.
  pub execute_with_task_fallback-gives_up :
      AllPassed (attempts env task model_override r) 0 (get_provider_chain_for_task task r) r
      → execute_with_task_fallback env task model_override r ≡ (
        after (attempts env task model_override r) 0 (get_provider_chain_for_task task r) r,
        gave_up (
            reason (
              last_error
                (attempts env task model_override r)
                0
                (get_provider_chain_for_task task r)
                r
                none)),
      )
  unfolding execute_with_task_fallback
  execute_with_task_fallback-gives_up passed =
      let chain = get_provider_chain_for_task task r in
      loop_gives_up (attempts env task model_override r) no_providers_available chain r passed
      ∙ ap (λ o. (after (attempts env task model_override r) 0 chain r, o))
          (exhausted-reason (last_error (attempts env task model_override r) 0 chain r none))

  -- A value that the call returns is the answer of a provider of the chain, and every provider before it
  -- was skipped or had failed.
  pub execute_with_task_fallback_sound :
      (v : T) (counted : Option (String × String))
      → (execute_with_task_fallback env task model_override r).1 ≡ returned v counted
      → Reached (attempts env task model_override r) 0 (get_provider_chain_for_task task r) r v
  unfolding execute_with_task_fallback
  execute_with_task_fallback_sound v counted ok =
      loop_sound (attempts env task model_override r) no_providers_available 0
        (get_provider_chain_for_task task r) none none r v counted ok

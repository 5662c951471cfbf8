-- ===== src/Registry/Fallback.antt =====
-- `executeWithTaskFallback`, `tryProviderExec` and `GenerateDigestCover` of registry.go: a call goes to
-- the providers of a chain in turn until one answers.
-- The environment gives, for each place in the chain, the two moments that the code reads and what the
-- provider answers to the call with its model.
pub mod Attempts
pub mod Loop
pub mod FirstSuccess
pub mod NilBreaker
use telegram_digest_bot.Base.{
  ℕ, zero, suc, ◌≡◌, Bool, true, false, not, List, [], ◌∷◌, String, Option, none, some, arith,
  str_eq, if◌then◌else◌, ◌&&◌, ◌||◌,
}
use telegram_digest_bot.Base.Dict
use telegram_digest_bot.Circuit.{CircuitBreaker, can_attempt, record_success, record_failure}
use telegram_digest_bot.Registry.{
  Provider, ProviderModel, Registry, get_circuit_breaker, get_task_model_override,
}
use telegram_digest_bot.Registry.Chain.{configured, get_provider_chain_for_task}

pub data Answer (T E : Type 0) : Type 0 where
  value : T → Answer T E
  error : E → Answer T E

-- `checked` is the moment of `CanAttempt`, `returned` that of `RecordFailure`.
pub record Reply (T E : Type 0) : Type 0 where
  pub checked : ℕ
  pub returned : ℕ
  pub answer : String → Answer T E

-- The reply at each place of the chain.
abbrev pub Env : Type 0 → Type 0 → Type 0
Env T E = ℕ → String → Reply T E

-- What one attempt gives. A missing breaker is a nil pointer, which panics.
pub data Attempt (T E : Type 0) : Type 0 where
  skipped : Attempt T E
  failed : E → Attempt T E
  succeeded : T → Attempt T E
  panicked : Attempt T E

pub data ExecError (E : Type 0) : Type 0 where
  no_providers_available : ExecError E
  no_image_provider : ExecError E
  all_providers_failed : E → ExecError E
  nil_breaker : ExecError E

-- A success comes with the fallback that is counted, from the first provider that failed.
pub data Outcome (T E : Type 0) : Type 0 where
  returned : T → Option (String × String) → Outcome T E
  gave_up : ExecError E → Outcome T E

abbrev pub store : String → CircuitBreaker → Registry → Registry
store name cb r = record r { circuit_breakers = Dict.insert name cb r.circuit_breakers }

-- `previous` is the first provider that failed, once there is one.
abbrev pub fallback_from : Option String → String → Option (String × String)
fallback_from none name = none
fallback_from (some previous) name = if str_eq previous "" then none else some (previous, name)

abbrev pub first_failed : Option String → String → Option String
first_failed none name = some name
first_failed (some previous) name = some previous

module _ {T E : Type 0} where
  -- The call itself, past all guards, and what is reported to the breaker.
  unfoldable pub call_provider :
      Reply T E → String → String → CircuitBreaker → Registry → Registry × Attempt T E
  call_provider reply name model cb r = elim (reply.answer model) [
    | value v ↦ (store name (record_success cb) r, succeeded v)
    | error e ↦ (store name (record_failure reply.returned cb) r, failed e)
  ]

  -- `tryProviderExec`
  unfoldable pub try_provider_exec :
      Env T E → ℕ → String → ProviderModel → Registry → Registry × Attempt T E
  unfolding call_provider
  try_provider_exec env i model_override pm r =
      let reply = env i pm.provider in
      let model = if str_eq model_override "" then pm.model else model_override in
      elim (Dict.lookup pm.provider r.providers) [
        | none ↦ (r, skipped)
        | some p ↦
            if not p.is_available then (r, skipped) else elim (get_circuit_breaker pm.provider r) [
              | none ↦ (r, panicked)
              | some cb ↦
                  if not (can_attempt reply.checked cb)
                  then (r, skipped)
                  else call_provider reply pm.provider model cb r
            ]
      ]

  -- The end of the loop.
  abbrev pub exhausted : ExecError E → Option E → Outcome T E
  exhausted none_tried none = gave_up none_tried
  exhausted none_tried (some e) = gave_up (all_providers_failed e)

  -- The loop of `executeWithTaskFallback`, over what one attempt does.
  unfoldable pub fallback_loop :
      (ℕ → ProviderModel → Registry → Registry × Attempt T E)
      → ExecError E
      → ℕ
      → List ProviderModel
      → Option E
      → Option String
      → Registry
      → Registry × Outcome T E
  fallback_loop attempt none_tried i [] last_err previous r = (r, exhausted none_tried last_err)
  fallback_loop attempt none_tried i (pm ∷ pms) last_err previous r =
      let (r', tried) = attempt i pm r in
      elim tried [
        | skipped ↦ fallback_loop attempt none_tried (suc i) pms last_err previous r'
        | failed e ↦
            fallback_loop attempt none_tried (suc i) pms (some e)
              (first_failed previous pm.provider) r'
        | succeeded v ↦ (r', returned v (fallback_from previous pm.provider))
        | panicked ↦ (r', gave_up nil_breaker)
      ]

  unfoldable pub execute_with_task_fallback :
      Env T E → String → String → Registry → Registry × Outcome T E
  execute_with_task_fallback env task model_override r =
      let effective =
        if str_eq model_override "" then get_task_model_override task r else model_override in
      fallback_loop (λ i pm. try_provider_exec env i effective pm) no_providers_available 0
        (get_provider_chain_for_task task r) none none r

  -- `GenerateDigestCover`: an attempt also wants a provider that supports images, and no model is given.
  unfoldable pub try_image_provider :
      Env T E → ℕ → ProviderModel → Registry → Registry × Attempt T E
  unfolding call_provider
  try_image_provider env i pm r =
      let reply = env i pm.provider in
      elim (Dict.lookup pm.provider r.providers) [
        | none ↦ (r, skipped)
        | some p ↦
            if not p.is_available || not p.supports_image_generation
            then (r, skipped)
            else elim (get_circuit_breaker pm.provider r) [
              | none ↦ (r, panicked)
              | some cb ↦
                  if not (can_attempt reply.checked cb)
                  then (r, skipped)
                  else call_provider reply pm.provider "" cb r
            ]
      ]

  abbrev uncounted : Outcome T E → Outcome T E
  uncounted (returned v _) = returned v none
  uncounted (gave_up e) = gave_up e

  unfoldable pub generate_digest_cover : Env T E → Registry → Registry × Outcome T E
  unfolding fallback_loop
  generate_digest_cover env r =
      let (r', outcome) =
        fallback_loop (try_image_provider env) no_image_provider 0 (configured "image_gen" r) none
          none r in
      (r', uncounted outcome)

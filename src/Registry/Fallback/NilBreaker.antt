-- ===== src/Registry/Fallback/NilBreaker.antt =====
-- A call through the registry of registry.go never meets a nil breaker, and changes breakers only.
use telegram_digest_bot.Base.{
  ℕ, suc, ◌≡◌, refl, ◌≢◌, sym, subst, ◌∙◌, List, [], ◌∷◌, String, Option, none, some, inl, inr, All,
  In, here, there, arith, str_eq, if◌then◌else◌, Option-cases, Bool-cases,
}
use telegram_digest_bot.Base.Dict
use telegram_digest_bot.Base.Dict.{lookup-insert}
use telegram_digest_bot.Circuit.{CircuitBreaker, can_attempt, record_success, record_failure}
use telegram_digest_bot.Registry.{
  ProviderModel, Registry, get_circuit_breaker, get_task_model_override,
}
use telegram_digest_bot.Registry.Order.{IsWellFormed, IsFalling}
use telegram_digest_bot.Registry.Chain.{get_provider_chain_for_task}
use telegram_digest_bot.Registry.Fallback.{
  Answer, value, error, Reply, Attempt, skipped, failed, succeeded, panicked, ExecError,
  no_providers_available, nil_breaker, Outcome, gave_up, Env, try_provider_exec, call_provider,
  fallback_loop, execute_with_task_fallback, store, exhausted,
}

-- The second registry is the first with other breakers under the same names, or more.
pub record Keeps (r r' : Registry) : Type 0 where
  pub providers : r'.providers ≡ r.providers
  pub order : r'.order ≡ r.order
  pub task_config : r'.task_config ≡ r.task_config
  pub model_overrides : r'.model_overrides ≡ r.model_overrides
  pub breakers :
      (name : String)
      → Dict.lookup name r.circuit_breakers ≢ none
      → Dict.lookup name r'.circuit_breakers ≢ none

Keeps-refl : (r : Registry) → Keeps r r
Keeps-refl r = record {
  providers = refl;
  order = refl;
  task_config = refl;
  model_overrides = refl;
  breakers = λ name h. h;
}

Keeps-trans : {r s t : Registry} → Keeps r s → Keeps s t → Keeps r t
Keeps-trans k l = record {
  providers = l.providers ∙ k.providers;
  order = l.order ∙ k.order;
  task_config = l.task_config ∙ k.task_config;
  model_overrides = l.model_overrides ∙ k.model_overrides;
  breakers = λ name h. l.breakers name (k.breakers name h);
}

store-Keeps : (name : String) (cb : CircuitBreaker) (r : Registry) → Keeps r (store name cb r)
store-Keeps name cb r = record {
  providers = refl;
  order = refl;
  task_config = refl;
  model_overrides = refl;
  breakers = λ other h. ground (arith, lookup-insert name other cb r.circuit_breakers, h);
}

-- Every provider has its breaker.
abbrev IsGuarded : Registry → Type 0
IsGuarded r =
    (name : String)
    → Dict.lookup name r.providers ≢ none
    → Dict.lookup name r.circuit_breakers ≢ none

Keeps-IsGuarded : (r r' : Registry) → Keeps r r' → IsGuarded r → IsGuarded r'
Keeps-IsGuarded r r' k g name h =
    k.breakers name (g name (subst (λ ps. Dict.lookup name ps ≢ none) k.providers h))

All-In :
    (P : String → Type 0) {name : String} (names : List String)
    → All P names
    → In name names
    → P name
All-In P [] h m = elim m [ ]
All-In P (other ∷ names) (h, hs) (here e) = subst P e h
All-In P (other ∷ names) (h, hs) (there m) = All-In P names hs m

IsWellFormed-IsGuarded : (r : Registry) → IsWellFormed r → IsGuarded r
IsWellFormed-IsGuarded r wf name has = (All-In _ r.order wf.known (wf.listed name has)).1

Keeps-IsWellFormed : (r r' : Registry) → Keeps r r' → IsWellFormed r → IsWellFormed r'
Keeps-IsWellFormed r r' k wf = record {
  known = rw k.order (both r.order wf.known);
  listed = λ name h.
      rw k.order (wf.listed name (subst (λ ps. Dict.lookup name ps ≢ none) k.providers h));
  falling = subst (λ ps. IsFalling ps r'.order) (sym k.providers) (rw k.order wf.falling);
}
  where
    both :
        (names : List String)
        → All
            (λ name.
              (Dict.lookup name r.providers ≢ none) × (Dict.lookup name r.circuit_breakers ≢ none))
            names
        → All
            (λ name.
              (Dict.lookup name r'.providers ≢ none)
              × (Dict.lookup name r'.circuit_breakers ≢ none))
            names
    both [] h = tt
    both (name ∷ names) ((p, c), hs) = (
      (subst (λ ps. Dict.lookup name ps ≢ none) (sym k.providers) p, k.breakers name c),
      both names hs,
    )

module _ {T E : Type 0} where
  call_provider-Keeps :
      (reply : Reply T E) (name model : String) (cb : CircuitBreaker) (r : Registry)
      → Keeps r (call_provider reply name model cb r).0
        × ((call_provider reply name model cb r).1 ≢ panicked)
  unfolding call_provider
  call_provider-Keeps reply name model cb r = go (reply.answer model) refl
    where
      go :
          (a : Answer T E)
          → reply.answer model ≡ a
          → Keeps r (call_provider reply name model cb r).0
            × ((call_provider reply name model cb r).1 ≢ panicked)
      go (value v) e = rw (e, call_provider) (store-Keeps name (record_success cb) r, λ h. cc)
      go (error x) e =
          rw (e, call_provider) (store-Keeps name (record_failure reply.returned cb) r, λ h. cc)

  abbrev Safe : Registry → Registry × Attempt T E → Type 0
  Safe r res = Keeps r res.0 × (res.1 ≢ panicked)

  try_provider_exec-Safe :
      (env : Env T E) (i : ℕ) (model_override : String) (pm : ProviderModel) (r : Registry)
      → IsGuarded r
      → Safe r (try_provider_exec env i model_override pm r)
  unfolding try_provider_exec
  try_provider_exec-Safe env i model_override pm r g =
      elim (Option-cases (Dict.lookup pm.provider r.providers)) [
        | inl missing ↦ rw (missing, try_provider_exec) (Keeps-refl r, λ h. cc)
        | inr (p, found) ↦ elim (Bool-cases p.is_available) [
          | inr off ↦ rw (found, off, try_provider_exec) (Keeps-refl r, λ h. cc)
          | inl on ↦ elim (Option-cases (get_circuit_breaker pm.provider r)) [
            | inl bare ↦ absurd (g pm.provider (λ e. cc) (unfold get_circuit_breaker in bare))
            | inr (cb, has_cb) ↦ elim (Bool-cases (can_attempt (env i pm.provider).checked cb)) [
              | inr shut ↦ rw (found, on, has_cb, shut, try_provider_exec) (Keeps-refl r, λ h. cc)
              | inl open' ↦
                  rw (found, on, has_cb, open', try_provider_exec)
                    (call_provider-Keeps (env i pm.provider) pm.provider _ cb r)
            ]
          ]
        ]
      ]

  abbrev Ends : Registry → Registry × Outcome T E → Type 0
  Ends r res = Keeps r res.0 × (res.1 ≢ gave_up nil_breaker)

  Ends-trans : (r s : Registry) (res : Registry × Outcome T E) → Keeps r s → Ends s res → Ends r res
  Ends-trans r s res k e = (Keeps-trans k e.0, e.1)

  exhausted-ne-nil_breaker :
      (none_tried : ExecError E) (last : Option E)
      → none_tried ≢ nil_breaker
      → exhausted {T = T} none_tried last ≢ gave_up nil_breaker
  exhausted-ne-nil_breaker none_tried none h = λ e. h (cc)
  exhausted-ne-nil_breaker none_tried (some e) h = λ p. cc

  fallback_loop-Ends :
      (attempt : ℕ → ProviderModel → Registry → Registry × Attempt T E)
      → ((i : ℕ) (pm : ProviderModel) (r : Registry) → IsGuarded r → Safe r (attempt i pm r))
      → (none_tried : ExecError E) → none_tried ≢ nil_breaker
      → (i : ℕ) (pms : List ProviderModel) (last : Option E) (previous : Option String)
        (r : Registry)
      → IsGuarded r
      → Ends r (fallback_loop attempt none_tried i pms last previous r)
  unfolding fallback_loop
  fallback_loop-Ends attempt safe none_tried h i [] last previous r g =
      (Keeps-refl r, exhausted-ne-nil_breaker none_tried last h)
  fallback_loop-Ends attempt safe none_tried h i (pm ∷ pms) last previous r g =
      go (attempt i pm r).1 refl (λ last' previous'. Ends-trans r (attempt i pm r).0 _ kept (
        fallback_loop-Ends attempt safe none_tried h (suc i) pms last' previous' (attempt i pm r).0
          (Keeps-IsGuarded r (attempt i pm r).0 kept g)))
    where
      kept : Keeps r (attempt i pm r).0
      kept = (safe i pm r g).0

      go :
          (tried : Attempt T E)
          → (attempt i pm r).1 ≡ tried
          → ((last' : Option E) (previous' : Option String)
              → Ends r
                  (fallback_loop attempt none_tried (suc i) pms last' previous' (attempt i pm r).0))
          → Ends r (fallback_loop attempt none_tried i (pm ∷ pms) last previous r)
      go skipped e next = rw (e, fallback_loop) (next last previous)
      go (failed x) e next = rw (e, fallback_loop) (next _ _)
      go (succeeded v) e next = rw (e, fallback_loop) (kept, λ p. cc)
      go panicked e next = absurd ((safe i pm r g).1 e)

  -- In a well-formed registry a call never meets a missing breaker, and leaves the registry well formed:
  -- it changes nothing but breakers.
  pub execute_with_task_fallback-IsWellFormed :
      (env : Env T E) (task model_override : String) (r : Registry)
      → IsWellFormed r
      → ((execute_with_task_fallback env task model_override r).1 ≢ gave_up nil_breaker)
        × IsWellFormed (execute_with_task_fallback env task model_override r).0
        × Keeps r (execute_with_task_fallback env task model_override r).0
  unfolding execute_with_task_fallback
  execute_with_task_fallback-IsWellFormed env task model_override r wf =
      let ended =
        fallback_loop-Ends
          (λ i pm.
            try_provider_exec env i
              (if str_eq model_override "" then get_task_model_override task r else model_override)
              pm)
          (λ i pm s. try_provider_exec-Safe env i _ pm s) no_providers_available (λ e. cc) 0
          (get_provider_chain_for_task task r) none none r (IsWellFormed-IsGuarded r wf) in
      (ended.1, Keeps-IsWellFormed r _ ended.0 wf, ended.0)

-- ===== src/Embeddings.antt =====
-- The registry of embedding providers (internal/core/embeddings/registry.go and padding.go).
-- The environment gives, for each place in the list of active providers, the two moments that the code
-- reads and what the provider answers. Logs and metrics are left out.
pub mod Agreement
pub mod Client
mod Tests
use telegram_digest_bot.Base.{
  ℕ, zero, suc, ◌+◌, ◌-◌, Bool, true, false, not, List, [], ◌∷◌, ◌++◌, String, Option, none, some,
  ◌⊎◌, inl, inr, length, take, ltb, leb, ◌==◌, if◌then◌else◌,
}
use telegram_digest_bot.Base.Dict
use telegram_digest_bot.Circuit.{
  CircuitBreaker, CircuitBreakerConfig, new_circuit_breaker, can_attempt, record_success,
  record_failure,
}

pub record EmbeddingResult (N : Type 0) : Type 0 where
  pub vector : List N
  pub dimensions : ℕ
  pub provider : String

-- What the registry asks of a provider, apart from the embedding itself.
pub record Provider : Type 0 where
  pub name : String
  pub is_available : Bool
  pub priority : ℕ
  pub dimensions : ℕ

pub record Registry : Type 0 where
  pub providers : List (String × Provider)
  pub order : List String
  pub circuit_breakers : List (String × CircuitBreaker)
  pub target_dimension : ℕ

unfoldable pub new_registry : ℕ → Registry
new_registry target_dimension = record {
  providers = [];
  order = [];
  circuit_breakers = [];
  target_dimension = target_dimension;
}

-- `r.providers[name].Priority()`, for a name that is registered.
abbrev pub priority_of : List (String × Provider) → String → ℕ
priority_of providers name = elim (Dict.lookup name providers) [ some p ↦ p.priority | none ↦ 0 ]

unfoldable pub insert_by_priority : List (String × Provider) → String → List String → List String
insert_by_priority providers name [] = name ∷ []
insert_by_priority providers name (other ∷ names) =
    let rest = insert_by_priority providers name names in
    if ltb (priority_of providers name) (priority_of providers other)
    then other ∷ rest
    else name ∷ other ∷ names

-- `sort.SliceStable` by falling priority.
unfoldable pub sort_providers_by_priority : List (String × Provider) → List String → List String
unfolding insert_by_priority
sort_providers_by_priority providers [] = []
sort_providers_by_priority providers (name ∷ names) =
    insert_by_priority providers name (sort_providers_by_priority providers names)

unfoldable pub register : Provider → CircuitBreakerConfig → Registry → Registry
register p cfg r =
    let providers = Dict.insert p.name p r.providers in
    record r {
      providers = providers;
      order = sort_providers_by_priority providers (r.order ++ p.name ∷ []);
      circuit_breakers = Dict.insert p.name (new_circuit_breaker cfg) r.circuit_breakers;
    }

-- `none` stands for the use of a nil pointer, which panics.
abbrev pub add_active : Option Provider → Option (List Provider) → Option (List Provider)
add_active none active = none
add_active (some p) none = none
add_active (some p) (some active) = some (if p.is_available then p ∷ active else active)

abbrev pub active_from : List (String × Provider) → List String → Option (List Provider)
active_from providers [] = some []
active_from providers (name ∷ names) =
    add_active (Dict.lookup name providers) (active_from providers names)

unfoldable pub get_active_providers : Registry → Option (List Provider)
get_active_providers r = active_from r.providers r.order

-- Zeros in the number of a count.
abbrev pub zeros : {N : Type 0} → N → ℕ → List N
zeros z zero = []
zeros z (suc n) = z ∷ zeros z n

unfoldable pub pad_to_target_dimensions : {N : Type 0} → N → List N → ℕ → List N
pad_to_target_dimensions z vec target =
    if length vec == target
    then vec
    else if ltb target (length vec)
    then take target vec
    else vec ++ zeros z (target - length vec)

-- `checked` is the moment of `CanAttempt`, `returned` that of `RecordFailure`.
pub record Reply (N E : Type 0) : Type 0 where
  pub checked : ℕ
  pub returned : ℕ
  pub answer : E ⊎ EmbeddingResult N

abbrev pub Env : Type 0 → Type 0 → Type 0
Env N E = ℕ → String → Reply N E

pub data TryError (E : Type 0) : Type 0 where
  circuit_breaker_open : TryError E
  provider_failed : String → E → TryError E

-- What `tryProvider` gives; a provider without a breaker panics.
pub data Tried (N E : Type 0) : Type 0 where
  answered : EmbeddingResult N → Tried N E
  refused : TryError E → Tried N E
  panicked : Tried N E

-- The errors of the two methods, over the error that each keeps as the last one.
pub data EmbeddingError (L : Type 0) : Type 0 where
  empty_input : EmbeddingError L
  no_providers_available : EmbeddingError L
  all_providers_failed : L → EmbeddingError L
  nil_pointer : EmbeddingError L

-- The error after the loop.
abbrev pub exhausted : {L : Type 0} → Option L → EmbeddingError L
exhausted none = no_providers_available
exhausted (some e) = all_providers_failed e

abbrev pub store : String → CircuitBreaker → Registry → Registry
store name cb r = record r { circuit_breakers = Dict.insert name cb r.circuit_breakers }

module _ {N E : Type 0} (z : N) (is_blank : String → Bool) where
  -- The call past the breaker, and what is reported to the breaker.
  abbrev pub call_provider : Reply N E → String → CircuitBreaker → Registry → Registry × Tried N E
  call_provider reply name cb r = elim reply.answer [
    | inl e ↦ (store name (record_failure reply.returned cb) r, refused (provider_failed name e))
    | inr result ↦ (store name (record_success cb) r, answered result)
  ]

  abbrev pub try_breaker :
      Reply N E → String → Option CircuitBreaker → Registry → Registry × Tried N E
  try_breaker reply name none r = (r, panicked)
  try_breaker reply name (some cb) r =
      if not (can_attempt reply.checked cb)
      then (r, refused circuit_breaker_open)
      else call_provider reply name cb r

  unfoldable pub try_provider : Env N E → ℕ → Provider → Registry → Registry × Tried N E
  try_provider env i p r =
      try_breaker (env i p.name) p.name (Dict.lookup p.name r.circuit_breakers) r

  -- A round of `GetEmbedding` after its attempt; `next` goes on with the loop.
  abbrev pub finish_round :
      Registry
      → Registry × Tried N E
      → (TryError E → Registry → Registry × (EmbeddingError (TryError E) ⊎ List N))
      → Registry × (EmbeddingError (TryError E) ⊎ List N)
  finish_round r (r', answered result) next =
      (r', inr (pad_to_target_dimensions z result.vector r.target_dimension))
  finish_round r (r', refused e) next = next e r'
  finish_round r (r', panicked) next = (r', inl nil_pointer)

  -- The loop of `GetEmbedding`.
  unfoldable pub embed_loop :
      Env N E
      → ℕ
      → List Provider
      → Option (TryError E)
      → Registry
      → Registry × (EmbeddingError (TryError E) ⊎ List N)
  embed_loop env i [] last_err r = (r, inl (exhausted last_err))
  embed_loop env i (p ∷ ps) last_err r =
      finish_round r (try_provider env i p r) (λ e. embed_loop env (suc i) ps (some e))

  abbrev pub embed_with :
      Env N E
      → Option (List Provider)
      → Registry
      → Registry × (EmbeddingError (TryError E) ⊎ List N)
  embed_with env none r = (r, inl nil_pointer)
  embed_with env (some []) r = (r, inl no_providers_available)
  embed_with env (some (p ∷ ps)) r = embed_loop env 0 (p ∷ ps) none r

  unfoldable pub get_embedding :
      Env N E → String → Registry → Registry × (EmbeddingError (TryError E) ⊎ List N)
  unfolding get_active_providers
  get_embedding env text r =
      if is_blank text then (r, inl empty_input) else embed_with env (get_active_providers r) r

  -- The rest of a round of `GetEmbeddingWithMetadata`, past the breaker; `next` goes on with the loop.
  abbrev pub metadata_answer :
      Reply N E
      → String
      → CircuitBreaker
      → Registry
      → (Option E → Registry → Registry × (EmbeddingError E ⊎ EmbeddingResult N))
      → Registry × (EmbeddingError E ⊎ EmbeddingResult N)
  metadata_answer reply name cb r next = elim reply.answer [
    | inl e ↦ next (some e) (store name (record_failure reply.returned cb) r)
    | inr result ↦ (
      store name (record_success cb) r,
      inr (record result {
        vector = pad_to_target_dimensions z result.vector r.target_dimension;
        dimensions = r.target_dimension;
      }),
    )
  ]

  abbrev pub metadata_round :
      Reply N E
      → String
      → Option CircuitBreaker
      → Option E
      → Registry
      → (Option E → Registry → Registry × (EmbeddingError E ⊎ EmbeddingResult N))
      → Registry × (EmbeddingError E ⊎ EmbeddingResult N)
  metadata_round reply name none last_err r next = (r, inl nil_pointer)
  metadata_round reply name (some cb) last_err r next =
      if not (can_attempt reply.checked cb)
      then next last_err r
      else metadata_answer reply name cb r next

  -- Its loop; a provider whose breaker is open leaves no error.
  unfoldable pub metadata_loop :
      Env N E
      → ℕ
      → List Provider
      → Option E
      → Registry
      → Registry × (EmbeddingError E ⊎ EmbeddingResult N)
  metadata_loop env i [] last_err r = (r, inl (exhausted last_err))
  metadata_loop env i (p ∷ ps) last_err r =
      metadata_round (env i p.name) p.name (Dict.lookup p.name r.circuit_breakers) last_err r
        (metadata_loop env (suc i) ps)

  abbrev pub metadata_with :
      Env N E
      → Option (List Provider)
      → Registry
      → Registry × (EmbeddingError E ⊎ EmbeddingResult N)
  metadata_with env none r = (r, inl nil_pointer)
  metadata_with env (some []) r = (r, inl no_providers_available)
  metadata_with env (some (p ∷ ps)) r = metadata_loop env 0 (p ∷ ps) none r

  unfoldable pub get_embedding_with_metadata :
      Env N E → String → Registry → Registry × (EmbeddingError E ⊎ EmbeddingResult N)
  unfolding get_active_providers
  get_embedding_with_metadata env text r =
      if is_blank text then (r, inl empty_input) else metadata_with env (get_active_providers r) r

abbrev pub provider_count : Registry → ℕ
provider_count r = length r.providers

abbrev pub provider_names : Registry → List String
provider_names r = r.order

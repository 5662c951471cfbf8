-- ===== src/Embeddings/Agreement.antt =====
-- `GetEmbedding` against `GetEmbeddingWithMetadata`.
use telegram_digest_bot.Base.{
  ℕ, zero, suc, ◌-◌, ◌≡◌, refl, ap, Bool, true, false, not, List, [], ◌∷◌, String, Option, none,
  some, ◌⊎◌, inl, inr, length, length-append, length-take, ltb, ◌==◌, if◌then◌else◌, Bool-cases,
  arith,
}
use telegram_digest_bot.Base.Dict
use telegram_digest_bot.Circuit.{CircuitBreaker, can_attempt}
use telegram_digest_bot.Embeddings.{
  EmbeddingResult, Provider, Registry, get_active_providers, zeros, pad_to_target_dimensions, Reply,
  Env, TryError, circuit_breaker_open, provider_failed, refused, EmbeddingError, empty_input,
  no_providers_available, all_providers_failed, nil_pointer, exhausted, try_breaker, try_provider,
  embed_loop, embed_with, get_embedding, metadata_round, metadata_answer, finish_round,
  call_provider, metadata_loop, metadata_with, get_embedding_with_metadata,
}

-- The last errors of the two loops: only that of `GetEmbedding` may be an open breaker.
data IsLast {E : Type 0} : Option (TryError E) → Option E → Type 0 where
  nothing_yet : IsLast none none
  skipped_only : IsLast (some circuit_breaker_open) none
  skipped_last : (e : E) → IsLast (some circuit_breaker_open) (some e)
  same_failure : (name : String) (e : E) → IsLast (some (provider_failed name e)) (some e)

-- Errors that the two methods return for one call: the same ones, except that after an open breaker
-- `GetEmbedding` reports it, and the other method the last answer of a provider or none available.
pub data IsAlike {E : Type 0} : EmbeddingError (TryError E) → EmbeddingError E → Type 0 where
  both_empty : IsAlike empty_input empty_input
  both_unavailable : IsAlike no_providers_available no_providers_available
  both_nil : IsAlike nil_pointer nil_pointer
  both_failed :
      (name : String) (e : E)
      → IsAlike (all_providers_failed (provider_failed name e)) (all_providers_failed e)
  open_and_failed :
      (e : E) → IsAlike (all_providers_failed circuit_breaker_open) (all_providers_failed e)
  open_and_unavailable : IsAlike (all_providers_failed circuit_breaker_open) no_providers_available

-- Results of the two methods: one vector of the target dimension, or errors that are alike.
pub data IsSameResult {N E : Type 0} (target : ℕ)
    : EmbeddingError (TryError E) ⊎ List N → EmbeddingError E ⊎ EmbeddingResult N → Type 0 where
  same_vector :
      (result : EmbeddingResult N)
      → length result.vector ≡ target
      → result.dimensions ≡ target
      → IsSameResult target (inr result.vector) (inr result)
  alike :
      (e : EmbeddingError (TryError E)) (e' : EmbeddingError E)
      → IsAlike e e'
      → IsSameResult target (inl e) (inl e')

exhausted-IsAlike :
    {E : Type 0} {last : Option (TryError E)} {last' : Option E}
    → IsLast last last'
    → IsAlike (exhausted last) (exhausted last')
exhausted-IsAlike nothing_yet = both_unavailable
exhausted-IsAlike skipped_only = open_and_unavailable
exhausted-IsAlike (skipped_last e) = open_and_failed e
exhausted-IsAlike (same_failure name e) = both_failed name e

skip-IsLast :
    {E : Type 0} {last : Option (TryError E)} {last' : Option E}
    → IsLast last last'
    → IsLast (some circuit_breaker_open) last'
skip-IsLast nothing_yet = skipped_only
skip-IsLast skipped_only = skipped_only
skip-IsLast (skipped_last e) = skipped_last e
skip-IsLast (same_failure name e) = skipped_last e

length-zeros : {N : Type 0} (z : N) (n : ℕ) → length (zeros z n) ≡ n
length-zeros z zero = refl
length-zeros z (suc n) = ap suc (length-zeros z n)

length-pad_to_target_dimensions :
    {N : Type 0} (z : N) (vec : List N) (target : ℕ)
    → length (pad_to_target_dimensions z vec target) ≡ target
unfolding pad_to_target_dimensions
length-pad_to_target_dimensions z vec target = elim (Bool-cases (length vec == target)) [
  | inl same ↦ rw same (ground (arith, same))
  | inr other ↦ elim (Bool-cases (ltb target (length vec))) [
    | inl long ↦ rw (other, long) (ground (arith, long, length-take target vec))
    | inr short ↦
        rw (other, short)
          (ground (
            arith,
            short,
            length-append vec (zeros z (target - length vec)),
            length-zeros z (target - length vec),
          ))
  ]
]

module _ {N E : Type 0} (z : N) (is_blank : String → Bool) (env : Env N E) where
  -- The same registry after both methods, and results that are the same.
  abbrev pub Agrees :
      ℕ
      → Registry × (EmbeddingError (TryError E) ⊎ List N)
      → Registry × (EmbeddingError E ⊎ EmbeddingResult N)
      → Type 0
  Agrees target a b = (a.0 ≡ b.0) × IsSameResult target a.1 b.1

  -- A round of the two loops, when what follows it agrees.
  module _ (r : Registry) (last : Option (TryError E)) (last' : Option E) (h : IsLast last last')
      (next : TryError E → Registry → Registry × (EmbeddingError (TryError E) ⊎ List N))
      (next' : Option E → Registry → Registry × (EmbeddingError E ⊎ EmbeddingResult N))
      (rest : (e : TryError E) (l' : Option E) (after : Registry)
        → IsLast (some e) l'
        → Agrees after.target_dimension (next e after) (next' l' after)) where
    answer-Agrees :
        (returned : ℕ) (answer : E ⊎ EmbeddingResult N) (checked : ℕ) (name : String)
        (cb : CircuitBreaker)
        → let reply : Reply N E = record {
          checked = checked;
          returned = returned;
          answer = answer;
        } in
          Agrees r.target_dimension
            (finish_round z is_blank r (call_provider z is_blank reply name cb r) next)
            (metadata_answer z is_blank reply name cb r next')
    answer-Agrees returned (inl e) checked name cb =
        rest (provider_failed name e) (some e) _ (same_failure name e)
    answer-Agrees returned (inr result) checked name cb = (
      refl,
      same_vector _ (length-pad_to_target_dimensions z result.vector r.target_dimension) refl,
    )

    round-Agrees :
        (reply : Reply N E) (name : String) (o : Option CircuitBreaker)
        → Agrees r.target_dimension
            (finish_round z is_blank r (try_breaker z is_blank reply name o r) next)
            (metadata_round z is_blank reply name o last' r next')
    round-Agrees reply name none = (refl, alike _ _ both_nil)
    round-Agrees reply name (some cb) = go (can_attempt reply.checked cb)
      where
        go :
            (b : Bool)
            → Agrees r.target_dimension
                (finish_round z is_blank r
                  (if not b
                    then (r, refused circuit_breaker_open)
                    else call_provider z is_blank reply name cb r)
                  next)
                (if not b then next' last' r else metadata_answer z is_blank reply name cb r next')
        go true = answer-Agrees reply.returned reply.answer reply.checked name cb
        go false = rest circuit_breaker_open last' r (skip-IsLast h)

  loops-Agrees :
      (i : ℕ) (ps : List Provider) (last : Option (TryError E)) (last' : Option E) (r : Registry)
      → IsLast last last'
      → Agrees r.target_dimension
          (embed_loop z is_blank env i ps last r)
          (metadata_loop z is_blank env i ps last' r)
  unfolding embed_loop metadata_loop try_provider
  loops-Agrees i [] last last' r h = (refl, alike _ _ (exhausted-IsAlike h))
  loops-Agrees i (p ∷ ps) last last' r h =
      round-Agrees r last last' h (λ e. embed_loop z is_blank env (suc i) ps (some e))
        (metadata_loop z is_blank env (suc i) ps)
        (λ e l' after h'. loops-Agrees (suc i) ps (some e) l' after h') (env i p.name) p.name
        (Dict.lookup p.name r.circuit_breakers)

  with-Agrees :
      (o : Option (List Provider)) (r : Registry)
      → Agrees r.target_dimension (embed_with z is_blank env o r) (metadata_with z is_blank env o r)
  with-Agrees none r = (refl, alike _ _ both_nil)
  with-Agrees (some []) r = (refl, alike _ _ both_unavailable)
  with-Agrees (some (p ∷ ps)) r = loops-Agrees 0 (p ∷ ps) none none r nothing_yet

  -- For the same providers' answers, `get_embedding` and `get_embedding_with_metadata` leave the same
  -- registry, and both return one vector, of the target dimension, or both an error; the errors are the
  -- same ones except after an open breaker, which only the first reports.
  pub get_embedding_lem :
      (text : String) (r : Registry)
      → Agrees r.target_dimension
          (get_embedding z is_blank env text r)
          (get_embedding_with_metadata z is_blank env text r)
  unfolding get_embedding get_embedding_with_metadata
  get_embedding_lem text r = elim (Bool-cases (is_blank text)) [
    | inl blank ↦ rw blank (refl, alike _ _ both_empty)
    | inr filled ↦ rw filled (with-Agrees (get_active_providers r) r)
  ]

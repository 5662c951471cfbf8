-- ===== src/Registry/Order.antt =====
-- The order in which the registry of registry.go keeps its providers.
use telegram_digest_bot.Base.{
  ℕ, ◌≤◌, refl, ◌≢◌, List, [], ◌∷◌, ◌++◌, String, none, All, All-append, In, here, there,
  In-append_left, In-append_right, arith, ltb, Bool-cases, inl, inr, str_eq, eq_iff, subst,
}
use telegram_digest_bot.Base.Dict
use telegram_digest_bot.Base.Dict.{lookup-insert, lookup-insert_self}
use telegram_digest_bot.Circuit.{CircuitBreakerConfig, new_circuit_breaker, CircuitBreaker}
use telegram_digest_bot.Registry.{
  Provider, Registry, priority_of, insert_by_priority, sort_by_priority, register,
}

-- Priorities do not rise along the list.
abbrev pub IsFalling : List (String × Provider) → List String → Type 0
IsFalling providers [] = Unit
IsFalling providers (name ∷ names) =
    All (λ other. priority_of providers other ≤ priority_of providers name) names
    × IsFalling providers names

module _ (providers : List (String × Provider)) where
  All-insert_by_priority :
      (P : String → Type 0) (name : String) (names : List String)
      → P name
      → All P names
      → All P (insert_by_priority providers name names)
  unfolding insert_by_priority
  All-insert_by_priority P name [] h hs = (h, tt)
  All-insert_by_priority P name (other ∷ names) h (ho, hs) =
      elim (Bool-cases (ltb (priority_of providers name) (priority_of providers other))) [
        | inl less ↦ rw less (ho, All-insert_by_priority P name names h hs)
        | inr more ↦ rw more (h, (ho, hs))
      ]

  All-sort_by_priority :
      (P : String → Type 0) (names : List String)
      → All P names
      → All P (sort_by_priority providers names)
  unfolding sort_by_priority
  All-sort_by_priority P [] hs = tt
  All-sort_by_priority P (name ∷ names) (h, hs) =
      All-insert_by_priority P name (sort_by_priority providers names) h
        (All-sort_by_priority P names hs)

  All-le :
      (bound bound' : ℕ) (names : List String)
      → bound ≤ bound'
      → All (λ other. priority_of providers other ≤ bound) names
      → All (λ other. priority_of providers other ≤ bound') names
  All-le bound bound' [] h hs = tt
  All-le bound bound' (name ∷ names) h (hn, hs) = (omega arith, All-le bound bound' names h hs)

  insert_by_priority-IsFalling :
      (name : String) (names : List String)
      → IsFalling providers names
      → IsFalling providers (insert_by_priority providers name names)
  unfolding insert_by_priority
  insert_by_priority-IsFalling name [] s = (tt, tt)
  insert_by_priority-IsFalling name (other ∷ names) (low, s) =
      elim (Bool-cases (ltb (priority_of providers name) (priority_of providers other))) [
        | inl less ↦ rw less (
          All-insert_by_priority (λ n. priority_of providers n ≤ priority_of providers other) name
              names (ground arith) low,
          insert_by_priority-IsFalling name names s,
        )
        | inr more ↦ rw more (
          (
            ground arith,
            All-le (priority_of providers other) (priority_of providers name) names (ground arith)
                low,
          ),
          (low, s),
        )
      ]

  sort_by_priority-IsFalling :
      (names : List String) → IsFalling providers (sort_by_priority providers names)
  unfolding sort_by_priority
  sort_by_priority-IsFalling [] = tt
  sort_by_priority-IsFalling (name ∷ names) =
      insert_by_priority-IsFalling name (sort_by_priority providers names)
        (sort_by_priority-IsFalling names)

  In-insert_by_priority_self :
      (name : String) (names : List String) → In name (insert_by_priority providers name names)
  unfolding insert_by_priority
  In-insert_by_priority_self name [] = here refl
  In-insert_by_priority_self name (other ∷ names) =
      elim (Bool-cases (ltb (priority_of providers name) (priority_of providers other))) [
        | inl less ↦ rw less (there (In-insert_by_priority_self name names))
        | inr more ↦ rw more (here refl)
      ]

  In-insert_by_priority :
      (n name : String) (names : List String)
      → In n names
      → In n (insert_by_priority providers name names)
  unfolding insert_by_priority
  In-insert_by_priority n name [] m = elim m [ ]
  In-insert_by_priority n name (other ∷ names) (here e) =
      elim (Bool-cases (ltb (priority_of providers name) (priority_of providers other))) [
        | inl less ↦ rw less (here e)
        | inr more ↦ rw more (there (here e))
      ]
  In-insert_by_priority n name (other ∷ names) (there m) =
      elim (Bool-cases (ltb (priority_of providers name) (priority_of providers other))) [
        | inl less ↦ rw less (there (In-insert_by_priority n name names m))
        | inr more ↦ rw more (there (there m))
      ]

  In-sort_by_priority :
      (n : String) (names : List String) → In n names → In n (sort_by_priority providers names)
  unfolding sort_by_priority
  In-sort_by_priority n [] m = elim m [ ]
  In-sort_by_priority n (name ∷ names) (here e) =
      subst (λ m. In m (insert_by_priority providers name (sort_by_priority providers names))) e
        (In-insert_by_priority_self name (sort_by_priority providers names))
  In-sort_by_priority n (name ∷ names) (there m) =
      In-insert_by_priority n name (sort_by_priority providers names)
        (In-sort_by_priority n names m)

-- Every name of the order has a provider and a breaker, every provider is in the order, and the order
-- goes by falling priority.
pub record IsWellFormed (r : Registry) : Type 0 where
  pub known :
      All
        (λ name.
          (Dict.lookup name r.providers ≢ none) × (Dict.lookup name r.circuit_breakers ≢ none))
        r.order
  pub listed : (name : String) → Dict.lookup name r.providers ≢ none → In name r.order
  pub falling : IsFalling r.providers r.order

-- An insertion removes no key.
lookup-insert-ne-none {ℓ} :
    {V : Type ℓ} (key name : String) (v : V) (m : List (String × V))
    → Dict.lookup name m ≢ none
    → Dict.lookup name (Dict.insert key v m) ≢ none
lookup-insert-ne-none key name v m h = ground (arith, lookup-insert key name v m)

insert-known :
    (p : Provider) (cb : CircuitBreaker) (r : Registry) (names : List String)
    → All
        (λ name.
          (Dict.lookup name r.providers ≢ none) × (Dict.lookup name r.circuit_breakers ≢ none))
        names
    → All
        (λ name.
          (Dict.lookup name (Dict.insert p.name p r.providers) ≢ none)
          × (Dict.lookup name (Dict.insert p.name cb r.circuit_breakers) ≢ none))
        names
insert-known p cb r [] h = tt
insert-known p cb r (name ∷ names) ((has, has_cb), rest) = (
  (
    lookup-insert-ne-none p.name name p r.providers has,
    lookup-insert-ne-none p.name name cb r.circuit_breakers has_cb,
  ),
  insert-known p cb r names rest,
)

lookup-insert_here {ℓ} :
    {V : Type ℓ} (key : String) (v : V) (m : List (String × V))
    → Dict.lookup key (Dict.insert key v m) ≢ none
lookup-insert_here key v m = ground (arith, lookup-insert_self key v m)

register-listed :
    (p : Provider) (r : Registry) (name : String)
    → ((name : String) → Dict.lookup name r.providers ≢ none → In name r.order)
    → Dict.lookup name (Dict.insert p.name p r.providers) ≢ none
    → In name (r.order ++ p.name ∷ [])
register-listed p r name listed has = elim (Bool-cases (str_eq p.name name)) [
  | inl same ↦ In-append_right r.order (p.name ∷ []) (here ((eq_iff p.name name).0 same))
  | inr other ↦
      In-append_left r.order (p.name ∷ [])
        (listed name (ground (arith, lookup-insert p.name name p r.providers)))
]

-- Registering a provider keeps the registry well formed, also under a name that is registered.
pub register-IsWellFormed :
    (p : Provider) (cfg : CircuitBreakerConfig) (r : Registry)
    → IsWellFormed r
    → IsWellFormed (register p cfg r)
unfolding register
register-IsWellFormed p cfg r wf = record {
  known = All-sort_by_priority providers' _ (r.order ++ p.name ∷ []) (
      All-append _ r.order (p.name ∷ [])
        (insert-known p (new_circuit_breaker cfg) r r.order wf.known)
        (
          (
            lookup-insert_here p.name p r.providers,
            lookup-insert_here p.name (new_circuit_breaker cfg) r.circuit_breakers,
          ),
          tt,
        ));
  listed = λ name has.
      In-sort_by_priority providers' name (r.order ++ p.name ∷ [])
        (register-listed p r name wf.listed has);
  falling = sort_by_priority-IsFalling providers' (r.order ++ p.name ∷ []);
}
  where
    providers' : List (String × Provider)
    providers' = Dict.insert p.name p r.providers

-- ===== src/Registry/Chain.antt =====
-- `getProviderChainForTask` of registry.go: the task's own providers, then all others.
use telegram_digest_bot.Base.{
  ◌≡◌, refl, ◌∙◌, IsSublist, done, skip, copy, Option, Bool, true, false, List, [], ◌∷◌, ◌++◌, map,
  String, none, some, All, In, here, there, ap, any, arith, Bool-cases, inl, inr, ◌⊎◌, str_eq,
  eq_iff, if◌then◌else◌, In-append_left, In-append_right, subst, sym, append_assoc, append-nil,
}
use telegram_digest_bot.Base.Dict
use telegram_digest_bot.Registry.{ProviderModel, TaskProviderChain, Registry, get_provider_chain}

-- `seen[name]`
abbrev pub has : String → List String → Bool
has name = any (λ other. str_eq other name)

-- The names of a chain.
abbrev pub names : List ProviderModel → List String
names = map (λ pm. pm.provider)

-- The loop over the order: it appends each name that was not seen, with no model.
unfoldable pub add_remaining : List String → List String → List ProviderModel → List ProviderModel
add_remaining [] seen chain = chain
add_remaining (name ∷ order) seen chain =
    let known = add_remaining order seen chain in
    let fresh =
      add_remaining order (name ∷ seen) (chain ++ record { provider = name; model = "" } ∷ []) in
    if has name seen then known else fresh

-- The chain that is configured for a task, or none.
abbrev pub configured : String → Registry → List ProviderModel
configured task r = elim (Dict.lookup task r.task_config) [
  | some tc ↦ get_provider_chain tc
  | none ↦ []
]

unfoldable pub get_provider_chain_for_task : String → Registry → List ProviderModel
unfolding add_remaining
get_provider_chain_for_task task r =
    add_remaining r.order (names (configured task r)) (configured task r)

abbrev bare : String → ProviderModel
bare name = record { provider = name; model = "" }

-- The names of the order that were not seen, each once.
remaining : List String → List String → List ProviderModel
remaining seen [] = []
remaining seen (name ∷ order) =
    let known = remaining seen order in
    let fresh = bare name ∷ remaining (name ∷ seen) order in if has name seen then known else fresh

add_remaining-eq-append :
    (order seen : List String) (chain : List ProviderModel)
    → add_remaining order seen chain ≡ chain ++ remaining seen order
unfolding add_remaining remaining
add_remaining-eq-append [] seen chain = sym (append-nil chain)
add_remaining-eq-append (name ∷ order) seen chain = elim (Bool-cases (has name seen)) [
  | inl old ↦ rw old (add_remaining-eq-append order seen chain)
  | inr new ↦ rw new (
      rw (add_remaining-eq-append order (name ∷ seen) (chain ++ bare name ∷ []))
        (append_assoc chain (bare name ∷ []) _))
]

-- A provider that a chain falls back on without a model of its own.
abbrev pub IsExtra : List String → ProviderModel → Type 0
IsExtra seen pm = (pm.model ≡ "") × (has pm.provider seen ≡ false)

abbrev pub IsDistinct : List String → Type 0
IsDistinct [] = Unit
IsDistinct (name ∷ others) = (has name others ≡ false) × IsDistinct others

weaken :
    (name : String) (seen : List String) (pms : List ProviderModel)
    → All (IsExtra (name ∷ seen)) pms
    → All (IsExtra seen) pms × (has name (names pms) ≡ false)
weaken name seen [] h = (tt, refl)
weaken name seen (pm ∷ pms) (h, hs) =
    let ih = weaken name seen pms hs in
    ((ground arith, ih.0), ground (arith, ih, eq_iff name pm.provider, eq_iff pm.provider name))

remaining-IsExtra :
    (seen order : List String)
    → All (IsExtra seen) (remaining seen order) × IsDistinct (names (remaining seen order))
unfolding remaining
remaining-IsExtra seen [] = (tt, tt)
remaining-IsExtra seen (name ∷ order) = elim (Bool-cases (has name seen)) [
  | inl old ↦ rw old (remaining-IsExtra seen order)
  | inr new ↦
      let ih = remaining-IsExtra (name ∷ seen) order in
      let w = weaken name seen (remaining (name ∷ seen) order) ih.0 in
      rw new (((refl, new), w.0), (w.1, ih.1))
]

has_of_In : (name : String) (seen : List String) → In name seen → has name seen ≡ true
has_of_In name (other ∷ seen) (here e) = ground (arith, eq_iff other name)
has_of_In name (other ∷ seen) (there m) = ground (arith, has_of_In name seen m)
has_of_In name [] m = elim m [ ]

In_of_has : (name : String) (seen : List String) → has name seen ≡ true → In name seen
In_of_has name [] h = absurd (cc)
In_of_has name (other ∷ seen) h = elim (Bool-cases (str_eq other name)) [
  | inl same ↦ here ((eq_iff other name).0 same)
  | inr differ ↦ there (In_of_has name seen (ground arith))
]

covers_fresh :
    (name other : String) (seen : List String) (pms : List ProviderModel)
    → In name (names pms) ⊎ (has name (other ∷ seen) ≡ true)
    → In name (names (bare other ∷ pms)) ⊎ (has name seen ≡ true)
covers_fresh name other seen pms (inl m) = inl (there m)
covers_fresh name other seen pms (inr h) = elim (Bool-cases (str_eq other name)) [
  | inl same ↦ inl (here ((eq_iff other name).0 same))
  | inr differ ↦ inr (ground arith)
]

remaining-covers :
    (name : String) (seen order : List String)
    → In name order
    → In name (names (remaining seen order)) ⊎ (has name seen ≡ true)
unfolding remaining
remaining-covers name seen [] m = elim m [ ]
remaining-covers name seen (other ∷ order) (here e) = elim (Bool-cases (has other seen)) [
  | inl old ↦ inr (subst (λ n. has n seen ≡ true) e old)
  | inr new ↦ rw new (inl (here e))
]
remaining-covers name seen (other ∷ order) (there m) = elim (Bool-cases (has other seen)) [
  | inl old ↦ rw old (remaining-covers name seen order m)
  | inr new ↦ rw new (
      covers_fresh name other seen (remaining (other ∷ seen) order)
        (remaining-covers name (other ∷ seen) order m))
]

configured-eq :
    (task : String) (r : Registry)
    → get_provider_chain_for_task task r
      ≡ configured task r ++ remaining (names (configured task r)) r.order
unfolding get_provider_chain_for_task
configured-eq task r =
    add_remaining-eq-append r.order (names (configured task r)) (configured task r)

-- Spec of the chain that is configured for a task: its default, then its fallbacks.
abbrev pub own_chain : Option TaskProviderChain → List ProviderModel
own_chain none = []
own_chain (some tc) = tc.default ∷ tc.fallbacks

-- The names of the providers of a chain.
abbrev pub providers_of : List ProviderModel → List String
providers_of = map (λ pm. pm.provider)

-- A provider that is not in another chain and has no model of its own.
abbrev pub IsFallback : List ProviderModel → ProviderModel → Type 0
IsFallback own pm = (pm.model ≡ "") × (In pm.provider (providers_of own) → ⊥)

-- No name stands twice.
abbrev pub AreDistinct : List String → Type 0
AreDistinct [] = Unit
AreDistinct (name ∷ others) = (In name others → ⊥) × AreDistinct others

own_chain-configured :
    (task : String) (r : Registry) → configured task r ≡ own_chain (Dict.lookup task r.task_config)
unfolding get_provider_chain
own_chain-configured task r = go (Dict.lookup task r.task_config)
  where
    go :
        (o : Option TaskProviderChain)
        → elim o [ some tc ↦ get_provider_chain tc | none ↦ [] ] ≡ own_chain o
    go none = refl
    go (some tc) = refl

not_In : (name : String) (seen : List String) → has name seen ≡ false → In name seen → ⊥
not_In name seen h m = absurd (ground (arith, h, has_of_In name seen m))

All-IsFallback :
    (own pms : List ProviderModel) → All (IsExtra (names own)) pms → All (IsFallback own) pms
All-IsFallback own [] h = tt
All-IsFallback own (pm ∷ pms) ((bare_model, new), h) =
    ((bare_model, not_In pm.provider (names own) new), All-IsFallback own pms h)

IsDistinct-AreDistinct : (ns : List String) → IsDistinct ns → AreDistinct ns
IsDistinct-AreDistinct [] h = tt
IsDistinct-AreDistinct (name ∷ ns) (new, h) = (not_In name ns new, IsDistinct-AreDistinct ns h)

remaining-IsSublist :
    (seen order : List String) → IsSublist (providers_of (remaining seen order)) order
unfolding remaining
remaining-IsSublist seen [] = done
remaining-IsSublist seen (name ∷ order) = elim (Bool-cases (has name seen)) [
  | inl old ↦ rw old (skip (remaining-IsSublist seen order))
  | inr new ↦ rw new (copy (remaining-IsSublist (name ∷ seen) order))
]

names-append : (pms qms : List ProviderModel) → names (pms ++ qms) ≡ names pms ++ names qms
names-append [] qms = refl
names-append (pm ∷ pms) qms = ap (λ ns. pm.provider ∷ ns) (names-append pms qms)

-- Every registered provider is in the chain of every task.
get_provider_chain_for_task-covers :
    (task name : String) (r : Registry)
    → In name r.order
    → In name (names (get_provider_chain_for_task task r))
get_provider_chain_for_task-covers task name r m =
    rw (configured-eq task r) (rw names-append (go (remaining-covers name own r.order m)))
  where
    own : List String
    own = names (configured task r)

    rest : List String
    rest = names (remaining own r.order)

    go : In name rest ⊎ (has name own ≡ true) → In name (own ++ rest)
    go (inl k) = In-append_right own rest k
    go (inr h) = In-append_left own rest (In_of_has name own h)

-- The chain of a task begins with the default and the fallbacks that are configured for it, if any; what
-- follows are registered providers in their order that are not among these, each once and without a
-- model; and the chain has every registered provider.
pub get_provider_chain_for_task_lem :
    (task : String) (r : Registry)
    → (extra : List ProviderModel) × (get_provider_chain_for_task task r
        ≡ own_chain (Dict.lookup task r.task_config) ++ extra)
      × All (IsFallback (own_chain (Dict.lookup task r.task_config))) extra
      × AreDistinct (providers_of extra)
      × IsSublist (providers_of extra) r.order
      × ((name : String)
          → In name r.order
          → In name (providers_of (get_provider_chain_for_task task r)))
get_provider_chain_for_task_lem task r =
    let own = configured task r in
    let extra = remaining (names own) r.order in
    let facts = remaining-IsExtra (names own) r.order in
    let same = own_chain-configured task r in
    (
      extra,
      configured-eq task r ∙ ap (λ l. l ++ extra) same,
      subst (λ l. All (IsFallback l) extra) same (All-IsFallback own extra facts.0),
      IsDistinct-AreDistinct (names extra) facts.1,
      remaining-IsSublist (names own) r.order,
      λ name m. get_provider_chain_for_task-covers task name r m,
    )

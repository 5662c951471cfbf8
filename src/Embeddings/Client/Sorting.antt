-- ===== src/Embeddings/Client/Sorting.antt =====
-- The registration of providers with the fixed priorities of openai.go, cohere.go and google.go.
use telegram_digest_bot.Base.{
  ℕ, zero, suc, ◌+◌, ◌≤◌, ◌≡◌, refl, ap, ◌∙◌, Bool, true, false, List, [], ◌∷◌, ◌++◌, String,
  Option, none, some, inl, inr, length, ltb, ◌==◌, if◌then◌else◌, str_eq, Bool-cases, arith,
}
use telegram_digest_bot.Base.Dict
use telegram_digest_bot.Base.Dict.{lookup-insert, lookup-insert_self}
use telegram_digest_bot.Circuit.{CircuitBreakerConfig}
use telegram_digest_bot.Embeddings.{
  Provider, Registry, register, priority_of, insert_by_priority, sort_providers_by_priority,
}

-- A name repeated before other names.
abbrev pub repeat : String → ℕ → List String → List String
repeat name zero names = names
repeat name (suc n) names = name ∷ repeat name n names

-- Numbers of the three providers, in the order of their fixed priorities.
abbrev pub by_priority : ℕ → ℕ → ℕ → List String
by_priority a b c = repeat "openai" a (repeat "cohere" b (repeat "google" c []))

abbrev pub occurrences : String → List String → ℕ
occurrences name [] = 0
occurrences name (other ∷ names) = (if str_eq other name then 1 else 0) + occurrences name names

-- The providers that are counted have their fixed priorities.
abbrev pub HasPriorities : List (String × Provider) → ℕ → ℕ → ℕ → Type 0
HasPriorities providers a b c =
    (1 ≤ a → priority_of providers "openai" ≡ 100)
    × (1 ≤ b → priority_of providers "cohere" ≡ 50)
    × (1 ≤ c → priority_of providers "google" ≡ 25)

repeat-append :
    (name : String) (n : ℕ) (names rest : List String)
    → repeat name n names ++ rest ≡ repeat name n (names ++ rest)
repeat-append name zero names rest = refl
repeat-append name (suc n) names rest = ap (λ l. name ∷ l) (repeat-append name n names rest)

by_priority-append :
    (a b c : ℕ) (rest : List String)
    → by_priority a b c ++ rest ≡ repeat "openai" a (repeat "cohere" b (repeat "google" c rest))
by_priority-append a b c rest =
    repeat-append "openai" a (repeat "cohere" b (repeat "google" c [])) rest
    ∙ ap (repeat "openai" a) (
        repeat-append "cohere" b (repeat "google" c []) rest
        ∙ ap (repeat "cohere" b) (repeat-append "google" c [] rest))

module _ (providers : List (String × Provider)) where
  abbrev rises : String → String → Bool
  rises name other = ltb (priority_of providers name) (priority_of providers other)

  insert_openai :
      (a b c : ℕ)
      → HasPriorities providers (suc a) b c
      → insert_by_priority providers "openai" (by_priority a b c) ≡ by_priority (suc a) b c
  unfolding insert_by_priority
  insert_openai (suc a) b c (ho, hc, hg) =
      let stops : rises "openai" "openai" ≡ false = ground arith in rw stops refl
  insert_openai zero (suc b) c (ho, hc, hg) =
      let stops : rises "openai" "cohere" ≡ false = ground (arith, ho, hc) in rw stops refl
  insert_openai zero zero (suc c) (ho, hc, hg) =
      let stops : rises "openai" "google" ≡ false = ground (arith, ho, hg) in rw stops refl
  insert_openai zero zero zero h = refl

  insert_cohere :
      (a b c : ℕ)
      → HasPriorities providers a (suc b) c
      → insert_by_priority providers "cohere" (by_priority a b c) ≡ by_priority a (suc b) c
  unfolding insert_by_priority
  insert_cohere (suc a) b c (ho, hc, hg) =
      let passes : rises "cohere" "openai" ≡ true = ground (arith, ho, hc) in
      rw passes (ap (λ l. "openai" ∷ l) (insert_cohere a b c (λ le. ho (omega arith), hc, hg)))
  insert_cohere zero (suc b) c (ho, hc, hg) =
      let stops : rises "cohere" "cohere" ≡ false = ground arith in rw stops refl
  insert_cohere zero zero (suc c) (ho, hc, hg) =
      let stops : rises "cohere" "google" ≡ false = ground (arith, hc, hg) in rw stops refl
  insert_cohere zero zero zero h = refl

  insert_google :
      (a b c : ℕ)
      → HasPriorities providers a b (suc c)
      → insert_by_priority providers "google" (by_priority a b c) ≡ by_priority a b (suc c)
  unfolding insert_by_priority
  insert_google (suc a) b c (ho, hc, hg) =
      let passes : rises "google" "openai" ≡ true = ground (arith, ho, hg) in
      rw passes (ap (λ l. "openai" ∷ l) (insert_google a b c (λ le. ho (omega arith), hc, hg)))
  insert_google zero (suc b) c (ho, hc, hg) =
      let passes : rises "google" "cohere" ≡ true = ground (arith, hc, hg) in
      rw passes (ap (λ l. "cohere" ∷ l) (insert_google zero b c (ho, λ le. hc (omega arith), hg)))
  insert_google zero zero (suc c) (ho, hc, hg) =
      let stops : rises "google" "google" ≡ false = ground arith in rw stops refl
  insert_google zero zero zero h = refl

  -- Names in order before some others that are sorted.
  sort_repeated :
      (a b c x y w : ℕ) (rest : List String)
      → HasPriorities providers (a + x) (b + y) (c + w)
      → sort_providers_by_priority providers rest ≡ by_priority x y w
      → sort_providers_by_priority providers
          (repeat "openai" a (repeat "cohere" b (repeat "google" c rest)))
        ≡ by_priority (a + x) (b + y) (c + w)
  unfolding sort_providers_by_priority
  sort_repeated (suc a) b c x y w rest (ho, hc, hg) h =
      let e : suc (a + x) ≡ suc a + x = omega arith in
      ap (insert_by_priority providers "openai")
        (sort_repeated a b c x y w rest (λ le. ho (omega (arith, le)), hc, hg) h)
      ∙ insert_openai (a + x) (b + y) (c + w) (λ le. ho (omega arith), hc, hg)
      ∙ ap (λ n. by_priority n (b + y) (c + w)) e
  sort_repeated zero (suc b) c x y w rest (ho, hc, hg) h =
      let e : suc (b + y) ≡ suc b + y = omega arith in
      ap (insert_by_priority providers "cohere")
        (sort_repeated zero b c x y w rest (ho, λ le. hc (omega (arith, le)), hg) h)
      ∙ insert_cohere (0 + x) (b + y) (c + w) (ho, λ le. hc (omega arith), hg)
      ∙ ap (λ n. by_priority (0 + x) n (c + w)) e
  sort_repeated zero zero (suc c) x y w rest (ho, hc, hg) h =
      let e : suc (c + w) ≡ suc c + w = omega arith in
      ap (insert_by_priority providers "google")
        (sort_repeated zero zero c x y w rest (ho, hc, λ le. hg (omega (arith, le))) h)
      ∙ insert_google (0 + x) (0 + y) (c + w) (ho, hc, λ le. hg (omega arith))
      ∙ ap (λ n. by_priority (0 + x) (0 + y) n) e
  sort_repeated zero zero zero x y w rest hs h =
      let ex : x ≡ 0 + x = omega arith in
      let ey : y ≡ 0 + y = omega arith in
      let ew : w ≡ 0 + w = omega arith in
      h
      ∙ ap (λ n. by_priority n y w) ex
      ∙ ap (λ n. by_priority (0 + x) n w) ey
      ∙ ap (λ n. by_priority (0 + x) (0 + y) n) ew

pub priority_of-insert :
    (key name : String) (p : Provider) (providers : List (String × Provider))
    → priority_of (Dict.insert key p providers) name
      ≡ (if str_eq key name then p.priority else priority_of providers name)
priority_of-insert key name p providers =
    ap (λ (o : Option Provider). elim o [ some q ↦ q.priority | none ↦ 0 ])
      (lookup-insert key name p providers)
    ∙ elim (Bool-cases (str_eq key name)) [ inl same ↦ rw same refl | inr other ↦ rw other refl ]

length-insert :
    (key : String) (p : Provider) (providers : List (String × Provider))
    → 1 ≤ length (Dict.insert key p providers)
unfolding Dict.insert
length-insert key p [] = omega arith
length-insert key p ((other, q) ∷ providers) = elim (Bool-cases (str_eq other key)) [
  | inl same ↦ rw same (omega arith)
  | inr different ↦ rw different (omega arith)
]

-- A registry of providers in these numbers.
abbrev pub HasProviders : Registry → ℕ → ℕ → ℕ → Type 0
HasProviders r a b c =
    (r.order ≡ by_priority a b c)
    × HasPriorities r.providers a b c
    × ((length r.providers == 0) ≡ (a + b + c == 0))

module _ (cfg : CircuitBreakerConfig) (r : Registry) (a b c : ℕ) (h : HasProviders r a b c) where
  pub register-HasProviders :
      (p : Provider) (x y w : ℕ)
      → HasPriorities (Dict.insert p.name p r.providers) (a + x) (b + y) (c + w)
      → (p.name ∷ []) ≡ by_priority x y w
      → 1 ≤ x + y + w
      → HasProviders (register p cfg r) (a + x) (b + y) (c + w)
  unfolding register sort_providers_by_priority insert_by_priority
  register-HasProviders p x y w fits one more =
      let order_is = h.0 in
      (
        ap (λ l. sort_providers_by_priority (Dict.insert p.name p r.providers) (l ++ p.name ∷ []))
              order_is
            ∙ ap (sort_providers_by_priority (Dict.insert p.name p r.providers))
                (by_priority-append a b c (p.name ∷ []))
            ∙ sort_repeated (Dict.insert p.name p r.providers) a b c x y w (p.name ∷ []) fits one,
        fits,
        ground (arith, more, length-insert p.name p r.providers),
      )

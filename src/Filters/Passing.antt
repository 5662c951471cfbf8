-- ===== src/Filters/Passing.antt =====
-- Which messages pass the filters.
use telegram_digest_bot.Base.{
  ℕ, ◌≡◌, refl, sym, ap, subst, ◌⊎◌, inl, inr, Bool, true, false, not, ◌&&◌, ◌||◌, List, [], ◌∷◌,
  String, any, All, In, here, there, str_eq, arith, Bool-cases, ◌↔◌,
}
use telegram_digest_bot.Filters.{
  Filter, Filterer, is_shorter, contains_ads, uses_deny, uses_allow, matches_deny_filter,
  allow_loop, fails_allow_filter, is_filtered,
}

any-false {ℓ} :
    {A : Type ℓ} (p : A → Bool) (xs : List A) → any p xs ≡ false → All (λ x. p x ≡ false) xs
any-false p [] h = tt
any-false p (x ∷ xs) h = (ground (arith, h), any-false p xs (ground (arith, h)))

All-any {ℓ} :
    {A : Type ℓ} (p : A → Bool) (xs : List A) → All (λ x. p x ≡ false) xs → any p xs ≡ false
All-any p [] h = refl
All-any p (x ∷ xs) (hx, h) = ground (arith, hx, All-any p xs h)

module _ (fold : String → String) (contains : String → String → Bool)
    (byte_length : String → ℕ) where
  -- An allow pattern occurs in the text.
  abbrev pub IsAllowed : String → List Filter → Type 0
  IsAllowed lower_text filters =
      (x : Filter) × In x filters
      × (str_eq x.kind "allow" ≡ true)
      × (contains lower_text (fold x.pattern_text) ≡ true)

  -- What the settings of a filterer ask of a text that passes.
  abbrev pub Passes : Filterer → String → Type 0
  Passes f text =
      (is_shorter (byte_length text) f.min_length ≡ false)
      × ((f.ads_enabled ≡ false)
          ⊎ All (λ kw. contains (fold text) (fold kw) ≡ false) f.ads_keywords)
      × ((uses_deny fold contains byte_length f.mode ≡ false)
          ⊎ All (λ x. (str_eq x.kind "deny" && contains (fold text) (fold x.pattern_text)) ≡ false)
              f.filters)
      × ((uses_allow fold contains byte_length f.mode ≡ false)
          ⊎ (All (λ x. str_eq x.kind "allow" ≡ false) f.filters ⊎ IsAllowed (fold text) f.filters))

  -- What the two flags of the loop say at its end.
  allow_loop_lem :
      (text : String) (filters : List Filter) (has : Bool)
      → ((allow_loop fold contains byte_length text filters has false).0
          && not (allow_loop fold contains byte_length text filters has false).1)
        ≡ false
      → ((has ≡ false) × All (λ x. str_eq x.kind "allow" ≡ false) filters) ⊎ IsAllowed text filters
  allow_loop_lem text [] has h = inl (ground (arith, h), tt)
  allow_loop_lem text (x ∷ filters) has h =
      elim (Bool-cases (str_eq x.kind "allow" && contains text (fold x.pattern_text))) [
        | inl hit ↦ inr (x, here refl, ground (arith, hit), ground (arith, hit))
        | inr miss ↦
            elim (allow_loop_lem text filters (has || str_eq x.kind "allow") (
              subst
                (λ b.
                  ((allow_loop fold contains byte_length text filters (has || str_eq x.kind "allow")
                      b).0
                    && not
                        (allow_loop fold contains byte_length text filters
                          (has || str_eq x.kind "allow") b).1)
                  ≡ false)
                miss h)) [
                  | inl (none_before, h') ↦
                      inl (ground (arith, none_before), (ground (arith, none_before), h'))
                  | inr (y, m, kind_is, occurs) ↦ inr (y, there m, kind_is, occurs)
                ]
      ]

  allow_loop-matched :
      (text : String) (filters : List Filter) (has : Bool)
      → (allow_loop fold contains byte_length text filters has true).1 ≡ true
  allow_loop-matched text [] has = refl
  allow_loop-matched text (x ∷ filters) has =
      allow_loop-matched text filters (has || str_eq x.kind "allow")

  allow_loop-IsAllowed :
      (text : String) (filters : List Filter) (has matched : Bool)
      → IsAllowed text filters
      → (allow_loop fold contains byte_length text filters has matched).1 ≡ true
  allow_loop-IsAllowed text [] has matched (x, m, _, _) = elim m [ ]
  allow_loop-IsAllowed text (y ∷ filters) has matched (x, here e, kind_is, occurs) =
      subst
        (λ b.
          (allow_loop fold contains byte_length text filters (has || str_eq y.kind "allow") b).1
          ≡ true)
        (ground (
          arith,
          kind_is,
          occurs,
          ap (λ z. str_eq z.kind "allow") e,
          ap (λ z. contains text (fold z.pattern_text)) e,
        ))
        (allow_loop-matched text filters (has || str_eq y.kind "allow"))
  allow_loop-IsAllowed text (y ∷ filters) has matched (x, there m, kind_is, occurs) =
      allow_loop-IsAllowed text filters (has || str_eq y.kind "allow")
        (matched || (str_eq y.kind "allow" && contains text (fold y.pattern_text)))
        (x, m, kind_is, occurs)

  allow_loop-no_filter :
      (text : String) (filters : List Filter) (matched : Bool)
      → All (λ x. str_eq x.kind "allow" ≡ false) filters
      → (allow_loop fold contains byte_length text filters false matched).0 ≡ false
  allow_loop-no_filter text [] matched h = refl
  allow_loop-no_filter text (x ∷ filters) matched (hx, h) =
      subst
        (λ b.
          (allow_loop fold contains byte_length text filters b
            (matched || (str_eq x.kind "allow" && contains text (fold x.pattern_text)))).0
          ≡ false)
        (sym hx) (allow_loop-no_filter text filters _ h)

  is_filtered-Passes :
      (f : Filterer) (text : String)
      → is_filtered fold contains byte_length f text ≡ false
      → Passes f text
  unfolding is_filtered contains_ads matches_deny_filter fails_allow_filter
  is_filtered-Passes f text h = (
    ground (arith, h),
    elim (Bool-cases f.ads_enabled) [
      | inr off ↦ inl off
      | inl on ↦ inr (any-false _ f.ads_keywords (ground (arith, h, on)))
    ],
    elim (Bool-cases (uses_deny fold contains byte_length f.mode)) [
      | inr off ↦ inl off
      | inl on ↦ inr (any-false _ f.filters (ground (arith, h, on)))
    ],
    elim (Bool-cases (uses_allow fold contains byte_length f.mode)) [
      | inr off ↦ inl off
      | inl on ↦ inr (elim (allow_loop_lem (fold text) f.filters false (ground (arith, h, on))) [
        | inl (_, no_filter) ↦ inl no_filter
        | inr allowed ↦ inr allowed
      ])
    ],
  )

  contains_ads-Passes :
      (f : Filterer) (text : String)
      → Passes f text
      → contains_ads fold contains byte_length f (fold text) ≡ false
  unfolding contains_ads
  contains_ads-Passes f text (_, inl off, _, _) = ground (arith, off)
  contains_ads-Passes f text (_, inr free, _, _) =
      ground (arith, All-any (λ kw. contains (fold text) (fold kw)) f.ads_keywords free)

  matches_deny_filter-Passes :
      (f : Filterer) (text : String)
      → Passes f text
      → matches_deny_filter fold contains byte_length f (fold text) ≡ false
  unfolding matches_deny_filter
  matches_deny_filter-Passes f text (_, _, inl off, _) = ground (arith, off)
  matches_deny_filter-Passes f text (_, _, inr free, _) = ground (
    arith,
    All-any (λ x. str_eq x.kind "deny" && contains (fold text) (fold x.pattern_text)) f.filters
        free,
  )

  fails_allow_filter-Passes :
      (f : Filterer) (text : String)
      → Passes f text
      → fails_allow_filter fold contains byte_length f (fold text) ≡ false
  unfolding fails_allow_filter
  fails_allow_filter-Passes f text (_, _, _, inl off) = ground (arith, off)
  fails_allow_filter-Passes f text (_, _, _, inr (inl no_filter)) =
      ground (arith, allow_loop-no_filter (fold text) f.filters false no_filter)
  fails_allow_filter-Passes f text (_, _, _, inr (inr allowed)) =
      ground (arith, allow_loop-IsAllowed (fold text) f.filters false false allowed)

  -- A text is not filtered exactly when it is long enough, has no advertising keyword while these are
  -- looked for, matches no deny pattern where the mode reads these, and matches an allow pattern where
  -- the mode reads these and there is one.
  pub is_filtered_iff :
      (f : Filterer) (text : String)
      → (is_filtered fold contains byte_length f text ≡ false) ↔ Passes f text
  unfolding is_filtered
  is_filtered_iff f text = (
    is_filtered-Passes f text,
    λ p. ground (
      arith,
      p.0,
      contains_ads-Passes f text p,
      matches_deny_filter-Passes f text p,
      fails_allow_filter-Passes f text p,
    ),
  )

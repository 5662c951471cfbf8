-- ===== src/Evidence/Providers/Search.antt =====
-- What `SearchWithFallback` of providers.go returns.
use telegram_digest_bot.Base.{
  ℕ, ◌≡◌, refl, sym, ap, subst, ◌∙◌, true, false, List, [], ◌∷◌, map, String, Option, none, some,
  Option-cases, Bool-cases, inl, inr, In, here, there, In-append_left, arith, if◌then◌else◌,
}
use telegram_digest_bot.Evidence.Select.{
  FanOutResult, Event, received, Selection, found, no_providers_available, is_empty,
  select_best_result,
}
use telegram_digest_bot.Evidence.Select.Best.{best_of, best_of-maximal}
use telegram_digest_bot.Evidence.Select.Ends.{shown, Decides, select_best_result_sound}
use telegram_digest_bot.Evidence.Providers.{
  Provider, ProviderRegistry, report_all, check_provider, get_active_providers, fan_out,
  search_with_fallback, is_none,
}

module _ {A E : Type 0} where
  check_provider-available :
      (now : ℕ) (p : Provider A E) (r : ProviderRegistry A E)
      → (check_provider now p r).1 ≡ true
      → p.is_available ≡ true
  unfolding check_provider
  check_provider-available now p r h = ground arith

  -- A provider that is asked is registered and available.
  In-get_active_providers :
      (now : String → ℕ) (ps : List (String × Provider A E)) (r : ProviderRegistry A E)
      (p : Provider A E)
      → In p (get_active_providers now ps r).1
      → ((name : String) × In (name, p) ps) × (p.is_available ≡ true)
  unfolding get_active_providers
  In-get_active_providers now [] r p m = elim m [ ]
  In-get_active_providers now ((name, q) ∷ ps) r p m =
      let rec = λ (k : In p others). deeper (In-get_active_providers now ps r' p k) in
      elim (Bool-cases (check_provider (now name) q r).1) [
        | inl active ↦
            asked active rec (subst (λ b. In p (if b then q ∷ others else others)) active m)
        | inr idle ↦ rec (subst (λ b. In p (if b then q ∷ others else others)) idle m)
      ]
    where
      r' : ProviderRegistry A E
      r' = (check_provider (now name) q r).0

      others : List (Provider A E)
      others = (get_active_providers now ps r').1

      Asked : List (String × Provider A E) → Type 0
      Asked qs = ((n : String) × In (n, p) qs) × (p.is_available ≡ true)

      deeper : Asked ps → Asked ((name, q) ∷ ps)
      deeper ((n, k), is) = ((n, there k), is)

      asked :
          (check_provider (now name) q r).1 ≡ true
          → (In p others → Asked ((name, q) ∷ ps))
          → In p (q ∷ others)
          → Asked ((name, q) ∷ ps)
      asked active rec (here e) = (
        (name, here (ap (λ x. (name, x)) e)),
        subst (λ x. x.is_available ≡ true) e (check_provider-available (now name) q r active),
      )
      asked active rec (there k) = rec k

  In-map :
      {B : Type 0} (f : Provider A E → B) (ps : List (Provider A E)) (b : B)
      → In b (map f ps)
      → (p : Provider A E) × In p ps × (f p ≡ b)
  In-map f [] b m = elim m [ ]
  In-map f (p ∷ ps) b (here e) = (p, here refl, e)
  In-map f (p ∷ ps) b (there m) = let (q, k, e) = In-map f ps b m in (q, there k, e)

  -- The registered and available provider that a returned answer comes from.
  abbrev pub IsAnswer : (String → E → E) → List (String × Provider A E) → List A → String → Type 0
  IsAnswer wrap providers rs name =
      (p : Provider A E) × ((key : String) × In (key, p) providers)
      × (p.is_available ≡ true)
      × ((fan_out wrap p).err ≡ none)
      × ((fan_out wrap p).results ≡ rs)
      × ((fan_out wrap p).name ≡ name)
      × (is_empty rs ≡ false)

  chosen :
      (grace : ℕ) (wrap : String → E → E) (checked : String → ℕ)
      (interleave : List (FanOutResult A E) → List (Event A E)) (r : ProviderRegistry A E)
      (rs : List A) (name : String)
      → ((sent : List (FanOutResult A E)) (res : FanOutResult A E)
          → In (received res) (interleave sent)
          → In res sent)
      → select_best_result grace
          (interleave (map (fan_out wrap) (get_active_providers checked r.providers r).1))
        ≡ some (found rs name)
      → IsAnswer wrap r.providers rs name
  chosen grace wrap checked interleave r rs name honest ended =
      go (select_best_result_sound grace (interleave sent) (found rs name) ended)
    where
      active : List (Provider A E)
      active = (get_active_providers checked r.providers r).1

      sent : List (FanOutResult A E)
      sent = map (fan_out wrap) active

      go : Decides (interleave sent) (found rs name) → IsAnswer wrap r.providers rs name
      go (seen, unseen, split, shows) = elim (Option-cases (best_of seen)) [
        | inl nothing ↦ absurd (cc)
        | inr (res, best) ↦
            let (m, useful, maximal) = best_of-maximal seen res best in
            let sent_it =
              honest sent res
                (subst (In (received res)) (sym split) (In-append_left seen unseen m)) in
            let (p, k, is) = In-map (fan_out wrap) active res sent_it in
            let (reg, avail) = In-get_active_providers checked r.providers r p k in
            let same = subst (λ b. shown b ≡ some (rs, name)) best shows in
            let rs_is : res.results ≡ rs = ground (arith, same) in
            let name_is : res.name ≡ name = ground (arith, same) in
            (
              p,
              reg,
              avail,
              ap (λ x. x.err) is ∙ useful.0,
              ap (λ x. x.results) is ∙ rs_is,
              ap (λ x. x.name) is ∙ name_is,
              ap is_empty (sym rs_is) ∙ useful.1,
            )
      ]

  -- Provided that the loop receives only what a goroutine has sent, the results and the name that a
  -- search returns are the answer, without an error and not empty, of a provider that is registered and
  -- available.
  pub search_with_fallback_sound :
      (wrap : String → E → E) (checked returned : String → ℕ)
      (interleave : List (FanOutResult A E) → List (Event A E)) (r : ProviderRegistry A E)
      (rs : List A) (name : String)
      → ((sent : List (FanOutResult A E)) (res : FanOutResult A E)
          → In (received res) (interleave sent)
          → In res sent)
      → (search_with_fallback wrap checked returned interleave r).1 ≡ some (found rs name)
      → IsAnswer wrap r.providers rs name
  unfolding search_with_fallback
  search_with_fallback_sound wrap checked returned interleave r rs name honest ended =
      elim (Bool-cases (is_none active)) [
        | inl idle ↦ absurd (grind (arith, idle, ended))
        | inr busy ↦ chosen r'.grace_period wrap checked interleave r rs name honest (
            subst
              (λ b.
                second (
                  if b
                  then (r', some no_providers_available)
                  else (report_all wrap returned active r', selected))
                ≡ some (found rs name))
              busy ended)
      ]
    where
      second : ProviderRegistry A E × Option (Selection A E) → Option (Selection A E)
      second x = x.1

      r' : ProviderRegistry A E
      r' = (get_active_providers checked r.providers r).0

      active : List (Provider A E)
      active = (get_active_providers checked r.providers r).1

      selected : Option (Selection A E)
      selected = select_best_result r'.grace_period (interleave (map (fan_out wrap) active))

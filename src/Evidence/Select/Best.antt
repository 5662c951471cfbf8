-- ===== src/Evidence/Select/Best.antt =====
-- The best of the results that `selectBestResult` of providers.go receives.
use telegram_digest_bot.Base.{
  ℕ, suc, ◌≤◌, ◌≡◌, refl, sym, ap, subst, ◌∙◌, false, List, [], ◌∷◌, ◌++◌, Option, none, some, ◌⊎◌,
  inl, inr, All, In, here, there, arith, if◌then◌else◌,
}
use telegram_digest_bot.Evidence.Select.{
  FanOutResult, Event, grace_over, cancelled, received, channel_closed, is_empty, better,
}

module _ {A E : Type 0} where
  -- A result that counts: no error, and something found.
  abbrev pub IsUseful : FanOutResult A E → Type 0
  IsUseful res = (res.err ≡ none) × (is_empty res.results ≡ false)

  -- The useful result of highest priority among those received, the first of its priority.
  abbrev pub prefer : FanOutResult A E → Option (FanOutResult A E) → Option (FanOutResult A E)
  prefer res best = elim res.err [
    | some e ↦ best
    | none ↦ if better res best then some res else best
  ]

  abbrev pub best_from : Option (FanOutResult A E) → List (Event A E) → Option (FanOutResult A E)
  best_from best [] = best
  best_from best (received res ∷ es) = best_from (prefer res best) es
  best_from best (grace_over ∷ es) = best_from best es
  best_from best (cancelled e ∷ es) = best_from best es
  best_from best (channel_closed ∷ es) = best_from best es

  abbrev pub best_of : List (Event A E) → Option (FanOutResult A E)
  best_of = best_from none

  -- The error of the last provider that failed.
  abbrev pub last_err_from : Option E → List (Event A E) → Option E
  last_err_from last [] = last
  last_err_from last (received res ∷ es) =
      last_err_from (elim res.err [ some e ↦ some e | none ↦ last ]) es
  last_err_from last (grace_over ∷ es) = last_err_from last es
  last_err_from last (cancelled e ∷ es) = last_err_from last es
  last_err_from last (channel_closed ∷ es) = last_err_from last es

  pub best_from-append :
      (es fs : List (Event A E)) (best : Option (FanOutResult A E))
      → best_from best (es ++ fs) ≡ best_from (best_from best es) fs
  best_from-append [] fs best = refl
  best_from-append (received res ∷ es) fs best = best_from-append es fs (prefer res best)
  best_from-append (grace_over ∷ es) fs best = best_from-append es fs best
  best_from-append (cancelled e ∷ es) fs best = best_from-append es fs best
  best_from-append (channel_closed ∷ es) fs best = best_from-append es fs best

  pub last_err_from-append :
      (es fs : List (Event A E)) (last : Option E)
      → last_err_from last (es ++ fs) ≡ last_err_from (last_err_from last es) fs
  last_err_from-append [] fs last = refl
  last_err_from-append (received res ∷ es) fs last =
      last_err_from-append es fs (elim res.err [ some e ↦ some e | none ↦ last ])
  last_err_from-append (grace_over ∷ es) fs last = last_err_from-append es fs last
  last_err_from-append (cancelled e ∷ es) fs last = last_err_from-append es fs last
  last_err_from-append (channel_closed ∷ es) fs last = last_err_from-append es fs last

  -- A useful result has no higher priority than the best.
  abbrev pub IsBelow : FanOutResult A E → Event A E → Type 0
  IsBelow best (received res) = IsUseful res → res.priority ≤ best.priority
  IsBelow best grace_over = Unit
  IsBelow best (cancelled e) = Unit
  IsBelow best channel_closed = Unit

  -- 0 before any result, and then one more than the priority.
  abbrev rank : Option (FanOutResult A E) → ℕ
  rank none = 0
  rank (some res) = suc res.priority

  rank-prefer :
      (res : FanOutResult A E) (best : Option (FanOutResult A E))
      → (rank best ≤ rank (prefer res best))
        × (IsUseful res → suc res.priority ≤ rank (prefer res best))
  rank-prefer res none = (ground arith, λ useful. ground arith)
  rank-prefer res (some b) = (ground arith, λ useful. ground arith)

  rank-best_from :
      (es : List (Event A E)) (best : Option (FanOutResult A E))
      → rank best ≤ rank (best_from best es)
  rank-best_from [] best = omega arith
  rank-best_from (received res ∷ es) best =
      omega (arith, (rank-prefer res best).0, rank-best_from es (prefer res best))
  rank-best_from (grace_over ∷ es) best = rank-best_from es best
  rank-best_from (cancelled e ∷ es) best = rank-best_from es best
  rank-best_from (channel_closed ∷ es) best = rank-best_from es best

  best_from-maximal :
      (es : List (Event A E)) (begin : Option (FanOutResult A E)) (b : FanOutResult A E)
      → best_from begin es ≡ some b
      → All (IsBelow b) es
  best_from-maximal [] begin b e = tt
  best_from-maximal (received res ∷ es) begin b e = (
    λ useful.
        omega (
          arith,
          (rank-prefer res begin).1 useful,
          rank-best_from es (prefer res begin),
          ap rank e,
        ),
    best_from-maximal es (prefer res begin) b e,
  )
  best_from-maximal (grace_over ∷ es) begin b e = (tt, best_from-maximal es begin b e)
  best_from-maximal (cancelled x ∷ es) begin b e = (tt, best_from-maximal es begin b e)
  best_from-maximal (channel_closed ∷ es) begin b e = (tt, best_from-maximal es begin b e)

  prefer-cases :
      (res : FanOutResult A E) (best : Option (FanOutResult A E))
      → (prefer res best ≡ best) ⊎ ((prefer res best ≡ some res) × IsUseful res)
  prefer-cases res best = ground arith

  later :
      {x : Event A E} (es : List (Event A E)) (begin : Option (FanOutResult A E))
      (b : FanOutResult A E)
      → (begin ≡ some b) ⊎ (In (received b) es × IsUseful b)
      → (begin ≡ some b) ⊎ (In (received b) (x ∷ es) × IsUseful b)
  later es begin b (inl e) = inl e
  later es begin b (inr (m, useful)) = inr (there m, useful)

  best_from-received :
      (es : List (Event A E)) (begin : Option (FanOutResult A E)) (b : FanOutResult A E)
      → best_from begin es ≡ some b
      → (begin ≡ some b) ⊎ (In (received b) es × IsUseful b)
  best_from-received [] begin b e = inl e
  best_from-received (received res ∷ es) begin b e =
      elim (best_from-received es (prefer res begin) b e) [
        | inr (m, useful) ↦ inr (there m, useful)
        | inl taken ↦ elim (prefer-cases res begin) [
          | inl kept ↦ inl (sym kept ∙ taken)
          | inr (new, useful) ↦
              let same : res ≡ b = cc (new, taken) in
              inr (here (ap received same), subst IsUseful same useful)
        ]
      ]
  best_from-received (grace_over ∷ es) begin b e =
      later es begin b (best_from-received es begin b e)
  best_from-received (cancelled x ∷ es) begin b e =
      later es begin b (best_from-received es begin b e)
  best_from-received (channel_closed ∷ es) begin b e =
      later es begin b (best_from-received es begin b e)

  -- The best result was received and is useful, and no useful result received has a higher priority.
  pub best_of-maximal :
      (es : List (Event A E)) (best : FanOutResult A E)
      → best_of es ≡ some best
      → In (received best) es × IsUseful best × All (IsBelow best) es
  best_of-maximal es best e = elim (best_from-received es none best e) [
    | inl bad ↦ absurd (cc)
    | inr (m, useful) ↦ (m, useful, best_from-maximal es none best e)
  ]

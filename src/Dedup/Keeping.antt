-- ===== src/Dedup/Keeping.antt =====
-- What the removal of similar items keeps and drops.
use telegram_digest_bot.Base.{
  ◌≡◌, refl, sym, subst, ◌⊎◌, inl, inr, Bool, true, false, List, [], ◌∷◌, ◌++◌, append_assoc,
  append-nil, String, any, All, All-append, In, here, there, In-append_left, In-append_right,
  IsSublist, done, skip, copy, arith, Bool-cases,
}
use telegram_digest_bot.Base.Float.{FloatOps}
use telegram_digest_bot.Dedup.{
  is_empty, is_similar, keep_or_drop, deduplicate_from, deduplicate_scorables,
}

any-In {ℓ} :
    {A : Type ℓ} (p : A → Bool) (xs : List A) → any p xs ≡ true → (k : A) × In k xs × (p k ≡ true)
any-In p [] h = absurd cc
any-In p (x ∷ xs) h = elim (Bool-cases (p x)) [
  | inl holds ↦ (x, here refl, holds)
  | inr fails ↦ let (k, m, is) = any-In p xs (ground (arith, h, fails)) in (k, there m, is)
]

any-All {ℓ} :
    {A : Type ℓ} (p : A → Bool) (xs : List A) → any p xs ≡ false → All (λ k. p k ≡ false) xs
any-All p [] h = tt
any-All p (x ∷ xs) h = (ground (arith, h), any-All p xs (ground (arith, h)))

All-any {ℓ} :
    {A : Type ℓ} (p : A → Bool) (xs : List A) → All (λ k. p k ≡ false) xs → any p xs ≡ false
All-any p [] h = refl
All-any p (x ∷ xs) (hx, h) = ground (arith, hx, All-any p xs h)

IsSublist-snoc {ℓ} :
    {A : Type ℓ} (x : A) (xs ys : List A)
    → IsSublist xs ys
    → IsSublist (xs ++ x ∷ []) (ys ++ x ∷ [])
IsSublist-snoc x [] [] done = copy done
IsSublist-snoc x (_ ∷ xs) [] s = elim s [ ]
IsSublist-snoc x xs (y ∷ ys) (skip s) = skip (IsSublist-snoc x xs ys s)
IsSublist-snoc x (_ ∷ xs) (y ∷ ys) (copy s) = copy (IsSublist-snoc x xs ys s)

IsSublist-drop_last {ℓ} :
    {A : Type ℓ} (x : A) (xs ys : List A) → IsSublist xs ys → IsSublist xs (ys ++ x ∷ [])
IsSublist-drop_last x [] [] done = skip done
IsSublist-drop_last x (_ ∷ xs) [] s = elim s [ ]
IsSublist-drop_last x xs (y ∷ ys) (skip s) = skip (IsSublist-drop_last x xs ys s)
IsSublist-drop_last x (_ ∷ xs) (y ∷ ys) (copy s) = copy (IsSublist-drop_last x xs ys s)

module _ (F : FloatOps) {T : Type 0} (get_id : T → String) (get_embedding : T → List F.Num)
    (threshold : F.Num) where
  abbrev similar : T → T → Bool
  similar = is_similar F get_id get_embedding threshold

  -- A later item with an embedding is not similar to an earlier one.
  abbrev pub IsApart : T → T → Type 0
  IsApart later earlier =
      (is_empty (get_embedding later) ≡ true)
      ⊎ (is_similar F get_id get_embedding threshold later earlier ≡ false)

  abbrev pub IsPairwiseApart : List T → Type 0
  IsPairwiseApart [] = Unit
  IsPairwiseApart (x ∷ xs) = All (λ later. IsApart later x) xs × IsPairwiseApart xs

  -- An item is kept, or similar to a kept one.
  abbrev pub IsCovered : List T → T → Type 0
  IsCovered result x =
      In x result
      ⊎ ((k : T) × In k result × (is_similar F get_id get_embedding threshold x k ≡ true))

  IsCovered-append : (xs ys : List T) (x : T) → IsCovered xs x → IsCovered (xs ++ ys) x
  IsCovered-append xs ys x (inl m) = inl (In-append_left xs ys m)
  IsCovered-append xs ys x (inr (k, m, is)) = inr (k, In-append_left xs ys m, is)

  IsPairwiseApart-snoc :
      (xs : List T) (x : T)
      → IsPairwiseApart xs
      → All (IsApart x) xs
      → IsPairwiseApart (xs ++ x ∷ [])
  IsPairwiseApart-snoc [] x h a = (tt, tt)
  IsPairwiseApart-snoc (y ∷ ys) x (hy, h) (ay, a) =
      (All-append (λ later. IsApart later y) ys (x ∷ []) hy (ay, tt), IsPairwiseApart-snoc ys x h a)

  -- What a result has to be for the items seen so far.
  abbrev pub IsDeduplicated : List T → List T → Type 0
  IsDeduplicated items result =
      IsSublist result items × IsPairwiseApart result × All (IsCovered result) items

  All-IsCovered_append :
      (xs ys seen : List T) → All (IsCovered xs) seen → All (IsCovered (xs ++ ys)) seen
  All-IsCovered_append xs ys [] h = tt
  All-IsCovered_append xs ys (x ∷ seen) (hx, h) =
      (IsCovered-append xs ys x hx, All-IsCovered_append xs ys seen h)

  kept_one :
      (seen result : List T) (item : T)
      → IsDeduplicated seen result
      → All (IsApart item) result
      → IsDeduplicated (seen ++ item ∷ []) (result ++ item ∷ [])
  kept_one seen result item (sub, apart, covered) a = (
    IsSublist-snoc item result seen sub,
    IsPairwiseApart-snoc result item apart a,
    All-append _ seen (item ∷ []) (All-IsCovered_append result (item ∷ []) seen covered)
        (inl (In-append_right result (item ∷ []) (here refl)), tt),
  )

  vacuous : (item : T) (xs : List T) → is_empty (get_embedding item) ≡ true → All (IsApart item) xs
  vacuous item [] h = tt
  vacuous item (x ∷ xs) h = (inl h, vacuous item xs h)

  All-IsApart :
      (item : T) (xs : List T) → All (λ k. similar item k ≡ false) xs → All (IsApart item) xs
  All-IsApart item [] h = tt
  All-IsApart item (x ∷ xs) (hx, h) = (inr hx, All-IsApart item xs h)

  keep_or_drop-IsDeduplicated :
      (seen result : List T) (item : T)
      → IsDeduplicated seen result
      → IsDeduplicated
          (seen ++ item ∷ [])
          (keep_or_drop F get_id get_embedding threshold result item)
  unfolding keep_or_drop
  keep_or_drop-IsDeduplicated seen result item d =
      elim (Bool-cases (is_empty (get_embedding item))) [
        | inl bare ↦
            subst Good (ground (arith, bare))
              (kept_one seen result item d (vacuous item result bare))
        | inr full ↦ elim (Bool-cases (any (similar item) result)) [
          | inl found ↦
              let (sub, apart, covered) = d in
              subst Good (ground (arith, full, found)) (
                IsSublist-drop_last item result seen sub,
                apart,
                All-append _ seen (item ∷ []) covered
                    (inr (any-In (similar item) result found), tt),
              )
          | inr new ↦ subst Good (ground (arith, full, new)) (
              kept_one seen result item d
                (All-IsApart item result (any-All (similar item) result new)))
        ]
      ]
    where
      Good : List T → Type 0
      Good = IsDeduplicated (seen ++ item ∷ [])

  deduplicate_from-IsDeduplicated :
      (seen result items : List T)
      → IsDeduplicated seen result
      → IsDeduplicated
          (seen ++ items)
          (deduplicate_from F get_id get_embedding threshold result items)
  unfolding deduplicate_from
  deduplicate_from-IsDeduplicated seen result [] d =
      subst (λ xs. IsDeduplicated xs result) (sym (append-nil seen)) d
  deduplicate_from-IsDeduplicated seen result (item ∷ items) d =
      subst
        (λ xs. IsDeduplicated xs (
          deduplicate_from F get_id get_embedding threshold
            (keep_or_drop F get_id get_embedding threshold result item) items))
        (append_assoc seen (item ∷ []) items)
        (deduplicate_from-IsDeduplicated (seen ++ item ∷ [])
          (keep_or_drop F get_id get_embedding threshold result item) items
          (keep_or_drop-IsDeduplicated seen result item d))

  -- The items that remain stand in their order, no later one with an embedding is similar to an earlier
  -- one, and every item that is gone is similar to one that remains.
  pub deduplicate_scorables-IsDeduplicated :
      (items : List T)
      → IsDeduplicated items (deduplicate_scorables F get_id get_embedding threshold items)
  unfolding deduplicate_scorables
  deduplicate_scorables-IsDeduplicated items =
      deduplicate_from-IsDeduplicated [] [] items (done, tt, tt)

-- ===== src/Digest/Topics/Length.antt =====
-- How many items the balance of topics selects, and in which order.
use telegram_digest_bot.Base.{
  ℕ, zero, suc, ◌+◌, min, ◌≤◌, ◌≡◌, refl, ap, subst, ◌∙◌, Bool, true, false, List, [], ◌∷◌, map,
  String, Option, none, some, inl, inr, length, take, length-take, IsSublist, done, skip, copy, ltb,
  arith, Bool-cases,
}
use telegram_digest_bot.Base.Float.{FloatOps}
use telegram_digest_bot.Base.Int.{ℤ, pos, negsuc}
use telegram_digest_bot.Digest.Topics.Filling.{
  Fills, ended, full, passed, capped, chosen, fill_from-Fills,
}
use telegram_digest_bot.Digest.Topics.{
  TopicCandidate, Selected, mark, selected_count, selected_items, pick, clamp_min_topics,
  select_initial_top_n, calculate_max_per_topic, seed, get_topic_candidates, fill_remaining_slots,
  capped_selection, balance, build_topic_balance_result, apply_topic_balance,
  apply_topic_balance_and_limit,
}

clamp_min_topics-le : (m : ℤ) (target : ℕ) → clamp_min_topics m target ≤ target
clamp_min_topics-le (pos m) target = ground arith
clamp_min_topics-le (negsuc m) target = omega arith

take-IsSublist {ℓ} : {A : Type ℓ} (n : ℕ) (xs : List A) → IsSublist (take n xs) xs
take-IsSublist zero [] = done
take-IsSublist zero (x ∷ xs) = skip (take-IsSublist zero xs)
take-IsSublist (suc n) [] = done
take-IsSublist (suc n) (x ∷ xs) = copy (take-IsSublist n xs)

IsSublist-refl {ℓ} : {A : Type ℓ} (xs : List A) → IsSublist xs xs
IsSublist-refl [] = done
IsSublist-refl (x ∷ xs) = copy (IsSublist-refl xs)

module _ {A : Type 0} where
  abbrev pub slot_items : List (A × Bool) → List A
  slot_items slots = map (λ s. s.0) slots

  selected_items-IsSublist :
      (slots : List (A × Bool)) → IsSublist (selected_items slots) (slot_items slots)
  selected_items-IsSublist [] = done
  selected_items-IsSublist ((x, true) ∷ slots) = copy (selected_items-IsSublist slots)
  selected_items-IsSublist ((x, false) ∷ slots) = skip (selected_items-IsSublist slots)

  length-selected_items :
      (slots : List (A × Bool)) → length (selected_items slots) ≡ selected_count slots
  length-selected_items [] = refl
  length-selected_items ((x, true) ∷ slots) = ap suc (length-selected_items slots)
  length-selected_items ((x, false) ∷ slots) = length-selected_items slots

  pub slot_items-pick :
      (n : ℕ) (slots : List (A × Bool)) → slot_items (pick n slots) ≡ slot_items slots
  slot_items-pick n [] = refl
  slot_items-pick zero (s ∷ slots) = refl
  slot_items-pick (suc n) (s ∷ slots) = ap (λ xs. s.0 ∷ xs) (slot_items-pick n slots)

  selected_count-pick :
      (n : ℕ) (slots : List (A × Bool)) → selected_count (pick n slots) ≤ suc (selected_count slots)
  selected_count-pick n [] = omega arith
  selected_count-pick zero ((x, picked) ∷ slots) = ground arith
  selected_count-pick (suc n) ((x, picked) ∷ slots) = ground (arith, selected_count-pick n slots)

module _ {A : Type 0} (normalize : String → String) (topic : A → String) where
  pub slot_items-mark :
      (c : TopicCandidate) (s : Selected A)
      → slot_items (mark normalize topic c s).slots ≡ slot_items s.slots
  unfolding mark
  slot_items-mark c s = ground (arith, slot_items-pick c.index s.slots)

  pub slot_items-seed :
      (n : ℕ) (topics : List TopicCandidate) (s : Selected A)
      → slot_items (seed normalize topic n topics s).slots ≡ slot_items s.slots
  unfolding seed
  slot_items-seed zero topics s = refl
  slot_items-seed (suc n) [] s = refl
  slot_items-seed (suc n) (c ∷ topics) s =
      slot_items-seed n topics (mark normalize topic c s) ∙ slot_items-mark c s

  selected_count-mark :
      (c : TopicCandidate) (s : Selected A)
      → selected_count (mark normalize topic c s).slots ≤ suc (selected_count s.slots)
  unfolding mark
  selected_count-mark c s = ground (arith, selected_count-pick c.index s.slots)

  pub selected_count-seed :
      (n : ℕ) (topics : List TopicCandidate) (s : Selected A)
      → selected_count (seed normalize topic n topics s).slots ≤ n + selected_count s.slots
  unfolding seed
  selected_count-seed zero topics s = omega arith
  selected_count-seed (suc n) [] s = omega arith
  selected_count-seed (suc n) (c ∷ topics) s =
      omega
        (arith, selected_count-seed n topics (mark normalize topic c s), selected_count-mark c s)

  module _ (target : ℕ) (limit : Option ℕ) where
    slot_items-Fills :
        {n : ℕ} {counts counts' : List (String × ℕ)} (slots slots' : List (A × Bool))
        → Fills normalize topic target limit n counts slots slots' counts'
        → slot_items slots' ≡ slot_items slots
    slot_items-Fills _ _ ended = refl
    slot_items-Fills _ _ (full h) = refl
    slot_items-Fills ((x, _) ∷ slots) (_ ∷ slots') (passed h f) =
        ap (λ xs. x ∷ xs) (slot_items-Fills slots slots' f)
    slot_items-Fills ((x, _) ∷ slots) (_ ∷ slots') (capped h e f) =
        ap (λ xs. x ∷ xs) (slot_items-Fills slots slots' f)
    slot_items-Fills ((x, _) ∷ slots) (_ ∷ slots') (chosen h e f) =
        ap (λ xs. x ∷ xs) (slot_items-Fills slots slots' f)

    -- A pass never exceeds the target.
    selected_count-Fills :
        {counts counts' : List (String × ℕ)} (n : ℕ) (slots slots' : List (A × Bool))
        → Fills normalize topic target limit n counts slots slots' counts'
        → n ≤ target
        → n + selected_count slots' ≤ target + selected_count slots
    selected_count-Fills n _ _ ended h = omega arith
    selected_count-Fills n _ _ (full _) h = omega arith
    selected_count-Fills n (_ ∷ slots) (_ ∷ slots') (passed _ f) h =
        omega (arith, selected_count-Fills n slots slots' f h)
    selected_count-Fills n (_ ∷ slots) (_ ∷ slots') (capped _ _ f) h =
        selected_count-Fills n slots slots' f h
    selected_count-Fills n (_ ∷ slots) (_ ∷ slots') (chosen less _ f) h =
        omega (arith, selected_count-Fills (suc n) slots slots' f less)

  -- Without a cap, a pass reaches the target if there are enough items.
  selected_count-Fills_uncapped :
      (target : ℕ) {counts counts' : List (String × ℕ)} (n : ℕ) (slots slots' : List (A × Bool))
      → Fills normalize topic target none n counts slots slots' counts'
      → n ≤ target
      → target + selected_count slots ≤ n + length slots
      → n + selected_count slots' ≡ target + selected_count slots
  selected_count-Fills_uncapped target n [] [] ended h enough = omega arith
  selected_count-Fills_uncapped target n _ _ (full over) h enough = omega arith
  selected_count-Fills_uncapped target n (_ ∷ slots) (_ ∷ slots') (passed _ f) h enough =
      omega (arith, selected_count-Fills_uncapped target n slots slots' f h (omega (arith, enough)))
  selected_count-Fills_uncapped target n (_ ∷ slots) (_ ∷ slots') (capped _ e f) h enough =
      absurd (grind (arith, e))
  selected_count-Fills_uncapped target n (_ ∷ slots) (_ ∷ slots') (chosen less _ f) h enough =
      omega (
        arith,
        selected_count-Fills_uncapped target (suc n) slots slots' f less (omega (arith, enough)),
      )

  module _ (target : ℕ) (s : Selected A) where
    pub slot_items-fill :
        (limit : Option ℕ)
        → slot_items (fill_remaining_slots normalize topic target limit s).slots
          ≡ slot_items s.slots
    unfolding fill_remaining_slots
    slot_items-fill limit = slot_items-Fills target limit s.slots _ (
        fill_from-Fills normalize topic target limit (selected_count s.slots) s.slots
          s.topic_counts)

    pub selected_count-fill :
        (limit : Option ℕ)
        → selected_count s.slots ≤ target
        → selected_count (fill_remaining_slots normalize topic target limit s).slots ≤ target
    unfolding fill_remaining_slots
    selected_count-fill limit h = omega (
      arith,
      selected_count-Fills target limit (selected_count s.slots) s.slots _
          (fill_from-Fills normalize topic target limit (selected_count s.slots) s.slots
            s.topic_counts)
          h,
    )

    pub selected_count-fill_uncapped :
        selected_count s.slots ≤ target
        → target ≤ length s.slots
        → selected_count (fill_remaining_slots normalize topic target none s).slots ≡ target
    unfolding fill_remaining_slots
    selected_count-fill_uncapped h enough = omega (
      arith,
      selected_count-Fills_uncapped target (selected_count s.slots) s.slots _
          (fill_from-Fills normalize topic target none (selected_count s.slots) s.slots
            s.topic_counts)
          h (omega arith),
    )

  length-slot_items : (slots : List (A × Bool)) → length (slot_items slots) ≡ length slots
  length-slot_items [] = refl
  length-slot_items (slot ∷ slots) = ap suc (length-slot_items slots)

  pub slot_items-unselected : (items : List A) → slot_items (map (λ x. (x, false)) items) ≡ items
  slot_items-unselected [] = refl
  slot_items-unselected (x ∷ items) = ap (λ xs. x ∷ xs) (slot_items-unselected items)

  selected_count-unselected : (items : List A) → selected_count (map (λ x. (x, false)) items) ≡ 0
  selected_count-unselected [] = refl
  selected_count-unselected (x ∷ items) = selected_count-unselected items

  module _ (items : List A) (target limit least : ℕ) (few : least ≤ target) where
    unselected : Selected A
    unselected = record { slots = map (λ x. (x, false)) items; topic_counts = [] }

    pub slot_items-capped_selection :
        slot_items (capped_selection normalize topic items target limit least).slots ≡ items
    unfolding capped_selection unselected
    slot_items-capped_selection =
        slot_items-fill target _ (some limit)
        ∙ slot_items-seed least (get_topic_candidates normalize topic items) unselected
        ∙ slot_items-unselected items

    pub selected_count-capped_selection :
        selected_count (capped_selection normalize topic items target limit least).slots ≤ target
    unfolding capped_selection unselected
    selected_count-capped_selection = selected_count-fill target _ (some limit) (
        omega (
          arith,
          selected_count-seed least (get_topic_candidates normalize topic items) unselected,
          selected_count-unselected items,
        ))

    -- The balance selects as many items as it is asked for.
    length-balance :
        target ≤ length items
        → length (balance normalize topic items target limit least).items ≡ target
    unfolding balance
    length-balance enough = ground (
      arith,
      length-selected_items s.slots,
      length-selected_items (fill_remaining_slots normalize topic target none s).slots,
      selected_count-capped_selection,
      selected_count-fill_uncapped target s selected_count-capped_selection
          (omega (arith, length-slot_items s.slots, ap length slot_items-capped_selection)),
    )
      where
        s : Selected A
        s = capped_selection normalize topic items target limit least

    items-balance-IsSublist :
        IsSublist (balance normalize topic items target limit least).items items
    unfolding balance build_topic_balance_result
    items-balance-IsSublist = elim (Bool-cases (ltb (selected_count s.slots) target)) [
      | inl short ↦
          subst (λ xs. IsSublist xs items) (ground arith)
            (kept (fill_remaining_slots normalize topic target none s).slots
              (slot_items-fill target s none ∙ slot_items-capped_selection))
      | inr reached ↦
          subst (λ xs. IsSublist xs items) (ground arith) (kept s.slots slot_items-capped_selection)
    ]
      where
        s : Selected A
        s = capped_selection normalize topic items target limit least

        kept :
            (slots : List (A × Bool))
            → slot_items slots ≡ items
            → IsSublist (selected_items slots) items
        kept slots e = subst (IsSublist (selected_items slots)) e (selected_items-IsSublist slots)

module _ {A : Type 0} (normalize : String → String) (topic : A → String) (F : FloatOps) where
  -- Whatever the cap and the wished diversity, the balance selects the given number of items, or all of
  -- them if there are fewer.
  pub length-apply_topic_balance :
      (items : List A) (top_n : ℕ) (cap_fraction : F.Num) (min_topics : ℤ)
      → length (apply_topic_balance normalize topic F items top_n cap_fraction min_topics).items
        ≡ min top_n (length items)
  unfolding apply_topic_balance select_initial_top_n
  length-apply_topic_balance items top_n cap_fraction min_topics = ground (
    arith,
    length-take target items,
    length-balance normalize topic items target cap (clamp_min_topics min_topics target)
        (clamp_min_topics-le min_topics target) (omega arith),
  )
    where
      target : ℕ
      target = min top_n (length items)

      cap : ℕ
      cap = calculate_max_per_topic F target cap_fraction

  apply_topic_balance-IsSublist :
      (items : List A) (top_n : ℕ) (cap_fraction : F.Num) (min_topics : ℤ)
      → IsSublist
          (apply_topic_balance normalize topic F items top_n cap_fraction min_topics).items
          items
  unfolding apply_topic_balance select_initial_top_n
  apply_topic_balance-IsSublist items top_n cap_fraction min_topics = ground (
    arith,
    take-IsSublist 0 items,
    take-IsSublist target items,
    IsSublist-refl items,
    items-balance-IsSublist normalize topic items target cap (clamp_min_topics min_topics target)
        (clamp_min_topics-le min_topics target),
  )
    where
      target : ℕ
      target = min top_n (length items)

      cap : ℕ
      cap = calculate_max_per_topic F target cap_fraction

  -- The limit of a digest keeps the order of the items, and cuts them to the configured number: what it
  -- keeps has the smaller of the two lengths, with and without the balance of topics.
  pub apply_topic_balance_and_limit-length :
      (enabled : Bool) (cap : F.Num) (min_topics : ℤ) (top_n : ℕ) (items : List A)
      → (length (apply_topic_balance_and_limit normalize topic F enabled cap min_topics top_n items)
          ≡ min top_n (length items))
        × IsSublist
            (apply_topic_balance_and_limit normalize topic F enabled cap min_topics top_n items)
            items
  unfolding apply_topic_balance_and_limit
  apply_topic_balance_and_limit-length enabled cap min_topics top_n items = (
    ground (arith, length-take top_n items, length-apply_topic_balance items top_n cap min_topics),
    ground (
      arith,
      take-IsSublist top_n items,
      IsSublist-refl items,
      apply_topic_balance-IsSublist items top_n cap min_topics,
    ),
  )

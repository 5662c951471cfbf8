-- ===== src/Digest/Topics/Cap.antt =====
-- The cap on the items of one topic, and the topics that the balance is sure to show.
use telegram_digest_bot.Base.{
  ℕ, min, ◌≤◌, ◌≡◌, refl, sym, ap, subst, false, ◌||◌, ◌==◌, List, [], ◌∷◌, map, String, none, some,
  All, length, take, arith, Bool-cases, inl, inr,
}
use telegram_digest_bot.Base.Dict
use telegram_digest_bot.Base.Float.{FloatOps}
use telegram_digest_bot.Base.Int.{ℤ, pos, negsuc}
use telegram_digest_bot.Digest.Topics.{
  TopicCandidate, Selected, selected_count, selected_items, count_of, seed, get_topic_candidates,
  fill_remaining_slots, capped_selection, balance, clamp_min_topics, calculate_max_per_topic,
  build_topic_balance_result, apply_topic_balance,
}
use telegram_digest_bot.Digest.Topics.Filling.{fill_from-Fills}
use telegram_digest_bot.Digest.Topics.Length.{slot_items-unselected}
use telegram_digest_bot.Digest.Topics.Tally.{tally, tally-Fills, tally-Fills_grows, count_of-Fills}
use telegram_digest_bot.Digest.Topics.Seeding.{
  nth, IsCandidateOf, All-imply, candidates_from-IsCandidateOf, occurrences-candidates_from,
  tally-seed, count_of-seed, seed_selects,
}

module _ {A : Type 0} (normalize : String → String) (topic : A → String) where
  module _ (items : List A) (target cap least : ℕ) where
    topics : List TopicCandidate
    topics = get_topic_candidates normalize topic items

    seeded : Selected A
    unfolding topics
    seeded =
        seed normalize topic least topics
          (record { slots = map (λ x. (x, false)) items; topic_counts = [] })

    topics-IsCandidateOf : All (IsCandidateOf normalize topic (λ n. nth n items)) topics
    unfolding topics get_topic_candidates
    topics-IsCandidateOf =
        candidates_from-IsCandidateOf normalize topic (λ n. nth n items) 0 [] items
          (λ i. ap (λ k. nth k items) (omega arith))

    none_selected :
        (key : String) (xs : List A)
        → tally normalize topic key (selected_items (map (λ x. (x, false)) xs)) ≡ 0
    unfolding tally
    none_selected key [] = refl
    none_selected key (x ∷ xs) = none_selected key xs

    count_of-seeded : (key : String) → count_of key seeded.topic_counts ≤ 1
    unfolding seeded topics get_topic_candidates Dict.lookup
    count_of-seeded key = ground (
      arith,
      occurrences-candidates_from normalize topic key 0 [] items,
      count_of-seed normalize topic items key least topics
          (record { slots = map (λ x. (x, false)) items; topic_counts = [] }) topics-IsCandidateOf
          (slot_items-unselected normalize topic items),
    )

    tally-seeded :
        (key : String)
        → tally normalize topic key (selected_items seeded.slots) ≤ count_of key seeded.topic_counts
    unfolding seeded topics Dict.lookup
    tally-seeded key = ground (
      arith,
      none_selected key items,
      tally-seed normalize topic key least topics
          (record { slots = map (λ x. (x, false)) items; topic_counts = [] }),
    )

    tally-capped_selection :
        (key : String)
        → 1 ≤ cap
        → tally normalize topic key
            (selected_items (capped_selection normalize topic items target cap least).slots)
          ≤ cap
    unfolding capped_selection fill_remaining_slots seeded topics
    tally-capped_selection key positive =
        let filled =
          fill_from-Fills normalize topic target (some cap) (selected_count seeded.slots)
            seeded.slots seeded.topic_counts in
        ground (
          arith,
          positive,
          count_of-seeded key,
          tally-seeded key,
          tally-Fills normalize topic key target (some cap) seeded.topic_counts _ seeded.slots _
              filled,
          count_of-Fills normalize topic key target cap seeded.topic_counts _ filled,
        )

    capped_selection_selects :
        All
          (λ c.
            1
            ≤ tally normalize topic c.key
                (selected_items (capped_selection normalize topic items target cap least).slots))
          (take least topics)
    unfolding capped_selection fill_remaining_slots seeded topics
    capped_selection_selects =
        All-imply _ _ (take least topics)
          (λ c once. omega (
            arith,
            once,
            tally-Fills_grows normalize topic c.key target (some cap) seeded.slots _ (
                fill_from-Fills normalize topic target (some cap) (selected_count seeded.slots)
                  seeded.slots seeded.topic_counts),
          ))
          (seed_selects normalize topic items least topics
            (record { slots = map (λ x. (x, false)) items; topic_counts = [] }) topics-IsCandidateOf
            (slot_items-unselected normalize topic items))

    tally-balance :
        (key : String)
        → 1 ≤ cap
        → (balance normalize topic items target cap least).relaxed ≡ false
        → tally normalize topic key (balance normalize topic items target cap least).items ≤ cap
    unfolding balance build_topic_balance_result
    tally-balance key positive strict = ground (arith, tally-capped_selection key positive)

    balance_selects :
        (c : TopicCandidate)
        → 1
          ≤ tally normalize topic c.key
              (selected_items (capped_selection normalize topic items target cap least).slots)
        → 1 ≤ tally normalize topic c.key (balance normalize topic items target cap least).items
    unfolding balance build_topic_balance_result fill_remaining_slots
    balance_selects c once =
        let s = capped_selection normalize topic items target cap least in
        ground (
          arith,
          once,
          tally-Fills_grows normalize topic c.key target none s.slots _ (
              fill_from-Fills normalize topic target none (selected_count s.slots) s.slots
                s.topic_counts),
        )

clamp_min_topics-none : (m : ℤ) (target : ℕ) → target ≡ 0 → clamp_min_topics m target ≡ 0
clamp_min_topics-none (pos m) target h = ground arith
clamp_min_topics-none (negsuc m) target h = refl

calculate_max_per_topic-positive :
    (F : FloatOps) (target : ℕ) (cap : F.Num) → 1 ≤ calculate_max_per_topic F target cap
unfolding calculate_max_per_topic
calculate_max_per_topic-positive F target cap = ground arith

module _ {A : Type 0} (normalize : String → String) (topic : A → String) (F : FloatOps) where
  -- With a cap between 0 and 1 that was not relaxed, no topic has more items in the digest than the
  -- reported `MaxPerTopic`.
  pub apply_topic_balance-capped :
      (items : List A) (top_n : ℕ) (cap_fraction : F.Num) (min_topics : ℤ) (key : String)
      → F.le cap_fraction (F.of_nat 0) ≡ false
      → F.le (F.of_nat 1) cap_fraction ≡ false
      → (apply_topic_balance normalize topic F items top_n cap_fraction min_topics).relaxed ≡ false
      → tally normalize topic key
          (apply_topic_balance normalize topic F items top_n cap_fraction min_topics).items
        ≤ (apply_topic_balance normalize topic F items top_n cap_fraction min_topics).max_per_topic
  unfolding apply_topic_balance tally
  apply_topic_balance-capped items top_n cap_fraction min_topics key low high strict = ground (
    arith,
    low,
    high,
    strict,
    tally-balance normalize topic items target cap (clamp_min_topics min_topics target) key
        (calculate_max_per_topic-positive F target cap_fraction),
  )
    where
      target : ℕ
      target = min top_n (length items)

      cap : ℕ
      cap = calculate_max_per_topic F target cap_fraction

  -- The same of the candidates and the least number of topics that the source computes.
  pub apply_topic_balance-shows :
      (items : List A) (top_n : ℕ) (cap_fraction : F.Num) (min_topics : ℤ)
      → F.le cap_fraction (F.of_nat 0) ≡ false
      → F.le (F.of_nat 1) cap_fraction ≡ false
      → All
          (λ c.
            1
            ≤ tally normalize topic c.key
                (apply_topic_balance normalize topic F items top_n cap_fraction min_topics).items)
          (take
            (clamp_min_topics min_topics (min top_n (length items)))
            (get_topic_candidates normalize topic items))
  unfolding apply_topic_balance topics
  apply_topic_balance-shows items top_n cap_fraction min_topics low high =
      elim (Bool-cases ((top_n == 0) || (length items == 0))) [
        | inl nothing ↦
            subst (λ n. All Shown (take n candidates))
              (sym (clamp_min_topics-none min_topics target (ground (arith, nothing)))) tt
        | inr something ↦
            All-imply _ Shown (take least candidates)
              (λ c once. ground (
                arith,
                low,
                high,
                something,
                balance_selects normalize topic items target cap least c once,
              ))
              (capped_selection_selects normalize topic items target cap least)
      ]
    where
      target : ℕ
      target = min top_n (length items)

      cap : ℕ
      cap = calculate_max_per_topic F target cap_fraction

      least : ℕ
      least = clamp_min_topics min_topics target

      candidates : List TopicCandidate
      candidates = get_topic_candidates normalize topic items

      Shown : TopicCandidate → Type 0
      Shown c =
          1
          ≤ tally normalize topic c.key
              (apply_topic_balance normalize topic F items top_n cap_fraction min_topics).items

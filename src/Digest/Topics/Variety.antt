-- ===== src/Digest/Topics/Variety.antt =====
-- The topics that the balance of topic_balance.go is sure to show.
use telegram_digest_bot.Base.{
  ℕ, zero, suc, min, ◌≤◌, ◌≡◌, refl, subst, false, List, [], ◌∷◌, map, String, All, In, here, there,
  any, length, take, str_eq, eq_iff, arith, Bool-cases, inl, inr, if◌then◌else◌,
}
use telegram_digest_bot.Base.Float.{FloatOps}
use telegram_digest_bot.Base.Int.{pos}
use telegram_digest_bot.Digest.Topics.{
  topic_key, candidates_from, get_topic_candidates, clamp_min_topics, apply_topic_balance,
}
use telegram_digest_bot.Digest.Topics.Seeding.{All-imply}
use telegram_digest_bot.Digest.Topics.Tally.{tally}
use telegram_digest_bot.Digest.Topics.Cap.{apply_topic_balance-shows}

module _ {A : Type 0} (normalize : String → String) (topic : A → String) where
  -- The name of an item's topic.
  abbrev pub named : A → String
  named x = if str_eq (normalize (topic x)) "" then "__unknown__" else normalize (topic x)

  -- The names of the topics of items, each once and in the order of the items, without the names `seen`
  -- and without the items that have no topic.
  unfoldable pub topics_beyond : List String → List A → List String
  topics_beyond seen [] = []
  topics_beyond seen (x ∷ xs) =
      let later = topics_beyond (if any (str_eq (named x)) seen then seen else named x ∷ seen) xs in
      if any (str_eq (named x)) seen
      then later
      else if str_eq (normalize (topic x)) ""
      then later
      else named x ∷ later

  map_key-candidates_from :
      (idx : ℕ) (seen : List String) (xs : List A)
      → map (λ c. c.key) (candidates_from normalize topic idx seen xs) ≡ topics_beyond seen xs
  unfolding candidates_from topics_beyond topic_key
  map_key-candidates_from idx seen [] = refl
  map_key-candidates_from idx seen (x ∷ xs) = ground (
    arith,
    map_key-candidates_from (suc idx) seen xs,
    map_key-candidates_from (suc idx) ("__unknown__" ∷ seen) xs,
    map_key-candidates_from (suc idx) (normalize (topic x) ∷ seen) xs,
  )

  tally-In :
      (name : String) (xs : List A) → 1 ≤ tally normalize topic name xs → In name (map named xs)
  unfolding tally topic_key
  tally-In name [] h = absurd (omega (arith, h))
  tally-In name (x ∷ xs) h = elim (Bool-cases (str_eq (named x) name)) [
    | inl same ↦ here ((eq_iff (named x) name).0 same)
    | inr other ↦ there (tally-In name xs (ground (arith, h, other)))
  ]

All-take-map :
    {A B : Type 0} (f : A → B) (P : B → Type 0) (n : ℕ) (xs : List A)
    → All (λ x. P (f x)) (take n xs)
    → All P (take n (map f xs))
All-take-map f P zero xs all = tt
All-take-map f P (suc n) [] all = tt
All-take-map f P (suc n) (x ∷ xs) (p, all) = (p, All-take-map f P n xs all)

clamp_min_topics-min : (m target : ℕ) → clamp_min_topics (pos m) target ≡ min m target
clamp_min_topics-min m target = ground arith

module _ {A : Type 0} (normalize : String → String) (topic : A → String) (F : FloatOps) where
  -- With a cap between 0 and 1, relaxed or not, and a number of topics to show that is not negative, the
  -- digest has an item of each of the first topics of the items: of as many as are to be shown, and of
  -- as many as the digest has places for items if these are fewer.
  pub apply_topic_balance-diverse :
      (items : List A) (top_n : ℕ) (cap_fraction : F.Num) (m : ℕ)
      → F.le cap_fraction (F.of_nat 0) ≡ false
      → F.le (F.of_nat 1) cap_fraction ≡ false
      → All
          (λ name. In name (
            map
              (named normalize topic)
              (apply_topic_balance normalize topic F items top_n cap_fraction (pos m)).items))
          (take (min m (min top_n (length items))) (topics_beyond normalize topic [] items))
  unfolding get_topic_candidates
  apply_topic_balance-diverse items top_n cap_fraction m low high =
      let digest = (apply_topic_balance normalize topic F items top_n cap_fraction (pos m)).items in
      let Shown : String → Type 0 = λ name. In name (map (named normalize topic) digest) in
      let shown =
        All-imply _ (λ c. Shown c.key) _ (λ c. tally-In normalize topic c.key digest)
          (apply_topic_balance-shows normalize topic F items top_n cap_fraction (pos m) low high) in
      subst (λ n. All Shown (take n (topics_beyond normalize topic [] items)))
        (clamp_min_topics-min m (min top_n (length items)))
        (subst
          (λ names. All Shown (take (clamp_min_topics (pos m) (min top_n (length items))) names))
          (map_key-candidates_from normalize topic 0 [] items)
          (All-take-map (λ c. c.key) Shown _ (get_topic_candidates normalize topic items) shown))

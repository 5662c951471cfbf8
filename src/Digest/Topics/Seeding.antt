-- ===== src/Digest/Topics/Seeding.antt =====
-- The candidates of the balance of topics, and what its first phase does to the counts.
use telegram_digest_bot.Base.{
  ℕ, zero, suc, ◌+◌, ◌≤◌, ◌≡◌, refl, ap, ◌∙◌, subst, Bool, true, false, List, [], ◌∷◌, String,
  Option, none, some, All, any, take, str_eq, eq_iff, if◌then◌else◌, arith,
}
use telegram_digest_bot.Digest.Topics.{
  TopicCandidate, Selected, selected_items, item_at, key_of, count_of, mark, seed, candidates_from,
}
use telegram_digest_bot.Digest.Topics.Length.{slot_items, slot_items-mark}
use telegram_digest_bot.Digest.Topics.Tally.{
  tally, count_of-bump, tally-pick_counts, tally-mark_grows, tally-mark,
}

abbrev pub nth : {A : Type 0} → ℕ → List A → Option A
nth n [] = none
nth zero (x ∷ xs) = some x
nth (suc n) (x ∷ xs) = nth n xs

unfoldable pub occurrences : String → List TopicCandidate → ℕ
occurrences key [] = 0
occurrences key (c ∷ cs) =
    let rest = occurrences key cs in if str_eq c.key key then suc rest else rest

All-cons_if {ℓ κ} :
    {A : Type ℓ} (P : A → Type κ) (b : Bool) (x : A) (xs : List A)
    → P x
    → All P xs
    → All P (if b then x ∷ xs else xs)
All-cons_if P true x xs hx hxs = (hx, hxs)
All-cons_if P false x xs hx hxs = hxs

pub All-imply {ℓ κ} :
    {A : Type ℓ} (P Q : A → Type κ) (xs : List A) → ((x : A) → P x → Q x) → All P xs → All Q xs
All-imply P Q [] f h = tt
All-imply P Q (x ∷ xs) f (hx, h) = (f x hx, All-imply P Q xs f h)

module _ {A : Type 0} (normalize : String → String) (topic : A → String) where
  item_at-nth : (n : ℕ) (slots : List (A × Bool)) → item_at n slots ≡ nth n (slot_items slots)
  item_at-nth n [] = refl
  item_at-nth zero (slot ∷ slots) = refl
  item_at-nth (suc n) (slot ∷ slots) = item_at-nth n slots

  -- A candidate stands for an item of its key.
  unfoldable pub IsCandidateOf : (ℕ → Option A) → TopicCandidate → Type 0
  unfolding key_of
  IsCandidateOf at c = (x : A) × (at c.index ≡ some x) × (key_of normalize topic x ≡ c.key)

  pub candidates_from-IsCandidateOf :
      (at : ℕ → Option A) (idx : ℕ) (seen : List String) (xs : List A)
      → ((i : ℕ) → at (idx + i) ≡ nth i xs)
      → All (IsCandidateOf at) (candidates_from normalize topic idx seen xs)
  unfolding candidates_from IsCandidateOf
  candidates_from-IsCandidateOf at idx seen [] h = tt
  candidates_from-IsCandidateOf at idx seen (x ∷ xs) h =
      let later =
        candidates_from-IsCandidateOf at (suc idx)
          (if any (str_eq (key_of normalize topic x)) seen
            then seen
            else key_of normalize topic x ∷ seen)
          xs (λ i. subst (λ k. at k ≡ nth i xs) (omega arith) (h (suc i))) in
      All-cons_if (IsCandidateOf at) _ (record { key = key_of normalize topic x; index = idx }) _
        (x, subst (λ k. at k ≡ some x) (omega arith) (h 0), refl) later

  -- No key has two candidates.
  pub occurrences-candidates_from :
      (key : String) (idx : ℕ) (seen : List String) (xs : List A)
      → occurrences key (candidates_from normalize topic idx seen xs)
        ≤ (if any (str_eq key) seen then 0 else 1)
  unfolding candidates_from occurrences
  occurrences-candidates_from key idx seen [] = ground arith
  occurrences-candidates_from key idx seen (x ∷ xs) = ground (
    arith,
    occurrences-candidates_from key (suc idx) seen xs,
    occurrences-candidates_from key (suc idx) (key_of normalize topic x ∷ seen) xs,
    eq_iff (key_of normalize topic x) key,
    eq_iff key (key_of normalize topic x),
    λ (e : key_of normalize topic x ≡ key). ap (λ k. any (str_eq k) seen) e,
  )

  count_of-mark :
      (key : String) (c : TopicCandidate) (s : Selected A)
      → IsCandidateOf (λ n. item_at n s.slots) c
      → count_of key (mark normalize topic c s).topic_counts
        ≤ count_of key s.topic_counts + (if str_eq c.key key then 1 else 0)
  unfolding mark IsCandidateOf
  count_of-mark key c s (x, is, same) = ground (
    arith,
    is,
    count_of-bump (key_of normalize topic x) key s.topic_counts,
    ap (λ k. str_eq k key) same,
  )

  mark_selects :
      (c : TopicCandidate) (s : Selected A)
      → IsCandidateOf (λ n. item_at n s.slots) c
      → 1 ≤ tally normalize topic c.key (selected_items (mark normalize topic c s).slots)
  unfolding mark IsCandidateOf
  mark_selects c s (x, is, same) =
      ground (arith, is, tally-pick_counts normalize topic c.key c.index x s.slots is same)

  tally-seed_grows :
      (key : String) (n : ℕ) (topics : List TopicCandidate) (s : Selected A)
      → tally normalize topic key (selected_items s.slots)
        ≤ tally normalize topic key (selected_items (seed normalize topic n topics s).slots)
  unfolding seed
  tally-seed_grows key zero topics s = omega arith
  tally-seed_grows key (suc n) [] s = omega arith
  tally-seed_grows key (suc n) (c ∷ topics) s = omega (
    arith,
    tally-mark_grows normalize topic key c s,
    tally-seed_grows key n topics (mark normalize topic c s),
  )

  pub tally-seed :
      (key : String) (n : ℕ) (topics : List TopicCandidate) (s : Selected A)
      → tally normalize topic key (selected_items (seed normalize topic n topics s).slots)
          + count_of key s.topic_counts
        ≤ tally normalize topic key (selected_items s.slots)
          + count_of key (seed normalize topic n topics s).topic_counts
  unfolding seed
  tally-seed key zero topics s = omega arith
  tally-seed key (suc n) [] s = omega arith
  tally-seed key (suc n) (c ∷ topics) s = omega (
    arith,
    tally-mark normalize topic key c s,
    tally-seed key n topics (mark normalize topic c s),
  )

  module _ (items : List A) where
    candidate_here :
        (c : TopicCandidate) (s : Selected A)
        → slot_items s.slots ≡ items
        → IsCandidateOf (λ n. nth n items) c
        → IsCandidateOf (λ n. item_at n s.slots) c
    unfolding IsCandidateOf
    candidate_here c s same (x, is, e) =
        (x, item_at-nth c.index s.slots ∙ ap (nth c.index) same ∙ is, e)

    pub count_of-seed :
        (key : String) (n : ℕ) (topics : List TopicCandidate) (s : Selected A)
        → All (IsCandidateOf (λ n. nth n items)) topics
        → slot_items s.slots ≡ items
        → count_of key (seed normalize topic n topics s).topic_counts
          ≤ count_of key s.topic_counts + occurrences key topics
    unfolding seed occurrences
    count_of-seed key zero topics s valid same = omega arith
    count_of-seed key (suc n) [] s valid same = omega arith
    count_of-seed key (suc n) (c ∷ topics) s (v, valid) same = ground (
      arith,
      count_of-mark key c s (candidate_here c s same v),
      count_of-seed key n topics (mark normalize topic c s) valid
          (slot_items-mark normalize topic c s ∙ same),
    )

    pub seed_selects :
        (n : ℕ) (topics : List TopicCandidate) (s : Selected A)
        → All (IsCandidateOf (λ n. nth n items)) topics
        → slot_items s.slots ≡ items
        → All
            (λ c.
              1
              ≤ tally normalize topic c.key
                  (selected_items (seed normalize topic n topics s).slots))
            (take n topics)
    unfolding seed
    seed_selects zero topics s valid same = tt
    seed_selects (suc n) [] s valid same = tt
    seed_selects (suc n) (c ∷ topics) s (v, valid) same = (
      omega (
        arith,
        mark_selects c s (candidate_here c s same v),
        tally-seed_grows c.key n topics (mark normalize topic c s),
      ),
      seed_selects n topics (mark normalize topic c s) valid
          (slot_items-mark normalize topic c s ∙ same),
    )

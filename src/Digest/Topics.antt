-- ===== src/Digest/Topics.antt =====
-- The balance of topics in a digest (internal/output/digest/topic_balance.go, and
-- `applyTopicBalanceAndLimit` of digest_selection.go).
-- An item is of any type `A` with a topic. `normalize` stands for `strings.TrimSpace(strings.ToLower(s))`.
-- The map `selectedIndices` is a flag beside every item. A negative `DigestTopN`, with which a slice of the
-- source panics, is left out.
pub mod Filling
pub mod Length
pub mod Tally
pub mod Seeding
pub mod Cap
pub mod Variety
mod Tests
use telegram_digest_bot.Base.{
  ℕ, zero, suc, ◌+◌, min, Bool, true, false, not, ◌&&◌, ◌||◌, List, [], ◌∷◌, map, String, Option,
  none, some, length, take, any, ltb, leb, ◌==◌, if◌then◌else◌, str_eq,
}
use telegram_digest_bot.Base.Dict
use telegram_digest_bot.Base.Float.{FloatOps}
use telegram_digest_bot.Base.Int.{ℤ, pos, negsuc}

pub record TopicBalanceResult (A : Type 0) : Type 0 where
  pub items : List A
  pub topics_selected : ℕ
  pub topics_available : ℕ
  pub max_per_topic : ℕ
  pub relaxed : Bool

pub record TopicCandidate : Type 0 where
  pub key : String
  pub index : ℕ

-- `selectedIndices` and `topicCounts`.
pub record Selected (A : Type 0) : Type 0 where
  pub slots : List (A × Bool)
  pub topic_counts : List (String × ℕ)

abbrev pub unknown_topic_key : String
unknown_topic_key = "__unknown__"

-- A missing key counts 0.
abbrev pub count_of : String → List (String × ℕ) → ℕ
count_of key counts = elim (Dict.lookup key counts) [ some n ↦ n | none ↦ 0 ]

-- `topicCounts[key]++`
abbrev pub bump : String → List (String × ℕ) → List (String × ℕ)
bump key counts = Dict.insert key (suc (count_of key counts)) counts

module _ {A : Type 0} where
  -- `len(selectedIndices)`
  abbrev pub selected_count : List (A × Bool) → ℕ
  selected_count [] = 0
  selected_count ((x, picked) ∷ slots) =
      let rest = selected_count slots in if picked then suc rest else rest

  abbrev pub selected_items : List (A × Bool) → List A
  selected_items [] = []
  selected_items ((x, picked) ∷ slots) =
      let rest = selected_items slots in if picked then x ∷ rest else rest

  abbrev pub item_at : ℕ → List (A × Bool) → Option A
  item_at n [] = none
  item_at zero ((x, picked) ∷ slots) = some x
  item_at (suc n) (slot ∷ slots) = item_at n slots

  -- `selectedIndices[idx] = struct{}{}`
  abbrev pub pick : ℕ → List (A × Bool) → List (A × Bool)
  pick n [] = []
  pick zero ((x, picked) ∷ slots) = (x, true) ∷ slots
  pick (suc n) (slot ∷ slots) = slot ∷ pick n slots

-- The cap on the items of one key; without a cap it is -1 in the source.
abbrev pub is_capped : Option ℕ → String → List (String × ℕ) → Bool
is_capped none key counts = false
is_capped (some cap) key counts = leb cap (count_of key counts)

abbrev pub clamp_min_topics : ℤ → ℕ → ℕ
clamp_min_topics (negsuc m) target = 0
clamp_min_topics (pos m) target = if ltb target m then target else m

module _ (F : FloatOps) where
  -- `int(math.Floor(float64(capFraction) * float64(targetN)))`, and at least 1.
  unfoldable pub calculate_max_per_topic : ℕ → F.Num → ℕ
  calculate_max_per_topic target cap =
      let floored = F.floor (F.mul cap (F.of_nat target)) in if ltb floored 1 then 1 else floored

module _ {A : Type 0} (normalize : String → String) (topic : A → String) where
  unfoldable pub topic_key : String → String × Bool
  topic_key t =
      let normalized = normalize t in
      if str_eq normalized "" then (unknown_topic_key, false) else (normalized, true)

  abbrev pub key_of : A → String
  unfolding topic_key
  key_of x = (topic_key (topic x)).0

  abbrev pub is_eligible : A → Bool
  unfolding topic_key
  is_eligible x = (topic_key (topic x)).1

  -- The first item of each key, in the order of the items, `idx` and the keys before it given: as the
  -- indices only grow, the list is already in the order into which the source sorts it.
  unfoldable pub candidates_from : ℕ → List String → List A → List TopicCandidate
  unfolding key_of is_eligible
  candidates_from idx seen [] = []
  candidates_from idx seen (x ∷ xs) =
      let key = key_of x in
      let known = any (str_eq key) seen in
      let rest = candidates_from (suc idx) (if known then seen else key ∷ seen) xs in
      if not known && is_eligible x then record { key = key; index = idx } ∷ rest else rest

  unfoldable pub get_topic_candidates : List A → List TopicCandidate
  unfolding candidates_from
  get_topic_candidates items = candidates_from 0 [] items

  -- `selectedIndices[idx] = struct{}{}` and `topicCounts[key]++` for the item of a candidate.
  unfoldable pub mark : TopicCandidate → Selected A → Selected A
  unfolding key_of
  mark c s = elim (item_at c.index s.slots) [
    | none ↦ s
    | some x ↦ record {
      slots = pick c.index s.slots;
      topic_counts = bump (key_of x) s.topic_counts;
    }
  ]

  -- Phase 1: one item of each of the first topics.
  unfoldable pub seed : ℕ → List TopicCandidate → Selected A → Selected A
  unfolding mark
  seed zero topics s = s
  seed (suc n) [] s = s
  seed (suc n) (c ∷ topics) s = seed n topics (mark c s)

  -- One pass of `fillRemainingSlots`, `n` items being selected so far.
  unfoldable pub fill_from :
      ℕ → Option ℕ → ℕ → List (A × Bool) → List (String × ℕ) → List (A × Bool) × List (String × ℕ)
  unfolding key_of
  fill_from target cap n [] counts = ([], counts)
  fill_from target cap n ((x, picked) ∷ slots) counts =
      let key = key_of x in
      let chosen = not picked && not (is_capped cap key counts) in
      let (rest, rest_counts) =
        fill_from target cap (if chosen then suc n else n) slots
          (if chosen then bump key counts else counts) in
      if leb target n
      then ((x, picked) ∷ slots, counts)
      else ((x, picked || chosen) ∷ rest, rest_counts)

  unfoldable pub fill_remaining_slots : ℕ → Option ℕ → Selected A → Selected A
  unfolding fill_from
  fill_remaining_slots target cap s =
      let (slots, counts) = fill_from target cap (selected_count s.slots) s.slots s.topic_counts in
      record { slots = slots; topic_counts = counts }

  abbrev pub distinct_from : List String → List A → ℕ
  unfolding key_of is_eligible
  distinct_from seen [] = 0
  distinct_from seen (x ∷ xs) =
      let new = is_eligible x && not (any (str_eq (key_of x)) seen) in
      let rest = distinct_from (if new then key_of x ∷ seen else seen) xs in
      if new then suc rest else rest

  unfoldable pub count_distinct_topics : List A → ℕ
  unfolding distinct_from
  count_distinct_topics items = distinct_from [] items

  unfoldable pub select_initial_top_n : List A → ℕ → TopicBalanceResult A
  unfolding count_distinct_topics
  select_initial_top_n items target =
      let selected = if ltb target (length items) then take target items else items in
      record {
        items = selected;
        topics_selected = count_distinct_topics selected;
        topics_available = count_distinct_topics items;
        max_per_topic = 0;
        relaxed = false;
      }

  unfoldable pub build_topic_balance_result : Selected A → Bool → ℕ → ℕ → TopicBalanceResult A
  unfolding count_distinct_topics
  build_topic_balance_result s relaxed available cap =
      let selected = selected_items s.slots in
      record {
        items = selected;
        topics_selected = count_distinct_topics selected;
        topics_available = available;
        max_per_topic = cap;
        relaxed = relaxed;
      }

  -- The selection before the cap is relaxed.
  abbrev pub capped_selection : List A → ℕ → ℕ → ℕ → Selected A
  unfolding seed fill_remaining_slots get_topic_candidates
  capped_selection items target cap least = fill_remaining_slots target (some cap) (
      seed least (get_topic_candidates items)
        (record { slots = map (λ x. (x, false)) items; topic_counts = [] }))

  abbrev pub balance : List A → ℕ → ℕ → ℕ → TopicBalanceResult A
  unfolding capped_selection build_topic_balance_result
  balance items target cap least =
      let s = capped_selection items target cap least in
      let available = length (get_topic_candidates items) in
      if ltb (selected_count s.slots) target
      then build_topic_balance_result (fill_remaining_slots target none s) true available cap
      else build_topic_balance_result s false available cap

  module _ (F : FloatOps) where
    unfoldable pub apply_topic_balance : List A → ℕ → F.Num → ℤ → TopicBalanceResult A
    unfolding balance select_initial_top_n calculate_max_per_topic
    apply_topic_balance items top_n cap_fraction min_topics =
        if (top_n == 0) || (length items == 0)
        then record {
          items = [];
          topics_selected = 0;
          topics_available = 0;
          max_per_topic = 0;
          relaxed = false;
        }
        else let target = min top_n (length items) in
          if F.le cap_fraction (F.of_nat 0) || F.le (F.of_nat 1) cap_fraction
          then select_initial_top_n items target
          else balance items target (calculate_max_per_topic F target cap_fraction)
              (clamp_min_topics min_topics target)

    -- `applyTopicBalanceAndLimit`, with the settings that it reads.
    unfoldable pub apply_topic_balance_and_limit : Bool → F.Num → ℤ → ℕ → List A → List A
    unfolding apply_topic_balance
    apply_topic_balance_and_limit topics_enabled cap min_topics top_n items =
        if topics_enabled && F.lt (F.of_nat 0) cap && F.lt cap (F.of_nat 1) && ltb 0 (length items)
        then (apply_topic_balance items top_n cap min_topics).items
        else if ltb top_n (length items)
        then take top_n items
        else items

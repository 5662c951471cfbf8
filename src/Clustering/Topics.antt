-- ===== src/Clustering/Topics.antt =====
-- The topics of items: `buildTopicGrouping`, `normalizeClusterTopic`, `canonicalizeTopic`.
use telegram_digest_bot.Base.{
  ℕ, ◌+◌, ◌-◌, Bool, not, ◌&&◌, ◌||◌, List, [], ◌∷◌, ◌++◌, String, none, some, any, length, ◌==◌,
  if◌then◌else◌, str_eq,
}
use telegram_digest_bot.Base.Dict
use telegram_digest_bot.Base.Float.{FloatOps}
use telegram_digest_bot.Clustering.{Item, Packages}

abbrev pub default_topic : String
default_topic = "General"

abbrev pub topic_synonyms : List (String × String)
topic_synonyms =
    ("ukraine", "Ukraine")
    ∷ ("украина", "Ukraine")
    ∷ ("україна", "Ukraine")
    ∷ ("russia", "Russia")
    ∷ ("россия", "Russia")
    ∷ ("росія", "Russia")
    ∷ ("cyprus", "Cyprus")
    ∷ ("кипр", "Cyprus")
    ∷ []

abbrev pub has : String → List String → Bool
has token set = any (λ other. str_eq other token) set

-- `out[token] = struct{}{}` for a set as a list without repetitions.
abbrev pub add_token : String → List String → List String
add_token token set = if has token set then set else token ∷ set

-- The tokens of the first set that are in the second.
abbrev pub shared : List String → List String → ℕ
shared [] other = 0
shared (token ∷ set) other = (if has token other then 1 else 0) + shared set other

module _ (F : FloatOps) (P : Packages F.Num) where
  unfoldable pub normalize_cluster_topic : String → String
  normalize_cluster_topic topic =
      let normalized = P.trim_space (P.to_lower topic) in
      if str_eq normalized "" then default_topic else elim (Dict.lookup normalized topic_synonyms) [
        | some mapped ↦ mapped
        | none ↦ P.trim_space (P.title normalized)
      ]

  abbrev pub add_tokens : List String → List String
  add_tokens [] = []
  add_tokens (token ∷ tokens) =
      let trimmed = P.trim ".,:;!()[]{}\"'" token in
      let rest = add_tokens tokens in if str_eq trimmed "" then rest else add_token trimmed rest

  unfoldable pub tokenize_topic : String → List String
  tokenize_topic topic = add_tokens (P.fields (P.to_lower topic))

  -- The Jaccard index of two sets of tokens, against 0.8.
  abbrev pub tokens_similar : List String → List String → Bool
  tokens_similar a_tokens b_tokens =
      let intersection = shared a_tokens b_tokens in
      let union = length a_tokens + length b_tokens - intersection in
      not (length a_tokens == 0)
      && not (length b_tokens == 0)
      && not (union == 0)
      && F.le (F.decimal 8 1) (F.div (F.of_nat intersection) (F.of_nat union))

  unfoldable pub topics_similar : String → String → Bool
  topics_similar a b = str_eq a b || tokens_similar (tokenize_topic a) (tokenize_topic b)

  abbrev pub first_similar : String → List String → String
  first_similar topic [] = topic
  first_similar topic (existing ∷ canon) =
      let rest = first_similar topic canon in
      if topics_similar topic existing then existing else rest

  unfoldable pub canonicalize_topic : String → List String → String
  canonicalize_topic topic canon = if str_eq topic "" then "" else first_similar topic canon

-- The two maps of `buildTopicGrouping`.
pub record Grouping (N : Type 0) : Type 0 where
  pub topic_index : List (String × String)
  pub topic_groups : List (String × List (Item N))

-- `topicGroups[canonical] = append(topicGroups[canonical], item)`
unfoldable pub add_to_group :
    {N : Type 0} → String → Item N → List (String × List (Item N)) → List (String × List (Item N))
add_to_group topic item [] = (topic, item ∷ []) ∷ []
add_to_group topic item ((other, items) ∷ groups) =
    let rest = add_to_group topic item groups in
    if str_eq other topic then (other, items ++ item ∷ []) ∷ groups else (other, items) ∷ rest

module _ (F : FloatOps) (P : Packages F.Num) where
  -- The loop, with the canonical topics found so far.
  unfoldable pub group_from : List String → Grouping F.Num → List (Item F.Num) → Grouping F.Num
  group_from canon g [] = g
  group_from canon g (item ∷ items) =
      let normalized = normalize_cluster_topic F P item.topic in
      let canonical = canonicalize_topic F P normalized canon in
      let is_new = not (str_eq canonical "") && str_eq canonical normalized in
      group_from (if is_new then canon ++ canonical ∷ [] else canon)
        (record {
          topic_index = Dict.insert item.id canonical g.topic_index;
          topic_groups = add_to_group canonical item g.topic_groups;
        })
        items

  unfoldable pub build_topic_grouping : List (Item F.Num) → Grouping F.Num
  unfolding group_from
  build_topic_grouping items = group_from [] (record { topic_index = []; topic_groups = [] }) items

  abbrev pub get_topic_index : List (Item F.Num) → List (String × String)
  unfolding build_topic_grouping
  get_topic_index items = (build_topic_grouping items).topic_index

  abbrev pub get_topic_groups : List (Item F.Num) → List (String × List (Item F.Num))
  unfolding build_topic_grouping
  get_topic_groups items = (build_topic_grouping items).topic_groups

-- ===== src/Clustering/Tests.antt =====
-- Three items of one topic, of which two have similar embeddings, over whole numbers. The database
-- refuses to add the item "c" to a cluster.
use telegram_digest_bot.Base.{
  ℕ, ◌+◌, ◌-◌, ◌*◌, ◌/◌, ◌≤◌, ◌≡◌, refl, ◌↔◌, true, false, List, [], ◌∷◌, String, none, some,
  length, take, not, str_eq, map, All, In, here, there, ltb, leb, ◌==◌, if◌then◌else◌,
}
use telegram_digest_bot.Base.Dict
use telegram_digest_bot.Base.Float.{FloatOps}
use telegram_digest_bot.Dedup.{cosine_similarity}
use telegram_digest_bot.Clustering.{Item, Packages, Services}
use telegram_digest_bot.Clustering.Config.{ProcessConfig, get_clustering_config}
use telegram_digest_bot.Clustering.Topics.{
  build_topic_grouping, add_to_group, normalize_cluster_topic, canonicalize_topic, topics_similar,
  tokenize_topic,
}
use telegram_digest_bot.Clustering.Similarity.{calculate_boosted_similarity, within_cluster_window}
use telegram_digest_bot.Clustering.Building.{
  is_assigned, unassign, calculate_coherence, validate_cluster_coherence,
  validate_cluster_candidate, should_add_to_cluster, add_from, find_cluster_items, form_cluster,
}
use telegram_digest_bot.Clustering.Persisting.{
  Cluster, sort_cluster_items, comes_before, generate_cluster_topic, add_items, persist_cluster,
  cluster_round, process_topic_group, process_groups, get_embeddings, get_evidence_map,
  cluster_limited, cluster_items, cluster_items_with_source, cluster_items_for_research,
}
use telegram_digest_bot.Clustering.Partition.Counting.{times, all_clustered}
use telegram_digest_bot.Clustering.Partition.Grouping.{
  cluster_items_with_source_sound, cluster_items_for_research_lem,
}

abbrev numbers : FloatOps
numbers = record {
  Num = ℕ;
  of_nat = λ n. n;
  of_i64 = λ n. n;
  decimal = λ n d. n;
  add = λ x y. x + y;
  sub = λ x y. x - y;
  mul = λ x y. x * y;
  div = λ x y. x / y;
  sqrt = λ x. if x == 25 then 5 else if x == 100 then 10 else 1;
  floor = λ x. x;
  lt = ltb;
  le = leb;
  eq = λ x y. x == y;
}

abbrev packages : Packages ℕ
packages = record {
  to_lower = λ s. s;
  trim_space = λ s. s;
  title = λ s. s;
  fields = λ s. s ∷ [];
  trim = λ cutset s. s;
  trim_prefix = λ prefix s. s;
  contains = λ s t. false;
  byte_length = λ s. 0;
  concat = λ texts. "";
  with_host = λ change url. none;
  to_float32 = λ x. x;
}

abbrev services : Services ℕ
services = record {
  number_setting = λ key. none;
  bool_setting = λ key. none;
  text_setting = λ key. none;
  item_embedding = λ id. none;
  evidence_for_items = λ ids. none;
  links_for_message = λ id. none;
  create_cluster = λ n topic source. some "cluster";
  add_to_cluster = λ cluster_id id. not (str_eq id "c");
  generate_cluster_topic = none;
}

abbrev settings : ProcessConfig ℕ
settings = record {
  cluster_similarity_threshold = 0;
  cross_topic_clustering_enabled = false;
  cross_topic_similarity_threshold = 0;
  cluster_coherence_threshold = 0;
  evidence_clustering_boost = 0;
  evidence_clustering_min_score = 0;
  link_enrichment_scope = "";
}

abbrev item_of : String → List ℕ → Item ℕ
item_of id embedding = record {
  id = id;
  raw_message_id = id;
  importance_score = 1;
  topic = "Cyprus";
  summary = id;
  tg_date = none;
  embedding = embedding;
}

abbrev three : List (Item ℕ)
three = item_of "a" (3 ∷ 4 ∷ []) ∷ item_of "b" (1 ∷ 0 ∷ []) ∷ item_of "c" (6 ∷ 8 ∷ []) ∷ []

abbrev ids : List (Cluster ℕ) → List (List String)
ids clusters = map (λ c. map (λ item. item.id) c.items) clusters

abbrev any_order : List (String × List (Item ℕ)) → List (String × List (Item ℕ))
any_order groups = groups

abbrev same :
    (groups : List (String × List (Item ℕ))) (g : String × List (Item ℕ))
    → In g (any_order groups) ↔ In g groups
same groups g = (λ i. i, λ i. i)

abbrev refused_ids : List (Cluster ℕ) → List (List String)
refused_ids clusters = map (λ c. map (λ item. item.id) c.refused) clusters

-- The single item is a cluster of the research only.
three-clustered :
    let research =
      cluster_items_for_research numbers packages services settings any_order true [] three in
    (ids research.clusters ≡ ("a" ∷ []) ∷ ("b" ∷ []) ∷ [])
    × (refused_ids research.clusters ≡ ("c" ∷ []) ∷ [] ∷ [])
    × (research.failed ≡ false)
    × (ids (cluster_items numbers packages services settings any_order true [] three).clusters
        ≡ ("a" ∷ []) ∷ [])
unfolding cluster_items_with_source cluster_limited process_groups build_topic_grouping add_to_group
    canonicalize_topic normalize_cluster_topic Dict.lookup Dict.insert topics_similar tokenize_topic
    process_topic_group cluster_round is_assigned form_cluster validate_cluster_coherence
    find_cluster_items get_embeddings get_evidence_map add_from get_clustering_config
    should_add_to_cluster calculate_coherence unassign validate_cluster_candidate comes_before
    generate_cluster_topic add_items persist_cluster sort_cluster_items calculate_boosted_similarity
    within_cluster_window cosine_similarity
three-clustered = (refl, refl, refl, refl)

cluster_items_for_research_lem_example :
    let run =
      cluster_items_for_research numbers packages services settings any_order true [] three in
    times "b" (all_clustered run.clusters) ≡ 1
cluster_items_for_research_lem_example =
    cluster_items_for_research_lem numbers packages services settings any_order same [] three
      (let (_, _, fine, _) = three-clustered in fine) (item_of "b" (1 ∷ 0 ∷ [])) (there (here refl))
      (λ cluster_id. refl)

cluster_items_with_source_sound_example :
    let run =
      cluster_items_with_source numbers packages services settings any_order true [] three
        "digest" in
    ((id : String) → times id (all_clustered run.clusters) ≤ 1)
    × All
        (λ c.
          (2 ≤ length c.items + length c.refused)
          × All (λ item. In item (take 2000 three)) c.items
          × All
              (λ item.
                In item (take 2000 three) × (services.add_to_cluster c.cluster_id item.id ≡ false))
              c.refused)
        run.clusters
cluster_items_with_source_sound_example =
    cluster_items_with_source_sound numbers packages services settings any_order same [] three
      "digest" refl

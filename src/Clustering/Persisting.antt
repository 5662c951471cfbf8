-- ===== src/Clustering/Persisting.antt =====
-- The loops over groups and items: `clusterItemsWithSource`, `processTopicGroup`, `persistCluster`.
use telegram_digest_bot.Base.{
  ℕ, suc, Bool, true, false, not, ◌&&◌, List, [], ◌∷◌, ◌++◌, map, String, Option, none, some,
  length, take, ltb, leb, if◌then◌else◌, str_eq,
}
use telegram_digest_bot.Base.Dict
use telegram_digest_bot.Base.Float.{FloatOps}
use telegram_digest_bot.Dedup.{is_empty}
use telegram_digest_bot.Clustering.{
  Item, ItemEvidence, ResolvedLink, Packages, Services, ClusteringConfig,
}
use telegram_digest_bot.Clustering.Config.{ProcessConfig, get_clustering_config}
use telegram_digest_bot.Clustering.Topics.{build_topic_grouping}
use telegram_digest_bot.Clustering.Building.{BuildContext, is_assigned, form_cluster}

-- A cluster that was created: the items that were added to it, and those for which `AddToCluster`
-- returned an error, which is only logged, and which the cluster of the database does not have.
pub record Cluster (N : Type 0) : Type 0 where
  pub cluster_id : String
  pub topic : String
  pub items : List (Item N)
  pub refused : List (Item N)

-- The assigned items, the clusters of the window and source in the database, and whether an error was
-- returned.
pub record Run (N : Type 0) : Type 0 where
  pub assigned : List (String × Bool)
  pub clusters : List (Cluster N)
  pub failed : Bool

abbrev pub link_title : ResolvedLink → String
link_title link = if str_eq link.title "" then link.domain else link.title

-- The texts of the links from the `j`-th on, of which at most three are written.
abbrev pub link_texts : ℕ → List ResolvedLink → List String
link_texts j [] = []
link_texts j (link ∷ links) =
    let rest = link_texts (suc j) links in
    let written = link_title link ∷ (if leb 2 j then [] else rest) in
    if ltb 0 j then " | " ∷ written else written

module _ (F : FloatOps) (P : Packages F.Num) where
  unfoldable pub comes_before : Item F.Num → Item F.Num → Bool
  comes_before x y =
      if not (F.eq x.importance_score y.importance_score)
      then F.lt y.importance_score x.importance_score
      else ltb (P.byte_length y.summary) (P.byte_length x.summary)

  unfoldable pub insert_item : Item F.Num → List (Item F.Num) → List (Item F.Num)
  insert_item item [] = item ∷ []
  insert_item item (other ∷ items) =
      let rest = insert_item item items in
      if comes_before other item then other ∷ rest else item ∷ other ∷ items

  -- `sort.Slice`; it promises no order of items of which neither comes before the other.
  unfoldable pub sort_cluster_items : List (Item F.Num) → List (Item F.Num)
  unfolding insert_item
  sort_cluster_items [] = []
  sort_cluster_items (item ∷ items) = insert_item item (sort_cluster_items items)

module _ (F : FloatOps) (P : Packages F.Num) (S : Services F.Num)
    (process : ProcessConfig F.Num) where
  abbrev pub with_links : Item F.Num → Option (List ResolvedLink) → String
  with_links item none = item.summary
  with_links item (some []) = item.summary
  with_links item (some (link ∷ links)) =
      P.concat (item.summary ∷ " (Context: " ∷ (link_texts 0 (link ∷ links) ++ ")" ∷ []))

  unfoldable pub augment_item_summary_with_links : Item F.Num → String
  augment_item_summary_with_links item = with_links item (S.links_for_message item.raw_message_id)

  unfoldable pub augment_cluster_items_for_topic : List (Item F.Num) → List (Item F.Num)
  augment_cluster_items_for_topic items =
      let use_links = P.contains process.link_enrichment_scope "topic" in
      map
        (λ item.
          if use_links && ltb (P.byte_length item.summary) 120
          then record item { summary = augment_item_summary_with_links item }
          else item)
        items

  -- The answer of the LLM, unless it is an error or empty.
  abbrev pub better_topic : Option String → String → String
  better_topic none default = default
  better_topic (some answer) default = if str_eq answer "" then default else answer

  unfoldable pub generate_cluster_topic : List (Item F.Num) → String → String → String
  generate_cluster_topic cluster default language =
      let augmented = augment_cluster_items_for_topic cluster in
      if leb (length cluster) 1 then default else elim S.generate_cluster_topic [
        | none ↦ default
        | some generate ↦ better_topic (generate augmented language) default
      ]

  -- The loop over the items of a new cluster: those that are added to it, and those that are not.
  unfoldable pub add_items : String → List (Item F.Num) → List (Item F.Num) × List (Item F.Num)
  add_items cluster_id [] = ([], [])
  add_items cluster_id (item ∷ items) =
      let (added, refused) = add_items cluster_id items in
      if S.add_to_cluster cluster_id item.id
      then (item ∷ added, refused)
      else (added, item ∷ refused)

  unfoldable pub persist_cluster :
      String → String → String → List (Item F.Num) → Run F.Num → Run F.Num
  unfolding add_items
  persist_cluster source language topic cluster run =
      let sorted = sort_cluster_items F P cluster in
      let cluster_topic = generate_cluster_topic sorted topic language in
      elim (S.create_cluster (length run.clusters) cluster_topic source) [
        | none ↦ record run { failed = true }
        | some cluster_id ↦ record run {
          clusters =
              run.clusters
              ++ record {
                cluster_id = cluster_id;
                topic = cluster_topic;
                items = (add_items cluster_id sorted).0;
                refused = (add_items cluster_id sorted).1;
              }
                ∷ [];
        }
      ]

  module _ (bc : BuildContext F.Num) (source : String) (min_cluster_size : ℕ) where
    -- One round of the loop of `processTopicGroup`.
    unfoldable pub cluster_round : String → List (Item F.Num) → Item F.Num → Run F.Num → Run F.Num
    cluster_round topic group_items item_a run =
        let (cluster, assigned) = form_cluster F P bc item_a group_items run.assigned in
        let next = record run { assigned = assigned } in
        if is_assigned item_a.id run.assigned
        then run
        else if ltb (length cluster) min_cluster_size
        then next
        else persist_cluster source bc.cfg.digest_language topic cluster next

    unfoldable pub process_from :
        String → List (Item F.Num) → List (Item F.Num) → Run F.Num → Run F.Num
    process_from topic group_items [] run = run
    process_from topic group_items (item_a ∷ items) run =
        let next = cluster_round topic group_items item_a run in
        let rest = process_from topic group_items items next in if next.failed then next else rest

    unfoldable pub process_topic_group : String → List (Item F.Num) → Run F.Num → Run F.Num
    unfolding process_from
    process_topic_group topic group_items run = process_from topic group_items group_items run

    -- The loop over the groups.
    unfoldable pub process_groups : List (String × List (Item F.Num)) → Run F.Num → Run F.Num
    process_groups [] run = run
    process_groups ((topic, group_items) ∷ groups) run =
        let next = process_topic_group topic group_items run in
        let rest = process_groups groups next in if next.failed then next else rest

  -- The embedding of an item, stored with it or in the database; an item without one has no entry.
  abbrev pub add_embedding :
      Item F.Num → Option (List F.Num) → List (String × List F.Num) → List (String × List F.Num)
  add_embedding item none embeddings = embeddings
  add_embedding item (some emb) embeddings = Dict.insert item.id emb embeddings

  unfoldable pub get_embeddings :
      List (String × List F.Num) → List (Item F.Num) → List (String × List F.Num)
  get_embeddings embeddings [] = embeddings
  get_embeddings embeddings (item ∷ items) =
      let emb = if is_empty item.embedding then S.item_embedding item.id else some item.embedding in
      get_embeddings (add_embedding item emb embeddings) items

  unfoldable pub get_evidence_map :
      List (Item F.Num)
      → ClusteringConfig F.Num
      → Option (List (String × List (ItemEvidence F.Num)))
  get_evidence_map items cfg =
      if not cfg.evidence_enabled then none else S.evidence_for_items (map (λ item. item.id) items)

  abbrev pub limit_cluster_items : List (Item F.Num) → List (Item F.Num)
  limit_cluster_items items = if ltb 2000 (length items) then take 2000 items else items

  abbrev pub min_cluster_size_of : String → ℕ
  min_cluster_size_of source = if str_eq source "research" then 1 else 2

  abbrev pub build_context : List (Item F.Num) → BuildContext F.Num
  build_context items =
      let cfg = get_clustering_config F P S process in
      record {
        topic_index = (build_topic_grouping F P items).topic_index;
        embeddings = get_embeddings [] items;
        evidence_map = get_evidence_map items cfg;
        all_items = items;
        cfg = cfg;
      }

  -- `order` is the order in which `range` meets the entries of the map of groups, `deleted` tells whether
  -- the old clusters of the window could be deleted, and `old` are these clusters.
  module _ (order : List (String × List (Item F.Num)) → List (String × List (Item F.Num)))
      (deleted : Bool) (old : List (Cluster F.Num)) where
    unfoldable pub cluster_limited : List (Item F.Num) → String → Run F.Num
    unfolding process_groups
    cluster_limited items source =
        process_groups (build_context items) source (min_cluster_size_of source)
          (order (build_topic_grouping F P items).topic_groups)
          (record { assigned = []; clusters = if deleted then [] else old; failed = false })

    unfoldable pub cluster_items_with_source : List (Item F.Num) → String → Run F.Num
    unfolding cluster_limited
    cluster_items_with_source items source =
        if is_empty items
        then record { assigned = []; clusters = old; failed = false }
        else cluster_limited (limit_cluster_items items) source

    abbrev pub cluster_items : List (Item F.Num) → Run F.Num
    cluster_items items = cluster_items_with_source items "digest"

    abbrev pub cluster_items_for_research : List (Item F.Num) → Run F.Num
    cluster_items_for_research items = cluster_items_with_source items "research"

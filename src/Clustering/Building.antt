-- ===== src/Clustering/Building.antt =====
-- The forming of one cluster: `findClusterItems`, `calculateCoherence`, `validateClusterCoherence`.
use telegram_digest_bot.Base.{
  ℕ, suc, Bool, true, false, not, ◌&&◌, ◌||◌, List, [], ◌∷◌, ◌++◌, String, Option, none, some,
  length, take, drop, ltb, ◌==◌, if◌then◌else◌, str_eq,
}
use telegram_digest_bot.Base.Dict
use telegram_digest_bot.Base.Float.{FloatOps}
use telegram_digest_bot.Dedup.{cosine_similarity}
use telegram_digest_bot.Clustering.{Item, ItemEvidence, Packages, ClusteringConfig}
use telegram_digest_bot.Clustering.Similarity.{
  is_positive, within_cluster_window, get_cluster_threshold, calculate_boosted_similarity,
}

-- `clusterBuildContext` without the map of assigned items, which the operations pass on, and without the
-- groups, which only the outer loop reads. `none` is a nil map of evidence.
pub record BuildContext (N : Type 0) : Type 0 where
  pub topic_index : List (String × String)
  pub embeddings : List (String × List N)
  pub evidence_map : Option (List (String × List (ItemEvidence N)))
  pub all_items : List (Item N)
  pub cfg : ClusteringConfig N

abbrev pub or_false : Option Bool → Bool
or_false none = false
or_false (some b) = b

-- `assigned[id]`, false for a missing key.
unfoldable pub is_assigned : String → List (String × Bool) → Bool
is_assigned id assigned = or_false (Dict.lookup id assigned)

-- `topicIndex[id]`, "" for a missing key.
abbrev pub topic_of : String → List (String × String) → String
topic_of id topic_index = elim (Dict.lookup id topic_index) [ none ↦ "" | some topic ↦ topic ]

-- The sum and the number of the similarities of `calculateCoherence`.
pub record PairSums (N : Type 0) : Type 0 where
  pub sum : N
  pub count : ℕ

module _ (F : FloatOps) where
  abbrev pub add_similarity :
      Option (List F.Num) → Option (List F.Num) → PairSums F.Num → PairSums F.Num
  add_similarity none emb_j s = s
  add_similarity (some emb_i) none s = s
  add_similarity (some emb_i) (some emb_j) s = record {
    sum = F.add s.sum (cosine_similarity F emb_i emb_j);
    count = suc s.count;
  }

  abbrev pub inner_pairs :
      List (String × List F.Num) → Item F.Num → List (Item F.Num) → PairSums F.Num → PairSums F.Num
  inner_pairs embeddings item_i [] s = s
  inner_pairs embeddings item_i (item_j ∷ items) s =
      inner_pairs embeddings item_i items
        (add_similarity (Dict.lookup item_i.id embeddings) (Dict.lookup item_j.id embeddings) s)

  abbrev pub all_pairs :
      List (String × List F.Num) → List (Item F.Num) → PairSums F.Num → PairSums F.Num
  all_pairs embeddings [] s = s
  all_pairs embeddings (item_i ∷ items) s =
      all_pairs embeddings items (inner_pairs embeddings item_i items s)

  unfoldable pub calculate_coherence : List (Item F.Num) → List (String × List F.Num) → F.Num
  calculate_coherence items embeddings =
      let s = all_pairs embeddings items (record { sum = F.of_nat 0; count = 0 }) in
      if ltb (length items) 2
      then F.of_nat 1
      else if s.count == 0
      then F.of_nat 0
      else F.div s.sum (F.of_nat s.count)

  -- The items of a rejected cluster after its first are free again.
  unfoldable pub unassign : List (Item F.Num) → List (String × Bool) → List (String × Bool)
  unassign [] assigned = assigned
  unassign (item ∷ items) assigned = unassign items (Dict.insert item.id false assigned)

  unfoldable pub validate_cluster_coherence :
      BuildContext F.Num
      → List (Item F.Num)
      → List (String × Bool)
      → List (Item F.Num) × List (String × Bool)
  validate_cluster_coherence bc cluster assigned =
      let coherence = calculate_coherence cluster bc.embeddings in
      if ltb 2 (length cluster) && F.lt coherence bc.cfg.coherence_threshold
      then (take 1 cluster, unassign (drop 1 cluster) assigned)
      else (cluster, assigned)

module _ (F : FloatOps) (P : Packages F.Num) (bc : BuildContext F.Num) (item_a : Item F.Num) where
  -- The embedding and the topic of a candidate, or none when it is refused.
  unfoldable pub validate_cluster_candidate :
      List (String × Bool) → Item F.Num → Option (List F.Num × String)
  validate_cluster_candidate assigned item_b =
      let topic_a = topic_of item_a.id bc.topic_index in
      let topic_b = topic_of item_b.id bc.topic_index in
      if str_eq item_b.id item_a.id || is_assigned item_b.id assigned
      then none
      else elim (Dict.lookup item_b.id bc.embeddings) [
        | none ↦ none
        | some emb_b ↦
            if not bc.cfg.cross_topic_enabled && not (str_eq topic_a topic_b)
            then none
            else if is_positive bc.cfg.cluster_window
                && not (within_cluster_window item_a.tg_date item_b.tg_date bc.cfg.cluster_window)
            then none
            else some (emb_b, topic_b)
      ]

  -- `similarity > float32(threshold)` for a candidate that is not refused.
  abbrev pub exceeds_threshold : Item F.Num → List F.Num → Option (List F.Num × String) → Bool
  exceeds_threshold item_b emb_a none = false
  exceeds_threshold item_b emb_a (some (emb_b, topic_b)) =
      let topic_a = topic_of item_a.id bc.topic_index in
      F.lt (P.to_float32 (get_cluster_threshold F P topic_a topic_b bc.cfg))
        (calculate_boosted_similarity F P item_a.id item_b.id emb_a emb_b bc.evidence_map bc.cfg)

  unfoldable pub should_add_to_cluster : List F.Num → List (String × Bool) → Item F.Num → Bool
  should_add_to_cluster emb_a assigned item_b =
      exceeds_threshold item_b emb_a (validate_cluster_candidate assigned item_b)

  -- The loop over the candidates, with the cluster and the assigned items so far.
  unfoldable pub add_from :
      List F.Num
      → List (Item F.Num)
      → List (Item F.Num)
      → List (String × Bool)
      → List (Item F.Num) × List (String × Bool)
  add_from emb_a [] cluster assigned = (cluster, assigned)
  add_from emb_a (item_b ∷ candidates) cluster assigned =
      let added = should_add_to_cluster emb_a assigned item_b in
      add_from emb_a candidates (if added then cluster ++ item_b ∷ [] else cluster)
        (if added then Dict.insert item_b.id true assigned else assigned)

  unfoldable pub find_cluster_items :
      List (Item F.Num) → List (String × Bool) → List (Item F.Num) × List (String × Bool)
  find_cluster_items group_items assigned = elim (Dict.lookup item_a.id bc.embeddings) [
    | none ↦ (item_a ∷ [], assigned)
    | some emb_a ↦
        add_from emb_a (if bc.cfg.cross_topic_enabled then bc.all_items else group_items)
          (item_a ∷ []) assigned
  ]

  -- The cluster of `itemA` in the loop of `processTopicGroup`, and the assigned items after it.
  unfoldable pub form_cluster :
      List (Item F.Num) → List (String × Bool) → List (Item F.Num) × List (String × Bool)
  form_cluster group_items assigned =
      let (cluster, found) = find_cluster_items group_items assigned in
      validate_cluster_coherence F bc cluster (Dict.insert item_a.id true found)

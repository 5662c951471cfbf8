-- ===== src/Clustering/Similarity.antt =====
-- When an item joins a cluster: `shouldAddToCluster` and what it calls.
use telegram_digest_bot.Base.{
  ℕ, ◌-◌, ◌^◌, Bool, true, not, ◌&&◌, ◌||◌, List, [], ◌∷◌, String, Option, none, some, min, ltb,
  leb, if◌then◌else◌, str_eq,
}
use telegram_digest_bot.Base.Dict
use telegram_digest_bot.Base.Float.{FloatOps}
use telegram_digest_bot.Dedup.{cosine_similarity, is_empty}
use telegram_digest_bot.Clustering.{ItemEvidence, Packages, ClusteringConfig}

-- `int64 > 0` for a bit pattern.
abbrev pub is_positive : ℕ → Bool
is_positive w = ltb 0 w && ltb w (2 ^ 63)

-- A difference is at most 2^63 - 1; below -2^63 it is -2^63, whose negation is itself.
unfoldable pub within_cluster_window : Option ℕ → Option ℕ → ℕ → Bool
within_cluster_window none b window = true
within_cluster_window (some a) none window = true
within_cluster_window (some a) (some b) window =
    if leb b a
    then leb (min (a - b) (2 ^ 63 - 1)) window
    else leb (2 ^ 63) (b - a) || leb (b - a) window

module _ (F : FloatOps) (P : Packages F.Num) where
  abbrev pub normalize_domain : String → String
  normalize_domain domain = P.trim_prefix "WWW." (P.trim_prefix "www." domain)

  unfoldable pub normalize_url_for_dedup : String → String
  normalize_url_for_dedup raw_url =
      if str_eq raw_url ""
      then ""
      else if not (P.contains raw_url "www.")
      then raw_url
      else elim (P.with_host normalize_domain raw_url) [ none ↦ raw_url | some printed ↦ printed ]

  -- The loop writes the entries in the order of the list.
  abbrev pub url_map_from :
      F.Num → List (String × F.Num) → List (ItemEvidence F.Num) → List (String × F.Num)
  url_map_from min_agreement urls [] = urls
  url_map_from min_agreement urls (ev ∷ evidence) =
      let key = normalize_url_for_dedup ev.source_url in
      url_map_from min_agreement
        (if F.le min_agreement ev.agreement_score
          then Dict.insert key ev.agreement_score urls
          else urls)
        evidence

  unfoldable pub build_evidence_url_map : List (ItemEvidence F.Num) → F.Num → List (String × F.Num)
  build_evidence_url_map evidence min_agreement = url_map_from min_agreement [] evidence

  abbrev pub min_float32 : F.Num → F.Num → F.Num
  min_float32 a b = if F.lt a b then a else b

  -- The maximum after one more evidence.
  abbrev pub shared_with : List (String × F.Num) → F.Num → ItemEvidence F.Num → F.Num
  shared_with urls max_agreement ev =
      elim (Dict.lookup (normalize_url_for_dedup ev.source_url) urls) [
        | none ↦ max_agreement
        | some score_a ↦
            let min_score = min_float32 score_a ev.agreement_score in
            if F.lt max_agreement min_score then min_score else max_agreement
      ]

  abbrev pub max_shared_from :
      List (String × F.Num) → F.Num → F.Num → List (ItemEvidence F.Num) → F.Num
  max_shared_from urls min_agreement max_agreement [] = max_agreement
  max_shared_from urls min_agreement max_agreement (ev ∷ evidence) =
      max_shared_from urls min_agreement
        (if F.lt ev.agreement_score min_agreement
          then max_agreement
          else shared_with urls max_agreement ev)
        evidence

  unfoldable pub find_max_shared_agreement :
      List (ItemEvidence F.Num) → List (String × F.Num) → F.Num → F.Num
  find_max_shared_agreement evidence_b urls min_agreement =
      max_shared_from urls min_agreement (F.of_nat 0) evidence_b

  -- A missing key of a Go map of slices is the empty slice.
  abbrev pub evidence_of :
      String → List (String × List (ItemEvidence F.Num)) → List (ItemEvidence F.Num)
  evidence_of id evidence_map = elim (Dict.lookup id evidence_map) [
    | none ↦ []
    | some evidence ↦ evidence
  ]

  unfoldable pub calculate_evidence_boost :
      String → String → List (String × List (ItemEvidence F.Num)) → ClusteringConfig F.Num → F.Num
  calculate_evidence_boost item_a_id item_b_id evidence_map cfg =
      let evidence_a = evidence_of item_a_id evidence_map in
      let evidence_b = evidence_of item_b_id evidence_map in
      let urls = build_evidence_url_map evidence_a cfg.evidence_min_agreement in
      let max_agreement = find_max_shared_agreement evidence_b urls cfg.evidence_min_agreement in
      let boost = F.mul max_agreement cfg.evidence_boost in
      if is_empty evidence_a || is_empty evidence_b
      then F.of_nat 0
      else if is_empty urls || F.eq max_agreement (F.of_nat 0)
      then F.of_nat 0
      else if F.lt cfg.evidence_boost boost
      then cfg.evidence_boost
      else boost

  unfoldable pub calculate_boosted_similarity :
      String
      → String
      → List F.Num
      → List F.Num
      → Option (List (String × List (ItemEvidence F.Num)))
      → ClusteringConfig F.Num
      → F.Num
  calculate_boosted_similarity item_a_id item_b_id emb_a emb_b none cfg =
      cosine_similarity F emb_a emb_b
  calculate_boosted_similarity item_a_id item_b_id emb_a emb_b (some evidence_map) cfg =
      let similarity = cosine_similarity F emb_a emb_b in
      if cfg.evidence_enabled
      then F.add similarity (calculate_evidence_boost item_a_id item_b_id evidence_map cfg)
      else similarity

  abbrev pub get_cluster_threshold : String → String → ClusteringConfig F.Num → F.Num
  get_cluster_threshold topic_a topic_b cfg =
      if not (str_eq topic_a topic_b) then cfg.cross_topic_threshold else cfg.similarity_threshold

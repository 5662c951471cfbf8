-- ===== src/Clustering/Config.antt =====
-- The configuration of the clustering: `getClusteringConfig`.
-- A setting that the database does not give leaves its target as it was.
use telegram_digest_bot.Base.{
  ℕ, ◌*◌, ◌%◌, ◌^◌, Bool, true, String, Option, none, some, if◌then◌else◌,
}
use telegram_digest_bot.Base.Float.{FloatOps}
use telegram_digest_bot.Clustering.{Packages, Services, ClusteringConfig}

-- What the clustering reads of the configuration of the process.
pub record ProcessConfig (N : Type 0) : Type 0 where
  pub cluster_similarity_threshold : N
  pub cross_topic_clustering_enabled : Bool
  pub cross_topic_similarity_threshold : N
  pub cluster_coherence_threshold : N
  pub evidence_clustering_boost : N
  pub evidence_clustering_min_score : N
  pub link_enrichment_scope : String

abbrev pub load_setting : {A : Type 0} → Option A → A → A
load_setting none target = target
load_setting (some value) target = value

-- `time.Duration(hours) * time.Hour` as a bit pattern.
abbrev pub hours_window : ℕ → ℕ
hours_window hours = (hours * 3600000000000) % 2 ^ 64

module _ (F : FloatOps) (P : Packages F.Num) (S : Services F.Num)
    (process : ProcessConfig F.Num) where
  abbrev pub is_above_zero : F.Num → Bool
  is_above_zero x = F.lt (F.of_nat 0) x

  abbrev pub initial_config : ClusteringConfig F.Num
  initial_config = record {
    similarity_threshold = process.cluster_similarity_threshold;
    cross_topic_enabled = process.cross_topic_clustering_enabled;
    cross_topic_threshold = process.cross_topic_similarity_threshold;
    coherence_threshold = process.cluster_coherence_threshold;
    cluster_window = 0;
    digest_language = "";
    evidence_enabled = true;
    evidence_boost = process.evidence_clustering_boost;
    evidence_min_agreement = process.evidence_clustering_min_score;
  }

  unfoldable pub load_clustering_config_from_db : ClusteringConfig F.Num → ClusteringConfig F.Num
  load_clustering_config_from_db cfg =
      let coherence = load_setting (S.number_setting "cluster_coherence_threshold") (F.of_nat 0) in
      let hours = load_setting (S.number_setting "cluster_time_window_hours") (F.of_nat 0) in
      record cfg {
        similarity_threshold =
            load_setting (S.number_setting "cluster_similarity_threshold") cfg.similarity_threshold;
        cross_topic_enabled =
            load_setting (S.bool_setting "cross_topic_clustering_enabled") cfg.cross_topic_enabled;
        cross_topic_threshold =
            load_setting (S.number_setting "cross_topic_similarity_threshold")
              cfg.cross_topic_threshold;
        coherence_threshold =
            if is_above_zero coherence then P.to_float32 coherence else cfg.coherence_threshold;
        cluster_window =
            if is_above_zero hours then hours_window (F.floor hours) else cfg.cluster_window;
        digest_language = load_setting (S.text_setting "digest_language") cfg.digest_language;
      }

  unfoldable pub apply_clustering_defaults : ClusteringConfig F.Num → ClusteringConfig F.Num
  apply_clustering_defaults cfg =
      let similarity =
        if F.le cfg.similarity_threshold (F.of_nat 0)
        then process.cluster_similarity_threshold
        else cfg.similarity_threshold in
      record cfg {
        similarity_threshold = similarity;
        cross_topic_threshold =
            if F.le cfg.cross_topic_threshold (F.of_nat 0)
            then similarity
            else cfg.cross_topic_threshold;
        coherence_threshold =
            if F.le cfg.coherence_threshold (F.of_nat 0)
            then P.to_float32 (F.decimal 7 1)
            else cfg.coherence_threshold;
      }

  unfoldable pub get_clustering_config : ClusteringConfig F.Num
  unfolding load_clustering_config_from_db apply_clustering_defaults
  get_clustering_config = apply_clustering_defaults (load_clustering_config_from_db initial_config)

-- ===== src/Clustering.antt =====
-- The clustering of items (internal/output/digest/clustering.go): its data and what it asks of others.
-- The floats, the functions of Go's packages on texts, and the database with the LLM are parameters.
pub mod Topics
pub mod Similarity
pub mod Config
pub mod Building
pub mod Persisting
pub mod Partition
mod Tests
use telegram_digest_bot.Base.{ℕ, Bool, List, String, Option}
use telegram_digest_bot.Base.Float.{FloatOps}

-- What the clustering reads of an item; `none` is the zero time.
pub record Item (N : Type 0) : Type 0 where
  pub id : String
  pub raw_message_id : String
  pub importance_score : N
  pub topic : String
  pub summary : String
  pub tg_date : Option ℕ
  pub embedding : List N

-- What it reads of an evidence with its source.
pub record ItemEvidence (N : Type 0) : Type 0 where
  pub agreement_score : N
  pub source_url : String

pub record ResolvedLink : Type 0 where
  pub title : String
  pub domain : String

-- Functions of Go's packages: of `strings` and `cases` (a prefix or set of characters comes first), the conversion of a float64 to a float32, and
-- `with_host change url`, which parses a URL and prints it with a changed host.
pub record Packages (N : Type 0) : Type 0 where
  pub to_lower : String → String
  pub trim_space : String → String
  pub title : String → String
  pub fields : String → List String
  pub trim : String → String → String
  pub trim_prefix : String → String → String
  pub contains : String → String → Bool
  pub byte_length : String → ℕ
  pub concat : List String → String
  pub with_host : (String → String) → String → Option String
  pub to_float32 : N → N

-- Answers of the database and of the LLM, `none` for an error.
pub record Services (N : Type 0) : Type 0 where
  pub number_setting : String → Option N
  pub bool_setting : String → Option Bool
  pub text_setting : String → Option String
  pub item_embedding : String → Option (List N)
  pub evidence_for_items : List String → Option (List (String × List (ItemEvidence N)))
  pub links_for_message : String → Option (List ResolvedLink)
  -- `CreateClusterWithSource` after so many clusters have been created, for a topic and a source.
  pub create_cluster : ℕ → String → String → Option String
  -- Whether `AddToCluster` returns no error, for a cluster and an item by their identifiers.
  pub add_to_cluster : String → String → Bool
  -- `GenerateClusterTopic`, when there is a client.
  pub generate_cluster_topic : Option (List (Item N) → String → Option String)

-- `clusteringConfig`; the window is the bit pattern of an int64.
pub record ClusteringConfig (N : Type 0) : Type 0 where
  pub similarity_threshold : N
  pub cross_topic_enabled : Bool
  pub cross_topic_threshold : N
  pub coherence_threshold : N
  pub cluster_window : ℕ
  pub digest_language : String
  pub evidence_enabled : Bool
  pub evidence_boost : N
  pub evidence_min_agreement : N

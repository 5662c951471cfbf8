-- ===== src/Lib.antt =====
-- Verification of the Telegram digest bot.
--
-- The bot reads messages of Telegram channels, filters and deduplicates them, has language models
-- summarise them, looks for evidence with search providers, and publishes digests. This library models
-- the parts that decide: which provider answers, which message, item or bullet is kept, and what a
-- digest shows.
--
-- The parts and their files, with the paths of the code from the root of the repository:
--   Circuit    internal/core/embeddings/circuit.go: the breaker of the LLM and embedding providers.
--              `can_attempt` is CanAttempt, `record_failure` is RecordFailure, and so on.
--   Budget     internal/core/llm/budget.go: the daily token budget and its alerts. `record_tokens` is
--              RecordTokens, `check_date_reset` is checkDateReset.
--   Registry   internal/core/llm/registry.go and task_config.go: Registry/Config holds the configured
--              chains and the overrides, Registry/Chain is getProviderChainForTask, Registry/Fallback
--              is executeWithTaskFallback with tryProviderExec, and GenerateDigestCover. It keeps a
--              breaker of Circuit for every provider.
--   Embeddings internal/core/embeddings/registry.go, client.go and padding.go: `get_embedding` is
--              GetEmbedding, `new_client` of Embeddings/Client is NewClient. It keeps a breaker of Circuit
--              for every provider.
--   Evidence   internal/process/enrichment/providers.go: Evidence/Breaker is its own breaker,
--              Evidence/Select the loop of selectBestResult, Evidence/Providers the registry and
--              SearchWithFallback, which sends what the providers answer to that loop.
--   Digest     internal/output/digest: Digest/Topics is the balance of topics of topic_balance.go and
--              digest_selection.go, Digest/Corroboration the adjustment of scores of corroboration.go.
--   Clustering internal/output/digest/clustering.go: Clustering/Topics groups items by topic (`group_from` is
--              the loop of buildTopicGrouping), Clustering/Config is getClusteringConfig,
--              Clustering/Similarity scores a pair, Clustering/Building forms a cluster, and
--              Clustering/Persisting holds the loops up to `cluster_items_with_source`. It uses the
--              similarity of Dedup.
--   Dedup      internal/process/dedup, and deduplicateItems of digest_selection.go.
--   Bullets    internal/process/pipeline/bullet_dedup.go.
--   Filters    internal/process/filters/filters.go.
--   Token      internal/expandedview/token.go: `generate` is Generate, `verify` is Verify.
--   Weekly     internal/platform/worker/weekly.go: the weekly tasks.
--   Schedule   internal/platform/schedule/schedule.go: Schedule/Clock reads times of day, Schedule/Days
--              expands and validates the schedule of a day, Schedule/Times finds the due moments with
--              `next_times` (NextTimes), `previous_time_before` and `times_between`.
--   Base       the names and lemmas that these share, among them association lists for Go's maps
--              (Base/Dict) and the operations on floats that the code uses (Base/Float).
--
-- State is passed explicitly, and each operation that holds a mutex is one step. `time.Now()` is an
-- argument, in nanoseconds. Answers of providers, of the database and of the settings are parameters or
-- environments. A `select` over channels reads a list of events in the order in which it meets them, so
-- that a theorem for every list is a theorem for every interleaving. Floats are a parameter, since the
-- theorems need none of their laws. An int64 that may overflow is its bit pattern; other integers are
-- natural numbers where the code keeps them from being negative, and ℤ where it tests for that. All
-- loops are structural recursions, so no fuel is needed, but for that over the hours of a range in
-- Schedule/Days, whose fuel is 24 since an end is at most 23:00.
--
-- Not modelled: network clients, SQL, HTML, logs and metrics, the Telegram API, and the wiring of the
-- parts; nor yet the message heuristics, the tuning of thresholds, and the filters and routes of the
-- search for evidence.
pub mod Base
pub mod Circuit
pub mod Budget
pub mod Registry
pub mod Evidence
pub mod Digest
pub mod Dedup
pub mod Bullets
pub mod Filters
pub mod Token
pub mod Weekly
pub mod Schedule
pub mod Clustering
pub mod Embeddings

-- ===== src/Digest/Corroboration.antt =====
-- The adjustment of scores by the channels of a cluster (internal/output/digest/corroboration.go).
-- The code changes items through pointers: the items are a list, and a pointer is a position in it.
pub mod Copies
pub mod Consistency
mod Tests
use telegram_digest_bot.Base.{
  ℕ, zero, suc, ◌-◌, Bool, true, false, not, ◌&&◌, ◌||◌, List, [], ◌∷◌, String, Option, none, some,
  any, length, ltb, ◌==◌, if◌then◌else◌, str_eq,
}
use telegram_digest_bot.Base.Dict
use telegram_digest_bot.Base.Float.{FloatOps}
use telegram_digest_bot.Dedup.{is_empty}

-- What the adjustment reads and changes of an item.
pub record Item (N : Type 0) : Type 0 where
  pub id : String
  pub source_channel : String
  pub relevance_score : N
  pub importance_score : N
  pub topic : String
  pub summary : String

pub record ClusterWithItems (N : Type 0) : Type 0 where
  pub id : String
  pub topic : String
  pub items : List (Item N)

-- The settings of the digest that matter here.
pub record Settings (N : Type 0) : Type 0 where
  pub corroboration_boost : N
  pub single_source_penalty : N

-- The item at a position, and the list with another one there.
abbrev pub item_at : {N : Type 0} → ℕ → List (Item N) → Option (Item N)
item_at k [] = none
item_at zero (x ∷ xs) = some x
item_at (suc k) (x ∷ xs) = item_at k xs

abbrev pub set_at : {N : Type 0} → ℕ → Item N → List (Item N) → List (Item N)
set_at k item [] = []
set_at zero item (x ∷ xs) = item ∷ xs
set_at (suc k) item (x ∷ xs) = x ∷ set_at k item xs

unfoldable pub index_from : {N : Type 0} → ℕ → List (Item N) → List (String × ℕ) → List (String × ℕ)
index_from i [] index = index
index_from i (item ∷ items) index = index_from (suc i) items (Dict.insert item.id i index)

unfoldable pub build_item_index : {N : Type 0} → List (Item N) → List (String × ℕ)
unfolding index_from
build_item_index items = index_from 0 items []

-- The names of the channels, each once.
abbrev pub channel_set : {N : Type 0} → List (Item N) → List String
channel_set [] = []
channel_set (item ∷ items) =
    let rest = channel_set items in
    if str_eq item.source_channel "" || any (λ c. str_eq c item.source_channel) rest
    then rest
    else item.source_channel ∷ rest

unfoldable pub count_unique_channels : {N : Type 0} → List (Item N) → ℕ
count_unique_channels items = length (channel_set items)

module _ (F : FloatOps) where
  unfoldable pub clamp_score : F.Num → F.Num
  clamp_score score =
      if F.lt score (F.of_nat 0)
      then F.of_nat 0
      else if F.lt (F.of_nat 1) score
      then F.of_nat 1
      else score

  abbrev pub boost_of : ℕ → Settings F.Num → F.Num
  boost_of channel_count settings =
      if ltb 1 channel_count && F.lt (F.of_nat 0) settings.corroboration_boost
      then F.mul (F.of_nat (channel_count - 1)) settings.corroboration_boost
      else F.of_nat 0

  abbrev pub penalty_of : ℕ → ℕ → Settings F.Num → F.Num
  penalty_of channel_count item_count settings =
      if channel_count == 1 && ltb 1 item_count && F.lt (F.of_nat 0) settings.single_source_penalty
      then settings.single_source_penalty
      else F.of_nat 0

  unfoldable pub calculate_boost_penalty : ℕ → ℕ → Settings F.Num → F.Num × F.Num
  calculate_boost_penalty channel_count item_count settings =
      (boost_of channel_count settings, penalty_of channel_count item_count settings)

  abbrev pub new_score : F.Num → F.Num → F.Num → F.Num
  new_score boost penalty base = clamp_score (F.sub (F.add base boost) penalty)

  module _ (index : List (String × ℕ)) where
    abbrev pub with_position : ℕ → Option (Item F.Num) → Option (ℕ × Item F.Num)
    with_position k none = none
    with_position k (some item) = some (k, item)

    abbrev pub point : List (Item F.Num) → Option ℕ → Option (ℕ × Item F.Num)
    point items none = none
    point items (some k) = with_position k (item_at k items)

    -- Whether the pointer of an identifier is there, and what it points to.
    abbrev pub pointed : String → List (Item F.Num) → Option (ℕ × Item F.Num)
    pointed id items = point items (Dict.lookup id index)

    abbrev pub adjust_through :
        F.Num
        → F.Num
        → Item F.Num
        → List (Item F.Num)
        → Option (ℕ × Item F.Num)
        → Item F.Num × List (Item F.Num)
    adjust_through boost penalty cluster_item items none =
        let score = new_score boost penalty cluster_item.importance_score in
        (record cluster_item { importance_score = score }, items)
    adjust_through boost penalty cluster_item items (some (k, item)) =
        let score = new_score boost penalty item.importance_score in
        (
          record cluster_item {
            relevance_score = item.relevance_score;
            topic = item.topic;
            summary = if str_eq cluster_item.summary "" then item.summary else cluster_item.summary;
            importance_score = score;
          },
          set_at k (record item { importance_score = score }) items,
        )

    unfoldable pub apply_score_adjustment :
        F.Num → F.Num → Item F.Num → List (Item F.Num) → Item F.Num × List (Item F.Num)
    apply_score_adjustment boost penalty cluster_item items =
        adjust_through boost penalty cluster_item items (pointed cluster_item.id items)

    -- The loop over the items of a cluster.
    unfoldable pub adjust_items :
        F.Num
        → F.Num
        → List (Item F.Num)
        → List (Item F.Num)
        → List (Item F.Num) × List (Item F.Num)
    adjust_items boost penalty [] items = ([], items)
    adjust_items boost penalty (c ∷ cs) items =
        let (c', next) = apply_score_adjustment boost penalty c items in
        let (cs', after) = adjust_items boost penalty cs next in (c' ∷ cs', after)

    unfoldable pub adjust_cluster_scores :
        Settings F.Num
        → ClusterWithItems F.Num
        → List (Item F.Num)
        → ClusterWithItems F.Num × List (Item F.Num)
    adjust_cluster_scores settings cluster items =
        let channel_count = count_unique_channels cluster.items in
        let (boost, penalty) =
          calculate_boost_penalty channel_count (length cluster.items) settings in
        let (cluster_items, after) = adjust_items boost penalty cluster.items items in
        if channel_count == 0
        then (cluster, items)
        else (record cluster { items = cluster_items }, after)

    unfoldable pub adjust_clusters :
        Settings F.Num
        → List (ClusterWithItems F.Num)
        → List (Item F.Num)
        → List (ClusterWithItems F.Num) × List (Item F.Num)
    adjust_clusters settings [] items = ([], items)
    adjust_clusters settings (cluster ∷ clusters) items =
        let (cluster', next) = adjust_cluster_scores settings cluster items in
        let (clusters', after) = adjust_clusters settings clusters next in
        (cluster' ∷ clusters', after)

  unfoldable pub apply_corroboration_adjustments :
      List (Item F.Num)
      → List (ClusterWithItems F.Num)
      → Settings F.Num
      → List (ClusterWithItems F.Num) × List (Item F.Num)
  unfolding adjust_clusters build_item_index
  apply_corroboration_adjustments items clusters settings =
      if is_empty clusters
      then (clusters, items)
      else if F.le settings.corroboration_boost (F.of_nat 0)
          && F.le settings.single_source_penalty (F.of_nat 0)
      then (clusters, items)
      else adjust_clusters (build_item_index items) settings clusters items

-- ===== src/Digest/Corroboration/Tests.antt =====
-- Two items of different channels in one cluster, over whole numbers.
use telegram_digest_bot.Base.{
  ℕ, ◌+◌, ◌-◌, ◌*◌, ◌/◌, ◌≡◌, ◌≢◌, refl, true, false, List, [], ◌∷◌, String, All, ltb, leb, ◌==◌,
  map, eq_iff, arith,
}
use telegram_digest_bot.Base.Dict
use telegram_digest_bot.Base.Float.{FloatOps}
use telegram_digest_bot.Digest.Corroboration.{
  Item, ClusterWithItems, Settings, build_item_index, count_unique_channels, clamp_score,
  calculate_boost_penalty, apply_score_adjustment, adjust_items, adjust_cluster_scores,
  adjust_clusters, apply_corroboration_adjustments,
}
use telegram_digest_bot.Digest.Corroboration.Consistency.{
  IsConsistent, apply_corroboration_adjustments_lem,
}

abbrev units : FloatOps
units = record {
  Num = ℕ;
  of_nat = λ n. n;
  of_i64 = λ n. n;
  decimal = λ n d. n;
  add = λ x y. x + y;
  sub = λ x y. x - y;
  mul = λ x y. x * y;
  div = λ x y. x / y;
  sqrt = λ x. x;
  floor = λ x. x;
  lt = ltb;
  le = leb;
  eq = λ x y. x == y;
}

abbrev item_of : String → String → Item ℕ
item_of id channel = record {
  id = id;
  source_channel = channel;
  relevance_score = 1;
  importance_score = 0;
  topic = "";
  summary = "";
}

abbrev pair : List (Item ℕ)
pair = item_of "a" "first" ∷ item_of "b" "second" ∷ []

abbrev together : List (ClusterWithItems ℕ)
together = record { id = "1"; topic = ""; items = pair } ∷ []

abbrev boosted : Settings ℕ
boosted = record { corroboration_boost = 3; single_source_penalty = 0 }

-- The boost is limited to a score of 1.
scores :
    map
      (λ item. item.importance_score)
      (apply_corroboration_adjustments units pair together boosted).1
    ≡ 1 ∷ 1 ∷ []
unfolding apply_corroboration_adjustments adjust_clusters adjust_cluster_scores adjust_items
    apply_score_adjustment calculate_boost_penalty clamp_score count_unique_channels
    build_item_index Dict.lookup Dict.insert
scores = refl

different : ◌≢◌ {A = String} "b" "a"
different e = let same : false ≡ true = (eq_iff "b" "a").1 e in absurd (ground (arith, same))

apply_corroboration_adjustments_lem_example :
    All
      (IsConsistent
        (build_item_index pair)
        (apply_corroboration_adjustments units pair together boosted).1)
      (apply_corroboration_adjustments units pair together boosted).0
apply_corroboration_adjustments_lem_example =
    apply_corroboration_adjustments_lem units pair together boosted refl ((different, tt), (tt, tt))

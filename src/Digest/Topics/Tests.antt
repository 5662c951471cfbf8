-- ===== src/Digest/Topics/Tests.antt =====
-- The balance of topics on five items, with hundredths for the fractions.
use telegram_digest_bot.Base.{
  ℕ, ◌+◌, ◌-◌, ◌*◌, ◌/◌, ◌^◌, ◌≤◌, ◌≡◌, refl, true, List, [], ◌∷◌, String, All, In, map, IsSublist,
  length, take, ltb, leb, ◌==◌,
}
use telegram_digest_bot.Base.Dict
use telegram_digest_bot.Base.Float.{FloatOps}
use telegram_digest_bot.Base.Int.{pos}
use telegram_digest_bot.Digest.Topics.{apply_topic_balance, apply_topic_balance_and_limit}
use telegram_digest_bot.Digest.Topics.Length.{apply_topic_balance_and_limit-length}
use telegram_digest_bot.Digest.Topics.Tally.{tally}
use telegram_digest_bot.Digest.Topics.Cap.{apply_topic_balance-capped}
use telegram_digest_bot.Digest.Topics.Variety.{named, topics_beyond, apply_topic_balance-diverse}

abbrev hundredths : FloatOps
hundredths = record {
  Num = ℕ;
  of_nat = λ n. n * 100;
  of_i64 = λ n. n * 100;
  decimal = λ n d. n * 100 / 10 ^ d;
  add = λ x y. x + y;
  sub = λ x y. x - y;
  mul = λ x y. x * y / 100;
  div = λ x y. x * 100 / y;
  sqrt = λ x. x;
  floor = λ x. x / 100;
  lt = ltb;
  le = leb;
  eq = λ x y. x == y;
}

abbrev same : String → String
same s = s

abbrev news : List String
news = "war" ∷ "war" ∷ "war" ∷ "sport" ∷ "art" ∷ []

news-balanced :
    (apply_topic_balance same same hundredths news 4 50 (pos 3)).items
    ≡ "war" ∷ "war" ∷ "sport" ∷ "art" ∷ []
unfolding apply_topic_balance Dict.lookup Dict.insert
news-balanced = refl

apply_topic_balance_and_limit-length_example :
    (length (apply_topic_balance_and_limit same same hundredths true 50 (pos 3) 4 news) ≡ 4)
    × IsSublist (apply_topic_balance_and_limit same same hundredths true 50 (pos 3) 4 news) news
apply_topic_balance_and_limit-length_example =
    apply_topic_balance_and_limit-length same same hundredths true 50 (pos 3) 4 news

apply_topic_balance-capped_example :
    tally same same "war" (apply_topic_balance same same hundredths news 4 50 (pos 3)).items
    ≤ (apply_topic_balance same same hundredths news 4 50 (pos 3)).max_per_topic
unfolding apply_topic_balance Dict.lookup Dict.insert
apply_topic_balance-capped_example =
    apply_topic_balance-capped same same hundredths news 4 50 (pos 3) "war" refl refl refl

apply_topic_balance-diverse_example :
    All
      (λ name.
        In name (
          map (named same same) (apply_topic_balance same same hundredths news 4 50 (pos 3)).items))
      (take 3 (topics_beyond same same [] news))
apply_topic_balance-diverse_example =
    apply_topic_balance-diverse same same hundredths news 4 50 3 refl refl

three_topics : take 3 (topics_beyond same same [] news) ≡ "war" ∷ "sport" ∷ "art" ∷ []
unfolding topics_beyond
three_topics = refl

-- ===== src/Dedup/Tests.antt =====
-- Items that are their own identifiers and whose embeddings have one number.
use telegram_digest_bot.Base.{
  ℕ, ◌+◌, ◌-◌, ◌*◌, ◌/◌, ◌≡◌, refl, List, [], ◌∷◌, String, length, ltb, leb, ◌==◌, str_eq,
  if◌then◌else◌,
}
use telegram_digest_bot.Base.Float.{FloatOps}
use telegram_digest_bot.Dedup.{
  deduplicate_scorables, deduplicate_scorables_full, keep_or_drop, deduplicate_items,
  cosine_similarity, is_similar,
}
use telegram_digest_bot.Dedup.Keeping.{IsDeduplicated, deduplicate_scorables-IsDeduplicated}
use telegram_digest_bot.Dedup.Agreement.{deduplicate_items_lem, deduplicate_scorables_full_lem}

-- Whole numbers: a vector and a multiple of it have similarity 1.
abbrev whole : FloatOps
whole = record {
  Num = ℕ;
  of_nat = λ n. n;
  of_i64 = λ n. n;
  decimal = λ n d. n;
  add = λ x y. x + y;
  sub = λ x y. x - y;
  mul = λ x y. x * y;
  div = λ x y. x / y;
  sqrt = λ x. if x == 25 then 5 else if x == 100 then 10 else 1;
  floor = λ x. x;
  lt = ltb;
  le = leb;
  eq = λ x y. x == y;
}

abbrev embed : String → List ℕ
embed s =
    if str_eq s "a"
    then 3 ∷ 4 ∷ []
    else if str_eq s "b"
    then 6 ∷ 8 ∷ []
    else if str_eq s "c"
    then 1 ∷ 0 ∷ []
    else []

abbrev own_id : String → String
own_id s = s

abbrev four : List String
four = "a" ∷ "b" ∷ "x" ∷ "a" ∷ []

four-deduplicated : deduplicate_scorables whole own_id embed 0 four ≡ "a" ∷ "x" ∷ []
unfolding deduplicate_scorables keep_or_drop is_similar cosine_similarity
four-deduplicated = refl

deduplicate_scorables-IsDeduplicated_example :
    IsDeduplicated whole own_id embed 0 four (deduplicate_scorables whole own_id embed 0 four)
deduplicate_scorables-IsDeduplicated_example =
    deduplicate_scorables-IsDeduplicated whole own_id embed 0 four

deduplicate_items_lem_example :
    deduplicate_items whole own_id embed 0 [] four ≡ deduplicate_scorables whole own_id embed 0 four
deduplicate_items_lem_example = deduplicate_items_lem whole own_id embed 0 four

deduplicate_scorables_full_lem_example :
    ((deduplicate_scorables_full whole own_id embed 0 four).items
      ≡ deduplicate_scorables whole own_id embed 0 four)
    × ((deduplicate_scorables_full whole own_id embed 0 four).dropped_count
          + length (deduplicate_scorables whole own_id embed 0 four)
        ≡ length four)
deduplicate_scorables_full_lem_example =
    deduplicate_scorables_full_lem whole own_id embed 0 four (refl, (refl, (refl, (refl, tt))))

-- ===== src/Bullets/Tests.antt =====
-- Three bullets of three items, whose embeddings point the same way.
use telegram_digest_bot.Base.{
  ℕ, ◌+◌, ◌-◌, ◌*◌, ◌/◌, ◌≡◌, refl, List, [], ◌∷◌, String, none, some, ltb, leb, ◌==◌,
  if◌then◌else◌,
}
use telegram_digest_bot.Base.Dict
use telegram_digest_bot.Base.Float.{FloatOps}
use telegram_digest_bot.Dedup
use telegram_digest_bot.Bullets.{
  PendingBulletForDedup, find_duplicate_bullets_with_canonical, compare_with, compare_with_all,
  link_from,
}
use telegram_digest_bot.Bullets.Links.{
  IsLink, find_duplicate_bullets_with_canonical-IsLink,
  find_duplicate_bullets_with_canonical-IsFlat,
}

abbrev whole_numbers : FloatOps
whole_numbers = record {
  Num = ℕ;
  of_nat = λ n. n;
  of_i64 = λ n. n;
  decimal = λ n d. n;
  add = λ x y. x + y;
  sub = λ x y. x - y;
  mul = λ x y. x * y;
  div = λ x y. x / y;
  sqrt = λ x. if x == 25 then 5 else if x == 100 then 10 else 1;
  floor = λ x. x;
  lt = ltb;
  le = leb;
  eq = λ x y. x == y;
}

abbrev keep_width : ℕ → ℕ
keep_width n = n

abbrev bullet : String → String → String → List ℕ → PendingBulletForDedup ℕ
bullet id item_id status embedding = record {
  id = id;
  embedding = embedding;
  item_id = item_id;
  status = status;
}

abbrev three : List (PendingBulletForDedup ℕ)
three =
    bullet "r" "i" "ready" (3 ∷ 4 ∷ [])
    ∷ bullet "p" "j" "pending" (6 ∷ 8 ∷ [])
    ∷ bullet "q" "k" "pending" (3 ∷ 4 ∷ [])
    ∷ []

three-linked :
    find_duplicate_bullets_with_canonical whole_numbers keep_width three 1
    ≡ ("p", "r") ∷ ("q", "r") ∷ []
unfolding find_duplicate_bullets_with_canonical link_from Dict.lookup compare_with_all compare_with
    Dedup.cosine_similarity Dict.insert
three-linked = refl

p-linked :
    Dict.lookup "p" (find_duplicate_bullets_with_canonical whole_numbers keep_width three 1)
    ≡ some "r"
unfolding find_duplicate_bullets_with_canonical link_from Dict.lookup compare_with_all compare_with
    Dedup.cosine_similarity Dict.insert
p-linked = refl

find_duplicate_bullets_with_canonical-IsLink_example :
    IsLink whole_numbers keep_width 1 three "p" "r"
find_duplicate_bullets_with_canonical-IsLink_example =
    find_duplicate_bullets_with_canonical-IsLink whole_numbers keep_width 1 three "p" "r" p-linked

find_duplicate_bullets_with_canonical-IsFlat_example :
    Dict.lookup "r" (find_duplicate_bullets_with_canonical whole_numbers keep_width three 1) ≡ none
find_duplicate_bullets_with_canonical-IsFlat_example =
    find_duplicate_bullets_with_canonical-IsFlat whole_numbers keep_width 1 three "p" "r"
      ((refl, (refl, tt)), ((refl, tt), (tt, tt))) p-linked

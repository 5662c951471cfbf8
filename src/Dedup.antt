-- ===== src/Dedup.antt =====
-- The removal of items with similar embeddings (internal/process/dedup and `deduplicateItems` of
-- internal/output/digest/digest_selection.go). The floats are a parameter.
pub mod Keeping
pub mod Agreement
mod Tests
use telegram_digest_bot.Base.{
  ℕ, suc, ◌*◌, ◌⊎◌, inl, inr, Bool, true, false, not, ◌&&◌, ◌||◌, List, [], ◌∷◌, ◌++◌, String,
  Option, none, some, length, find, any, ◌==◌, if◌then◌else◌, str_eq,
}
use telegram_digest_bot.Base.Dict
use telegram_digest_bot.Base.Int.{ℤ, pos, negsuc}
use telegram_digest_bot.Base.Float.{FloatOps}

abbrev pub is_empty : {A : Type 0} → List A → Bool
is_empty [] = true
is_empty (x ∷ xs) = false

-- The sums of the loop of `CosineSimilarity`.
pub record Sums (N : Type 0) : Type 0 where
  pub dot_product : N
  pub norm_a : N
  pub norm_b : N

module _ (F : FloatOps) where
  abbrev pub sums_from : Sums F.Num → List F.Num → List F.Num → Sums F.Num
  sums_from s [] ys = s
  sums_from s (a ∷ xs) [] = s
  sums_from s (a ∷ xs) (b ∷ ys) =
      sums_from
        (record {
          dot_product = F.add s.dot_product (F.mul a b);
          norm_a = F.add s.norm_a (F.mul a a);
          norm_b = F.add s.norm_b (F.mul b b);
        })
        xs ys

  unfoldable pub cosine_similarity : List F.Num → List F.Num → F.Num
  cosine_similarity xs ys =
      let zero = F.of_nat 0 in
      let s = sums_from (record { dot_product = zero; norm_a = zero; norm_b = zero }) xs ys in
      if not (length xs == length ys) || is_empty xs
      then zero
      else if F.eq s.norm_a zero || F.eq s.norm_b zero
      then zero
      else F.div s.dot_product (F.mul (F.sqrt s.norm_a) (F.sqrt s.norm_b))

pub record DeduplicateResult (T : Type 0) : Type 0 where
  pub items : List T
  pub dropped_count : ℕ
  pub duplicate_map : List (String × String)

-- `T` is a scorable type: what the loops read of it is its identifier and its embedding.
module _ (F : FloatOps) {T : Type 0} (get_id : T → String) (get_embedding : T → List F.Num)
    (threshold : F.Num) where
  -- The test of the inner loops, for `item` against a kept one, which is passed over without an
  -- embedding.
  unfoldable pub is_similar : T → T → Bool
  is_similar item kept =
      not (is_empty (get_embedding kept))
      && F.lt threshold (cosine_similarity F (get_embedding item) (get_embedding kept))

  -- One round of the outer loop.
  unfoldable pub keep_or_drop : List T → T → List T
  keep_or_drop result item =
      if is_empty (get_embedding item)
      then result ++ item ∷ []
      else if any (is_similar item) result
      then result
      else result ++ item ∷ []

  unfoldable pub deduplicate_from : List T → List T → List T
  deduplicate_from result [] = result
  deduplicate_from result (item ∷ items) = deduplicate_from (keep_or_drop result item) items

  unfoldable pub deduplicate_scorables : List T → List T
  unfolding deduplicate_from
  deduplicate_scorables items = deduplicate_from [] items

  -- The identifier of the first similar item, or "".
  unfoldable pub duplicate_of : T → List T → String
  duplicate_of item kept = elim (find (is_similar item) kept) [ some k ↦ get_id k | none ↦ "" ]

  unfoldable pub full_round : DeduplicateResult T → T → DeduplicateResult T
  unfolding duplicate_of
  full_round r item =
      let duplicate = duplicate_of item r.items in
      if is_empty (get_embedding item)
      then record r { items = r.items ++ item ∷ [] }
      else if not (str_eq duplicate "")
      then record r {
        dropped_count = suc r.dropped_count;
        duplicate_map = Dict.insert (get_id item) duplicate r.duplicate_map;
      }
      else record r { items = r.items ++ item ∷ [] }

  unfoldable pub full_from : DeduplicateResult T → List T → DeduplicateResult T
  full_from r [] = r
  full_from r (item ∷ items) = full_from (full_round r item) items

  unfoldable pub deduplicate_scorables_full : List T → DeduplicateResult T
  unfolding full_from
  deduplicate_scorables_full items =
      full_from (record { items = []; dropped_count = 0; duplicate_map = [] }) items

  unfoldable pub find_duplicates : List T → List T → List T
  unfolding is_similar
  find_duplicates [] reference = []
  find_duplicates (candidate ∷ candidates) reference =
      let rest = find_duplicates candidates reference in
      if is_empty (get_embedding candidate)
      then rest
      else if any (is_similar candidate) reference
      then candidate ∷ rest
      else rest

  -- `deduplicateItems` of the digest, `threshold` being `ClusterSimilarityThreshold`.
  unfoldable pub deduplicate_items : List T → List T → List T
  unfolding is_similar
  deduplicate_items deduped [] = deduped
  deduplicate_items deduped (item ∷ items) =
      let is_duplicate = not (is_empty (get_embedding item)) && any (is_similar item) deduped in
      deduplicate_items (if is_duplicate then deduped else deduped ++ item ∷ []) items

-- What a deduplicator asks of the database, at the moment of the call. `E` is an error.
pub record Repository (N E : Type 0) : Type 0 where
  pub check_strict_duplicate : String → String → E ⊎ Bool
  -- The embedding, the threshold, and how far back to look, in nanoseconds.
  pub find_similar_item : List N → N → ℕ → E ⊎ String

-- `IsDuplicate` returns a flag and the identifier of the original, or an error.
module _ {N E : Type 0} (db : Repository N E) where
  -- A window that is not positive is replaced by seven days.
  abbrev pub effective_window : ℤ → ℕ
  effective_window (pos h) = if h == 0 then 7 * 24 * 3600000000000 else h
  effective_window (negsuc h) = 7 * 24 * 3600000000000

  unfoldable pub is_semantic_duplicate : N → ℤ → List N → E ⊎ (Bool × String)
  is_semantic_duplicate threshold window embedding =
      if is_empty embedding
      then inr (false, "")
      else elim (db.find_similar_item embedding threshold (effective_window window)) [
        | inl err ↦ inl err
        | inr id ↦ if not (str_eq id "") then inr (true, id) else inr (false, "")
      ]

  unfoldable pub is_strict_duplicate : String → String → E ⊎ (Bool × String)
  is_strict_duplicate canonical_hash id = elim (db.check_strict_duplicate canonical_hash id) [
    | inl err ↦ inl err
    | inr exists ↦ if exists then inr (true, "strict_duplicate") else inr (false, "")
  ]

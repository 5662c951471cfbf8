-- ===== src/Bullets.antt =====
-- The deduplication of pending bullets (internal/process/pipeline/bullet_dedup.go).
-- The database and the floats are parameters; `widen` is Go's conversion of a float32 to a float64.
pub mod Links
mod Tests
use telegram_digest_bot.Base.{
  ℕ, suc, Bool, true, false, not, ◌&&◌, ◌||◌, List, [], ◌∷◌, map, String, Option, none, some, ◌⊎◌,
  inl, inr, if◌then◌else◌, str_eq, ◌==◌,
}
use telegram_digest_bot.Base.Dict
use telegram_digest_bot.Base.Int.{ℤ, pos, negsuc}
use telegram_digest_bot.Base.Float.{FloatOps}
use telegram_digest_bot.Dedup.{is_empty}
use telegram_digest_bot.Dedup

-- `PendingBulletForDedup`, without the text and the score, which nothing here reads.
pub record PendingBulletForDedup (N : Type 0) : Type 0 where
  pub id : String
  pub embedding : List N
  pub item_id : String
  pub status : String

abbrev pub bullet_status_pending : String
bullet_status_pending = "pending"

abbrev pub bullet_status_ready : String
bullet_status_ready = "ready"

abbrev pub is_marked : String → List (String × String) → Bool
is_marked id links = elim (Dict.lookup id links) [ some canonical ↦ true | none ↦ false ]

module _ {N : Type 0} (F : FloatOps) (widen : N → F.Num) where
  unfoldable pub cosine_similarity : List N → List N → F.Num
  cosine_similarity xs ys = Dedup.cosine_similarity F (map widen xs) (map widen ys)

  abbrev pub default_bullet_dedup_threshold : F.Num
  default_bullet_dedup_threshold = F.decimal 92 2

  -- One round of the inner loop.
  unfoldable pub compare_with :
      F.Num
      → PendingBulletForDedup N
      → PendingBulletForDedup N
      → List (String × String)
      → List (String × String)
  unfolding cosine_similarity
  compare_with threshold bullet other links =
      if is_empty other.embedding
        || not (str_eq other.status bullet_status_pending)
        || is_marked other.id links
        || str_eq bullet.item_id other.item_id
      then links
      else if F.le threshold (cosine_similarity bullet.embedding other.embedding)
      then Dict.insert other.id bullet.id links
      else links

  unfoldable pub compare_with_all :
      F.Num
      → PendingBulletForDedup N
      → List (PendingBulletForDedup N)
      → List (String × String)
      → List (String × String)
  compare_with_all threshold bullet [] links = links
  compare_with_all threshold bullet (other ∷ others) links =
      compare_with_all threshold bullet others (compare_with threshold bullet other links)

  -- One round of the outer loop.
  unfoldable pub link_from :
      F.Num
      → PendingBulletForDedup N
      → List (PendingBulletForDedup N)
      → List (String × String)
      → List (String × String)
  link_from threshold bullet others links =
      if is_empty bullet.embedding
      then links
      else if is_marked bullet.id links
      then links
      else compare_with_all threshold bullet others links

  unfoldable pub link_all :
      F.Num → List (PendingBulletForDedup N) → List (String × String) → List (String × String)
  link_all threshold [] links = links
  link_all threshold (bullet ∷ others) links =
      link_all threshold others (link_from threshold bullet others links)

  unfoldable pub find_duplicate_bullets_with_canonical :
      List (PendingBulletForDedup N) → F.Num → List (String × String)
  unfolding link_all
  find_duplicate_bullets_with_canonical bullets threshold = link_all threshold bullets []

  -- The bullets that `markCanonicalBullets` writes, in order.
  unfoldable pub canonical_bullets :
      List (PendingBulletForDedup N) → List (String × String) → List String
  canonical_bullets [] links = []
  canonical_bullets (b ∷ bullets) links =
      let rest = canonical_bullets bullets links in
      if str_eq b.status bullet_status_ready
      then rest
      else if is_marked b.id links
      then rest
      else b.id ∷ rest

  -- The number of writes that succeed, `is_written` telling which do.
  abbrev pub ready_count : (String → Bool) → List String → ℕ
  ready_count is_written [] = 0
  ready_count is_written (id ∷ ids) =
      let rest = ready_count is_written ids in if is_written id then suc rest else rest

  -- The threshold and the lookback window that apply for the configured ones.
  abbrev pub effective_threshold : F.Num → F.Num
  effective_threshold threshold =
      if F.le threshold (F.of_nat 0) then default_bullet_dedup_threshold else threshold

-- A lookback that is not positive is replaced by 48 hours.
abbrev pub effective_lookback : ℤ → ℕ
effective_lookback (pos h) = if h == 0 then 48 else h
effective_lookback (negsuc h) = 48

-- What one run writes: the links of the duplicates, the canonical bullets, and what it counts.
pub record Marks : Type 0 where
  pub duplicates : List (String × String)
  pub canonical : List String
  pub ready : ℕ

module _ {N E : Type 0} (F : FloatOps) (widen : N → F.Num) where
  -- `DeduplicatePendingBullets`; an error of the query is returned, one of a write is only logged.
  unfoldable pub deduplicate_pending_bullets :
      (ℕ → E ⊎ List (PendingBulletForDedup N)) → (String → Bool) → F.Num → ℤ → E ⊎ Marks
  unfolding find_duplicate_bullets_with_canonical canonical_bullets
  deduplicate_pending_bullets query is_written threshold lookback =
      elim (query (effective_lookback lookback)) [
        | inl err ↦ inl err
        | inr bullets ↦
            let links =
              find_duplicate_bullets_with_canonical F widen bullets
                (effective_threshold F widen threshold) in
            let canonical = canonical_bullets F widen bullets links in
            inr (record {
              duplicates = links;
              canonical = canonical;
              ready = ready_count F widen is_written canonical;
            })
      ]

-- ===== src/Dedup/Agreement.antt =====
-- The three loops that remove similar items compared with each other.
use telegram_digest_bot.Base.{
  ◌+◌, ◌≡◌, refl, ap, ◌∙◌, false, not, ◌&&◌, List, [], ◌∷◌, ◌++◌, String, length, length-append,
  any, All, All-append, str_eq, if◌then◌else◌, arith,
}
use telegram_digest_bot.Base.Float.{FloatOps}
use telegram_digest_bot.Dedup.{
  is_empty, is_similar, keep_or_drop, deduplicate_from, deduplicate_scorables, DeduplicateResult,
  duplicate_of, full_round, full_from, deduplicate_scorables_full, deduplicate_items,
}

module _ (F : FloatOps) {T : Type 0} (get_id : T → String) (get_embedding : T → List F.Num)
    (threshold : F.Num) where
  deduplicate_items-from :
      (kept items : List T)
      → deduplicate_items F get_id get_embedding threshold kept items
        ≡ deduplicate_from F get_id get_embedding threshold kept items
  unfolding deduplicate_items deduplicate_from keep_or_drop
  deduplicate_items-from kept [] = refl
  deduplicate_items-from kept (item ∷ items) =
      deduplicate_items-from
        (if not (is_empty (get_embedding item))
            && any (is_similar F get_id get_embedding threshold item) kept
          then kept
          else kept ++ item ∷ [])
        items
      ∙ ap (λ xs. deduplicate_from F get_id get_embedding threshold xs items) (ground arith)

  -- The loop of the digest, begun with nothing kept, and the generic loop keep the same items.
  pub deduplicate_items_lem :
      (items : List T)
      → deduplicate_items F get_id get_embedding threshold [] items
        ≡ deduplicate_scorables F get_id get_embedding threshold items
  unfolding deduplicate_scorables
  deduplicate_items_lem items = deduplicate_items-from [] items

  abbrev HasId : T → Type 0
  HasId x = str_eq (get_id x) "" ≡ false

  duplicate_of-any :
      (item : T) (kept : List T)
      → All HasId kept
      → str_eq (duplicate_of F get_id get_embedding threshold item kept) ""
        ≡ not (any (is_similar F get_id get_embedding threshold item) kept)
  unfolding duplicate_of
  duplicate_of-any item [] h = refl
  duplicate_of-any item (k ∷ kept) (hk, h) = ground (arith, hk, duplicate_of-any item kept h)

  full_round-items :
      (r : DeduplicateResult T) (item : T)
      → All HasId r.items
      → (full_round F get_id get_embedding threshold r item).items
        ≡ keep_or_drop F get_id get_embedding threshold r.items item
  unfolding full_round keep_or_drop
  full_round-items r item h = ground (arith, duplicate_of-any item r.items h)

  full_round-HasId :
      (r : DeduplicateResult T) (item : T)
      → All HasId r.items
      → HasId item
      → All HasId (full_round F get_id get_embedding threshold r item).items
  unfolding full_round
  full_round-HasId r item h i = ground (arith, h, All-append HasId r.items (item ∷ []) h (i, tt))

  full_from-items :
      (r : DeduplicateResult T) (items : List T)
      → All HasId r.items
      → All HasId items
      → (full_from F get_id get_embedding threshold r items).items
        ≡ deduplicate_from F get_id get_embedding threshold r.items items
  unfolding full_from deduplicate_from
  full_from-items r [] hr h = refl
  full_from-items r (item ∷ items) hr (hi, h) =
      full_from-items (full_round F get_id get_embedding threshold r item) items
        (full_round-HasId r item hr hi) h
      ∙ ap (λ xs. deduplicate_from F get_id get_embedding threshold xs items)
          (full_round-items r item hr)

  full_from-count :
      (r : DeduplicateResult T) (items : List T)
      → (full_from F get_id get_embedding threshold r items).dropped_count
          + length (full_from F get_id get_embedding threshold r items).items
        ≡ r.dropped_count + length r.items + length items
  unfolding full_from full_round
  full_from-count r [] = omega arith
  full_from-count r (item ∷ items) = ground (
    arith,
    full_from-count (full_round F get_id get_embedding threshold r item) items,
    length-append r.items (item ∷ []),
  )

  -- If no identifier is empty, the detailed loop keeps what the plain one keeps, and the items that it
  -- counts as dropped and those that it keeps make up all items.
  pub deduplicate_scorables_full_lem :
      (items : List T)
      → All HasId items
      → ((deduplicate_scorables_full F get_id get_embedding threshold items).items
          ≡ deduplicate_scorables F get_id get_embedding threshold items)
        × ((deduplicate_scorables_full F get_id get_embedding threshold items).dropped_count
              + length (deduplicate_scorables F get_id get_embedding threshold items)
            ≡ length items)
  unfolding deduplicate_scorables_full deduplicate_scorables
  deduplicate_scorables_full_lem items h =
      let begin : DeduplicateResult T = record {
        items = [];
        dropped_count = 0;
        duplicate_map = [];
      } in
      let same = full_from-items begin items tt h in
      (same, omega (arith, full_from-count begin items, ap length same))

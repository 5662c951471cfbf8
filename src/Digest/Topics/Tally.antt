-- ===== src/Digest/Topics/Tally.antt =====
-- How many selected items have a given key, through both phases of the balance.
use telegram_digest_bot.Base.{
  ℕ, zero, suc, ◌+◌, ◌≤◌, ◌≡◌, refl, ap, ◌∙◌, subst, Bool, true, List, [], ◌∷◌, String, Option,
  some, str_eq, eq_iff, if◌then◌else◌, arith, Option-cases, inl, inr,
}
use telegram_digest_bot.Base.Dict
use telegram_digest_bot.Digest.Topics.{
  TopicCandidate, Selected, selected_items, item_at, pick, key_of, count_of, bump, mark,
}
use telegram_digest_bot.Digest.Topics.Filling.{Fills, ended, full, passed, capped, chosen}

pub count_of-bump :
    (k key : String) (counts : List (String × ℕ))
    → count_of key (bump k counts)
      ≡ (if str_eq k key then suc (count_of key counts) else count_of key counts)
count_of-bump k key counts = ground (
  arith,
  Dict.lookup-insert k key (suc (count_of k counts)) counts,
  eq_iff k key,
  λ (e : k ≡ key). ap (λ j. count_of j counts) e,
)

module _ {A : Type 0} (normalize : String → String) (topic : A → String) where
  unfoldable pub tally : String → List A → ℕ
  unfolding key_of
  tally key [] = 0
  tally key (x ∷ xs) =
      let rest = tally key xs in if str_eq (key_of normalize topic x) key then suc rest else rest

  module _ (key : String) where
    abbrev pub picked_tally : List (A × Bool) → ℕ
    picked_tally slots = tally key (selected_items slots)

    module _ (target : ℕ) (limit : Option ℕ) where
      -- A pass counts every item that it selects.
      pub tally-Fills :
          {n : ℕ} (counts counts' : List (String × ℕ)) (slots slots' : List (A × Bool))
          → Fills normalize topic target limit n counts slots slots' counts'
          → picked_tally slots' + count_of key counts ≡ picked_tally slots + count_of key counts'
      unfolding tally
      tally-Fills counts _ _ _ ended = refl
      tally-Fills counts _ slots _ (full h) = refl
      tally-Fills counts counts' ((x, _) ∷ slots) (_ ∷ slots') (passed h f) =
          ground (arith, tally-Fills counts counts' slots slots' f)
      tally-Fills counts counts' (_ ∷ slots) (_ ∷ slots') (capped h e f) =
          tally-Fills counts counts' slots slots' f
      tally-Fills counts counts' ((x, _) ∷ slots) (_ ∷ slots') (chosen h e f) = ground (
        arith,
        tally-Fills (bump (key_of normalize topic x) counts) counts' slots slots' f,
        count_of-bump (key_of normalize topic x) key counts,
      )

      -- It takes none back.
      pub tally-Fills_grows :
          {n : ℕ} {counts counts' : List (String × ℕ)} (slots slots' : List (A × Bool))
          → Fills normalize topic target limit n counts slots slots' counts'
          → picked_tally slots ≤ picked_tally slots'
      unfolding tally
      tally-Fills_grows _ _ ended = omega arith
      tally-Fills_grows slots _ (full h) = omega arith
      tally-Fills_grows ((x, _) ∷ slots) (_ ∷ slots') (passed h f) =
          ground (arith, tally-Fills_grows slots slots' f)
      tally-Fills_grows (_ ∷ slots) (_ ∷ slots') (capped h e f) = tally-Fills_grows slots slots' f
      tally-Fills_grows ((x, _) ∷ slots) (_ ∷ slots') (chosen h e f) =
          ground (arith, tally-Fills_grows slots slots' f)

    -- With a cap, no count that is within it leaves it.
    pub count_of-Fills :
        (target cap : ℕ) {n : ℕ} (counts counts' : List (String × ℕ))
        {slots slots' : List (A × Bool)}
        → Fills normalize topic target (some cap) n counts slots slots' counts'
        → count_of key counts ≤ cap
        → count_of key counts' ≤ cap
    count_of-Fills target cap counts _ ended h = h
    count_of-Fills target cap counts _ (full _) h = h
    count_of-Fills target cap counts counts' (passed _ f) h =
        count_of-Fills target cap counts counts' f h
    count_of-Fills target cap counts counts' (capped _ _ f) h =
        count_of-Fills target cap counts counts' f h
    count_of-Fills target cap counts counts' (chosen {x = x} _ e f) h =
        count_of-Fills target cap (bump (key_of normalize topic x) counts) counts' f (
          ground (
            arith,
            e,
            h,
            count_of-bump (key_of normalize topic x) key counts,
            eq_iff (key_of normalize topic x) key,
            λ (same : key_of normalize topic x ≡ key). ap (λ j. count_of j counts) same,
          ))

    tally-pick_grows :
        (n : ℕ) (slots : List (A × Bool)) → picked_tally slots ≤ picked_tally (pick n slots)
    unfolding tally
    tally-pick_grows n [] = omega arith
    tally-pick_grows zero ((x, picked) ∷ slots) = ground arith
    tally-pick_grows (suc n) ((x, picked) ∷ slots) = ground (arith, tally-pick_grows n slots)

    tally-pick :
        (n : ℕ) (x : A) (slots : List (A × Bool))
        → item_at n slots ≡ some x
        → picked_tally (pick n slots) ≤ (
            if str_eq (key_of normalize topic x) key
            then suc (picked_tally slots)
            else picked_tally slots)
    unfolding tally
    tally-pick n x [] h = ground arith
    tally-pick zero x ((y, picked) ∷ slots) h =
        let same : y ≡ x = cc in
        subst
          (λ z. picked_tally ((y, true) ∷ slots) ≤ (
            if str_eq (key_of normalize topic z) key
            then suc (picked_tally ((y, picked) ∷ slots))
            else picked_tally ((y, picked) ∷ slots)))
          same (ground arith)
    tally-pick (suc n) x ((y, picked) ∷ slots) h = ground (arith, tally-pick n x slots h)

    pub tally-pick_counts :
        (n : ℕ) (x : A) (slots : List (A × Bool))
        → item_at n slots ≡ some x
        → key_of normalize topic x ≡ key
        → 1 ≤ picked_tally (pick n slots)
    unfolding tally
    tally-pick_counts n x [] h e = absurd cc
    tally-pick_counts zero x ((y, picked) ∷ slots) h e =
        let same : y ≡ x = cc in
        ground (arith, eq_iff (key_of normalize topic y) key, ap (key_of normalize topic) same ∙ e)
    tally-pick_counts (suc n) x ((y, picked) ∷ slots) h e =
        ground (arith, tally-pick_counts n x slots h e)

    pub tally-mark_grows :
        (c : TopicCandidate) (s : Selected A)
        → picked_tally s.slots ≤ picked_tally (mark normalize topic c s).slots
    unfolding mark
    tally-mark_grows c s = ground (arith, tally-pick_grows c.index s.slots)

    -- What `mark` selects it counts.
    pub tally-mark :
        (c : TopicCandidate) (s : Selected A)
        → picked_tally (mark normalize topic c s).slots + count_of key s.topic_counts
          ≤ picked_tally s.slots + count_of key (mark normalize topic c s).topic_counts
    unfolding mark
    tally-mark c s = elim (Option-cases (item_at c.index s.slots)) [
      | inl out ↦ ground (arith, out)
      | inr (x, is) ↦ ground (
        arith,
        is,
        tally-pick c.index x s.slots is,
        count_of-bump (key_of normalize topic x) key s.topic_counts,
      )
    ]

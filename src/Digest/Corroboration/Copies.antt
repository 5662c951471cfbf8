-- ===== src/Digest/Corroboration/Copies.antt =====
-- The copies of items in clusters have the scores of the items.
use telegram_digest_bot.Base.{
  ℕ, zero, suc, ◌≡◌, ◌≢◌, refl, sym, ap, ◌∙◌, subst, ◌⊎◌, inl, inr, List, [], ◌∷◌, String, Option,
  none, some, Option-cases, All, ◌==◌, Bool-cases, arith,
}
use telegram_digest_bot.Base.Dict
use telegram_digest_bot.Base.Float.{FloatOps}
use telegram_digest_bot.Digest.Corroboration.{
  Item, item_at, set_at, with_position, point, pointed, new_score, adjust_through,
  apply_score_adjustment, adjust_items,
}

module _ {N : Type 0} where
  item_at-set_at_same :
      (k : ℕ) (x y : Item N) (items : List (Item N))
      → item_at k items ≡ some y
      → item_at k (set_at k x items) ≡ some x
  item_at-set_at_same k x y [] h = absurd (cc)
  item_at-set_at_same zero x y (z ∷ items) h = refl
  item_at-set_at_same (suc k) x y (z ∷ items) h = item_at-set_at_same k x y items h

  item_at-set_at_other :
      (j k : ℕ) (x : Item N) (items : List (Item N))
      → j ≢ k
      → item_at j (set_at k x items) ≡ item_at j items
  item_at-set_at_other j k x [] h = refl
  item_at-set_at_other zero zero x (z ∷ items) h = absurd (h refl)
  item_at-set_at_other zero (suc k) x (z ∷ items) h = refl
  item_at-set_at_other (suc j) zero x (z ∷ items) h = refl
  item_at-set_at_other (suc j) (suc k) x (z ∷ items) h =
      item_at-set_at_other j k x items (λ e. h (ap suc e))

  -- An index points to items with the identifiers it is asked for.
  abbrev pub IsIndex : List (String × ℕ) → List (Item N) → Type 0
  IsIndex index items =
      (id : String) (k : ℕ) (item : Item N)
      → Dict.lookup id index ≡ some k
      → item_at k items ≡ some item
      → item.id ≡ id

  -- A copy has the score of the item that the index gives for it.
  abbrev pub IsCopy : List (String × ℕ) → List (Item N) → Item N → Type 0
  IsCopy index items c =
      (k : ℕ) (item : Item N)
      → Dict.lookup c.id index ≡ some k
      → item_at k items ≡ some item
      → c.importance_score ≡ item.importance_score

  -- No two items have one identifier.
  abbrev pub IsDistinct : List (Item N) → Type 0
  IsDistinct [] = Unit
  IsDistinct (c ∷ cs) = All (λ d. d.id ≢ c.id) cs × IsDistinct cs

  -- What is left as it is at the position of an identifier.
  abbrev pub IsKept : List (String × ℕ) → String → List (Item N) → List (Item N) → Type 0
  IsKept index id before after =
      (k : ℕ) → Dict.lookup id index ≡ some k → item_at k after ≡ item_at k before

module _ (F : FloatOps) (index : List (String × ℕ)) (boost penalty : F.Num) where
  -- One adjustment: the copy gets the score of its item, and no other item changes.
  abbrev IsAdjusted : Item F.Num → List (Item F.Num) → Item F.Num × List (Item F.Num) → Type 0
  IsAdjusted c items r =
      (r.0.id ≡ c.id)
      × IsIndex index r.1
      × IsCopy index r.1 r.0
      × ((id : String) → id ≢ c.id → IsKept index id items r.1)

  Pointed-cases :
      (id : String) (items : List (Item F.Num))
      → ((pointed F index id items ≡ none)
          × ((k : ℕ) (item : Item F.Num)
              → Dict.lookup id index ≡ some k
              → item_at k items ≢ some item))
        ⊎ ((k : ℕ) × (item : Item F.Num) × (pointed F index id items ≡ some (k, item))
            × (Dict.lookup id index ≡ some k)
            × (item_at k items ≡ some item))
  Pointed-cases id items = elim (Option-cases (Dict.lookup id index)) [
    | inl missing ↦ inl (ap (point F index items) missing, λ k item h h'. absurd (cc))
    | inr (k, found) ↦ elim (Option-cases (item_at k items)) [
      | inl outside ↦ inl (
        ap (point F index items) found ∙ ap (with_position F index k) outside,
        λ j item h h'. let same : k ≡ j = cc in absurd (cc),
      )
      | inr (item, there_is) ↦ inr (
        k,
        item,
        ap (point F index items) found ∙ ap (with_position F index k) there_is,
        found,
        there_is,
      )
    ]
  ]

  apply_score_adjustment-IsAdjusted :
      (c : Item F.Num) (items : List (Item F.Num))
      → IsIndex index items
      → IsAdjusted c items (apply_score_adjustment F index boost penalty c items)
  unfolding apply_score_adjustment
  apply_score_adjustment-IsAdjusted c items h = elim (Pointed-cases c.id items) [
    | inl (nowhere, no_item) ↦
        subst (λ o. IsAdjusted c items (adjust_through F index boost penalty c items o))
          (sym nowhere) (refl, h, λ k item e e'. absurd (no_item k item e e'), λ id other k e. refl)
    | inr (k, item, here_is, e, e') ↦
        subst (λ o. IsAdjusted c items (adjust_through F index boost penalty c items o))
          (sym here_is) (refl, kept_index k item e e', copied k item e e', others k item e e')
  ]
    where
      scored : Item F.Num → Item F.Num
      scored item = record item {
        importance_score = new_score F boost penalty item.importance_score;
      }

      kept_index :
          (k : ℕ) (item : Item F.Num)
          → Dict.lookup c.id index ≡ some k
          → item_at k items ≡ some item
          → IsIndex index (set_at k (scored item) items)
      kept_index k item e e' id j found ej ef = elim (Bool-cases (j == k)) [
        | inl same ↦
            let j_is : j ≡ k = ground (arith, same) in
            let set : item_at j (set_at k (scored item) items) ≡ some (scored item) =
              ap (λ n. item_at n (set_at k (scored item) items)) j_is
              ∙ item_at-set_at_same k (scored item) item items e' in
            let found_is : scored item ≡ found = cc (sym set ∙ ef) in
            ap (λ (x : Item F.Num). x.id) (sym found_is)
            ∙ h id j item ej (ap (λ n. item_at n items) j_is ∙ e')
        | inr different ↦
            h id j found ej
              (sym (item_at-set_at_other j k (scored item) items (ground (arith, different))) ∙ ef)
      ]

      copied :
          (k : ℕ) (item : Item F.Num)
          → Dict.lookup c.id index ≡ some k
          → item_at k items ≡ some item
          → (j : ℕ) (found : Item F.Num) → Dict.lookup c.id index ≡ some j
          → item_at j (set_at k (scored item) items) ≡ some found
          → new_score F boost penalty item.importance_score ≡ found.importance_score
      copied k item e e' j found ej ef =
          let j_is : j ≡ k = cc (sym ej ∙ e) in
          let set : item_at j (set_at k (scored item) items) ≡ some (scored item) =
            ap (λ n. item_at n (set_at k (scored item) items)) j_is
            ∙ item_at-set_at_same k (scored item) item items e' in
          let found_is : scored item ≡ found = cc (sym set ∙ ef) in
          ap (λ (x : Item F.Num). x.importance_score) found_is

      others :
          (k : ℕ) (item : Item F.Num)
          → Dict.lookup c.id index ≡ some k
          → item_at k items ≡ some item
          → (id : String) → id ≢ c.id
          → IsKept index id items (set_at k (scored item) items)
      others k item e e' id other j ej = item_at-set_at_other j k (scored item) items (λ j_is.
          other (sym (h id j item ej (ap (λ n. item_at n items) j_is ∙ e')) ∙ h c.id k item e e'))

  -- The loop over the items of a cluster keeps the index and what other identifiers point to, and its
  -- copies have the identifiers and the scores of their items.
  abbrev pub AreAdjusted :
      List (Item F.Num) → List (Item F.Num) → List (Item F.Num) × List (Item F.Num) → Type 0
  AreAdjusted cs items r =
      IsIndex index r.1
      × All (IsCopy index r.1) r.0
      × ((id : String) → All (λ d. d.id ≢ id) cs → IsKept index id items r.1)

  pub adjust_items-AreAdjusted :
      (cs items : List (Item F.Num))
      → IsIndex index items
      → IsDistinct cs
      → AreAdjusted cs items (adjust_items F index boost penalty cs items)
  unfolding adjust_items
  adjust_items-AreAdjusted [] items h distinct = (h, tt, λ id free k e. refl)
  adjust_items-AreAdjusted (c ∷ cs) items h (new, distinct) =
      let r = apply_score_adjustment F index boost penalty c items in
      let (id_is, h', copy, frame) = apply_score_adjustment-IsAdjusted c items h in
      let (h'', copies, frame') = adjust_items-AreAdjusted cs r.1 h' distinct in
      (
        h'',
        (
          λ k item e e'.
              copy k item e
                (sym (frame' c.id new k (ap (λ id. Dict.lookup id index) (sym id_is) ∙ e)) ∙ e'),
          copies,
        ),
        λ id (other, free) k e. frame' id free k e ∙ frame id (λ same. other (sym same)) k e,
      )

  -- The copies keep their identifiers.
  pub adjust_items-ids :
      (Q : String → Type 0) (cs items : List (Item F.Num))
      → All (λ c. Q c.id) cs
      → All (λ c. Q c.id) (adjust_items F index boost penalty cs items).0
  unfolding adjust_items apply_score_adjustment
  adjust_items-ids Q [] items all = tt
  adjust_items-ids Q (c ∷ cs) items (q, all) = (
    same_id (pointed F index c.id items),
    adjust_items-ids Q cs (apply_score_adjustment F index boost penalty c items).1 all,
  )
    where
      same_id :
          (o : Option (ℕ × Item F.Num)) → Q (adjust_through F index boost penalty c items o).0.id
      same_id none = q
      same_id (some (k, item)) = q

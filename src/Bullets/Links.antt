-- ===== src/Bullets/Links.antt =====
-- The links from duplicate bullets to canonical ones.
use telegram_digest_bot.Base.{
  ◌≡◌, refl, sym, ap, ◌∙◌, subst, ◌⊎◌, inl, inr, true, false, List, [], ◌∷◌, String, Option, none,
  some, In, here, there, All, str_eq, eq_iff, arith, Bool-cases, Option-cases,
}
use telegram_digest_bot.Base.Dict
use telegram_digest_bot.Base.Float.{FloatOps}
use telegram_digest_bot.Dedup.{is_empty}
use telegram_digest_bot.Bullets.{
  PendingBulletForDedup, bullet_status_pending, cosine_similarity, compare_with, compare_with_all,
  link_from, link_all, find_duplicate_bullets_with_canonical,
}

module _ {N : Type 0} (F : FloatOps) (widen : N → F.Num) (threshold : F.Num) where
  -- What makes `other` a duplicate of `bullet`.
  abbrev pub IsDuplicateOf : PendingBulletForDedup N → PendingBulletForDedup N → Type 0
  IsDuplicateOf other bullet =
      (other.status ≡ bullet_status_pending)
      × (str_eq bullet.item_id other.item_id ≡ false)
      × (is_empty other.embedding ≡ false)
      × (F.le threshold (cosine_similarity F widen bullet.embedding other.embedding) ≡ true)

  -- A new link for `k`, from a bullet among `others` to `bullet`.
  abbrev IsNewLink :
      PendingBulletForDedup N → List (PendingBulletForDedup N) → String → Option String → Type 0
  IsNewLink bullet others k found =
      (found ≡ some bullet.id)
      × ((other : PendingBulletForDedup N) × In other others
          × (other.id ≡ k)
          × IsDuplicateOf other bullet)

  compare_with-lookup :
      (bullet other : PendingBulletForDedup N) (links : List (String × String)) (k : String)
      → (Dict.lookup k (compare_with F widen threshold bullet other links) ≡ Dict.lookup k links)
        ⊎ ((Dict.lookup k (compare_with F widen threshold bullet other links) ≡ some bullet.id)
            × (other.id ≡ k)
            × IsDuplicateOf other bullet)
  unfolding compare_with
  compare_with-lookup bullet other links k = ground (
    arith,
    Dict.lookup-insert other.id k bullet.id links,
    eq_iff other.id k,
    eq_iff other.status bullet_status_pending,
  )

  compare_with_all-lookup :
      (bullet : PendingBulletForDedup N) (others : List (PendingBulletForDedup N))
      (links : List (String × String)) (k : String)
      → (Dict.lookup k (compare_with_all F widen threshold bullet others links)
          ≡ Dict.lookup k links)
        ⊎ IsNewLink bullet others k
            (Dict.lookup k (compare_with_all F widen threshold bullet others links))
  unfolding compare_with_all
  compare_with_all-lookup bullet [] links k = inl refl
  compare_with_all-lookup bullet (other ∷ others) links k =
      let links' = compare_with F widen threshold bullet other links in
      elim (compare_with_all-lookup bullet others links' k) [
        | inr (e, (o, m, id_is, is)) ↦ inr (e, (o, there m, id_is, is))
        | inl old ↦ elim (compare_with-lookup bullet other links k) [
          | inl older ↦ inl (old ∙ older)
          | inr (e, same, is) ↦ inr (old ∙ e, (other, here refl, same, is))
        ]
      ]

  link_from-lookup :
      (bullet : PendingBulletForDedup N) (others : List (PendingBulletForDedup N))
      (links : List (String × String)) (k : String)
      → (Dict.lookup k (link_from F widen threshold bullet others links) ≡ Dict.lookup k links)
        ⊎ (IsNewLink bullet others k
              (Dict.lookup k (link_from F widen threshold bullet others links))
            × (Dict.lookup bullet.id links ≡ none))
  unfolding link_from
  link_from-lookup bullet others links k = elim (Bool-cases (is_empty bullet.embedding)) [
    | inl bare ↦ inl (ap (Dict.lookup k) (ground (arith, bare)))
    | inr full ↦ elim (Option-cases (Dict.lookup bullet.id links)) [
      | inr (c, marked) ↦ inl (ap (Dict.lookup k) (ground (arith, full, marked)))
      | inl new ↦
          let same : link_from F widen threshold bullet others links
              ≡ compare_with_all F widen threshold bullet others links =
            ground (arith, full, new) in
          elim (compare_with_all-lookup bullet others links k) [
            | inl old ↦ inl (ap (Dict.lookup k) same ∙ old)
            | inr (e, w) ↦ inr ((ap (Dict.lookup k) same ∙ e, w), new)
          ]
    ]
  ]

  -- A bullet and a later one that is a duplicate of it.
  abbrev pub IsLink : List (PendingBulletForDedup N) → String → String → Type 0
  IsLink bullets duplicate canonical =
      (bullet : PendingBulletForDedup N) × (other : PendingBulletForDedup N) × In bullet bullets
      × In other bullets
      × (bullet.id ≡ canonical)
      × (other.id ≡ duplicate)
      × IsDuplicateOf other bullet

  deeper :
      (b : PendingBulletForDedup N) (bullets : List (PendingBulletForDedup N)) (d c : String)
      → IsLink bullets d c
      → IsLink (b ∷ bullets) d c
  deeper b bullets d c (x, y, mx, my, ids, same, is) = (x, y, there mx, there my, ids, same, is)

  link_all-links :
      (bullets : List (PendingBulletForDedup N)) (links : List (String × String)) (d c : String)
      → Dict.lookup d (link_all F widen threshold bullets links) ≡ some c
      → (Dict.lookup d links ≡ some c) ⊎ IsLink bullets d c
  unfolding link_all
  link_all-links [] links d c h = inl h
  link_all-links (b ∷ bullets) links d c h =
      let links' = link_from F widen threshold b bullets links in
      elim (link_all-links bullets links' d c h) [
        | inr l ↦ inr (deeper b bullets d c l)
        | inl found ↦ elim (link_from-lookup b bullets links d) [
          | inl old ↦ inl (sym old ∙ found)
          | inr ((e, (o, m, same, is)), _) ↦
              let id_is : b.id ≡ c = ground (arith, e, found) in
              inr (b, o, here refl, there m, id_is, same, is)
        ]
      ]

  -- Every link goes from a pending bullet to a bullet of another item whose similarity reaches the
  -- threshold.
  pub find_duplicate_bullets_with_canonical-IsLink :
      (bullets : List (PendingBulletForDedup N)) (d c : String)
      → Dict.lookup d (find_duplicate_bullets_with_canonical F widen bullets threshold) ≡ some c
      → IsLink bullets d c
  unfolding find_duplicate_bullets_with_canonical Dict.lookup
  find_duplicate_bullets_with_canonical-IsLink bullets d c h =
      elim (link_all-links bullets [] d c h) [ inl none_yet ↦ absurd cc | inr link ↦ link ]

  abbrev IsOther : String → PendingBulletForDedup N → Type 0
  IsOther id b = str_eq b.id id ≡ false

  -- No two bullets have one identifier.
  abbrev pub IsUnique : List (PendingBulletForDedup N) → Type 0
  IsUnique [] = Unit
  IsUnique (b ∷ bullets) = All (λ o. str_eq o.id b.id ≡ false) bullets × IsUnique bullets

  not_among :
      (id : String) (bullets : List (PendingBulletForDedup N)) (o : PendingBulletForDedup N)
      → All (IsOther id) bullets
      → In o bullets
      → str_eq o.id id ≡ false
  not_among id [] o h m = elim m [ ]
  not_among id (b ∷ bullets) o (hb, h) (here e) = subst (IsOther id) e hb
  not_among id (b ∷ bullets) o (hb, h) (there m) = not_among id bullets o h m

  -- The canonical bullets of the links are no duplicates, and come before the bullets at hand.
  abbrev IsFlat : List (String × String) → List (PendingBulletForDedup N) → Type 0
  IsFlat links bullets =
      (d c : String)
      → Dict.lookup d links ≡ some c
      → (Dict.lookup c links ≡ none) × All (IsOther c) bullets

  stays_canonical :
      (b : PendingBulletForDedup N) (bullets : List (PendingBulletForDedup N))
      (links : List (String × String)) (c : String)
      → Dict.lookup c links ≡ none
      → All (IsOther c) bullets
      → Dict.lookup c (link_from F widen threshold b bullets links) ≡ none
  stays_canonical b bullets links c free others = elim (link_from-lookup b bullets links c) [
    | inl old ↦ old ∙ free
    | inr ((e, (o, m, same, is)), _) ↦
        absurd (ground (arith, same, not_among c bullets o others m, eq_iff o.id c))
  ]

  link_from-IsFlat :
      (b : PendingBulletForDedup N) (bullets : List (PendingBulletForDedup N))
      (links : List (String × String))
      → All (IsOther b.id) bullets
      → IsFlat links (b ∷ bullets)
      → IsFlat (link_from F widen threshold b bullets links) bullets
  link_from-IsFlat b bullets links apart flat d c h = elim (link_from-lookup b bullets links d) [
    | inl old ↦
        let (free, (_, others)) = flat d c (sym old ∙ h) in
        (stays_canonical b bullets links c free others, others)
    | inr ((e, w), new) ↦
        let id_is : b.id ≡ c = ground (arith, e, h) in
        subst
          (λ x.
            (Dict.lookup x (link_from F widen threshold b bullets links) ≡ none)
            × All (IsOther x) bullets)
          id_is (stays_canonical b bullets links b.id new apart, apart)
  ]

  link_all-IsFlat :
      (bullets : List (PendingBulletForDedup N)) (links : List (String × String))
      → IsUnique bullets
      → IsFlat links bullets
      → (d c : String) → Dict.lookup d (link_all F widen threshold bullets links) ≡ some c
      → Dict.lookup c (link_all F widen threshold bullets links) ≡ none
  unfolding link_all
  link_all-IsFlat [] links unique flat d c h = (flat d c h).0
  link_all-IsFlat (b ∷ bullets) links (apart, unique) flat d c h =
      link_all-IsFlat bullets (link_from F widen threshold b bullets links) unique
        (link_from-IsFlat b bullets links apart flat) d c h

  -- If the identifiers differ, the links make no chains: a bullet to which a duplicate is linked is not
  -- linked as a duplicate itself.
  pub find_duplicate_bullets_with_canonical-IsFlat :
      (bullets : List (PendingBulletForDedup N)) (d c : String)
      → IsUnique bullets
      → Dict.lookup d (find_duplicate_bullets_with_canonical F widen bullets threshold) ≡ some c
      → Dict.lookup c (find_duplicate_bullets_with_canonical F widen bullets threshold) ≡ none
  unfolding find_duplicate_bullets_with_canonical Dict.lookup
  find_duplicate_bullets_with_canonical-IsFlat bullets d c unique h =
      link_all-IsFlat bullets [] unique (λ d' c' e. absurd cc) d c h

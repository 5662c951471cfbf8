-- ===== src/Clustering/Partition/Groups.antt =====
-- The groups by topic have all items, and no others.
use telegram_digest_bot.Base.{
  ◌≡◌, refl, sym, subst, ◌⊎◌, inl, inr, List, [], ◌∷◌, ◌++◌, String, All, All-append, In, here,
  there, In-append_left, In-append_right, str_eq, Bool-cases,
}
use telegram_digest_bot.Base.Float.{FloatOps}
use telegram_digest_bot.Clustering.{Item, Packages}
use telegram_digest_bot.Clustering.Topics.{Grouping, add_to_group, group_from}
use telegram_digest_bot.Clustering.Partition.Running.{all_grouped}

-- A group that has an item.
abbrev pub IsGrouped : {N : Type 0} → Item N → List (String × List (Item N)) → Type 0
IsGrouped {N} item groups = (g : String × List (Item N)) × In g groups × In item g.1

module _ {N : Type 0} (topic : String) (item : Item N) where
  add_to_group-new :
      (x : Item N) (groups : List (String × List (Item N)))
      → item ≡ x
      → IsGrouped x (add_to_group topic item groups)
  unfolding add_to_group
  add_to_group-new x [] e = ((topic, item ∷ []), here refl, here e)
  add_to_group-new x ((other, items) ∷ groups) e = elim (Bool-cases (str_eq other topic)) [
    | inl same ↦
        rw same ((other, items ++ item ∷ []), here refl, In-append_right items (item ∷ []) (here e))
    | inr different ↦ let (g, i, i') = add_to_group-new x groups e in rw different (g, there i, i')
  ]

  add_to_group-old :
      (x : Item N) (groups : List (String × List (Item N)))
      → IsGrouped x groups
      → IsGrouped x (add_to_group topic item groups)
  unfolding add_to_group
  add_to_group-old x [] (g, i, i') = elim i [ ]
  add_to_group-old x ((other, items) ∷ groups) (g, i, i') = elim (Bool-cases (str_eq other topic)) [
    | inl same ↦ rw same (elim i [
      | here e ↦ (
        (other, items ++ item ∷ []),
        here refl,
        In-append_left items (item ∷ []) (subst (λ h. In x h.1) (sym e) i'),
      )
      | there k ↦ (g, there k, i')
    ])
    | inr different ↦ rw different (elim i [
      | here e ↦ ((other, items), here refl, subst (λ h. In x h.1) (sym e) i')
      | there k ↦ let (g', k', i'') = add_to_group-old x groups (g, k, i') in (g', there k', i'')
    ])
  ]

  add_to_group-All :
      (Q : Item N → Type 0) (groups : List (String × List (Item N)))
      → Q item
      → All (λ g. All Q g.1) groups
      → All (λ g. All Q g.1) (add_to_group topic item groups)
  unfolding add_to_group
  add_to_group-All Q [] q all = ((q, tt), tt)
  add_to_group-All Q ((other, items) ∷ groups) q (q', all) =
      elim (Bool-cases (str_eq other topic)) [
        | inl same ↦ rw same (All-append Q items (item ∷ []) q' (q, tt), all)
        | inr different ↦ rw different (q', add_to_group-All Q groups q all)
      ]

module _ (F : FloatOps) (P : Packages F.Num) where
  pub group_from-IsGrouped :
      (x : Item F.Num) (items : List (Item F.Num)) (canon : List String) (g : Grouping F.Num)
      → IsGrouped x g.topic_groups ⊎ In x items
      → IsGrouped x (group_from F P canon g items).topic_groups
  unfolding group_from
  group_from-IsGrouped x [] canon g (inl grouped) = grouped
  group_from-IsGrouped x [] canon g (inr i) = elim i [ ]
  group_from-IsGrouped x (item ∷ items) canon g (inl grouped) =
      group_from-IsGrouped x items _ _ (inl (add_to_group-old _ item x g.topic_groups grouped))
  group_from-IsGrouped x (item ∷ items) canon g (inr (here e)) =
      group_from-IsGrouped x items _ _ (inl (add_to_group-new _ item x g.topic_groups e))
  group_from-IsGrouped x (item ∷ items) canon g (inr (there i)) =
      group_from-IsGrouped x items _ _ (inr i)

  pub group_from-All :
      (Q : Item F.Num → Type 0) (items : List (Item F.Num)) (canon : List String)
      (g : Grouping F.Num)
      → All (λ h. All Q h.1) g.topic_groups
      → All Q items
      → All (λ h. All Q h.1) (group_from F P canon g items).topic_groups
  unfolding group_from
  group_from-All Q [] canon g all all' = all
  group_from-All Q (item ∷ items) canon g all (q, all') =
      group_from-All Q items _ _ (add_to_group-All _ item Q g.topic_groups q all) all'

module _ {A : Type 0} where
  pub All-In : (R : A → Type 0) (xs : List A) → All R xs → (x : A) → In x xs → R x
  All-In R [] all x i = elim i [ ]
  All-In R (y ∷ ys) (r, all) x (here e) = subst R e r
  All-In R (y ∷ ys) (r, all) x (there i) = All-In R ys all x i

  pub In-All : (R : A → Type 0) (xs : List A) → ((x : A) → In x xs → R x) → All R xs
  In-All R [] f = tt
  In-All R (y ∷ ys) f = (f y (here refl), In-All R ys (λ x i. f x (there i)))

pub IsGrouped-all_grouped :
    {N : Type 0} (x : Item N) (groups : List (String × List (Item N)))
    → IsGrouped x groups
    → In x (all_grouped groups)
IsGrouped-all_grouped x [] (g, i, i') = elim i [ ]
IsGrouped-all_grouped x ((topic, items) ∷ groups) (g, here e, i') =
    In-append_left items (all_grouped groups) (subst (λ h. In x h.1) (sym e) i')
IsGrouped-all_grouped x ((topic, items) ∷ groups) (g, there i, i') =
    In-append_right items (all_grouped groups) (IsGrouped-all_grouped x groups (g, i, i'))

-- ===== src/Clustering/Partition/Counting.antt =====
-- How often an identifier stands in a list of items, and what the operations on lists do to it.
use telegram_digest_bot.Base.{
  ℕ, zero, suc, ◌+◌, ◌≤◌, ◌≡◌, refl, ap, ◌∙◌, Bool, false, List, [], ◌∷◌, ◌++◌, String, inl, inr,
  length, take, drop, All, ◌==◌, if◌then◌else◌, str_eq, eq_iff, Bool-cases, arith,
}
use telegram_digest_bot.Base.Dict.{insert, lookup-insert}
use telegram_digest_bot.Base.Float.{FloatOps}
use telegram_digest_bot.Clustering.{Item, Packages}
use telegram_digest_bot.Clustering.Building.{or_false, is_assigned, unassign}
use telegram_digest_bot.Clustering.Persisting.{
  Cluster, comes_before, insert_item, sort_cluster_items,
}

abbrev pub times : {N : Type 0} → String → List (Item N) → ℕ
times id [] = 0
times id (item ∷ items) = (if str_eq item.id id then 1 else 0) + times id items

abbrev pub bit : Bool → ℕ
bit b = if b then 1 else 0

pub is_assigned-insert :
    (key id : String) (value : Bool) (assigned : List (String × Bool))
    → is_assigned id (insert key value assigned)
      ≡ (if str_eq key id then value else is_assigned id assigned)
unfolding is_assigned
is_assigned-insert key id value assigned =
    ap or_false (lookup-insert key id value assigned)
    ∙ elim (Bool-cases (str_eq key id)) [ inl same ↦ rw same refl | inr other ↦ rw other refl ]

-- The items of all clusters.
abbrev pub all_clustered : {N : Type 0} → List (Cluster N) → List (Item N)
all_clustered [] = []
all_clustered (c ∷ clusters) = c.items ++ all_clustered clusters

-- The items that all clusters were formed of.
abbrev pub all_passed : {N : Type 0} → List (Cluster N) → List (Item N)
all_passed [] = []
all_passed (c ∷ clusters) = c.items ++ (c.refused ++ all_passed clusters)

module _ {N : Type 0} (id : String) where
  pub times-le-length : (items : List (Item N)) → times id items ≤ length items
  times-le-length [] = omega arith
  times-le-length (item ∷ items) = ground (arith, times-le-length items)

  pub times-append : (xs ys : List (Item N)) → times id (xs ++ ys) ≡ times id xs + times id ys
  times-append [] ys = omega arith
  times-append (x ∷ xs) ys = omega (arith, times-append xs ys)

  pub times-take-drop :
      (n : ℕ) (xs : List (Item N)) → times id (take n xs) + times id (drop n xs) ≡ times id xs
  times-take-drop zero xs = omega arith
  times-take-drop (suc n) [] = omega arith
  times-take-drop (suc n) (x ∷ xs) = omega (arith, times-take-drop n xs)

  pub times-all_passed :
      (clusters : List (Cluster N)) (c : Cluster N)
      → times id (all_passed (clusters ++ c ∷ []))
        ≡ times id (all_passed clusters) + times id c.items + times id c.refused
  times-all_passed [] c =
      omega (arith, times-append c.items (c.refused ++ []), times-append c.refused [])
  times-all_passed (d ∷ clusters) c = omega (
    arith,
    times-append d.items (d.refused ++ all_passed (clusters ++ c ∷ [])),
    times-append d.refused (all_passed (clusters ++ c ∷ [])),
    times-append d.items (d.refused ++ all_passed clusters),
    times-append d.refused (all_passed clusters),
    times-all_passed clusters c,
  )

  pub times-all_clustered :
      (clusters : List (Cluster N))
      → times id (all_clustered clusters) ≤ times id (all_passed clusters)
  times-all_clustered [] = omega arith
  times-all_clustered (c ∷ clusters) = omega (
    arith,
    times-append c.items (all_clustered clusters),
    times-append c.items (c.refused ++ all_passed clusters),
    times-append c.refused (all_passed clusters),
    times-all_clustered clusters,
  )

  times-none :
      (R : Item N → Type 0) (items : List (Item N))
      → ((item : Item N) → R item → ¬ (item.id ≡ id))
      → All R items
      → times id items ≡ 0
  times-none R [] other all = refl
  times-none R (x ∷ xs) other (r, all) =
      ground (arith, times-none R xs other all, other x r, eq_iff x.id id)

  -- Where no cluster refuses the identifier, it is in the clusters as often as they were formed of it.
  pub times-all_clustered_exact :
      (R : Cluster N → Item N → Type 0) (clusters : List (Cluster N))
      → ((c : Cluster N) (item : Item N) → R c item → ¬ (item.id ≡ id))
      → All (λ c. All (R c) c.refused) clusters
      → times id (all_clustered clusters) ≡ times id (all_passed clusters)
  times-all_clustered_exact R [] other all = refl
  times-all_clustered_exact R (c ∷ clusters) other (refused, all) = omega (
    arith,
    times-append c.items (all_clustered clusters),
    times-append c.items (c.refused ++ all_passed clusters),
    times-append c.refused (all_passed clusters),
    times-none (R c) c.refused (other c) refused,
    times-all_clustered_exact R clusters other all,
  )

module _ (F : FloatOps) (id : String) where
  pub is_assigned-unassign :
      (items : List (Item F.Num)) (assigned : List (String × Bool))
      → is_assigned id (unassign F items assigned)
        ≡ (if times id items == 0 then is_assigned id assigned else false)
  unfolding unassign
  is_assigned-unassign [] assigned = refl
  is_assigned-unassign (x ∷ xs) assigned = ground (
    arith,
    is_assigned-unassign xs (insert x.id false assigned),
    is_assigned-insert x.id id false assigned,
  )

module _ (F : FloatOps) (P : Packages F.Num) (id : String) where
  times-insert_item :
      (item : Item F.Num) (items : List (Item F.Num))
      → times id (insert_item F P item items) ≡ times id (item ∷ items)
  unfolding insert_item
  times-insert_item item [] = refl
  times-insert_item item (other ∷ items) = elim (Bool-cases (comes_before F P other item)) [
    | inl later ↦ rw later (omega (arith, times-insert_item item items))
    | inr now ↦ rw now refl
  ]

  pub times-sort_cluster_items :
      (items : List (Item F.Num)) → times id (sort_cluster_items F P items) ≡ times id items
  unfolding sort_cluster_items
  times-sort_cluster_items [] = refl
  times-sort_cluster_items (item ∷ items) =
      times-insert_item item (sort_cluster_items F P items)
      ∙ ap (λ n. (if str_eq item.id id then 1 else 0) + n) (times-sort_cluster_items items)

module _ (F : FloatOps) (P : Packages F.Num) (Q : Item F.Num → Type 0) where
  All-insert_item :
      (item : Item F.Num) (items : List (Item F.Num))
      → Q item
      → All Q items
      → All Q (insert_item F P item items)
  unfolding insert_item
  All-insert_item item [] q all = (q, tt)
  All-insert_item item (other ∷ items) q (q', all) =
      elim (Bool-cases (comes_before F P other item)) [
        | inl later ↦ rw later (q', All-insert_item item items q all)
        | inr now ↦ rw now (q, (q', all))
      ]

  pub All-sort_cluster_items :
      (items : List (Item F.Num)) → All Q items → All Q (sort_cluster_items F P items)
  unfolding sort_cluster_items
  All-sort_cluster_items [] all = tt
  All-sort_cluster_items (item ∷ items) (q, all) =
      All-insert_item item (sort_cluster_items F P items) q (All-sort_cluster_items items all)

module _ (F : FloatOps) (P : Packages F.Num) where
  length-insert_item :
      (item : Item F.Num) (items : List (Item F.Num))
      → length (insert_item F P item items) ≡ suc (length items)
  unfolding insert_item
  length-insert_item item [] = refl
  length-insert_item item (other ∷ items) = elim (Bool-cases (comes_before F P other item)) [
    | inl later ↦ rw later (ap suc (length-insert_item item items))
    | inr now ↦ rw now refl
  ]

  pub length-sort_cluster_items :
      (items : List (Item F.Num)) → length (sort_cluster_items F P items) ≡ length items
  unfolding sort_cluster_items
  length-sort_cluster_items [] = refl
  length-sort_cluster_items (item ∷ items) =
      length-insert_item item (sort_cluster_items F P items)
      ∙ ap suc (length-sort_cluster_items items)

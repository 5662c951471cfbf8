-- ===== src/Clustering/Partition/Forming.antt =====
-- The forming of a cluster takes exactly the items that it assigns.
use telegram_digest_bot.Base.{
  ℕ, zero, suc, ◌+◌, ◌≤◌, ◌≡◌, refl, ap, Bool, true, false, List, [], ◌∷◌, String, Option, none,
  some, take, drop, All, if◌then◌else◌, eq_iff, eq_refl, arith,
}
use telegram_digest_bot.Base.Dict
use telegram_digest_bot.Base.Float.{FloatOps}
use telegram_digest_bot.Clustering.{Item, Packages}
use telegram_digest_bot.Clustering.Building.{
  BuildContext, is_assigned, unassign, validate_cluster_coherence, add_from, find_cluster_items,
  form_cluster,
}
use telegram_digest_bot.Clustering.Partition.Counting.{
  times, bit, is_assigned-insert, times-take-drop, is_assigned-unassign,
}
use telegram_digest_bot.Clustering.Partition.Adding.{
  add_from_counts, add_from_keeps, add_from_starts, add_from-All,
}

-- A cluster and the assigned items after it, formed from these assigned items: an identifier is in the
-- cluster once if it has become assigned, and not at all otherwise.
abbrev pub Takes :
    {N : Type 0} → List (String × Bool) → List (Item N) × List (String × Bool) → Type 0
Takes assigned (cluster, after) =
    (id : String) → bit (is_assigned id after) ≡ times id cluster + bit (is_assigned id assigned)

All-choice :
    {A : Type 0} (Q : A → Type 0) (b : Bool) (xs ys : List A)
    → All Q xs
    → All Q ys
    → All Q (if b then xs else ys)
All-choice Q true xs ys all all' = all
All-choice Q false xs ys all all' = all'

All-take : {A : Type 0} (Q : A → Type 0) (n : ℕ) (xs : List A) → All Q xs → All Q (take n xs)
All-take Q zero xs all = tt
All-take Q (suc n) [] all = tt
All-take Q (suc n) (x ∷ xs) (q, all) = (q, All-take Q n xs all)

-- What the later steps use of a formed cluster: it takes the items that it assigns, the item it was
-- formed for is one of them, and all satisfy a predicate.
abbrev pub IsFormed :
    {N : Type 0}
    → (Item N → Type 0)
    → Item N
    → List (String × Bool)
    → List (Item N) × List (String × Bool)
    → Type 0
IsFormed Q item_a assigned r = Takes assigned r × (1 ≤ times item_a.id r.0) × All Q r.0

module _ (F : FloatOps) (bc : BuildContext F.Num) (Q : Item F.Num → Type 0) (item_a : Item F.Num)
    (assigned : List (String × Bool)) where
  starts-times :
      (cluster : List (Item F.Num))
      → take 1 cluster ≡ item_a ∷ []
      → 1 ≤ times item_a.id (take 1 cluster)
  starts-times cluster h =
      let counted : times item_a.id (take 1 cluster) ≡ times item_a.id (item_a ∷ []) =
        ap (times item_a.id) h in
      ground (arith, counted, eq_refl item_a.id)

  validate_cluster_coherence-IsFormed :
      (cluster : List (Item F.Num)) (after : List (String × Bool))
      → Takes assigned (cluster, after)
      → take 1 cluster ≡ item_a ∷ []
      → All Q cluster
      → IsFormed Q item_a assigned (validate_cluster_coherence F bc cluster after)
  unfolding validate_cluster_coherence
  validate_cluster_coherence-IsFormed cluster after takes start all = go _
    where
      accepted : IsFormed Q item_a assigned (cluster, after)
      accepted = (
        takes,
        omega (arith, starts-times cluster start, times-take-drop item_a.id 1 cluster),
        all,
      )

      rejected : IsFormed Q item_a assigned (take 1 cluster, unassign F (drop 1 cluster) after)
      rejected = (
        λ id. ground (
          arith,
          takes id,
          times-take-drop id 1 cluster,
          is_assigned-unassign F id (drop 1 cluster) after,
        ),
        starts-times cluster start,
        All-take Q 1 cluster all,
      )

      go :
          (b : Bool)
          → IsFormed Q item_a assigned
              (if b then (take 1 cluster, unassign F (drop 1 cluster) after) else (cluster, after))
      go true = rejected
      go false = accepted

module _ (F : FloatOps) (P : Packages F.Num) (bc : BuildContext F.Num) (Q : Item F.Num → Type 0)
    (item_a : Item F.Num) (group_items : List (Item F.Num)) (assigned : List (String × Bool)) where
  -- What the loop over the candidates gives.
  abbrev IsFound : List (Item F.Num) × List (String × Bool) → Type 0
  IsFound r =
      ((id : String)
        → times id (item_a ∷ []) + bit (is_assigned id r.1)
          ≡ times id r.0 + bit (is_assigned id assigned))
      × (is_assigned item_a.id r.1 ≡ is_assigned item_a.id assigned)
      × (take 1 r.0 ≡ item_a ∷ [])
      × All Q r.0

  find_cluster_items-IsFound :
      All Q bc.all_items
      → All Q group_items
      → Q item_a
      → IsFound (find_cluster_items F P bc item_a group_items assigned)
  unfolding find_cluster_items
  find_cluster_items-IsFound all group_all q = go (Dict.lookup item_a.id bc.embeddings)
    where
      candidates : List (Item F.Num)
      candidates = if bc.cfg.cross_topic_enabled then bc.all_items else group_items

      go :
          (o : Option (List F.Num))
          → IsFound (elim o [
            | none ↦ (item_a ∷ [], assigned)
            | some emb_a ↦ add_from F P bc item_a emb_a candidates (item_a ∷ []) assigned
          ])
      go none = (λ id. refl, refl, refl, (q, tt))
      go (some emb_a) = (
        λ id. add_from_counts F P bc item_a id emb_a candidates (item_a ∷ []) assigned,
        add_from_keeps F P bc item_a emb_a candidates (item_a ∷ []) assigned,
        add_from_starts F P bc item_a emb_a item_a candidates [] assigned,
        add_from-All F P bc item_a Q emb_a candidates (item_a ∷ []) assigned
            (All-choice Q bc.cfg.cross_topic_enabled bc.all_items group_items all group_all)
            (q, tt),
      )

  pub form_cluster-IsFormed :
      All Q bc.all_items
      → All Q group_items
      → Q item_a
      → is_assigned item_a.id assigned ≡ false
      → IsFormed Q item_a assigned (form_cluster F P bc item_a group_items assigned)
  unfolding form_cluster
  form_cluster-IsFormed all group_all q free =
      let r = find_cluster_items F P bc item_a group_items assigned in
      let (counts, kept, start, found_all) = find_cluster_items-IsFound all group_all q in
      validate_cluster_coherence-IsFormed F bc Q item_a assigned r.0
        (Dict.insert item_a.id true r.1)
        (λ id. ground (
          arith,
          counts id,
          kept,
          free,
          is_assigned-insert item_a.id id true r.1,
          eq_iff item_a.id id,
          λ (e : item_a.id ≡ id). ap (λ i. is_assigned i r.1) e,
        ))
        start found_all

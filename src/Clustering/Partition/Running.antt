-- ===== src/Clustering/Partition/Running.antt =====
-- What the loops over items and groups keep.
use telegram_digest_bot.Base.{
  ℕ, ◌+◌, ◌≤◌, ◌≡◌, refl, inl, inr, Bool, true, false, List, [], ◌∷◌, ◌++◌, String, Option, none,
  some, length, All, All-append, ltb, if◌then◌else◌, Bool-cases, arith,
}
use telegram_digest_bot.Base.Float.{FloatOps}
use telegram_digest_bot.Clustering.{Item, Packages, Services}
use telegram_digest_bot.Clustering.Config.{ProcessConfig}
use telegram_digest_bot.Clustering.Building.{BuildContext, is_assigned, form_cluster}
use telegram_digest_bot.Clustering.Persisting.{
  Cluster, Run, sort_cluster_items, generate_cluster_topic, add_items, persist_cluster,
  cluster_round, process_from, process_topic_group, process_groups,
}
use telegram_digest_bot.Clustering.Partition.Counting.{
  times, bit, all_passed, times-le-length, times-all_passed, times-sort_cluster_items,
  All-sort_cluster_items, length-sort_cluster_items,
}
use telegram_digest_bot.Clustering.Partition.Storing.{
  times-add_items, length-add_items, All-add_items,
}
use telegram_digest_bot.Clustering.Partition.Forming.{IsFormed, form_cluster-IsFormed}

pub All-map :
    {A : Type 0} (R R' : A → Type 0) → ((a : A) → R a → R' a) → (xs : List A) → All R xs → All R' xs
All-map R R' f [] all = tt
All-map R R' f (x ∷ xs) (r, all) = (f x r, All-map R R' f xs all)

module _ {N : Type 0} (min_size : ℕ) (add : String → String → Bool) (Q : Item N → Type 0) where
  -- A cluster that was formed of as many items as required, which satisfy a predicate, and which has all
  -- of them that could be added to it.
  abbrev pub IsFine : Cluster N → Type 0
  IsFine c =
      (min_size ≤ length c.items + length c.refused)
      × All Q c.items
      × All (λ item. Q item × (add c.cluster_id item.id ≡ false)) c.refused

  -- No identifier is clustered twice, nor without being assigned.
  abbrev pub IsSound : Run N → Type 0
  IsSound run =
      ((id : String) → times id (all_passed run.clusters) ≤ bit (is_assigned id run.assigned))
      × All IsFine run.clusters

  -- Every assigned identifier is clustered.
  abbrev pub IsExact : Run N → Type 0
  IsExact run =
      (id : String) → times id (all_passed run.clusters) ≡ bit (is_assigned id run.assigned)

  abbrev pub IsCovered : List (Item N) → Run N → Type 0
  IsCovered items run = All (λ item. is_assigned item.id run.assigned ≡ true) items

  -- What a part of the loops does to the state when it goes over some items.
  abbrev pub IsStep : List (Item N) → Run N → Run N → Type 0
  IsStep items run after =
      (IsSound run → IsSound after)
      × ((id : String) → is_assigned id run.assigned ≡ true → is_assigned id after.assigned ≡ true)
      × (after.failed ≡ false → IsCovered items after)
      × (min_size ≤ 1 → after.failed ≡ false → IsExact run → IsExact after)

  pub skip-IsStep : (run : Run N) → IsStep [] run run
  skip-IsStep run = (λ h. h, λ id h. h, λ h. tt, λ le h exact. exact)

  pub join-IsStep :
      (xs ys : List (Item N)) (run next after : Run N)
      → IsStep xs run next
      → IsStep ys next after
      → IsStep (xs ++ ys) run (if next.failed then next else after)
  join-IsStep xs ys run next after (sound, grows, covers, exact) (sound', grows', covers', exact') =
      go next.failed refl
    where
      go : (b : Bool) → next.failed ≡ b → IsStep (xs ++ ys) run (if b then next else after)
      go true h = (sound, grows, λ ok. absurd (cc), λ le ok e. absurd (cc))
      go false h = (
        λ s. sound' (sound s),
        λ id a. grows' id (grows id a),
        λ ok.
            All-append _ xs ys
              (All-map (λ item. is_assigned item.id next.assigned ≡ true)
                (λ item. is_assigned item.id after.assigned ≡ true) (λ item. grows' item.id) xs
                (covers h))
              (covers' ok),
        λ le ok e. exact' le ok (exact le h e),
      )

-- The items of all groups, in order.
abbrev pub all_grouped : {N : Type 0} → List (String × List (Item N)) → List (Item N)
all_grouped [] = []
all_grouped ((topic, group_items) ∷ groups) = group_items ++ all_grouped groups

module _ (F : FloatOps) (P : Packages F.Num) (S : Services F.Num) (process : ProcessConfig F.Num)
    (bc : BuildContext F.Num) (source : String) (min_size : ℕ) (Q : Item F.Num → Type 0)
    (all_Q : All Q bc.all_items) where
  -- The state after an item whose cluster is persisted.
  persist_cluster-IsStep :
      (topic : String) (item_a : Item F.Num) (cluster : List (Item F.Num))
      (after : List (String × Bool)) (run : Run F.Num)
      → IsFormed Q item_a run.assigned (cluster, after)
      → min_size ≤ length cluster
      → IsStep min_size S.add_to_cluster Q (item_a ∷ []) run (
          persist_cluster F P S process source bc.cfg.digest_language topic cluster
            (record run { assigned = after }))
  unfolding persist_cluster
  persist_cluster-IsStep topic item_a cluster after run (takes, leads, all) enough = go _
    where
      sorted : List (Item F.Num)
      sorted = sort_cluster_items F P cluster

      cluster_topic : String
      cluster_topic = generate_cluster_topic F P S process sorted topic bc.cfg.digest_language

      grows : (id : String) → is_assigned id run.assigned ≡ true → is_assigned id after ≡ true
      grows id h = ground (arith, takes id, h)

      covered : is_assigned item_a.id after ≡ true
      covered = ground (arith, takes item_a.id, leads)

      added : String → Cluster F.Num
      added cluster_id = record {
        cluster_id = cluster_id;
        topic = cluster_topic;
        items = (add_items F P S process cluster_id sorted).0;
        refused = (add_items F P S process cluster_id sorted).1;
      }

      go :
          (o : Option String)
          → IsStep min_size S.add_to_cluster Q (item_a ∷ []) run (elim o [
            | none ↦ record run { assigned = after; failed = true }
            | some cluster_id ↦ record run {
              assigned = after;
              clusters = run.clusters ++ added cluster_id ∷ [];
            }
          ])
      go none = (
        λ (below, fine). (λ id. ground (arith, takes id, below id), fine),
        grows,
        λ ok. absurd (cc),
        λ le ok. absurd (cc),
      )
      go (some cluster_id) =
          let stored =
            All-add_items F P S process cluster_id Q sorted
              (All-sort_cluster_items F P Q cluster all) in
          (
            λ (below, fine). (
              λ id. omega (
                arith,
                takes id,
                below id,
                times-all_passed id run.clusters (added cluster_id),
                times-add_items F P S process cluster_id id sorted,
                times-sort_cluster_items F P id cluster,
              ),
              All-append (IsFine min_size S.add_to_cluster Q) run.clusters (added cluster_id ∷ [])
                  fine
                  (
                    (
                      omega (
                        arith,
                        enough,
                        length-sort_cluster_items F P cluster,
                        length-add_items F P S process cluster_id sorted,
                      ),
                      stored.0,
                      stored.1,
                    ),
                    tt,
                  ),
            ),
            grows,
            λ ok. (covered, tt),
            λ le ok exact id. omega (
              arith,
              takes id,
              exact id,
              times-all_passed id run.clusters (added cluster_id),
              times-add_items F P S process cluster_id id sorted,
              times-sort_cluster_items F P id cluster,
            ),
          )

  -- A cluster that is too small is given up; none is when one item is enough.
  small-IsStep :
      (item_a : Item F.Num) (cluster : List (Item F.Num)) (after : List (String × Bool))
      (run : Run F.Num)
      → IsFormed Q item_a run.assigned (cluster, after)
      → length cluster + 1 ≤ min_size
      → IsStep min_size S.add_to_cluster Q (item_a ∷ []) run (record run { assigned = after })
  small-IsStep item_a cluster after run (takes, leads, all) few = (
    λ (below, fine). (λ id. omega (arith, takes id, below id), fine),
    λ id h. ground (arith, takes id, h),
    λ ok. (ground (arith, takes item_a.id, leads), tt),
    λ le ok exact. absurd (omega (arith, le, few, leads, times-le-length item_a.id cluster)),
  )

  cluster_round-IsStep :
      (topic : String) (group_items : List (Item F.Num)) (item_a : Item F.Num) (run : Run F.Num)
      → All Q group_items
      → Q item_a
      → IsStep min_size S.add_to_cluster Q
          (item_a ∷ [])
          run
          (cluster_round F P S process bc source min_size topic group_items item_a run)
  unfolding cluster_round
  cluster_round-IsStep topic group_items item_a run group_Q q =
      elim (Bool-cases (is_assigned item_a.id run.assigned)) [
        | inl known ↦ rw known (λ h. h, λ id h. h, λ ok. (known, tt), λ le ok exact. exact)
        | inr free ↦
            let r = form_cluster F P bc item_a group_items run.assigned in
            let formed =
              form_cluster-IsFormed F P bc Q item_a group_items run.assigned all_Q group_Q q free in
            elim (Bool-cases (ltb (length r.0) min_size)) [
              | inl few ↦
                  rw (free, few) (small-IsStep item_a r.0 r.1 run formed (ground (arith, few)))
              | inr enough ↦
                  rw (free, enough)
                    (persist_cluster-IsStep topic item_a r.0 r.1 run formed
                      (ground (arith, enough)))
            ]
      ]

  process_from-IsStep :
      (topic : String) (group_items items : List (Item F.Num)) (run : Run F.Num)
      → All Q group_items
      → All Q items
      → IsStep min_size S.add_to_cluster Q items run
          (process_from F P S process bc source min_size topic group_items items run)
  unfolding process_from
  process_from-IsStep topic group_items [] run group_Q all =
      skip-IsStep min_size S.add_to_cluster Q run
  process_from-IsStep topic group_items (item_a ∷ items) run group_Q (q, all) =
      let next = cluster_round F P S process bc source min_size topic group_items item_a run in
      join-IsStep min_size S.add_to_cluster Q (item_a ∷ []) items run next
        (process_from F P S process bc source min_size topic group_items items next)
        (cluster_round-IsStep topic group_items item_a run group_Q q)
        (process_from-IsStep topic group_items items next group_Q all)

  pub process_groups-IsStep :
      (groups : List (String × List (Item F.Num))) (run : Run F.Num)
      → All (λ g. All Q g.1) groups
      → IsStep min_size S.add_to_cluster Q
          (all_grouped groups)
          run
          (process_groups F P S process bc source min_size groups run)
  unfolding process_groups process_topic_group
  process_groups-IsStep [] run all = skip-IsStep min_size S.add_to_cluster Q run
  process_groups-IsStep ((topic, group_items) ∷ groups) run (group_Q, all) =
      let next = process_topic_group F P S process bc source min_size topic group_items run in
      join-IsStep min_size S.add_to_cluster Q group_items (all_grouped groups) run next
        (process_groups F P S process bc source min_size groups next)
        (process_from-IsStep topic group_items group_items run group_Q group_Q)
        (process_groups-IsStep groups next all)

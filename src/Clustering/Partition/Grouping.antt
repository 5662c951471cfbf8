-- ===== src/Clustering/Partition/Grouping.antt =====
-- What follows for the clusters of a whole run.
use telegram_digest_bot.Base.{
  ℕ, zero, suc, ◌+◌, take, ltb, if◌then◌else◌, ap, ◌≤◌, ◌≡◌, refl, sym, subst, inl, inr, true,
  false, List, [], ◌∷◌, ◌↔◌, String, length, All, In, str_eq, Bool-cases, arith,
}
use telegram_digest_bot.Base.Dict
use telegram_digest_bot.Base.Float.{FloatOps}
use telegram_digest_bot.Dedup.{is_empty}
use telegram_digest_bot.Clustering.{Item, Packages, Services}
use telegram_digest_bot.Clustering.Config.{ProcessConfig}
use telegram_digest_bot.Clustering.Topics.{build_topic_grouping}
use telegram_digest_bot.Clustering.Building.{is_assigned}
use telegram_digest_bot.Clustering.Persisting.{
  Run, Cluster, limit_cluster_items, min_cluster_size_of, build_context, cluster_limited,
  cluster_items_with_source, cluster_items_for_research,
}
use telegram_digest_bot.Clustering.Partition.Counting.{
  times, all_clustered, times-all_clustered, times-all_clustered_exact,
}
use telegram_digest_bot.Clustering.Partition.Running.{
  IsFine, All-map, IsStep, all_grouped, process_groups-IsStep,
}
use telegram_digest_bot.Clustering.Partition.Groups.{
  group_from-IsGrouped, group_from-All, All-In, In-All, IsGrouped-all_grouped,
}

take_short : {A : Type 0} (n : ℕ) (xs : List A) → length xs ≤ n → take n xs ≡ xs
take_short zero [] h = refl
take_short zero (x ∷ xs) h = absurd (omega (arith, h))
take_short (suc n) [] h = refl
take_short (suc n) (x ∷ xs) h = ap (λ ys. x ∷ ys) (take_short n xs (omega (arith, h)))

limit_cluster_items-take :
    (F : FloatOps) (P : Packages F.Num) (S : Services F.Num) (process : ProcessConfig F.Num)
    (items : List (Item F.Num))
    → limit_cluster_items F P S process items ≡ take 2000 items
limit_cluster_items-take F P S process items = elim (Bool-cases (ltb 2000 (length items))) [
  | inl long ↦ rw long refl
  | inr short ↦ rw short (sym (take_short 2000 items (ground (arith, short))))
]

module _ (F : FloatOps) (P : Packages F.Num) (S : Services F.Num) (process : ProcessConfig F.Num)
    (order : List (String × List (Item F.Num)) → List (String × List (Item F.Num)))
    (same_groups : (groups : List (String × List (Item F.Num))) (g : String × List (Item F.Num))
      → In g (order groups) ↔ In g groups)
    (old : List (Cluster F.Num)) where
  -- The run over the groups, as one step from no clusters.
  cluster_limited-IsStep :
      (items : List (Item F.Num)) (source : String)
      → IsStep
          (min_cluster_size_of F P S process source)
          S.add_to_cluster
          (λ item. In item items)
          (all_grouped (order (build_topic_grouping F P items).topic_groups))
          (record { assigned = []; clusters = []; failed = false })
          (cluster_limited F P S process order true old items source)
  unfolding cluster_limited build_topic_grouping
  cluster_limited-IsStep items source =
      let groups = (build_topic_grouping F P items).topic_groups in
      let grouped =
        group_from-All F P (λ item. In item items) items []
          (record { topic_index = []; topic_groups = [] }) tt (In-All _ items (λ x i. i)) in
      process_groups-IsStep F P S process (build_context F P S process items) source
        (min_cluster_size_of F P S process source) (λ item. In item items)
        (In-All _ items (λ x i. i)) (order groups)
        (record { assigned = []; clusters = []; failed = false })
        (In-All _ (order groups) (λ g i. All-In _ groups grouped g ((same_groups groups g).0 i)))

  -- When `range` meets the entries of a map and the old clusters of the window could be deleted, the
  -- clusters of the window after a run over some items share no identifier of an item, whether or not
  -- the run returns an error. Each was formed of at least two items, or one for the research, all of them
  -- of the first 2000 items, and has them all but those for which the insert into the cluster fails.
  pub cluster_items_with_source_sound :
      (items : List (Item F.Num)) (source : String)
      → is_empty items ≡ false
      → let run = cluster_items_with_source F P S process order true old items source in
        ((id : String) → times id (all_clustered run.clusters) ≤ 1)
        × All
            (λ c.
              ((if str_eq source "research" then 1 else 2) ≤ length c.items + length c.refused)
              × All (λ item. In item (take 2000 items)) c.items
              × All
                  (λ item.
                    In item (take 2000 items) × (S.add_to_cluster c.cluster_id item.id ≡ false))
                  c.refused)
            run.clusters
  unfolding cluster_items_with_source
  cluster_items_with_source_sound [] source some_items = absurd (cc)
  cluster_items_with_source_sound (first ∷ items) source some_items =
      subst (λ limited. IsClustered (cluster_limited F P S process order true old limited source))
        (sym (limit_cluster_items-take F P S process (first ∷ items)))
        (let (sound, _, _, _) = cluster_limited-IsStep (take 2000 (first ∷ items)) source in
          let (below, fine) = sound (λ id. omega arith, tt) in
          (
            λ id. ground (
              arith,
              below id,
              times-all_clustered id
                  (cluster_limited F P S process order true old (take 2000 (first ∷ items))
                    source).clusters,
            ),
            fine,
          ))
    where
      IsClustered : Run F.Num → Type 0
      IsClustered run =
          ((id : String) → times id (all_clustered run.clusters) ≤ 1)
          × All
              (IsFine (min_cluster_size_of F P S process source) S.add_to_cluster
                (λ item. In item (take 2000 (first ∷ items))))
              run.clusters

  -- In a run without error every item is in the clusters as often as it is to be: once, unless an insert of
  -- it fails.
  limited_run-times :
      (items : List (Item F.Num)) (item : Item F.Num)
      → (cluster_limited F P S process order true old items "research").failed ≡ false
      → ((cluster_id : String) → S.add_to_cluster cluster_id item.id ≡ true)
      → In item items
      → times item.id
          (all_clustered (cluster_limited F P S process order true old items "research").clusters)
        ≡ 1
  unfolding build_topic_grouping is_assigned Dict.lookup
  limited_run-times items item ok inserts i =
      let run = cluster_limited F P S process order true old items "research" in
      let (sound, _, covers, exact) = cluster_limited-IsStep items "research" in
      let (_, fine) = sound (λ id. omega arith, tt) in
      let groups = (build_topic_grouping F P items).topic_groups in
      let (g, k, k') =
        group_from-IsGrouped F P item items [] (record { topic_index = []; topic_groups = [] })
          (inr i) in
      let assigned =
        All-In _ (all_grouped (order groups)) (covers ok) item
          (IsGrouped-all_grouped item (order groups) (g, (same_groups groups g).1 k, k')) in
      let passed = exact (omega arith) ok (λ id. refl) item.id in
      let stored =
        times-all_clustered_exact item.id
          (λ c x. In x items × (S.add_to_cluster c.cluster_id x.id ≡ false)) run.clusters
          (λ c x (_, refused) same.
            absurd (cc (inserts c.cluster_id, refused, ap (S.add_to_cluster c.cluster_id) same)))
          (All-map _ _ (λ c (_, _, refused). refused) run.clusters fine) in
      ground (arith, stored, passed, assigned)

  -- When `range` meets the entries of a map and the old clusters of the window could be deleted, a run for
  -- the research that returns no error puts each item of the first 2000 into exactly one cluster, if no
  -- insert of the item into a cluster fails.
  pub cluster_items_for_research_lem :
      (items : List (Item F.Num))
      → (cluster_items_for_research F P S process order true old items).failed ≡ false
      → (item : Item F.Num) → In item (take 2000 items)
      → ((cluster_id : String) → S.add_to_cluster cluster_id item.id ≡ true)
      → times item.id
          (all_clustered (cluster_items_for_research F P S process order true old items).clusters)
        ≡ 1
  unfolding cluster_items_with_source
  cluster_items_for_research_lem [] ok item i inserts = elim i [ ]
  cluster_items_for_research_lem (first ∷ items) ok item i inserts =
      limited_run-times (limit_cluster_items F P S process (first ∷ items)) item ok inserts (
        subst (λ limited. In item limited)
          (sym (limit_cluster_items-take F P S process (first ∷ items))) i)

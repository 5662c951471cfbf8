-- ===== src/Digest/Corroboration/Consistency.antt =====
-- The whole adjustment leaves the clusters and the items consistent.
use telegram_digest_bot.Base.{
  ℕ, suc, ◌+◌, ◌≡◌, ◌≢◌, refl, sym, ap, ◌∙◌, ◌⊎◌, inl, inr, false, ◌&&◌, List, [], ◌∷◌, ◌++◌,
  String, All, length, ◌==◌, str_eq, eq_iff, Bool-cases, arith,
}
use telegram_digest_bot.Base.Dict
use telegram_digest_bot.Base.Dict.{lookup-insert}
use telegram_digest_bot.Base.Float.{FloatOps}
use telegram_digest_bot.Digest.Corroboration.{
  Item, ClusterWithItems, Settings, item_at, index_from, build_item_index, count_unique_channels,
  calculate_boost_penalty, adjust_cluster_scores, adjust_clusters, apply_corroboration_adjustments,
}
use telegram_digest_bot.Digest.Corroboration.Copies.{
  IsIndex, IsCopy, IsDistinct, IsKept, adjust_items-AreAdjusted, adjust_items-ids,
}

module _ {N : Type 0} where
  -- The items of all clusters.
  abbrev pub members : List (ClusterWithItems N) → List (Item N)
  members [] = []
  members (cluster ∷ clusters) = cluster.items ++ members clusters

  -- The copies of a cluster have the scores of their items, unless it has no channel.
  abbrev pub IsConsistent : List (String × ℕ) → List (Item N) → ClusterWithItems N → Type 0
  IsConsistent index items cluster =
      (count_unique_channels cluster.items ≡ 0) ⊎ All (IsCopy index items) cluster.items

  index_from-IsIndex :
      (i : ℕ) (rest : List (Item N)) (index : List (String × ℕ)) (items : List (Item N))
      → ((j : ℕ) → item_at (i + j) items ≡ item_at j rest)
      → IsIndex index items
      → IsIndex (index_from i rest index) items
  unfolding index_from
  index_from-IsIndex i [] index items at h = h
  index_from-IsIndex i (x ∷ rest) index items at h =
      index_from-IsIndex (suc i) rest (Dict.insert x.id i index) items
        (λ j.
          let e : suc i + j ≡ i + suc j = omega arith in ap (λ n. item_at n items) e ∙ at (suc j))
        (λ id k item e e'. elim (Bool-cases (str_eq x.id id)) [
          | inl same ↦
              let k_is : i ≡ k = ground (arith, lookup-insert x.id id i index, same, e) in
              let z : i + 0 ≡ i = omega arith in
              let x_is : x ≡ item =
                cc (sym (at 0), ap (λ n. item_at n items) z, ap (λ n. item_at n items) k_is, e') in
              ap (λ (y : Item N). y.id) (sym x_is) ∙ (eq_iff x.id id).0 same
          | inr different ↦
              h id k item (ground (arith, lookup-insert x.id id i index, different, e)) e'
        ])

  build_item_index-IsIndex : (items : List (Item N)) → IsIndex (build_item_index items) items
  unfolding build_item_index Dict.lookup
  build_item_index-IsIndex items =
      index_from-IsIndex 0 items [] items
        (λ j. let e : 0 + j ≡ j = omega arith in ap (λ n. item_at n items) e)
        (λ id k item e e'. absurd (cc))

  All-split : (Q : Item N → Type 0) (xs ys : List (Item N)) → All Q (xs ++ ys) → All Q xs × All Q ys
  All-split Q [] ys all = (tt, all)
  All-split Q (x ∷ xs) ys (q, all) = let (front, back) = All-split Q xs ys all in ((q, front), back)

  IsDistinct-append :
      (xs ys : List (Item N))
      → IsDistinct (xs ++ ys)
      → IsDistinct xs × IsDistinct ys × All (λ x. All (λ y. y.id ≢ x.id) ys) xs
  IsDistinct-append [] ys h = (tt, h, tt)
  IsDistinct-append (x ∷ xs) ys (new, h) =
      let (front, back) = All-split (λ d. d.id ≢ x.id) xs ys new in
      let (d, d', apart) = IsDistinct-append xs ys h in ((front, d), d', (back, apart))

  -- Copies stay right when what their identifiers point to is kept.
  keep_copies :
      (index : List (String × ℕ)) (before after cs : List (Item N))
      → All (IsCopy index before) cs
      → All (λ c. IsKept index c.id before after) cs
      → All (IsCopy index after) cs
  keep_copies index before after [] all kept = tt
  keep_copies index before after (c ∷ cs) (copy, all) (keep, kept) = (
    λ k item e e'. copy k item e (sym (keep k e) ∙ e'),
    keep_copies index before after cs all kept,
  )

  map_All :
      (Q Q' : Item N → Type 0)
      → ((x : Item N) → Q x → Q' x)
      → (xs : List (Item N)) → All Q xs
      → All Q' xs
  map_All Q Q' f [] all = tt
  map_All Q Q' f (x ∷ xs) (q, all) = (f x q, map_All Q Q' f xs all)

module _ (F : FloatOps) (index : List (String × ℕ)) (settings : Settings F.Num) where
  -- One cluster: its copies are right, their identifiers are the old ones, and nothing else changes.
  adjust_cluster_scores_lem :
      (Q : String → Type 0) (cluster : ClusterWithItems F.Num) (items : List (Item F.Num))
      → IsIndex index items
      → IsDistinct cluster.items
      → All (λ c. Q c.id) cluster.items
      → let r = adjust_cluster_scores F index settings cluster items in
        IsIndex index r.1
        × IsConsistent index r.1 r.0
        × All (λ c. Q c.id) r.0.items
        × ((id : String) → All (λ d. d.id ≢ id) cluster.items → IsKept index id items r.1)
  unfolding adjust_cluster_scores
  adjust_cluster_scores_lem Q cluster items h distinct all =
      let (boost, penalty) =
        calculate_boost_penalty F (count_unique_channels cluster.items) (length cluster.items)
          settings in
      let (h', copies, frame) =
        adjust_items-AreAdjusted F index boost penalty cluster.items items h distinct in
      elim (Bool-cases (count_unique_channels cluster.items == 0)) [
        | inl no_channel ↦
            rw no_channel (h, inl (ground (arith, no_channel)), all, λ id free k e. refl)
        | inr channels ↦ rw channels (
          h',
          inr copies,
          adjust_items-ids F index boost penalty Q cluster.items items all,
          frame,
        )
      ]

  adjust_clusters_lem :
      (clusters : List (ClusterWithItems F.Num)) (items : List (Item F.Num))
      → IsIndex index items
      → IsDistinct (members clusters)
      → let r = adjust_clusters F index settings clusters items in
        IsIndex index r.1
        × All (IsConsistent index r.1) r.0
        × ((id : String) → All (λ d. d.id ≢ id) (members clusters) → IsKept index id items r.1)
  unfolding adjust_clusters
  adjust_clusters_lem [] items h distinct = (h, tt, λ id free k e. refl)
  adjust_clusters_lem (cluster ∷ clusters) items h distinct =
      let (d, d', apart) = IsDistinct-append cluster.items (members clusters) distinct in
      let r = adjust_cluster_scores F index settings cluster items in
      let (h', consistent, free_ids, frame) =
        adjust_cluster_scores_lem (λ id. All (λ y. y.id ≢ id) (members clusters)) cluster items h d
          apart in
      let rest = adjust_clusters F index settings clusters r.1 in
      let (h'', all, frame') = adjust_clusters_lem clusters r.1 h' d' in
      (
        h'',
        (
          elim consistent [
            | inl no_channel ↦ inl no_channel
            | inr copies ↦ inr (
                keep_copies index r.1 rest.1 r.0.items copies (
                  map_All (λ c. All (λ y. y.id ≢ c.id) (members clusters))
                    (λ c. IsKept index c.id r.1 rest.1) (λ c. frame' c.id) r.0.items free_ids))
          ],
          all,
        ),
        λ id free k e.
            let (front, back) = All-split (λ d. d.id ≢ id) cluster.items (members clusters) free in
            frame' id back k e ∙ frame id front k e,
      )

-- When a boost or a penalty is set and no identifier is twice in the clusters, the adjustment leaves each
-- copy of an item in a cluster with some channel with the importance score of the item itself.
pub apply_corroboration_adjustments_lem :
    (F : FloatOps) (items : List (Item F.Num)) (clusters : List (ClusterWithItems F.Num))
    (settings : Settings F.Num)
    → (F.le settings.corroboration_boost (F.of_nat 0)
        && F.le settings.single_source_penalty (F.of_nat 0))
      ≡ false
    → IsDistinct (members clusters)
    → let r = apply_corroboration_adjustments F items clusters settings in
      All (IsConsistent (build_item_index items) r.1) r.0
unfolding apply_corroboration_adjustments
apply_corroboration_adjustments_lem F items [] settings set distinct = tt
apply_corroboration_adjustments_lem F items (cluster ∷ clusters) settings set distinct =
    let (_, all, _) =
      adjust_clusters_lem F (build_item_index items) settings (cluster ∷ clusters) items
        (build_item_index-IsIndex items) distinct in
    rw set all

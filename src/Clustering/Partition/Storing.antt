-- ===== src/Clustering/Partition/Storing.antt =====
-- The loop that adds the items of a cluster splits them.
use telegram_digest_bot.Base.{
  ◌+◌, ◌≡◌, refl, false, List, [], ◌∷◌, String, length, All, inl, inr, Bool-cases, arith,
}
use telegram_digest_bot.Base.Float.{FloatOps}
use telegram_digest_bot.Clustering.{Item, Packages, Services}
use telegram_digest_bot.Clustering.Config.{ProcessConfig}
use telegram_digest_bot.Clustering.Persisting.{add_items}
use telegram_digest_bot.Clustering.Partition.Counting.{times}

module _ (F : FloatOps) (P : Packages F.Num) (S : Services F.Num) (process : ProcessConfig F.Num)
    (cluster_id : String) where
  pub times-add_items :
      (id : String) (items : List (Item F.Num))
      → let r = add_items F P S process cluster_id items in
        times id r.0 + times id r.1 ≡ times id items
  unfolding add_items
  times-add_items id [] = refl
  times-add_items id (item ∷ items) = ground (arith, times-add_items id items)

  pub length-add_items :
      (items : List (Item F.Num))
      → let r = add_items F P S process cluster_id items in length r.0 + length r.1 ≡ length items
  unfolding add_items
  length-add_items [] = refl
  length-add_items (item ∷ items) = ground (arith, length-add_items items)

  pub All-add_items :
      (Q : Item F.Num → Type 0) (items : List (Item F.Num))
      → All Q items
      → let r = add_items F P S process cluster_id items in
        All Q r.0 × All (λ item. Q item × (S.add_to_cluster cluster_id item.id ≡ false)) r.1
  unfolding add_items
  All-add_items Q [] all = (tt, tt)
  All-add_items Q (item ∷ items) (q, all) =
      let (added, refused) = All-add_items Q items all in
      elim (Bool-cases (S.add_to_cluster cluster_id item.id)) [
        | inl good ↦ rw good ((q, added), refused)
        | inr bad ↦ rw bad (added, ((q, bad), refused))
      ]

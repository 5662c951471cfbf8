-- ===== src/Clustering/Partition/Adding.antt =====
-- The loop over the candidates of a cluster: what it adds it assigns.
use telegram_digest_bot.Base.{
  ◌+◌, ◌≡◌, refl, sym, ap, ◌∙◌, subst, inl, inr, Bool, true, false, List, [], ◌∷◌, ◌++◌, String,
  take, All, All-append, if◌then◌else◌, str_eq, eq_iff, Bool-cases, arith,
}
use telegram_digest_bot.Base.Dict
use telegram_digest_bot.Base.Float.{FloatOps}
use telegram_digest_bot.Clustering.{Item, Packages}
use telegram_digest_bot.Clustering.Building.{
  BuildContext, is_assigned, validate_cluster_candidate, should_add_to_cluster, add_from,
}
use telegram_digest_bot.Clustering.Partition.Counting.{times, bit, is_assigned-insert, times-append}

module _ (F : FloatOps) (P : Packages F.Num) (bc : BuildContext F.Num) (item_a : Item F.Num) where
  -- An added candidate is neither the item itself nor assigned.
  should_add_to_cluster-free :
      (emb_a : List F.Num) (assigned : List (String × Bool)) (item_b : Item F.Num)
      → should_add_to_cluster F P bc item_a emb_a assigned item_b ≡ true
      → (str_eq item_b.id item_a.id ≡ false) × (is_assigned item_b.id assigned ≡ false)
  unfolding should_add_to_cluster validate_cluster_candidate
  should_add_to_cluster-free emb_a assigned item_b h = ground (arith, h)

  -- One round of the loop, for the outcome of its test.
  add_from_round :
      (added : Bool) (emb_a : List F.Num) (b : Item F.Num) (candidates cluster : List (Item F.Num))
      (assigned : List (String × Bool))
      → should_add_to_cluster F P bc item_a emb_a assigned b ≡ added
      → add_from F P bc item_a emb_a candidates
          (if added then cluster ++ b ∷ [] else cluster)
          (if added then Dict.insert b.id true assigned else assigned)
        ≡ add_from F P bc item_a emb_a (b ∷ candidates) cluster assigned
  unfolding add_from
  add_from_round added emb_a b candidates cluster assigned h =
      ap
        (λ t.
          add_from F P bc item_a emb_a candidates (if t then cluster ++ b ∷ [] else cluster)
            (if t then Dict.insert b.id true assigned else assigned))
        (sym h)

  pub add_from_counts :
      (id : String) (emb_a : List F.Num) (candidates cluster : List (Item F.Num))
      (assigned : List (String × Bool))
      → let r = add_from F P bc item_a emb_a candidates cluster assigned in
        times id cluster + bit (is_assigned id r.1) ≡ times id r.0 + bit (is_assigned id assigned)
  unfolding add_from
  add_from_counts id emb_a [] cluster assigned = refl
  add_from_counts id emb_a (b ∷ candidates) cluster assigned =
      elim (Bool-cases (should_add_to_cluster F P bc item_a emb_a assigned b)) [
        | inr refused ↦
            subst IsCounted (add_from_round false emb_a b candidates cluster assigned refused)
              (add_from_counts id emb_a candidates cluster assigned)
        | inl added ↦
            let (_, free) = should_add_to_cluster-free emb_a assigned b added in
            subst IsCounted (add_from_round true emb_a b candidates cluster assigned added) (
              ground (
                arith,
                free,
                add_from_counts id emb_a candidates (cluster ++ b ∷ [])
                    (Dict.insert b.id true assigned),
                times-append id cluster (b ∷ []),
                is_assigned-insert b.id id true assigned,
                eq_iff b.id id,
              ))
      ]
    where
      IsCounted : List (Item F.Num) × List (String × Bool) → Type 0
      IsCounted r =
          times id cluster + bit (is_assigned id r.1) ≡ times id r.0 + bit (is_assigned id assigned)

  pub add_from_keeps :
      (emb_a : List F.Num) (candidates cluster : List (Item F.Num))
      (assigned : List (String × Bool))
      → is_assigned item_a.id (add_from F P bc item_a emb_a candidates cluster assigned).1
        ≡ is_assigned item_a.id assigned
  unfolding add_from
  add_from_keeps emb_a [] cluster assigned = refl
  add_from_keeps emb_a (b ∷ candidates) cluster assigned =
      elim (Bool-cases (should_add_to_cluster F P bc item_a emb_a assigned b)) [
        | inr refused ↦
            subst IsKept (add_from_round false emb_a b candidates cluster assigned refused)
              (add_from_keeps emb_a candidates cluster assigned)
        | inl added ↦
            let (other, _) = should_add_to_cluster-free emb_a assigned b added in
            subst IsKept (add_from_round true emb_a b candidates cluster assigned added) (
              add_from_keeps emb_a candidates (cluster ++ b ∷ []) (Dict.insert b.id true assigned)
              ∙ is_assigned-insert b.id item_a.id true assigned
              ∙ rw other refl)
      ]
    where
      IsKept : List (Item F.Num) × List (String × Bool) → Type 0
      IsKept r = is_assigned item_a.id r.1 ≡ is_assigned item_a.id assigned

  pub add_from_starts :
      (emb_a : List F.Num) (x : Item F.Num) (candidates cluster : List (Item F.Num))
      (assigned : List (String × Bool))
      → take 1 (add_from F P bc item_a emb_a candidates (x ∷ cluster) assigned).0 ≡ x ∷ []
  unfolding add_from
  add_from_starts emb_a x [] cluster assigned = refl
  add_from_starts emb_a x (b ∷ candidates) cluster assigned =
      elim (Bool-cases (should_add_to_cluster F P bc item_a emb_a assigned b)) [
        | inr refused ↦
            subst (λ r. take 1 r.0 ≡ x ∷ [])
              (add_from_round false emb_a b candidates (x ∷ cluster) assigned refused)
              (add_from_starts emb_a x candidates cluster assigned)
        | inl added ↦
            subst (λ r. take 1 r.0 ≡ x ∷ [])
              (add_from_round true emb_a b candidates (x ∷ cluster) assigned added)
              (add_from_starts emb_a x candidates (cluster ++ b ∷ [])
                (Dict.insert b.id true assigned))
      ]

  pub add_from-All :
      (Q : Item F.Num → Type 0) (emb_a : List F.Num) (candidates cluster : List (Item F.Num))
      (assigned : List (String × Bool))
      → All Q candidates
      → All Q cluster
      → All Q (add_from F P bc item_a emb_a candidates cluster assigned).0
  unfolding add_from
  add_from-All Q emb_a [] cluster assigned all all' = all'
  add_from-All Q emb_a (b ∷ candidates) cluster assigned (q, all) all' =
      elim (Bool-cases (should_add_to_cluster F P bc item_a emb_a assigned b)) [
        | inr refused ↦
            subst (λ r. All Q r.0)
              (add_from_round false emb_a b candidates cluster assigned refused)
              (add_from-All Q emb_a candidates cluster assigned all all')
        | inl added ↦
            subst (λ r. All Q r.0) (add_from_round true emb_a b candidates cluster assigned added)
              (add_from-All Q emb_a candidates (cluster ++ b ∷ []) (Dict.insert b.id true assigned)
                all (All-append Q cluster (b ∷ []) all' (q, tt)))
      ]

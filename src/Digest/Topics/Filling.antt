-- ===== src/Digest/Topics/Filling.antt =====
-- A pass of `fillRemainingSlots` as a relation, with a case for each way through its loop.
use telegram_digest_bot.Base.{
  ℕ, suc, ◌≤◌, ◌<◌, ◌≡◌, refl, Bool, true, false, not, ◌&&◌, ◌||◌, List, [], ◌∷◌, String, Option,
  leb, if◌then◌else◌, arith,
}
use telegram_digest_bot.Digest.Topics.{key_of, bump, is_capped, fill_from}

module _ {A : Type 0} (normalize : String → String) (topic : A → String) (target : ℕ)
    (limit : Option ℕ) where
  -- `n` items are selected before the slots at hand.
  pub data Fills
      : ℕ → List (String × ℕ) → List (A × Bool) → List (A × Bool) → List (String × ℕ) → Type 0 where
    ended : {n : ℕ} {counts : List (String × ℕ)} → Fills n counts [] [] counts
    full :
        {n : ℕ} {counts : List (String × ℕ)} {slots : List (A × Bool)}
        → target ≤ n
        → Fills n counts slots slots counts
    passed :
        {n : ℕ} {counts counts' : List (String × ℕ)} {slots slots' : List (A × Bool)} {x : A}
        → n < target
        → Fills n counts slots slots' counts'
        → Fills n counts ((x, true) ∷ slots) ((x, true) ∷ slots') counts'
    capped :
        {n : ℕ} {counts counts' : List (String × ℕ)} {slots slots' : List (A × Bool)} {x : A}
        → n < target
        → is_capped limit (key_of normalize topic x) counts ≡ true
        → Fills n counts slots slots' counts'
        → Fills n counts ((x, false) ∷ slots) ((x, false) ∷ slots') counts'
    chosen :
        {n : ℕ} {counts counts' : List (String × ℕ)} {slots slots' : List (A × Bool)} {x : A}
        → n < target
        → is_capped limit (key_of normalize topic x) counts ≡ false
        → Fills (suc n) (bump (key_of normalize topic x) counts) slots slots' counts'
        → Fills n counts ((x, false) ∷ slots) ((x, true) ∷ slots') counts'

  pub fill_from-Fills :
      (n : ℕ) (slots : List (A × Bool)) (counts : List (String × ℕ))
      → Fills n counts slots
          (fill_from normalize topic target limit n slots counts).0
          (fill_from normalize topic target limit n slots counts).1
  unfolding fill_from
  fill_from-Fills n [] counts = ended
  fill_from-Fills n ((x, picked) ∷ slots) counts =
      go (leb target n) refl picked (is_capped limit key counts) refl
        (λ m c. fill_from-Fills m slots c)
    where
      key : String
      key = key_of normalize topic x

      result : Bool → Bool → Bool → List (A × Bool) × List (String × ℕ)
      result stop before over =
          let chosen = not before && not over in
          let (rest, rest_counts) =
            fill_from normalize topic target limit (if chosen then suc n else n) slots
              (if chosen then bump key counts else counts) in
          if stop
          then ((x, before) ∷ slots, counts)
          else ((x, before || chosen) ∷ rest, rest_counts)

      go :
          (stop : Bool)
          → leb target n ≡ stop
          → (before over : Bool) → is_capped limit key counts ≡ over
          → ((m : ℕ) (c : List (String × ℕ))
              → Fills m c slots
                  (fill_from normalize topic target limit m slots c).0
                  (fill_from normalize topic target limit m slots c).1)
          → Fills n counts
              ((x, before) ∷ slots)
              (result stop before over).0
              (result stop before over).1
      go true h before over e rec = full (ground arith)
      go false h true over e rec = passed (ground arith) (rec n counts)
      go false h false true e rec = capped (ground arith) e (rec n counts)
      go false h false false e rec = chosen (ground arith) e (rec (suc n) (bump key counts))

-- ===== src/Schedule/Days/Expansion/Sorting.antt =====
-- Sets of minutes, and their sorting.
use telegram_digest_bot.Base.{
  ℕ, ◌<◌, ◌≡◌, refl, ap, ◌∙◌, subst, false, ◌||◌, List, [], ◌∷◌, ◌++◌, All, ltb, ◌==◌, Bool-cases,
  inl, inr, arith,
}
use telegram_digest_bot.Schedule.Days.{mem, add_minute, insert_minute, sorted_minutes}

abbrev pub IsIncreasing : List ℕ → Type 0
IsIncreasing [] = Unit
IsIncreasing (x ∷ xs) = All (λ y. x < y) xs × IsIncreasing xs

-- No minute stands twice.
abbrev pub IsDistinct : List ℕ → Type 0
IsDistinct [] = Unit
IsDistinct (x ∷ xs) = (mem x xs ≡ false) × IsDistinct xs

pub mem-append : (m : ℕ) (xs ys : List ℕ) → mem m (xs ++ ys) ≡ (mem m xs || mem m ys)
mem-append m [] ys = refl
mem-append m (x ∷ xs) ys = ground (arith, mem-append m xs ys)

pub mem-add_minute : (m n : ℕ) (set : List ℕ) → mem m (add_minute n set) ≡ (mem m set || (n == m))
unfolding add_minute
mem-add_minute m n set =
    ground (arith, mem-append m set (n ∷ []), λ (e : n ≡ m). ap (λ k. mem k set) e)

IsDistinct-snoc :
    (n : ℕ) (set : List ℕ) → IsDistinct set → mem n set ≡ false → IsDistinct (set ++ n ∷ [])
IsDistinct-snoc n [] d h = (refl, tt)
IsDistinct-snoc n (x ∷ set) (new, d) h =
    (ground (arith, h, new, mem-append x set (n ∷ [])), IsDistinct-snoc n set d (ground (arith, h)))

pub add_minute-IsDistinct : (n : ℕ) (set : List ℕ) → IsDistinct set → IsDistinct (add_minute n set)
unfolding add_minute
add_minute-IsDistinct n set d = elim (Bool-cases (mem n set)) [
  | inl old ↦ subst IsDistinct (ground (arith, old)) d
  | inr new ↦ subst IsDistinct (ground (arith, new)) (IsDistinct-snoc n set d new)
]

mem-insert_minute : (m n : ℕ) (xs : List ℕ) → mem m (insert_minute n xs) ≡ (mem m xs || (n == m))
unfolding insert_minute
mem-insert_minute m n [] = ground arith
mem-insert_minute m n (x ∷ xs) = ground (arith, mem-insert_minute m n xs)

pub mem-sorted_minutes : (m : ℕ) (set : List ℕ) → mem m (sorted_minutes set) ≡ mem m set
unfolding sorted_minutes
mem-sorted_minutes m [] = refl
mem-sorted_minutes m (n ∷ set) =
    ground (arith, mem-insert_minute m n (sorted_minutes set), mem-sorted_minutes m set)

All-insert_minute :
    (b n : ℕ) (xs : List ℕ) → b < n → All (λ y. b < y) xs → All (λ y. b < y) (insert_minute n xs)
unfolding insert_minute
All-insert_minute b n [] h a = (h, tt)
All-insert_minute b n (x ∷ xs) h (hx, a) = elim (Bool-cases (ltb x n)) [
  | inl less ↦ rw less (hx, All-insert_minute b n xs h a)
  | inr more ↦ rw more (h, (hx, a))
]

above : (n x : ℕ) (xs : List ℕ) → n < x → All (λ y. x < y) xs → All (λ y. n < y) xs
above n x [] h a = tt
above n x (y ∷ xs) h (hy, a) = (omega (arith, h, hy), above n x xs h a)

insert_minute-IsIncreasing :
    (n : ℕ) (xs : List ℕ) → IsIncreasing xs → mem n xs ≡ false → IsIncreasing (insert_minute n xs)
unfolding insert_minute
insert_minute-IsIncreasing n [] i h = (tt, tt)
insert_minute-IsIncreasing n (x ∷ xs) (low, i) h = elim (Bool-cases (ltb x n)) [
  | inl less ↦ rw less (
    All-insert_minute x n xs (ground (arith, less)) low,
    insert_minute-IsIncreasing n xs i (ground (arith, h)),
  )
  | inr more ↦
      let lt : n < x = ground (arith, more, h) in rw more ((lt, above n x xs lt low), (low, i))
]

pub sorted_minutes-IsIncreasing :
    (set : List ℕ) → IsDistinct set → IsIncreasing (sorted_minutes set)
unfolding sorted_minutes
sorted_minutes-IsIncreasing [] d = tt
sorted_minutes-IsIncreasing (n ∷ set) (new, d) =
    insert_minute-IsIncreasing n (sorted_minutes set) (sorted_minutes-IsIncreasing set d)
      (mem-sorted_minutes n set ∙ new)

-- ===== src/Token/Bytes.antt =====
-- Numbers as bytes, and lists of bytes cut where they were joined.
use telegram_digest_bot.Base.{
  ℕ, zero, suc, ◌+◌, ◌*◌, ◌/◌, ◌%◌, ◌^◌, ◌∙◌, ◌<◌, ◌≤◌, ◌≡◌, refl, ap, true, List, [], ◌∷◌, ◌++◌,
  length, take, drop, length-append, arith,
}
use native.Mathlib.Numerals.{unary_clauses}
use telegram_digest_bot.Token.{put_big_endian, big_endian_from, equal_bytes}

pub length-put_big_endian : (n v : ℕ) → length (put_big_endian n v) ≡ n
unfolding put_big_endian
length-put_big_endian zero v = refl
length-put_big_endian (suc n) v = omega (
  arith,
  length-append (put_big_endian n (v / 256)) (v % 256 ∷ []),
  length-put_big_endian n (v / 256),
)

big_endian_from-append :
    (v b : ℕ) (bs : List ℕ) → big_endian_from v (bs ++ b ∷ []) ≡ big_endian_from v bs * 256 + b
unfolding big_endian_from
big_endian_from-append v b [] = refl
big_endian_from-append v b (c ∷ bs) = big_endian_from-append (v * 256 + c) b bs

abbrev pub bound : ℕ → ℕ
bound zero = 1
bound (suc n) = 256 * bound n

pub big_endian_from-put_big_endian :
    (n v : ℕ) → v < bound n → big_endian_from 0 (put_big_endian n v) ≡ v
unfolding put_big_endian big_endian_from
big_endian_from-put_big_endian zero v h = omega arith
big_endian_from-put_big_endian (suc n) v h = omega (
  arith,
  big_endian_from-append 0 (v % 256) (put_big_endian n (v / 256)),
  big_endian_from-put_big_endian n (v / 256) (omega arith),
)

module _ {A : Type 0} where
  pub take-append : (n : ℕ) (xs ys : List A) → length xs ≡ n → take n (xs ++ ys) ≡ xs
  take-append zero [] ys h = refl
  take-append zero (x ∷ xs) ys h = absurd (omega (arith, h))
  take-append (suc n) [] ys h = absurd (omega (arith, h))
  take-append (suc n) (x ∷ xs) ys h = ap (λ zs. x ∷ zs) (take-append n xs ys (omega (arith, h)))

  pub drop-append : (n : ℕ) (xs ys : List A) → length xs ≡ n → drop n (xs ++ ys) ≡ ys
  drop-append zero [] ys h = refl
  drop-append zero (x ∷ xs) ys h = absurd (omega (arith, h))
  drop-append (suc n) [] ys h = absurd (omega (arith, h))
  drop-append (suc n) (x ∷ xs) ys h = drop-append n xs ys (omega (arith, h))

pub equal_bytes_refl : (xs : List ℕ) → equal_bytes xs xs ≡ true
equal_bytes_refl [] = refl
equal_bytes_refl (x ∷ xs) = ground (arith, equal_bytes_refl xs)

pub equal_bytes_iff : (xs ys : List ℕ) → equal_bytes xs ys ≡ true → xs ≡ ys
equal_bytes_iff [] [] h = refl
equal_bytes_iff [] (y ∷ ys) h = absurd cc
equal_bytes_iff (x ∷ xs) [] h = absurd cc
equal_bytes_iff (x ∷ xs) (y ∷ ys) h =
    let heads : x ≡ y = ground (arith, h) in
    let tails = equal_bytes_iff xs ys (ground (arith, h)) in cc

-- The number that bytes stand for, the first of them being worth most.
unfoldable pub value : List ℕ → ℕ
value [] = 0
value (b ∷ bs) = b * 256 ^ length bs + value bs

big_endian_from-value :
    (v : ℕ) (bs : List ℕ) → big_endian_from v bs ≡ v * 256 ^ length bs + value bs
unfolding big_endian_from value
big_endian_from-value v [] = omega arith
big_endian_from-value v (b ∷ bs) =
    simp unary_clauses (omega (arith, big_endian_from-value (v * 256 + b) bs))

pub big_endian_from_zero : (bs : List ℕ) → big_endian_from 0 bs ≡ value bs
big_endian_from_zero bs = omega (arith, big_endian_from-value 0 bs)

module _ {A : Type 0} where
  pub take-take : (m n : ℕ) (xs : List A) → m ≤ n → take m (take n xs) ≡ take m xs
  take-take zero n xs h = refl
  take-take (suc m) zero xs h = absurd (omega (arith, h))
  take-take (suc m) (suc n) [] h = refl
  take-take (suc m) (suc n) (x ∷ xs) h = ap (λ ys. x ∷ ys) (take-take m n xs (omega (arith, h)))

  pub drop-take : (m k n : ℕ) (xs : List A) → n ≡ m + k → drop m (take n xs) ≡ take k (drop m xs)
  drop-take zero k n xs h = ap (λ i. take i xs) (h ∙ omega arith)
  drop-take (suc m) k zero xs h = absurd (omega (arith, h))
  drop-take (suc m) zero (suc n) [] h = refl
  drop-take (suc m) (suc k) (suc n) [] h = refl
  drop-take (suc m) k (suc n) (x ∷ xs) h = drop-take m k n xs (omega (arith, h))

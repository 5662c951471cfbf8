-- ===== src/Token.antt =====
-- The tokens of the expanded view (internal/expandedview/token.go).
-- Bytes are numbers. A moment is the number of nanoseconds since the Unix epoch. An int64 is its bit
-- pattern. The parameters are uuid.Parse and String of github.com/google/uuid, the two directions of
-- base64.URLEncoding, whose texts are the type `Base64`, and HMAC-SHA256 of a secret and a text. Expiry times beyond the range of
-- time.Time are left out.
pub mod Bytes
pub mod RoundTrip
mod Tests
use telegram_digest_bot.Base.{
  ℕ, zero, suc, ◌+◌, ◌*◌, ◌/◌, ◌%◌, ◌^◌, Bool, true, false, not, ◌&&◌, List, [], ◌∷◌, ◌++◌, String,
  Option, none, some, ◌⊎◌, inl, inr, length, take, drop, ltb, leb, ◌==◌, if◌then◌else◌,
}

pub data TokenError : Type 0 where
  invalid_token token_expired invalid_item_id : TokenError

pub record TokenPayload : Type 0 where
  pub item_id : String
  pub user_id : ℕ
  -- In seconds.
  pub expires_at : ℕ

-- The lifetime is in nanoseconds.
pub record TokenService : Type 0 where
  pub secret : List ℕ
  pub ttl : ℕ

-- `binary.BigEndian.PutUint64` for `n` bytes.
unfoldable pub put_big_endian : ℕ → ℕ → List ℕ
put_big_endian zero v = []
put_big_endian (suc n) v = put_big_endian n (v / 256) ++ v % 256 ∷ []

-- `binary.BigEndian.Uint64`
unfoldable pub big_endian_from : ℕ → List ℕ → ℕ
big_endian_from v [] = v
big_endian_from v (b ∷ bs) = big_endian_from (v * 256 + b) bs

-- `hmac.Equal`
abbrev pub equal_bytes : List ℕ → List ℕ → Bool
equal_bytes [] [] = true
equal_bytes [] (y ∷ ys) = false
equal_bytes (x ∷ xs) [] = false
equal_bytes (x ∷ xs) (y ∷ ys) = (x == y) && equal_bytes xs ys

-- `time.Now().After(time.Unix(exp, 0))`; from 2^63 on the pattern is a moment before the epoch.
abbrev pub is_past : ℕ → ℕ → Bool
is_past now exp = if leb (2 ^ 63) exp then true else ltb (exp * 1000000000) now

-- The payload of 32 bytes.
abbrev pub payload_of : List ℕ → ℕ → ℕ → List ℕ
payload_of uid user_id exp = uid ++ (put_big_endian 8 user_id ++ put_big_endian 8 exp)

module _ {Base64 : Type 0} (parse_uuid : String → Option (List ℕ)) (print_uuid : List ℕ → String)
    (encode : List ℕ → Base64) (decode : Base64 → Option (List ℕ))
    (hmac : List ℕ → List ℕ → List ℕ) where
  unfoldable pub sign : TokenService → List ℕ → List ℕ
  sign s payload = hmac s.secret payload

  unfoldable pub generate : TokenService → ℕ → String → ℕ → TokenError ⊎ Base64
  unfolding sign
  generate s now item_id user_id = elim (parse_uuid item_id) [
    | none ↦ inl invalid_item_id
    | some uid ↦
        let payload = payload_of uid user_id ((now + s.ttl) / 1000000000) in
        inr (encode (payload ++ take 16 (sign s payload)))
  ]

  -- What `Verify` does with the decoded bytes.
  unfoldable pub verify_data : TokenService → ℕ → List ℕ → TokenError ⊎ TokenPayload
  unfolding sign
  verify_data s now bytes =
      let payload = take 32 bytes in
      let exp = big_endian_from 0 (drop 24 payload) in
      if not (length bytes == 48)
      then inl invalid_token
      else if not (equal_bytes (drop 32 bytes) (take 16 (sign s payload)))
      then inl invalid_token
      else if is_past now exp
      then inl token_expired
      else inr (record {
        item_id = print_uuid (take 16 payload);
        user_id = big_endian_from 0 (take 8 (drop 16 payload));
        expires_at = exp;
      })

  unfoldable pub verify : TokenService → ℕ → Base64 → TokenError ⊎ TokenPayload
  unfolding verify_data
  verify s now token = elim (decode token) [
    | none ↦ inl invalid_token
    | some bytes ↦ verify_data s now bytes
  ]

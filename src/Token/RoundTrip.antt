-- ===== src/Token/RoundTrip.antt =====
-- What is verified, and of which tokens.
use telegram_digest_bot.Base.{
  ℕ, ◌+◌, ◌*◌, ◌/◌, ◌^◌, ◌<◌, ◌≤◌, ◌≡◌, refl, ◌↔◌, sym, ap, ◌∙◌, true, false, List, ◌++◌, String,
  Option, some, inl, inr, length, take, drop, length-append, length-take, append_assoc, arith,
  Option-cases,
}
use telegram_digest_bot.Token.{
  TokenPayload, TokenService, put_big_endian, big_endian_from, equal_bytes, is_past, sign,
  payload_of, generate, verify_data, verify,
}
use telegram_digest_bot.Token.Bytes.{
  length-put_big_endian, big_endian_from-put_big_endian, take-append, drop-append, equal_bytes_refl,
  equal_bytes_iff, value, big_endian_from_zero, take-take, drop-take,
}

module _ {Base64 : Type 0} (parse_uuid : String → Option (List ℕ)) (print_uuid : List ℕ → String)
    (encode : List ℕ → Base64) (decode : Base64 → Option (List ℕ))
    (hmac : List ℕ → List ℕ → List ℕ) where
  accepts :
      (s : TokenService) (now : ℕ) (bytes : List ℕ)
      → length bytes ≡ 48
      → equal_bytes (drop 32 bytes) (take 16 (hmac s.secret (take 32 bytes))) ≡ true
      → is_past now (big_endian_from 0 (drop 24 (take 32 bytes))) ≡ false
      → verify_data parse_uuid print_uuid encode decode hmac s now bytes
        ≡ inr (record {
          item_id = print_uuid (take 16 (take 32 bytes));
          user_id = big_endian_from 0 (take 8 (drop 16 (take 32 bytes)));
          expires_at = big_endian_from 0 (drop 24 (take 32 bytes));
        })
  unfolding verify_data sign
  accepts s now bytes size signed fresh = ground (arith, size, signed, fresh)

  -- What the bytes of a token say, when they are signed and at a moment before the expiry.
  abbrev pub IsSignedToken : TokenService → ℕ → TokenPayload → List ℕ → Type 0
  IsSignedToken s now p bytes =
      (length bytes ≡ 48)
      × (drop 32 bytes ≡ take 16 (hmac s.secret (take 32 bytes)))
      × (p.item_id ≡ print_uuid (take 16 bytes))
      × (p.user_id ≡ value (take 8 (drop 16 bytes)))
      × (p.expires_at ≡ value (take 8 (drop 24 bytes)))
      × (p.expires_at < 2 ^ 63)
      × (now ≤ p.expires_at * 1000000000)

  module _ (bytes : List ℕ) where
    item_of-bytes : take 16 (take 32 bytes) ≡ take 16 bytes
    item_of-bytes = take-take 16 32 bytes (omega arith)

    user_of-bytes :
        big_endian_from 0 (take 8 (drop 16 (take 32 bytes))) ≡ value (take 8 (drop 16 bytes))
    user_of-bytes =
        big_endian_from_zero (take 8 (drop 16 (take 32 bytes)))
        ∙ ap (λ xs. value (take 8 xs)) (drop-take 16 16 32 bytes refl)
        ∙ ap value (take-take 8 16 (drop 16 bytes) (omega arith))

    exp_of-bytes : big_endian_from 0 (drop 24 (take 32 bytes)) ≡ value (take 8 (drop 24 bytes))
    exp_of-bytes =
        big_endian_from_zero (drop 24 (take 32 bytes)) ∙ ap value (drop-take 24 8 32 bytes refl)

  is_past-false :
      (now exp : ℕ) → is_past now exp ≡ false → (exp < 2 ^ 63) × (now ≤ exp * 1000000000)
  is_past-false now exp h = (ground (arith, h), ground (arith, h))

  verify_data_only :
      (s : TokenService) (now : ℕ) (bytes : List ℕ) (p : TokenPayload)
      → verify_data parse_uuid print_uuid encode decode hmac s now bytes ≡ inr p
      → IsSignedToken s now p bytes
  unfolding verify_data sign
  verify_data_only s now bytes p h =
      let fresh = is_past-false now p.expires_at (ground (arith, h)) in
      (
        ground (arith, h),
        equal_bytes_iff (drop 32 bytes) (take 16 (hmac s.secret (take 32 bytes)))
            (ground (arith, h)),
        ground (arith, h, item_of-bytes bytes),
        ground (arith, h, user_of-bytes bytes),
        ground (arith, h, exp_of-bytes bytes),
        fresh.0,
        fresh.1,
      )

  verify_data_if :
      (s : TokenService) (now : ℕ) (bytes : List ℕ) (p : TokenPayload)
      → IsSignedToken s now p bytes
      → verify_data parse_uuid print_uuid encode decode hmac s now bytes ≡ inr p
  verify_data_if s now bytes p (size, signed, is_item, is_user, is_exp, small, fresh) =
      let same : big_endian_from 0 (drop 24 (take 32 bytes)) ≡ p.expires_at =
        exp_of-bytes bytes ∙ sym is_exp in
      accepts s now bytes size
        (ap (λ xs. equal_bytes xs (take 16 (hmac s.secret (take 32 bytes)))) signed
          ∙ equal_bytes_refl (take 16 (hmac s.secret (take 32 bytes))))
        (ap (is_past now) same ∙ ground (arith, small, fresh))
      ∙ cc (item_of-bytes bytes, user_of-bytes bytes, same, is_item, is_user)

  -- A token is accepted with a payload exactly if it decodes to 48 bytes, of which the last 16 are the
  -- first 16 of the signature of the first 32, the payload is what the 16 bytes of the identifier, the
  -- 8 bytes of the user and the 8 bytes of the expiry stand for, the expiry is not before the epoch, and
  -- it is not past.
  pub verify_iff :
      (s : TokenService) (now : ℕ) (token : Base64) (p : TokenPayload)
      → (verify parse_uuid print_uuid encode decode hmac s now token ≡ inr p)
        ↔ ((bytes : List ℕ) × (decode token ≡ some bytes) × IsSignedToken s now p bytes)
  unfolding verify
  verify_iff s now token p = (
    λ h. elim (Option-cases (decode token)) [
      | inl bad ↦ absurd (ground (arith, bad, h))
      | inr (bytes, is) ↦ (bytes, is, verify_data_only s now bytes p (ground (arith, is, h)))
    ],
    λ (bytes, is, signed). ground (arith, is, verify_data_if s now bytes p signed),
  )

  module _ (uid : List ℕ) (user_id exp : ℕ) (sized : length uid ≡ 16) where
    abbrev payload : List ℕ
    payload = payload_of uid user_id exp

    length-payload : length payload ≡ 32
    length-payload = omega (
      arith,
      sized,
      length-append uid (put_big_endian 8 user_id ++ put_big_endian 8 exp),
      length-append (put_big_endian 8 user_id) (put_big_endian 8 exp),
      length-put_big_endian 8 user_id,
      length-put_big_endian 8 exp,
    )

    take-payload : take 16 payload ≡ uid
    take-payload = take-append 16 uid (put_big_endian 8 user_id ++ put_big_endian 8 exp) sized

    user_of-payload : user_id < 2 ^ 64 → big_endian_from 0 (take 8 (drop 16 payload)) ≡ user_id
    user_of-payload h =
        ap (λ xs. big_endian_from 0 (take 8 xs))
          (drop-append 16 uid (put_big_endian 8 user_id ++ put_big_endian 8 exp) sized)
        ∙ ap (big_endian_from 0) (
            take-append 8 (put_big_endian 8 user_id) (put_big_endian 8 exp)
              (length-put_big_endian 8 user_id))
        ∙ big_endian_from-put_big_endian 8 user_id h

    exp_of-payload : exp < 2 ^ 64 → big_endian_from 0 (drop 24 payload) ≡ exp
    exp_of-payload h =
        ap (λ xs. big_endian_from 0 (drop 24 xs))
          (sym (append_assoc uid (put_big_endian 8 user_id) (put_big_endian 8 exp)))
        ∙ ap (big_endian_from 0) (
            drop-append 24 (uid ++ put_big_endian 8 user_id) (put_big_endian 8 exp) (
              omega (
                arith,
                sized,
                length-append uid (put_big_endian 8 user_id),
                length-put_big_endian 8 user_id,
              )))
        ∙ big_endian_from-put_big_endian 8 exp h

  signed_payload :
      (s : TokenService) (later : ℕ) (uid : List ℕ) (user_id exp : ℕ)
      → ((key bytes : List ℕ) → length (hmac key bytes) ≡ 32)
      → length uid ≡ 16
      → user_id < 2 ^ 64
      → exp < 2 ^ 63
      → later ≤ exp * 1000000000
      → verify_data parse_uuid print_uuid encode decode hmac s later
          (payload_of uid user_id exp ++ take 16 (hmac s.secret (payload_of uid user_id exp)))
        ≡ inr (record { item_id = print_uuid uid; user_id = user_id; expires_at = exp })
  signed_payload s later uid user_id exp sha sized small soon fresh =
      accepts s later (payload ++ sig)
        (omega (
          arith,
          length-append payload sig,
          length-payload uid user_id exp sized,
          length-take 16 (hmac s.secret payload),
          sha s.secret payload,
        ))
        (ap (λ xs. equal_bytes xs (take 16 (hmac s.secret (take 32 (payload ++ sig)))))
            (drop-append 32 payload sig (length-payload uid user_id exp sized))
          ∙ ap (λ xs. equal_bytes sig (take 16 (hmac s.secret xs))) is_payload
          ∙ equal_bytes_refl sig)
        (ap (λ xs. is_past later (big_endian_from 0 (drop 24 xs))) is_payload
          ∙ ap (is_past later) (exp_of-payload uid user_id exp sized (omega (arith, soon)))
          ∙ ground (arith, soon, fresh))
      ∙ ap
          (λ xs. inr (record {
            item_id = print_uuid (take 16 xs);
            user_id = big_endian_from 0 (take 8 (drop 16 xs));
            expires_at = big_endian_from 0 (drop 24 xs);
          }))
          is_payload
      ∙ cc (
        take-payload uid user_id exp sized,
        user_of-payload uid user_id exp sized small,
        exp_of-payload uid user_id exp sized (omega (arith, soon)),
      )
    where
      payload : List ℕ
      payload = payload_of uid user_id exp

      sig : List ℕ
      sig = take 16 (hmac s.secret payload)

      is_payload : take 32 (payload ++ sig) ≡ payload
      is_payload = take-append 32 payload sig (length-payload uid user_id exp sized)

  -- With base64 that decodes what it encodes and signatures of 32 bytes, a token that is generated for
  -- an item whose identifier is a UUID verifies until it expires, to that item, user and expiry.
  pub verify-generate :
      (s : TokenService) (now later : ℕ) (item_id : String) (uid : List ℕ) (user_id : ℕ)
      → ((bytes : List ℕ) → decode (encode bytes) ≡ some bytes)
      → ((key bytes : List ℕ) → length (hmac key bytes) ≡ 32)
      → parse_uuid item_id ≡ some uid
      → length uid ≡ 16
      → user_id < 2 ^ 64
      → (now + s.ttl) / 1000000000 < 2 ^ 63
      → later ≤ (now + s.ttl) / 1000000000 * 1000000000
      → (token : Base64) × (generate parse_uuid print_uuid encode decode hmac s now item_id user_id
          ≡ inr token)
        × (verify parse_uuid print_uuid encode decode hmac s later token
            ≡ inr (record {
              item_id = print_uuid uid;
              user_id = user_id;
              expires_at = (now + s.ttl) / 1000000000;
            }))
  unfolding generate verify sign
  verify-generate s now later item_id uid user_id decodes sha parsed sized small soon fresh =
      let exp = (now + s.ttl) / 1000000000 in
      let payload = payload_of uid user_id exp in
      let bytes = payload ++ take 16 (hmac s.secret payload) in
      let checked = signed_payload s later uid user_id exp sha sized small soon fresh in
      (encode bytes, ground (arith, parsed), ground (arith, decodes bytes, checked))

-- ===== src/Token/Tests.antt =====
-- A token of a service whose signature is 32 copies of the first byte of the secret.
use telegram_digest_bot.Base.{
  ℕ, ◌*◌, ◌≡◌, refl, ◌↔◌, List, [], ◌∷◌, String, Option, none, some, inr, arith, str_eq,
  if◌then◌else◌,
}
use telegram_digest_bot.Token.{TokenService, generate, verify}
use telegram_digest_bot.Token.RoundTrip.{IsSignedToken, verify_iff, verify-generate}

abbrev sixteen : List ℕ
sixteen = 1 ∷ 2 ∷ 3 ∷ 4 ∷ 5 ∷ 6 ∷ 7 ∷ 8 ∷ 9 ∷ 10 ∷ 11 ∷ 12 ∷ 13 ∷ 14 ∷ 15 ∷ 16 ∷ []

abbrev parse : String → Option (List ℕ)
parse s = if str_eq s "item" then some sixteen else none

abbrev print : List ℕ → String
print bs = "item"

abbrev keep_bytes : List ℕ → List ℕ
keep_bytes bs = bs

abbrev read_bytes : List ℕ → Option (List ℕ)
read_bytes bs = some bs

abbrev eight : ℕ → List ℕ → List ℕ
eight b bs = b ∷ b ∷ b ∷ b ∷ b ∷ b ∷ b ∷ b ∷ bs

abbrev mac : List ℕ → List ℕ → List ℕ
mac key bs = eight 7 (eight 7 (eight 7 (eight 7 [])))

abbrev service : TokenService
service = record { secret = 7 ∷ []; ttl = 3600 * 1000000000 }

verify-generate_example :
    (token : List ℕ) × (generate parse print keep_bytes read_bytes mac service 1000000000 "item" 42
      ≡ inr token)
    × (verify parse print keep_bytes read_bytes mac service 5000000000 token
        ≡ inr (record { item_id = "item"; user_id = 42; expires_at = 3601 }))
verify-generate_example =
    verify-generate parse print keep_bytes read_bytes mac service 1000000000 5000000000 "item"
      sixteen 42 (λ bs. refl) (λ key bs. refl) refl refl (omega arith) (omega arith) (omega arith)

issued :
    (token : List ℕ) × (generate parse print keep_bytes read_bytes mac service 1000000000 "item" 42
      ≡ inr token)
    × (verify parse print keep_bytes read_bytes mac service 5000000000 token
        ≡ inr (record { item_id = "item"; user_id = 42; expires_at = 3601 }))
issued =
    verify-generate parse print keep_bytes read_bytes mac service 1000000000 5000000000 "item"
      sixteen 42 (λ bs. refl) (λ key bs. refl) refl refl (omega arith) (omega arith) (omega arith)

verify_iff_example :
    (verify parse print keep_bytes read_bytes mac service 5000000000 issued.0
      ≡ inr (record { item_id = "item"; user_id = 42; expires_at = 3601 }))
    ↔ ((bytes : List ℕ) × (read_bytes issued.0 ≡ some bytes)
        × IsSignedToken parse print keep_bytes read_bytes mac service 5000000000
            (record { item_id = "item"; user_id = 42; expires_at = 3601 })
            bytes)
verify_iff_example =
    verify_iff parse print keep_bytes read_bytes mac service 5000000000 issued.0
      (record { item_id = "item"; user_id = 42; expires_at = 3601 })

-- ===== src/Security/Crypto/Tests.antt =====
-- An envelope with a toy cipher, which seals a text as it is.
use loxtu_go.Base.{some, [], ◌∷◌, Str, ◌≡◌, refl}
use loxtu_go.Base.Result.{ok}
use loxtu_go.Identity.User.{zero_user, decrypt_email}
use loxtu_go.Security.Crypto.{encrypt_dek, encrypt_pii, decrypt_dek, decrypt_pii}
use loxtu_go.Security.Crypto.Toy.{toy_gcm, plain, a_key, a_nonce, toy_gcm-IsGcm}
use loxtu_go.Security.Crypto.RoundTrip.{envelope_opens}

envelope_opens_example :
    (encrypted_dek : Str) × (ciphertext : Str) × (encrypt_dek toy_gcm plain a_key a_key (ok a_nonce)
      ≡ ok encrypted_dek)
    × (encrypt_pii toy_gcm (5 ∷ []) a_key (ok a_nonce) ≡ ok ciphertext)
    × (decrypt_dek toy_gcm plain encrypted_dek a_key ≡ ok a_key)
    × (decrypt_email
          (some (decrypt_pii toy_gcm))
          (record zero_user { email_ciphertext = ciphertext })
          a_key
        ≡ ok (5 ∷ []))
envelope_opens_example =
    envelope_opens toy_gcm toy_gcm-IsGcm plain zero_user (5 ∷ []) a_key a_key a_nonce a_nonce
      (λ s. refl) refl refl refl refl

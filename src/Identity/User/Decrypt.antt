-- ===== src/Identity/User/Decrypt.antt =====
-- The decryption of a field of internal/core/identity/user.go once the function is wired.
use loxtu_go.Base.{[], ◌∷◌, false, some, Str, is_empty, ◌≡◌, refl}
use loxtu_go.Base.Result.{Result}
use loxtu_go.Identity.User.{User, decrypt_email, decrypt_field, decrypt_pii_compat}

decrypt_field-wired :
    (f : Str → Str → Result Str) (ciphertext dek : Str)
    → is_empty ciphertext ≡ false
    → decrypt_field (some f) ciphertext dek ≡ f ciphertext dek
unfolding decrypt_field decrypt_pii_compat
decrypt_field-wired f [] dek e = absurd cc
decrypt_field-wired f (c ∷ ciphertext) dek e = refl

-- An address that is stored is what the wired function makes of it.
pub decrypt_email-wired :
    (f : Str → Str → Result Str) (u : User) (dek : Str)
    → is_empty u.email_ciphertext ≡ false
    → decrypt_email (some f) u dek ≡ f u.email_ciphertext dek
unfolding decrypt_email
decrypt_email-wired f u dek e = decrypt_field-wired f u.email_ciphertext dek e

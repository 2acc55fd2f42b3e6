-- ===== src/Security/KeyManager/Tests.antt =====
-- internal/security/keymanager.go and internal/config/security.go with a toy cipher.
use loxtu_go.Base.{◌≡◌, refl, Str}
use loxtu_go.Base.Result.{ok}
use loxtu_go.Security.KeyManager.{
  EnvKeyManager, checked_kek, new_env_key_manager, generate_and_encrypt_dek, decrypt_dek,
}
use loxtu_go.Security.KeyManager.Laws.{generated_key_opens}
use loxtu_go.Security.Crypto.Toy.{toy_gcm, toy_gcm-IsGcm, plain, a_key, a_nonce}

abbrev a_manager : EnvKeyManager
a_manager = record { kek = a_key }

made : new_env_key_manager plain a_key ≡ ok a_manager
unfolding new_env_key_manager checked_kek
made = refl

generated_key_opens_example :
    (encrypted : Str) × (generate_and_encrypt_dek toy_gcm plain a_manager (ok a_key) (ok a_nonce)
      ≡ ok (a_key, encrypted))
    × (decrypt_dek toy_gcm plain a_manager encrypted ≡ ok a_key)
generated_key_opens_example =
    generated_key_opens toy_gcm plain a_key a_manager a_key a_nonce toy_gcm-IsGcm (λ s. refl) made
      refl refl

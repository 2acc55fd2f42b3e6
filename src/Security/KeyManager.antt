-- ===== src/Security/KeyManager.antt =====
-- internal/security/keymanager.go and internal/config/security.go: the key for data keys, from the
-- environment. A variable that is not set is the empty text, and random reads are arguments.
pub mod Laws
mod Tests
use loxtu_go.Base.{
  Bool, true, false, Option, none, some, [], Str, bytes, ◌++◌, ◌==◌, is_empty, length,
  if◌then◌else◌,
}
use loxtu_go.Base.Result.{Result, ok, err, panics, ◌>>=◌}
use loxtu_go.Security.Crypto.{Gcm, Base64, encrypt_pii, decrypt_pii, generate_dek}

pub record EnvKeyManager : Type 0 where
  pub kek : Str

-- The texts of the errors end with the cause and the length, which are left out.
pub checked_kek : Option Str → Result EnvKeyManager
checked_kek none = err (bytes "LOXTU_DATA_KEY is not valid base64: ")
checked_kek (some kek) =
    if length kek == 32
    then ok (record { kek = kek })
    else err (bytes "LOXTU_DATA_KEY must be 32 bytes")

pub new_env_key_manager : Base64 → Str → Result EnvKeyManager
new_env_key_manager base64 data_key =
    if is_empty data_key
    then err (bytes "LOXTU_DATA_KEY is not set")
    else checked_kek (base64.decode data_key)

module _ (gcm : Gcm) (base64 : Base64) where
  pub encrypt_dek_with_kek : Str → Str → Result Str → Result Str
  encrypt_dek_with_kek dek kek random = encrypt_pii gcm (base64.encode dek) kek random

  pub checked_dek : Option Str → Result Str
  checked_dek none = err (bytes "decode DEK base64: ")
  checked_dek (some dek) = if length dek == 32 then ok dek else err (bytes "invalid DEK length")

  pub decoded : Result Str → Result Str
  decoded (ok b64) = checked_dek (base64.decode b64)
  decoded (err e) = err (bytes "decrypt DEK: " ++ e)
  decoded panics = panics

  pub decrypt_dek_with_kek : Str → Str → Result Str
  decrypt_dek_with_kek encrypted_dek kek = decoded (decrypt_pii gcm encrypted_dek kek)

  pub encrypt_dek : EnvKeyManager → Str → Result Str → Result Str
  encrypt_dek m dek random = encrypt_dek_with_kek dek m.kek random

  pub decrypt_dek : EnvKeyManager → Str → Result Str
  decrypt_dek m encrypted_dek = decrypt_dek_with_kek encrypted_dek m.kek

  pub wrapped : Str → Result Str → Result (Str × Str)
  wrapped dek (ok encrypted) = ok (dek, encrypted)
  wrapped dek (err e) = err (bytes "encrypt DEK: " ++ e)
  wrapped dek panics = panics

  pub encrypt_generated : EnvKeyManager → Result Str → Result Str → Result (Str × Str)
  encrypt_generated m (ok dek) nonce = wrapped dek (encrypt_dek m dek nonce)
  encrypt_generated m (err e) nonce = err (bytes "generate DEK: " ++ e)
  encrypt_generated m panics nonce = panics

  -- The two random reads are the data key's and the nonce's.
  pub generate_and_encrypt_dek : EnvKeyManager → Result Str → Result Str → Result (Str × Str)
  generate_and_encrypt_dek m random nonce = encrypt_generated m (generate_dek random) nonce

pub record SecurityConfig : Type 0 where
  pub kek : Str
  pub hash_pepper : Str

pub with_pepper : Str → Str → Result SecurityConfig
with_pepper kek pepper =
    if is_empty pepper
    then err (bytes "LOXTU_HASH_PEPPER is required")
    else ok (record { kek = kek; hash_pepper = pepper })

pub config_of_key : Option Str → Str → Result SecurityConfig
config_of_key none pepper = err (bytes "LOXTU_DATA_KEY is not valid base64: ")
config_of_key (some kek) pepper =
    if length kek == 32
    then with_pepper kek pepper
    else err (bytes "LOXTU_DATA_KEY must be 32 bytes")

pub security_from_env : Base64 → Str → Str → Result SecurityConfig
security_from_env base64 data_key pepper =
    if is_empty data_key
    then err (bytes "LOXTU_DATA_KEY is required (base64-encoded 32-byte AES-256 key)")
    else config_of_key (base64.decode data_key) pepper

-- ===== src/Security/Crypto.antt =====
-- internal/security/crypto.go: the envelope of keys, and what is encrypted under them. AES-GCM,
-- base64 and Argon2id are parameters, and the result of each random read is an argument.
pub mod RoundTrip
pub mod Toy
pub mod Tests
use loxtu_go.Base.{
  ℕ, ◌==◌, Bool, true, false, Option, none, some, [], Str, bytes, ◌++◌, is_empty, length, take,
  drop, ltb, if◌then◌else◌,
}
use loxtu_go.Base.Result.{Result, ok, err, panics, ◌>>=◌}
use loxtu_go.Base.Strings.{hex_encode, to_lower, trim_space}

-- The error of NewCipher and NewGCM for a key, if there is one, and Seal and Open of GCM, `none`
-- where Open fails.
pub record Gcm : Type 0 where
  pub key_error : Str → Option Str
  pub seal : Str → Str → Str → Str
  pub unseal : Str → Str → Str → Option Str

-- base64.StdEncoding
pub record Base64 : Type 0 where
  pub encode : Str → Str
  pub decode : Str → Option Str

abbrev pub nonce_size : ℕ
nonce_size = 12

pub hash_email : (Str → Str) → Str → Str → Str
hash_email sha256 email pepper = hex_encode (sha256 (to_lower (trim_space email) ++ pepper))

pub generate_dek : Result Str → Result Str
generate_dek (ok b) = ok b
generate_dek (err e) = err (bytes "generate DEK: " ++ e)
generate_dek panics = panics

pub generate_salt : Result Str → Result Str
generate_salt (ok b) = ok b
generate_salt (err e) = err (bytes "generate salt: " ++ e)
generate_salt panics = panics

-- Argon2id with its parameters fixed.
pub hash_pin : Base64 → (Str → Str → Str) → Str → Str → Str
hash_pin base64 argon2id pin salt = base64.encode (argon2id pin salt)

-- The text of an error of Open is fixed in Go.
pub opened : Option Str → Result Str
opened none = err (bytes "gcm.Open: cipher: message authentication failed")
opened (some plaintext) = ok plaintext

-- The texts of the two errors end with the cause and the length, which are left out.
pub decoded_dek : Option Str → Result Str
decoded_dek none = err (bytes "decode DEK base64")
decoded_dek (some dek) = if length dek == 32 then ok dek else err (bytes "invalid DEK length")

module _ (gcm : Gcm) where
  pub check_key : Str → Result Str
  check_key dek =
      if is_empty dek
      then err (bytes "empty DEK")
      else elim (gcm.key_error dek) [ none ↦ ok dek | some e ↦ err e ]

  pub seal_with : Str → Str → Result Str → Result Str
  seal_with plaintext dek (ok nonce) = ok (nonce ++ gcm.seal dek nonce plaintext)
  seal_with plaintext dek (err e) = err (bytes "generate nonce: " ++ e)
  seal_with plaintext dek panics = panics

  pub encrypt_pii : Str → Str → Result Str → Result Str
  encrypt_pii plaintext dek random = check_key dek >>= λ key. seal_with plaintext key random

  pub open_with : Str → Str → Result Str
  open_with ciphertext dek =
      if ltb (length ciphertext) nonce_size
      then err (bytes "ciphertext too short")
      else opened (gcm.unseal dek (take nonce_size ciphertext) (drop nonce_size ciphertext))

  pub decrypt_pii : Str → Str → Result Str
  decrypt_pii ciphertext dek = check_key dek >>= λ key. open_with ciphertext key

module _ (gcm : Gcm) (base64 : Base64) where
  pub encrypt_dek : Str → Str → Result Str → Result Str
  encrypt_dek dek kek random = encrypt_pii gcm (base64.encode dek) kek random

  pub dek_of : Result Str → Result Str
  dek_of (ok b64) = decoded_dek (base64.decode b64)
  dek_of (err e) = err (bytes "decrypt DEK: " ++ e)
  dek_of panics = panics

  pub decrypt_dek : Str → Str → Result Str
  decrypt_dek encrypted_dek kek = dek_of (decrypt_pii gcm encrypted_dek kek)

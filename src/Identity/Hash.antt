-- ===== src/Identity/Hash.antt =====
-- The hashes of internal/core/identity: hexadecimal SHA-256, which is a parameter.
use loxtu_go.Base.{◌++◌, Str}
use loxtu_go.Base.Strings.{hex_encode, trim_space, to_lower}

module _ (sha256 : Str → Str) where
  unfoldable pub sha256_hex : Str → Str
  sha256_hex s = hex_encode (sha256 s)

  unfoldable pub hash_token : Str → Str
  hash_token s = hex_encode (sha256 s)

  unfoldable pub email_hash : Str → Str
  email_hash email = hex_encode (sha256 (to_lower (trim_space email)))

  unfoldable pub email_hash_with_pepper : Str → Str → Str
  email_hash_with_pepper email pepper = hex_encode (sha256 (to_lower (trim_space email) ++ pepper))

-- ===== src/Security/Crypto/Toy.antt =====
-- A toy cipher, which seals a text as it is, for internal/security/crypto.go.
use loxtu_go.Base.{none, some, Str, replicate, refl}
use loxtu_go.Security.Crypto.{Gcm, Base64}
use loxtu_go.Security.Crypto.RoundTrip.{IsGcm}

abbrev pub toy_gcm : Gcm
toy_gcm = record {
  key_error = λ key. none;
  seal = λ key nonce plaintext. plaintext;
  unseal = λ key nonce sealed. some sealed;
}

pub toy_gcm-IsGcm : IsGcm toy_gcm
toy_gcm-IsGcm = record { key_of_32 = λ key e. refl; unseal-seal = λ key nonce plaintext e. refl }

abbrev pub plain : Base64
plain = record { encode = λ s. s; decode = λ s. some s }

abbrev pub a_key : Str
a_key = replicate 32 7

abbrev pub a_nonce : Str
a_nonce = replicate 12 1

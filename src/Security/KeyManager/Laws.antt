-- ===== src/Security/KeyManager/Laws.antt =====
-- internal/security/keymanager.go and internal/config/security.go: keys that are read back, and the
-- two readers of the environment.
use mathlib.Core.Path.{ap₂}
use loxtu_go.Base.{
  ◌≡◌, ◌≢◌, ◌↔◌, refl, ap, ◌∙◌, sym, inl, inr, true, Option, none, some, [], ◌∷◌, Str, ◌++◌, ◌==◌,
  length, Bool-cases, arith,
}
use loxtu_go.Base.Result.{ok}
use loxtu_go.Security.Crypto.{Gcm, Base64, nonce_size}
use loxtu_go.Security.Crypto.RoundTrip.{IsGcm, encrypt_pii-ok, decrypt_pii-seal, generate_dek-ok}
use loxtu_go.Security.KeyManager.{
  EnvKeyManager, checked_kek, new_env_key_manager, encrypt_dek_with_kek, checked_dek, decoded,
  decrypt_dek_with_kek, encrypt_dek, decrypt_dek, wrapped, encrypt_generated,
  generate_and_encrypt_dek, SecurityConfig, with_pepper, config_of_key, security_from_env,
}

ok_injective : {A : Type 0} (a b : A) → ok a ≡ ok b → a ≡ b
ok_injective a b e = cc

checked_kek-ok :
    (o : Option Str) (m : EnvKeyManager)
    → checked_kek o ≡ ok m
    → (o ≡ some m.kek) × (length m.kek ≡ 32)
unfolding checked_kek
checked_kek-ok none m e = absurd cc
checked_kek-ok (some kek) m e = elim (Bool-cases (length kek == 32)) [
  | inl t ↦
      let made : record { kek = kek } ≡ m = ok_injective _ m (rw t at e) in
      let same : kek ≡ m.kek = ap (λ x. x.kek) made in
      (ap some same, ap length (sym same) ∙ ground (arith, t))
  | inr f ↦ absurd (cc (rw f at e))
]

new_env_key_manager-ok :
    (base64 : Base64) (data_key : Str) (m : EnvKeyManager)
    → new_env_key_manager base64 data_key ≡ ok m
    → (data_key ≢ []) × (base64.decode data_key ≡ some m.kek) × (length m.kek ≡ 32)
unfolding new_env_key_manager
new_env_key_manager-ok base64 [] m e = absurd cc
new_env_key_manager-ok base64 (c ∷ cs) m e =
    let (found, long) = checked_kek-ok (base64.decode (c ∷ cs)) m e in ((λ q. cc), found, long)

-- A data key that a key manager generates is read back: for a manager that was made from the
-- environment, 32 random bytes and a nonce of twelve, generating succeeds with those bytes as the
-- data key, and decrypting what it gives for storage gives them back. Open undoes Seal, and base64 is
-- undone by its decoder.
pub generated_key_opens :
    (gcm : Gcm) (base64 : Base64) (data_key : Str) (m : EnvKeyManager) (random nonce : Str)
    → IsGcm gcm
    → ((s : Str) → base64.decode (base64.encode s) ≡ some s)
    → new_env_key_manager base64 data_key ≡ ok m
    → length random ≡ 32
    → length nonce ≡ nonce_size
    → (encrypted : Str) × (generate_and_encrypt_dek gcm base64 m (ok random) (ok nonce)
        ≡ ok (random, encrypted))
      × (decrypt_dek gcm base64 m encrypted ≡ ok random)
unfolding generate_and_encrypt_dek encrypt_generated wrapped encrypt_dek encrypt_dek_with_kek
    decrypt_dek decrypt_dek_with_kek decoded checked_dek
generated_key_opens gcm base64 data_key m random nonce laws decodes made long short =
    let k = (new_env_key_manager-ok base64 data_key m made).2 in
    let encoded = base64.encode random in
    let known : (length random == 32) ≡ true = ground arith in
    (
      nonce ++ gcm.seal m.kek nonce encoded,
      rw (generate_dek-ok random, encrypt_pii-ok gcm laws encoded m.kek nonce k) refl,
      rw (decrypt_pii-seal gcm laws encoded m.kek nonce k short, decodes random, known) refl,
    )

with_pepper_iff :
    (kek pepper : Str) (c : SecurityConfig)
    → (with_pepper kek pepper ≡ ok c) ↔ ((kek ≡ c.kek) × (pepper ≡ c.hash_pepper) × (pepper ≢ []))
unfolding with_pepper
with_pepper_iff kek [] c = ((λ e. absurd cc), λ q. absurd (q.2 refl))
with_pepper_iff kek (p ∷ ps) c = (
  (λ e.
      let made = ok_injective _ c e in
      (ap (λ x. x.kek) made, ap (λ x. x.hash_pepper) made, λ q. cc)),
  (λ q. ap₂ (λ a b. ok (record { kek = a; hash_pepper = b })) q.0 q.1),
)

config_of_key_iff :
    (o : Option Str) (pepper : Str) (c : SecurityConfig)
    → (config_of_key o pepper ≡ ok c)
      ↔ ((checked_kek o ≡ ok (record { kek = c.kek })) × (pepper ≡ c.hash_pepper) × (pepper ≢ []))
unfolding config_of_key checked_kek
config_of_key_iff none pepper c = ((λ e. absurd cc), λ q. absurd (cc (q.0)))
config_of_key_iff (some kek) pepper c = elim (Bool-cases (length kek == 32)) [
  | inr f ↦ rw f ((λ e. absurd cc), λ q. absurd (cc (q.0)))
  | inl t ↦
      let (there, back) = with_pepper_iff kek pepper c in
      rw t (
        (λ e. let q = there e in (ap (λ k. ok (record { kek = k })) q.0, q.1, q.2)),
        (λ q. back (
          ap (λ x. x.kek) (ok_injective (record { kek = kek }) (record { kek = c.kek }) q.0),
          q.1,
          q.2,
        )),
      )
]

-- The two readers of the environment agree: SecurityFromEnv succeeds with a key and a pepper exactly
-- if NewEnvKeyManager succeeds with the same key and the pepper is the variable's and not empty.
pub security_from_env_iff :
    (base64 : Base64) (data_key pepper : Str) (c : SecurityConfig)
    → (security_from_env base64 data_key pepper ≡ ok c) ↔ (
        (new_env_key_manager base64 data_key ≡ ok (record { kek = c.kek }))
        × (pepper ≡ c.hash_pepper)
        × (pepper ≢ []))
unfolding security_from_env new_env_key_manager
security_from_env_iff base64 [] pepper c = ((λ e. absurd cc), λ q. absurd (cc (q.0)))
security_from_env_iff base64 (b ∷ bs) pepper c = config_of_key_iff (base64.decode (b ∷ bs)) pepper c

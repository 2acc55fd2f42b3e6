-- ===== src/Security/Crypto/RoundTrip.antt =====
-- What is encrypted by internal/security/crypto.go comes back.
use loxtu_go.Base.{
  ◌≡◌, refl, sym, ap, ◌∙◌, true, false, none, some, [], ◌∷◌, Str, ◌++◌, is_empty, length, take,
  drop, length-append, take-append, drop-append, ltb, ◌==◌, arith,
}
use loxtu_go.Base.Result.{ok}
use loxtu_go.Identity.User.{User, decrypt_email}
use loxtu_go.Identity.User.Decrypt.{decrypt_email-wired}
use loxtu_go.Security.Crypto.{
  Gcm, Base64, nonce_size, check_key, seal_with, encrypt_pii, opened, open_with, decrypt_pii,
  generate_dek, encrypt_dek, decoded_dek, dek_of, decrypt_dek,
}

-- Open undoes Seal under a key that is accepted, and a key of 32 bytes is.
pub record IsGcm (gcm : Gcm) : Type 0 where
  pub key_of_32 : (key : Str) → length key ≡ 32 → gcm.key_error key ≡ none
  pub unseal-seal :
      (key nonce plaintext : Str)
      → gcm.key_error key ≡ none
      → gcm.unseal key nonce (gcm.seal key nonce plaintext) ≡ some plaintext

pub generate_dek-ok : (b : Str) → generate_dek (ok b) ≡ ok b
unfolding generate_dek
generate_dek-ok b = refl

module _ (gcm : Gcm) (gcm_laws : IsGcm gcm) where
  pub check_key_32 : (key : Str) → length key ≡ 32 → check_key gcm key ≡ ok key
  unfolding check_key
  check_key_32 [] e = absurd (omega arith)
  check_key_32 (c ∷ key) e = rw (gcm_laws.key_of_32 (c ∷ key) e, check_key) refl

  pub encrypt_pii-ok :
      (plaintext key nonce : Str)
      → length key ≡ 32
      → encrypt_pii gcm plaintext key (ok nonce) ≡ ok (nonce ++ gcm.seal key nonce plaintext)
  unfolding encrypt_pii seal_with
  encrypt_pii-ok plaintext key nonce e = rw (check_key_32 key e) refl

  open_with-seal :
      (plaintext key nonce : Str)
      → length key ≡ 32
      → length nonce ≡ nonce_size
      → open_with gcm (nonce ++ gcm.seal key nonce plaintext) key ≡ ok plaintext
  unfolding open_with opened
  open_with-seal plaintext key nonce e n =
      let sealed = gcm.seal key nonce plaintext in
      let long : ltb (length (nonce ++ sealed)) nonce_size ≡ false =
        ground (arith, length-append nonce sealed, n) in
      let head : take nonce_size (nonce ++ sealed) ≡ nonce =
        ap (λ k. take k (nonce ++ sealed)) (sym n) ∙ take-append nonce sealed in
      let rest : drop nonce_size (nonce ++ sealed) ≡ sealed =
        ap (λ k. drop k (nonce ++ sealed)) (sym n) ∙ drop-append nonce sealed in
      let back : gcm.unseal key (take nonce_size (nonce ++ sealed))
            (drop nonce_size (nonce ++ sealed))
          ≡ some plaintext =
        rw (head, rest) (gcm_laws.unseal-seal key nonce plaintext (gcm_laws.key_of_32 key e)) in
      rw (long, back) refl

  pub decrypt_pii-seal :
      (plaintext key nonce : Str)
      → length key ≡ 32
      → length nonce ≡ nonce_size
      → decrypt_pii gcm (nonce ++ gcm.seal key nonce plaintext) key ≡ ok plaintext
  unfolding decrypt_pii
  decrypt_pii-seal plaintext key nonce e n =
      rw (check_key_32 key e) (open_with-seal plaintext key nonce e n)

  not_empty : (s rest : Str) → length s ≡ nonce_size → is_empty (s ++ rest) ≡ false
  not_empty [] rest e = absurd (omega arith)
  not_empty (c ∷ s) rest e = refl

  -- A personal datum is read back through its envelope. When Open undoes Seal and base64 is undone
  -- by its decoder, for a data key and a key for keys of 32 bytes and two nonces of twelve bytes,
  -- the encryption of the data key and that of an address under it succeed; the first gives the data
  -- key back, and a user whose address is stored as the second reads the address with it.
  pub envelope_opens :
      (base64 : Base64) (u : User) (email dek kek dek_nonce nonce : Str)
      → ((s : Str) → base64.decode (base64.encode s) ≡ some s)
      → length dek ≡ 32
      → length kek ≡ 32
      → length dek_nonce ≡ nonce_size
      → length nonce ≡ nonce_size
      → (encrypted_dek : Str) × (ciphertext : Str) × (encrypt_dek gcm base64 dek kek (ok dek_nonce)
          ≡ ok encrypted_dek)
        × (encrypt_pii gcm email dek (ok nonce) ≡ ok ciphertext)
        × (decrypt_dek gcm base64 encrypted_dek kek ≡ ok dek)
        × (decrypt_email (some (decrypt_pii gcm)) (record u { email_ciphertext = ciphertext }) dek
            ≡ ok email)
  unfolding encrypt_dek decrypt_dek dek_of decoded_dek
  envelope_opens base64 u email dek kek dek_nonce nonce decodes d k dn n =
      let encoded = base64.encode dek in
      let stored = dek_nonce ++ gcm.seal kek dek_nonce encoded in
      let ciphertext = nonce ++ gcm.seal dek nonce email in
      let known : (length dek == 32) ≡ true = ground arith in
      (
        stored,
        ciphertext,
        encrypt_pii-ok encoded kek dek_nonce k,
        encrypt_pii-ok email dek nonce d,
        rw (decrypt_pii-seal encoded kek dek_nonce k dn, decodes dek, known) refl,
        decrypt_email-wired (decrypt_pii gcm) (record u { email_ciphertext = ciphertext }) dek
              (not_empty nonce (gcm.seal dek nonce email) n)
            ∙ decrypt_pii-seal email dek nonce d n,
      )

-- ===== src/Identity/Session/Laws.antt =====
-- The life of an access token: internal/core/identity/session.go.
use loxtu_go.Base.{
  ℕ, ◌+◌, ◌*◌, ◌/◌, ◌≤◌, ◌<◌, true, List, [], ◌∷◌, Str, bytes, ◌≡◌, ◌≢◌, refl, Option, none, some,
  Bool-cases, ltb, ltb→lt, inl, inr, arith, if◌then◌else◌,
}
use loxtu_go.Base.Clock.{second}
use loxtu_go.Base.Result.{Result, ok, err, panics}
use loxtu_go.Base.Strings.{hex_encode}
use loxtu_go.Identity.Hash.{sha256_hex}
use loxtu_go.Identity.Session.{
  Jwt, IsJwt, AccessClaims, Call, signing_key, key_for_method, checked_claims, access_claims,
  issue_access_token, validate_access_token,
}

signing_key_set : (secret : Str) → secret ≢ [] → signing_key secret ≡ ok secret
unfolding signing_key
signing_key_set [] h = absurd (h refl)
signing_key_set (c ∷ secret) h = refl

key_for_method_set :
    (secret : Str) → secret ≢ [] → key_for_method secret true (bytes "HS256") ≡ ok secret
unfolding key_for_method
key_for_method_set secret h = signing_key_set secret h

-- The value of a call that succeeds.
abbrev pub accepted {ℓ} : {A : Type ℓ} → Result A → Option A
accepted (ok a) = some a
accepted (err e) = none
accepted panics = none

-- The claims, as long as they are in time.
abbrev pub in_time : ℕ → AccessClaims → Option AccessClaims
in_time now claims = if ltb now (claims.expires_at * second) then some claims else none

module _ (jwt : Jwt) (jwt_laws : IsJwt jwt) where
  issued_early :
      (claims : AccessClaims) (secret raw : Str) (now : ℕ)
      → secret ≢ []
      → jwt.sign secret claims ≡ ok raw
      → now < claims.expires_at * second
      → accepted (validate_access_token jwt secret now raw) ≡ some claims
  unfolding validate_access_token checked_claims
  issued_early claims secret raw now h signed early =
      let e : jwt.parse (key_for_method secret) now raw ≡ ok (claims, true) =
        jwt_laws.parse-sign secret (key_for_method secret) claims raw now signed
          (key_for_method_set secret h) early in
      rw e

  issued_late :
      (claims : AccessClaims) (secret raw : Str) (now : ℕ)
      → secret ≢ []
      → jwt.sign secret claims ≡ ok raw
      → claims.expires_at * second ≤ now
      → accepted (validate_access_token jwt secret now raw) ≡ none
  unfolding validate_access_token checked_claims
  issued_late claims secret raw now h signed late =
      let (text, e) =
        jwt_laws.parse_expired secret (key_for_method secret) claims raw now signed
          (key_for_method_set secret h) late in
      rw e

  issued_lives :
      (claims : AccessClaims) (secret raw : Str) (now : ℕ)
      → secret ≢ []
      → jwt.sign secret claims ≡ ok raw
      → accepted (validate_access_token jwt secret now raw) ≡ in_time now claims
  issued_lives claims secret raw now h signed =
      elim (Bool-cases (ltb now (claims.expires_at * second))) [
        | inl t ↦ rw t (issued_early claims secret raw now h signed (ltb→lt _ _ t))
        | inr f ↦
            let late : claims.expires_at * second ≤ now = ground arith in
            rw f (issued_late claims secret raw now h signed late)
      ]

-- The claims of an identity: the subject is the hash of the user's identifier, and the token is good
-- from the second of its issue for as long as it is to live.
abbrev pub claims_of : (Str → Str) → Str → Str → Str → List Str → ℕ → ℕ → AccessClaims
claims_of sha256 user_id tenant_id role permissions ttl now = record {
  issuer = bytes "loxtu";
  subject = hex_encode (sha256 user_id);
  issued_at = now / second;
  expires_at = (now + ttl) / second;
  user_id_hash = hex_encode (sha256 user_id);
  tenant_id = tenant_id;
  role = role;
  permissions = permissions;
}

module _ (sha256 : Str → Str) (jwt : Jwt) (jwt_laws : IsJwt jwt) where
  -- With a secret in the environment, an access token is issued for every identity, over a library
  -- that signs under any key and checks what it has signed. Read at any moment, the token is accepted
  -- exactly if the second of its issue plus its lifetime has not begun, and then it bears the issuer
  -- "loxtu", the SHA-256 of the user's identifier in hexadecimal as the subject and as the hash of
  -- the user, the second of its issue, that of its end, and the tenant, role and permissions given.
  pub issue-validate :
      (user_id tenant_id role : Str) (permissions : List Str) (ttl now : ℕ) (call : Call)
      → call.secret ≢ []
      → (raw : Str) × (issue_access_token sha256 jwt user_id tenant_id role permissions ttl call
          ≡ ok raw)
        × (accepted (validate_access_token jwt call.secret now raw)
            ≡ in_time now (claims_of sha256 user_id tenant_id role permissions ttl call.now))
  unfolding issue_access_token access_claims sha256_hex
  issue-validate user_id tenant_id role permissions ttl now call h =
      let claims = access_claims sha256 user_id tenant_id role permissions ttl call.now in
      let (raw, e) = jwt_laws.sign_total call.secret claims in
      (
        raw,
        rw (signing_key_set call.secret h, e),
        issued_lives jwt jwt_laws claims call.secret raw now h e,
      )

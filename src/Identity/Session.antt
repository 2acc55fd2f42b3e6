-- ===== src/Identity/Session.antt =====
-- internal/core/identity/session.go: access tokens, refresh tokens and the pair of them. The JWT
-- library, SHA-256, the secret of the environment, the clock and the random draw are parameters.
pub mod Laws
pub mod Pair
pub mod Codec
pub mod Tests
use loxtu_go.Base.{
  ℕ, ◌+◌, ◌/◌, ◌*◌, ◌≤◌, ◌<◌, Bool, true, false, Option, none, some, List, Str, bytes, ◌≡◌, ◌++◌,
  is_empty, if◌then◌else◌,
}
use loxtu_go.Base.Clock.{second, minute, hour}
use loxtu_go.Base.Result.{Result, ok, err, panics, ◌>>=◌}
use loxtu_go.Base.Strings.{hex_encode}
use loxtu_go.Identity.Hash.{sha256_hex}

abbrev pub access_token_ttl : ℕ
access_token_ttl = 15 * minute

abbrev pub refresh_token_ttl : ℕ
refresh_token_ttl = 30 * (24 * hour)

-- The registered claims stand first; the two dates are in seconds.
pub record AccessClaims : Type 0 where
  pub issuer : Str
  pub subject : Str
  pub issued_at : ℕ
  pub expires_at : ℕ
  pub user_id_hash : Str
  pub tenant_id : Str
  pub role : Str
  pub permissions : List Str

pub record TokenPair : Type 0 where
  pub access_token : Str
  pub refresh_plain : Str
  pub refresh_hash : Str
  pub expires_at : ℕ

pub record Session : Type 0 where
  pub user_id : Str
  pub token_hash : Str
  pub expires_at : ℕ
  pub created_at : ℕ

-- `SignedString` of HS256 under a key, and `ParseWithClaims`, which asks the key function for the
-- key after telling it whether the token's method is HMAC, reads the clock, and returns the claims
-- and the `Valid` flag.
pub record Jwt : Type 0 where
  pub sign : Str → AccessClaims → Result Str
  pub parse : (Bool → Str → Result Str) → ℕ → Str → Result (AccessClaims × Bool)

-- What the library documents: HS256 signs under any key, and its tokens parse under the same key
-- until the second of `exp` begins and not later.
pub record IsJwt (jwt : Jwt) : Type 0 where
  pub sign_total : (key : Str) (c : AccessClaims) → (raw : Str) × (jwt.sign key c ≡ ok raw)
  pub parse-sign :
      (key : Str) (f : Bool → Str → Result Str) (c : AccessClaims) (raw : Str) (now : ℕ)
      → jwt.sign key c ≡ ok raw
      → f true (bytes "HS256") ≡ ok key
      → now < c.expires_at * second
      → jwt.parse f now raw ≡ ok (c, true)
  pub parse_expired :
      (key : Str) (f : Bool → Str → Result Str) (c : AccessClaims) (raw : Str) (now : ℕ)
      → jwt.sign key c ≡ ok raw
      → f true (bytes "HS256") ≡ ok key
      → c.expires_at * second ≤ now
      → (e : Str) × (jwt.parse f now raw ≡ err e)

-- What a call finds around it: the environment's secret, the clock and the result of
-- `rand.Read`. One call reads the clock at one moment.
pub record Call : Type 0 where
  pub secret : Str
  pub now : ℕ
  pub random : Result Str

unfoldable pub signing_key : Str → Result Str
signing_key secret = if is_empty secret then panics else ok secret

pub key_for_method : Str → Bool → Str → Result Str
key_for_method secret true alg = signing_key secret
key_for_method secret false alg = err (bytes "unexpected signing method: " ++ alg)

unfoldable pub checked_claims : AccessClaims × Bool → Result AccessClaims
checked_claims (claims, true) = ok claims
checked_claims (claims, false) = err (bytes "invalid token")

-- The error that `fmt.Errorf("…: %w", err)` makes of an error.
unfoldable pub wrap : Str → Result Str → Result Str
wrap text (err e) = err (text ++ e)
wrap text (ok a) = ok a
wrap text panics = panics

module _ (jwt : Jwt) where
  unfoldable pub validate_access_token : Str → ℕ → Str → Result AccessClaims
  validate_access_token secret now raw =
      jwt.parse (key_for_method secret) now raw >>= checked_claims

abbrev pub token_pair : ℕ → Str → Str × Str → TokenPair
token_pair now access (plain, hash) = record {
  access_token = access;
  refresh_plain = plain;
  refresh_hash = hash;
  expires_at = now + refresh_token_ttl;
}

module _ (sha256 : Str → Str) where
  unfoldable pub access_claims : Str → Str → Str → List Str → ℕ → ℕ → AccessClaims
  access_claims user_id tenant_id role permissions ttl now = record {
    issuer = bytes "loxtu";
    subject = sha256_hex sha256 user_id;
    issued_at = now / second;
    expires_at = (now + ttl) / second;
    user_id_hash = sha256_hex sha256 user_id;
    tenant_id = tenant_id;
    role = role;
    permissions = permissions;
  }

  -- The plain token and its hash.
  unfoldable pub issue_refresh_token : Result Str → Result (Str × Str)
  issue_refresh_token (err e) = err e
  issue_refresh_token panics = panics
  issue_refresh_token (ok b) = ok (hex_encode b, hex_encode (sha256 (hex_encode b)))

module _ (sha256 : Str → Str) (jwt : Jwt) where
  unfoldable pub issue_access_token : Str → Str → Str → List Str → ℕ → Call → Result Str
  issue_access_token user_id tenant_id role permissions ttl call =
      signing_key call.secret >>= λ key.
      jwt.sign key (access_claims sha256 user_id tenant_id role permissions ttl call.now)

  unfoldable pub issue_tokens : Str → Str → Str → List Str → ℕ → Call → Result TokenPair
  issue_tokens user_id tenant_id role permissions ttl call =
      wrap (bytes "access token: ") (issue_access_token user_id tenant_id role permissions ttl call)
      >>= λ access. elim (issue_refresh_token sha256 call.random) [
        | ok fresh ↦ ok (token_pair call.now access fresh)
        | err e ↦ err (bytes "refresh token: " ++ e)
        | panics ↦ panics
      ]

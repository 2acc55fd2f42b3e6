-- ===== src/Handlers/Guard/Tests.antt =====
-- Requests at the guard.
use loxtu_go.Base.{
  ℕ, ◌+◌, ◌*◌, ◌/◌, ltb, if◌then◌else◌, true, false, Option, none, some, [], ◌∷◌, Str, bytes,
  str_eq, has_prefix, ◌≡◌, ◌≢◌, refl,
}
use loxtu_go.Base.Clock.{second}
use loxtu_go.Base.Map
use loxtu_go.Base.Strings.{has_suffix}
use loxtu_go.Base.Result.{ok}
use loxtu_go.Identity.Ports.{UserStore}
use loxtu_go.Identity.Session.{
  Jwt, AccessClaims, Call, access_token_ttl, issue_access_token, validate_access_token,
  checked_claims,
}
use loxtu_go.Identity.Session.Codec.{toy_jwt, toy_jwt-IsJwt}
use loxtu_go.Identity.Session.Laws.{issue-validate}
use loxtu_go.Identity.User.{User, zero_user}
use loxtu_go.Handlers.Guard.{
  AuthContext, admitted, guard, guard_cookie, admit, is_mismatch, context_of, raw_user_id,
  is_public_path, opens, public_paths,
}
use loxtu_go.Handlers.Guard.Laws.{
  IsSameTenant, context_given, context_for, guard_sound, guard-issue,
}
use loxtu_go.Middleware.Request.{Request, cookie}

abbrev request : Str → Request
request token = record {
  method = bytes "GET";
  path = bytes "/dashboard";
  remote_addr = [];
  is_tls = true;
  headers = [];
  query = [];
  form = [];
  cookies = (bytes "loxtu_access", token) ∷ [];
}

closed : is_public_path (bytes "/dashboard") ≡ false
unfolding is_public_path opens has_suffix public_paths bytes str_eq has_prefix
closed = refl

sent : (token : Str) → cookie (request token) (bytes "loxtu_access") ≡ some token
unfolding cookie Map.lookup str_eq bytes
sent token = refl

abbrev a_claims : AccessClaims
a_claims = record {
  issuer = [];
  subject = 7 ∷ [];
  issued_at = 0;
  expires_at = 9;
  user_id_hash = 7 ∷ [];
  tenant_id = 5 ∷ [];
  role = [];
  permissions = [];
}

abbrev lax_jwt : Jwt
lax_jwt = record { sign = λ key c. ok []; parse = λ f now raw. ok (a_claims, true) }

abbrev no_users : Option (UserStore ℕ)
no_users = none

abbrev a_context : AuthContext
a_context = record { tenant_id = 5 ∷ []; user_id_hash = 7 ∷ []; user_id = 7 ∷ []; role = [] }

passes : guard lax_jwt no_users [] 0 [] 0 (request (3 ∷ [])) ≡ admitted a_context
unfolding guard guard_cookie admit is_mismatch context_of raw_user_id is_public_path opens
    has_suffix public_paths cookie Map.lookup str_eq bytes has_prefix validate_access_token
    checked_claims
passes = refl

guard_sound_example :
    (is_public_path (request (3 ∷ [])).path ≡ false)
    × (token : Str) × (claims : AccessClaims) × (cookie (request (3 ∷ [])) (bytes "loxtu_access")
        ≡ some token)
    × (validate_access_token lax_jwt [] 0 token ≡ ok claims)
    × (a_context ≡ context_of no_users 0 [] claims)
    × IsSameTenant claims.tenant_id []
guard_sound_example = guard_sound lax_jwt no_users [] 0 [] 0 (request (3 ∷ [])) a_context passes

abbrev toy_hash : Str → Str
toy_hash s = 7 ∷ s

abbrev a_call : Call
a_call = record { secret = 9 ∷ []; now = 100 * second; random = ok [] }

secret_set : a_call.secret ≢ []
secret_set e = cc

abbrev issued :
    (raw : Str) × (issue_access_token toy_hash toy_jwt
        (1 ∷ [])
        (5 ∷ [])
        []
        []
        access_token_ttl
        a_call
      ≡ ok raw)
issued =
    let (raw, e, _) =
      issue-validate toy_hash toy_jwt toy_jwt-IsJwt (1 ∷ []) (5 ∷ []) [] [] access_token_ttl 0
        a_call secret_set in
    (raw, e)

abbrev known_user : User
known_user = record zero_user { user_id = bytes "u1" }

abbrev one_user : UserStore ℕ
one_user = record {
  create = λ u w. (w, some u);
  find_by_user_id = λ id w. some known_user;
  find_by_email_hash = λ h w. some known_user;
  find_by_user_id_hash = λ h w. some known_user;
  update = λ u w. (w, true);
  erase = λ id w. (w, true);
}

named : known_user.user_id ≢ []
unfolding bytes
named e = cc

guard-issue_example :
    context_given (guard toy_jwt (some one_user) (9 ∷ []) (200 * second) [] 0 (request issued.0))
    ≡ (if ltb (200 * second) ((100 * second + access_token_ttl) / second * second)
        then some (context_for toy_hash (1 ∷ []) (5 ∷ []) [] known_user)
        else none)
guard-issue_example =
    guard-issue toy_hash toy_jwt toy_jwt-IsJwt one_user (1 ∷ []) (5 ∷ []) [] [] access_token_ttl
      (200 * second) a_call issued.0 0 (request issued.0) known_user secret_set issued.1 closed
      (sent issued.0) refl named (λ e. cc) (λ e. cc)

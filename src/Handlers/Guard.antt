-- ===== src/Handlers/Guard.antt =====
-- internal/interfaces/http/handlers/auth_guard.go: which requests need an access token, and what the
-- handlers behind the guard read from the context. The tenant that an outer middleware may have put
-- into the context is an argument.
pub mod Laws
pub mod Tests
use loxtu_go.Base.{
  ℕ, ◌-◌, Bool, true, false, Option, none, some, List, [], ◌∷◌, Str, bytes, str_eq, has_prefix, any,
  not, is_empty, leb, length, drop, ◌&&◌, ◌||◌, if◌then◌else◌,
}
use loxtu_go.Base.Strings.{has_suffix}
use loxtu_go.Base.Result.{Result, ok, err, panics}
use loxtu_go.Identity.Ports.{UserStore}
use loxtu_go.Identity.Session.{Jwt, AccessClaims, validate_access_token}
use loxtu_go.Identity.User.{User}
use loxtu_go.Middleware.Request.{Request, header, cookie}

pub public_paths : List Str
public_paths =
    bytes "/health"
    ∷ bytes "/auth/otp/send"
    ∷ bytes "/auth/otp/verify"
    ∷ bytes "/auth/passkey/login/begin"
    ∷ bytes "/auth/passkey/login/finish"
    ∷ bytes "/auth/passkey/begin"
    ∷ bytes "/auth/passkey/finish"
    ∷ bytes "/auth/passkey/skip"
    ∷ bytes "/auth/passkey/register"
    ∷ bytes "/auth/refresh"
    ∷ bytes "/auth/logout"
    ∷ bytes "/auth/consent"
    ∷ bytes "/static/"
    ∷ []

pub opens : Str → Str → Bool
opens path p = str_eq p path || (has_suffix p (bytes "/") && has_prefix path p)

pub is_public_path : Str → Bool
is_public_path path = any (opens path) public_paths || str_eq path (bytes "/")

-- What the guard puts into the context.
pub record AuthContext : Type 0 where
  pub tenant_id : Str
  pub user_id_hash : Str
  pub user_id : Str
  pub role : Str

-- The request goes on as it is, or with the context and the headers against caches; or it is
-- answered: 401 with HX-Redirect or a redirect to "/", or 403.
pub data Guarded : Type 0 where
  open_path : Guarded
  admitted : AuthContext → Guarded
  hx_unauthorized : Guarded
  redirected : Guarded
  forbidden : Guarded
  panicked : Guarded

pub unauthorized : Request → Guarded
unauthorized r =
    if str_eq (header r (bytes "HX-Request")) (bytes "true") then hx_unauthorized else redirected

pub is_mismatch : Str → Str → Bool
is_mismatch tenant_id router_tenant =
    not (is_empty tenant_id) && not (is_empty router_tenant) && not (str_eq tenant_id router_tenant)

-- The identifier of the user who was found, or the fallback.
pub user_id_or : Str → Option User → Str
user_id_or fallback none = fallback
user_id_or fallback (some u) = if is_empty u.user_id then fallback else u.user_id

pub raw_user_id : {W : Type 0} → Option (UserStore W) → W → AccessClaims → Str
raw_user_id none w claims = claims.subject
raw_user_id (some users) w claims =
    if is_empty claims.user_id_hash
    then claims.subject
    else user_id_or claims.subject (users.find_by_user_id_hash claims.user_id_hash w)

-- A value that the guard does not set is the outer one, and empty for the hash.
pub context_of : {W : Type 0} → Option (UserStore W) → W → Str → AccessClaims → AuthContext
context_of users w router_tenant claims = record {
  tenant_id = if is_empty claims.tenant_id then router_tenant else claims.tenant_id;
  user_id_hash = claims.user_id_hash;
  user_id = raw_user_id users w claims;
  role = claims.role;
}

module _ (jwt : Jwt) {W : Type 0} (users : Option (UserStore W)) where
  pub admit : Str → W → Request → Result AccessClaims → Guarded
  admit router_tenant w r (ok claims) =
      if is_mismatch claims.tenant_id router_tenant
      then forbidden
      else admitted (context_of users w router_tenant claims)
  admit router_tenant w r (err e) = unauthorized r
  admit router_tenant w r panics = panicked

  pub guard_cookie : Str → ℕ → Str → W → Request → Option Str → Guarded
  guard_cookie secret now router_tenant w r none = unauthorized r
  guard_cookie secret now router_tenant w r (some token) =
      admit router_tenant w r (validate_access_token jwt secret now token)

  pub guard : Str → ℕ → Str → W → Request → Guarded
  guard secret now router_tenant w r =
      if is_public_path r.path
      then open_path
      else guard_cookie secret now router_tenant w r (cookie r (bytes "loxtu_access"))

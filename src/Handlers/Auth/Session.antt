-- ===== src/Handlers/Auth/Session.antt =====
-- internal/interfaces/http/handlers/auth_handler.go: Refresh and Logout. `ParseUnverified` of the JWT
-- library is an argument.
pub mod Replay
use loxtu_go.Base.{
  Bool, true, false, Option, none, some, [], Str, bytes, str_eq, is_empty, if◌then◌else◌,
}
use loxtu_go.Base.Result.{Result, ok, err, panics}
use loxtu_go.Handlers.Auth.{
  AuthHandler, Server, Post, Page, unauthorized, home, no_content, panicked, set_pair, cleared,
  Answer, show, event, log_security,
}
use loxtu_go.Identity.Ports.{UserStore}
use loxtu_go.Identity.Session.{Jwt, AccessClaims, TokenPair, Call}
use loxtu_go.Identity.Token.{rotate, revoke_all_for_user}
use loxtu_go.Identity.User.{User}
use loxtu_go.Middleware.Request.{Request, header, cookie}

-- The identifier of a user who is found, and the empty text otherwise.
pub id_or_empty : Option User → Str
id_or_empty none = []
id_or_empty (some u) = u.user_id

-- The subject and the tenant of the claims, as `Logout` reads them from the access token.
pub named_by : Option AccessClaims → Str × Str
named_by none = ([], bytes "public")
named_by (some c) = (c.subject, if is_empty c.tenant_id then bytes "public" else c.tenant_id)

pub claims_of : (Str → Option AccessClaims) → Option Str → Option AccessClaims
claims_of parse_unverified none = none
claims_of parse_unverified (some raw) = parse_unverified raw

pub refreshed : Result TokenPair → Answer
refreshed (ok pair) = record { page = no_content; cookies = set_pair pair }
refreshed (err e) = show unauthorized
refreshed panics = show panicked

module _ (sha256 : Str → Str) (jwt : Jwt) {S W : Type 0} (h : AuthHandler W) where
  pub rotated : Server S W → W × Result TokenPair → Server S W × Answer
  rotated s (w, r) = (record s { world = w }, refreshed r)

  pub refresh_with : Call → Server S W → Option Str → Server S W × Answer
  refresh_with call s none = (s, show unauthorized)
  refresh_with call s (some plain) = rotated s (rotate sha256 jwt h.tokens plain call s.world)

  pub refresh : Post → Call → Server S W → Server S W × Answer
  refresh post call s = refresh_with call s (cookie post.request (bytes "loxtu_refresh"))

module _ {W : Type 0} (h : AuthHandler W) where
  -- The event names the user by the hash.
  pub revoked : Post → Str → Str → W × Bool → W
  revoked post user_id_hash tenant_id (w, true) =
      log_security h.audit
        (event post user_id_hash tenant_id [] (bytes "auth.logout") (bytes "success")) w
  revoked post user_id_hash tenant_id (w, false) = w

  pub revoke_for : Post → Str → Str → Str → W → W
  revoke_for post user_id_hash tenant_id user_id w =
      if is_empty user_id
      then w
      else revoked post user_id_hash tenant_id (revoke_all_for_user h.tokens user_id w)

  pub raw_id : Str → W → Str
  raw_id user_id_hash w =
      if is_empty user_id_hash
      then []
      else id_or_empty (h.users.find_by_user_id_hash user_id_hash w)

  -- With HX-Request the redirection is a header, and otherwise a status: both lead home.
  pub logout : {S : Type 0} → (Str → Option AccessClaims) → Post → Server S W → Server S W × Answer
  logout parse_unverified post s =
      let (user_id_hash, tenant_id) =
        named_by (claims_of parse_unverified (cookie post.request (bytes "loxtu_access"))) in
      (
        record s {
          world = revoke_for post user_id_hash tenant_id (raw_id user_id_hash s.world) s.world;
        },
        record { page = home; cookies = cleared },
      )

-- ===== src/Identity/Token.antt =====
-- internal/core/identity/token_service.go: the service that issues tokens, keeps the sessions of
-- refresh tokens and rotates them.
pub mod Laws
pub mod Memory
pub mod Renewal
pub mod Tests
use loxtu_go.Base.{
  ℕ, Bool, true, false, Option, none, some, List, Str, bytes, ◌++◌, is_empty, if◌then◌else◌,
}
use loxtu_go.Base.Result.{Result, ok, err, panics}
use loxtu_go.Identity.Hash.{hash_token}
use loxtu_go.Identity.Ports.{UserStore, SessionStore}
use loxtu_go.Identity.Session.{Jwt, Session, TokenPair, Call, issue_tokens, access_token_ttl}
use loxtu_go.Identity.User.{User}

-- A port that is nil is `none`.
pub record TokenService (W : Type 0) : Type 0 where
  pub users : Option (UserStore W)
  pub sessions : Option (SessionStore W)
  pub access_ttl : ℕ

pub new_token_service :
    {W : Type 0} → Option (UserStore W) → Option (SessionStore W) → TokenService W
new_token_service users sessions = record {
  users = users;
  sessions = sessions;
  access_ttl = access_token_ttl;
}

pub set_access_ttl : {W : Type 0} → ℕ → TokenService W → TokenService W
set_access_ttl ttl service = record service { access_ttl = ttl }

unfoldable pub or_default : Str → Str → Str
or_default default s = if is_empty s then default else s

pub session_row : Str → TokenPair → Call → Session
session_row user_id pair call = record {
  user_id = user_id;
  token_hash = pair.refresh_hash;
  expires_at = pair.expires_at;
  created_at = call.now;
}

module _ {W : Type 0} where
  -- The error that a failed write gives has the store's text, which is left out. The pair that the
  -- source returns beside it is not used by any caller.
  pub save_session : TokenPair → W × Bool → W × Result TokenPair
  save_session pair (w, true) = (w, ok pair)
  save_session pair (w, false) = (w, err (bytes "save session"))

  unfoldable pub persist : TokenService W → Str → Call → TokenPair → W → W × Result TokenPair
  persist service user_id call pair w = elim service.sessions [
    | none ↦ (w, ok pair)
    | some sessions ↦ save_session pair (sessions.create (session_row user_id pair call) w)
  ]

  unfoldable pub persist_issued :
      TokenService W → Str → Call → W → Result TokenPair → W × Result TokenPair
  persist_issued service user_id call w (ok pair) = persist service user_id call pair w
  persist_issued service user_id call w (err e) = (w, err e)
  persist_issued service user_id call w panics = (w, panics)

  -- The flag is false on an error.
  pub revoke_all_for_user : TokenService W → Str → W → W × Bool
  revoke_all_for_user service user_id w = elim service.sessions [
    | none ↦ (w, true)
    | some sessions ↦ sessions.revoke_by_user_id user_id w
  ]

module _ (sha256 : Str → Str) (jwt : Jwt) {W : Type 0} where
  unfoldable pub issue : TokenService W → Str → Str → Str → List Str → Call → Result TokenPair
  issue service user_id tenant_id role permissions call =
      issue_tokens sha256 jwt user_id (or_default (bytes "public") tenant_id)
        (or_default (bytes "worker") role) permissions service.access_ttl call

  unfoldable pub issue_session :
      TokenService W → Str → Str → Str → List Str → Call → W → W × Result TokenPair
  issue_session service user_id tenant_id role permissions call w =
      persist_issued service user_id call w (issue service user_id tenant_id role permissions call)

  pub issue_for : TokenService W → Call → W → Option User → W × Result TokenPair
  issue_for service call w none = (w, err (bytes "user not found for session"))
  issue_for service call w (some u) =
      issue_session service u.user_id u.tenant_id u.role u.permissions call w

  pub renew : TokenService W → Str → Call → W → Option (UserStore W) → W × Result TokenPair
  renew service user_id call w none = (w, err (bytes "users not configured"))
  renew service user_id call w (some users) =
      issue_for service call w (users.find_by_user_id user_id w)

  pub rotate_session :
      TokenService W → SessionStore W → Call → W → Option Session → W × Result TokenPair
  rotate_session service sessions call w none = (w, err (bytes "session not found"))
  rotate_session service sessions call w (some sess) =
      renew service sess.user_id call (sessions.revoke_by_user_id sess.user_id w).0 service.users

  pub rotate : TokenService W → Str → Call → W → W × Result TokenPair
  rotate service old_plain call w = elim service.sessions [
    | none ↦ (w, err (bytes "sessions not configured"))
    | some sessions ↦
        rotate_session service sessions call w
          (sessions.find_by_token_hash (hash_token sha256 old_plain) w)
  ]

-- ===== src/Identity/OauthManager.antt =====
-- internal/core/identity/oauth_manager.go: the user behind an external identity.
pub mod Laws
pub mod Tests
use loxtu_go.Base.{
  ℕ, true, Bool, Option, none, some, List, [], ◌∷◌, Str, bytes, str_eq, is_empty, ◌||◌,
  if◌then◌else◌,
}
use loxtu_go.Base.Result.{Result, ok, err, panics}
use loxtu_go.Identity.Hash.{email_hash}
use loxtu_go.Identity.Ports.{UserStore}
use loxtu_go.Identity.Session.{Jwt, TokenPair, Call, access_token_ttl, issue_tokens}
use loxtu_go.Identity.Token.{or_default}
use loxtu_go.Identity.User.{User, zero_user}

pub record ExternalIdentity : Type 0 where
  pub provider : Str
  pub subject : Str
  pub email : Str
  pub name : Str
  pub tenant_hint : Str
  pub groups : List Str

pub generate_uuid_v7 : Str
generate_uuid_v7 = bytes "placeholder-uuid-v7"

abbrev pub new_user : Str → Str → Str → ℕ → User
new_user hash tenant_id role now = record zero_user {
  user_id = generate_uuid_v7;
  email_hash = hash;
  tenant_id = tenant_id;
  role = role;
  status = bytes "active";
  is_active = true;
  created_at = now;
  updated_at = now;
}

-- The user, whose empty role is filled in.
abbrev pub with_role : Str → User → User
with_role role u = record u { role = or_default role u.role }

module _ {W : Type 0} where
  pub created : W × Option User → W × Result User
  created (w, none) = (w, err (bytes "create user"))
  created (w, some u) = (w, ok u)

  pub found_or_created : UserStore W → Str → Str → Str → ℕ → W → Option User → W × Result User
  found_or_created users hash tenant_id role now w none =
      created (users.create (new_user hash tenant_id role now) w)
  found_or_created users hash tenant_id role now w (some u) = (w, ok (with_role role u))

module _ (sha256 : Str → Str) (jwt : Jwt) {W : Type 0} where
  pub issued : W → User → Result TokenPair → W × Result (TokenPair × User)
  issued w u (ok pair) = (w, ok (pair, u))
  issued w u (err e) = (w, err e)
  issued w u panics = (w, panics)

  -- The tenant is the one that was asked for, also for a user of another one.
  pub issue_for_user : Str → Call → W × Result User → W × Result (TokenPair × User)
  issue_for_user tenant_id call (w, ok u) =
      issued w u
        (issue_tokens sha256 jwt u.user_id tenant_id u.role u.permissions access_token_ttl call)
  issue_for_user tenant_id call (w, err e) = (w, err e)
  issue_for_user tenant_id call (w, panics) = (w, panics)

  pub link_resolved : UserStore W → Str → Str → Str → Call → W → W × Result (TokenPair × User)
  link_resolved users hash tenant_id role call w =
      issue_for_user tenant_id call
        (found_or_created users hash tenant_id role call.now w (users.find_by_email_hash hash w))

  pub link_and_issue :
      UserStore W → Str → ExternalIdentity → Str → Call → W → W × Result (TokenPair × User)
  link_and_issue users tenant_id ext role call w =
      if is_empty ext.email
      then (w, err (bytes "external identity missing email"))
      else link_resolved users (email_hash sha256 ext.email) (or_default (bytes "public") tenant_id)
          (or_default (bytes "worker") role) call w

-- The role of the first group that has one.
pub map_entra_groups : List Str → Str
map_entra_groups [] = bytes "worker"
map_entra_groups (g ∷ groups) =
    let rest = map_entra_groups groups in
    if str_eq g (bytes "LOXTU-Admin") || str_eq g (bytes "Admin")
    then bytes "admin"
    else if str_eq g (bytes "LOXTU-Manager") || str_eq g (bytes "Manager")
    then bytes "manager"
    else rest

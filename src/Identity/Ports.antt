-- ===== src/Identity/Ports.antt =====
-- internal/core/identity/store.go: the ports of the services, over one world of stored data. A read
-- that fails and a read that finds nothing are both `none`, since the services treat them alike;
-- the flag of a write is false on an error.
use loxtu_go.Base.{ℕ, Bool, true, Option, none, some, List, Str, ◌≡◌, ◌≢◌}
use loxtu_go.Identity.Session.{Session}
use loxtu_go.Identity.User.{User, PasskeyUser, PasskeyCredential}

pub record UserStore (W : Type 0) : Type 0 where
  -- The stored user, with the identifiers that the store gave it.
  pub create : User → W → W × Option User
  pub find_by_user_id : Str → W → Option User
  pub find_by_email_hash : Str → W → Option User
  pub find_by_user_id_hash : Str → W → Option User
  pub update : User → W → W × Bool
  pub erase : Str → W → W × Bool

pub record SessionStore (W : Type 0) : Type 0 where
  pub create : Session → W → W × Bool
  pub find_by_token_hash : Str → W → Option Session
  pub revoke_by_user_id : Str → W → W × Bool
  pub revoke_by_token_hash : Str → W → W × Bool
  pub cleanup_expired : ℕ → W → W × Bool

pub record CredentialStore (W : Type 0) : Type 0 where
  pub save_user : Str → Str → Str → W → W × Bool
  pub save_credential : PasskeyCredential → W → W × Bool
  pub find_credentials_by_user_id : Str → W → Option (List PasskeyCredential)
  pub find_credential_by_kid : Str → W → Option PasskeyCredential
  pub find_user_by_handle : Str → W → Option PasskeyUser
  pub find_handle_by_user_id : Str → W → Option Str
  pub update_sign_count : Str → Str → ℕ → W → W × Bool

-- What the calls of a session store do to its sessions: a creation that succeeds is found, for its
-- user; no creation brings another session in; and a revocation that succeeds removes the sessions
-- of its user.
pub record IsReliable {W : Type 0} (sessions : SessionStore W) : Type 0 where
  pub find-create :
      (s : Session) (w : W)
      → (sessions.create s w).1 ≡ true
      → (x : Session) × (sessions.find_by_token_hash s.token_hash (sessions.create s w).0 ≡ some x)
        × (x.user_id ≡ s.user_id)
  pub find-create_ne :
      (s x : Session) (h : Str) (w : W)
      → h ≢ s.token_hash
      → sessions.find_by_token_hash h (sessions.create s w).0 ≡ some x
      → sessions.find_by_token_hash h w ≡ some x
  pub find-revoke :
      (h : Str) (x : Session) (w : W)
      → sessions.find_by_token_hash h w ≡ some x
      → (sessions.revoke_by_user_id x.user_id w).1 ≡ true
      → sessions.find_by_token_hash h (sessions.revoke_by_user_id x.user_id w).0 ≡ none

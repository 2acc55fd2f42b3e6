-- ===== src/Identity/Passkey/Login.antt =====
-- `FinishLogin` of internal/core/identity/passkey_service.go.
use loxtu_go.Base.{Option, none, some, [], Str, bytes, ◌++◌, is_empty, if◌then◌else◌}
use loxtu_go.Base.Result.{Result, ok, err, panics}
use loxtu_go.Identity.Ports.{CredentialStore}
use loxtu_go.Identity.Passkey.{Webauthn, CeremonySession, webauthn_creds_from_domain, or_nil}
use loxtu_go.Identity.Passkey.Ceremony.{Service, get_user, take_session, not_initialised}
use loxtu_go.Identity.User.{PasskeyUser, PasskeyCredential, WebauthnCredential}

abbrev pub Login : Type 0
Login = PasskeyUser × Option WebauthnCredential

abbrev pub handle_or : Str → Str → Str
handle_or handle user_handle = if is_empty handle then user_handle else handle

module _ {W : Type 0} where
  -- UpdateCredentialSignCount, whose error is dropped; there is nothing to update without a
  -- credential.
  unfoldable pub update_sign_count :
      CredentialStore W → PasskeyUser → Option WebauthnCredential → W → W
  update_sign_count creds user none w = w
  update_sign_count creds user (some cred) w =
      (creds.update_sign_count user.user_id cred.id cred.sign_count w).0

  -- The user of a stored credential.
  pub user_of_credential : CredentialStore W → Str → Str → W → PasskeyCredential → PasskeyUser
  user_of_credential creds tenant_id user_handle w cred = record {
    user_id = cred.user_id;
    tenant_id = tenant_id;
    email = [];
    handle = handle_or (or_nil (creds.find_handle_by_user_id cred.user_id w)) user_handle;
    credentials = webauthn_creds_from_domain (creds.find_credentials_by_user_id cred.user_id w);
  }

  pub find_user_by_handle : CredentialStore W → Str → W → Result PasskeyUser
  find_user_by_handle creds user_handle w = elim (creds.find_user_by_handle user_handle w) [
    | none ↦ err (bytes "user not found by handle")
    | some u ↦ ok u
  ]

  -- The handler of a discoverable login.
  pub resolve_login : CredentialStore W → Str → W → Str → Str → Result PasskeyUser
  resolve_login creds tenant_id w raw_id user_handle =
      elim (creds.find_credential_by_kid raw_id w) [
        | none ↦ find_user_by_handle creds user_handle w
        | some cred ↦ ok (user_of_credential creds tenant_id user_handle w cred)
      ]

  -- The user that the handler left behind, if the library called it and it found one.
  pub resolved_user : CredentialStore W → Str → W → Option (Str × Str) → Option PasskeyUser
  resolved_user creds tenant_id w none = none
  resolved_user creds tenant_id w (some (raw_id, user_handle)) =
      elim (resolve_login creds tenant_id w raw_id user_handle) [
        | ok u ↦ some u
        | err e ↦ none
        | panics ↦ none
      ]

  unfoldable pub logged_in :
      CredentialStore W → W → PasskeyUser → Option WebauthnCredential → W × Result Login
  logged_in creds w user cred = (update_sign_count creds user cred w, ok (user, cred))

  unfoldable pub known_login :
      CredentialStore W → W → PasskeyUser → Result (Option WebauthnCredential) → W × Result Login
  known_login creds w user (ok cred) = logged_in creds w user cred
  known_login creds w user (err e) = (w, err (bytes "validate login: " ++ e))
  known_login creds w user panics = (w, panics)

  pub discovered_login :
      CredentialStore W
      → W
      → Option PasskeyUser
      → Result (Option WebauthnCredential)
      → W × Result Login
  discovered_login creds w user (err e) = (w, err (bytes "validate discoverable login: " ++ e))
  discovered_login creds w user panics = (w, panics)
  discovered_login creds w none (ok cred) =
      (w, err (bytes "user not resolved from discoverable login"))
  discovered_login creds w (some user) (ok cred) = logged_in creds w user cred

module _ (sha256 base64 : Str → Str) (lib : Webauthn) (W : Type 0) where
  open lib use {SessionData, ParsedAssertion, validate_login, asks, validate_discoverable_login}

  unfoldable pub login_known :
      Service sha256 base64 lib W
      → CeremonySession SessionData
      → ParsedAssertion
      → W
      → Result PasskeyUser
      → W × Result Login
  login_known s cs parsed w (ok user) =
      known_login s.creds w user (validate_login user cs.wa_session parsed)
  login_known s cs parsed w (err e) = (w, err e)
  login_known s cs parsed w panics = (w, panics)

  pub login_discovered :
      Service sha256 base64 lib W
      → CeremonySession SessionData
      → ParsedAssertion
      → W
      → W × Result Login
  login_discovered s cs parsed w =
      discovered_login s.creds w (resolved_user s.creds cs.tenant_id w (asks cs.wa_session parsed))
        (validate_discoverable_login (resolve_login s.creds cs.tenant_id w) cs.wa_session parsed)

  unfoldable pub login_taken :
      Service sha256 base64 lib W
      → ParsedAssertion
      → W
      → Option (CeremonySession SessionData)
      → W × Result Login
  login_taken s parsed w none = (w, err (bytes "session not found"))
  login_taken s parsed w (some cs) =
      if is_empty cs.user_email
      then login_discovered s cs parsed w
      else login_known s cs parsed w (get_user sha256 base64 lib W s cs.user_email w)

  unfoldable pub finish_login :
      Service sha256 base64 lib W
      → Str
      → ParsedAssertion
      → W
      → Service sha256 base64 lib W × (W × Result Login)
  finish_login s challenge parsed w =
      if s.has_wa
      then (let r = take_session s challenge in (r.0, login_taken s parsed w r.1))
      else (s, (w, not_initialised))

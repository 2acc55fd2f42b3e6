-- ===== src/Identity/Passkey.antt =====
-- internal/core/identity/passkey_service.go: the WebAuthn ceremonies. The library go-webauthn is a
-- parameter, as are the stores; the mutex makes each access to `sessions` atomic.
pub mod Ceremony
pub mod Login
pub mod Spent
pub mod Enabled
pub mod Challenge
pub mod SingleUse
pub mod Binding
pub mod Toy
pub mod Tests
use loxtu_go.Base.{
  ℕ, Bool, true, false, Option, none, some, List, [], ◌∷◌, Str, bytes, ◌++◌, map, is_empty, leb,
  length, take, if◌then◌else◌,
}
use loxtu_go.Base.Map
use loxtu_go.Base.Map.{Map}
use loxtu_go.Base.Result.{Result, ok, err, panics, ◌>>=◌}
use loxtu_go.Base.Strings.{hex_encode}
use loxtu_go.Identity.Hash.{email_hash_with_pepper}
use loxtu_go.Identity.Ports.{UserStore, CredentialStore}
use loxtu_go.Identity.User.{
  User, PasskeyUser, PasskeyCredential, WebauthnCredential, generate_handle_with_tenant,
}

-- What the service calls of the library. A discoverable login asks its handler for the user of a
-- credential and a handle, which `asks` gives, `none` when the library fails before that. The
-- credential of a login may be nil.
pub record Webauthn : Type 1 where
  pub SessionData : Type 0
  pub Creation : Type 0
  pub Assertion : Type 0
  pub ParsedCreation : Type 0
  pub ParsedAssertion : Type 0
  pub challenge_of : SessionData → Str
  pub begin_registration : PasskeyUser → Str → Result (Creation × SessionData)
  pub begin_login : PasskeyUser → Str → Result (Assertion × SessionData)
  pub begin_discoverable_login : Str → Result (Assertion × SessionData)
  pub create_credential : PasskeyUser → SessionData → ParsedCreation → Result WebauthnCredential
  pub validate_login :
      PasskeyUser → SessionData → ParsedAssertion → Result (Option WebauthnCredential)
  pub asks : SessionData → ParsedAssertion → Option (Str × Str)
  pub validate_discoverable_login :
      (Str → Str → Result PasskeyUser)
      → SessionData
      → ParsedAssertion
      → Result (Option WebauthnCredential)

pub record CeremonySession (S : Type 0) : Type 0 where
  pub challenge : Str
  pub user_id : Str
  pub user_email : Str
  pub tenant_id : Str
  pub user_handle : Str
  pub allowed_credential_ids : List Str
  pub expires : ℕ
  pub user_verification : Str
  pub wa_session : S

-- The fields that the source fills in.
abbrev pub ceremony : {S : Type 0} → Str → Str → Str → Str → Str → S → CeremonySession S
ceremony challenge user_id email tenant_id handle session = record {
  challenge = challenge;
  user_id = user_id;
  user_email = email;
  tenant_id = tenant_id;
  user_handle = handle;
  allowed_credential_ids = [];
  expires = 0;
  user_verification = [];
  wa_session = session;
}

-- `has_wa` is whether the relying party is set.
pub record PasskeyService (S W : Type 0) : Type 0 where
  pub users : UserStore W
  pub creds : CredentialStore W
  pub has_wa : Bool
  pub pepper : Str
  pub sessions : Map (CeremonySession S)

-- The transports are not restored, and the AAGUID is the bytes of its hexadecimal text.
pub webauthn_cred_from_domain : PasskeyCredential → WebauthnCredential
webauthn_cred_from_domain c = record {
  id = c.credential_id;
  public_key = c.public_key;
  transport = [];
  sign_count = c.sign_count;
  aaguid = c.aaguid;
  backup_eligible = c.backup_eligible;
  backup_state = c.backup_state;
}

-- A failed read gives no credentials.
pub webauthn_creds_from_domain : Option (List PasskeyCredential) → List WebauthnCredential
webauthn_creds_from_domain none = []
webauthn_creds_from_domain (some cs) = map webauthn_cred_from_domain cs

abbrev pub or_nil : Option Str → Str
or_nil none = []
or_nil (some s) = s

pub domain_credential : Str → WebauthnCredential → ℕ → PasskeyCredential
domain_credential user_id cred now = record {
  credential_id = cred.id;
  user_id = user_id;
  public_key = cred.public_key;
  sign_count = cred.sign_count;
  transports = cred.transport;
  aaguid = hex_encode cred.aaguid;
  backup_eligible = cred.backup_eligible;
  backup_state = cred.backup_state;
  created_at = now;
}

abbrev pub fresh_user : Str → Str → Str → Str → PasskeyUser
fresh_user user_id tenant_id email handle = record {
  user_id = user_id;
  tenant_id = tenant_id;
  email = email;
  handle = handle;
  credentials = [];
}

module _ {W : Type 0} where
  unfoldable pub save_credential : CredentialStore W → Str → WebauthnCredential → ℕ → W → W × Bool
  save_credential creds user_id cred now w =
      creds.save_credential (domain_credential user_id cred now) w

  abbrev pub existing_user : CredentialStore W → Str → Str → Str → Str → W → PasskeyUser
  existing_user creds user_id tenant_id email handle w = record {
    user_id = user_id;
    tenant_id = tenant_id;
    email = email;
    handle = handle;
    credentials = webauthn_creds_from_domain (creds.find_credentials_by_user_id user_id w);
  }

  pub saved_user : PasskeyUser → W × Bool → W × Result PasskeyUser
  saved_user u (w, true) = (w, ok u)
  saved_user u (w, false) = (w, err (bytes "save passkey user"))

  pub create_passkey_user :
      CredentialStore W → Str → Str → Str → W → Result Str → W × Result PasskeyUser
  create_passkey_user creds user_id tenant_id email w (ok handle) =
      saved_user (fresh_user user_id tenant_id email handle)
        (creds.save_user user_id handle tenant_id w)
  create_passkey_user creds user_id tenant_id email w (err e) =
      (w, err (bytes "generate handle: " ++ e))
  create_passkey_user creds user_id tenant_id email w panics = (w, panics)

  -- Reuses the handle of a known passkey user, and makes one otherwise.
  pub load_or_create :
      (Str → Str) → CredentialStore W → Str → Str → Str → Option Str → W → W × Result PasskeyUser
  load_or_create base64 creds user_id tenant_id email random w =
      let handle = or_nil (creds.find_handle_by_user_id user_id w) in
      if is_empty handle
      then create_passkey_user creds user_id tenant_id email w
          (generate_handle_with_tenant base64 tenant_id random)
      else (w, ok (existing_user creds user_id tenant_id email handle w))

-- ===== src/Identity/Passkey/Toy.antt =====
-- A toy WebAuthn library, which accepts everything, and stores, for
-- internal/core/identity/passkey_service.go.
use loxtu_go.Base.{ℕ, true, false, some, none, [], ◌∷◌, Str}
use loxtu_go.Base.Result.{ok}
use loxtu_go.Identity.Ports.{UserStore, CredentialStore}
use loxtu_go.Identity.Passkey.{Webauthn, CeremonySession, ceremony}
use loxtu_go.Identity.Passkey.Ceremony.{Service}
use loxtu_go.Identity.User.{User, zero_user, PasskeyCredential, WebauthnCredential}

abbrev pub a_credential : WebauthnCredential
a_credential = record {
  id = 4 ∷ [];
  public_key = [];
  transport = [];
  sign_count = 1;
  aaguid = [];
  backup_eligible = false;
  backup_state = false;
}

abbrev pub toy : Webauthn
toy = record {
  SessionData = Str;
  Creation = Unit;
  Assertion = Unit;
  ParsedCreation = Unit;
  ParsedAssertion = Unit;
  challenge_of = λ s. s;
  begin_registration = λ u draw. ok (tt, draw);
  begin_login = λ u draw. ok (tt, draw);
  begin_discoverable_login = λ draw. ok (tt, draw);
  create_credential = λ u s p. ok a_credential;
  validate_login = λ u s p. ok (some a_credential);
  asks = λ s p. none;
  validate_discoverable_login = λ f s p. ok (some a_credential);
}

abbrev pub same : Str → Str
same s = s

abbrev pub a_user : User
a_user = record zero_user { user_id = 1 ∷ [] }

abbrev pub stored : PasskeyCredential
stored = record {
  credential_id = 4 ∷ [];
  user_id = 1 ∷ [];
  public_key = [];
  sign_count = 0;
  transports = [];
  aaguid = [];
  backup_eligible = false;
  backup_state = false;
  created_at = 0;
}

abbrev pub users : UserStore ℕ
users = record {
  create = λ u w. (w, some u);
  find_by_user_id = λ id w. some a_user;
  find_by_email_hash = λ h w. some a_user;
  find_by_user_id_hash = λ h w. some a_user;
  update = λ u w. (w, true);
  erase = λ id w. (w, true);
}

abbrev pub creds : CredentialStore ℕ
creds = record {
  save_user = λ id h t w. (w, true);
  save_credential = λ c w. (w, true);
  find_credentials_by_user_id = λ id w. some (stored ∷ []);
  find_credential_by_kid = λ k w. some stored;
  find_user_by_handle = λ h w. none;
  find_handle_by_user_id = λ id w. some (6 ∷ []);
  update_sign_count = λ id k n w. (w, true);
}

abbrev pub a_ceremony : CeremonySession Str
a_ceremony = ceremony (5 ∷ []) (1 ∷ []) (8 ∷ []) (9 ∷ []) (6 ∷ []) (5 ∷ [])

abbrev pub service : Service same same toy ℕ
service = record {
  users = users;
  creds = creds;
  has_wa = true;
  pepper = [];
  sessions = (5 ∷ [], a_ceremony) ∷ [];
}

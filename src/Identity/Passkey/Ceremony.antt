-- ===== src/Identity/Passkey/Ceremony.antt =====
-- The beginnings and ends of the ceremonies of internal/core/identity/passkey_service.go.
use loxtu_go.Base.{
  ℕ, Bool, true, false, Option, none, some, List, [], ◌∷◌, Str, bytes, ◌++◌, is_empty, leb, length,
  take, if◌then◌else◌,
}
use loxtu_go.Base.Map
use loxtu_go.Base.Result.{Result, ok, err, panics, ◌>>=◌}
use loxtu_go.Identity.Hash.{email_hash_with_pepper}
use loxtu_go.Identity.Passkey.{
  Webauthn, CeremonySession, PasskeyService, ceremony, webauthn_creds_from_domain, or_nil,
  save_credential, existing_user, fresh_user, load_or_create,
}
use loxtu_go.Identity.User.{User, PasskeyUser, PasskeyCredential, WebauthnCredential}

-- The random draws of a ceremony: the handle's and the challenge's.
pub record Draws : Type 0 where
  pub handle : Option Str
  pub challenge : Str

-- The text of an error of the store itself is left out: it is answered like a missing user.
unfoldable pub user_id_of : Str → Option User → Result Str
user_id_of text none = err text
user_id_of text (some u) = if is_empty u.user_id then err text else ok u.user_id

pub not_initialised : {B : Type 0} → Result B
not_initialised = err (bytes "webauthn not initialised")

-- The masked address, or else the first eight bytes of the identifier, which panics on fewer.
pub display_email : User → Result Str
display_email u =
    if is_empty u.masked_email
    then (if leb 8 (length u.user_id) then ok (take 8 u.user_id ++ bytes "...") else panics)
    else ok u.masked_email

-- Neither the tenant nor the handle is set.
unfoldable pub loaded_user : Str → Str → Option (List PasskeyCredential) → Result PasskeyUser
loaded_user user_id email none = err (bytes "load credentials")
loaded_user user_id email (some []) = err (bytes "no passkey credentials for user " ++ user_id)
loaded_user user_id email (some (c ∷ cs)) = ok (record {
  user_id = user_id;
  tenant_id = [];
  email = email;
  handle = [];
  credentials = webauthn_creds_from_domain (some (c ∷ cs));
})

module _ {S : Type 0} where
  abbrev pub store_session :
      {W : Type 0} → PasskeyService S W → Str → CeremonySession S → PasskeyService S W
  store_session s challenge cs = record s { sessions = Map.insert challenge cs s.sessions }

  -- What a library call began is kept under its challenge, for the user that is given.
  unfoldable pub begun :
      {A W : Type 0}
      → (S → Str)
      → PasskeyService S W
      → Str
      → PasskeyUser
      → Str
      → Result (A × S)
      → PasskeyService S W × Result (A × Str)
  begun challenge_of s text user tenant_id (ok (options, session)) =
      let challenge = challenge_of session in
      (
        store_session s challenge
            (ceremony challenge user.user_id user.email tenant_id user.handle session),
        ok (options, challenge),
      )
  begun challenge_of s text user tenant_id (err e) = (s, err (text ++ e))
  begun challenge_of s text user tenant_id panics = (s, panics)

  -- takeSession: the session of a challenge, which is removed.
  unfoldable pub take_session :
      {W : Type 0} → PasskeyService S W → Str → PasskeyService S W × Option (CeremonySession S)
  take_session s challenge = elim (Map.lookup challenge s.sessions) [
    | none ↦ (s, none)
    | some cs ↦ (record s { sessions = Map.delete challenge s.sessions }, some cs)
  ]

module _ (sha256 base64 : Str → Str) (lib : Webauthn) (W : Type 0) where
  open lib use {
    SessionData, Creation, Assertion, ParsedCreation, ParsedAssertion, challenge_of,
    begin_registration, begin_login, begin_discoverable_login, create_credential, validate_login,
    asks, validate_discoverable_login,
  }

  abbrev pub Service : Type 0
  Service = PasskeyService SessionData W

  unfoldable pub resolve_user_id : Service → Str → W → Result Str
  resolve_user_id s email w =
      user_id_of (bytes "user not found: " ++ email)
        (s.users.find_by_email_hash (email_hash_with_pepper sha256 email s.pepper) w)

  pub find_or_create_passkey_user : Service → Str → Str → Option Str → W → W × Result PasskeyUser
  find_or_create_passkey_user s email tenant_id random w = elim (resolve_user_id s email w) [
    | ok user_id ↦ load_or_create base64 s.creds user_id tenant_id email random w
    | err e ↦ (w, err e)
    | panics ↦ (w, panics)
  ]

  unfoldable pub get_user : Service → Str → W → Result PasskeyUser
  get_user s email w = resolve_user_id s email w >>= λ user_id.
      loaded_user user_id email (s.creds.find_credentials_by_user_id user_id w)

  -- The ceremony of a passkey user who was resolved.
  unfoldable pub begin_resolved :
      Service → Str → Str → W × Result PasskeyUser → Service × (W × Result (Creation × Str))
  begin_resolved s tenant_id challenge (w, ok user) =
      let r =
        begun challenge_of s (bytes "begin registration: ") user tenant_id
          (begin_registration user challenge) in
      (r.0, (w, r.1))
  begin_resolved s tenant_id challenge (w, err e) = (s, (w, err e))
  begin_resolved s tenant_id challenge (w, panics) = (s, (w, panics))

  unfoldable pub begin_registration_for :
      Service → Str → Str → Draws → W → Service × (W × Result (Creation × Str))
  begin_registration_for s email tenant_id draws w =
      if s.has_wa
      then begin_resolved s tenant_id draws.challenge
          (find_or_create_passkey_user s email tenant_id draws.handle w)
      else (s, (w, not_initialised))

  unfoldable pub begin_for_user :
      Service → User → Str → Draws → W → Result Str → Service × (W × Result (Creation × Str))
  begin_for_user s u tenant_id draws w (ok email) =
      begin_resolved s tenant_id draws.challenge
        (load_or_create base64 s.creds u.user_id tenant_id email draws.handle w)
  begin_for_user s u tenant_id draws w (err e) = (s, (w, err e))
  begin_for_user s u tenant_id draws w panics = (s, (w, panics))

  unfoldable pub begin_for_found :
      Service → Str → Draws → W → Option User → Service × (W × Result (Creation × Str))
  begin_for_found s tenant_id draws w none = (s, (w, err (bytes "user not found by hash")))
  begin_for_found s tenant_id draws w (some u) =
      begin_for_user s u tenant_id draws w (display_email u)

  unfoldable pub begin_registration_by_hash :
      Service → Str → Str → Draws → W → Service × (W × Result (Creation × Str))
  begin_registration_by_hash s user_id_hash tenant_id draws w =
      if s.has_wa
      then begin_for_found s tenant_id draws w (s.users.find_by_user_id_hash user_id_hash w)
      else (s, (w, not_initialised))

  pub resolve_user_by_hash : Service → Str → W → Result Str
  resolve_user_by_hash s user_id_hash w =
      user_id_of (bytes "user not found by hash") (s.users.find_by_user_id_hash user_id_hash w)

  unfoldable pub begin_login_as :
      Service → Str → Str → Result PasskeyUser → Service × Result (Assertion × Str)
  begin_login_as s tenant_id challenge (ok user) =
      begun challenge_of s (bytes "begin login: ") user tenant_id (begin_login user challenge)
  begin_login_as s tenant_id challenge (err e) = (s, err e)
  begin_login_as s tenant_id challenge panics = (s, panics)

  unfoldable pub begin_login_for :
      Service → Str → Str → Str → W → Service × Result (Assertion × Str)
  begin_login_for s email tenant_id challenge w =
      if s.has_wa
      then begin_login_as s tenant_id challenge (get_user s email w)
      else (s, not_initialised)

  unfoldable pub begin_login_discoverable : Service → Str → Str → Service × Result (Assertion × Str)
  begin_login_discoverable s tenant_id challenge =
      if s.has_wa
      then begun challenge_of s (bytes "begin discoverable login: ") (fresh_user [] [] [] [])
          tenant_id (begin_discoverable_login challenge)
      else (s, not_initialised)

  -- The user of a registration: the handle is the session's in both cases.
  unfoldable pub registering_user : Service → CeremonySession SessionData → W → PasskeyUser
  registering_user s cs w =
      let handle = or_nil (s.creds.find_handle_by_user_id cs.user_id w) in
      if is_empty handle
      then fresh_user cs.user_id cs.tenant_id cs.user_email cs.user_handle
      else existing_user s.creds cs.user_id cs.tenant_id cs.user_email cs.user_handle w

  unfoldable pub registered :
      PasskeyUser → WebauthnCredential → W × Bool → W × Result (WebauthnCredential × PasskeyUser)
  registered user cred (w, true) =
      (w, ok (cred, record user { credentials = user.credentials ++ cred ∷ [] }))
  registered user cred (w, false) = (w, err (bytes "save credential"))

  unfoldable pub create_for :
      Service
      → PasskeyUser
      → ℕ
      → W
      → Result WebauthnCredential
      → W × Result (WebauthnCredential × PasskeyUser)
  create_for s user now w (ok cred) =
      registered user cred (save_credential s.creds user.user_id cred now w)
  create_for s user now w (err e) = (w, err (bytes "create credential: " ++ e))
  create_for s user now w panics = (w, panics)

  unfoldable pub finish_taken :
      Service
      → ParsedCreation
      → ℕ
      → W
      → Option (CeremonySession SessionData)
      → W × Result (WebauthnCredential × PasskeyUser)
  finish_taken s parsed now w none = (w, err (bytes "session not found"))
  finish_taken s parsed now w (some cs) =
      create_for s (registering_user s cs w) now w
        (create_credential (registering_user s cs w) cs.wa_session parsed)

  unfoldable pub finish_registration :
      Service
      → Str
      → ParsedCreation
      → ℕ
      → W
      → Service × (W × Result (WebauthnCredential × PasskeyUser))
  finish_registration s challenge parsed now w =
      if s.has_wa
      then (let r = take_session s challenge in (r.0, finish_taken s parsed now w r.1))
      else (s, (w, not_initialised))

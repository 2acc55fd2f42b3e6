-- ===== src/Handlers/Passkey.antt =====
-- internal/interfaces/http/handlers/passkey_handler.go: the WebAuthn ceremonies behind HTTP. The
-- tenant of the context, the parsed body and the draws are arguments; lines of the log are left out,
-- except that `userIDHash[:8]` panics on a short text.
pub mod Entry
mod Tests
use loxtu_go.Base.{
  ℕ, Bool, true, false, Option, none, some, [], Str, bytes, is_empty, leb, length, if◌then◌else◌,
}
use loxtu_go.Base.Result.{Result, ok, err, panics}
use loxtu_go.Adapters.Audit.{SecurityEvent}
use loxtu_go.Handlers.Auth.{Post, CookieChange, kept, set_pair, event, log_security}
use loxtu_go.Handlers.Tenant.{resolve_tenant_by_email}
use loxtu_go.Identity.Passkey.{Webauthn}
use loxtu_go.Identity.Passkey.Ceremony.{
  Service, Draws, begin_registration_by_hash, resolve_user_by_hash, begin_login_for,
  begin_login_discoverable, finish_registration,
}
use loxtu_go.Identity.Passkey.Login.{Login, finish_login}
use loxtu_go.Identity.Session.{Jwt, TokenPair, Call}
use loxtu_go.Identity.Token.{TokenService, issue_session, or_default}
use loxtu_go.Identity.User.{PasskeyUser, WebauthnCredential, mask_email_string}
use loxtu_go.Middleware.Request.{Request, header, query_value, form_value}

pub record PasskeyHandler (W : Type 0) : Type 0 where
  pub tokens : TokenService W
  pub resolve_by_domain : Option (Str → Option Str)
  pub audit : Option (SecurityEvent → W → W)

-- The bodies; `options` carries what the library began.
pub data Page (A : Type 0) : Type 0 where
  register_page : Str → Page A
  home : Page A
  bad_request : Page A
  hash_required : Page A
  failed_to_begin : Page A
  options : A → Page A
  invalid_credential : Page A
  failed : Str → Page A
  to_dashboard : Page A
  no_credentials : Page A
  auth_failed : Page A
  token_error : Page A
  panicked : Page A

pub record Answer (A : Type 0) : Type 0 where
  pub page : Page A
  pub cookies : CookieChange

abbrev pub show : {A : Type 0} → Page A → Answer A
show p = record { page = p; cookies = kept }

abbrev pub logs_prefix : {A : Type 0} → Str → Page A → Page A
logs_prefix text p = if leb 8 (length text) then p else panicked

abbrev pub public_or : Str → Str
public_or tenant_id = or_default (bytes "public") tenant_id

pub register_page_for : {A : Type 0} → Request → Answer A
register_page_for r =
    let email = query_value r (bytes "email") in
    show (if is_empty email then home else register_page email)

pub registration_options : {A : Type 0} → Str → Result (A × Str) → Answer A
registration_options user_id_hash (ok (o, challenge)) = show (logs_prefix user_id_hash (options o))
registration_options user_id_hash (err e) = show failed_to_begin
registration_options user_id_hash panics = show panicked

pub login_options : {A : Type 0} → Result (A × Str) → Answer A
login_options (ok (o, challenge)) = show (options o)
login_options (err e) = show no_credentials
login_options panics = show panicked

-- After a registration or a skip the answer leads on, with the cookies if there are tokens.
pub entered : {A : Type 0} → Result TokenPair → Answer A
entered (ok pair) = record { page = to_dashboard; cookies = set_pair pair }
entered (err e) = show to_dashboard
entered panics = show panicked

module _ (sha256 : Str → Str) (jwt : Jwt) {W : Type 0} (h : PasskeyHandler W) where
  -- A session for a user, as a worker.
  pub session_for : Str → Str → Call → W → W × Result TokenPair
  session_for user_id tenant_id call w =
      issue_session sha256 jwt h.tokens user_id (public_or tenant_id) (bytes "worker") [] call w

  pub entered_with : {A : Type 0} → W × Result TokenPair → W × Answer A
  entered_with (w, r) = (w, entered r)

  pub skip_resolved : {A : Type 0} → Str → Str → Call → W → Result Str → W × Answer A
  skip_resolved user_id_hash ctx_tenant call w (ok user_id) =
      entered_with (session_for user_id ctx_tenant call w)
  skip_resolved user_id_hash ctx_tenant call w (err e) = (w, show home)
  skip_resolved user_id_hash ctx_tenant call w panics = (w, show panicked)

  pub note : Post → PasskeyUser → Str → W → W
  note post u action w =
      log_security h.audit
        (event post u.user_id (public_or u.tenant_id) (mask_email_string u.email) action
          (bytes "success"))
        w

  pub login_issued : {A : Type 0} → Post → PasskeyUser → W × Result TokenPair → W × Answer A
  login_issued post u (w, ok pair) = (
    note post u (bytes "passkey.login") w,
    record { page = to_dashboard; cookies = set_pair pair },
  )
  login_issued post u (w, err e) = (w, show token_error)
  login_issued post u (w, panics) = (w, show panicked)

  pub login_finished : {A : Type 0} → Post → Call → W × Result Login → W × Answer A
  login_finished post call (w, ok (u, cred)) =
      login_issued post u (session_for u.user_id u.tenant_id call w)
  login_finished post call (w, err e) = (w, show auth_failed)
  login_finished post call (w, panics) = (w, show panicked)

  pub registration_finished :
      {A : Type 0} → Post → Call → W × Result (WebauthnCredential × PasskeyUser) → W × Answer A
  registration_finished post call (w, ok (cred, u)) =
      entered_with
        (session_for u.user_id u.tenant_id call (note post u (bytes "passkey.register") w))
  registration_finished post call (w, err e) = (w, show (failed e))
  registration_finished post call (w, panics) = (w, show panicked)

module _ (sha256 base64 : Str → Str) (jwt : Jwt) (lib : Webauthn) (W : Type 0)
    (h : PasskeyHandler W) where
  open lib use {Creation, Assertion, ParsedCreation, ParsedAssertion}

  pub begin_hashed :
      Str
      → Str
      → Draws
      → Service sha256 base64 lib W
      → W
      → Service sha256 base64 lib W × (W × Answer Creation)
  begin_hashed user_id_hash ctx_tenant draws s w =
      if is_empty user_id_hash
      then (s, (w, show hash_required))
      else (let r =
            begin_registration_by_hash sha256 base64 lib W s user_id_hash (public_or ctx_tenant)
              draws w in
          (r.0, (r.1.0, registration_options user_id_hash r.1.1)))

  -- The flag says that the form parses.
  pub begin_registration_form :
      Bool
      → Post
      → Str
      → Draws
      → Service sha256 base64 lib W
      → W
      → Service sha256 base64 lib W × (W × Answer Creation)
  begin_registration_form false post ctx_tenant draws s w = (s, (w, show bad_request))
  begin_registration_form true post ctx_tenant draws s w =
      begin_hashed (form_value post.request (bytes "user_id_hash")) ctx_tenant draws s w

  pub begin_registration_page :
      Post
      → Str
      → Draws
      → Service sha256 base64 lib W
      → W
      → Service sha256 base64 lib W × (W × Answer Creation)
  begin_registration_page post ctx_tenant draws s w =
      begin_registration_form post.is_parsed post ctx_tenant draws s w

  -- `client_challenge` is the challenge in the client's data.
  pub finish_registration_page :
      (ParsedCreation → Str)
      → Post
      → Option ParsedCreation
      → Call
      → Service sha256 base64 lib W
      → W
      → Service sha256 base64 lib W × (W × Answer Creation)
  finish_registration_page client_challenge post none call s w = (s, (w, show invalid_credential))
  finish_registration_page client_challenge post (some parsed) call s w =
      let challenge =
        or_default (client_challenge parsed) (header post.request (bytes "X-WebAuthn-Challenge")) in
      let r = finish_registration sha256 base64 lib W s challenge parsed call.now w in
      (r.0, registration_finished sha256 jwt h post call r.1)

  pub skip_hashed : Str → Str → Call → Service sha256 base64 lib W → W → W × Answer Creation
  skip_hashed user_id_hash ctx_tenant call s w =
      if is_empty user_id_hash
      then (w, show home)
      else if leb 8 (length user_id_hash)
      then skip_resolved sha256 jwt h user_id_hash ctx_tenant call w
          (resolve_user_by_hash sha256 base64 lib W s user_id_hash w)
      else (w, show panicked)

  pub skip_form : Bool → Post → Str → Call → Service sha256 base64 lib W → W → W × Answer Creation
  skip_form false post ctx_tenant call s w = (w, show bad_request)
  skip_form true post ctx_tenant call s w =
      skip_hashed (form_value post.request (bytes "user_id_hash")) ctx_tenant call s w

  pub skip : Post → Str → Call → Service sha256 base64 lib W → W → W × Answer Creation
  skip post ctx_tenant call s w = skip_form post.is_parsed post ctx_tenant call s w

  pub begin_login_page :
      Request
      → Str
      → Str
      → Service sha256 base64 lib W
      → W
      → Service sha256 base64 lib W × Answer Assertion
  begin_login_page r ctx_tenant challenge s w =
      let email = query_value r (bytes "email") in
      if is_empty email
      then (let (s', result) =
            begin_login_discoverable sha256 base64 lib W s ctx_tenant challenge in
          (s', login_options result))
      else (let (s', result) =
            begin_login_for sha256 base64 lib W s email
              (resolve_tenant_by_email h.resolve_by_domain email) challenge w in
          (s', login_options result))

  pub finish_login_page :
      (ParsedAssertion → Str)
      → Post
      → Option ParsedAssertion
      → Call
      → Service sha256 base64 lib W
      → W
      → Service sha256 base64 lib W × (W × Answer Assertion)
  finish_login_page client_challenge post none call s w = (s, (w, show bad_request))
  finish_login_page client_challenge post (some parsed) call s w =
      let r = finish_login sha256 base64 lib W s (client_challenge parsed) parsed w in
      (r.0, login_finished sha256 jwt h post call r.1)

-- ===== src/Handlers/Auth/Consent.antt =====
-- internal/interfaces/http/handlers/auth_handler.go: LoginPage as a page, ConsentPage and
-- ConsentAccept; and the check for passkeys that cmd/server/main.go hands over.
pub mod Presence
use loxtu_go.Base.{
  Bool, true, false, Option, none, some, List, Str, bytes, [], is_empty, not, leb, length, ◌||◌,
  if◌then◌else◌,
}
use loxtu_go.Base.Result.{Result, ok, err, panics}
use loxtu_go.Handlers.Auth.{
  AuthHandler, Server, Post, Page, consent_form, register_form, user_not_found, dashboard, home,
  panicked, set_pair, kept, Answer, show, logs_prefix, tenant_or_public_of, event, log_security,
  issue_cookies,
}
use loxtu_go.Identity.Session.{Jwt, TokenPair, Call}
use loxtu_go.Identity.Ports.{UserStore, CredentialStore}
use loxtu_go.Identity.User.{User, PasskeyCredential}
use loxtu_go.Security.Crypto.{hash_email}
use loxtu_go.Middleware.Request.{Request, query_value, form_value}

pub consent_page : Request → Answer
consent_page r =
    let user_id_hash = query_value r (bytes "user_id_hash") in
    show (if is_empty user_id_hash then home else consent_form user_id_hash)

-- An error of `issueCookies` is dropped.
pub to_dashboard : Result TokenPair → Answer
to_dashboard (ok pair) = record { page = dashboard; cookies = set_pair pair }
to_dashboard (err e) = show dashboard
to_dashboard panics = show panicked

-- HasPasskey, which takes a tenant and an address, if there is one to ask.
pub has_passkey : {W : Type 0} → Option (Str → Str → W → Bool) → Str → Str → W → Bool
has_passkey none tenant_id email w = false
has_passkey (some has) tenant_id email w = has tenant_id email w

-- An error of the search counts as no credentials.
pub has_credentials : Option (List PasskeyCredential) → Bool
has_credentials none = false
has_credentials (some cs) = not (is_empty cs)

pub enrolled : {W : Type 0} → CredentialStore W → Option User → W → Bool
enrolled creds none w = false
enrolled creds (some u) w = has_credentials (creds.find_credentials_by_user_id u.user_id w)

-- The HasPasskey of main.go.
pub passkey_presence :
    {W : Type 0} → (Str → Str) → Str → UserStore W → CredentialStore W → Str → Str → W → Bool
passkey_presence sha256 pepper users creds tenant_id email w =
    enrolled creds (users.find_by_email_hash (hash_email sha256 email pepper) w) w

pub is_filled_in : Request → Bool
is_filled_in r = not (
    is_empty (form_value r (bytes "user_id_hash"))
    || is_empty (form_value r (bytes "gdpr"))
    || is_empty (form_value r (bytes "nis2"))
    || is_empty (form_value r (bytes "soc2")))

module _ (sha256 : Str → Str) (jwt : Jwt) {S W : Type 0} (h : AuthHandler W) where
  pub consented : Server S W → W × Result TokenPair → Server S W × Answer
  consented s (w, r) = (record s { world = w }, to_dashboard r)

  -- The part behind the event: the line of the log stands in front of `issueCookies`.
  pub enter : Post → Str → User → Call → Server S W → Server S W × Answer
  enter post user_id_hash u call s =
      if leb 8 (length user_id_hash)
      then if has_passkey h.passkeys (tenant_or_public_of u) user_id_hash s.world
        then consented s (
            issue_cookies sha256 jwt h post u.user_id (tenant_or_public_of u)
              (bytes "auth.consent.accept") call s.world)
        else (s, show (register_form user_id_hash))
      else (s, show panicked)

  pub accept_user : Post → Str → Call → Server S W → Option User → Server S W × Answer
  accept_user post user_id_hash call s none = (s, show (logs_prefix user_id_hash user_not_found))
  accept_user post user_id_hash call s (some u) = enter post user_id_hash u call (record s {
    world =
        log_security h.audit
          (event post u.user_id (tenant_or_public_of u) [] (bytes "auth.consent.accept")
            (bytes "success"))
          s.world;
  })

  pub accept_hash : Post → Str → Call → Server S W → Server S W × Answer
  accept_hash post user_id_hash call s =
      if is_filled_in post.request
      then accept_user post user_id_hash call s (h.users.find_by_user_id_hash user_id_hash s.world)
      else (s, show (logs_prefix user_id_hash (consent_form user_id_hash)))

  pub consent_accept : Post → Call → Server S W → Server S W × Answer
  consent_accept post call s =
      accept_hash post (form_value post.request (bytes "user_id_hash")) call s

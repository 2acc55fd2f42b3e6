-- ===== src/Handlers/Auth.antt =====
-- internal/interfaces/http/handlers/auth_handler.go: the state and the answers that its handlers
-- share, the limiter in front of them, the audit events and the cookies. The limiter is the one of
-- internal/adapters/ratelimit/memory.go, which never fails. What SetLogEmail and slog write is left
-- out, except that `userIDHash[:8]` panics on a short text.
pub mod Send
pub mod Verify
pub mod Consent
pub mod Session
pub mod SignIn
mod Tests
use loxtu_go.Base.{
  ℕ, Bool, true, false, Option, none, some, List, [], Str, bytes, is_empty, leb, length,
  if◌then◌else◌,
}
use loxtu_go.Base.Result.{Result, ok, err, panics}
use loxtu_go.Adapters.Audit.{SecurityEvent}
use loxtu_go.Adapters.RateLimit.{MemoryRateLimiter, allow, reset}
use loxtu_go.Identity.Otp.{OtpService}
use loxtu_go.Identity.Ports.{UserStore}
use loxtu_go.Identity.RateLimit.{policy_otp}
use loxtu_go.Identity.Session.{Jwt, TokenPair, Call}
use loxtu_go.Identity.Token.{TokenService, issue_session}
use loxtu_go.Identity.User.{User}
use loxtu_go.Middleware.Request.{Request}

-- A dependency that is nil is `none`. What LogSecurityEvent answers is never read.
pub record AuthHandler (W : Type 0) : Type 0 where
  pub otp : OtpService
  pub tokens : TokenService W
  pub users : UserStore W
  pub resolve_by_domain : Option (Str → Option Str)
  pub audit : Option (SecurityEvent → W → W)
  pub passkeys : Option (Str → Str → W → Bool)
  pub pepper : Str

-- What the handlers change: the state of the store of codes, the rest of the stored data, and the
-- limiter, `none` if it is nil.
pub record Server (S W : Type 0) : Type 0 where
  pub codes : S
  pub world : W
  pub limiter : Option MemoryRateLimiter

-- A request, whether its form parses, the values of the form's field `code`, and what the request
-- identifier's middleware has found.
pub record Post : Type 0 where
  pub request : Request
  pub is_parsed : Bool
  pub code_values : List Str
  pub client_ip : Str
  pub req_id : Str

-- The body or the redirection of an answer.
pub data Page : Type 0 where
  login_form : Page
  otp_form : Str → Str → Page
  too_many_attempts : Page
  invalid_code : Page
  consent_form : Str → Page
  register_form : Str → Page
  bad_request : Page
  user_not_found : Page
  internal_error : Page
  unauthorized : Page
  dashboard : Page
  home : Page
  no_content : Page
  empty_page : Page
  panicked : Page

pub data CookieChange : Type 0 where
  kept : CookieChange
  set_pair : TokenPair → CookieChange
  cleared : CookieChange

pub record Answer : Type 0 where
  pub page : Page
  pub cookies : CookieChange

abbrev pub show : Page → Answer
show p = record { page = p; cookies = kept }

-- An answer behind a line of the log that holds the first eight bytes of the text.
abbrev pub logs_prefix : Str → Page → Page
logs_prefix text p = if leb 8 (length text) then p else panicked

pub tenant_or_public_of : User → Str
tenant_or_public_of u = if is_empty u.tenant_id then bytes "public" else u.tenant_id

-- `Allow` under the policy for codes; without a limiter everything is allowed.
pub limited : Option MemoryRateLimiter → Str → ℕ → Option MemoryRateLimiter × Bool
limited none key now = (none, true)
limited (some r) key now = let (r', allowed) = allow r key policy_otp now in (some r', allowed)

pub reset_key : Option MemoryRateLimiter → Str → Option MemoryRateLimiter
reset_key none key = none
reset_key (some r) key = some (reset r key)

pub event : Post → Str → Str → Str → Str → Str → SecurityEvent
event post user_id tenant_id masked_email action status = record {
  user_id = user_id;
  tenant_id = tenant_id;
  masked_email = masked_email;
  action = action;
  resource_type = [];
  resource_id = [];
  status = status;
  client_ip = post.client_ip;
  req_id = post.req_id;
}

pub log_security : {W : Type 0} → Option (SecurityEvent → W → W) → SecurityEvent → W → W
log_security none e w = w
log_security (some log) e w = log e w

module _ {W : Type 0} (h : AuthHandler W) where
  -- The rest of `issueCookies`: a failure leaves the answer alone.
  pub cookies_for : Post → Str → Str → Str → W × Result TokenPair → W × Result TokenPair
  cookies_for post user_id tenant_id action (w, ok pair) =
      (log_security h.audit (event post user_id tenant_id [] action (bytes "success")) w, ok pair)
  cookies_for post user_id tenant_id action (w, err e) = (w, err e)
  cookies_for post user_id tenant_id action (w, panics) = (w, panics)

module _ (sha256 : Str → Str) (jwt : Jwt) {W : Type 0} (h : AuthHandler W) where
  pub issue_cookies : Post → Str → Str → Str → Call → W → W × Result TokenPair
  issue_cookies post user_id tenant_id action call w =
      cookies_for h post user_id tenant_id action
        (issue_session sha256 jwt h.tokens user_id tenant_id (bytes "worker") [] call w)

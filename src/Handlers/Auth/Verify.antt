-- ===== src/Handlers/Auth/Verify.antt =====
-- internal/interfaces/http/handlers/auth_handler.go: VerifyOTP. What HasPasskey answers is not read,
-- so the call is left out.
pub mod Guards
pub mod Accepts
pub mod Permits
pub mod Effects
pub mod Budget
use loxtu_go.Base.{
  ℕ, Bool, true, false, Option, none, some, List, [], ◌∷◌, ◌++◌, Str, bytes, is_empty, not, ◌||◌,
  if◌then◌else◌,
}
use loxtu_go.Base.Result.{Result, ok, err, panics}
use loxtu_go.Base.Strings.{trim_space}
use loxtu_go.Adapters.RateLimit.{MemoryRateLimiter}
use loxtu_go.Handlers.Auth.{
  AuthHandler, Server, Post, Page, too_many_attempts, invalid_code, consent_form, bad_request,
  user_not_found, dashboard, empty_page, panicked, set_pair, kept, Answer, show, logs_prefix,
  tenant_or_public_of, limited, reset_key, event, log_security, issue_cookies,
}
use loxtu_go.Identity.Otp.{
  OtpStore, VerifyResult, valid, invalid, not_configured, panics as otp_panics, verify,
}
use loxtu_go.Identity.RateLimit.{rate_key_otp_send, rate_key_otp_fail}
use loxtu_go.Identity.Session.{Jwt, TokenPair, Call}
use loxtu_go.Identity.User.{User, mask_email_string}
use loxtu_go.Middleware.Request.{form_value}

-- strings.Join with an empty separator.
unfoldable pub join : List Str → Str
join [] = []
join (s ∷ rest) = s ++ join rest

unfoldable pub consent_granted : Str → Str → Bool
consent_granted user_id masked = false

-- A user who is nil, or has no identifier, is `none`.
unfoldable pub identified : Option User → Option User
identified none = none
identified (some u) = if is_empty u.user_id then none else some u

pub dashboard_answer : Result TokenPair → Answer
dashboard_answer (ok pair) = record { page = dashboard; cookies = set_pair pair }
dashboard_answer (err e) = show empty_page
dashboard_answer panics = show panicked

-- The limits that a right code lifts.
unfoldable pub lift_limits : Str → Option MemoryRateLimiter → Option MemoryRateLimiter
lift_limits user_id_hash limiter =
    reset_key (reset_key limiter (rate_key_otp_send user_id_hash)) (rate_key_otp_fail user_id_hash)

module _ (sha256 : Str → Str) (jwt : Jwt) (store : OtpStore) {W : Type 0} (h : AuthHandler W) where
  pub granted_to : Server store.State W → W × Result TokenPair → Server store.State W × Answer
  granted_to s (w, r) = (record s { world = w }, dashboard_answer r)

  -- The end of `VerifyOTP` for a user who was found.
  unfoldable pub consent_or_session :
      Post → Str → User → Call → Server store.State W → Server store.State W × Answer
  consent_or_session post user_id_hash u call s =
      let tenant_id = tenant_or_public_of u in
      let masked = mask_email_string (bytes "***") in
      if consent_granted u.user_id masked
      then granted_to s (
          issue_cookies sha256 jwt h post u.user_id tenant_id (bytes "auth.otp.verify") call
            s.world)
      else (
        record s {
          world =
              log_security h.audit
                (event post u.user_id tenant_id masked (bytes "auth.otp.verify") (bytes "success"))
                s.world;
        },
        show (consent_form user_id_hash),
      )

  unfoldable pub verified_user :
      Post → Str → Call → Server store.State W → Option User → Server store.State W × Answer
  verified_user post user_id_hash call s none = (s, show (logs_prefix user_id_hash user_not_found))
  verified_user post user_id_hash call s (some u) = consent_or_session post user_id_hash u call s

  unfoldable pub refuse : Post → Str → Server store.State W → Server store.State W × Answer
  refuse post user_id_hash s = (
    record s {
      world =
          log_security h.audit
            (event post user_id_hash [] [] (bytes "auth.otp.verify") (bytes "failure")) s.world;
    },
    show invalid_code,
  )

  unfoldable pub judge :
      Post
      → Str
      → Call
      → W
      → Option MemoryRateLimiter
      → store.State × VerifyResult
      → Server store.State W × Answer
  judge post user_id_hash call w limiter (codes, valid) =
      verified_user post user_id_hash call
        (record { codes = codes; world = w; limiter = lift_limits user_id_hash limiter })
        (identified (h.users.find_by_user_id_hash user_id_hash w))
  judge post user_id_hash call w limiter (codes, invalid) =
      refuse post user_id_hash (record { codes = codes; world = w; limiter = limiter })
  judge post user_id_hash call w limiter (codes, not_configured) =
      refuse post user_id_hash (record { codes = codes; world = w; limiter = limiter })
  judge post user_id_hash call w limiter (codes, otp_panics) =
      (record { codes = codes; world = w; limiter = limiter }, show panicked)

  unfoldable pub verify_allowed :
      Post
      → Str
      → Str
      → Call
      → store.State
      → W
      → Option MemoryRateLimiter × Bool
      → Server store.State W × Answer
  verify_allowed post user_id_hash code call codes w (limiter, false) =
      (record { codes = codes; world = w; limiter = limiter }, show too_many_attempts)
  verify_allowed post user_id_hash code call codes w (limiter, true) =
      judge post user_id_hash call w limiter
        (verify sha256 store h.otp codes user_id_hash code call.now)

  unfoldable pub verify_code :
      Post → Str → Str → Call → Server store.State W → Server store.State W × Answer
  verify_code post user_id_hash code call s =
      if is_empty user_id_hash || is_empty code
      then (s, show bad_request)
      else verify_allowed post user_id_hash code call s.codes s.world
          (limited s.limiter (rate_key_otp_fail user_id_hash) call.now)

  -- The flag says that the form parses.
  unfoldable pub verify_form :
      Bool → Post → Call → Server store.State W → Server store.State W × Answer
  verify_form false post call s = (s, show bad_request)
  verify_form true post call s =
      verify_code post (form_value post.request (bytes "user_id_hash"))
        (trim_space (join post.code_values)) call s

  unfoldable pub verify_otp : Post → Call → Server store.State W → Server store.State W × Answer
  verify_otp post call s = verify_form post.is_parsed post call s

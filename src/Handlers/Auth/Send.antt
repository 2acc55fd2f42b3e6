-- ===== src/Handlers/Auth/Send.antt =====
-- internal/interfaces/http/handlers/auth_handler.go: SendOTP. The draws of the code, and whether the
-- message is delivered, are arguments.
pub mod Limits
pub mod Forms
use loxtu_go.Base.{
  ℕ, Bool, true, false, Option, none, some, [], Str, bytes, is_empty, not, ◌||◌, if◌then◌else◌,
}
use loxtu_go.Base.Strings.{trim_space, contains_byte}
use loxtu_go.Adapters.RateLimit.{MemoryRateLimiter}
use loxtu_go.Handlers.Auth.{
  AuthHandler, Server, Post, Page, login_form, otp_form, too_many_attempts, bad_request,
  internal_error, Answer, show, limited, event, log_security,
}
use loxtu_go.Handlers.Tenant.{tenant_or_public}
use loxtu_go.Identity.Otp.{
  OtpStore, SendResult, sent, printed, generate_failed, save_failed, send_failed, send,
}
use loxtu_go.Identity.RateLimit.{rate_key_otp_send}
use loxtu_go.Identity.User.{User, zero_user, mask_email_string}
use loxtu_go.Middleware.Request.{form_value}
use loxtu_go.Security.Crypto.{hash_email}

unfoldable pub is_delivered : SendResult → Bool
is_delivered (sent n) = true
is_delivered (printed email code) = true
is_delivered generate_failed = false
is_delivered save_failed = false
is_delivered (send_failed n) = false

-- A user who is found without an identifier counts as unknown.
unfoldable pub known : Option User → Option User
known none = none
known (some u) = if is_empty u.user_id then none else some u

unfoldable pub pending_user : Str → Str → ℕ → User
pending_user email_hash tenant_id now = record zero_user {
  email_hash = email_hash;
  tenant_id = tenant_id;
  status = bytes "pending";
  is_active = false;
  created_at = now;
  updated_at = now;
}

module _ (sha256 : Str → Str) (store : OtpStore) {W : Type 0} (h : AuthHandler W) where
  unfoldable pub find_or_create : Str → Str → ℕ → W → Option User → W × Option User
  find_or_create email_hash tenant_id now w (some u) = (w, some u)
  find_or_create email_hash tenant_id now w none =
      h.users.create (pending_user email_hash tenant_id now) w

  -- The event of a code that was sent. `security.MaskEmail` is the function of user.go once more.
  unfoldable pub sent_to :
      Post
      → Str
      → Str
      → User
      → W
      → Option MemoryRateLimiter
      → store.State × SendResult
      → Server store.State W × Answer
  sent_to post email tenant_id u w limiter (codes, result) =
      if is_delivered result
      then (
        record {
          codes = codes;
          world =
              log_security h.audit
                (event post u.user_id tenant_id (mask_email_string email) (bytes "auth.otp.send")
                  (bytes "success"))
                w;
          limiter = limiter;
        },
        show (otp_form email u.user_id_hash),
      )
      else (record { codes = codes; world = w; limiter = limiter }, show login_form)

  unfoldable pub send_to :
      Post
      → Str
      → Str
      → (ℕ → Option ℕ)
      → ℕ
      → Bool
      → store.State
      → Option MemoryRateLimiter
      → W × Option User
      → Server store.State W × Answer
  send_to post email tenant_id draw now delivered codes limiter (w, none) =
      (record { codes = codes; world = w; limiter = limiter }, show internal_error)
  send_to post email tenant_id draw now delivered codes limiter (w, some u) =
      sent_to post email tenant_id u w limiter
        (send sha256 store h.otp codes email u.user_id_hash draw now delivered)

  unfoldable pub send_allowed :
      Post
      → Str
      → (ℕ → Option ℕ)
      → ℕ
      → Bool
      → store.State
      → W
      → Option MemoryRateLimiter × Bool
      → Server store.State W × Answer
  send_allowed post email draw now delivered codes w (limiter, false) =
      (record { codes = codes; world = w; limiter = limiter }, show too_many_attempts)
  send_allowed post email draw now delivered codes w (limiter, true) =
      let tenant_id = tenant_or_public h.resolve_by_domain email in
      let hash = hash_email sha256 email h.pepper in
      send_to post email tenant_id draw now delivered codes limiter
        (find_or_create hash tenant_id now w (known (h.users.find_by_email_hash hash w)))

  unfoldable pub send_email :
      Post → Str → (ℕ → Option ℕ) → ℕ → Bool → Server store.State W → Server store.State W × Answer
  send_email post email draw now delivered s =
      if is_empty email || not (contains_byte email b'@')
      then (s, show login_form)
      else send_allowed post email draw now delivered s.codes s.world
          (limited s.limiter (rate_key_otp_send email) now)

  -- The flag says that the form parses.
  unfoldable pub send_form :
      Bool → Post → (ℕ → Option ℕ) → ℕ → Bool → Server store.State W → Server store.State W × Answer
  send_form false post draw now delivered s = (s, show bad_request)
  send_form true post draw now delivered s =
      send_email post (trim_space (form_value post.request (bytes "email"))) draw now delivered s

  unfoldable pub send_otp :
      Post → (ℕ → Option ℕ) → ℕ → Bool → Server store.State W → Server store.State W × Answer
  send_otp post draw now delivered s = send_form post.is_parsed post draw now delivered s

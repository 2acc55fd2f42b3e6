-- ===== src/Handlers/Auth/SignIn.antt =====
-- internal/interfaces/http/handlers/auth_handler.go: SendOTP and VerifyOTP one after the other.
use loxtu_go.Base.{ℕ, ◌+◌, ◌≡◌, ◌≢◌, ◌≤◌, Bool, true, Option, some, Str, bytes, []}
use loxtu_go.Base.Strings.{trim_space}
use loxtu_go.Handlers.Auth.{AuthHandler, Server, Post, otp_form, consent_form, limited}
use loxtu_go.Handlers.Auth.Send.{known, send_otp}
use loxtu_go.Handlers.Auth.Verify.{join, verify_otp}
use loxtu_go.Handlers.Auth.Send.Forms.{send_otp-form}
use loxtu_go.Handlers.Auth.Verify.Accepts.{verify_otp_valid}
use loxtu_go.Identity.Otp.{OtpStore, IsReliable, generate_code, otp_lifetime}
use loxtu_go.Identity.Otp.RoundTrip.{verify-send}
use loxtu_go.Identity.RateLimit.{rate_key_otp_fail}
use loxtu_go.Identity.Session.{Jwt, Call}
use loxtu_go.Identity.User.{User}
use loxtu_go.Middleware.Request.{form_value}

module _ (sha256 : Str → Str) (jwt : Jwt) (store : OtpStore) (reliable : IsReliable store)
    {W : Type 0} (h : AuthHandler W) where
  -- Signing in works: when SendOTP answers with the form for the code and names a hash, then
  -- VerifyOTP with this hash and the code that was drawn, however it is split over the fields, shows
  -- the consent form, if it comes within three minutes, the limiter permits it, and the user of the
  -- hash is found and has an identifier. The store of codes does not fail.
  pub send-verify :
      (asking post : Post) (email hash code : Str) (draw : ℕ → Option ℕ) (now : ℕ)
      (delivered : Bool) (call : Call) (u : User) (s : Server store.State W)
      → let after = (send_otp sha256 store h asking draw now delivered s).0 in
        h.otp.has_store ≡ true
        → (send_otp sha256 store h asking draw now delivered s).1.page ≡ otp_form email hash
        → generate_code draw ≡ some code
        → call.now ≤ now + otp_lifetime
        → post.is_parsed ≡ true
        → form_value post.request (bytes "user_id_hash") ≡ hash
        → trim_space (join post.code_values) ≡ code
        → hash ≢ []
        → code ≢ []
        → (limited after.limiter (rate_key_otp_fail hash) call.now).1 ≡ true
        → h.users.find_by_user_id_hash hash after.world ≡ some u
        → u.user_id ≢ []
        → (verify_otp sha256 jwt store h post call after).1.page ≡ consent_form hash
  send-verify asking post email hash code draw now delivered call u s has shown drawn early parsed
        named typed ne_hash ne_code free found known =
      let stored = send_otp-form sha256 store h asking email hash draw now delivered s shown in
      verify_otp_valid sha256 jwt store h post hash code call _ u parsed named typed ne_hash ne_code
        free
        (rw stored
          (verify-send sha256 store reliable h.otp s.codes email hash code code draw now call.now
            call.now delivered has drawn early).0)
        found known

-- ===== src/Handlers/Auth/Verify/Accepts.antt =====
-- internal/interfaces/http/handlers/auth_handler.go: VerifyOTP with a right code.
use loxtu_go.Base.{
  ◌≡◌, ◌≢◌, refl, ap, Bool, true, false, Option, none, some, Str, bytes, [], is_empty_of_ne,
  if◌then◌else◌,
}
use loxtu_go.Base.Strings.{trim_space}
use loxtu_go.Adapters.RateLimit.{MemoryRateLimiter}
use loxtu_go.Handlers.Auth.{AuthHandler, Server, Post, consent_form, limited}
use loxtu_go.Handlers.Auth.Send.{known}
use loxtu_go.Handlers.Auth.Verify.{
  join, consent_granted, identified, consent_or_session, verified_user, judge, verify_allowed,
  verify_code, verify_form, verify_otp,
}
use loxtu_go.Identity.Otp.{OtpStore, VerifyResult, valid, verify}
use loxtu_go.Identity.RateLimit.{rate_key_otp_fail}
use loxtu_go.Identity.Session.{Jwt, Call}
use loxtu_go.Identity.User.{User}
use loxtu_go.Middleware.Request.{form_value}

identified-some : (u : User) → u.user_id ≢ [] → identified (some u) ≡ some u
unfolding identified
identified-some u named = ap (λ b. if b then none else some u) (is_empty_of_ne u.user_id named)

module _ (sha256 : Str → Str) (jwt : Jwt) (store : OtpStore) {W : Type 0} (h : AuthHandler W) where
  judge_valid :
      (post : Post) (key : Str) (call : Call) (w : W) (limiter : Option MemoryRateLimiter)
      (u : User) (p : store.State × VerifyResult)
      → p.1 ≡ valid
      → h.users.find_by_user_id_hash key w ≡ some u
      → u.user_id ≢ []
      → (judge sha256 jwt store h post key call w limiter p).1.page ≡ consent_form key
  unfolding judge verified_user consent_or_session consent_granted
  judge_valid post key call w limiter u (codes, r) e found known =
      rw (e, found, identified-some u known) refl

  verify_allowed_valid :
      (post : Post) (key code : Str) (call : Call) (codes : store.State) (w : W) (u : User)
      (p : Option MemoryRateLimiter × Bool)
      → p.1 ≡ true
      → (verify sha256 store h.otp codes key code call.now).1 ≡ valid
      → h.users.find_by_user_id_hash key w ≡ some u
      → u.user_id ≢ []
      → (verify_allowed sha256 jwt store h post key code call codes w p).1.page ≡ consent_form key
  unfolding verify_allowed
  verify_allowed_valid post key code call codes w u (limiter, false) t e found known = absurd cc
  verify_allowed_valid post key code call codes w u (limiter, true) t e found known =
      judge_valid post key call w limiter u _ e found known

  verify_form_valid :
      (parsed : Bool) (post : Post) (key code : Str) (call : Call) (s : Server store.State W)
      (u : User)
      → parsed ≡ true
      → form_value post.request (bytes "user_id_hash") ≡ key
      → trim_space (join post.code_values) ≡ code
      → key ≢ []
      → code ≢ []
      → (limited s.limiter (rate_key_otp_fail key) call.now).1 ≡ true
      → (verify sha256 store h.otp s.codes key code call.now).1 ≡ valid
      → h.users.find_by_user_id_hash key s.world ≡ some u
      → u.user_id ≢ []
      → (verify_form sha256 jwt store h parsed post call s).1.page ≡ consent_form key
  unfolding verify_form verify_code
  verify_form_valid false post key code call s u parsed named typed ne_key ne_code free right found
        known =
      absurd cc
  verify_form_valid true post key code call s u parsed named typed ne_key ne_code free right found
        known =
      rw (named, typed, is_empty_of_ne key ne_key, is_empty_of_ne code ne_code)
        (verify_allowed_valid post key code call s.codes s.world u _ free right found known)

  pub verify_otp_valid :
      (post : Post) (key code : Str) (call : Call) (s : Server store.State W) (u : User)
      → post.is_parsed ≡ true
      → form_value post.request (bytes "user_id_hash") ≡ key
      → trim_space (join post.code_values) ≡ code
      → key ≢ []
      → code ≢ []
      → (limited s.limiter (rate_key_otp_fail key) call.now).1 ≡ true
      → (verify sha256 store h.otp s.codes key code call.now).1 ≡ valid
      → h.users.find_by_user_id_hash key s.world ≡ some u
      → u.user_id ≢ []
      → (verify_otp sha256 jwt store h post call s).1.page ≡ consent_form key
  unfolding verify_otp
  verify_otp_valid post key code call s u parsed named typed ne_key ne_code free right found known =
      verify_form_valid post.is_parsed post key code call s u parsed named typed ne_key ne_code free
        right found known

-- ===== src/Handlers/Auth/Verify/Effects.antt =====
-- internal/interfaces/http/handlers/auth_handler.go: what VerifyOTP does to the limiter.
use loxtu_go.Base.{
  ℕ, ◌≡◌, ◌⊎◌, ◌≤◌, refl, inl, inr, arith, Bool, true, false, ◌||◌, Option, none, some, Str, bytes,
  is_empty, Bool-cases, leb, length,
}
use loxtu_go.Base.Strings.{trim_space}
use loxtu_go.Adapters.RateLimit.{MemoryRateLimiter}
use loxtu_go.Adapters.RateLimit.Budget.{tick}
use loxtu_go.Handlers.Auth.{
  AuthHandler, Server, Post, Page, too_many_attempts, invalid_code, bad_request, user_not_found,
  Answer, logs_prefix, limited,
}
use loxtu_go.Handlers.Auth.Verify.{
  join, consent_granted, consent_or_session, verified_user, refuse, judge, lift_limits,
  verify_allowed, verify_code, verify_form, verify_otp,
}
use loxtu_go.Identity.Otp.{OtpStore, VerifyResult, valid, invalid, not_configured, panics}
use loxtu_go.Identity.RateLimit.{rate_key_otp_fail}
use loxtu_go.Identity.Session.{Jwt, Call}
use loxtu_go.Identity.User.{User}
use loxtu_go.Middleware.Request.{form_value}

-- A wrong code was told to be wrong.
abbrev pub is_invalid : Page → Bool
is_invalid invalid_code = true
is_invalid _ = false

-- Nothing was found out about a code, or that it is wrong.
abbrev pub is_refusal : Page → Bool
is_refusal invalid_code = true
is_refusal too_many_attempts = true
is_refusal bad_request = true
is_refusal _ = false

-- The three ways a check of a code under a key can end: the limiter was not asked; it was asked, and
-- a wrong code was told so only if it permitted that; or the limits were lifted.
abbrev pub CheckEffect :
    {S W : Type 0} → Str → ℕ → Option MemoryRateLimiter → Server S W × Answer → Type 0
CheckEffect key now before r =
    let asked = limited before (rate_key_otp_fail key) now in
    ((r.0.limiter ≡ before) × (is_invalid r.1.page ≡ false))
    ⊎ (((r.0.limiter ≡ asked.0) × (tick (is_invalid r.1.page) ≤ tick asked.1))
        ⊎ ((r.0.limiter ≡ lift_limits key asked.0) × (is_refusal r.1.page ≡ false)))

logs_refusal : (key : Str) → is_refusal (logs_prefix key user_not_found) ≡ false
logs_refusal key = elim (Bool-cases (leb 8 (length key))) [ inl t ↦ rw t refl | inr f ↦ rw f refl ]

module _ (sha256 : Str → Str) (jwt : Jwt) (store : OtpStore) {W : Type 0} (h : AuthHandler W) where
  verified_user-limiter :
      (post : Post) (key : Str) (call : Call) (s : Server store.State W) (o : Option User)
      → ((verified_user sha256 jwt store h post key call s o).0.limiter ≡ s.limiter)
        × (is_refusal (verified_user sha256 jwt store h post key call s o).1.page ≡ false)
  unfolding verified_user consent_or_session consent_granted
  verified_user-limiter post key call s none = (refl, logs_refusal key)
  verified_user-limiter post key call s (some u) = (refl, refl)

  judge-effect :
      (post : Post) (key : Str) (call : Call) (w : W) (before limiter : Option MemoryRateLimiter)
      (r : store.State × VerifyResult)
      → limited before (rate_key_otp_fail key) call.now ≡ (limiter, true)
      → CheckEffect key call.now before (judge sha256 jwt store h post key call w limiter r)
  unfolding judge refuse
  judge-effect post key call w before limiter (codes, valid) e = rw e (
      inr (
        inr (
          verified_user-limiter post key call
            (record { codes = codes; world = w; limiter = lift_limits key limiter }) _)))
  judge-effect post key call w before limiter (codes, invalid) e =
      rw e (inr (inl (refl, omega arith)))
  judge-effect post key call w before limiter (codes, not_configured) e =
      rw e (inr (inl (refl, omega arith)))
  judge-effect post key call w before limiter (codes, panics) e =
      rw e (inr (inl (refl, omega arith)))

  verify_allowed-effect :
      (post : Post) (key code : Str) (call : Call) (codes : store.State) (w : W)
      (before : Option MemoryRateLimiter) (p : Option MemoryRateLimiter × Bool)
      → limited before (rate_key_otp_fail key) call.now ≡ p
      → CheckEffect key call.now before
          (verify_allowed sha256 jwt store h post key code call codes w p)
  unfolding verify_allowed
  verify_allowed-effect post key code call codes w before (limiter, false) e =
      rw e (inr (inl (refl, omega arith)))
  verify_allowed-effect post key code call codes w before (limiter, true) e =
      judge-effect post key call w before limiter _ e

  verify_form-effect :
      (parsed : Bool) (post : Post) (call : Call) (s : Server store.State W)
      → CheckEffect
          (form_value post.request (bytes "user_id_hash"))
          call.now
          s.limiter
          (verify_form sha256 jwt store h parsed post call s)
  unfolding verify_form verify_code
  verify_form-effect false post call s = inl (refl, refl)
  verify_form-effect true post call s =
      let key = form_value post.request (bytes "user_id_hash") in
      let code = trim_space (join post.code_values) in
      elim (Bool-cases (is_empty key || is_empty code)) [
        | inl t ↦ rw t (inl (refl, refl))
        | inr f ↦ rw f (verify_allowed-effect post key code call s.codes s.world s.limiter _ refl)
      ]

  pub verify_otp-effect :
      (post : Post) (call : Call) (s : Server store.State W)
      → CheckEffect
          (form_value post.request (bytes "user_id_hash"))
          call.now
          s.limiter
          (verify_otp sha256 jwt store h post call s)
  unfolding verify_otp
  verify_otp-effect post call s = verify_form-effect post.is_parsed post call s

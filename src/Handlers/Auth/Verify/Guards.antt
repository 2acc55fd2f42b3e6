-- ===== src/Handlers/Auth/Verify/Guards.antt =====
-- internal/interfaces/http/handlers/auth_handler.go: what VerifyOTP asks for before it lets a user
-- go on.
use loxtu_go.Base.{
  ◌≡◌, ◌≢◌, ◌≤◌, ◌<◌, refl, inl, inr, Bool, true, false, ◌||◌, Option, none, some, Str, bytes,
  is_empty, leb, length, Bool-cases,
}
use loxtu_go.Base.Strings.{trim_space}
use loxtu_go.Adapters.RateLimit.{MemoryRateLimiter}
use loxtu_go.Handlers.Auth.{
  AuthHandler, Server, Post, consent_form, user_not_found, logs_prefix, kept, limited,
}
use loxtu_go.Handlers.Auth.Verify.{
  join, consent_granted, consent_or_session, verified_user, refuse, judge, verify_allowed,
  verify_code, verify_form, verify_otp,
}
use loxtu_go.Identity.Hash.{sha256_hex}
use loxtu_go.Identity.Otp.{
  OtpRecord, OtpStore, VerifyResult, valid, invalid, not_configured, panics, verify, max_attempts,
}
use loxtu_go.Identity.Otp.Lockout.{valid_iff, valid-has_store}
use loxtu_go.Identity.RateLimit.{rate_key_otp_fail}
use loxtu_go.Identity.Session.{Jwt, Call}
use loxtu_go.Identity.User.{User}
use loxtu_go.Middleware.Request.{form_value}

logs_prefix_ne : (text hash : Str) → logs_prefix text user_not_found ≢ consent_form hash
logs_prefix_ne text hash e = elim (Bool-cases (leb 8 (length text))) [
  | inl t ↦ absurd (cc (rw t at e))
  | inr f ↦ absurd (cc (rw f at e))
]

module _ (sha256 : Str → Str) (jwt : Jwt) (store : OtpStore) {W : Type 0} (h : AuthHandler W) where
  -- What an answer that shows the consent form to a hash rests on.
  verified_user-form :
      (post : Post) (key hash : Str) (call : Call) (s : Server store.State W) (o : Option User)
      → (verified_user sha256 jwt store h post key call s o).1.page ≡ consent_form hash
      → key ≡ hash
  unfolding verified_user consent_or_session consent_granted
  verified_user-form post key hash call s none e = absurd (logs_prefix_ne key hash e)
  verified_user-form post key hash call s (some u) e = cc

  judge-form :
      (post : Post) (key hash : Str) (call : Call) (w : W) (limiter : Option MemoryRateLimiter)
      (r : store.State × VerifyResult)
      → (judge sha256 jwt store h post key call w limiter r).1.page ≡ consent_form hash
      → (key ≡ hash) × (r.1 ≡ valid)
  unfolding judge refuse
  judge-form post key hash call w limiter (codes, valid) e =
      (verified_user-form post key hash call _ _ e, refl)
  judge-form post key hash call w limiter (codes, invalid) e = absurd cc
  judge-form post key hash call w limiter (codes, not_configured) e = absurd cc
  judge-form post key hash call w limiter (codes, panics) e = absurd cc

  verify_allowed-form :
      (post : Post) (key hash code : Str) (call : Call) (codes : store.State) (w : W)
      (p : Option MemoryRateLimiter × Bool)
      → (verify_allowed sha256 jwt store h post key code call codes w p).1.page ≡ consent_form hash
      → (key ≡ hash) × ((verify sha256 store h.otp codes key code call.now).1 ≡ valid)
  unfolding verify_allowed
  verify_allowed-form post key hash code call codes w (limiter, false) e = absurd cc
  verify_allowed-form post key hash code call codes w (limiter, true) e =
      judge-form post key hash call w limiter (verify sha256 store h.otp codes key code call.now) e

  verify_code-form :
      (post : Post) (key hash code : Str) (call : Call) (s : Server store.State W)
      → (verify_code sha256 jwt store h post key code call s).1.page ≡ consent_form hash
      → (key ≡ hash) × ((verify sha256 store h.otp s.codes key code call.now).1 ≡ valid)
  unfolding verify_code
  verify_code-form post key hash code call s e = elim (Bool-cases (is_empty key || is_empty code)) [
    | inl t ↦ absurd (cc (rw t at e))
    | inr f ↦
        verify_allowed-form post key hash code call s.codes s.world
          (limited s.limiter (rate_key_otp_fail key) call.now) (rw f at e)
  ]

  verify_form-form :
      (parsed : Bool) (post : Post) (hash : Str) (call : Call) (s : Server store.State W)
      → (verify_form sha256 jwt store h parsed post call s).1.page ≡ consent_form hash
      → (form_value post.request (bytes "user_id_hash") ≡ hash)
        × ((verify sha256 store h.otp s.codes
              (form_value post.request (bytes "user_id_hash"))
              (trim_space (join post.code_values))
              call.now).1
            ≡ valid)
  unfolding verify_form
  verify_form-form false post hash call s e = absurd cc
  verify_form-form true post hash call s e = verify_code-form post _ hash _ call s e

  -- VerifyOTP shows the consent form only for the hash in the request, and only for a code that is
  -- stored under that hash, has not expired, has fewer than three counted attempts and has the hash
  -- of what was sent.
  pub consent_needs_code :
      (post : Post) (hash : Str) (call : Call) (s : Server store.State W)
      → (verify_otp sha256 jwt store h post call s).1.page ≡ consent_form hash
      → (form_value post.request (bytes "user_id_hash") ≡ hash)
        × ((r : OtpRecord) × (store.get hash s.codes ≡ some r)
            × (call.now ≤ r.expires_at)
            × (r.attempts < max_attempts)
            × (r.code_hash ≡ sha256_hex sha256 (trim_space (join post.code_values))))
  unfolding verify_otp
  consent_needs_code post hash call s e =
      let (same, accepted) = verify_form-form post.is_parsed post hash call s e in
      let fine = rw same at accepted in
      let has = valid-has_store sha256 store h.otp s.codes hash _ call.now fine in
      (same, (valid_iff sha256 store h.otp s.codes hash _ call.now has).0 fine)

  verified_user-kept :
      (post : Post) (key : Str) (call : Call) (s : Server store.State W) (o : Option User)
      → (verified_user sha256 jwt store h post key call s o).1.cookies ≡ kept
  unfolding verified_user consent_or_session consent_granted
  verified_user-kept post key call s none = refl
  verified_user-kept post key call s (some u) = refl

  judge-kept :
      (post : Post) (key : Str) (call : Call) (w : W) (limiter : Option MemoryRateLimiter)
      (r : store.State × VerifyResult)
      → (judge sha256 jwt store h post key call w limiter r).1.cookies ≡ kept
  unfolding judge refuse
  judge-kept post key call w limiter (codes, valid) = verified_user-kept post key call _ _
  judge-kept post key call w limiter (codes, invalid) = refl
  judge-kept post key call w limiter (codes, not_configured) = refl
  judge-kept post key call w limiter (codes, panics) = refl

  verify_allowed-kept :
      (post : Post) (key code : Str) (call : Call) (codes : store.State) (w : W)
      (p : Option MemoryRateLimiter × Bool)
      → (verify_allowed sha256 jwt store h post key code call codes w p).1.cookies ≡ kept
  unfolding verify_allowed
  verify_allowed-kept post key code call codes w (limiter, false) = refl
  verify_allowed-kept post key code call codes w (limiter, true) =
      judge-kept post key call w limiter (verify sha256 store h.otp codes key code call.now)

  verify_form-kept :
      (parsed : Bool) (post : Post) (call : Call) (s : Server store.State W)
      → (verify_form sha256 jwt store h parsed post call s).1.cookies ≡ kept
  unfolding verify_form verify_code
  verify_form-kept false post call s = refl
  verify_form-kept true post call s =
      let key = form_value post.request (bytes "user_id_hash") in
      let code = trim_space (join post.code_values) in
      elim (Bool-cases (is_empty key || is_empty code)) [
        | inl t ↦ rw t refl
        | inr f ↦ rw f (verify_allowed-kept post key code call s.codes s.world _)
      ]

  -- VerifyOTP never sets a cookie, whatever it is asked: no consent is ever found granted, so a right
  -- code alone opens no session.
  pub verify_sets_no_cookie :
      (post : Post) (call : Call) (s : Server store.State W)
      → (verify_otp sha256 jwt store h post call s).1.cookies ≡ kept
  unfolding verify_otp
  verify_sets_no_cookie post call s = verify_form-kept post.is_parsed post call s

-- ===== src/Handlers/Auth/Verify/Budget.antt =====
-- internal/interfaces/http/handlers/auth_handler.go: how many wrong codes SendOTP and VerifyOTP let
-- anyone try for one user.
use loxtu_go.Base.{
  ℕ, ◌+◌, ◌≡◌, ◌≢◌, ◌≤◌, ◌<◌, refl, inl, inr, arith, Bool, true, false, ◌||◌, ◌&&◌, not, Option,
  some, List, [], ◌∷◌, Str, bytes, All, Bool-cases, str_eq, str_eq_iff, ne_of_str_eq,
}
use loxtu_go.Adapters.RateLimit.{MemoryRateLimiter}
use loxtu_go.Base.Map
use loxtu_go.Adapters.RateLimit.Quota.{StartsAfresh}
use loxtu_go.Adapters.RateLimit.Budget.{BudgetAt, tick}
use loxtu_go.Handlers.Auth.Send.Limits.{send_otp-limiter}
use loxtu_go.Handlers.Auth.Verify.Effects.{is_invalid, is_refusal, CheckEffect, verify_otp-effect}
use loxtu_go.Handlers.Auth.Verify.Permits.{
  send_key_ne, fail_key_injective, Permitted, Permitted-of_le, limited-Permitted, limited-frame,
  reset_key-frame,
}
use loxtu_go.Handlers.Auth.{AuthHandler, Server, Post, Answer, limited}
use loxtu_go.Handlers.Auth.Send.{send_otp}
use loxtu_go.Handlers.Auth.Verify.{lift_limits, verify_otp}
use loxtu_go.Identity.Otp.{OtpStore}
use loxtu_go.Identity.RateLimit.{rate_key_otp_send, rate_key_otp_fail, policy_otp}
use loxtu_go.Identity.Session.{Jwt, Call}
use loxtu_go.Middleware.Request.{form_value}

pub data Action : Type 0 where
  sends : Post → (ℕ → Option ℕ) → ℕ → Bool → Action
  checks : Post → Call → Action

abbrev pub time_of : Action → ℕ
time_of (sends post draw now delivered) = now
time_of (checks post call) = call.now

-- The request is a check of a code of the user.
abbrev pub asks : Str → Action → Bool
asks key (sends post draw now delivered) = false
asks key (checks post call) = str_eq (form_value post.request (bytes "user_id_hash")) key

and_true : (a b : Bool) → (a && b) ≡ true → (a ≡ true) × (b ≡ true)
and_true true b e = (refl, e)
and_true false b e = absurd cc

StartsAfresh-BudgetAt :
    (r : MemoryRateLimiter) (key : Str) (t : ℕ)
    → StartsAfresh r key policy_otp t
    → BudgetAt policy_otp t 0 (Map.lookup key r.entries)
StartsAfresh-BudgetAt r key t (inl e) = rw e refl
StartsAfresh-BudgetAt r key t (inr (b, e, _, over)) = rw e (inr (over, refl))

module _ (sha256 : Str → Str) (jwt : Jwt) (store : OtpStore) {W : Type 0} (h : AuthHandler W) where
  unfoldable pub act : Action → Server store.State W → Server store.State W × Answer
  act (sends post draw now delivered) s = send_otp sha256 store h post draw now delivered s
  act (checks post call) s = verify_otp sha256 jwt store h post call s

  -- How many checks of the user's codes are answered that the code is wrong.
  pub told_wrong : Str → List Action → Server store.State W → ℕ
  told_wrong key [] s = 0
  told_wrong key (a ∷ more) s =
      let (s', answer) = act a s in
      tick (asks key a && is_invalid answer.page) + told_wrong key more s'

  -- No check of the user's codes finds the right one.
  unfoldable pub all_refused : Str → List Action → Server store.State W → Bool
  all_refused key [] s = true
  all_refused key (a ∷ more) s =
      let (s', answer) = act a s in
      let rest = all_refused key more s' in (not (asks key a) || is_refusal answer.page) && rest

  check_Permitted :
      (key : Str) (t n now : ℕ) (before : Option MemoryRateLimiter)
      (r : Server store.State W × Answer)
      → t ≤ now
      → now < t + policy_otp.window
      → is_refusal r.1.page ≡ true
      → CheckEffect key now before r
      → Permitted key t n before
      → Permitted key t (n + tick (is_invalid r.1.page)) r.0.limiter
  check_Permitted key t n now before r late soon fine effect permitted = elim effect [
    | inl (same, untold) ↦
        Permitted-of_le key t n _ r.0.limiter (rw untold (omega arith)) (rw same permitted)
    | inr (inl (same, few)) ↦
        Permitted-of_le key t (n + tick (limited before (rate_key_otp_fail key) now).1) _
          r.0.limiter (omega (arith, few))
          (rw same (limited-Permitted before key t n now late soon permitted))
    | inr (inr (_, told)) ↦ absurd (cc (fine, told))
  ]

  check_frame :
      (key other : Str) (t n now : ℕ) (before : Option MemoryRateLimiter)
      (r : Server store.State W × Answer)
      → other ≢ key
      → CheckEffect other now before r
      → Permitted key t n before
      → Permitted key t n r.0.limiter
  unfolding lift_limits
  check_frame key other t n now before r ne effect permitted =
      let apart : rate_key_otp_fail other ≢ rate_key_otp_fail key =
        λ e. ne (fail_key_injective other key e) in
      let asked = limited-frame before key (rate_key_otp_fail other) t n now apart permitted in
      elim effect [
        | inl (same, _) ↦ rw same permitted
        | inr (inl (same, _)) ↦ rw same asked
        | inr (inr (same, _)) ↦ rw same (
            reset_key-frame _ key (rate_key_otp_fail other) t n apart
              (reset_key-frame _ key (rate_key_otp_send other) t n (send_key_ne other key) asked))
      ]

  act-Permitted :
      (key : Str) (t n : ℕ) (a : Action) (s : Server store.State W)
      → t ≤ time_of a
      → time_of a < t + policy_otp.window
      → (not (asks key a) || is_refusal (act a s).1.page) ≡ true
      → Permitted key t n s.limiter
      → Permitted key t (n + tick (asks key a && is_invalid (act a s).1.page)) (act a s).0.limiter
  unfolding act
  act-Permitted key t n (sends post draw now delivered) s late soon fine permitted =
      Permitted-of_le key t n _ _ (omega arith)
        (elim (send_otp-limiter sha256 store h post draw now delivered s) [
          | inl same ↦ rw same permitted
          | inr (email, same) ↦ rw same (
              limited-frame s.limiter key (rate_key_otp_send email) t n now (send_key_ne email key)
                permitted)
        ])
  act-Permitted key t n (checks post call) s late soon fine permitted =
      let other = form_value post.request (bytes "user_id_hash") in
      let r = verify_otp sha256 jwt store h post call s in
      let effect = verify_otp-effect sha256 jwt store h post call s in
      elim (Bool-cases (str_eq other key)) [
        | inl same ↦ rw same (
            check_Permitted key t n call.now s.limiter r late soon (rw same at fine)
              (rw ((str_eq_iff other key).0 same) at effect) permitted)
        | inr ne ↦ rw ne (
            Permitted-of_le key t n _ _ (omega arith) (
              check_frame key other t n call.now s.limiter r (ne_of_str_eq other key ne) effect
                permitted))
      ]

  told_wrong-Permitted :
      (key : Str) (t : ℕ) (more : List Action) (n : ℕ) (s : Server store.State W)
      → All (λ a. (t ≤ time_of a) × (time_of a < t + policy_otp.window)) more
      → all_refused key more s ≡ true
      → Permitted key t n s.limiter
      → n + told_wrong key more s ≤ policy_otp.max_attempts
  unfolding told_wrong all_refused
  told_wrong-Permitted key t [] n s times fine (r, e, (less, at)) = omega (arith, less)
  told_wrong-Permitted key t (a ∷ more) n s ((late, soon), times) fine permitted =
      let (now_fine, later_fine) = and_true _ _ fine in
      let one = act-Permitted key t n a s late soon now_fine permitted in
      omega (
        arith,
        told_wrong-Permitted key t more (n + tick (asks key a && is_invalid (act a s).1.page))
            (act a s).0 times later_fine one,
      )

  -- Whatever codes are asked for in between and whoever asks: in ten minutes at whose start the
  -- limiter has counted nothing for a user, at most five checks of the user's codes are told that
  -- the code is wrong, unless a check in between finds the right code.
  pub guess_budget :
      (key : Str) (t : ℕ) (r : MemoryRateLimiter) (more : List Action) (s : Server store.State W)
      → s.limiter ≡ some r
      → StartsAfresh r (rate_key_otp_fail key) policy_otp t
      → All (λ a. (t ≤ time_of a) × (time_of a < t + policy_otp.window)) more
      → all_refused key more s ≡ true
      → told_wrong key more s ≤ policy_otp.max_attempts
  guess_budget key t r more s e fresh times fine = omega (
    arith,
    told_wrong-Permitted key t more 0 s times fine
        (r, e, (omega arith, StartsAfresh-BudgetAt r _ t fresh)),
  )

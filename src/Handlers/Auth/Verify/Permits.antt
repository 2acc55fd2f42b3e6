-- ===== src/Handlers/Auth/Verify/Permits.antt =====
-- internal/interfaces/http/handlers/auth_handler.go: the keys of the limiter, and what it has
-- permitted for one user.
use loxtu_go.Base.{
  ℕ, ◌+◌, ◌≡◌, ◌≢◌, ◌≤◌, ◌<◌, refl, ap, arith, Option, none, some, [], ◌∷◌, Str, bytes,
}
use loxtu_go.Adapters.RateLimit.{MemoryRateLimiter}
use loxtu_go.Adapters.RateLimit.Budget.{Budget, tick, allow-Budget, Budget-frame, Budget-of_le}
use loxtu_go.Handlers.Auth.{limited, reset_key}
use loxtu_go.Identity.RateLimit.{rate_key_otp_send, rate_key_otp_fail, policy_otp}

pub send_key_ne : (email key : Str) → rate_key_otp_send email ≢ rate_key_otp_fail key
unfolding bytes
send_key_ne email key e = absurd (omega (arith, ap fifth e))
  where
    fifth : Str → ℕ
    fifth (a ∷ b ∷ c ∷ d ∷ x ∷ s) = x
    fifth _ = 0

pub fail_key_injective :
    (key other : Str) → rate_key_otp_fail key ≡ rate_key_otp_fail other → key ≡ other
unfolding bytes
fail_key_injective key other e = cc

fail_key_ne : (key : Str) → rate_key_otp_fail key ≢ []
unfolding bytes
fail_key_ne key e = cc

-- The limiter is there, and has permitted `n` checks of the user's codes since the time `t`.
abbrev pub Permitted : Str → ℕ → ℕ → Option MemoryRateLimiter → Type 0
Permitted key t n o =
    (r : MemoryRateLimiter) × (o ≡ some r) × Budget (rate_key_otp_fail key) policy_otp t n r

pub Permitted-of_le :
    (key : Str) (t m k : ℕ) (o : Option MemoryRateLimiter)
    → k ≤ m
    → Permitted key t m o
    → Permitted key t k o
Permitted-of_le key t m k o few (q, e, budget) =
    (q, e, Budget-of_le q (rate_key_otp_fail key) policy_otp t m k few budget)

pub limited-Permitted :
    (o : Option MemoryRateLimiter) (key : Str) (t n now : ℕ)
    → t ≤ now
    → now < t + policy_otp.window
    → Permitted key t n o
    → Permitted key t
        (n + tick (limited o (rate_key_otp_fail key) now).1)
        (limited o (rate_key_otp_fail key) now).0
unfolding limited
limited-Permitted none key t n now late soon (r, e, budget) = absurd cc
limited-Permitted (some q) key t n now late soon (r, e, budget) =
    let same : q ≡ r = cc in
    (
      _,
      refl,
      allow-Budget q (rate_key_otp_fail key) policy_otp t n now (fail_key_ne key) (omega arith)
          (omega arith) late soon (rw same budget),
    )

pub limited-frame :
    (o : Option MemoryRateLimiter) (key other : Str) (t n now : ℕ)
    → other ≢ rate_key_otp_fail key
    → Permitted key t n o
    → Permitted key t n (limited o other now).0
unfolding limited
limited-frame none key other t n now ne (r, e, budget) = absurd cc
limited-frame (some q) key other t n now ne (r, e, budget) =
    let same : q ≡ r = cc in
    (
      _,
      refl,
      (Budget-frame q (rate_key_otp_fail key) other policy_otp policy_otp t n now ne
          (rw same budget)).0,
    )

pub reset_key-frame :
    (o : Option MemoryRateLimiter) (key other : Str) (t n : ℕ)
    → other ≢ rate_key_otp_fail key
    → Permitted key t n o
    → Permitted key t n (reset_key o other)
unfolding reset_key
reset_key-frame none key other t n ne (r, e, budget) = absurd cc
reset_key-frame (some q) key other t n ne (r, e, budget) =
    let same : q ≡ r = cc in
    (
      _,
      refl,
      (Budget-frame q (rate_key_otp_fail key) other policy_otp policy_otp t n 0 ne
          (rw same budget)).1,
    )

-- ===== src/Adapters/RateLimit/Tests.antt =====
-- Runs of the limiter of memory.go, and its theorems at concrete inputs.
use loxtu_go.Base.{◌*◌, ◌≡◌, refl, false, Str, bytes, str_eq}
use loxtu_go.Base.Clock.{minute}
use loxtu_go.Base.Map
use loxtu_go.Identity.RateLimit.{policy_otp, policy_max_sessions}
use loxtu_go.Adapters.RateLimit.{
  MemoryRateLimiter, new_memory_rate_limiter, allow, reset, get_remaining,
}

limiter : Unit {0}
unfolding allow reset get_remaining new_memory_rate_limiter Map.lookup Map.insert Map.delete bytes
    str_eq
limiter = tt

abbrev key : Str
key = bytes "otp:fail:42"

abbrev other_key : Str
other_key = bytes "otp:fail:43"

abbrev used_once : MemoryRateLimiter
used_once = (allow new_memory_rate_limiter key policy_otp minute).0

last_attempt : (allow used_once key policy_max_sessions minute).1 ≡ false
unfolding limiter
last_attempt = refl

rolls_over : (get_remaining used_once key policy_otp (11 * minute)).1 ≡ 5
unfolding limiter
rolls_over = refl

-- ===== src/Middleware/RateLimit.antt =====
-- internal/interfaces/http/middleware/ratelimit.go: the sliding-window limiter and the middleware.
-- Limits, windows and times are natural numbers; a negative limit acts as zero in Go.
pub mod Log
pub mod Window
pub mod RetryAfter
pub mod Rules
pub mod Decimal
mod Tests
use loxtu_go.Base.{
  ℕ, zero, suc, ◌+◌, ◌-◌, ◌*◌, ◌/◌, ◌%◌, ◌++◌, Bool, true, false, Option, none, some, List, [], ◌∷◌,
  Str, bytes, str_eq, has_prefix, ltb, leb, ◌==◌, length, keep, any, is_empty, if◌then◌else◌, not,
  ◌||◌, ◌&&◌,
}
use loxtu_go.Base.Clock.{second, minute, hour}
use loxtu_go.Base.Map
use loxtu_go.Base.Map.{Map}
use loxtu_go.Middleware.Request.{Request, form_value}

pub record SlidingWindow : Type 0 where
  pub entries : List ℕ
  pub limit : ℕ
  pub window : ℕ

pub record RateLimiter : Type 0 where
  pub windows : Map SlidingWindow

pub new_rate_limiter : RateLimiter
new_rate_limiter = record { windows = [] }

-- The two results of `allow`: whether the request may pass, and how long to wait if not. With a
-- limit of zero `sw.entries[0]` is read from an empty slice, which panics.
pub data Verdict : Type 0 where
  passes : Verdict
  blocked : ℕ → Verdict
  panics : Verdict

-- `t.After(now.Add(-window))`, with the window on the other side.
abbrev pub recent : ℕ → ℕ → ℕ → Bool
recent now window t = ltb now (t + window)

abbrev oldest_wait : List ℕ → ℕ → ℕ → Verdict
oldest_wait [] now window = panics
oldest_wait (t ∷ _) now window = blocked (t + window - now)

abbrev store : RateLimiter → Str → SlidingWindow → RateLimiter
store rl key sw = record { windows = Map.insert key sw rl.windows }

-- The branch for a key that has a window already.
pub allow_known : RateLimiter → Str → ℕ → ℕ → ℕ → SlidingWindow → RateLimiter × Verdict
allow_known rl key limit window now sw =
    let valid = keep (recent now window) sw.entries in
    if leb limit (length valid)
    then (store rl key (record sw { entries = valid }), oldest_wait valid now window)
    else (store rl key (record sw { entries = valid ++ now ∷ [] }), passes)

pub allow : RateLimiter → Str → ℕ → ℕ → ℕ → RateLimiter × Verdict
allow rl key limit window now = elim (Map.lookup key rl.windows) [
  | none ↦ (store rl key (record { entries = now ∷ []; limit = limit; window = window }), passes)
  | some sw ↦ allow_known rl key limit window now sw
]

-- The loop of `itoa`; `i` is the place in the buffer of ten bytes, and a write below it panics.
itoa_loop : ℕ → ℕ → Str → Option Str
itoa_loop zero n buf = if n == 0 then some buf else none
itoa_loop (suc i) n buf =
    let rest = itoa_loop i (n / 10) ((b'0' + n % 10) ∷ buf) in if n == 0 then some buf else rest

pub itoa : ℕ → Option Str
itoa n = if n == 0 then some (bytes "0") else itoa_loop 10 n []

pub record RateLimitRule : Type 0 where
  pub pattern : Str
  pub limit : ℕ
  pub window : ℕ
  pub key_func : Request → Str
  pub methods : List Str

-- What the middleware does with a request: hands it on, answers 429 with a Retry-After header, or
-- panics.
pub data Served : Type 0 where
  next : Served
  too_many_requests : Str → Served
  panic : Served

abbrev retry_header : Option Str → Served
retry_header none = panic
retry_header (some s) = too_many_requests s

abbrev refuse : ℕ → Served
refuse retry_after = retry_header (itoa (retry_after / second + 1))

-- `http.Error` and `return` on a blocked request; what else follows goes on.
abbrev or_refuse :
    RateLimiter × Verdict → (RateLimiter → RateLimiter × Served) → RateLimiter × Served
or_refuse (rl, passes) k = k rl
or_refuse (rl, blocked wait) k = (rl, refuse wait)
or_refuse (rl, panics) k = (rl, panic)

pub rule_applies : RateLimitRule → Request → Bool
rule_applies rule r =
    has_prefix r.path rule.pattern
    && (is_empty rule.methods || any (λ m. str_eq r.method m) rule.methods)

-- The loop over the rules: the first that applies decides, the others are skipped.
pub check_rules :
    List RateLimitRule
    → RateLimiter
    → Request
    → ℕ
    → (RateLimiter → RateLimiter × Served)
    → RateLimiter × Served
check_rules [] rl r now k = k rl
check_rules (rule ∷ rules) rl r now k =
    let rest = check_rules rules rl r now k in
    if rule_applies rule r
    then or_refuse (allow rl (rule.key_func r) rule.limit rule.window now) k
    else rest

abbrev pub ip_key : Request → Str
ip_key r = bytes "ip:" ++ r.remote_addr

abbrev pub email_key : Request → Str
email_key r = bytes "email:" ++ form_value r (bytes "email")

-- The general limit, per address.
pub check_general : Request → ℕ → RateLimiter → RateLimiter × Served
check_general r now rl = or_refuse (allow rl (ip_key r) 100 minute now) (λ rl'. (rl', next))

pub rate_limit : List RateLimitRule → RateLimiter → Request → ℕ → RateLimiter × Served
rate_limit rules rl r now = check_rules rules rl r now (check_general r now)

abbrev pub post_rule : Str → ℕ → ℕ → (Request → Str) → RateLimitRule
post_rule pattern limit window key = record {
  pattern = pattern;
  limit = limit;
  window = window;
  key_func = key;
  methods = bytes "POST" ∷ [];
}

pub default_rate_limit_rules : List RateLimitRule
default_rate_limit_rules =
    post_rule (bytes "/auth/otp/send") 3 hour email_key
    ∷ post_rule (bytes "/auth/otp/verify") 5 (5 * minute) email_key
    ∷ post_rule (bytes "/auth/passkey/begin") 10 (5 * minute) ip_key
    ∷ post_rule (bytes "/auth/passkey/finish") 10 (5 * minute) ip_key
    ∷ post_rule (bytes "/auth/refresh") 10 (5 * minute) ip_key
    ∷ []

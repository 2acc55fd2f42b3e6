-- ===== src/Middleware/RateLimit/Tests.antt =====
-- Runs of the middleware of ratelimit.go, and its theorems at concrete inputs.
use loxtu_go.Base.{
  ℕ, ◌+◌, ◌*◌, ◌≤◌, ◌≡◌, refl, true, List, [], ◌∷◌, arith, Str, bytes, str_eq, has_prefix, length,
  replicate,
}
use loxtu_go.Base.Clock.{minute}
use loxtu_go.Base.Map
use loxtu_go.Middleware.Request.{Request, form_value}
use loxtu_go.Middleware.RateLimit.{
  RateLimiter, SlidingWindow, new_rate_limiter, passes, allow, allow_known, Served, next,
  too_many_requests, itoa, itoa_loop, rate_limit, check_rules, check_general, rule_applies,
  default_rate_limit_rules,
}
use loxtu_go.Middleware.RateLimit.Log.{in_window, admitted_log}
use loxtu_go.Middleware.RateLimit.Window.{
  window_bound, reference_log, admitted_log-eq-reference_log,
}
use loxtu_go.Middleware.RateLimit.RetryAfter.{retry_after_suffices}
use loxtu_go.Middleware.RateLimit.Rules.{NoLater}

limits : Unit {0}
unfolding rate_limit check_rules check_general rule_applies allow allow_known itoa itoa_loop
    default_rate_limit_rules new_rate_limiter form_value Map.lookup Map.insert bytes str_eq
    has_prefix
limits = tt

abbrev ask : Str → Str → Request
ask method path = record {
  method = method;
  path = path;
  remote_addr = bytes "9.9.9.9:1";
  is_tls = true;
  headers = [];
  query = [];
  form = [];
  cookies = [];
}

abbrev begin : Request
begin = ask (bytes "POST") (bytes "/auth/passkey/begin")

-- The answers to the same request at a list of times.
answers : RateLimiter → Request → List ℕ → List Served
answers rl r [] = []
answers rl r (now ∷ times) =
    let (rl', s) = rate_limit default_rate_limit_rules rl r now in s ∷ answers rl' r times

-- The rule's entry and the general limit's entry share one key: the sixth request of a burst is
-- refused, although the rule admits ten.
burst :
    answers new_rate_limiter begin (1 ∷ 2 ∷ 3 ∷ 4 ∷ 5 ∷ 6 ∷ [])
    ≡ next ∷ next ∷ next ∷ next ∷ next ∷ too_many_requests (bytes "300") ∷ []
unfolding limits answers
burst = refl

-- Four requests a minute all pass, twelve of them within five minutes, although the rule's limit
-- is ten: the general limit has thrown the older entries away.
steady :
    answers new_rate_limiter begin (
      1
      ∷ 2
      ∷ 3
      ∷ 4
      ∷ (minute + 5)
      ∷ (minute + 6)
      ∷ (minute + 7)
      ∷ (minute + 8)
      ∷ (2 * minute + 9)
      ∷ (2 * minute + 10)
      ∷ (2 * minute + 11)
      ∷ (2 * minute + 12)
      ∷ [])
    ≡ replicate 12 next
unfolding limits answers
steady = refl

abbrev k : Str
k = bytes "k"

window_bound_example :
    length (in_window 30 10 (admitted_log new_rate_limiter k 2 10 [] (5 ∷ 22 ∷ 25 ∷ 26 ∷ []))) ≤ 2
unfolding limits
window_bound_example =
    window_bound k 2 10 new_rate_limiter (5 ∷ 22 ∷ 25 ∷ 26 ∷ []) 30 (omega arith) refl (omega arith)

admitted_log-eq-reference_log_example :
    admitted_log new_rate_limiter k 2 10 [] (5 ∷ 6 ∷ 7 ∷ 16 ∷ [])
    ≡ reference_log k 2 10 [] (5 ∷ 6 ∷ 7 ∷ 16 ∷ [])
unfolding limits
admitted_log-eq-reference_log_example =
    admitted_log-eq-reference_log k 2 10 new_rate_limiter (5 ∷ 6 ∷ 7 ∷ 16 ∷ []) (omega arith) refl
      (omega arith)

abbrev one_entry : SlidingWindow
one_entry = record { entries = 5 ∷ []; limit = 1; window = 10 }

abbrev full : RateLimiter
full = record { windows = (k, one_entry) ∷ [] }

retry_after_suffices_example : (allow (allow full k 1 10 8).0 k 1 10 15).1 ≡ passes
unfolding limits
retry_after_suffices_example =
    retry_after_suffices k 1 10 full one_entry 8 7 15 refl (omega arith) refl (omega arith)

start-NoLater : NoLater 7 new_rate_limiter
unfolding new_rate_limiter Map.lookup
start-NoLater key sw e = cc

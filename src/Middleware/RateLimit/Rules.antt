-- ===== src/Middleware/RateLimit/Rules.antt =====
-- The middleware over its rules: what it keeps of an address, and that it does not panic.
use loxtu_go.Base.{
  ℕ, ◌+◌, ◌/◌, ◌≤◌, ◌<◌, ◌≡◌, ◌≢◌, inl, inr, refl, Bool, true, Option, none, some, List, [], ◌∷◌,
  ◌++◌, arith, Str, str_eq, leb, leb→le, length, keep, All, All-append, Bool-cases, Option-cases,
}
use loxtu_go.Base.Clock.{second, minute, hour}
use loxtu_go.Base.Map
use loxtu_go.Base.Map.{lookup-insert, lookup-insert_self}
use loxtu_go.Middleware.Request.{Request}
use loxtu_go.Middleware.RateLimit.{
  SlidingWindow, RateLimiter, Verdict, passes, blocked, panics, recent, oldest_wait, store, allow,
  allow_known, itoa, RateLimitRule, Served, next, panic, rule_applies, check_rules, check_general,
  ip_key, rate_limit, refuse, retry_header, default_rate_limit_rules, or_refuse,
}
use loxtu_go.Middleware.RateLimit.Window.{allow_unknown, allow_found}
use loxtu_go.Middleware.RateLimit.Decimal.{itoa_lem}

-- No entry is later than `now`.
abbrev pub NoLater : ℕ → RateLimiter → Type 0
NoLater now rl =
    (key : Str) (sw : SlidingWindow)
    → Map.lookup key rl.windows ≡ some sw
    → All (λ t. t ≤ now) sw.entries

-- The wait of a refusal is at most the window.
abbrev Waits : ℕ → Verdict → Type 0
Waits window passes = Unit
Waits window (blocked wait) = wait ≤ window
Waits window panics = ⊥

All-keep {ℓ} : {A : Type ℓ} (p : A → Bool) (xs : List A) → All (λ x. p x ≡ true) (keep p xs)
All-keep p [] = tt
All-keep p (x ∷ xs) = ground (arith, All-keep p xs)

All-keep_of_All {ℓ κ} :
    {A : Type ℓ} (P : A → Type κ) (p : A → Bool) (xs : List A) → All P xs → All P (keep p xs)
All-keep_of_All P p [] h = tt
All-keep_of_All P p (x ∷ xs) h = elim (Bool-cases (p x)) [
  | inl e ↦ rw e (h.0, All-keep_of_All P p xs h.1)
  | inr e ↦ rw e (All-keep_of_All P p xs h.1)
]

oldest_wait-Waits :
    (ts : List ℕ) (limit window now : ℕ)
    → 0 < limit
    → limit ≤ length ts
    → All (λ t. t ≤ now) ts
    → Waits window (oldest_wait ts now window)
oldest_wait-Waits [] limit window now pos full h = omega arith
oldest_wait-Waits (t ∷ ts) limit window now pos full h = omega arith

-- What one call of `allow` leaves under its key, and its verdict.
record Allowed (key : Str) (window now : ℕ) (rl : RateLimiter) (r : RateLimiter × Verdict)
    : Type 0 where
  sw : SlidingWindow
  stored : r.0 ≡ store rl key sw
  young : All (λ t. recent now window t ≡ true) sw.entries
  no_later : All (λ t. t ≤ now) sw.entries
  waits : Waits window r.1

allow_known-Allowed :
    (rl : RateLimiter) (key : Str) (limit window now : ℕ) (sw : SlidingWindow)
    → 0 < limit
    → 0 < window
    → All (λ t. t ≤ now) sw.entries
    → Allowed key window now rl (allow_known rl key limit window now sw)
unfolding allow_known
allow_known-Allowed rl key limit window now sw pos wpos h =
    elim (Bool-cases (leb limit (length valid))) [
      | inl full ↦ rw full (record {
        sw = record sw { entries = valid };
        stored = refl;
        young = All-keep (recent now window) sw.entries;
        no_later = earlier;
        waits = oldest_wait-Waits valid limit window now pos (leb→le _ _ full) earlier;
      })
      | inr room ↦ rw room (record {
        sw = record sw { entries = valid ++ now ∷ [] };
        stored = refl;
        young = All-append _ valid _ (All-keep (recent now window) sw.entries) (ground arith, tt);
        no_later = All-append _ valid _ earlier (omega arith, tt);
        waits = tt;
      })
    ]
  where
    valid : List ℕ
    valid = keep (recent now window) sw.entries

    earlier : All (λ t. t ≤ now) valid
    earlier = All-keep_of_All (λ t. t ≤ now) (recent now window) sw.entries h

allow-Allowed :
    (rl : RateLimiter) (key : Str) (limit window now : ℕ)
    → 0 < limit
    → 0 < window
    → NoLater now rl
    → Allowed key window now rl (allow rl key limit window now)
allow-Allowed rl key limit window now pos wpos h = elim (Option-cases (Map.lookup key rl.windows)) [
  | inl e ↦ rw (allow_unknown key limit window rl now e) (record {
    sw = record { entries = now ∷ []; limit = limit; window = window };
    stored = refl;
    young = (ground arith, tt);
    no_later = (omega arith, tt);
    waits = tt;
  })
  | inr (sw, e) ↦
      rw (allow_found key limit window rl now sw e)
        (allow_known-Allowed rl key limit window now sw pos wpos (h key sw e))
]

store-NoLater :
    (rl : RateLimiter) (key : Str) (sw : SlidingWindow) (now : ℕ)
    → All (λ t. t ≤ now) sw.entries
    → NoLater now rl
    → NoLater now (store rl key sw)
store-NoLater rl key sw now new old j sw' e = elim (Bool-cases (str_eq key j)) [
  | inl same ↦
      let q : sw ≡ sw' = cc (rw (lookup-insert key j sw rl.windows, same) at e) in rw (← q) new
  | inr other ↦ old j sw' (rw (lookup-insert key j sw rl.windows, other) at e)
]

-- The header of a refusal prints, if the wait is at most an hour.
refuse-ne-panic : (wait : ℕ) → wait ≤ hour → refuse wait ≢ panic
refuse-ne-panic wait h = elim (itoa_lem (wait / second + 1)) [
  | inl (s, e, _, _, _) ↦ rw e (λ c. cc)
  | inr (_, big) ↦ absurd (omega arith)
]

retry_header-ne-next : (o : Option Str) → retry_header o ≢ next
retry_header-ne-next none e = cc
retry_header-ne-next (some s) e = cc

-- What the middleware leaves, and answers.
record IsServed (now : ℕ) (key : Str) (r : RateLimiter × Served) : Type 0 where
  no_panic : r.1 ≢ panic
  no_later : NoLater now r.0
  young :
      r.1 ≡ next
      → (sw : SlidingWindow) × (Map.lookup key r.0.windows ≡ some sw)
        × All (λ t. recent now minute t ≡ true) sw.entries

or_refuse-IsServed :
    (now window : ℕ) (key ip : Str) (rl : RateLimiter) (r : RateLimiter × Verdict)
    (k : RateLimiter → RateLimiter × Served)
    → window ≤ hour
    → NoLater now rl
    → Allowed key window now rl r
    → (r.1 ≡ passes → NoLater now r.0 → IsServed now ip (k r.0))
    → IsServed now ip (or_refuse r k)
or_refuse-IsServed now window key ip rl (rl', passes) k short old a go =
    go refl (rw a.stored (store-NoLater rl key a.sw now a.no_later old))
or_refuse-IsServed now window key ip rl (rl', blocked wait) k short old a go = record {
  no_panic = refuse-ne-panic wait (omega (arith, a.waits));
  no_later = rw a.stored (store-NoLater rl key a.sw now a.no_later old);
  young = λ e. absurd (retry_header-ne-next (itoa (wait / second + 1)) e);
}
or_refuse-IsServed now window key ip rl (rl', panics) k short old a go = absurd a.waits

check_general-IsServed :
    (r : Request) (now : ℕ) (rl : RateLimiter)
    → NoLater now rl
    → IsServed now (ip_key r) (check_general r now rl)
unfolding check_general
check_general-IsServed r now rl old =
    let a = allow-Allowed rl (ip_key r) 100 minute now (omega arith) (omega arith) old in
    or_refuse-IsServed now minute (ip_key r) (ip_key r) rl _ _ (omega arith) old a λ passed later.
      record {
        no_panic = λ e. cc;
        no_later = later;
        young = λ _. (a.sw, rw a.stored (lookup-insert_self (ip_key r) a.sw rl.windows), a.young);
      }

-- Limits and windows are positive, and no window is longer than an hour.
abbrev pub IsSound : RateLimitRule → Type 0
IsSound rule = (0 < rule.limit) × (0 < rule.window) × (rule.window ≤ hour)

check_rules-IsServed :
    (rules : List RateLimitRule) (rl : RateLimiter) (r : Request) (now : ℕ)
    → All IsSound rules
    → NoLater now rl
    → IsServed now (ip_key r) (check_rules rules rl r now (check_general r now))
unfolding check_rules
check_rules-IsServed [] rl r now sound old = check_general-IsServed r now rl old
check_rules-IsServed (rule ∷ rules) rl r now ((pos, wpos, short), sound) old =
    elim (Bool-cases (rule_applies rule r)) [
      | inl hit ↦ rw hit (
          or_refuse-IsServed now rule.window (rule.key_func r) (ip_key r) rl _ _ short old
            (allow-Allowed rl (rule.key_func r) rule.limit rule.window now pos wpos old)
            (λ _ later. check_general-IsServed r now _ later))
      | inr miss ↦ rw miss (check_rules-IsServed rules rl r now sound old)
    ]

pub default-IsSound : All IsSound default_rate_limit_rules
unfolding default_rate_limit_rules
default-IsSound = omega arith

-- With the default rules the middleware never panics: neither on an empty window nor on the print
-- of Retry-After. It keeps the entries in the past, so this holds again for the next request.
pub default_rules_never_panic :
    (rl : RateLimiter) (r : Request) (now : ℕ)
    → NoLater now rl
    → ((rate_limit default_rate_limit_rules rl r now).1 ≢ panic)
      × NoLater now (rate_limit default_rate_limit_rules rl r now).0
unfolding rate_limit
default_rules_never_panic rl r now old =
    let s = check_rules-IsServed default_rate_limit_rules rl r now default-IsSound old in
    (s.no_panic, s.no_later)

-- Behind a request that is handed on, the entries under the key of its address are all younger
-- than a minute, whatever the rules: the general limit prunes the window that a rule on the
-- address shares with it, also where that rule's window is longer.
pub general_limit_prunes :
    (rules : List RateLimitRule) (rl : RateLimiter) (r : Request) (now : ℕ)
    → All IsSound rules
    → NoLater now rl
    → (rate_limit rules rl r now).1 ≡ next
    → (sw : SlidingWindow) × (Map.lookup (ip_key r) (rate_limit rules rl r now).0.windows ≡ some sw)
      × All (λ t. recent now minute t ≡ true) sw.entries
unfolding rate_limit
general_limit_prunes rules rl r now sound old =
    (check_rules-IsServed rules rl r now sound old).young

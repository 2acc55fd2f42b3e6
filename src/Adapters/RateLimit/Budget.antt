-- ===== src/Adapters/RateLimit/Budget.antt =====
-- A stretch of time that is no longer than a window, on the limiter of memory.go.
use loxtu_go.Base.{
  ℕ, ◌+◌, ◌≤◌, ◌<◌, ◌≡◌, ◌≢◌, ◌⊎◌, refl, Option, none, some, [], arith, Str, ltb, if◌then◌else◌,
  inl, inr, Bool-cases, Bool,
}
use loxtu_go.Base.Map
use loxtu_go.Base.Map.{lookup-insert_self, lookup-insert_ne, lookup-delete_ne}
use loxtu_go.Identity.RateLimit.{RateLimitPolicy}
use loxtu_go.Adapters.RateLimit.Quota.{
  allow-bucket, used, roll_window_within, roll_window_over, get_or_create_found,
  StartsAfresh-roll_window, reset_frame,
}
use loxtu_go.Adapters.RateLimit.{
  Bucket, MemoryRateLimiter, roll_window, get_or_create, allow, reset,
}

-- What the bucket of a key says of `n` attempts that were permitted since the time `t`.
abbrev pub BudgetAt : RateLimitPolicy → ℕ → ℕ → Option Bucket → Type 0
BudgetAt p t n none = n ≡ 0
BudgetAt p t n (some b) =
    ((t ≤ b.window_start) × (n ≤ b.count)) ⊎ ((b.window_start + p.window ≤ t) × (n ≡ 0))

abbrev pub Budget : Str → RateLimitPolicy → ℕ → ℕ → MemoryRateLimiter → Type 0
Budget key p t n r = (n ≤ p.max_attempts) × BudgetAt p t n (Map.lookup key r.entries)

abbrev pub tick : Bool → ℕ
tick b = if b then 1 else 0

tick-used :
    (p : RateLimitPolicy) (t n : ℕ) (b : Bucket)
    → t ≤ b.window_start
    → n ≤ b.count
    → n ≤ p.max_attempts
    → (n + tick (ltb b.count p.max_attempts) ≤ p.max_attempts)
      × BudgetAt p t (n + tick (ltb b.count p.max_attempts)) (some (used p.max_attempts b))
tick-used p t n b late few less = elim (Bool-cases (ltb b.count p.max_attempts)) [
  | inl c ↦ rw c (ground arith)
  | inr c ↦ rw c (ground arith)
]

-- The bucket after the roll, at a time in the stretch.
rolled :
    (r : MemoryRateLimiter) (key : Str) (p : RateLimitPolicy) (t n now : ℕ)
    → 0 < p.window
    → t ≤ now
    → now < t + p.window
    → BudgetAt p t n (Map.lookup key r.entries)
    → (b : Bucket) × (roll_window (get_or_create r key now) p now ≡ b)
      × (t ≤ b.window_start)
      × (n ≤ b.count)
rolled r key p t n now long late soon at = go (Map.lookup key r.entries) refl at
  where
    go :
        (o : Option Bucket)
        → Map.lookup key r.entries ≡ o
        → BudgetAt p t n o
        → (b : Bucket) × (roll_window (get_or_create r key now) p now ≡ b)
          × (t ≤ b.window_start)
          × (n ≤ b.count)
    go none e zero = (_, StartsAfresh-roll_window r key p now (inl e), late, omega (arith, zero))
    go (some b) e (inl (after, few)) = (
      b,
      rw (get_or_create_found r key now b e)
          (roll_window_within b p now (inr (omega (arith, after)))),
      after,
      few,
    )
    go (some b) e (inr (over, zero)) = (
      record { count = 0; window_start = now },
      rw (get_or_create_found r key now b e) (roll_window_over b p now long (omega (arith, over))),
      late,
      omega (arith, zero),
    )

-- In the stretch of one window from `t` on, an attempt keeps the count of those permitted.
pub allow-Budget :
    (r : MemoryRateLimiter) (key : Str) (p : RateLimitPolicy) (t n now : ℕ)
    → key ≢ []
    → 0 < p.max_attempts
    → 0 < p.window
    → t ≤ now
    → now < t + p.window
    → Budget key p t n r
    → Budget key p t (n + tick (allow r key p now).1) (allow r key p now).0
allow-Budget r key p t n now ne pos long late soon (less, at) =
    let (b, e, after, few) = rolled r key p t n now long late soon at in
    let (done, stored) = allow-bucket r key p now b ne pos e in
    rw (done, stored) (tick-used p t n b after few less)

-- What is done to another key leaves the count alone.
pub Budget-frame :
    (r : MemoryRateLimiter) (key other : Str) (p q : RateLimitPolicy) (t n now : ℕ)
    → other ≢ key
    → Budget key p t n r
    → Budget key p t n (allow r other q now).0 × Budget key p t n (reset r other)
Budget-frame r key other p q t n now ne (less, at) =
    let (_, dropped, done, _) = reset_frame r other key q now ne in
    ((less, rw done at), (less, rw dropped at))

pub Budget-of_le :
    (r : MemoryRateLimiter) (key : Str) (p : RateLimitPolicy) (t n m : ℕ)
    → m ≤ n
    → Budget key p t n r
    → Budget key p t m r
Budget-of_le r key p t n m few (less, at) =
    (omega (arith, few, less), go (Map.lookup key r.entries) at)
  where
    go : (o : Option Bucket) → BudgetAt p t n o → BudgetAt p t m o
    go none zero = omega (arith, zero, few)
    go (some b) (inl (after, count)) = inl (after, omega (arith, few, count))
    go (some b) (inr (over, zero)) = inr (over, omega (arith, zero, few))

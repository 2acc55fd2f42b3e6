-- ===== src/Adapters/RateLimit/Quota.antt =====
-- How many attempts the limiter of memory.go admits.
use Prim.Native.Nat.{min}
use loxtu_go.Base.{
  ℕ, ◌+◌, ◌-◌, ◌≤◌, ◌<◌, ◌≡◌, ◌≢◌, ◌⊎◌, refl, none, some, List, [], ◌∷◌, arith, Str, ltb, leb, ◌==◌,
  length, All, if◌then◌else◌, Option-cases, inl, inr, Bool-cases,
}
use loxtu_go.Base.Map
use loxtu_go.Base.Map.{lookup-insert_self, lookup-insert_ne, lookup-delete_ne, lookup-delete_self}
use loxtu_go.Identity.RateLimit.{RateLimitPolicy}
use loxtu_go.Adapters.RateLimit.{
  Bucket, MemoryRateLimiter, roll_window, get_or_create, allow, reset, get_remaining,
}

-- An attempt is permitted exactly when `GetRemaining` is positive, and then uses up one.
pub allow-get_remaining :
    (r : MemoryRateLimiter) (key : Str) (p : RateLimitPolicy) (now : ℕ)
    → key ≢ []
    → ((allow r key p now).1 ≡ ltb 0 (get_remaining r key p now).1)
      × ((get_remaining (allow r key p now).0 key p now).1 ≡ (get_remaining r key p now).1 - 1)
unfolding allow get_remaining
allow-get_remaining r [] p now ne = absurd (ne refl)
allow-get_remaining r (c ∷ cs) p now ne = elim (Option-cases (Map.lookup (c ∷ cs) r.entries)) [
  | inl e ↦ grind (arith, e, lookup-insert_self)
  | inr (b, e) ↦ grind (arith, e, lookup-insert_self)
]

-- The time lies in the window that starts at `start`; a permanent quota has no end.
abbrev pub InWindow : RateLimitPolicy → ℕ → ℕ → Type 0
InWindow p start t = (p.window ≡ 0) ⊎ (t - start < p.window)

-- How many of the attempts at the given times are permitted.
pub admitted : MemoryRateLimiter → Str → RateLimitPolicy → List ℕ → ℕ
admitted r key p [] = 0
admitted r key p (t ∷ ts) =
    let (r', done) = allow r key p t in (if done then 1 else 0) + admitted r' key p ts

pub roll_window_within :
    (b : Bucket) (p : RateLimitPolicy) (t : ℕ) → InWindow p b.window_start t → roll_window b p t ≡ b
unfolding roll_window
roll_window_within b p t w = ground arith

pub roll_window_over :
    (b : Bucket) (p : RateLimitPolicy) (t : ℕ)
    → 0 < p.window
    → b.window_start + p.window ≤ t
    → roll_window b p t ≡ record { count = 0; window_start = t }
unfolding roll_window
roll_window_over b p t w o = ground arith

-- What one attempt leaves behind, from the bucket after rolling.
abbrev pub used : ℕ → Bucket → Bucket
used most b = if leb most b.count then b else record b { count = b.count + 1 }

pub allow-bucket :
    (r : MemoryRateLimiter) (key : Str) (p : RateLimitPolicy) (t : ℕ) (b : Bucket)
    → key ≢ []
    → 0 < p.max_attempts
    → roll_window (get_or_create r key t) p t ≡ b
    → ((allow r key p t).1 ≡ ltb b.count p.max_attempts)
      × (Map.lookup key (allow r key p t).0.entries ≡ some (used p.max_attempts b))
unfolding allow
allow-bucket r [] p t b ne pos e = absurd (ne refl)
allow-bucket r (c ∷ cs) p t b ne pos e = grind (arith, e, lookup-insert_self)

pub get_or_create_found :
    (r : MemoryRateLimiter) (key : Str) (t : ℕ) (b : Bucket)
    → Map.lookup key r.entries ≡ some b
    → get_or_create r key t ≡ b
unfolding get_or_create
get_or_create_found r key t b e = ground (arith, e)

admitted-min :
    (r : MemoryRateLimiter) (key : Str) (p : RateLimitPolicy) (ts : List ℕ) (b : Bucket) (start : ℕ)
    → key ≢ []
    → 0 < p.max_attempts
    → Map.lookup key r.entries ≡ some b
    → b.window_start ≡ start
    → All (InWindow p start) ts
    → admitted r key p ts ≡ min (length ts) (p.max_attempts - b.count)
unfolding admitted
admitted-min r key p [] b start ne pos e s w = omega arith
admitted-min r key p (t ∷ ts) b start ne pos e s (w, ws) = ground (
  arith,
  step,
  admitted-min (allow r key p t).0 key p ts (used p.max_attempts b) start ne pos step.1
      (ground arith) ws,
)
  where
    rolled : roll_window (get_or_create r key t) p t ≡ b
    rolled = rw (get_or_create_found r key t b e) (roll_window_within b p t (rw s w))

    step :
        ((allow r key p t).1 ≡ ltb b.count p.max_attempts)
        × (Map.lookup key (allow r key p t).0.entries ≡ some (used p.max_attempts b))
    step = allow-bucket r key p t b ne pos rolled

-- The key has no bucket, or one whose window is over.
abbrev pub StartsAfresh : MemoryRateLimiter → Str → RateLimitPolicy → ℕ → Type 0
StartsAfresh r key p t =
    (Map.lookup key r.entries ≡ none)
    ⊎ ((b : Bucket) × (Map.lookup key r.entries ≡ some b)
        × (0 < p.window)
        × (b.window_start + p.window ≤ t))

pub StartsAfresh-roll_window :
    (r : MemoryRateLimiter) (key : Str) (p : RateLimitPolicy) (t : ℕ)
    → StartsAfresh r key p t
    → roll_window (get_or_create r key t) p t ≡ record { count = 0; window_start = t }
unfolding get_or_create
StartsAfresh-roll_window r key p t (inl e) = rw e (unfold roll_window in (ground arith))
StartsAfresh-roll_window r key p t (inr (b, e, w, o)) = rw e (roll_window_over b p t w o)

admitted-zero :
    (r : MemoryRateLimiter) (key : Str) (p : RateLimitPolicy) (ts : List ℕ)
    → p.max_attempts ≡ 0
    → admitted r key p ts ≡ 0
unfolding admitted allow
admitted-zero r key p [] z = refl
admitted-zero r [] p (t ∷ ts) z = omega (arith, admitted-zero r [] p ts z)
admitted-zero r (c ∷ cs) p (t ∷ ts) z = ground (arith, admitted-zero r (c ∷ cs) p ts z)

admitted_afresh :
    (r : MemoryRateLimiter) (key : Str) (p : RateLimitPolicy) (t : ℕ) (ts : List ℕ)
    → key ≢ []
    → 0 < p.max_attempts
    → StartsAfresh r key p t
    → All (InWindow p t) ts
    → admitted r key p (t ∷ ts) ≡ min (length (t ∷ ts)) p.max_attempts
unfolding admitted
admitted_afresh r key p t ts ne pos fresh w = ground (
  arith,
  step,
  admitted-min (allow r key p t).0 key p ts first t ne pos (ground (arith, step)) refl w,
)
  where
    first : Bucket
    first = record { count = 1; window_start = t }

    step :
        ((allow r key p t).1 ≡ ltb 0 p.max_attempts)
        × (Map.lookup key (allow r key p t).0.entries
            ≡ some (used p.max_attempts (record { count = 0; window_start = t })))
    step =
        allow-bucket r key p t (record { count = 0; window_start = t }) ne pos
          (StartsAfresh-roll_window r key p t fresh)

-- From a fresh start at time `t` and within one window, exactly the first `max_attempts` attempts
-- are permitted, however many there are. With the window zero this is so forever.
pub admitted_exactly :
    (r : MemoryRateLimiter) (key : Str) (p : RateLimitPolicy) (t : ℕ) (ts : List ℕ)
    → key ≢ []
    → StartsAfresh r key p t
    → All (InWindow p t) ts
    → admitted r key p (t ∷ ts) ≡ min (length (t ∷ ts)) p.max_attempts
admitted_exactly r key p t ts ne fresh w = elim (Bool-cases (p.max_attempts == 0)) [
  | inl z ↦ ground (arith, admitted-zero r key p (t ∷ ts) (ground arith))
  | inr pos ↦ admitted_afresh r key p t ts ne (ground arith) fresh w
]

-- `Reset` gives a key its full quota back, and none of the three calls touches another key.
pub reset_frame :
    (r : MemoryRateLimiter) (key other : Str) (p : RateLimitPolicy) (now : ℕ)
    → key ≢ other
    → ((get_remaining (reset r key) key p now).1 ≡ p.max_attempts)
      × (Map.lookup other (reset r key).entries ≡ Map.lookup other r.entries)
      × (Map.lookup other (allow r key p now).0.entries ≡ Map.lookup other r.entries)
      × (Map.lookup other (get_remaining r key p now).0.entries ≡ Map.lookup other r.entries)
unfolding reset allow get_remaining
reset_frame r key other p now ne = (
  ground (arith, lookup-delete_self key r.entries),
  lookup-delete_ne key other r.entries ne,
  grind (arith, lookup-insert_ne, ne),
  grind (arith, lookup-insert_ne, ne),
)

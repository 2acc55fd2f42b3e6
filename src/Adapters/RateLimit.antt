-- ===== src/Adapters/RateLimit.antt =====
-- internal/adapters/ratelimit/memory.go: the process-local limiter. Each method runs under the
-- mutex, so it is one step on the map; the clock is read once in a step.
pub mod Quota
pub mod Budget
mod Tests
use loxtu_go.Base.{
  ℕ, ◌+◌, ◌-◌, Bool, true, false, ◌||◌, Option, none, some, Str, leb, ltb, ◌==◌, is_empty,
  if◌then◌else◌, [],
}
use loxtu_go.Base.Map
use loxtu_go.Base.Map.{Map}
use loxtu_go.Identity.RateLimit.{RateLimitPolicy}

pub record Bucket : Type 0 where
  pub count : ℕ
  pub window_start : ℕ

pub record MemoryRateLimiter : Type 0 where
  pub entries : Map Bucket

pub new_memory_rate_limiter : MemoryRateLimiter
new_memory_rate_limiter = record { entries = [] }

-- The bucket of a key, made with the current time if there is none.
abbrev bucket_or_new : Option Bucket → ℕ → Bucket
bucket_or_new (some b) now = b
bucket_or_new none now = record { count = 0; window_start = now }

unfoldable pub get_or_create : MemoryRateLimiter → Str → ℕ → Bucket
get_or_create r key now = bucket_or_new (Map.lookup key r.entries) now

-- `time.Since(start) >= window`: for a positive window the stopped subtraction changes nothing.
unfoldable pub roll_window : Bucket → RateLimitPolicy → ℕ → Bucket
roll_window b p now =
    if p.window == 0
    then b
    else if leb p.window (now - b.window_start)
    then record { count = 0; window_start = now }
    else b

-- A bucket is a pointer in the map: what changes it writes it back.
abbrev store_bucket : MemoryRateLimiter → Str → Bucket → MemoryRateLimiter
store_bucket r key b = record r { entries = Map.insert key b r.entries }

unfoldable pub allow : MemoryRateLimiter → Str → RateLimitPolicy → ℕ → MemoryRateLimiter × Bool
unfolding get_or_create roll_window
allow r key p now =
    if is_empty key || p.max_attempts == 0
    then (r, false)
    else let b = roll_window (get_or_create r key now) p now in
      if leb p.max_attempts b.count
      then (store_bucket r key b, false)
      else (store_bucket r key (record b { count = b.count + 1 }), true)

pub reset : MemoryRateLimiter → Str → MemoryRateLimiter
reset r key = record r { entries = Map.delete key r.entries }

-- A difference below zero is reported as zero.
remaining_of : MemoryRateLimiter → Str → RateLimitPolicy → ℕ → Option Bucket → MemoryRateLimiter × ℕ
remaining_of r key p now none = (r, p.max_attempts)
remaining_of r key p now (some b) =
    let b' = roll_window b p now in (store_bucket r key b', p.max_attempts - b'.count)

pub get_remaining : MemoryRateLimiter → Str → RateLimitPolicy → ℕ → MemoryRateLimiter × ℕ
unfolding remaining_of roll_window
get_remaining r key p now =
    if p.max_attempts == 0 then (r, 0) else remaining_of r key p now (Map.lookup key r.entries)

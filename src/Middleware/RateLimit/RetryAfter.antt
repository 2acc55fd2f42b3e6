-- ===== src/Middleware/RateLimit/RetryAfter.antt =====
-- The Retry-After of ratelimit.go is long enough.
use loxtu_go.Base.{
  ℕ, ◌+◌, ◌≤◌, ◌<◌, ◌≡◌, some, List, [], ◌∷◌, arith, Str, length, keep, length-keep-le,
}
use loxtu_go.Base.Map
use loxtu_go.Base.Map.{lookup-insert_self}
use loxtu_go.Middleware.RateLimit.{
  SlidingWindow, RateLimiter, passes, blocked, recent, oldest_wait, allow, allow_known,
}
use loxtu_go.Middleware.RateLimit.Window.{allow_found}

module _ (key : Str) (limit window : ℕ) where
  room_later :
      (valid : List ℕ) (now wait later : ℕ)
      → length valid ≤ limit
      → oldest_wait valid now window ≡ blocked wait
      → now + wait ≤ later
      → length (keep (recent later window) valid) < limit
  room_later [] now wait later few e waited = cc
  room_later (t ∷ ts) now wait later few e waited =
      ground (arith, length-keep-le (recent later window) ts)

  -- A refusal leaves the pruned entries, and its wait is that of the oldest of them.
  refusal :
      (rl : RateLimiter) (sw : SlidingWindow) (now wait : ℕ)
      → (allow_known rl key limit window now sw).1 ≡ blocked wait
      → let valid = keep (recent now window) sw.entries in
        (oldest_wait valid now window ≡ blocked wait)
        × (Map.lookup key (allow_known rl key limit window now sw).0.windows
            ≡ some (record sw { entries = valid }))
  unfolding allow_known
  refusal rl sw now wait e = ground (
    arith,
    e,
    lookup-insert_self key (record sw { entries = keep (recent now window) sw.entries }) rl.windows,
  )

  passes_with_room :
      (rl : RateLimiter) (sw : SlidingWindow) (now : ℕ)
      → length (keep (recent now window) sw.entries) < limit
      → (allow_known rl key limit window now sw).1 ≡ passes
  unfolding allow_known
  passes_with_room rl sw now room = ground arith

  -- After a refusal the key is admitted once the time of the Retry-After has passed, if the window
  -- held no more than the limit.
  pub retry_after_suffices :
      (rl : RateLimiter) (sw : SlidingWindow) (now wait later : ℕ)
      → Map.lookup key rl.windows ≡ some sw
      → length sw.entries ≤ limit
      → (allow rl key limit window now).1 ≡ blocked wait
      → now + wait ≤ later
      → (allow (allow rl key limit window now).0 key limit window later).1 ≡ passes
  retry_after_suffices rl sw now wait later e few refused waited =
      let valid = keep (recent now window) sw.entries in
      let r = refusal rl sw now wait (rw (← allow_found key limit window rl now sw e) refused) in
      rw
        (
          allow_found key limit window rl now sw e,
          allow_found key limit window _ later (record sw { entries = valid }) r.1,
        )
        (passes_with_room _ (record sw { entries = valid }) later
          (room_later valid now wait later
            (omega (arith, length-keep-le (recent now window) sw.entries)) r.0 waited))

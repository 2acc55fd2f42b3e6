-- ===== src/Middleware/RateLimit/Window.antt =====
-- The sliding window of ratelimit.go against its specification: a log of all admitted requests.
use loxtu_go.Base.{
  ℕ, ◌≤◌, ◌<◌, ◌≡◌, inl, inr, refl, ap, ◌∙◌, none, some, List, [], ◌∷◌, ◌++◌, arith, Str, ltb, leb,
  length, keep, lt→ltb, if◌then◌else◌, Bool-cases,
}
use loxtu_go.Base.Map
use loxtu_go.Base.Map.{lookup-insert_self}
use loxtu_go.Middleware.RateLimit.{
  SlidingWindow, RateLimiter, Verdict, passes, recent, store, allow, allow_known,
}
use loxtu_go.Middleware.RateLimit.Log.{
  in_window, logged, admitted_log, Tracks, Tracks-pruned, Tracks-appended, Ascending,
  logged-oldest_wait,
}

module _ (key : Str) (limit window : ℕ) where
  -- What the limiter and the log look like behind one more request.
  record Advanced (rl : RateLimiter) (now : ℕ) (log : List ℕ) (r : RateLimiter × Verdict)
      : Type 0 where
    sw : SlidingWindow
    found : Map.lookup key r.0.windows ≡ some sw
    tracks : Tracks limit window now sw.entries (logged r.1 now log)

  allow_known-Advanced :
      (rl : RateLimiter) (last now : ℕ) (sw : SlidingWindow) (log : List ℕ)
      → last ≤ now
      → Tracks limit window last sw.entries log
      → Advanced rl now log (allow_known rl key limit window now sw)
  unfolding allow_known
  allow_known-Advanced rl last now sw log later tracks =
      elim (Bool-cases (leb limit (length (keep (recent now window) sw.entries)))) [
        | inl full ↦ rw full (record {
          sw = record sw { entries = keep (recent now window) sw.entries };
          found = lookup-insert_self key _ _;
          tracks =
              rw (logged-oldest_wait _ now window log)
                (Tracks-pruned limit window last now sw.entries log later tracks);
        })
        | inr room ↦ rw room (record {
          sw = record sw { entries = keep (recent now window) sw.entries ++ now ∷ [] };
          found = lookup-insert_self key _ _;
          tracks = Tracks-appended limit window last now sw.entries log later tracks (ground arith);
        })
      ]

  pub allow_unknown :
      (rl : RateLimiter) (now : ℕ)
      → Map.lookup key rl.windows ≡ none
      → allow rl key limit window now
        ≡ (store rl key (record { entries = now ∷ []; limit = limit; window = window }), passes)
  unfolding allow
  allow_unknown rl now e = rw (e, allow)

  pub allow_found :
      (rl : RateLimiter) (now : ℕ) (sw : SlidingWindow)
      → Map.lookup key rl.windows ≡ some sw
      → allow rl key limit window now ≡ allow_known rl key limit window now sw
  unfolding allow
  allow_found rl now sw e = rw (e, allow)

  admitted_log_bound :
      (times : List ℕ) (rl : RateLimiter) (last : ℕ) (sw : SlidingWindow) (log : List ℕ)
      → Map.lookup key rl.windows ≡ some sw
      → Tracks limit window last sw.entries log
      → Ascending last times
      → (w : ℕ) → length (in_window w window (admitted_log rl key limit window log times)) ≤ limit
  unfolding admitted_log
  admitted_log_bound [] rl last sw log e tracks a w = tracks.bound w
  admitted_log_bound (now ∷ times) rl last sw log e tracks (later, a) w =
      let adv : Advanced rl now log (allow rl key limit window now) =
        rw (allow_found rl now sw e) (allow_known-Advanced rl last now sw log later tracks) in
      admitted_log_bound times _ now adv.sw _ adv.found adv.tracks a w

  -- However the requests of one key come, at most `limit` of them are admitted in any interval of
  -- the window's length, if the clock does not go back and the limit is positive.
  pub window_bound :
      (rl : RateLimiter) (times : List ℕ) (w : ℕ)
      → 0 < limit
      → Map.lookup key rl.windows ≡ none
      → Ascending 0 times
      → length (in_window w window (admitted_log rl key limit window [] times)) ≤ limit
  unfolding admitted_log
  window_bound rl [] w pos e a = omega arith
  window_bound rl (now ∷ times) w pos e (_, a) = rw (allow_unknown rl now e) (
      admitted_log_bound times _ now first (now ∷ []) (lookup-insert_self key first rl.windows)
        (record { same = λ n h. refl; bound = λ v. ground arith }) a w)
    where
      first : SlidingWindow
      first = record { entries = now ∷ []; limit = limit; window = window }

  -- The reference: the whole log is kept, and a request passes if fewer than `limit` of its
  -- requests are younger than the window.
  pub reference_log : List ℕ → List ℕ → List ℕ
  reference_log log [] = log
  reference_log log (now ∷ times) =
      reference_log
        (if ltb (length (keep (recent now window) log)) limit then log ++ now ∷ [] else log) times

  -- The same branch as the reference takes, by the recent part of the log.
  allow_known-verdict :
      (rl : RateLimiter) (last now : ℕ) (sw : SlidingWindow) (log : List ℕ)
      → last ≤ now
      → Tracks limit window last sw.entries log
      → logged (allow_known rl key limit window now sw).1 now log
        ≡ (if ltb (length (keep (recent now window) log)) limit then log ++ now ∷ [] else log)
  unfolding allow_known
  allow_known-verdict rl last now sw log later tracks = ground (
    arith,
    ap length (tracks.same now later),
    logged-oldest_wait (keep (recent now window) sw.entries) now window log,
  )

  admitted_log-reference :
      (times : List ℕ) (rl : RateLimiter) (last : ℕ) (sw : SlidingWindow) (log : List ℕ)
      → Map.lookup key rl.windows ≡ some sw
      → Tracks limit window last sw.entries log
      → Ascending last times
      → admitted_log rl key limit window log times ≡ reference_log log times
  unfolding admitted_log reference_log
  admitted_log-reference [] rl last sw log e tracks a = refl
  admitted_log-reference (now ∷ times) rl last sw log e tracks (later, a) =
      let adv : Advanced rl now log (allow rl key limit window now) =
        rw (allow_found rl now sw e) (allow_known-Advanced rl last now sw log later tracks) in
      admitted_log-reference times _ now adv.sw _ adv.found adv.tracks a
      ∙ ap (λ l. reference_log l times)
          (rw (allow_found rl now sw e) (allow_known-verdict rl last now sw log later tracks))

  -- Pruning loses nothing: the limiter admits exactly the requests that the reference admits, if
  -- the clock does not go back and the limit is positive.
  pub admitted_log-eq-reference_log :
      (rl : RateLimiter) (times : List ℕ)
      → 0 < limit
      → Map.lookup key rl.windows ≡ none
      → Ascending 0 times
      → admitted_log rl key limit window [] times ≡ reference_log [] times
  unfolding admitted_log reference_log
  admitted_log-eq-reference_log rl [] pos e a = refl
  admitted_log-eq-reference_log rl (now ∷ times) pos e (_, a) =
      rw (allow_unknown rl now e, lt→ltb 0 limit pos)
        (admitted_log-reference times _ now first (now ∷ [])
          (lookup-insert_self key first rl.windows)
          (record { same = λ n h. refl; bound = λ v. ground arith }) a)
    where
      first : SlidingWindow
      first = record { entries = now ∷ []; limit = limit; window = window }

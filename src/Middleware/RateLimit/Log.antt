-- ===== src/Middleware/RateLimit/Log.antt =====
-- The log of the requests that ratelimit.go admits for one key, and what its entries keep of it.
use loxtu_go.Base.{
  ℕ, ◌+◌, ◌≤◌, ◌<◌, ◌≡◌, refl, ap, Bool, ◌&&◌, List, [], ◌∷◌, ◌++◌, arith, Str, ltb, leb, length,
  keep, length-append,
}
use loxtu_go.Middleware.RateLimit.{RateLimiter, Verdict, passes, recent, oldest_wait, allow}

-- The requests of the log that lie in the window ending at `w`.
abbrev pub in_window : ℕ → ℕ → List ℕ → List ℕ
in_window w window = keep (λ t. leb t w && ltb w (t + window))

keep-append {ℓ} :
    {A : Type ℓ} (p : A → Bool) (xs ys : List A) → keep p (xs ++ ys) ≡ keep p xs ++ keep p ys
keep-append p [] ys = refl
keep-append p (x ∷ xs) ys = ground (arith, keep-append p xs ys)

-- What is recent at a later time was recent before.
keep-recent_later :
    (now later window : ℕ) (ts : List ℕ)
    → now ≤ later
    → keep (recent later window) (keep (recent now window) ts) ≡ keep (recent later window) ts
keep-recent_later now later window [] h = refl
keep-recent_later now later window (t ∷ ts) h =
    ground (arith, keep-recent_later now later window ts h)

length-in_window-le :
    (now w window : ℕ) (ts : List ℕ)
    → now ≤ w
    → length (in_window w window ts) ≤ length (keep (recent now window) ts)
length-in_window-le now w window [] h = omega arith
length-in_window-le now w window (t ∷ ts) h = ground (arith, length-in_window-le now w window ts h)

length-in_window-append :
    (w window now : ℕ) (ts : List ℕ)
    → length (in_window w window (ts ++ now ∷ []))
      ≡ length (in_window w window ts) + length (in_window w window (now ∷ []))
length-in_window-append w window now ts =
    rw (keep-append (λ t. leb t w && ltb w (t + window)) ts (now ∷ []))
      (length-append (in_window w window ts) (in_window w window (now ∷ [])))

abbrev pub logged : Verdict → ℕ → List ℕ → List ℕ
logged passes now log = log ++ now ∷ []
logged _ now log = log

-- The requests that were admitted, oldest first, when the key is asked at the given times.
unfoldable pub admitted_log : RateLimiter → Str → ℕ → ℕ → List ℕ → List ℕ → List ℕ
admitted_log rl key limit window log [] = log
admitted_log rl key limit window log (now ∷ times) =
    let (rl', verdict) = allow rl key limit window now in
    admitted_log rl' key limit window (logged verdict now log) times

-- The entries stand for the log, as far as it still matters, and the log keeps the limit.
pub record Tracks (limit window last : ℕ) (entries log : List ℕ) : Type 0 where
  pub same : (n : ℕ) → last ≤ n → keep (recent n window) entries ≡ keep (recent n window) log
  pub bound : (w : ℕ) → length (in_window w window log) ≤ limit

module _ (limit window last now : ℕ) (entries log : List ℕ) (later : last ≤ now)
    (tracks : Tracks limit window last entries log) where
  pub Tracks-pruned : Tracks limit window now (keep (recent now window) entries) log
  Tracks-pruned = record {
    same = λ n h. rw (keep-recent_later now n window entries h) (tracks.same n (omega arith));
    bound = tracks.bound;
  }

  same_appended :
      (n : ℕ)
      → now ≤ n
      → keep (recent n window) (keep (recent now window) entries ++ now ∷ [])
        ≡ keep (recent n window) (log ++ now ∷ [])
  same_appended n h = rw (
    keep-append (recent n window) (keep (recent now window) entries) (now ∷ []),
    keep-append (recent n window) log (now ∷ []),
    keep-recent_later now n window entries h,
    tracks.same n (omega arith),
  )

  bound_appended :
      length (keep (recent now window) entries) < limit
      → (w : ℕ) → length (in_window w window (log ++ now ∷ [])) ≤ limit
  bound_appended room w = rw (length-in_window-append w window now log) (
      ground (
        arith,
        tracks.bound w,
        length-in_window-le now w window log,
        ap length (tracks.same now later),
      ))

  pub Tracks-appended :
      length (keep (recent now window) entries) < limit
      → Tracks limit window now (keep (recent now window) entries ++ now ∷ []) (log ++ now ∷ [])
  Tracks-appended room = record { same = same_appended; bound = bound_appended room }

abbrev pub Ascending : ℕ → List ℕ → Type 0
Ascending last [] = Unit
Ascending last (t ∷ ts) = (last ≤ t) × Ascending t ts

pub logged-oldest_wait :
    (ts : List ℕ) (now window : ℕ) (log : List ℕ) → logged (oldest_wait ts now window) now log ≡ log
logged-oldest_wait [] now window log = refl
logged-oldest_wait (t ∷ ts) now window log = refl

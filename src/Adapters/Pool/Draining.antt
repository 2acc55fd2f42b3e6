-- ===== src/Adapters/Pool/Draining.antt =====
-- The termination of `Close` of internal/adapters/persistence/surrealdb/pool.go, run on its own.
use loxtu_go.Base.{
  ℕ, suc, ◌+◌, ◌≡◌, ◌⊎◌, refl, sym, ap, ◌∙◌, inl, inr, Bool, true, false, List, [], ◌∷◌, arith,
  length, if◌then◌else◌, Bool-cases,
}
use loxtu_go.Adapters.Pool.{close}
use loxtu_go.Adapters.Pool.Close.{shut_down, close_open}
use loxtu_go.Adapters.Pool.Steps.{
  System, Step, borrowed, checked, discarded, redialed, dropped, sent, close_begins, drained,
  channel_closes,
}

module _ {Conn : Type 0} where
  -- The steps that `Close` takes: it sets the flag, receives and closes a connection, or finds none
  -- left and closes the channel.
  unfoldable pub is_of_close : {s t : System Conn} → Step s t → Bool
  is_of_close (borrowed e) = false
  is_of_close (checked c xs ys e f) = false
  is_of_close (discarded c xs ys e f) = false
  is_of_close (redialed c xs ys dial e f) = false
  is_of_close (dropped c xs ys dial e f) = false
  is_of_close (sent c xs ys e k) = false
  is_of_close (close_begins e) = true
  is_of_close (drained shut unshut e) = true
  is_of_close (channel_closes shut unshut e) = true

  -- Any number of steps of `Close`, and of no other call.
  pub data CloseRun (s : System Conn) : System Conn → ℕ → Type 0 where
    at_start : CloseRun s s 0
    next :
        {t u : System Conn} {n : ℕ}
        → CloseRun s t n
        → (step : Step t u) → is_of_close step ≡ true
        → CloseRun s u (suc n)

  -- What is left to do for `Close`.
  unfoldable pub remaining : System Conn → ℕ
  remaining s =
      length s.pool.conns
      + (if s.pool.closed then 0 else 1)
      + (if s.pool.channel_closed then 0 else 1)

  step-remaining :
      {s t : System Conn} (step : Step s t)
      → is_of_close step ≡ true
      → suc (remaining t) ≡ remaining s
  unfolding is_of_close remaining
  step-remaining (borrowed e) q = absurd cc
  step-remaining (checked c xs ys e f) q = absurd cc
  step-remaining (discarded c xs ys e f) q = absurd cc
  step-remaining (redialed c xs ys dial e f) q = absurd cc
  step-remaining (dropped c xs ys dial e f) q = absurd cc
  step-remaining (sent c xs ys e k) q = absurd cc
  step-remaining (close_begins e) q = rw e (omega arith)
  step-remaining (drained shut unshut e) q = rw (shut, unshut, e) (omega arith)
  step-remaining (channel_closes shut unshut e) q = rw (shut, unshut, e) (omega arith)

  run-remaining : {s t : System Conn} {n : ℕ} → CloseRun s t n → n + remaining t ≡ remaining s
  run-remaining at_start = omega arith
  run-remaining (next run step q) = omega (arith, run-remaining run, step-remaining step q)

  step-shut_down :
      {s t : System Conn} (step : Step s t) → is_of_close step ≡ true → shut_down t ≡ shut_down s
  unfolding is_of_close
  step-shut_down (borrowed e) q = absurd cc
  step-shut_down (checked c xs ys e f) q = absurd cc
  step-shut_down (discarded c xs ys e f) q = absurd cc
  step-shut_down (redialed c xs ys dial e f) q = absurd cc
  step-shut_down (dropped c xs ys dial e f) q = absurd cc
  step-shut_down (sent c xs ys e k) q = absurd cc
  step-shut_down (close_begins e) q = refl
  step-shut_down (drained shut unshut e) q = refl
  step-shut_down (channel_closes shut unshut e) q = refl

  run-shut_down : {s t : System Conn} {n : ℕ} → CloseRun s t n → shut_down t ≡ shut_down s
  run-shut_down at_start = refl
  run-shut_down (next run step q) = step-shut_down step q ∙ run-shut_down run

  -- A channel that is closed has been drained, behind the flag.
  abbrev IsDrained : System Conn → Type 0
  IsDrained t = t.pool.channel_closed ≡ true → t ≡ shut_down t

  step-IsDrained :
      {s t : System Conn} (step : Step s t) → is_of_close step ≡ true → IsDrained s → IsDrained t
  unfolding is_of_close
  step-IsDrained (borrowed e) q h = absurd cc
  step-IsDrained (checked c xs ys e f) q h = absurd cc
  step-IsDrained (discarded c xs ys e f) q h = absurd cc
  step-IsDrained (redialed c xs ys dial e f) q h = absurd cc
  step-IsDrained (dropped c xs ys dial e f) q h = absurd cc
  step-IsDrained (sent c xs ys e k) q h = absurd cc
  step-IsDrained (close_begins e) q h = λ done. absurd (cc (ap (λ x. x.pool.closed) (h done)))
  step-IsDrained (drained shut unshut e) q h = λ done. absurd cc
  step-IsDrained {s} (channel_closes shut unshut e) q h = λ done i. record s {
    pool = record s.pool { closed = shut i; conns = e i; channel_closed = true };
  }

  run-IsDrained :
      {s t : System Conn} {n : ℕ} → s.pool.channel_closed ≡ false → CloseRun s t n → IsDrained t
  run-IsDrained unshut at_start = λ done. absurd cc
  run-IsDrained unshut (next run step q) = step-IsDrained step q (run-IsDrained unshut run)

  -- A step of `Close` that may come next.
  abbrev pub GoesOn : System Conn → Type 0
  GoesOn t = (u : System Conn) × (step : Step t u) × (is_of_close step ≡ true)

  drains :
      (t : System Conn) (cs : List Conn)
      → t.pool.closed ≡ true
      → t.pool.channel_closed ≡ false
      → t.pool.conns ≡ cs
      → GoesOn t
  unfolding is_of_close
  drains t [] shut unshut e = (_, channel_closes shut unshut e, refl)
  drains t (c ∷ cs) shut unshut e = (_, drained shut unshut e, refl)

  goes_on : (t : System Conn) → t.pool.channel_closed ≡ false → GoesOn t
  unfolding is_of_close
  goes_on t unshut = elim (Bool-cases t.pool.closed) [
    | inl shut ↦ drains t t.pool.conns shut unshut refl
    | inr usable ↦ (_, close_begins usable, refl)
  ]

  -- `Close` ends. On a pool that is open, every run of its steps, without those of other calls, is
  -- n steps long with n and what remains to do adding up to the connections in the channel and two,
  -- so that no run is longer; and at each point of a run either a further step of `Close` is
  -- possible, or the pool is the one that `close` gives, with what is in use or on its way back as
  -- it was.
  pub close_ends :
      (s t : System Conn) (n : ℕ)
      → s.pool.closed ≡ false
      → s.pool.channel_closed ≡ false
      → CloseRun s t n
      → (n + remaining t ≡ length s.pool.conns + 2)
        × (GoesOn t ⊎ (t ≡ record s { pool = close s.pool }))
  unfolding remaining
  close_ends s t n usable unshut run = (
    run-remaining run ∙ rw (usable, unshut) (omega arith),
    elim (Bool-cases t.pool.channel_closed) [
      | inl done ↦ inr (
          run-IsDrained unshut run done
          ∙ run-shut_down run
          ∙ ap (λ p. record s { pool = p }) (sym (close_open s.pool usable)))
      | inr more ↦ inl (goes_on t more)
    ],
  )

-- ===== src/Adapters/Pool/Close.antt =====
-- What becomes of the pool of pool.go when a reconnection fails, and when it is closed while
-- connections are on their way back.
use mathlib.Core.Path.{subst}
use loxtu_go.Base.{
  ◌≤◌, ◌≡◌, ◌≢◌, refl, ap, true, false, List, [], ◌∷◌, ◌++◌, arith, length, length-append,
  if◌then◌else◌,
}
use loxtu_go.Adapters.Pool.{Pool, got, send_panics, put, borrow, close}
use loxtu_go.Adapters.Pool.Bounds.{length-of_split, borrow-got, put-kept}
use loxtu_go.Adapters.Pool.Steps.{
  System, Step, borrowed, checked, discarded, redialed, dropped, sent, close_begins, drained,
  channel_closes, Steps, here, later, total,
}

module _ {Conn : Type 0} where
  Step-total : {s t : System Conn} → Step s t → total t ≤ total s
  unfolding total
  Step-total {s} (borrowed {p} {c} e) = omega (arith, ap length (borrow-got s.pool p c e).0)
  Step-total (checked c xs ys e _) = omega (arith, length-of_split _ xs ys c e)
  Step-total (discarded c xs ys e _) = omega (arith, length-of_split _ xs ys c e)
  Step-total (redialed c xs ys dial e f) = omega (arith, length-of_split _ xs ys c e)
  Step-total (dropped c xs ys dial e f) = omega (arith, length-of_split _ xs ys c e)
  Step-total {s} (sent c xs ys {p} e k) = omega (
    arith,
    length-of_split _ xs ys c e,
    ap (λ q. length q.conns) (put-kept c s.pool p k).0,
    length-append s.pool.conns (c ∷ []),
  )
  Step-total (close_begins _) = omega arith
  Step-total (drained _ _ e) = omega (arith, ap length e)
  Step-total (channel_closes _ _ _) = omega arith

  -- The pool never grows: no step of any caller makes up for a connection that a failed
  -- reconnection has dropped.
  pub total_antitone : {s t : System Conn} → Steps s t → total t ≤ total s
  total_antitone here = omega arith
  total_antitone (later steps step) = omega (arith, total_antitone steps, Step-total step)

  -- Once every connection has been dropped, no caller is ever given one again.
  pub never_again :
      (s t : System Conn) (q : Pool Conn) (c : Conn)
      → Steps s t
      → total s ≡ 0
      → borrow false t.pool ≢ (q, got c)
  unfolding total
  never_again s t q c steps none_left e =
      absurd (omega (arith, total_antitone steps, none_left, ap length (borrow-got t.pool q c e).0))

  abbrev pub shut_down : System Conn → System Conn
  shut_down s = record s {
    pool = record s.pool { closed = true; conns = []; channel_closed = true };
  }

  -- The loop of `Close`, and the end of it.
  drain :
      (cs : List Conn) (s t : System Conn)
      → Steps s t
      → t.pool.conns ≡ cs
      → t.pool.closed ≡ true
      → t.pool.channel_closed ≡ false
      → Steps s (shut_down t)
  drain [] s t steps e shut unshut =
      subst
        (λ b.
          Steps s
            (record t { pool = record t.pool { closed = b; conns = []; channel_closed = true } }))
        shut
        (subst
          (λ cs. Steps s (record t { pool = record t.pool { conns = cs; channel_closed = true } }))
          e (later steps (channel_closes shut unshut e)))
  drain (c ∷ cs) s t steps e shut unshut =
      drain cs s (record t { pool = record t.pool { conns = cs } })
        (later steps (drained shut unshut e)) refl shut unshut

  pub close_open :
      (p : Pool Conn)
      → p.closed ≡ false
      → close p ≡ record p { closed = true; conns = []; channel_closed = true }
  unfolding close
  close_open p usable =
      ap (λ b. if b then p else record p { closed = true; conns = []; channel_closed = true })
        usable

  -- `Close` can run to its end on an open pool, on its own.
  pub close_reaches :
      (s : System Conn)
      → s.pool.closed ≡ false
      → s.pool.channel_closed ≡ false
      → Steps s (record s { pool = close s.pool })
  close_reaches s usable unshut = rw (close_open s.pool usable) (
      drain s.pool.conns s (record s { pool = record s.pool { closed = true } })
        (later here (close_begins usable)) refl refl unshut)

  -- `returnConn` lets the mutex go before it sends. Whenever a connection is on its way back and the
  -- pool is open, `Close` can run to its end first, and then the send panics.
  pub close_race :
      (s : System Conn) (c : Conn) (xs ys : List Conn)
      → s.returning ≡ xs ++ c ∷ ys
      → s.pool.closed ≡ false
      → s.pool.channel_closed ≡ false
      → (u : System Conn) × Steps s u × (u.returning ≡ xs ++ c ∷ ys) × (put c u.pool ≡ send_panics)
  unfolding put
  close_race s c xs ys e usable unshut =
      (_, close_reaches s usable unshut, e, rw (close_open s.pool usable) refl)

-- ===== src/Adapters/Pool/Steps.antt =====
-- Callers of the pool in internal/adapters/persistence/surrealdb/pool.go that run side by side. Each
-- holds connections; a return is two steps, since `returnConn` reads the flag under the mutex and
-- sends after it has let the mutex go.
use loxtu_go.Base.{ℕ, ◌+◌, length, true, false, List, [], ◌∷◌, ◌++◌, ◌≡◌, Str}
use loxtu_go.Base.Result.{ok, err}
use loxtu_go.Adapters.Pool.{Config, Pool, Dial, got, kept, new_conn, new_pool, put, borrow}

-- `lent` are in use, `returning` are on their way back: the flag has been read, or they come from a
-- reconnection, and the send is to follow.
pub record System (Conn : Type 0) : Type 0 where
  pub pool : Pool Conn
  pub lent : List Conn
  pub returning : List Conn

module _ {Conn : Type 0} where
  -- Connections in the channel, in use and on their way back.
  unfoldable pub total : System Conn → ℕ
  total s = length s.pool.conns + length s.lent + length s.returning

  pub data Step (s : System Conn) : System Conn → Type 0 where
    borrowed :
        {p : Pool Conn} {c : Conn}
        → borrow false s.pool ≡ (p, got c)
        → Step s (record { pool = p; lent = c ∷ s.lent; returning = s.returning })
    -- `returnConn` finds the pool open
    checked :
        (c : Conn) (xs ys : List Conn)
        → s.lent ≡ xs ++ c ∷ ys
        → s.pool.closed ≡ false
        → Step s (record { pool = s.pool; lent = xs ++ ys; returning = c ∷ s.returning })
    -- `returnConn` finds the pool closed, and closes the connection
    discarded :
        (c : Conn) (xs ys : List Conn)
        → s.lent ≡ xs ++ c ∷ ys
        → s.pool.closed ≡ true
        → Step s (record { pool = s.pool; lent = xs ++ ys; returning = s.returning })
    -- `reconnect` closes the dead connection and makes a new one
    redialed :
        (c : Conn) (xs ys : List Conn) (dial : Dial Conn) {d : Conn}
        → s.lent ≡ xs ++ c ∷ ys
        → new_conn dial ≡ ok d
        → Step s (record { pool = s.pool; lent = xs ++ ys; returning = d ∷ s.returning })
    -- `reconnect` closes the dead connection and makes no new one
    dropped :
        (c : Conn) (xs ys : List Conn) (dial : Dial Conn) {e : Str}
        → s.lent ≡ xs ++ c ∷ ys
        → new_conn dial ≡ err e
        → Step s (record { pool = s.pool; lent = xs ++ ys; returning = s.returning })
    sent :
        (c : Conn) (xs ys : List Conn) {p : Pool Conn}
        → s.returning ≡ xs ++ c ∷ ys
        → put c s.pool ≡ kept p
        → Step s (record { pool = p; lent = s.lent; returning = xs ++ ys })
    close_begins :
        s.pool.closed ≡ false → Step s (record s { pool = record s.pool { closed = true } })
    drained :
        {c : Conn} {rest : List Conn}
        → s.pool.closed ≡ true
        → s.pool.channel_closed ≡ false
        → s.pool.conns ≡ c ∷ rest
        → Step s (record s { pool = record s.pool { conns = rest } })
    channel_closes :
        s.pool.closed ≡ true
        → s.pool.channel_closed ≡ false
        → s.pool.conns ≡ []
        → Step s (record s { pool = record s.pool { channel_closed = true } })

  pub data Steps (s : System Conn) : System Conn → Type 0 where
    here : Steps s s
    later : {t u : System Conn} → Steps s t → Step t u → Steps s u

  abbrev pub idle : Pool Conn → System Conn
  idle p = record { pool = p; lent = []; returning = [] }

  -- What can come of a pool that `NewPool` has made.
  pub data Reach : System Conn → Type 0 where
    made :
        (dial : ℕ → Dial Conn) (cfg : Config) {p : Pool Conn} {s : System Conn}
        → new_pool dial cfg ≡ ok p
        → Steps (idle p) s
        → Reach s

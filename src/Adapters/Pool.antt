-- ===== src/Adapters/Pool.antt =====
-- internal/adapters/persistence/surrealdb/pool.go: the pool of connections to the database. The
-- driver is a parameter: what it answers in a call is an argument of the call.
pub mod Steps
pub mod Bounds
pub mod Close
pub mod Draining
pub mod Query
pub mod Records
mod Tests
use loxtu_go.Base.{
  ℕ, zero, suc, ◌+◌, Bool, true, false, ◌||◌, Option, none, some, List, [], ◌∷◌, ◌++◌, Str, bytes,
  has_prefix, is_empty, ltb, length, if◌then◌else◌, ◌==◌,
}
use loxtu_go.Base.Result.{Result, ok, err, panics}

pub record Config : Type 0 where
  pub endpoint : Str
  pub namespace : Str
  pub max_conns : ℕ

-- `conns` is the buffered channel, with the connection that is received next in front.
pub record Pool (Conn : Type 0) : Type 0 where
  pub conns : List Conn
  pub channel_closed : Bool
  pub default_ns : Str
  pub max_conns : ℕ
  pub closed : Bool

-- What the driver answers to `New`, `SignIn` and `Use` for a new connection.
pub record Dial (Conn : Type 0) : Type 0 where
  pub dialed : Option Conn
  pub signed_in : Bool
  pub selected : Bool

-- The result of a receive from the channel in the `select` of `borrow`, or of its other branch. A
-- receive from a closed channel that is empty yields nil; from an open one it waits.
pub data Borrowed (Conn : Type 0) : Type 0 where
  got : Conn → Borrowed Conn
  cancelled : Borrowed Conn
  got_nil : Borrowed Conn
  waits : Borrowed Conn

-- A send on the channel: it panics on a closed channel and waits on a full one.
pub data Sent (Conn : Type 0) : Type 0 where
  kept : Pool Conn → Sent Conn
  send_panics : Sent Conn
  send_waits : Sent Conn

abbrev pub pool_size : Config → ℕ
pool_size cfg = if cfg.max_conns == 0 then 10 else cfg.max_conns

module _ {Conn : Type 0} where
  -- The cause that the driver gives is left out of an error's text.
  pub new_conn : Dial Conn → Result Conn
  new_conn dial = elim dial.dialed [
    | none ↦ err (bytes "dial: ")
    | some conn ↦
        if dial.signed_in
        then if dial.selected then ok conn else err (bytes "use: ")
        else err (bytes "signin: ")
  ]

  pub put : Conn → Pool Conn → Sent Conn
  put conn p =
      if p.channel_closed
      then send_panics
      else if ltb (length p.conns) p.max_conns
      then kept (record p { conns = p.conns ++ conn ∷ [] })
      else send_waits

  pub receive : Pool Conn → List Conn → Pool Conn × Borrowed Conn
  receive p [] = (p, if p.channel_closed then got_nil else waits)
  receive p (conn ∷ rest) = (record p { conns = rest }, got conn)

  -- The flag says that the `select` takes the branch of the context.
  pub borrow : Bool → Pool Conn → Pool Conn × Borrowed Conn
  borrow context_done p = if context_done then (p, cancelled) else receive p p.conns

  pub return_conn : Conn → Pool Conn → Sent Conn
  return_conn conn p = if p.closed then kept p else put conn p

  pub put_new : Result Conn → Pool Conn → Sent Conn
  put_new (ok conn) p = put conn p
  put_new (err e) p = kept p
  put_new panics p = kept p

  pub reconnect : Dial Conn → Pool Conn → Sent Conn
  reconnect dial p = put_new (new_conn dial) p

  -- `Close` in one go: what it drains it closes.
  pub close : Pool Conn → Pool Conn
  close p = if p.closed then p else record p { closed = true; conns = []; channel_closed = true }

  -- A send that waits would never return, as nobody else has the pool yet; it counts as a panic.
  pub sent_first : Sent Conn → Result (Pool Conn)
  sent_first (kept p) = ok p
  sent_first send_panics = panics
  sent_first send_waits = panics

  pub filled : Result Conn → Pool Conn → Result (Pool Conn)
  filled (ok conn) p = sent_first (put conn p)
  filled (err e) p = err (bytes "pool init conn: " ++ e)
  filled panics p = panics

  -- The loop of `NewPool` from round `i` on; `dial i` is what the driver answers in it.
  pub fill : (ℕ → Dial Conn) → ℕ → ℕ → Result (Pool Conn) → Result (Pool Conn)
  fill dial i zero r = r
  fill dial i (suc left) (ok p) = fill dial (i + 1) left (filled (new_conn (dial i)) p)
  fill dial i (suc left) (err e) = err e
  fill dial i (suc left) panics = panics

  abbrev pub empty_pool : Config → ℕ → Pool Conn
  empty_pool cfg n = record {
    conns = [];
    channel_closed = false;
    default_ns = cfg.namespace;
    max_conns = n;
    closed = false;
  }

  -- `MaxConns` is a natural number here: a negative one counts as 0 does.
  pub new_pool : (ℕ → Dial Conn) → Config → Result (Pool Conn)
  new_pool dial cfg =
      if is_empty cfg.endpoint
      then err (bytes "surrealdb: empty Endpoint")
      else fill dial 0 (pool_size cfg) (ok (empty_pool cfg (pool_size cfg)))

  -- `tenant_id` is the context's.
  pub tenant_ns : Str → Pool Conn → Str
  tenant_ns tenant_id p = if is_empty tenant_id then p.default_ns else tenant_id

-- strings.Contains
unfoldable pub contains : Str → Str → Bool
contains [] needle = is_empty needle
contains (c ∷ s) needle = has_prefix (c ∷ s) needle || contains s needle

pub conn_error : Str → Bool
conn_error s =
    contains s (bytes "broken pipe")
    || contains s (bytes "connection reset")
    || contains s (bytes "EOF")
    || contains s (bytes "use of closed network connection")
    || contains s (bytes "i/o timeout")

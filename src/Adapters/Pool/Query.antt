-- ===== src/Adapters/Pool/Query.antt =====
-- internal/adapters/persistence/surrealdb/pool.go: `Query` and `CreateRecord`, which borrow a
-- connection, use it and give it back. What the driver answers is an argument, and so is which
-- branch each `select` takes.
pub mod Open
pub mod Settled
pub mod Conserve
use loxtu_go.Base.{Bool, true, false, Str, bytes, ◌++◌, if◌then◌else◌}
use loxtu_go.Adapters.Pool.{
  Pool, Dial, Borrowed, got, cancelled, got_nil, waits, Sent, kept, send_panics, send_waits, borrow,
  return_conn, reconnect, conn_error,
}

pub data Answer (R : Type 0) : Type 0 where
  answered : R → Answer R
  failed : Str → Answer R

-- `use_db` and `run` are `Use` and the call itself on a connection.
pub record Call (Conn R : Type 0) : Type 0 where
  pub done_first : Bool
  pub done_second : Bool
  pub use_db : Conn → Bool
  pub run : Conn → Answer R
  pub dial : Dial Conn

-- How a call ends: with a result, with an error, of which the cause that the driver gives in `Use`
-- and `ctx.Err()` are left out, by calling a method of a nil connection, by a panic of a send, or
-- not at all.
pub data Outcome (R : Type 0) : Type 0 where
  success : R → Outcome R
  failure : Str → Outcome R
  nil_connection : Outcome R
  panicked : Outcome R
  hangs : Outcome R

pub retried : {R : Type 0} → Answer R → Outcome R
retried (answered r) = success r
retried (failed e) = failure (bytes "db query (retry failed): " ++ e)

module _ {Conn R : Type 0} where
  -- The end of a call after a send: the pool is as it was if the send does not come to its end.
  pub settle : Pool Conn → Outcome R → Sent Conn → Pool Conn × Outcome R
  settle p end (kept p') = (p', end)
  settle p end send_panics = (p, panicked)
  settle p end send_waits = (p, hangs)

  pub give_back : Conn → Pool Conn → Outcome R → Pool Conn × Outcome R
  give_back conn p end = settle p end (return_conn conn p)

  pub retry_on : Call Conn R → Conn → Pool Conn → Pool Conn × Outcome R
  retry_on call conn p =
      if call.use_db conn
      then give_back conn p (retried (call.run conn))
      else give_back conn p (failure (bytes "use after reconnect: "))

  pub retry : Call Conn R → Pool Conn × Borrowed Conn → Pool Conn × Outcome R
  retry call (p, got conn) = retry_on call conn p
  retry call (p, cancelled) = (p, failure (bytes "borrow after reconnect: "))
  retry call (p, got_nil) = (p, nil_connection)
  retry call (p, waits) = (p, hangs)

  pub after_reconnect : Call Conn R → Pool Conn → Sent Conn → Pool Conn × Outcome R
  after_reconnect call p (kept p') = retry call (borrow call.done_second p')
  after_reconnect call p send_panics = (p, panicked)
  after_reconnect call p send_waits = (p, hangs)

  pub query_answer : Call Conn R → Conn → Pool Conn → Answer R → Pool Conn × Outcome R
  query_answer call conn p (answered r) = give_back conn p (success r)
  query_answer call conn p (failed e) =
      if conn_error e
      then after_reconnect call p (reconnect call.dial p)
      else give_back conn p (failure (bytes "db query: " ++ e))

  pub query_on : Call Conn R → Conn → Pool Conn → Pool Conn × Outcome R
  query_on call conn p =
      if call.use_db conn
      then query_answer call conn p (call.run conn)
      else give_back conn p (failure (bytes "use: "))

  pub query_borrowed : Call Conn R → Pool Conn × Borrowed Conn → Pool Conn × Outcome R
  query_borrowed call (p, got conn) = query_on call conn p
  query_borrowed call (p, cancelled) = (p, failure (bytes "borrow: "))
  query_borrowed call (p, got_nil) = (p, nil_connection)
  query_borrowed call (p, waits) = (p, hangs)

  pub query : Call Conn R → Pool Conn → Pool Conn × Outcome R
  query call p = query_borrowed call (borrow call.done_first p)

  pub create_answer : Call Conn R → Conn → Pool Conn → Answer R → Pool Conn × Outcome R
  create_answer call conn p (answered r) = give_back conn p (success r)
  create_answer call conn p (failed e) =
      if conn_error e
      then settle p (failure (bytes "create record: " ++ e)) (reconnect call.dial p)
      else give_back conn p (failure (bytes "create record: " ++ e))

  pub create_on : Call Conn R → Conn → Pool Conn → Pool Conn × Outcome R
  create_on call conn p =
      if call.use_db conn
      then create_answer call conn p (call.run conn)
      else give_back conn p (failure (bytes "use: "))

  pub create_borrowed : Call Conn R → Pool Conn × Borrowed Conn → Pool Conn × Outcome R
  create_borrowed call (p, got conn) = create_on call conn p
  create_borrowed call (p, cancelled) = (p, failure (bytes "borrow: "))
  create_borrowed call (p, got_nil) = (p, nil_connection)
  create_borrowed call (p, waits) = (p, hangs)

  pub create_record : Call Conn R → Pool Conn → Pool Conn × Outcome R
  create_record call p = create_borrowed call (borrow call.done_first p)

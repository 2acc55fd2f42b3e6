-- ===== src/Adapters/Pool/Tests.antt =====
-- The pool of pool.go on concrete runs.
use loxtu_go.Base.{
  ℕ, ◌+◌, ◌≤◌, ◌≡◌, ◌≢◌, ◌⊎◌, refl, true, false, some, none, [], ◌∷◌, ◌++◌, arith, length, bytes,
  has_prefix,
}
use loxtu_go.Base.Result.{ok}
use loxtu_go.Adapters.Pool.{
  close, Config, Pool, Dial, got, send_panics, send_waits, new_conn, put, receive, borrow,
  sent_first, filled, fill, new_pool, contains, conn_error,
}
use loxtu_go.Adapters.Pool.Steps.{
  System, borrowed, checked, dropped, close_begins, Steps, here, later, total, Reach, made,
}
use loxtu_go.Adapters.Pool.Bounds.{pool_bounded, return_never_waits}
use loxtu_go.Adapters.Pool.Close.{never_again, close_race}
use loxtu_go.Adapters.Pool.Draining.{
  is_of_close, CloseRun, at_start, next, remaining, GoesOn, close_ends,
}
use loxtu_go.Adapters.Pool.Query.{Call, failed, hangs, query, create_record}
use loxtu_go.Adapters.Pool.Query.Conserve.{call_conserves}
use loxtu_go.Adapters.Pool.Query.Settled.{is_end, cost, loses}
use loxtu_go.Adapters.Pool.Records.{other, get_record_id, format_record_id}
use loxtu_go.Adapters.Pool.Records.RoundTrip.{get_record_id-format_record_id}

abbrev dials : Dial ℕ
dials = record { dialed = some 7; signed_in = true; selected = true }

abbrev refused : Dial ℕ
refused = record { dialed = none; signed_in = true; selected = true }

abbrev one : Config
one = record { endpoint = 119 ∷ []; namespace = []; max_conns = 1 }

abbrev full : Pool ℕ
full = record {
  conns = 7 ∷ [];
  channel_closed = false;
  default_ns = [];
  max_conns = 1;
  closed = false;
}

abbrev drained_pool : Pool ℕ
drained_pool = record full { conns = [] }

full_made : new_pool (λ i. dials) one ≡ ok full
unfolding new_pool fill filled sent_first new_conn put
full_made = refl

takes : borrow false full ≡ (drained_pool, got 7)
unfolding borrow receive
takes = refl

-- One caller has the only connection, and is about to send it back.
abbrev sending : System ℕ
sending = record { pool = drained_pool; lent = []; returning = 7 ∷ [] }

abbrev lending : System ℕ
lending = record { pool = drained_pool; lent = 7 ∷ []; returning = [] }

abbrev lost : System ℕ
lost = record { pool = drained_pool; lent = []; returning = [] }

reaches_sending : Reach sending
reaches_sending =
    made (λ i. dials) one full_made
      (later {t = lending} (later here (borrowed takes)) (checked 7 [] [] refl refl))

loses_it : Steps lending lost
unfolding new_conn
loses_it = later here (dropped 7 [] [] refused refl refl)

pool_bounded_example : total sending ≤ 1
pool_bounded_example = pool_bounded reaches_sending

return_never_waits_example : put 7 drained_pool ≢ send_waits
return_never_waits_example = return_never_waits sending 7 [] [] reaches_sending refl

never_again_example : borrow false lost.pool ≢ (full, got 7)
never_again_example = never_again lost lost full 7 here (unfold total in refl)

-- The first step of `Close`.
abbrev closing : System ℕ
closing = record sending { pool = record sending.pool { closed = true } }

closing_run : CloseRun sending closing 1
unfolding is_of_close
closing_run = next at_start (close_begins refl) refl

close_ends_example :
    (1 + remaining closing ≡ length sending.pool.conns + 2)
    × (GoesOn closing ⊎ (closing ≡ record sending { pool = close sending.pool }))
close_ends_example = close_ends sending closing 1 refl refl closing_run

close_race_example :
    (u : System ℕ) × Steps sending u × (u.returning ≡ 7 ∷ []) × (put 7 u.pool ≡ send_panics)
close_race_example = close_race sending 7 [] [] refl refl refl

-- A connection that breaks on every call, and cannot be replaced.
abbrev eof : Call ℕ ℕ
eof = record {
  done_first = false;
  done_second = true;
  use_db = λ c. true;
  run = λ c. failed (69 ∷ 79 ∷ 70 ∷ []);
  dial = refused;
}

call_conserves_example :
    (length (query eof full).0.conns + cost (loses eof full) ≡ 1)
    × ((is_end (query eof full).1 ≡ true)
        ⊎ (((query eof full).1 ≡ hangs) × ((query eof full).0.conns ≡ [])))
    × (length (create_record eof full).0.conns + cost (loses eof full) ≡ 1)
    × ((is_end (create_record eof full).1 ≡ true)
        ⊎ (((create_record eof full).1 ≡ hangs) × ((create_record eof full).0.conns ≡ [])))
call_conserves_example = call_conserves eof full (omega arith) refl refl

eof-loses : loses eof full ≡ true
unfolding conn_error contains has_prefix bytes new_conn
eof-loses = refl

-- "u" and "1"
get_record_id-format_record_id_example :
    get_record_id (format_record_id (other (b'{' ∷ ((117 ∷ []) ++ b' ' ∷ 49 ∷ []) ++ b'}' ∷ [])))
    ≡ some (117 ∷ [], 49 ∷ [])
get_record_id-format_record_id_example =
    get_record_id-format_record_id (117 ∷ []) (49 ∷ []) (λ e. cc) (λ e. cc)
      (
        (
          (λ e. absurd (omega arith)),
          (λ e. absurd (omega arith)),
          (λ e. absurd (omega arith)),
          λ e. absurd (omega arith),
        ),
        tt,
      )
      ((refl, λ e. absurd (omega arith)), tt)

-- ===== src/Adapters/Audit.antt =====
-- The queue of internal/adapters/persistence/surrealdb/audit_repo.go and its five workers, as steps
-- that the scheduler may take in any order. The events are those of internal/core/audit/event.go.
pub mod Accounts
pub mod Bounds
pub mod Delivery
pub mod Service
pub mod Tests
pub mod Workers
pub mod Progress
use loxtu_go.Base.{
  ℕ, zero, suc, ◌-◌, ◌==◌, Bool, true, false, Option, none, some, List, [], ◌∷◌, ◌++◌, Str, bytes,
  str_eq, length, is_empty, ltb, not, ◌&&◌, ◌||◌, if◌then◌else◌,
}

abbrev pub audit_queue_size : ℕ
audit_queue_size = 1024

abbrev pub audit_worker_count : ℕ
audit_worker_count = 5

pub record SecurityEvent : Type 0 where
  pub user_id : Str
  pub tenant_id : Str
  pub masked_email : Str
  pub action : Str
  pub resource_type : Str
  pub resource_id : Str
  pub status : Str
  pub client_ip : Str
  pub req_id : Str

pub is_critical_action : Str → Bool
is_critical_action action =
    str_eq action (bytes "auth.login.fail")
    || str_eq action (bytes "auth.tenant_mismatch")
    || str_eq action (bytes "session.revoke_all")
    || str_eq action (bytes "passkey.fail")

pub is_critical : SecurityEvent → Bool
is_critical e =
    is_critical_action e.action
    || str_eq e.status (bytes "failure")
    || str_eq e.status (bytes "denied")

-- `has_pool` says whether the pool is not nil. `in_hand` are the events that `writeSecurity` is at
-- work on, `written` those that its query has written, `lost` those that it has dropped with a line
-- of the log. `running` counts the workers that have not returned.
pub record AuditRepo : Type 0 where
  pub has_pool : Bool
  pub queue : List SecurityEvent
  pub in_hand : List SecurityEvent
  pub written : List SecurityEvent
  pub lost : List SecurityEvent
  pub running : ℕ
  pub closed : Bool

-- NewAuditRepo, with its workers started.
abbrev pub new_audit_repo : Bool → AuditRepo
new_audit_repo has_pool = record {
  has_pool = has_pool;
  queue = [];
  in_hand = [];
  written = [];
  lost = [];
  running = audit_worker_count;
  closed = false;
}

pub data LogResult : Type 0 where
  queued : LogResult
  cancelled : LogResult
  queue_full : LogResult
  panicked : LogResult

-- The send of the `select`, given whether the channel is closed: it then panics.
pub send_event : AuditRepo → SecurityEvent → Bool → AuditRepo × LogResult
send_event r event true = (r, panicked)
send_event r event false = (record r { queue = r.queue ++ event ∷ [] }, queued)

-- The case that the `select` takes, given whether the send is ready, whether the context is done,
-- and which of two ready cases it picks.
pub select_case : AuditRepo → SecurityEvent → Bool → Bool → Bool → AuditRepo × LogResult
select_case r event true true true = (r, cancelled)
select_case r event true true false = send_event r event r.closed
select_case r event true false picks_done = send_event r event r.closed
select_case r event false true picks_done = (r, cancelled)
select_case r event false false picks_done = (r, queue_full)

-- A send on a closed channel is ready.
pub is_send_ready : AuditRepo → Bool
is_send_ready r = r.closed || ltb (length r.queue) audit_queue_size

pub log_security_event : AuditRepo → SecurityEvent → Bool → Bool → AuditRepo × LogResult
log_security_event r event done picks_done = select_case r event (is_send_ready r) done picks_done

-- A worker that is free receives the next event.
pub receive_from : AuditRepo → List SecurityEvent → Bool → AuditRepo
receive_from r (event ∷ rest) true = record r { queue = rest; in_hand = r.in_hand ++ event ∷ [] }
receive_from r _ _ = r

pub receive : AuditRepo → AuditRepo
receive r = receive_from r r.queue (ltb (length r.in_hand) r.running)

pub pull : ℕ → List SecurityEvent → Option (SecurityEvent × List SecurityEvent)
pull n [] = none
pull zero (e ∷ es) = some (e, es)
pull (suc n) (e ∷ es) = elim (pull n es) [ none ↦ none | some (x, rest) ↦ some (x, e ∷ rest) ]

-- A worker ends its call of `writeSecurity`; `ok` says whether the query succeeds.
pub write_security : AuditRepo → Bool → Option (SecurityEvent × List SecurityEvent) → AuditRepo
write_security r ok none = r
write_security r ok (some (event, rest)) =
    if r.has_pool && ok
    then record r { in_hand = rest; written = r.written ++ event ∷ [] }
    else record r { in_hand = rest; lost = r.lost ++ event ∷ [] }

-- A worker that is free finds the channel closed and empty, and returns.
pub exit_worker : AuditRepo → AuditRepo
exit_worker r =
    if r.closed && (is_empty r.queue && ltb (length r.in_hand) r.running)
    then record r { running = r.running - 1 }
    else r

-- Shutdown closes the queue. The call that closes it waits for the workers; a later one returns at
-- once.
pub shutdown : AuditRepo → AuditRepo
shutdown r = record r { closed = true }

-- The call that closed the queue may return: `wg.Wait` waits until every worker has returned.
pub has_shut_down : AuditRepo → Bool
has_shut_down r = r.closed && (r.running == 0)

-- What happens: a call of LogSecurityEvent, a worker receiving, writing or returning, a call of
-- Shutdown.
pub data Step : Type 0 where
  log : SecurityEvent → Bool → Bool → Step
  receives : Step
  writes : ℕ → Bool → Step
  exits : Step
  shuts_down : Step

pub step : Step → AuditRepo → AuditRepo
step (log event done picks_done) r = (log_security_event r event done picks_done).0
step receives r = receive r
step (writes worker ok) r = write_security r ok (pull worker r.in_hand)
step exits r = exit_worker r
step shuts_down r = shutdown r

-- The steps, the last one first.
pub after : Bool → List Step → AuditRepo
after has_pool [] = new_audit_repo has_pool
after has_pool (s ∷ steps) = step s (after has_pool steps)

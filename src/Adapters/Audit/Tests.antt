-- ===== src/Adapters/Audit/Tests.antt =====
-- A run of the audit queue: two events are accepted, and a later one meets the closed queue.
use loxtu_go.Base.{true, false, List, [], ◌∷◌, ◌≡◌, refl}
use loxtu_go.Adapters.Audit.{
  SecurityEvent, panicked, select_case, send_event, is_send_ready, log_security_event, receive,
  receive_from, pull, write_security, shutdown, exit_worker, exits, has_shut_down, Step, log,
  receives, writes, shuts_down, step, after,
}

abbrev an_event : SecurityEvent
an_event = record {
  user_id = [];
  tenant_id = [];
  masked_email = [];
  action = [];
  resource_type = [];
  resource_id = [];
  status = [];
  client_ip = [];
  req_id = [];
}

-- Two events: one is written, the other dropped on a failed query; then the five workers return.
abbrev a_run : List Step
a_run =
    exits
    ∷ exits
    ∷ exits
    ∷ exits
    ∷ exits
    ∷ writes 0 false
    ∷ writes 0 true
    ∷ receives
    ∷ receives
    ∷ shuts_down
    ∷ log an_event false false
    ∷ log an_event false false
    ∷ []

has_shut : has_shut_down (after true a_run) ≡ true
unfolding has_shut_down after step log_security_event select_case send_event is_send_ready receive
    receive_from pull write_security exit_worker shutdown
has_shut = refl

log_after_shutdown : (log_security_event (after true a_run) an_event false false).1 ≡ panicked
unfolding after step log_security_event select_case send_event is_send_ready receive receive_from
    pull write_security exit_worker shutdown
log_after_shutdown = refl

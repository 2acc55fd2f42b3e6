-- ===== src/Adapters/Audit/Bounds.antt =====
-- The sizes of the queue and of the workers of the audit repository.
use loxtu_go.Base.{
  ℕ, ◌≤◌, ◌<◌, Bool, true, false, some, List, [], ◌∷◌, length, length-append, ltb, ltb→lt, suc,
  Bool-cases, Option-cases, inl, inr, is_empty, ◌&&◌, ◌≡◌, refl, ap, arith,
}
use loxtu_go.Adapters.Audit.{
  SecurityEvent, AuditRepo, send_event, select_case, is_send_ready, log_security_event,
  receive_from, receive, pull, write_security, exit_worker, shutdown, Step, log, receives, writes,
  exits, shuts_down, step, after, audit_queue_size, audit_worker_count,
}
use loxtu_go.Adapters.Audit.Accounts.{pull-count}

-- The queue is within its size, and each worker that runs holds one event at most.
abbrev pub IsBounded : AuditRepo → Type 0
IsBounded r =
    (length r.queue ≤ audit_queue_size)
    × (length r.in_hand ≤ r.running)
    × (r.running ≤ audit_worker_count)

-- A worker has returned only from a queue that is closed and empty.
abbrev pub IsDrained : AuditRepo → Type 0
IsDrained r = r.running < audit_worker_count → (r.closed ≡ true) × (r.queue ≡ [])

send_event-IsBounded :
    (r : AuditRepo) (e : SecurityEvent) (closed : Bool)
    → (closed ≡ false → length r.queue < audit_queue_size)
    → IsBounded r
    → IsBounded (send_event r e closed).0
unfolding send_event
send_event-IsBounded r e true room h = h
send_event-IsBounded r e false room (q, w, five) =
    let more : length r.queue < audit_queue_size = room refl in
    (omega (arith, more, length-append r.queue (e ∷ [])), w, five)

select_case-IsBounded :
    (r : AuditRepo) (e : SecurityEvent) (ready done picks : Bool)
    → (ready ≡ true → r.closed ≡ false → length r.queue < audit_queue_size)
    → IsBounded r
    → IsBounded (select_case r e ready done picks).0
unfolding select_case
select_case-IsBounded r e true true true room h = h
select_case-IsBounded r e true true false room h = send_event-IsBounded r e r.closed (room refl) h
select_case-IsBounded r e true false picks room h = send_event-IsBounded r e r.closed (room refl) h
select_case-IsBounded r e false true picks room h = h
select_case-IsBounded r e false false picks room h = h

send_ready_room :
    (r : AuditRepo) → is_send_ready r ≡ true → r.closed ≡ false → length r.queue < audit_queue_size
unfolding is_send_ready
send_ready_room r ready opened = ground arith

receive_from-IsBounded :
    (r : AuditRepo) (q : List SecurityEvent) (free : Bool)
    → r.queue ≡ q
    → (free ≡ true → length r.in_hand < r.running)
    → IsBounded r
    → IsBounded (receive_from r q free)
unfolding receive_from
receive_from-IsBounded r (event ∷ rest) true e room (q, w, five) =
    let n : length r.queue ≡ length (event ∷ rest) = ap length e in
    let less : length r.in_hand < r.running = room refl in
    (omega (arith, q, n), omega (arith, less, length-append r.in_hand (event ∷ [])), five)
receive_from-IsBounded r (event ∷ rest) false e room h = h
receive_from-IsBounded r [] free e room h = h

pulled-IsBounded :
    (r : AuditRepo) (ok : Bool) (event : SecurityEvent) (rest : List SecurityEvent)
    → length r.in_hand ≡ suc (length rest)
    → IsBounded r
    → IsBounded (write_security r ok (some (event, rest)))
unfolding write_security
pulled-IsBounded r ok event rest e (q, w, five) = elim (Bool-cases (r.has_pool && ok)) [
  | inl t ↦ rw t (q, omega arith, five)
  | inr f ↦ rw f (q, omega arith, five)
]

write_security-IsBounded :
    (r : AuditRepo) (ok : Bool) (n : ℕ)
    → IsBounded r
    → IsBounded (write_security r ok (pull n r.in_hand))
unfolding write_security
write_security-IsBounded r ok n h = elim (Option-cases (pull n r.in_hand)) [
  | inl e ↦ rw e h
  | inr ((event, rest), e) ↦
      rw e (pulled-IsBounded r ok event rest (pull-count (λ x. true) n r.in_hand rest event e).1 h)
]

exit_worker-IsBounded : (r : AuditRepo) → IsBounded r → IsBounded (exit_worker r)
unfolding exit_worker
exit_worker-IsBounded r (q, w, five) =
    elim (Bool-cases (r.closed && (is_empty r.queue && ltb (length r.in_hand) r.running))) [
      | inl t ↦
          let free : length r.in_hand < r.running = ground arith in
          rw t (q, omega (arith, free), omega (arith, five))
      | inr f ↦ rw f (q, w, five)
    ]

step-IsBounded : (s : Step) (r : AuditRepo) → IsBounded r → IsBounded (step s r)
unfolding step log_security_event receive shutdown
step-IsBounded (log e done picks) r h =
    select_case-IsBounded r e (is_send_ready r) done picks (send_ready_room r) h
step-IsBounded receives r h =
    receive_from-IsBounded r r.queue (ltb (length r.in_hand) r.running) refl (λ t. ltb→lt _ _ t) h
step-IsBounded (writes n ok) r h = write_security-IsBounded r ok n h
step-IsBounded exits r h = exit_worker-IsBounded r h
step-IsBounded shuts_down r h = h

pub after-IsBounded : (b : Bool) (steps : List Step) → IsBounded (after b steps)
unfolding after
after-IsBounded b [] = (omega arith, omega arith, omega arith)
after-IsBounded b (s ∷ steps) = step-IsBounded s (after b steps) (after-IsBounded b steps)

-- ===== src/Adapters/Audit/Workers.antt =====
-- The workers of internal/adapters/persistence/surrealdb/audit_repo.go return only when the queue is
-- closed and empty.
use loxtu_go.Base.{
  Bool, true, false, Option, none, some, List, [], ◌∷◌, length, ltb, ◌≡◌, refl, arith, Bool-cases,
  inl, inr, is_empty, ◌&&◌,
}
use loxtu_go.Adapters.Audit.{
  SecurityEvent, AuditRepo, send_event, select_case, is_send_ready, log_security_event,
  receive_from, receive, pull, write_security, exit_worker, shutdown, Step, log, receives, writes,
  exits, shuts_down, step, after,
}
use loxtu_go.Adapters.Audit.Bounds.{IsDrained}

pub is_empty-true : (es : List SecurityEvent) → is_empty es ≡ true → es ≡ []
is_empty-true [] e = refl
is_empty-true (e ∷ es) h = absurd cc

send_event-IsDrained :
    (r : AuditRepo) (e : SecurityEvent) (closed : Bool)
    → r.closed ≡ closed
    → IsDrained r
    → IsDrained (send_event r e closed).0
unfolding send_event
send_event-IsDrained r e true same h = h
send_event-IsDrained r e false same h = λ fewer. absurd (cc (same, (h fewer).0))

select_case-IsDrained :
    (r : AuditRepo) (e : SecurityEvent) (ready done picks : Bool)
    → IsDrained r
    → IsDrained (select_case r e ready done picks).0
unfolding select_case
select_case-IsDrained r e true true true h = h
select_case-IsDrained r e true true false h = send_event-IsDrained r e r.closed refl h
select_case-IsDrained r e true false picks h = send_event-IsDrained r e r.closed refl h
select_case-IsDrained r e false true picks h = h
select_case-IsDrained r e false false picks h = h

receive_from-IsDrained :
    (r : AuditRepo) (q : List SecurityEvent) (free : Bool)
    → r.queue ≡ q
    → IsDrained r
    → IsDrained (receive_from r q free)
unfolding receive_from
receive_from-IsDrained r (event ∷ rest) true e h = λ fewer. absurd (cc (e, (h fewer).1))
receive_from-IsDrained r (event ∷ rest) false e h = h
receive_from-IsDrained r [] free e h = h

write_security-IsDrained :
    (r : AuditRepo) (ok : Bool) (o : Option (SecurityEvent × List SecurityEvent))
    → IsDrained r
    → IsDrained (write_security r ok o)
unfolding write_security
write_security-IsDrained r ok none h = h
write_security-IsDrained r ok (some (event, rest)) h = elim (Bool-cases (r.has_pool && ok)) [
  | inl t ↦ rw t h
  | inr f ↦ rw f h
]

exit_worker-IsDrained : (r : AuditRepo) → IsDrained r → IsDrained (exit_worker r)
unfolding exit_worker
exit_worker-IsDrained r h =
    elim (Bool-cases (r.closed && (is_empty r.queue && ltb (length r.in_hand) r.running))) [
      | inl t ↦
          let shut : r.closed ≡ true = ground arith in
          let none_left : is_empty r.queue ≡ true = ground arith in
          rw t (λ fewer. (shut, is_empty-true r.queue none_left))
      | inr f ↦ rw f h
    ]

step-IsDrained : (s : Step) (r : AuditRepo) → IsDrained r → IsDrained (step s r)
unfolding step log_security_event receive shutdown
step-IsDrained (log e done picks) r h = select_case-IsDrained r e (is_send_ready r) done picks h
step-IsDrained receives r h =
    receive_from-IsDrained r r.queue (ltb (length r.in_hand) r.running) refl h
step-IsDrained (writes n ok) r h = write_security-IsDrained r ok (pull n r.in_hand) h
step-IsDrained exits r h = exit_worker-IsDrained r h
step-IsDrained shuts_down r h = λ fewer. (refl, (h fewer).1)

pub after-IsDrained : (b : Bool) (steps : List Step) → IsDrained (after b steps)
unfolding after
after-IsDrained b [] = λ fewer. absurd (omega (arith, fewer))
after-IsDrained b (s ∷ steps) = step-IsDrained s (after b steps) (after-IsDrained b steps)

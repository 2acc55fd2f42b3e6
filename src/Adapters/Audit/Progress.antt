-- ===== src/Adapters/Audit/Progress.antt =====
-- What is left to do for the workers of internal/adapters/persistence/surrealdb/audit_repo.go once
-- the queue is closed.
use loxtu_go.Base.{
  ℕ, suc, ◌+◌, ◌-◌, ◌*◌, ◌∙◌, lt→ltb, if◌then◌else◌, ◌≤◌, ◌<◌, Bool, true, false, some, List, [],
  ◌∷◌, length, length-append, ltb, ◌≡◌, refl, ap, arith, Bool-cases, Option-cases, inl, inr,
  is_empty, ◌&&◌,
}
use loxtu_go.Adapters.Audit.{
  SecurityEvent, AuditRepo, send_event, select_case, is_send_ready, log_security_event,
  receive_from, receive, pull, write_security, exit_worker, shutdown, Step, log, receives, writes,
  exits, shuts_down, step,
}
use loxtu_go.Adapters.Audit.Accounts.{pull-count}

-- A waiting event is to be received and written, one in hand to be written, and each worker to
-- return.
unfoldable pub pending : AuditRepo → ℕ
pending r = 2 * length r.queue + length r.in_hand + r.running

log-pending :
    (r : AuditRepo) (e : SecurityEvent) (ready done picks : Bool)
    → r.closed ≡ true
    → pending (select_case r e ready done picks).0 ≡ pending r
unfolding select_case send_event
log-pending r e true true true shut = refl
log-pending r e true true false shut = rw shut refl
log-pending r e true false picks shut = rw shut refl
log-pending r e false true picks shut = refl
log-pending r e false false picks shut = refl

receive_from-pending :
    (r : AuditRepo) (q : List SecurityEvent) (free : Bool)
    → r.queue ≡ q
    → pending (receive_from r q free) ≤ pending r
unfolding pending receive_from
receive_from-pending r (e ∷ rest) true same =
    omega (arith, ap length same, length-append r.in_hand (e ∷ []))
receive_from-pending r (e ∷ rest) false same = omega arith
receive_from-pending r [] free same = omega arith

write_security-pending :
    (r : AuditRepo) (ok : Bool) (event : SecurityEvent) (rest : List SecurityEvent)
    → length r.in_hand ≡ suc (length rest)
    → suc (pending (write_security r ok (some (event, rest)))) ≡ pending r
unfolding pending write_security
write_security-pending r ok event rest e = elim (Bool-cases (r.has_pool && ok)) [
  | inl t ↦ rw t (omega (arith, e))
  | inr f ↦ rw f (omega (arith, e))
]

writes-pending :
    (r : AuditRepo) (n : ℕ) (ok : Bool)
    → pending (write_security r ok (pull n r.in_hand)) ≤ pending r
unfolding write_security
writes-pending r n ok = elim (Option-cases (pull n r.in_hand)) [
  | inl e ↦ rw e (omega arith)
  | inr ((event, rest), e) ↦
      let (_, shorter) = pull-count (λ x. true) n r.in_hand rest event e in
      rw e (omega (arith, write_security-pending r ok event rest shorter))
]

exit_worker-pending : (r : AuditRepo) → pending (exit_worker r) ≤ pending r
unfolding pending exit_worker
exit_worker-pending r =
    elim (Bool-cases (r.closed && (is_empty r.queue && ltb (length r.in_hand) r.running))) [
      | inl t ↦ rw t (omega arith)
      | inr f ↦ rw f (omega arith)
    ]

pub step-pending : (s : Step) (r : AuditRepo) → r.closed ≡ true → pending (step s r) ≤ pending r
unfolding step log_security_event receive shutdown pending
step-pending (log e done picks) r shut =
    omega (arith, log-pending r e (is_send_ready r) done picks shut)
step-pending receives r shut =
    receive_from-pending r r.queue (ltb (length r.in_hand) r.running) refl
step-pending (writes n ok) r shut = writes-pending r n ok
step-pending exits r shut = exit_worker-pending r
step-pending shuts_down r shut = omega arith

-- A step that a worker can take, after which less is left to do.
abbrev pub GoesOn : AuditRepo → Type 0
GoesOn r = (s : Step) × (suc (pending (step s r)) ≡ pending r)

writes_on :
    (r : AuditRepo) (e : SecurityEvent) (es : List SecurityEvent)
    → r.in_hand ≡ e ∷ es
    → suc (pending (step (writes 0 true) r)) ≡ pending r
unfolding step pull
writes_on r e es held =
    ap (λ hand. suc (pending (write_security r true (pull 0 hand)))) held
    ∙ write_security-pending r true e es (ap length held)

is_free : (r : AuditRepo) → r.in_hand ≡ [] → 0 < r.running → ltb (length r.in_hand) r.running ≡ true
is_free r free some_run =
    let none_held : length r.in_hand ≡ 0 = ap length free in
    lt→ltb _ _ (omega (arith, none_held, some_run))

receives_on :
    (r : AuditRepo) (e : SecurityEvent) (es : List SecurityEvent)
    → r.in_hand ≡ []
    → r.queue ≡ e ∷ es
    → 0 < r.running
    → suc (pending (step receives r)) ≡ pending r
unfolding step receive receive_from pending
receives_on r e es free waiting some_run =
    let ready : ltb (length r.in_hand) r.running ≡ true = is_free r free some_run in
    (λ i. suc (pending (receive_from r (waiting i) (ready i))))
    ∙ omega (arith, ap length waiting, length-append r.in_hand (e ∷ []))

exits_on :
    (r : AuditRepo)
    → r.in_hand ≡ []
    → r.queue ≡ []
    → r.closed ≡ true
    → 0 < r.running
    → suc (pending (step exits r)) ≡ pending r
unfolding step exit_worker pending
exits_on r free idle shut some_run =
    (λ i. suc (
      pending (
        if shut i && (is_empty (idle i) && is_free r free some_run i)
        then record r { running = r.running - 1 }
        else r)))
    ∙ omega (arith, some_run)

pub goes_on :
    (r : AuditRepo) (hand queue : List SecurityEvent)
    → r.in_hand ≡ hand
    → r.queue ≡ queue
    → r.closed ≡ true
    → 0 < r.running
    → GoesOn r
goes_on r (e ∷ es) queue held waiting shut some_run = (writes 0 true, writes_on r e es held)
goes_on r [] (e ∷ es) held waiting shut some_run =
    (receives, receives_on r e es held waiting some_run)
goes_on r [] [] held waiting shut some_run = (exits, exits_on r held waiting shut some_run)

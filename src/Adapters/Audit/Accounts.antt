-- ===== src/Adapters/Audit/Accounts.antt =====
-- The events of internal/adapters/persistence/surrealdb/audit_repo.go, counted by any test on them.
use loxtu_go.Base.{
  ℕ, zero, suc, ◌+◌, Bool, true, false, Option, some, List, [], ◌∷◌, ◌++◌, length, keep, ltb,
  Bool-cases, is_empty, ◌&&◌, ◌≡◌, refl, ap, ◌∙◌, arith, Option-cases, inl, inr,
}
use loxtu_go.Adapters.Audit.{
  SecurityEvent, AuditRepo, LogResult, queued, send_event, select_case, is_send_ready,
  log_security_event, receive_from, receive, pull, write_security, exit_worker, shutdown, Step, log,
  receives, writes, exits, shuts_down, step, after,
}

abbrev pub count : (SecurityEvent → Bool) → List SecurityEvent → ℕ
count p es = length (keep p es)

count-append :
    (p : SecurityEvent → Bool) (xs ys : List SecurityEvent)
    → count p (xs ++ ys) ≡ count p xs + count p ys
count-append p [] ys = omega arith
count-append p (x ∷ xs) ys = ground (arith, count-append p xs ys)

-- The event of a call that was queued.
abbrev queued_event : LogResult → SecurityEvent → List SecurityEvent
queued_event queued e = e ∷ []
queued_event _ e = []

-- The events for which LogSecurityEvent returned no error.
abbrev pub accepted : Bool → List Step → List SecurityEvent
accepted has_pool [] = []
accepted has_pool (log e done favours ∷ steps) =
    accepted has_pool steps
    ++ queued_event (log_security_event (after has_pool steps) e done favours).1 e
accepted has_pool (receives ∷ steps) = accepted has_pool steps
accepted has_pool (writes n ok ∷ steps) = accepted has_pool steps
accepted has_pool (exits ∷ steps) = accepted has_pool steps
accepted has_pool (shuts_down ∷ steps) = accepted has_pool steps

pub pull-count :
    (p : SecurityEvent → Bool) (n : ℕ) (xs rest : List SecurityEvent) (e : SecurityEvent)
    → pull n xs ≡ some (e, rest)
    → (count p xs ≡ count p (e ∷ []) + count p rest) × (length xs ≡ suc (length rest))
unfolding pull
pull-count p n [] rest e h = absurd cc
pull-count p zero (x ∷ xs) rest e h =
    let a : x ≡ e = cc in let b : xs ≡ rest = cc in rw (← a, ← b) (count-append p (x ∷ []) xs, refl)
pull-count p (suc n) (x ∷ xs) rest e h = elim (Option-cases (pull n xs)) [
  | inl f ↦ absurd (cc (rw (f, pull) at h))
  | inr ((y, kept), f) ↦
      let (a, b) = pull-count p n xs kept y f in
      let q : ◌≡◌ {A = Option (SecurityEvent × List SecurityEvent)} (some (y, x ∷ kept))
          (some (e, rest)) =
        rw (f, pull) at h in
      let same : y ≡ e = cc in
      let tail : x ∷ kept ≡ rest = cc in
      rw (← same, ← tail)
        (
          omega (
            arith,
            a,
            count-append p (x ∷ []) xs,
            count-append p (x ∷ []) kept,
            count-append p (y ∷ []) (x ∷ kept),
          ),
          omega (arith, b),
        )
]

unfoldable pub held : (SecurityEvent → Bool) → AuditRepo → ℕ
held p r = count p r.written + count p r.lost + count p r.in_hand + count p r.queue

send_event-held :
    (p : SecurityEvent → Bool) (r : AuditRepo) (e : SecurityEvent) (closed : Bool)
    → held p (send_event r e closed).0
      ≡ held p r + count p (queued_event (send_event r e closed).1 e)
unfolding held send_event
send_event-held p r e true = omega arith
send_event-held p r e false = omega (arith, count-append p r.queue (e ∷ []))

select_case-held :
    (p : SecurityEvent → Bool) (r : AuditRepo) (e : SecurityEvent) (ready done picks : Bool)
    → held p (select_case r e ready done picks).0
      ≡ held p r + count p (queued_event (select_case r e ready done picks).1 e)
unfolding select_case
select_case-held p r e true true true = omega arith
select_case-held p r e true true false = send_event-held p r e r.closed
select_case-held p r e true false picks = send_event-held p r e r.closed
select_case-held p r e false true picks = omega arith
select_case-held p r e false false picks = omega arith

receive_from-held :
    (p : SecurityEvent → Bool) (r : AuditRepo) (q : List SecurityEvent) (free : Bool)
    → r.queue ≡ q
    → held p (receive_from r q free) ≡ held p r
unfolding held receive_from
receive_from-held p r (e ∷ rest) true h =
    let n : count p r.queue ≡ count p (e ∷ rest) = ap (count p) h in
    omega (arith, n, count-append p r.in_hand (e ∷ []), count-append p (e ∷ []) rest)
receive_from-held p r (e ∷ rest) false h = refl
receive_from-held p r [] free h = refl

pulled-held :
    (p : SecurityEvent → Bool) (r : AuditRepo) (ok : Bool) (n : ℕ) (event : SecurityEvent)
    (rest : List SecurityEvent)
    → pull n r.in_hand ≡ some (event, rest)
    → held p (write_security r ok (some (event, rest))) ≡ held p r
unfolding held write_security
pulled-held p r ok n event rest e =
    let (a, _) = pull-count p n r.in_hand rest event e in
    elim (Bool-cases (r.has_pool && ok)) [
      | inl t ↦ rw t (omega (arith, a, count-append p r.written (event ∷ [])))
      | inr f ↦ rw f (omega (arith, a, count-append p r.lost (event ∷ [])))
    ]

write_security-held :
    (p : SecurityEvent → Bool) (r : AuditRepo) (ok : Bool) (n : ℕ)
    → held p (write_security r ok (pull n r.in_hand)) ≡ held p r
unfolding write_security
write_security-held p r ok n = elim (Option-cases (pull n r.in_hand)) [
  | inl e ↦ rw e refl
  | inr ((event, rest), e) ↦ rw e (pulled-held p r ok n event rest e)
]

exit_worker-held : (p : SecurityEvent → Bool) (r : AuditRepo) → held p (exit_worker r) ≡ held p r
unfolding held exit_worker
exit_worker-held p r =
    elim (Bool-cases (r.closed && (is_empty r.queue && ltb (length r.in_hand) r.running))) [
      | inl t ↦ rw t refl
      | inr f ↦ rw f refl
    ]

step-held :
    (p : SecurityEvent → Bool) (b : Bool) (s : Step) (steps : List Step)
    → held p (after b steps) ≡ count p (accepted b steps)
    → held p (after b (s ∷ steps)) ≡ count p (accepted b (s ∷ steps))
unfolding after step log_security_event receive shutdown held
step-held p b (log e done picks) steps h =
    let r = after b steps in
    omega (
      arith,
      h,
      select_case-held p r e (is_send_ready r) done picks,
      count-append p (accepted b steps)
          (queued_event (select_case r e (is_send_ready r) done picks).1 e),
    )
step-held p b receives steps h =
    let r = after b steps in
    receive_from-held p r r.queue (ltb (length r.in_hand) r.running) refl ∙ h
step-held p b (writes n ok) steps h = write_security-held p (after b steps) ok n ∙ h
step-held p b exits steps h = exit_worker-held p (after b steps) ∙ h
step-held p b shuts_down steps h = h

pub after-held :
    (p : SecurityEvent → Bool) (b : Bool) (steps : List Step)
    → held p (after b steps) ≡ count p (accepted b steps)
unfolding after held
after-held p b [] = omega arith
after-held p b (s ∷ steps) = step-held p b s steps (after-held p b steps)

-- ===== src/Adapters/Audit/Delivery.antt =====
-- What becomes of the events that internal/adapters/persistence/surrealdb/audit_repo.go accepts.
use loxtu_go.Base.{◌+◌, Bool, List, [], ◌≡◌}
use loxtu_go.Adapters.Audit.{SecurityEvent, Step, after}
use loxtu_go.Adapters.Audit.Accounts.{count, accepted}

-- No event waits or is held, and each that was ever accepted is written or was dropped.
abbrev pub IsSettled : (SecurityEvent → Bool) → Bool → List Step → Type 0
IsSettled p has_pool steps =
    let r = after has_pool steps in
    (r.queue ≡ [])
    × (r.in_hand ≡ [])
    × (count p (accepted has_pool steps) ≡ count p r.written + count p r.lost)

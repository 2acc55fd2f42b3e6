-- ===== src/Identity/Otp/Memory.antt =====
-- A store of codes in memory, for internal/core/identity/otp_service.go: it does not fail.
use loxtu_go.Base.{◌+◌, ◌≡◌, ◌≢◌, refl, inl, true, Option, none, some, Str}
use loxtu_go.Base.Map
use loxtu_go.Base.Map.{
  Map, lookup-insert_self, lookup-insert_ne, lookup-delete_self, lookup-delete_ne,
}
use loxtu_go.Identity.Otp.{OtpRecord, OtpStore, IsReliable}

abbrev pub count_attempt : OtpRecord → OtpRecord
count_attempt r = record r { attempts = r.attempts + 1 }

abbrev pub increment : Str → Map OtpRecord → Map OtpRecord
increment k m = elim (Map.lookup k m) [ none ↦ m | some r ↦ Map.insert k (count_attempt r) m ]

abbrev pub memory : OtpStore
memory = record {
  State = Map OtpRecord;
  save = λ k h t m. (Map.insert k (record { code_hash = h; attempts = 0; expires_at = t }) m, true);
  get = Map.lookup;
  increment_attempts = λ k m. (increment k m, true);
  delete = λ k m. (Map.delete k m, true);
}

pub lookup-increment :
    (k : Str) (m : Map OtpRecord) (r : OtpRecord)
    → Map.lookup k m ≡ some r
    → Map.lookup k (increment k m) ≡ some (count_attempt r)
lookup-increment k m r e = rw (e, increment) (lookup-insert_self k (count_attempt r) m)

pub lookup-increment_ne :
    (k j : Str) (m : Map OtpRecord) → k ≢ j → Map.lookup j (increment k m) ≡ Map.lookup j m
lookup-increment_ne k j m ne = go (Map.lookup k m)
  where
    go :
        (o : Option OtpRecord)
        → Map.lookup j (elim o [ none ↦ m | some r ↦ Map.insert k (count_attempt r) m ])
          ≡ Map.lookup j m
    go none = refl
    go (some r) = lookup-insert_ne k j (count_attempt r) m ne

pub memory-IsReliable : IsReliable memory
memory-IsReliable = record {
  save_flag = λ k h t s. refl;
  get-save = λ k h t s. lookup-insert_self k _ s;
  get-increment_attempts = λ k s r e. inl (lookup-increment k s r e);
  get-delete = λ k s. lookup-delete_self k s;
  get-save_ne = λ k j h t s ne. lookup-insert_ne k j _ s ne;
  get-increment_ne = λ k j s ne. lookup-increment_ne k j s ne;
  get-delete_ne = λ k j s ne. lookup-delete_ne k j s ne;
}

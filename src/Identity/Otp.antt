-- ===== src/Identity/Otp.antt =====
-- internal/core/identity/otp_service.go, over the port OTPStore of store.go and with SHA-256 as a
-- parameter. The clock is read once in a call; what `rand.Int` and the sender answer is an argument.
pub mod Lockout
pub mod Memory
pub mod RoundTrip
mod Tests
use loxtu_go.Base.{
  ℕ, zero, suc, ◌+◌, ◌*◌, Bool, true, false, Option, none, some, List, [], ◌∷◌, Str, bytes, str_eq,
  ltb, leb, length, if◌then◌else◌, ◌≡◌, ◌≢◌, ◌⊎◌, not,
}
use loxtu_go.Base.Clock.{minute}
use loxtu_go.Identity.Hash.{sha256_hex}

abbrev pub otp_length : ℕ
otp_length = 6

abbrev pub otp_lifetime : ℕ
otp_lifetime = 3 * minute

abbrev pub max_attempts : ℕ
max_attempts = 3

-- What `Get` returns without an error.
pub record OtpRecord : Type 0 where
  pub code_hash : Str
  pub attempts : ℕ
  pub expires_at : ℕ

-- The port OTPStore. The flag of a write is false on an error; `get` is `none` on an error, which a
-- missing record is too.
pub record OtpStore : Type 1 where
  pub State : Type 0
  pub save : Str → Str → ℕ → State → State × Bool
  pub get : Str → State → Option OtpRecord
  pub increment_attempts : Str → State → State × Bool
  pub delete : Str → State → State × Bool

-- What the port's comments promise of calls that do not fail. Counting an attempt may also drop the
-- record, as the database does with one that has expired.
pub record IsReliable (store : OtpStore) : Type 0 where
  pub save_flag : (k h : Str) (t : ℕ) (s : store.State) → (store.save k h t s).1 ≡ true
  pub get-save :
      (k h : Str) (t : ℕ) (s : store.State)
      → store.get k (store.save k h t s).0
        ≡ some (record { code_hash = h; attempts = 0; expires_at = t })
  pub get-increment_attempts :
      (k : Str) (s : store.State) (r : OtpRecord)
      → store.get k s ≡ some r
      → (store.get k (store.increment_attempts k s).0
          ≡ some (record r { attempts = r.attempts + 1 }))
        ⊎ (store.get k (store.increment_attempts k s).0 ≡ none)
  pub get-delete : (k : Str) (s : store.State) → store.get k (store.delete k s).0 ≡ none
  pub get-save_ne :
      (k j h : Str) (t : ℕ) (s : store.State)
      → k ≢ j
      → store.get j (store.save k h t s).0 ≡ store.get j s
  pub get-increment_ne :
      (k j : Str) (s : store.State)
      → k ≢ j
      → store.get j (store.increment_attempts k s).0 ≡ store.get j s
  pub get-delete_ne :
      (k j : Str) (s : store.State) → k ≢ j → store.get j (store.delete k s).0 ≡ store.get j s

-- The loop of `GenerateCode` over the places left; `draw i` is what `rand.Int` yields at place `i`,
-- with `none` for its error.
unfoldable pub code_from : (ℕ → Option ℕ) → ℕ → ℕ → Option Str
code_from draw i zero = some []
code_from draw i (suc left) =
    let rest = code_from draw (i + 1) left in
    elim (draw i) [
      | none ↦ none
      | some n ↦ elim rest [ none ↦ none | some code ↦ some ((b'0' + n) ∷ code) ]
    ]

unfoldable pub generate_code : (ℕ → Option ℕ) → Option Str
generate_code draw = code_from draw 0 otp_length

pub record OtpNotification : Type 0 where
  pub recipient_id : Str
  pub code : Str
  pub expiry : ℕ

-- `sent` and `printed` are the successful ends of `Send`; the others are its errors.
pub data SendResult : Type 0 where
  sent : OtpNotification → SendResult
  printed : Str → Str → SendResult
  generate_failed : SendResult
  save_failed : SendResult
  send_failed : OtpNotification → SendResult

-- The two results of `Verify`, and the slice `userIDHash[:8]` of a short key.
pub data VerifyResult : Type 0 where
  valid : VerifyResult
  invalid : VerifyResult
  not_configured : VerifyResult
  panics : VerifyResult

-- Which of the two ports are not nil.
pub record OtpService : Type 0 where
  pub has_sender : Bool
  pub has_store : Bool

module _ (sha256 : Str → Str) (store : OtpStore) where
  open store use {State, save, get, increment_attempts, delete}

  abbrev notify : Str → Str → OtpNotification
  notify email code = record { recipient_id = email; code = code; expiry = otp_lifetime }

  unfoldable pub deliver : OtpService → Str → Str → Bool → SendResult
  deliver svc email code delivered =
      if svc.has_sender
      then if delivered then sent (notify email code) else send_failed (notify email code)
      else printed email code

  unfoldable pub send_code : OtpService → State → Str → Str → Str → ℕ → Bool → State × SendResult
  unfolding deliver
  send_code svc s email user_id_hash code now delivered =
      if svc.has_store
      then (let (s', saved) = save user_id_hash (sha256_hex sha256 code) (now + otp_lifetime) s in
          if saved then (s', deliver svc email code delivered) else (s', save_failed))
      else (s, deliver svc email code delivered)

  unfoldable pub send :
      OtpService → State → Str → Str → (ℕ → Option ℕ) → ℕ → Bool → State × SendResult
  unfolding send_code
  send svc s email user_id_hash draw now delivered = elim (generate_code draw) [
    | none ↦ (s, generate_failed)
    | some code ↦ send_code svc s email user_id_hash code now delivered
  ]

  -- Every failure logs the first eight bytes of the key, before the record is deleted.
  abbrev logs_key : Str → State × VerifyResult → State → State × VerifyResult
  logs_key user_id_hash go s = if leb 8 (length user_id_hash) then go else (s, panics)

  -- The part of `Verify` behind the two checks: the attempt is counted before the comparison.
  unfoldable pub compare_code : State → Str → Str → OtpRecord → State × VerifyResult
  compare_code s user_id_hash code r =
      let (s', _) = increment_attempts user_id_hash s in
      if str_eq r.code_hash (sha256_hex sha256 code)
      then ((delete user_id_hash s').0, valid)
      else logs_key user_id_hash (s', invalid) s'

  unfoldable pub verify_record : State → Str → Str → ℕ → OtpRecord → State × VerifyResult
  verify_record s user_id_hash code now r =
      if ltb r.expires_at now
      then logs_key user_id_hash ((delete user_id_hash s).0, invalid) s
      else if leb max_attempts r.attempts
      then logs_key user_id_hash ((delete user_id_hash s).0, invalid) s
      else compare_code s user_id_hash code r

  unfoldable pub verify : OtpService → State → Str → Str → ℕ → State × VerifyResult
  verify svc s user_id_hash code now =
      if svc.has_store
      then elim (get user_id_hash s) [
        | none ↦ (s, invalid)
        | some r ↦ verify_record s user_id_hash code now r
      ]
      else (s, not_configured)

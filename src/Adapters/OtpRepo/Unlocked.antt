-- ===== src/Adapters/OtpRepo/Unlocked.antt =====
-- internal/adapters/persistence/surrealdb/otp_repo.go where the driver gives whole numbers.
use loxtu_go.Base.{
  ℕ, ◌+◌, ◌≤◌, ◌≡◌, ◌≢◌, inl, inr, ap, ◌∙◌, true, Option, some, List, [], ◌∷◌, arith, Str,
  str_eq_iff, length, All,
}
use loxtu_go.Adapters.Rows.{integer, float_of}
use loxtu_go.Adapters.OtpRepo.{OtpTable, get, otp_repo}
use loxtu_go.Adapters.OtpRepo.Reliable.{IsTable, read_back, get-content}
use loxtu_go.Identity.Hash.{sha256_hex}
use loxtu_go.Identity.Otp.{OtpRecord, OtpService, valid, verify_record, compare_code, verify}
use loxtu_go.Identity.Otp.Lockout.{guess_all, IsWrong}

-- A guess that fails before the code expires.
abbrev pub IsEarly : OtpRecord → Str × ℕ → Type 0
IsEarly r g = g.1 ≤ r.expires_at

module _ {W : Type 0} (sha256 : Str → Str) (parse : Str → Option ℕ) (clock : ℕ) (table : OtpTable W)
    (laws : IsTable integer clock table) (svc : OtpService) where
  -- The record is there with its hash and its time.
  abbrev Holds : Str → OtpRecord → W → Type 0
  Holds k r w = (n : ℕ) × (laws.content k w ≡ some (record r { attempts = n }))

  get_zero :
      (k : Str) (r : OtpRecord) (w : W)
      → Holds k r w
      → get parse table k w ≡ some (record r { attempts = 0 })
  unfolding read_back float_of
  get_zero k r w held =
      get-content parse integer table laws k w ∙ ap (read_back parse integer table) held.1

  verify_zero :
      (k code : Str) (now : ℕ) (r : OtpRecord) (w : W)
      → svc.has_store ≡ true
      → Holds k r w
      → verify sha256 (otp_repo parse table) svc w k code now
        ≡ verify_record sha256 (otp_repo parse table) w k code now (record r { attempts = 0 })
  unfolding verify
  verify_zero k code now r w has held = rw (has, get_zero k r w held, verify)

  counted :
      (k : Str) (r : OtpRecord) (n : ℕ) (w : W)
      → clock ≤ r.expires_at
      → laws.content k w ≡ some (record r { attempts = n })
      → laws.content k (table.increment_record k w).0 ≡ some (record r { attempts = n + 1 })
  counted k r n w alive e = elim (laws.content-increment k w _ e) [
    | inl more ↦ more
    | inr (_, late) ↦ absurd (omega (arith, late, alive))
  ]

  wrong_guess :
      (k code : Str) (now : ℕ) (r : OtpRecord) (w : W)
      → 8 ≤ length k
      → now ≤ r.expires_at
      → clock ≤ r.expires_at
      → r.code_hash ≢ sha256_hex sha256 code
      → Holds k r w
      → Holds k r
          (verify_record sha256 (otp_repo parse table) w k code now (record r { attempts = 0 })).0
  unfolding verify_record compare_code
  wrong_guess k code now r w long early alive wrong (n, e) = (
    n + 1,
    ground (arith, counted k r n w alive e, str_eq_iff r.code_hash (sha256_hex sha256 code)),
  )

  guess_all-Holds :
      (gs : List (Str × ℕ)) (k : Str) (r : OtpRecord) (w : W)
      → svc.has_store ≡ true
      → 8 ≤ length k
      → All (IsWrong sha256 r.code_hash) gs
      → All (IsEarly r) gs
      → clock ≤ r.expires_at
      → Holds k r w
      → Holds k r (guess_all sha256 (otp_repo parse table) svc w k gs)
  unfolding guess_all
  guess_all-Holds [] k r w has long wrong early alive held = held
  guess_all-Holds ((code, now) ∷ gs) k r w has long (wrong, ws) (early, es) alive held =
      rw (verify_zero k code now r w has held) (
        guess_all-Holds gs k r _ has long ws es alive
          (wrong_guess k code now r w long early alive wrong held))

  right_guess :
      (k code : Str) (now : ℕ) (r : OtpRecord) (w : W)
      → now ≤ r.expires_at
      → r.code_hash ≡ sha256_hex sha256 code
      → (verify_record sha256 (otp_repo parse table) w k code now (record r { attempts = 0 })).1
        ≡ valid
  unfolding verify_record compare_code
  right_guess k code now r w early right =
      ground (arith, str_eq_iff r.code_hash (sha256_hex sha256 code))

  -- Over a driver that gives whole numbers as integers, no number of wrong guesses uses a code up:
  -- behind any list of them, all before the code expires, the right code is still accepted. The key
  -- has eight bytes at least, the calls of the database do not fail, and its clock does not pass the
  -- time at which the code expires.
  pub guess_all-verify :
      (gs : List (Str × ℕ)) (k code : Str) (now : ℕ) (r : OtpRecord) (w : W)
      → svc.has_store ≡ true
      → 8 ≤ length k
      → laws.content k w ≡ some r
      → All (IsWrong sha256 r.code_hash) gs
      → All (IsEarly r) gs
      → clock ≤ r.expires_at
      → now ≤ r.expires_at
      → r.code_hash ≡ sha256_hex sha256 code
      → (verify sha256
          (otp_repo parse table)
          svc
          (guess_all sha256 (otp_repo parse table) svc w k gs)
          k
          code
          now).1
        ≡ valid
  guess_all-verify gs k code now r w has long e wrong early alive now_early right =
      let held = guess_all-Holds gs k r w has long wrong early alive (r.attempts, e) in
      rw (verify_zero k code now r _ has held) (right_guess k code now r _ now_early right)

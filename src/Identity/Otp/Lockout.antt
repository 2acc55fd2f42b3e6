-- ===== src/Identity/Otp/Lockout.antt =====
-- How many guesses a code allows, and that it serves once.
use loxtu_go.Base.{
  ℕ, ◌+◌, ◌≤◌, ◌<◌, ◌≡◌, ◌≢◌, ◌↔◌, inl, inr, refl, true, none, some, List, [], ◌∷◌, arith, Str,
  str_eq_iff, length, All, Option-cases, Bool-cases,
}
use loxtu_go.Identity.Hash.{sha256_hex}
use loxtu_go.Identity.Otp.{
  OtpRecord, OtpStore, IsReliable, OtpService, valid, invalid, compare_code, verify_record, verify,
  max_attempts,
}

abbrev pub IsWrong : (Str → Str) → Str → Str × ℕ → Type 0
IsWrong sha256 h g = h ≢ sha256_hex sha256 g.0

module _ (sha256 : Str → Str) (store : OtpStore) (svc : OtpService) where
  open store use {State}

  -- Guesses, each with its time.
  unfoldable pub guess_all : State → Str → List (Str × ℕ) → State
  guess_all s key [] = s
  guess_all s key ((code, now) ∷ gs) = guess_all (verify sha256 store svc s key code now).0 key gs

module _ (sha256 : Str → Str) (store : OtpStore) (svc : OtpService) where
  open store use {State, get}

  verify_record-valid_iff :
      (s : State) (key code : Str) (now : ℕ) (r : OtpRecord)
      → ((verify_record sha256 store s key code now r).1 ≡ valid) ↔ (
          (now ≤ r.expires_at)
          × (r.attempts < max_attempts)
          × (r.code_hash ≡ sha256_hex sha256 code))
  unfolding verify_record compare_code
  verify_record-valid_iff s key code now r =
      ground (arith, str_eq_iff r.code_hash (sha256_hex sha256 code))

  pub verify_found :
      (s : State) (key code : Str) (now : ℕ) (r : OtpRecord)
      → svc.has_store ≡ true
      → get key s ≡ some r
      → verify sha256 store svc s key code now ≡ verify_record sha256 store s key code now r
  unfolding verify
  verify_found s key code now r has e = rw (has, e, verify)

  verify_missing :
      (s : State) (key code : Str) (now : ℕ)
      → svc.has_store ≡ true
      → get key s ≡ none
      → verify sha256 store svc s key code now ≡ (s, invalid)
  unfolding verify
  verify_missing s key code now has e = rw (has, e, verify)

  pub valid-has_store :
      (s : State) (key code : Str) (now : ℕ)
      → (verify sha256 store svc s key code now).1 ≡ valid
      → svc.has_store ≡ true
  unfolding verify
  valid-has_store s key code now e = elim (Bool-cases svc.has_store) [
    | inl t ↦ t
    | inr f ↦ absurd (cc (rw f at e))
  ]

  -- A code is accepted exactly when a record is there that has not expired, has fewer than three
  -- counted attempts, and holds the hash of the code.
  pub valid_iff :
      (s : State) (key code : Str) (now : ℕ)
      → svc.has_store ≡ true
      → ((verify sha256 store svc s key code now).1 ≡ valid) ↔ (
          (r : OtpRecord) × (get key s ≡ some r)
          × (now ≤ r.expires_at)
          × (r.attempts < max_attempts)
          × (r.code_hash ≡ sha256_hex sha256 code))
  valid_iff s key code now has = elim (Option-cases (get key s)) [
    | inl e ↦ rw (verify_missing s key code now has e) ((λ q. cc), λ q. cc (e, q.1))
    | inr (r, e) ↦ rw (verify_found s key code now r has e) (
      (λ q. let p = (verify_record-valid_iff s key code now r).0 q in (r, e, p.0, p.1, p.2)),
      (λ q.
          let same : q.0 ≡ r = cc (e, q.1) in
          (verify_record-valid_iff s key code now r).1
            (rw same at q.2, rw same at q.3, rw same at q.4)),
    )
  ]

module _ (sha256 : Str → Str) (store : OtpStore) (ok : IsReliable store) (svc : OtpService) where
  open store use {State, get, increment_attempts, delete}

  -- What is left of the code under the key: no record, or its hash with at least `n` attempts.
  abbrev Spent : Str → Str → ℕ → State → Type 0
  Spent key h n s = (r : OtpRecord) → get key s ≡ some r → (r.code_hash ≡ h) × (n ≤ r.attempts)

  verify_record-Spent :
      (s : State) (key code h : Str) (now n : ℕ) (r : OtpRecord)
      → 8 ≤ length key
      → get key s ≡ some r
      → r.code_hash ≡ h
      → n ≤ r.attempts
      → h ≢ sha256_hex sha256 code
      → Spent key h (n + 1) (verify_record sha256 store s key code now r).0
  unfolding verify_record compare_code
  verify_record-Spent s key code h now n r long e same few wrong r' e' = ground (
    arith,
    ok.get-delete key s,
    ok.get-increment_attempts key s r e,
    str_eq_iff r.code_hash (sha256_hex sha256 code),
  )

  verify-Spent :
      (s : State) (key code h : Str) (now n : ℕ)
      → svc.has_store ≡ true
      → 8 ≤ length key
      → h ≢ sha256_hex sha256 code
      → Spent key h n s
      → Spent key h (n + 1) (verify sha256 store svc s key code now).0
  verify-Spent s key code h now n has long wrong spent = elim (Option-cases (get key s)) [
    | inl e ↦ rw (verify_missing sha256 store svc s key code now has e) (λ r f. absurd (cc (e, f)))
    | inr (r, e) ↦
        rw (verify_found sha256 store svc s key code now r has e)
          (verify_record-Spent s key code h now n r long e (spent r e).0 (spent r e).1 wrong)
  ]

  guess_all-Spent :
      (gs : List (Str × ℕ)) (s : State) (key h : Str) (n : ℕ)
      → svc.has_store ≡ true
      → 8 ≤ length key
      → All (IsWrong sha256 h) gs
      → Spent key h n s
      → Spent key h (n + length gs) (guess_all sha256 store svc s key gs)
  unfolding guess_all
  guess_all-Spent [] s key h n has long wrong spent =
      λ r e. ((spent r e).0, omega (arith, (spent r e).1))
  guess_all-Spent ((code, now) ∷ gs) s key h n has long (w, ws) spent = λ r e.
      let p =
        guess_all-Spent gs (verify sha256 store svc s key code now).0 key h (n + 1) has long ws
          (verify-Spent s key code h now n has long w spent) r e in
      (p.0, omega (arith, p.1))

  -- Three wrong guesses use a code up, over a store that keeps what its port promises and does not
  -- fail: behind them no code is accepted, not even the right one. The key has eight bytes at least,
  -- and attempts that were counted before weigh in.
  pub three_guesses :
      (s : State) (key code : Str) (now : ℕ) (r : OtpRecord) (gs : List (Str × ℕ))
      → svc.has_store ≡ true
      → 8 ≤ length key
      → get key s ≡ some r
      → All (IsWrong sha256 r.code_hash) gs
      → max_attempts ≤ r.attempts + length gs
      → (verify sha256 store svc (guess_all sha256 store svc s key gs) key code now).1 ≢ valid
  three_guesses s key code now r gs has long e wrong many accepted =
      let q =
        (valid_iff sha256 store svc (guess_all sha256 store svc s key gs) key code now has).0
          accepted in
      let start : Spent key r.code_hash r.attempts s =
        λ r' e'. let same : r ≡ r' = cc (e, e') in rw same (refl, omega arith) in
      absurd (
        omega (
          arith,
          q.3,
          (guess_all-Spent gs s key r.code_hash r.attempts has long wrong start q.0 q.1).1,
        ))

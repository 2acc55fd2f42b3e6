-- ===== src/Identity/Otp/RoundTrip.antt =====
-- A code that is sent is accepted once, and what a generated code looks like.
use loxtu_go.Base.{
  ℕ, zero, suc, ◌+◌, ◌≤◌, ◌<◌, ◌≡◌, ◌≢◌, refl, Bool, true, Option, none, some, [], ◌∷◌, arith, Str,
  str_eq_iff, length, All,
}
use loxtu_go.Identity.Hash.{sha256_hex}
use loxtu_go.Identity.Otp.{
  OtpStore, IsReliable, OtpService, valid, code_from, generate_code, otp_length, otp_lifetime, send,
  verify, verify_record, compare_code,
}
use loxtu_go.Identity.Otp.Lockout.{valid_iff, verify_found}

abbrev pub IsDigit : ℕ → Type 0
IsDigit c = (b'0' ≤ c) × (c ≤ b'9')

code_from-digits :
    (draw : ℕ → Option ℕ) (i left : ℕ)
    → ((j : ℕ) → (n : ℕ) × (draw j ≡ some n) × (n < 10))
    → (code : Str) × (code_from draw i left ≡ some code) × (length code ≡ left) × All IsDigit code
unfolding code_from
code_from-digits draw i zero ten = ([], refl, refl, tt)
code_from-digits draw i (suc left) ten =
    let (n, e, lt) = ten i in
    let (code, f, l, d) = code_from-digits draw (i + 1) left ten in
    rw (e, f, code_from)
      ((b'0' + n) ∷ code, refl, omega (arith, l), ((omega arith, omega arith), d))

-- If every draw is a number below ten, the code is six decimal digits.
pub generate_code_lem :
    (draw : ℕ → Option ℕ)
    → ((j : ℕ) → (n : ℕ) × (draw j ≡ some n) × (n < 10))
    → (code : Str) × (generate_code draw ≡ some code)
      × (length code ≡ otp_length)
      × All IsDigit code
unfolding generate_code
generate_code_lem draw ten = code_from-digits draw 0 otp_length ten

module _ (sha256 : Str → Str) (store : OtpStore) (ok : IsReliable store) (svc : OtpService) where
  open store use {State, get, delete}

  send_stores :
      (s : State) (email key code : Str) (draw : ℕ → Option ℕ) (now : ℕ) (delivered : Bool)
      → svc.has_store ≡ true
      → generate_code draw ≡ some code
      → get key (send sha256 store svc s email key draw now delivered).0
        ≡ some (record {
          code_hash = sha256_hex sha256 code;
          attempts = 0;
          expires_at = now + otp_lifetime;
        })
  unfolding send
  send_stores s email key code draw now delivered has made =
      rw (made, send, has, ok.save_flag key (sha256_hex sha256 code) (now + otp_lifetime) s)
        (ok.get-save key (sha256_hex sha256 code) (now + otp_lifetime) s)

  verify-consumes :
      (s : State) (key code : Str) (now : ℕ)
      → svc.has_store ≡ true
      → (verify sha256 store svc s key code now).1 ≡ valid
      → get key (verify sha256 store svc s key code now).0 ≡ none
  unfolding verify_record compare_code
  verify-consumes s key code now has accepted =
      let (r, e, fresh, few, same) = (valid_iff sha256 store svc s key code now has).0 accepted in
      rw (verify_found sha256 store svc s key code now r has e) (
        ground (
          arith,
          ok.get-delete key (store.increment_attempts key s).0,
          str_eq_iff r.code_hash (sha256_hex sha256 code),
        ))

  -- Whether or not the message was delivered, the code that `Send` made is accepted until its three
  -- minutes are over, and then never again without a new one.
  pub verify-send :
      (s : State) (email key code code' : Str) (draw : ℕ → Option ℕ) (now later later' : ℕ)
      (delivered : Bool)
      → svc.has_store ≡ true
      → generate_code draw ≡ some code
      → later ≤ now + otp_lifetime
      → let s' = (send sha256 store svc s email key draw now delivered).0 in
        let v = verify sha256 store svc s' key code later in
        (v.1 ≡ valid) × ((verify sha256 store svc v.0 key code' later').1 ≢ valid)
  verify-send s email key code code' draw now later later' delivered has made early = (
    accepted,
    λ again. cc (
      verify-consumes _ key code later has accepted,
      ((valid_iff sha256 store svc _ key code' later' has).0 again).1,
    ),
  )
    where
      accepted :
          (verify sha256 store svc
            (send sha256 store svc s email key draw now delivered).0
            key
            code
            later).1
          ≡ valid
      accepted =
          (valid_iff sha256 store svc _ key code later has).1
            (_, send_stores s email key code draw now delivered has made, early, omega arith, refl)

-- ===== src/Identity/Otp/Tests.antt =====
-- Runs over a store in memory, and the theorems of the codes at concrete inputs.
use loxtu_go.Base.{
  ℕ, ◌≡◌, ◌≢◌, refl, true, Option, some, [], ◌∷◌, arith, Str, bytes, str_eq, ne_of_str_eq, All,
}
use loxtu_go.Base.Map
use loxtu_go.Base.Map.{
  Map, lookup-insert_self, lookup-insert_ne, lookup-delete_self, lookup-delete_ne,
}
use loxtu_go.Base.Strings.{hex_encode}
use loxtu_go.Identity.Hash.{sha256_hex}
use loxtu_go.Identity.Otp.{
  OtpRecord, OtpService, valid, panics, code_from, generate_code, send, send_code, verify,
  verify_record, compare_code, deliver,
}
use loxtu_go.Identity.Otp.Memory.{memory, memory-IsReliable}
use loxtu_go.Identity.Otp.Lockout.{guess_all, IsWrong, three_guesses}

-- A stand-in for SHA-256 that keeps codes apart.
abbrev plain : Str → Str
plain s = s

abbrev svc : OtpService
svc = record { has_sender = true; has_store = true }

abbrev key : Str
key = bytes "00112233"

abbrev code : Str
code = bytes "111111"

abbrev wrong : Str
wrong = bytes "222222"

abbrev draw : ℕ → Option ℕ
draw i = some 1

abbrev held : OtpRecord
held = record { code_hash = sha256_hex plain code; attempts = 0; expires_at = 100 }

abbrev stored : Map OtpRecord
stored = (key, held) ∷ []

runs : Unit {0}
unfolding verify verify_record compare_code send send_code deliver generate_code code_from
    sha256_hex hex_encode Map.lookup Map.insert Map.delete bytes str_eq
runs = tt

-- A key of fewer than eight bytes panics on a failed comparison.
short_key_panics : (verify plain memory svc ((bytes "k", held) ∷ []) (bytes "k") wrong 5).1 ≡ panics
unfolding runs
short_key_panics = refl

found : Map.lookup key stored ≡ some held
unfolding Map.lookup bytes str_eq
found = refl

guesses_are_wrong : All (IsWrong plain held.code_hash) ((wrong, 5) ∷ (wrong, 6) ∷ (wrong, 7) ∷ [])
unfolding runs
guesses_are_wrong = (differ, (differ, (differ, tt)))
  where
    differ : sha256_hex plain code ≢ sha256_hex plain wrong
    differ = ne_of_str_eq _ _ refl

three_guesses_example :
    (verify plain memory svc
      (guess_all plain memory svc stored key ((wrong, 5) ∷ (wrong, 6) ∷ (wrong, 7) ∷ []))
      key
      code
      8).1
    ≢ valid
unfolding bytes
three_guesses_example =
    three_guesses plain memory memory-IsReliable svc stored key code 8 held
      ((wrong, 5) ∷ (wrong, 6) ∷ (wrong, 7) ∷ []) refl (omega arith) found guesses_are_wrong
      (omega arith)

drawn : generate_code draw ≡ some code
unfolding runs
drawn = refl

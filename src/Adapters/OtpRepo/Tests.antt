-- ===== src/Adapters/OtpRepo/Tests.antt =====
-- A table of codes in memory, and the theorems of the store over it at concrete inputs.
use loxtu_go.Base.{
  ℕ, ◌≡◌, ◌≢◌, inl, refl, true, Option, none, some, List, [], ◌∷◌, arith, Str, bytes, str_eq,
  ne_of_str_eq,
}
use loxtu_go.Base.Map
use loxtu_go.Base.Map.{
  Map, lookup-insert_self, lookup-insert_ne, lookup-delete_self, lookup-delete_ne,
}
use loxtu_go.Base.Strings.{hex_encode}
use loxtu_go.Adapters.Rows.{Cell, string, integer}
use loxtu_go.Adapters.OtpRepo.{OtpTable, otp_repo}
use loxtu_go.Adapters.OtpRepo.Reliable.{IsTable, answer_of}
use loxtu_go.Adapters.OtpRepo.Unlocked.{guess_all-verify}
use loxtu_go.Identity.Hash.{sha256_hex}
use loxtu_go.Identity.Otp.{OtpRecord, valid, verify}
use loxtu_go.Identity.Otp.Lockout.{guess_all}
use loxtu_go.Identity.Otp.Memory.{increment, lookup-increment, lookup-increment_ne}

-- A column that `Get` does not read.
abbrev others : Map Cell
others = (bytes "user_id_hash", string []) ∷ []

abbrev table_of : (ℕ → Cell) → OtpTable (Map OtpRecord)
table_of numeral = record {
  delete_record = λ k m. (Map.delete k m, true);
  create_record = λ k r m. (Map.insert k r m, true);
  select_record = λ k m. some (answer_of numeral others (Map.lookup k m));
  increment_record = λ k m. (increment k m, true);
}

table_of-IsTable : (numeral : ℕ → Cell) (clock : ℕ) → IsTable numeral clock (table_of numeral)
table_of-IsTable numeral clock = record {
  content = Map.lookup;
  select = λ k w. (others, refl);
  content-delete = λ k w. lookup-delete_self k w;
  content-delete_ne = λ k j w ne. lookup-delete_ne k j w ne;
  create_flag = λ k r w e. refl;
  content-create = λ k r w e. lookup-insert_self k r w;
  content-create_ne = λ k j r w ne. lookup-insert_ne k j r w ne;
  content-increment = λ k w r e. inl (lookup-increment k w r e);
  content-increment_ne = λ k j w ne. lookup-increment_ne k j w ne;
}

abbrev plain : Str → Str
plain s = s

abbrev no_parse : Str → Option ℕ
no_parse s = none

abbrev key : Str
key = bytes "00112233"

abbrev code : Str
code = bytes "111111"

abbrev wrong : Str
wrong = bytes "222222"

abbrev held : OtpRecord
held = record { code_hash = sha256_hex plain code; attempts = 0; expires_at = 100 }

abbrev stored : Map OtpRecord
stored = (key, held) ∷ []

abbrev guesses : List (Str × ℕ)
guesses = (wrong, 5) ∷ (wrong, 6) ∷ (wrong, 7) ∷ (wrong, 8) ∷ []

differ : sha256_hex plain code ≢ sha256_hex plain wrong
unfolding sha256_hex hex_encode bytes str_eq
differ = ne_of_str_eq _ _ refl

guess_all-verify_example :
    (verify plain
      (otp_repo no_parse (table_of integer))
      (record { has_sender = true; has_store = true })
      (guess_all plain
        (otp_repo no_parse (table_of integer))
        (record { has_sender = true; has_store = true })
        stored
        key
        guesses)
      key
      code
      9).1
    ≡ valid
unfolding bytes str_eq Map.lookup table_of-IsTable
guess_all-verify_example =
    guess_all-verify plain no_parse 10 (table_of integer) (table_of-IsTable integer 10)
      (record { has_sender = true; has_store = true }) guesses key code 9 held stored refl
      (omega arith) refl (differ, (differ, (differ, (differ, tt))))
      (omega arith, (omega arith, (omega arith, (omega arith, tt)))) (omega arith) (omega arith)
      refl

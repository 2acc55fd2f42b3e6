-- ===== src/Adapters/OtpRepo.antt =====
-- internal/adapters/persistence/surrealdb/otp_repo.go: the store of codes over a table. What the
-- database makes of the four statements is a parameter.
pub mod Reliable
pub mod Unlocked
mod Tests
use loxtu_go.Base.{
  ℕ, Bool, true, false, Option, none, some, List, [], ◌∷◌, Str, bytes, is_empty, if◌then◌else◌,
}
use loxtu_go.Base.Map
use loxtu_go.Base.Map.{Map}
use loxtu_go.Adapters.Rows.{
  Cell, string, byte_slice, float, integer, boolean, time, datetime, texts, other, Row, text_of,
  float_of, zero_time, parsed_or_zero, first_map,
}
use loxtu_go.Identity.Otp.{OtpRecord, OtpStore}

-- The statements on a record of `otp_codes`, with false or `none` for an error of the query.
pub record OtpTable (W : Type 0) : Type 0 where
  pub delete_record : Str → W → W × Bool
  pub create_record : Str → OtpRecord → W → W × Bool
  pub select_record : Str → W → Option (List Row)
  pub increment_record : Str → W → W × Bool

-- The switch on the type of `expires_at`. What `%v` prints of numbers, flags and arrays is no time.
unfoldable pub expiry_of : (Str → Option ℕ) → Option Cell → ℕ
expiry_of parse none = zero_time
expiry_of parse (some (string s)) = parsed_or_zero (parse s)
expiry_of parse (some (time t)) = t
expiry_of parse (some (datetime t)) = t
expiry_of parse (some (byte_slice s)) = zero_time
expiry_of parse (some (float n)) = zero_time
expiry_of parse (some (integer n)) = zero_time
expiry_of parse (some (boolean b)) = zero_time
expiry_of parse (some (texts l)) = zero_time
expiry_of parse (some (other s)) = if is_empty s then zero_time else parsed_or_zero (parse s)

unfoldable pub otp_of_row : (Str → Option ℕ) → Map Cell → OtpRecord
otp_of_row parse rm = record {
  code_hash = text_of (Map.lookup (bytes "code_hash") rm);
  attempts = float_of (Map.lookup (bytes "attempts") rm);
  expires_at = expiry_of parse (Map.lookup (bytes "expires_at") rm);
}

unfoldable pub otp_of : (Str → Option ℕ) → Option (Map Cell) → Option OtpRecord
otp_of parse none = none
otp_of parse (some rm) = some (otp_of_row parse rm)

-- The error of the first statement of `Save` is dropped.
unfoldable pub save : {W : Type 0} → OtpTable W → Str → Str → ℕ → W → W × Bool
save table uid code_hash expires_at w =
    table.create_record uid
      (record { code_hash = code_hash; attempts = 0; expires_at = expires_at })
      (table.delete_record uid w).0

-- Any error of `Get` is `none`.
unfoldable pub get : {W : Type 0} → (Str → Option ℕ) → OtpTable W → Str → W → Option OtpRecord
get parse table uid w = otp_of parse (first_map (table.select_record uid w))

-- A pool that is nil gives an error everywhere, as a failing query does, and is left out.
abbrev pub otp_repo : {W : Type 0} → (Str → Option ℕ) → OtpTable W → OtpStore
otp_repo {W} parse table = record {
  State = W;
  save = save table;
  get = get parse table;
  increment_attempts = table.increment_record;
  delete = table.delete_record;
}

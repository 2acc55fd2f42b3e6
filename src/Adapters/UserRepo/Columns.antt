-- ===== src/Adapters/UserRepo/Columns.antt =====
-- internal/adapters/persistence/surrealdb/user_repo.go: the columns that the statements set, and how
-- a row is read. A nil slice and an empty one are the same.
use loxtu_go.Base.{ℕ, false, Option, none, some, List, [], ◌∷◌, Str, bytes}
use loxtu_go.Base.Map
use loxtu_go.Base.Map.{Map}
use loxtu_go.Adapters.Rows.{
  Cell, string, byte_slice, integer, time, texts, text_of, as_bytes, number_of, texts_of, time_of,
}
use loxtu_go.Identity.User.{User}

-- What a statement sets: the columns with their values, where NONE, which a parameter that is not
-- bound is too, is `none`.
abbrev pub Assignments : Type 0
Assignments = List (Str × Option Cell)

unfoldable pub slice_or_none : Str → Option Cell
slice_or_none [] = none
slice_or_none (b ∷ bs) = some (byte_slice (b ∷ bs))

unfoldable pub text_or_none : Str → Option Cell
text_or_none [] = none
text_or_none (b ∷ bs) = some (string (b ∷ bs))

unfoldable pub elements : List Str → List (Option Str)
elements [] = []
elements (s ∷ l) = some s ∷ elements l

unfoldable pub texts_or_none : List Str → Option Cell
texts_or_none [] = none
texts_or_none (s ∷ l) = some (texts (some s ∷ elements l))

unfoldable pub time_or_none : Option ℕ → Option Cell
time_or_none none = none
time_or_none (some t) = some (time t)

unfoldable pub create_columns : User → ℕ → Assignments
create_columns u now =
    (bytes "user_id", some (string u.user_id))
    ∷ (bytes "user_id_hash", some (string u.user_id_hash))
    ∷ (bytes "tenant_id", some (string u.tenant_id))
    ∷ (bytes "status", some (string u.status))
    ∷ (bytes "encrypted_dek", some (byte_slice u.encrypted_dek))
    ∷ (bytes "email_hash", some (string u.email_hash))
    ∷ (bytes "masked_email", some (string u.masked_email))
    ∷ (bytes "email_ciphertext", slice_or_none u.email_ciphertext)
    ∷ (bytes "name_ciphertext", slice_or_none u.name_ciphertext)
    ∷ (bytes "surname_ciphertext", slice_or_none u.surname_ciphertext)
    ∷ (bytes "phone_ciphertext", slice_or_none u.phone_ciphertext)
    ∷ (bytes "dob_ciphertext", slice_or_none u.dob_ciphertext)
    ∷ (bytes "employee_id_ciphertext", slice_or_none u.employee_id_ciphertext)
    ∷ (bytes "employee_id_hash", text_or_none u.employee_id_hash)
    ∷ (bytes "role", some (string u.role))
    ∷ (bytes "permissions", texts_or_none u.permissions)
    ∷ (bytes "department", text_or_none u.department)
    ∷ (bytes "section", text_or_none u.section)
    ∷ (bytes "base", text_or_none u.base)
    ∷ (bytes "skills", texts_or_none u.skills)
    ∷ (bytes "registration_attempts", some (integer u.registration_attempts))
    ∷ (bytes "login_count", some (integer u.login_count))
    ∷ (bytes "failed_login_count", some (integer u.failed_login_count))
    ∷ (bytes "last_login_at", time_or_none u.last_login_at)
    ∷ (bytes "locked_until", time_or_none u.locked_until)
    ∷ (bytes "hire_date", time_or_none u.hire_date)
    ∷ (bytes "created_at", some (time now))
    ∷ (bytes "updated_at", some (time now))
    ∷ []

unfoldable pub update_columns : User → ℕ → Assignments
update_columns u now =
    (bytes "status", some (string u.status))
    ∷ (bytes "role", some (string u.role))
    ∷ (bytes "permissions", texts_or_none u.permissions)
    ∷ (bytes "login_count", some (integer u.login_count))
    ∷ (bytes "failed_login_count", some (integer u.failed_login_count))
    ∷ (bytes "last_login_at", time_or_none u.last_login_at)
    ∷ (bytes "locked_until", time_or_none u.locked_until)
    ∷ (bytes "updated_at", some (time now))
    ∷ []

-- `random` is what `rand::string(32)` draws.
unfoldable pub erase_columns : Str → ℕ → Assignments
erase_columns random now =
    (bytes "encrypted_dek", none)
    ∷ (bytes "email_hash", some (string random))
    ∷ (bytes "email_ciphertext", none)
    ∷ (bytes "name_ciphertext", none)
    ∷ (bytes "surname_ciphertext", none)
    ∷ (bytes "phone_ciphertext", none)
    ∷ (bytes "dob_ciphertext", none)
    ∷ (bytes "employee_id_ciphertext", none)
    ∷ (bytes "employee_id_hash", none)
    ∷ (bytes "masked_email", some (string (bytes "***")))
    ∷ (bytes "status", some (string (bytes "erased")))
    ∷ (bytes "updated_at", some (time now))
    ∷ []

unfoldable pub user_from : (Str → Option Cell) → User
user_from row = record {
  user_id = text_of (row (bytes "user_id"));
  user_id_hash = text_of (row (bytes "user_id_hash"));
  tenant_id = text_of (row (bytes "tenant_id"));
  status = text_of (row (bytes "status"));
  encrypted_dek = as_bytes (row (bytes "encrypted_dek"));
  email_ciphertext = as_bytes (row (bytes "email_ciphertext"));
  name_ciphertext = as_bytes (row (bytes "name_ciphertext"));
  surname_ciphertext = as_bytes (row (bytes "surname_ciphertext"));
  phone_ciphertext = as_bytes (row (bytes "phone_ciphertext"));
  dob_ciphertext = as_bytes (row (bytes "dob_ciphertext"));
  employee_id_ciphertext = as_bytes (row (bytes "employee_id_ciphertext"));
  email_hash = text_of (row (bytes "email_hash"));
  masked_email = text_of (row (bytes "masked_email"));
  employee_id_hash = text_of (row (bytes "employee_id_hash"));
  role = text_of (row (bytes "role"));
  permissions = texts_of (row (bytes "permissions"));
  department = text_of (row (bytes "department"));
  section = text_of (row (bytes "section"));
  base = text_of (row (bytes "base"));
  skills = texts_of (row (bytes "skills"));
  is_active = false;
  registration_attempts = number_of (row (bytes "registration_attempts"));
  login_count = number_of (row (bytes "login_count"));
  failed_login_count = number_of (row (bytes "failed_login_count"));
  last_login_at = none;
  locked_until = none;
  hire_date = none;
  created_at = time_of (row (bytes "created_at"));
  updated_at = time_of (row (bytes "updated_at"));
}

unfoldable pub map_user_row : Map Cell → User
map_user_row rm = user_from (λ k. Map.lookup k rm)

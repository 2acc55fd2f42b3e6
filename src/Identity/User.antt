-- ===== src/Identity/User.antt =====
-- internal/core/identity/user.go: the entities, the decryption of a user's fields, roles and
-- permissions, masked addresses and WebAuthn handles. A byte slice is the list of its bytes.
pub mod Handle
pub mod Decrypt
pub mod Mask
pub mod Tests
use loxtu_go.Base.{
  ℕ, ◌+◌, ◌≤◌, ◌++◌, Bool, true, false, Option, none, some, List, [], ◌∷◌, Str, bytes, str_eq, leb,
  length, take, drop, any, is_empty, if◌then◌else◌, ◌-◌,
}
use loxtu_go.Base.Result.{Result, ok, err, panics}
use loxtu_go.Base.Strings.{trim_space, split_first}

pub record User : Type 0 where
  pub user_id : Str
  pub user_id_hash : Str
  pub tenant_id : Str
  pub status : Str
  pub encrypted_dek : Str
  pub email_ciphertext : Str
  pub name_ciphertext : Str
  pub surname_ciphertext : Str
  pub phone_ciphertext : Str
  pub dob_ciphertext : Str
  pub employee_id_ciphertext : Str
  pub email_hash : Str
  pub masked_email : Str
  pub employee_id_hash : Str
  pub role : Str
  pub permissions : List Str
  pub department : Str
  pub section : Str
  pub base : Str
  pub skills : List Str
  pub is_active : Bool
  pub registration_attempts : ℕ
  pub login_count : ℕ
  pub failed_login_count : ℕ
  pub last_login_at : Option ℕ
  pub locked_until : Option ℕ
  pub hire_date : Option ℕ
  pub created_at : ℕ
  pub updated_at : ℕ

-- A user with every field at Go's zero value.
abbrev pub zero_user : User
zero_user = record {
  user_id = [];
  user_id_hash = [];
  tenant_id = [];
  status = [];
  encrypted_dek = [];
  email_ciphertext = [];
  name_ciphertext = [];
  surname_ciphertext = [];
  phone_ciphertext = [];
  dob_ciphertext = [];
  employee_id_ciphertext = [];
  email_hash = [];
  masked_email = [];
  employee_id_hash = [];
  role = [];
  permissions = [];
  department = [];
  section = [];
  base = [];
  skills = [];
  is_active = false;
  registration_attempts = 0;
  login_count = 0;
  failed_login_count = 0;
  last_login_at = none;
  locked_until = none;
  hire_date = none;
  created_at = 0;
  updated_at = 0;
}

pub record PasskeyCredential : Type 0 where
  pub credential_id : Str
  pub user_id : Str
  pub public_key : Str
  pub sign_count : ℕ
  pub transports : List Str
  pub aaguid : Str
  pub backup_eligible : Bool
  pub backup_state : Bool
  pub created_at : ℕ

-- webauthn.Credential, as far as the program fills it in or reads it.
pub record WebauthnCredential : Type 0 where
  pub id : Str
  pub public_key : Str
  pub transport : List Str
  pub sign_count : ℕ
  pub aaguid : Str
  pub backup_eligible : Bool
  pub backup_state : Bool

pub record PasskeyUser : Type 0 where
  pub user_id : Str
  pub tenant_id : Str
  pub email : Str
  pub handle : Str
  pub credentials : List WebauthnCredential

-- `DecryptPIIFn`: `none` as long as the composition root has not set it.
abbrev pub DecryptFn : Type 0
DecryptFn = Option (Str → Str → Result Str)

decrypt_pii_compat : DecryptFn → Str → Str → Result Str
decrypt_pii_compat none ciphertext dek = err (bytes "decryptPIICompat: not wired")
decrypt_pii_compat (some f) ciphertext dek = f ciphertext dek

pub decrypt_field : DecryptFn → Str → Str → Result Str
unfolding decrypt_pii_compat
decrypt_field f ciphertext dek =
    if is_empty ciphertext then ok [] else decrypt_pii_compat f ciphertext dek

pub decrypt_email : DecryptFn → User → Str → Result Str
decrypt_email f u dek = decrypt_field f u.email_ciphertext dek

pub decrypt_name : DecryptFn → User → Str → Result Str
decrypt_name f u dek = decrypt_field f u.name_ciphertext dek

pub decrypt_surname : DecryptFn → User → Str → Result Str
decrypt_surname f u dek = decrypt_field f u.surname_ciphertext dek

-- `local[:1] + "***@" + …` and `local[:1] + "***" + local[len(local)-1:] + "@" + …`; the local part
-- is not empty here.
abbrev pub mask_local : Str → Str → Str
mask_local local domain =
    if leb (length local) 2
    then take 1 local ++ bytes "***@" ++ domain
    else take 1 local ++ bytes "***" ++ drop (length local - 1) local ++ bytes "@" ++ domain

unfoldable pub mask_email_string : Str → Str
mask_email_string email = elim (split_first b'@' (trim_space email)) [
  | none ↦ bytes "***"
  | some (local, domain) ↦ if is_empty local then bytes "***" else mask_local local domain
]

pub masked_email_or_compute : DecryptFn → User → Str → Result Str
masked_email_or_compute f u dek =
    if is_empty u.masked_email
    then elim (decrypt_email f u dek) [
      | ok email ↦ if is_empty email then ok (bytes "***") else ok (mask_email_string email)
      | err e ↦ ok (bytes "***")
      | panics ↦ panics
    ]
    else ok u.masked_email

-- A nil user is `none`.
pub has_role : Option User → Str → Bool
has_role none role = false
has_role (some u) role = if is_empty role then false else str_eq u.role role

pub has_permission : Option User → Str → Bool
has_permission none perm = false
has_permission (some u) perm =
    if is_empty perm then false else any (λ p. str_eq p perm) u.permissions

pub has_skill : Option User → Str → Bool
has_skill none skill = false
has_skill (some u) skill = if is_empty skill then false else any (λ s. str_eq s skill) u.skills

-- The draw of `rand.Read` is an argument, `none` for its error. `base64` is RawURLEncoding.
unfoldable pub generate_handle_with_tenant : (Str → Str) → Str → Option Str → Result Str
generate_handle_with_tenant base64 tenant_id none = err (bytes "generate handle")
generate_handle_with_tenant base64 tenant_id (some random) = ok (tenant_id ++ b':' ∷ base64 random)

abbrev checked_parts : Str × Str → Option (Str × Str)
checked_parts ([], handle) = none
checked_parts (_, []) = none
checked_parts (tenant_id, handle) = some (tenant_id, handle)

-- The tenant and the random portion; `none` is the error for a malformed handle.
pub parse_handle : Str → Option (Str × Str)
parse_handle handle = elim (split_first b':' handle) [
  | none ↦ none
  | some parts ↦ checked_parts parts
]

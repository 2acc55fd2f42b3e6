-- ===== src/Adapters/CredRepo.antt =====
-- internal/adapters/persistence/surrealdb/cred_repo.go: the passkeys over a table. What the database
-- makes of the statements is a parameter, and so is base64.RawURLEncoding.
pub mod Replaced
mod Tests
use loxtu_go.Base.{
  ℕ, ◌%◌, ◌^◌, ◌==◌, Bool, true, false, Option, none, some, List, [], ◌∷◌, Str, bytes, is_empty,
  if◌then◌else◌, map,
}
use loxtu_go.Base.Map
use loxtu_go.Base.Map.{Map}
use loxtu_go.Adapters.Rows.{
  Cell, Row, text_of, as_bytes, number_of, bool_of, texts_of, parsed_or_zero, parse_time, first_map,
}
use loxtu_go.Identity.User.{PasskeyCredential, WebauthnCredential, PasskeyUser}

-- The encoding, and what `DecodeString` gives, where its error is dropped.
pub record RawUrl : Type 0 where
  pub encode : Str → Str
  pub decode : Str → Str

-- What `SaveCredential` puts between the quotes and behind the signs of the text of its two queries.
pub record Inserted : Type 0 where
  pub user_id : Str
  pub kid : Str
  pub public_key : Str
  pub sign_count : ℕ
  pub aaguid : Str
  pub backup_eligible : Bool
  pub backup_state : Bool

pub data Query : Type 0 where
  delete_where : Str → Query
  create_set : Inserted → Query

-- The statements. `run` is a query whose text is put together, without parameters. The flag of a
-- write is false on an error, and a read is `none` on one.
pub record CredTable (W : Type 0) : Type 0 where
  pub run : Query → W → W × Bool
  pub upsert_user : Str → Str → Str → W → W × Bool
  pub select_handle : Str → W → Option (List Row)
  pub select_user : Str → W → Option (List Row)
  pub select_credentials : Str → W → Option (List Row)
  pub select_kid : Str → W → Option (List Row)
  pub update_count : Str → Str → ℕ → W → W × Bool

-- `strings.ReplaceAll(s, "'", "''")`.
unfoldable pub doubled : Str → Str
doubled [] = []
doubled (c ∷ s) = let rest = doubled s in if c == b'\'' then b'\'' ∷ b'\'' ∷ rest else c ∷ rest

unfoldable pub delete_query : Str → Query
delete_query user_id = delete_where (doubled user_id)

unfoldable pub create_query : RawUrl → PasskeyCredential → Query
create_query url c = create_set (record {
  user_id = doubled c.user_id;
  kid = url.encode c.credential_id;
  public_key = url.encode c.public_key;
  sign_count = c.sign_count;
  aaguid = doubled c.aaguid;
  backup_eligible = c.backup_eligible;
  backup_state = c.backup_state;
})

-- The counter is an unsigned number of 32 bits.
unfoldable pub credential_of_row : RawUrl → (Str → Option ℕ) → Map Cell → PasskeyCredential
credential_of_row url parse rm = record {
  credential_id = url.decode (text_of (Map.lookup (bytes "kid") rm));
  user_id = text_of (Map.lookup (bytes "user_id") rm);
  public_key = url.decode (text_of (Map.lookup (bytes "public_key") rm));
  sign_count = number_of (Map.lookup (bytes "sign_count") rm) % 2 ^ 32;
  transports = texts_of (Map.lookup (bytes "transports") rm);
  aaguid = text_of (Map.lookup (bytes "aaguid") rm);
  backup_eligible = bool_of (Map.lookup (bytes "backup_eligible") rm);
  backup_state = bool_of (Map.lookup (bytes "backup_state") rm);
  created_at = parsed_or_zero (parse_time parse (Map.lookup (bytes "created_at") rm));
}

-- A row that is not a map is left out.
unfoldable pub credentials_in : RawUrl → (Str → Option ℕ) → List Row → List PasskeyCredential
credentials_in url parse [] = []
credentials_in url parse (none ∷ rows) = credentials_in url parse rows
credentials_in url parse (some rm ∷ rows) =
    credential_of_row url parse rm ∷ credentials_in url parse rows

unfoldable pub credentials_of :
    RawUrl → (Str → Option ℕ) → Option (List Row) → Option (List PasskeyCredential)
credentials_of url parse none = none
credentials_of url parse (some rows) = some (credentials_in url parse rows)

unfoldable pub credential_of :
    RawUrl → (Str → Option ℕ) → Option (Map Cell) → Option PasskeyCredential
credential_of url parse none = none
credential_of url parse (some rm) = some (credential_of_row url parse rm)

unfoldable pub handle_of : Option (Map Cell) → Option Str
handle_of none = none
handle_of (some rm) = some (as_bytes (Map.lookup (bytes "handle") rm))

-- webauthnCredsFromDomainV2, with the transports.
unfoldable pub webauthn_of : PasskeyCredential → WebauthnCredential
webauthn_of c = record {
  id = c.credential_id;
  public_key = c.public_key;
  transport = c.transports;
  sign_count = c.sign_count;
  aaguid = c.aaguid;
  backup_eligible = c.backup_eligible;
  backup_state = c.backup_state;
}

abbrev pub list_or_nil : Option (List PasskeyCredential) → List PasskeyCredential
list_or_nil none = []
list_or_nil (some l) = l

module _ (url : RawUrl) {W : Type 0} (parse : Str → Option ℕ) (table : CredTable W) where
  unfoldable pub save_user : Str → Str → Str → W → W × Bool
  save_user user_id handle tenant_id w = table.upsert_user user_id handle tenant_id w

  -- An error and a missing row are both `none`.
  unfoldable pub find_handle_by_user_id : Str → W → Option Str
  find_handle_by_user_id user_id w = handle_of (first_map (table.select_handle user_id w))

  -- The error of the first statement is dropped. A credential that is nil is refused, and left out.
  unfoldable pub save_credential : PasskeyCredential → W → W × Bool
  save_credential c w = table.run (create_query url c) (table.run (delete_query c.user_id) w).0

  unfoldable pub find_credentials_by_user_id : Str → W → Option (List PasskeyCredential)
  find_credentials_by_user_id user_id w =
      credentials_of url parse (table.select_credentials user_id w)

  unfoldable pub find_credential_by_kid : Str → W → Option PasskeyCredential
  find_credential_by_kid kid w =
      credential_of url parse (first_map (table.select_kid (url.encode kid) w))

  unfoldable pub user_of_row : Str → W → Option (Map Cell) → Option PasskeyUser
  user_of_row handle w none = none
  user_of_row handle w (some rm) =
      let user_id = text_of (Map.lookup (bytes "user_id") rm) in
      let stored = as_bytes (Map.lookup (bytes "handle") rm) in
      some (record {
        user_id = user_id;
        tenant_id = text_of (Map.lookup (bytes "tenant_id") rm);
        email = [];
        handle = if is_empty stored then handle else stored;
        credentials = map webauthn_of (list_or_nil (find_credentials_by_user_id user_id w));
      })

  unfoldable pub find_user_by_handle : Str → W → Option PasskeyUser
  find_user_by_handle handle w = user_of_row handle w (first_map (table.select_user handle w))

  unfoldable pub update_sign_count : Str → Str → ℕ → W → W × Bool
  update_sign_count user_id kid count w = table.update_count user_id (url.encode kid) count w

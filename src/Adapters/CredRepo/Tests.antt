-- ===== src/Adapters/CredRepo/Tests.antt =====
-- A table of passkeys in memory, and a second registration over it.
use loxtu_go.Base.{
  ◌++◌, true, none, some, List, [], ◌∷◌, Str, bytes, str_eq, str_eq_refl, if◌then◌else◌, ◌≡◌, refl,
  ap, inl, inr, Bool-cases,
}
use loxtu_go.Base.Map.{Map}
use loxtu_go.Adapters.Rows.{Cell, string, float, time}
use loxtu_go.Adapters.CredRepo.{
  RawUrl, CredTable, Inserted, Query, delete_where, create_set, save_credential,
  find_credentials_by_user_id,
}
use loxtu_go.Adapters.CredRepo.Replaced.{
  rows_of, IsTable, read_back, inserted, find-save_credential,
}
use loxtu_go.Identity.User.{PasskeyCredential}

kept_for : Str → List (Inserted × Cell) → List (Inserted × Cell)
kept_for u [] = []
kept_for u ((c, t) ∷ cs) =
    let rest = kept_for u cs in if str_eq c.user_id u then (c, t) ∷ rest else rest

without : Str → List (Inserted × Cell) → List (Inserted × Cell)
without u [] = []
without u ((c, t) ∷ cs) =
    let rest = without u cs in if str_eq c.user_id u then rest else (c, t) ∷ rest

kept_for-without : (u : Str) (l : List (Inserted × Cell)) → kept_for u (without u l) ≡ []
unfolding kept_for without
kept_for-without u [] = refl
kept_for-without u ((c, t) ∷ cs) = elim (Bool-cases (str_eq c.user_id u)) [
  | inl e ↦ rw e (kept_for-without u cs)
  | inr f ↦ rw (f, f) (kept_for-without u cs)
]

kept_for-append :
    (c : Inserted) (t : Cell) (l : List (Inserted × Cell))
    → kept_for c.user_id (l ++ ((c, t) ∷ [])) ≡ kept_for c.user_id l ++ ((c, t) ∷ [])
unfolding kept_for
kept_for-append c t [] = rw (str_eq_refl c.user_id) refl
kept_for-append c t ((d, u) ∷ l) = elim (Bool-cases (str_eq d.user_id c.user_id)) [
  | inl e ↦ rw e (ap (λ r. (d, u) ∷ r) (kept_for-append c t l))
  | inr f ↦ rw f (kept_for-append c t l)
]

abbrev ran : Query → List (Inserted × Cell) → List (Inserted × Cell)
ran (delete_where u) w = without u w
ran (create_set c) w = w ++ ((c, time 9) ∷ [])

-- The identifier of the record.
abbrev others : Inserted × Cell → Map Cell
others c = (bytes "id", string c.0.kid) ∷ []

abbrev table : CredTable (List (Inserted × Cell))
table = record {
  run = λ q w. (ran q w, true);
  upsert_user = λ user_id handle tenant_id w. (w, true);
  select_handle = λ user_id w. none;
  select_user = λ handle w. none;
  select_credentials = λ user_id w. some (rows_of float others (kept_for user_id w));
  select_kid = λ kid w. none;
  update_count = λ user_id kid count w. (w, true);
}

table-IsTable : IsTable float (time 9) table
table-IsTable = record {
  content = kept_for;
  select = λ u w. (others, refl);
  content-delete = λ u w plain done. kept_for-without u w;
  content-create = λ c w plain_user plain_aaguid made. kept_for-append c (time 9) w;
}

abbrev url : RawUrl
url = record { encode = λ s. s; decode = λ s. s }

abbrev a_passkey : PasskeyCredential
a_passkey = record {
  credential_id = bytes "id2";
  user_id = bytes "u";
  public_key = bytes "pk2";
  sign_count = 3;
  transports = bytes "usb" ∷ [];
  aaguid = bytes "ff";
  backup_eligible = true;
  backup_state = true;
  created_at = 5;
}

abbrev earlier : List (Inserted × Cell)
earlier = (inserted url (record a_passkey { credential_id = bytes "id1" }), time 1) ∷ []

find-save_credential_example :
    find_credentials_by_user_id url
      (λ s. none)
      table
      (bytes "u")
      (save_credential url (λ s. none) table a_passkey earlier).0
    ≡ some (read_back url (λ s. none) float (time 9) table table-IsTable (λ s. refl) a_passkey ∷ [])
unfolding bytes save_credential
find-save_credential_example =
    find-save_credential url (λ s. none) float (time 9) table table-IsTable (λ s. refl) a_passkey
      earlier refl refl refl refl

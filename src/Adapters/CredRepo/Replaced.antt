-- ===== src/Adapters/CredRepo/Replaced.antt =====
-- internal/adapters/persistence/surrealdb/cred_repo.go: a new passkey takes the place of the others.
use loxtu_go.Base.{
  ℕ, ◌%◌, ◌^◌, ◌==◌, ◌++◌, Bool, true, false, Option, some, List, [], ◌∷◌, Str, bytes, str_eq, any,
  ◌≡◌, refl, ap, sym, inl, inr, Bool-cases, ◌∙◌,
}
use loxtu_go.Base.Map
use loxtu_go.Base.Map.{Map}
use loxtu_go.Adapters.Rows.{
  Cell, string, boolean, texts, Row, text_of, number_of, bool_of, texts_of, strings_in,
  parsed_or_zero, parse_time,
}
use loxtu_go.Adapters.CredRepo.{
  RawUrl, CredTable, Inserted, delete_where, create_set, doubled, delete_query, create_query,
  credential_of_row, credentials_in, credentials_of, save_credential, find_credentials_by_user_id,
}
use loxtu_go.Identity.User.{PasskeyCredential}

-- A text without quotes, which stands in a query as it is.
abbrev pub IsPlain : Str → Type 0
IsPlain s = any (λ c. c == b'\'') s ≡ false

doubled-IsPlain : (s : Str) → IsPlain s → doubled s ≡ s
unfolding doubled
doubled-IsPlain [] plain = refl
doubled-IsPlain (c ∷ s) plain = elim (Bool-cases (c == b'\'')) [
  | inl t ↦ absurd (cc (rw t at plain))
  | inr f ↦ rw f (ap (λ r. c ∷ r) (doubled-IsPlain s (rw f at plain)))
]

-- A stored credential as the driver gives it; `numeral` is how it gives a number, and with a row
-- stands what it gives for the time of creation, which the database sets.
abbrev pub row_of : (ℕ → Cell) → Inserted × Cell → Map Cell
row_of numeral (c, stamp) =
    (bytes "user_id", string c.user_id)
    ∷ (bytes "kid", string c.kid)
    ∷ (bytes "public_key", string c.public_key)
    ∷ (bytes "sign_count", numeral c.sign_count)
    ∷ (bytes "transports", texts [])
    ∷ (bytes "aaguid", string c.aaguid)
    ∷ (bytes "backup_eligible", boolean c.backup_eligible)
    ∷ (bytes "backup_state", boolean c.backup_state)
    ∷ (bytes "created_at", stamp)
    ∷ []

-- The rows with the other columns that `SELECT *` gives.
abbrev pub rows_of : (ℕ → Cell) → (Inserted × Cell → Map Cell) → List (Inserted × Cell) → List Row
rows_of numeral others [] = []
rows_of numeral others (c ∷ cs) = some (row_of numeral c ++ others c) ∷ rows_of numeral others cs

-- What a database makes of the two queries where no text has a quote and they do not fail; `stamp`
-- is what the driver gives for its clock.
pub record IsTable {W : Type 0} (numeral : ℕ → Cell) (stamp : Cell) (table : CredTable W)
    : Type 0 where
  pub content : Str → W → List (Inserted × Cell)
  pub select :
      (u : Str) (w : W)
      → (others : Inserted × Cell → Map Cell) × (table.select_credentials u w
          ≡ some (rows_of numeral others (content u w)))
  pub content-delete :
      (u : Str) (w : W)
      → IsPlain u
      → (table.run (delete_where u) w).1 ≡ true
      → content u (table.run (delete_where u) w).0 ≡ []
  pub content-create :
      (c : Inserted) (w : W)
      → IsPlain c.user_id
      → IsPlain c.aaguid
      → (table.run (create_set c) w).1 ≡ true
      → content c.user_id (table.run (create_set c) w).0 ≡ content c.user_id w ++ ((c, stamp) ∷ [])

-- The row of a credential without quotes.
abbrev pub inserted : RawUrl → PasskeyCredential → Inserted
inserted url c = record {
  user_id = c.user_id;
  kid = url.encode c.credential_id;
  public_key = url.encode c.public_key;
  sign_count = c.sign_count;
  aaguid = c.aaguid;
  backup_eligible = c.backup_eligible;
  backup_state = c.backup_state;
}

module _ {W : Type 0} (url : RawUrl) (parse : Str → Option ℕ) (numeral : ℕ → Cell) (stamp : Cell)
    (table : CredTable W) (laws : IsTable numeral stamp table)
    (decodes : (s : Str) → url.decode (url.encode s) ≡ s) where
  -- What is read of a credential that was saved.
  abbrev pub read_back : PasskeyCredential → PasskeyCredential
  read_back c = record c {
    sign_count = number_of (some (numeral c.sign_count)) % 2 ^ 32;
    transports = [];
    created_at = parsed_or_zero (parse_time parse (some stamp));
  }

  credential_of-row :
      (c : PasskeyCredential) (others : Map Cell)
      → credential_of_row url parse (row_of numeral (inserted url c, stamp) ++ others) ≡ read_back c
  unfolding credential_of_row text_of number_of bool_of texts_of strings_in Map.lookup bytes str_eq
  credential_of-row c others = λ i. record (read_back c) {
    credential_id = decodes c.credential_id i;
    public_key = decodes c.public_key i;
  }

  -- A new passkey takes the place of all the others of its user: behind SaveCredential, if neither
  -- its deletion nor its creation nor the search fails, exactly this credential is found for the
  -- user, however many there were before. It comes back without its transports, with its counter
  -- cut to 32 bits and the database's time of creation, both as far as the driver gives them in a
  -- form that is read. No text has a quote. SaveCredential drops the error of the deletion.
  pub find-save_credential :
      (c : PasskeyCredential) (w : W)
      → IsPlain c.user_id
      → IsPlain c.aaguid
      → (table.run (delete_query c.user_id) w).1 ≡ true
      → (save_credential url parse table c w).1 ≡ true
      → find_credentials_by_user_id url parse table c.user_id
          (save_credential url parse table c w).0
        ≡ some (read_back c ∷ [])
  unfolding find_credentials_by_user_id save_credential credentials_of credentials_in delete_query
      create_query
  find-save_credential c w plain_user plain_aaguid done made =
      let deleted : delete_query c.user_id ≡ delete_where c.user_id =
        ap delete_where (doubled-IsPlain c.user_id plain_user) in
      let created : create_query url c ≡ create_set (inserted url c) = λ i.
        create_set (record (inserted url c) {
          user_id = doubled-IsPlain c.user_id plain_user i;
          aaguid = doubled-IsPlain c.aaguid plain_aaguid i;
        }) in
      let done_plain : (table.run (delete_where c.user_id) w).1 ≡ true =
        sym (ap (λ q. (table.run q w).1) deleted) ∙ done in
      let emptied : W = (table.run (delete_where c.user_id) w).0 in
      let steps : W × Bool = table.run (create_set (inserted url c)) emptied in
      let made_plain : steps.1 ≡ true =
        sym (λ i. (table.run (created i) (table.run (deleted i) w).0).1) ∙ made in
      let (others, found) =
        laws.select c.user_id (table.run (create_set (inserted url c)) emptied).0 in
      (λ i.
        find_credentials_by_user_id url parse table c.user_id
          (table.run (created i) (table.run (deleted i) w).0).0)
      ∙ ap (credentials_of url parse) (
          found
          ∙ ap (λ l. some (rows_of numeral others l))
              (laws.content-create (inserted url c) _ plain_user plain_aaguid made_plain
                ∙ ap (λ l. l ++ ((inserted url c, stamp) ∷ []))
                    (laws.content-delete c.user_id w plain_user done_plain)))
      ∙ ap (λ x. some (x ∷ [])) (credential_of-row c (others (inserted url c, stamp)))

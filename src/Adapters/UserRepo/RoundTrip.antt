-- ===== src/Adapters/UserRepo/RoundTrip.antt =====
-- internal/adapters/persistence/surrealdb/user_repo.go: what is read of a user that was created.
use loxtu_go.Base.{
  ℕ, Bool, true, false, Option, none, some, [], ◌∷◌, Str, bytes, str_eq, is_empty, ◌≡◌, ◌≢◌, refl,
  ap, sym, ◌∙◌, inl, inr, Bool-cases,
}
use loxtu_go.Base.Result.{Result, ok, err, panics}
use loxtu_go.Adapters.Rows.{
  byte_slice, Cell, integer, time, text_of, as_bytes, number_of, texts_of, time_of,
}
use loxtu_go.Adapters.UserRepo.{
  UserTable, Draws, identified, stored, create_hashed, create_keyed, create, find_by,
}
use loxtu_go.Adapters.UserRepo.Columns.{
  slice_or_none, text_or_none, texts_or_none, time_or_none, create_columns, user_from,
}
use loxtu_go.Adapters.UserRepo.Table.{
  IsEcho, IsTable, echoed, written, sets, restricted, restricted-written, find-Reads,
}
use loxtu_go.Identity.User.{User}

stored-some :
    {W : Type 0} (u u' : User) (p : W × Bool) (w' : W)
    → stored u p ≡ (w', some u')
    → (u ≡ u') × (p ≡ (w', true))
unfolding stored
stored-some u u' (w, true) w' e = (cc, ap (λ q. (q.0, true)) e)
stored-some u u' (w, false) w' e = absurd cc

module _ (sha256 : Str → Str) {W : Type 0} (table : UserTable W) where
  create_hashed-some :
      (u u' : User) (now : ℕ) (w w' : W)
      → create_hashed sha256 table u now w ≡ (w', some u')
      → (u ≡ u') × (table.create_user (create_columns u now) w ≡ (w', true))
  unfolding create_hashed
  create_hashed-some u u' now w w' e = elim (Bool-cases (is_empty u.email_hash)) [
    | inl t ↦ absurd (cc (rw t at e))
    | inr f ↦ stored-some u u' _ w' (rw f at e)
  ]

  create_keyed-some :
      (v u' : User) (now : ℕ) (r : Result (Str × Str)) (w w' : W)
      → create_keyed sha256 table v now r w ≡ (w', some u')
      → table.create_user (create_columns u' now) w ≡ (w', true)
  unfolding create_keyed
  create_keyed-some v u' now (ok (dek, encrypted)) w w' e =
      let (same, done) = create_hashed-some _ u' now w w' e in
      ap (λ x. table.create_user (create_columns x now) w) (sym same) ∙ done
  create_keyed-some v u' now (err t) w w' e = absurd cc
  create_keyed-some v u' now panics w w' e = absurd cc

module _ (echo : Cell → Cell) (clear : IsEcho echo) where
  read_text : (s : Str) → text_of (echoed echo (text_or_none s)) ≡ s
  unfolding text_or_none text_of
  read_text [] = refl
  read_text (c ∷ cs) = clear.text_of-echo (c ∷ cs)

  -- What is read of a user: the times of the last login, of the lock and of the hiring are not, and
  -- byte slices, lists, numbers and times are as far as the driver gives them in a form that is read.
  abbrev pub read_back : ℕ → User → User
  read_back now u = record u {
    is_active = false;
    encrypted_dek = as_bytes (some (echo (byte_slice u.encrypted_dek)));
    email_ciphertext = as_bytes (echoed echo (slice_or_none u.email_ciphertext));
    name_ciphertext = as_bytes (echoed echo (slice_or_none u.name_ciphertext));
    surname_ciphertext = as_bytes (echoed echo (slice_or_none u.surname_ciphertext));
    phone_ciphertext = as_bytes (echoed echo (slice_or_none u.phone_ciphertext));
    dob_ciphertext = as_bytes (echoed echo (slice_or_none u.dob_ciphertext));
    employee_id_ciphertext = as_bytes (echoed echo (slice_or_none u.employee_id_ciphertext));
    permissions = texts_of (echoed echo (texts_or_none u.permissions));
    skills = texts_of (echoed echo (texts_or_none u.skills));
    registration_attempts = number_of (some (echo (integer u.registration_attempts)));
    login_count = number_of (some (echo (integer u.login_count)));
    failed_login_count = number_of (some (echo (integer u.failed_login_count)));
    last_login_at = none;
    locked_until = none;
    hire_date = none;
    created_at = time_of (some (echo (time now)));
    updated_at = time_of (some (echo (time now)));
  }

  user_from-created :
      (u : User) (now : ℕ) → user_from (written echo (create_columns u now)) ≡ read_back now u
  unfolding user_from written create_columns time_or_none bytes str_eq text_of as_bytes number_of
      texts_of time_of
  user_from-created u now = λ i. record (read_back now u) {
    user_id = clear.text_of-echo u.user_id i;
    user_id_hash = clear.text_of-echo u.user_id_hash i;
    tenant_id = clear.text_of-echo u.tenant_id i;
    status = clear.text_of-echo u.status i;
    email_hash = clear.text_of-echo u.email_hash i;
    masked_email = clear.text_of-echo u.masked_email i;
    employee_id_hash = read_text u.employee_id_hash i;
    role = clear.text_of-echo u.role i;
    department = read_text u.department i;
    section = read_text u.section i;
    base = read_text u.base i;
  }

-- What is read of a row depends on the columns that a creation sets, and on no other.
user_from-restricted :
    (row : Str → Option Cell) (u : User) (now : ℕ)
    → user_from (restricted row (create_columns u now)) ≡ user_from row
unfolding user_from create_columns sets bytes str_eq
user_from-restricted row u now = refl

module _ (sha256 : Str → Str) (echo : Cell → Cell) (clear : IsEcho echo) {W : Type 0}
    (table : UserTable W) (laws : IsTable echo table) where
  -- A user that was created is found, over a driver that gives texts back as they were and a table
  -- whose successful creations are read back: when Create gives a user back under an identifier that
  -- was not in the table, a search by it finds this user with every text as it was given. The
  -- ciphertexts, the stored data key, the lists, the counts and the two times of the row are what the
  -- conversions make of the form in which the driver gives them; the times of the last login, of the
  -- lock and of the hiring are lost.
  pub find-create_user :
      (draws : Draws) (u u' : User) (w w' : W)
      → create sha256 table draws u w ≡ (w', some u')
      → u'.user_id ≢ []
      → table.select_user (bytes "user_id") u'.user_id w ≡ some []
      → find_by table (bytes "user_id") u'.user_id w' ≡ some (read_back echo clear draws.now u')
  unfolding create written create_columns bytes str_eq
  find-create_user draws u u' w w' e ne fresh =
      let done =
        create_keyed-some sha256 table (identified sha256 draws.new_id u) u' draws.now
          draws.data_key w w' e in
      let (row, reads, agrees) =
        laws.reads-create u'.user_id (create_columns u' draws.now) w refl fresh
          (ap (λ p. p.1) done) in
      rw (← ap (λ p. p.0) done) (
        find-Reads table u'.user_id _ _ ne reads
        ∙ ap some (
            sym (user_from-restricted row u' draws.now)
            ∙ (λ i. user_from (λ k. restricted-written echo row _ agrees k i))
            ∙ user_from-created echo clear u' draws.now))

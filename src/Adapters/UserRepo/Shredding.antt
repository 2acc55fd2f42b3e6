-- ===== src/Adapters/UserRepo/Shredding.antt =====
-- internal/adapters/persistence/surrealdb/user_repo.go: what is left of a user that is erased.
use loxtu_go.Base.{ℕ, true, Option, some, [], ◌∷◌, Str, bytes, str_eq, ◌≡◌, ap, ◌∙◌}
use loxtu_go.Adapters.Rows.{Cell, time, text_of, as_bytes, time_of}
use loxtu_go.Adapters.UserRepo.{UserTable, find_by, erase}
use loxtu_go.Adapters.UserRepo.Columns.{erase_columns, user_from}
use loxtu_go.Adapters.UserRepo.Table.{IsEcho, IsTable, Reads, overwritten, find-Reads}
use loxtu_go.Identity.User.{User}

-- A user without the data key, the ciphertexts and the hashes of what they hold.
abbrev pub shredded : (Cell → Cell) → Str → ℕ → User → User
shredded echo random now u = record u {
  status = bytes "erased";
  encrypted_dek = [];
  email_ciphertext = [];
  name_ciphertext = [];
  surname_ciphertext = [];
  phone_ciphertext = [];
  dob_ciphertext = [];
  employee_id_ciphertext = [];
  email_hash = random;
  masked_email = bytes "***";
  employee_id_hash = [];
  updated_at = time_of (some (echo (time now)));
}

user_from-erased :
    (echo : Cell → Cell) (clear : IsEcho echo) (row : Str → Option Cell) (random : Str) (now : ℕ)
    → user_from (overwritten echo row (erase_columns random now))
      ≡ shredded echo random now (user_from row)
unfolding user_from overwritten erase_columns bytes str_eq text_of as_bytes time_of
user_from-erased echo clear row random now = λ i.
    record (shredded echo random now (user_from row)) {
      status = clear.text_of-echo (bytes "erased") i;
      email_hash = clear.text_of-echo random i;
      masked_email = clear.text_of-echo (bytes "***") i;
    }

-- An erased user has lost what its data could be read with, over a driver that gives texts back and
-- a table whose successful updates are read back: when Erase succeeds, a search by the
-- identifier still finds the user, without the data key, without any ciphertext, with a random text
-- for the hash of the address and no hash of the number of the employee. The role, the permissions
-- and the place in the organisation stay.
pub find-erase :
    (echo : Cell → Cell) (clear : IsEcho echo) {W : Type 0} (table : UserTable W)
    (laws : IsTable echo table) (random : Str) (now : ℕ) (id : Str) (w : W)
    (row : Str → Option Cell)
    → Reads table id w row
    → (erase table random now id w).1 ≡ true
    → (find_by table (bytes "user_id") id w ≡ some (user_from row))
      × (find_by table (bytes "user_id") id (erase table random now id w).0
          ≡ some (shredded echo random now (user_from row)))
unfolding erase
find-erase echo clear table laws random now [] w row reads done = absurd cc
find-erase echo clear table laws random now (c ∷ cs) w row reads done = (
  find-Reads table (c ∷ cs) w row (λ e. cc) reads,
  find-Reads table (c ∷ cs) _ _ (λ e. cc)
        (laws.reads-update (c ∷ cs) (erase_columns random now) row w reads done)
      ∙ ap some (user_from-erased echo clear row random now),
)

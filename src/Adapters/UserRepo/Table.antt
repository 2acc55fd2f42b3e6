-- ===== src/Adapters/UserRepo/Table.antt =====
-- What a table of users in a database does, for internal/adapters/persistence/surrealdb/user_repo.go.
use loxtu_go.Base.{
  Bool, true, false, ◌||◌, Option, none, some, List, [], ◌∷◌, Str, bytes, str_eq, if◌then◌else◌,
  ◌≡◌, ◌≢◌, refl, ap, sym, inl, inr, Bool-cases, ◌∙◌,
}
use loxtu_go.Base.Map
use loxtu_go.Base.Map.{Map}
use loxtu_go.Adapters.Rows.{Cell, string, Row, text_of, first_map}
use loxtu_go.Adapters.UserRepo.{UserTable, user_of, find_by}
use loxtu_go.Adapters.UserRepo.Columns.{Assignments, user_from, map_user_row}

-- How the driver gives back what it was given: `echo` keeps texts readable.
pub record IsEcho (echo : Cell → Cell) : Type 0 where
  pub text_of-echo : (s : Str) → text_of (some (echo (string s))) ≡ s

abbrev pub echoed : (Cell → Cell) → Option Cell → Option Cell
echoed echo none = none
echoed echo (some c) = some (echo c)

-- The value of a column in a row that is created.
unfoldable pub written : (Cell → Cell) → Assignments → Str → Option Cell
written echo [] k = none
written echo ((j, o) ∷ cols) k = if str_eq j k then echoed echo o else written echo cols k

-- The value of a column in a row that is updated.
unfoldable pub overwritten : (Cell → Cell) → (Str → Option Cell) → Assignments → Str → Option Cell
overwritten echo row [] k = row k
overwritten echo row ((j, o) ∷ cols) k =
    if str_eq j k then echoed echo o else overwritten echo row cols k

-- The first row of a user has these values.
abbrev pub Reads : {W : Type 0} → UserTable W → Str → W → (Str → Option Cell) → Type 0
Reads table id w row =
    (rm : Map Cell) × (rest : List Row) × (table.select_user (bytes "user_id") id w
      ≡ some (some rm ∷ rest))
    × ((k : Str) → Map.lookup k rm ≡ row k)

-- Whether a statement sets a column.
unfoldable pub sets : Str → Assignments → Bool
sets k [] = false
sets k ((j, o) ∷ cols) = str_eq j k || sets k cols

-- A creation under a new identifier is read back in the columns that it sets, and an update in all.
pub record IsTable {W : Type 0} (echo : Cell → Cell) (table : UserTable W) : Type 0 where
  pub reads-create :
      (id : Str) (cols : Assignments) (w : W)
      → written (λ c. c) cols (bytes "user_id") ≡ some (string id)
      → table.select_user (bytes "user_id") id w ≡ some []
      → (table.create_user cols w).1 ≡ true
      → (row : Str → Option Cell) × Reads table id (table.create_user cols w).0 row
        × ((k : Str) → sets k cols ≡ true → row k ≡ written echo cols k)
  pub reads-update :
      (id : Str) (cols : Assignments) (row : Str → Option Cell) (w : W)
      → Reads table id w row
      → (table.update_user id cols w).1 ≡ true
      → Reads table id (table.update_user id cols w).0 (overwritten echo row cols)

-- The columns that a statement sets, of a row.
abbrev pub restricted : (Str → Option Cell) → Assignments → Str → Option Cell
restricted row cols k = if sets k cols then row k else none

written-unset :
    (echo : Cell → Cell) (cols : Assignments) (k : Str)
    → sets k cols ≡ false
    → written echo cols k ≡ none
unfolding written sets
written-unset echo [] k e = refl
written-unset echo ((j, o) ∷ cols) k e = elim (Bool-cases (str_eq j k)) [
  | inl t ↦ absurd (cc (rw (t, sets) at e))
  | inr f ↦ rw f (written-unset echo cols k (rw (f, sets) at e))
]

pub restricted-written :
    (echo : Cell → Cell) (row : Str → Option Cell) (cols : Assignments)
    → ((k : Str) → sets k cols ≡ true → row k ≡ written echo cols k)
    → (k : Str) → restricted row cols k ≡ written echo cols k
restricted-written echo row cols h k = elim (Bool-cases (sets k cols)) [
  | inl t ↦ rw t (h k t)
  | inr f ↦ rw f (sym (written-unset echo cols k f))
]

pub find-Reads :
    {W : Type 0} (table : UserTable W) (id : Str) (w : W) (row : Str → Option Cell)
    → id ≢ []
    → Reads table id w row
    → find_by table (bytes "user_id") id w ≡ some (user_from row)
unfolding find_by user_of map_user_row first_map
find-Reads table [] w row ne reads = absurd (ne refl)
find-Reads table (c ∷ cs) w row ne (rm, rest, found, values) =
    ap (λ rows. user_of (first_map rows)) found ∙ λ i. some (user_from (λ k. values k i))

-- ===== src/Adapters/UserRepo.antt =====
-- internal/adapters/persistence/surrealdb/user_repo.go: the users over a table. What the database
-- makes of the statements is a parameter, and so are the draws, the clock and the key manager.
pub mod Columns
pub mod Table
pub mod RoundTrip
pub mod Shredding
mod Tests
use loxtu_go.Base.{
  ℕ, Bool, true, false, Option, none, some, List, Str, bytes, is_empty, if◌then◌else◌,
}
use loxtu_go.Base.Map.{Map}
use loxtu_go.Base.Result.{Result, ok, err, panics}
use loxtu_go.Adapters.Rows.{Cell, Row, first_map}
use loxtu_go.Adapters.UserRepo.Columns.{
  Assignments, create_columns, update_columns, erase_columns, map_user_row,
}
use loxtu_go.Identity.Hash.{sha256_hex}
use loxtu_go.Identity.Ports.{UserStore}
use loxtu_go.Identity.Token.{or_default}
use loxtu_go.Identity.User.{User}

-- The statements on `users`: the reads name a column and its value, and are `none` on an error; the
-- flag of a write is false on one.
pub record UserTable (W : Type 0) : Type 0 where
  pub create_user : Assignments → W → W × Bool
  pub select_user : Str → Str → W → Option (List Row)
  pub update_user : Str → Assignments → W → W × Bool

-- What the calls draw: an identifier, a data key with what is stored of it, the text that stands in
-- for the hash of an erased address, and the time.
pub record Draws : Type 0 where
  pub new_id : Str
  pub data_key : Result (Str × Str)
  pub random : Str
  pub now : ℕ

unfoldable pub user_of : Option (Map Cell) → Option User
user_of none = none
user_of (some rm) = some (map_user_row rm)

unfoldable pub identified : (Str → Str) → Str → User → User
identified sha256 new_id u =
    let id = or_default new_id u.user_id in
    record u { user_id = id; user_id_hash = or_default (sha256_hex sha256 id) u.user_id_hash }

unfoldable pub stored : {W : Type 0} → User → W × Bool → W × Option User
stored u (w, true) = (w, some u)
stored u (w, false) = (w, none)

module _ {W : Type 0} (table : UserTable W) where
  -- A read by an empty value does not ask the database.
  unfoldable pub find_by : Str → Str → W → Option User
  find_by column value w =
      if is_empty value then none else user_of (first_map (table.select_user column value w))

  unfoldable pub update : ℕ → User → W → W × Bool
  update now u w =
      if is_empty u.user_id
      then (w, false)
      else table.update_user u.user_id (update_columns u now) w

  unfoldable pub erase : Str → ℕ → Str → W → W × Bool
  erase random now user_id w =
      if is_empty user_id
      then (w, false)
      else table.update_user user_id (erase_columns random now) w

module _ (sha256 : Str → Str) {W : Type 0} (table : UserTable W) where
  unfoldable pub create_hashed : User → ℕ → W → W × Option User
  create_hashed u now w =
      if is_empty u.email_hash
      then (w, none)
      else stored u (table.create_user (create_columns u now) w)

  unfoldable pub create_keyed : User → ℕ → Result (Str × Str) → W → W × Option User
  create_keyed u now (ok (dek, encrypted)) w =
      create_hashed (record u { encrypted_dek = encrypted; masked_email = bytes "***" }) now w
  create_keyed u now (err e) w = (w, none)
  create_keyed u now panics w = (w, none)

  unfoldable pub create : Draws → User → W → W × Option User
  create draws u w = create_keyed (identified sha256 draws.new_id u) draws.now draws.data_key w

  -- A pool that is nil gives an error everywhere, as a failing query does, and is left out. A port
  -- is one moment's: the draws of its calls are given.
  abbrev pub user_repo : Draws → UserStore W
  user_repo draws = record {
    create = create draws;
    find_by_user_id = find_by table (bytes "user_id");
    find_by_email_hash = find_by table (bytes "email_hash");
    find_by_user_id_hash = find_by table (bytes "user_id_hash");
    update = update table draws.now;
    erase = erase table draws.random draws.now;
  }

-- ===== src/Adapters/OtpRepo/Reliable.antt =====
-- internal/adapters/persistence/surrealdb/otp_repo.go keeps what the port OTPStore promises.
use loxtu_go.Base.{
  ℕ, ◌+◌, ◌++◌, ◌<◌, ◌≡◌, ◌≢◌, ◌⊎◌, refl, ap, ◌∙◌, true, Option, none, some, List, [], ◌∷◌, Str,
  bytes, str_eq,
}
use loxtu_go.Base.Map
use loxtu_go.Base.Map.{Map}
use loxtu_go.Adapters.Rows.{Cell, string, time, Row, text_of, float_of, first_map}
use loxtu_go.Adapters.OtpRepo.{OtpTable, expiry_of, otp_of_row, otp_of, get}
use loxtu_go.Identity.Otp.{OtpRecord}

-- A stored record as the driver gives it; `numeral` is how it gives a number.
abbrev pub row_of : (ℕ → Cell) → OtpRecord → Map Cell
row_of numeral r =
    (bytes "code_hash", string r.code_hash)
    ∷ (bytes "attempts", numeral r.attempts)
    ∷ (bytes "expires_at", time r.expires_at)
    ∷ []

-- The row with the other columns that `SELECT *` gives.
abbrev pub answer_of : (ℕ → Cell) → Map Cell → Option OtpRecord → List Row
answer_of numeral others none = []
answer_of numeral others (some r) = some (row_of numeral r ++ others) ∷ []

-- What the statements do in a database whose calls do not fail: each record is under its own
-- identifier, one can be created if there is none, and `+= 1` counts, unless the record has expired:
-- an update then deletes it (the event delete_expired_otp of the schema). The clock of the database
-- does not pass `clock` while the calls run.
pub record IsTable {W : Type 0} (numeral : ℕ → Cell) (clock : ℕ) (table : OtpTable W) : Type 0 where
  pub content : Str → W → Option OtpRecord
  pub select :
      (k : Str) (w : W)
      → (others : Map Cell) × (table.select_record k w
          ≡ some (answer_of numeral others (content k w)))
  pub content-delete : (k : Str) (w : W) → content k (table.delete_record k w).0 ≡ none
  pub content-delete_ne :
      (k j : Str) (w : W) → k ≢ j → content j (table.delete_record k w).0 ≡ content j w
  pub create_flag :
      (k : Str) (r : OtpRecord) (w : W) → content k w ≡ none → (table.create_record k r w).1 ≡ true
  pub content-create :
      (k : Str) (r : OtpRecord) (w : W)
      → content k w ≡ none
      → content k (table.create_record k r w).0 ≡ some r
  pub content-create_ne :
      (k j : Str) (r : OtpRecord) (w : W)
      → k ≢ j
      → content j (table.create_record k r w).0 ≡ content j w
  pub content-increment :
      (k : Str) (w : W) (r : OtpRecord)
      → content k w ≡ some r
      → (content k (table.increment_record k w).0 ≡ some (record r { attempts = r.attempts + 1 }))
        ⊎ ((content k (table.increment_record k w).0 ≡ none) × (r.expires_at < clock))
  pub content-increment_ne :
      (k j : Str) (w : W) → k ≢ j → content j (table.increment_record k w).0 ≡ content j w

module _ {W : Type 0} (parse : Str → Option ℕ) (numeral : ℕ → Cell) (table : OtpTable W) where
  -- What `Get` reads of the record that the table holds.
  unfoldable pub read_back : Option OtpRecord → Option OtpRecord
  read_back none = none
  read_back (some r) = some (record r { attempts = float_of (some (numeral r.attempts)) })

  get_row :
      (others : Map Cell) (o : Option OtpRecord)
      → otp_of parse (first_map (some (answer_of numeral others o))) ≡ read_back o
  unfolding otp_of otp_of_row first_map text_of expiry_of Map.lookup bytes str_eq read_back
  get_row others none = refl
  get_row others (some r) = refl

  pub get-content :
      {clock : ℕ} (laws : IsTable numeral clock table) (k : Str) (w : W)
      → get parse table k w ≡ read_back (laws.content k w)
  unfolding get
  get-content laws k w =
      let (others, e) = laws.select k w in
      ap (λ a. otp_of parse (first_map a)) e ∙ get_row others (laws.content k w)

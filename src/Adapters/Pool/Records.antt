-- ===== src/Adapters/Pool/Records.antt =====
-- internal/adapters/persistence/surrealdb/pool.go: identifiers of records, and the rows of an answer.
-- A value of an interface type is what the code tells apart of it; `%v` is printed into the value.
pub mod RoundTrip
use loxtu_go.Base.{
  ℕ, ◌-◌, Bool, true, false, ◌&&◌, ◌||◌, Option, none, some, List, [], ◌∷◌, ◌++◌, Str, bytes,
  has_prefix, is_empty, ltb, length, take, drop, if◌then◌else◌, ◌==◌,
}
use loxtu_go.Base.Map
use loxtu_go.Base.Map.{Map}
use loxtu_go.Base.Strings.{split_first, contains_byte, trim_space, has_suffix}

-- A value inside a map: nil, a string, or another one with its text.
pub data Field : Type 0 where
  nil_field : Field
  text_field : Str → Field
  other_field : Str → Field

-- What the driver may give for an identifier: nil, a string, a value that prints itself, a map with
-- its text, or another value with its text.
pub data Value : Type 0 where
  nil_value : Value
  text : Str → Value
  stringer : Str → Value
  object : Map Field → Str → Value
  other : Str → Value

-- The two parts of a record's identifier.
abbrev pub RecordId : Type 0
RecordId = Str × Str

pub checked_record_id : Option (Str × Str) → Option RecordId
checked_record_id none = none
checked_record_id (some (table, id)) =
    if is_empty table || is_empty id then none else some (table, id)

-- `none` is nil.
pub get_record_id : Str → Option RecordId
unfolding checked_record_id
get_record_id id_str =
    if is_empty id_str || contains_byte id_str b'{'
    then none
    else checked_record_id (split_first b':' id_str)

field_of : Option Field → Field
field_of none = nil_field
field_of (some f) = f

-- The text of a field that holds a string, and the empty one otherwise.
text_of : Field → Str
text_of nil_field = []
text_of (text_field s) = s
text_of (other_field s) = []

printed : Field → Option Str
printed nil_field = none
printed (text_field s) = some s
printed (other_field s) = some s

first_text : Str → Str → Str
first_text a b = if is_empty a then b else a

first_some : Option Str → Option Str → Option Str
first_some none b = b
first_some (some a) b = some a

-- The table and the identifier that a map holds, under either spelling.
table_of : Map Field → Str
unfolding field_of text_of first_text
table_of m =
    first_text (text_of (field_of (Map.lookup (bytes "tb") m)))
      (text_of (field_of (Map.lookup (bytes "Table") m)))

id_of : Map Field → Option Str
unfolding field_of printed first_some
id_of m =
    first_some (printed (field_of (Map.lookup (bytes "id") m)))
      (printed (field_of (Map.lookup (bytes "ID") m)))

pub is_gap : ℕ → Bool
is_gap c = c == b' ' || c == b','

-- strings.IndexAny(s, " ,"): what stands in front of the place, and behind it.
pub split_gap : Str → Option (Str × Str)
unfolding is_gap
split_gap [] = none
split_gap (c ∷ s) =
    let rest = split_gap s in
    if is_gap c then some ([], s) else elim rest [ none ↦ none | some (a, b) ↦ some (c ∷ a, b) ]

pub respelled : Str → Option (Str × Str) → Str
respelled s none = s
respelled s (some (table, rest)) = if is_empty table then s else table ++ b':' ∷ trim_space rest

-- The end of `formatRecordID`: "{table id}" becomes "table:id".
pub format_printed : Str → Str
unfolding split_gap respelled
format_printed s =
    if ltb 2 (length s) && has_prefix s (bytes "{") && has_suffix s (bytes "}")
    then respelled s (split_gap (take (length s - 2) (drop 1 s)))
    else s

from_map : Str → Option Str → Str → Str
from_map table none printed_map = format_printed printed_map
from_map table (some id) printed_map =
    if is_empty table then format_printed printed_map else table ++ b':' ∷ id

pub format_record_id : Value → Str
unfolding from_map table_of id_of
format_record_id nil_value = []
format_record_id (text s) = s
format_record_id (stringer s) = s
format_record_id (object m s) = from_map (table_of m) (id_of m) s
format_record_id (other s) = format_printed s

-- The `Result` of an answer: an array, a map or something else.
pub data Rows (A : Type 0) : Type 0 where
  many : List A → Rows A
  single : A → Rows A
  no_rows : Rows A

pub first_rows : {A : Type 0} → List (Rows A) → List A
first_rows [] = []
first_rows (many rows ∷ _) = rows
first_rows (single row ∷ _) = row ∷ []
first_rows (no_rows ∷ _) = []

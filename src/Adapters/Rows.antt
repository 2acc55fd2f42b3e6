-- ===== src/Adapters/Rows.antt =====
-- internal/adapters/persistence/surrealdb: the values in a row that the driver gives, and how the
-- repositories read them (asBytes of user_repo.go, parseTime of session_repo.go).
use loxtu_go.Base.{ℕ, Bool, false, Option, none, some, List, [], ◌∷◌, Str}
use loxtu_go.Base.Map.{Map}

-- The types that the code tells apart. `integer` is an int64, or a uint32 where that is read too;
-- `time` is a time.Time, and `datetime` a models.CustomDateTime or a pointer to one of the two;
-- `texts` is an array, whose elements are strings or something else; and `other` is any other value
-- with what `%v` prints of it. Numbers are not negative.
pub data Cell : Type 0 where
  string : Str → Cell
  byte_slice : Str → Cell
  float : ℕ → Cell
  integer : ℕ → Cell
  boolean : Bool → Cell
  time : ℕ → Cell
  datetime : ℕ → Cell
  texts : List (Option Str) → Cell
  other : Str → Cell

-- A row is a map, or a value of another type, which is `none`.
abbrev pub Row : Type 0
Row = Option (Map Cell)

-- `rm[key].(string)`, with the empty text for a value of another type or none.
unfoldable pub text_of : Option Cell → Str
text_of none = []
text_of (some (string s)) = s
text_of (some (byte_slice s)) = []
text_of (some (float n)) = []
text_of (some (integer n)) = []
text_of (some (datetime t)) = []
text_of (some (boolean b)) = []
text_of (some (time t)) = []
text_of (some (texts l)) = []
text_of (some (other s)) = []

-- asBytes; nil is the empty text.
unfoldable pub as_bytes : Option Cell → Str
as_bytes none = []
as_bytes (some (string s)) = s
as_bytes (some (byte_slice s)) = s
as_bytes (some (float n)) = []
as_bytes (some (integer n)) = []
as_bytes (some (datetime t)) = []
as_bytes (some (boolean b)) = []
as_bytes (some (time t)) = []
as_bytes (some (texts l)) = []
as_bytes (some (other s)) = []

-- `v.(float64)` alone.
unfoldable pub float_of : Option Cell → ℕ
float_of none = 0
float_of (some (string s)) = 0
float_of (some (byte_slice s)) = 0
float_of (some (float n)) = n
float_of (some (integer n)) = 0
float_of (some (datetime t)) = 0
float_of (some (boolean b)) = 0
float_of (some (time t)) = 0
float_of (some (texts l)) = 0
float_of (some (other s)) = 0

-- A switch over `float64` and `int64`.
unfoldable pub number_of : Option Cell → ℕ
number_of none = 0
number_of (some (string s)) = 0
number_of (some (byte_slice s)) = 0
number_of (some (float n)) = n
number_of (some (integer n)) = n
number_of (some (datetime t)) = 0
number_of (some (boolean b)) = 0
number_of (some (time t)) = 0
number_of (some (texts l)) = 0
number_of (some (other s)) = 0

unfoldable pub bool_of : Option Cell → Bool
bool_of none = false
bool_of (some (string s)) = false
bool_of (some (byte_slice s)) = false
bool_of (some (float n)) = false
bool_of (some (integer n)) = false
bool_of (some (datetime t)) = false
bool_of (some (boolean b)) = b
bool_of (some (time t)) = false
bool_of (some (texts l)) = false
bool_of (some (other s)) = false

unfoldable pub strings_in : List (Option Str) → List Str
strings_in [] = []
strings_in (none ∷ l) = strings_in l
strings_in (some s ∷ l) = s ∷ strings_in l

-- `v.([]any)` with its strings.
unfoldable pub texts_of : Option Cell → List Str
texts_of none = []
texts_of (some (string s)) = []
texts_of (some (byte_slice s)) = []
texts_of (some (float n)) = []
texts_of (some (integer n)) = []
texts_of (some (datetime t)) = []
texts_of (some (boolean b)) = []
texts_of (some (time t)) = []
texts_of (some (texts l)) = strings_in l
texts_of (some (other s)) = []

-- time.Time's zero value, which stands in front of every other moment.
abbrev pub zero_time : ℕ
zero_time = 0

unfoldable pub parsed_or_zero : Option ℕ → ℕ
parsed_or_zero none = zero_time
parsed_or_zero (some t) = t

-- `v.(time.Time)`, with the zero value for a value of another type or none.
unfoldable pub time_of : Option Cell → ℕ
time_of none = zero_time
time_of (some (string s)) = zero_time
time_of (some (byte_slice s)) = zero_time
time_of (some (float n)) = zero_time
time_of (some (integer n)) = zero_time
time_of (some (datetime t)) = zero_time
time_of (some (boolean b)) = zero_time
time_of (some (time t)) = t
time_of (some (texts l)) = zero_time
time_of (some (other s)) = zero_time

-- parseTime, whose flag is `none`; `parse` is `time.Parse(time.RFC3339, …)`.
unfoldable pub parse_time : (Str → Option ℕ) → Option Cell → Option ℕ
parse_time parse none = none
parse_time parse (some (string s)) = parse s
parse_time parse (some (byte_slice s)) = none
parse_time parse (some (float n)) = none
parse_time parse (some (integer n)) = none
parse_time parse (some (datetime t)) = none
parse_time parse (some (boolean b)) = none
parse_time parse (some (time t)) = some t
parse_time parse (some (texts l)) = none
parse_time parse (some (other s)) = none

-- The first row of an answer, if the answer is not an error, has a row, and the row is a map.
unfoldable pub first_map : Option (List Row) → Option (Map Cell)
first_map none = none
first_map (some []) = none
first_map (some (row ∷ _)) = row

-- ===== src/Middleware/Request.antt =====
-- The parts of *http.Request that the middleware and the handlers read. An absent header, form
-- value or query value is the empty string, as in Go; an absent cookie is `none`.
use loxtu_go.Base.{Str, Bool, Option, none, some, []}
use loxtu_go.Base.Map
use loxtu_go.Base.Map.{Map}

pub record Request : Type 0 where
  pub method : Str
  pub path : Str
  pub remote_addr : Str
  pub is_tls : Bool
  pub headers : Map Str
  pub query : Map Str
  pub form : Map Str
  pub cookies : Map Str

abbrev pub value_or_empty : Option Str → Str
value_or_empty none = []
value_or_empty (some v) = v

-- r.Header.Get
unfoldable pub header : Request → Str → Str
header r name = value_or_empty (Map.lookup name r.headers)

-- r.URL.Query().Get
unfoldable pub query_value : Request → Str → Str
query_value r name = value_or_empty (Map.lookup name r.query)

-- r.FormValue: a form field, or else the query's.
unfoldable pub form_value : Request → Str → Str
form_value r name = elim (Map.lookup name r.form) [
  | some v ↦ v
  | none ↦ value_or_empty (Map.lookup name r.query)
]

-- r.Cookie
unfoldable pub cookie : Request → Str → Option Str
cookie r name = Map.lookup name r.cookies

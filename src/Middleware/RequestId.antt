-- ===== src/Middleware/RequestId.antt =====
-- internal/interfaces/http/middleware/request_id.go: the request's identifier, the log line and the
-- client's address.
pub mod Hex
pub mod Laws
mod Tests
use loxtu_go.Base.{
  ℕ, zero, suc, ◌+◌, ◌-◌, ◌/◌, ◌%◌, ◌++◌, Bool, true, false, ◌||◌, Option, none, some, List, [],
  ◌∷◌, Str, bytes, str_eq, has_prefix, leb, ◌==◌, length, take, replicate, is_empty, if◌then◌else◌,
}
use loxtu_go.Base.Strings.{trim_space, hex_encode, hex_digit, split_first}
use loxtu_go.Middleware.Request.{Request, header}

-- `pad(s, w, c)`: the first `w` bytes of a long text, and a short one with `c` in front.
pub pad : Str → ℕ → ℕ → Str
pad s w c = if leb w (length s) then take w s else replicate (w - length s) c ++ s

-- The loop of `itohex`, from the place `i` of a buffer of sixteen bytes. `none` is a write below it.
itohex_loop : ℕ → ℕ → Str → Option Str
itohex_loop zero n buf = if n == 0 then some buf else none
itohex_loop (suc i) n buf =
    let rest = itohex_loop i (n / 16) (hex_digit (n % 16) ∷ buf) in
    if n == 0 then some buf else rest

-- For a time that is not negative, as `time.Now().UnixMilli()` is.
pub itohex : ℕ → ℕ → Option Str
itohex n width =
    if n == 0
    then some (pad [] width b'0')
    else elim (itohex_loop 16 n []) [ none ↦ none | some s ↦ some (pad s width b'0') ]

-- The time in milliseconds, and twelve random bytes.
pub generate_id : ℕ → Str → Option Str
generate_id now random = elim (itohex now 8) [
  | none ↦ none
  | some ts ↦ some (ts ++ hex_encode random)
]

-- `strings.LastIndex(s, ":")` and the slice in front of it; `none` is -1.
before_last : ℕ → Str → Option Str
before_last sep [] = none
before_last sep (c ∷ s) =
    let rest = before_last sep s in
    elim rest [ some a ↦ some (c ∷ a) | none ↦ if c == sep then some [] else none ]

-- `parts[0]` of a split in two.
abbrev first_part : ℕ → Str → Str
first_part sep s = elim (split_first sep s) [ none ↦ s | some (a, b) ↦ a ]

pub extract_client_ip : Request → Str
extract_client_ip r =
    let fwd = header r (bytes "X-Forwarded-For") in
    let real_ip = header r (bytes "X-Real-IP") in
    if is_empty fwd
    then if is_empty real_ip
      then elim (before_last b':' r.remote_addr) [ none ↦ r.remote_addr | some a ↦ a ]
      else real_ip
    else trim_space (first_part b',' fwd)

-- The log line of a request.
pub record LogLine : Type 0 where
  pub reqid : Str
  pub method : Str
  pub path : Str
  pub status : ℕ
  pub client_ip : Str
  pub tenant_id : Str
  pub email : Str

-- What the inner handlers leave: the status written (200 if none) and the shared log context.
pub record Inner : Type 0 where
  pub status : ℕ
  pub email : Str
  pub tenant_id : Str

-- The X-Request-ID of the response, and the log line; `panics` is the slice `id[:8]` of a short
-- identifier, which is reached when the handler is done.
pub data Logged : Type 0 where
  logged : LogLine → Logged
  skipped : Logged
  panics : Logged

abbrev pub is_static : Str → Bool
is_static path = has_prefix path (bytes "/static/") || str_eq path (bytes "/favicon.ico")

pub log_request : Request → Str → Inner → Logged
log_request r id inner =
    if is_static r.path
    then skipped
    else if leb 8 (length id)
    then logged (record {
      reqid = take 8 id;
      method = r.method;
      path = r.path;
      status = inner.status;
      client_ip = extract_client_ip r;
      tenant_id = inner.tenant_id;
      email = inner.email;
    })
    else panics

-- The proxy's identifier if there is one. `none` does not arise for a time of 64 bits.
pub request_id : Request → ℕ → Str → Option Str
request_id r now random =
    let id = header r (bytes "X-Request-ID") in
    if is_empty id then generate_id now random else some id

abbrev answer : Request → Inner → Option Str → Option (Str × Logged)
answer r inner none = none
answer r inner (some id) = some (id, log_request r id inner)

pub request_id_middleware : Request → ℕ → Str → Inner → Option (Str × Logged)
request_id_middleware r now random inner = answer r inner (request_id r now random)

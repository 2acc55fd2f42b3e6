-- ===== src/Middleware/Csrf.antt =====
-- internal/interfaces/http/middleware/csrf.go. One request is one step on the set of tokens; what
-- `rand.Read` yields in the step is an argument.
pub mod Replay
mod Tests
use loxtu_go.Base.{
  Bool, true, false, ◌&&◌, ◌||◌, Option, none, some, List, [], ◌∷◌, Str, bytes, str_eq, has_prefix,
  any, is_empty, if◌then◌else◌,
}
use loxtu_go.Base.Map
use loxtu_go.Base.Map.{Map}
use loxtu_go.Base.Strings.{trim_space, hex_encode}
use loxtu_go.Middleware.Request.{Request, header, form_value, cookie}

pub generate_csrf_token : Str → Str
generate_csrf_token random = hex_encode random

-- The request is handed on, with the `loxtu_csrf` cookie that is set if any, or refused with 403.
pub data Outcome : Type 0 where
  next : Option Str → Outcome
  forbidden : Str → Outcome

-- `tokens[got]` of a map to `bool`: a missing key reads false.
abbrev pub is_issued : Option Bool → Bool
is_issued none = false
is_issued (some b) = b

abbrev pub is_public : List Str → Request → Bool
is_public public_paths r = any (λ p. has_prefix r.path p) public_paths

abbrev pub is_api : Request → Bool
is_api r =
    has_prefix (header r (bytes "Accept")) (bytes "application/json")
    || str_eq (header r (bytes "X-Requested-With")) (bytes "XMLHttpRequest")

abbrev pub is_read : Request → Bool
is_read r = str_eq r.method (bytes "GET") || str_eq r.method (bytes "HEAD")

abbrev pub is_write : Request → Bool
is_write r =
    str_eq r.method (bytes "POST")
    || str_eq r.method (bytes "PUT")
    || str_eq r.method (bytes "DELETE")

-- The token of the header, or else of the form.
abbrev pub sent_token : Request → Str
sent_token r =
    let token = header r (bytes "X-CSRF-Token") in
    if is_empty token then form_value r (bytes "_csrf") else token

-- A missing cookie and an empty one are refused alike.
abbrev pub csrf_cookie : Request → Str
csrf_cookie r = elim (cookie r (bytes "loxtu_csrf")) [ none ↦ [] | some v ↦ v ]

-- A valid token is taken out of the set, also where it then differs from the cookie.
pub check_token : Map Bool → Str → Str → Str → Map Bool × Outcome
check_token tokens got expected new_token =
    if is_issued (Map.lookup got tokens)
    then if str_eq got expected
      then (Map.insert new_token true (Map.delete got tokens), next (some new_token))
      else (Map.delete got tokens, forbidden (bytes "CSRF token invalid"))
    else (tokens, forbidden (bytes "CSRF token invalid"))

pub validate : Map Bool → Request → Str → Map Bool × Outcome
validate tokens r new_token =
    if is_empty (csrf_cookie r)
    then (tokens, forbidden (bytes "CSRF token missing"))
    else check_token tokens (trim_space (sent_token r)) (trim_space (csrf_cookie r)) new_token

pub csrf : List Str → Map Bool → Request → Str → Map Bool × Outcome
csrf public_paths tokens r random =
    let new_token = generate_csrf_token random in
    if is_public public_paths r || is_api r
    then (tokens, next none)
    else if is_read r
    then (Map.insert new_token true tokens, next (some new_token))
    else if is_write r
    then validate tokens r new_token
    else (tokens, next none)

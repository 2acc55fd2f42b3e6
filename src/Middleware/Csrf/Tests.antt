-- ===== src/Middleware/Csrf/Tests.antt =====
-- Runs of the CSRF check, and its theorems at concrete inputs.
use loxtu_go.Base.{
  Bool, true, some, List, [], ◌∷◌, Str, bytes, str_eq, ne_of_str_eq, has_prefix, ◌≡◌, ◌≢◌, refl,
  All,
}
use loxtu_go.Base.Map
use loxtu_go.Base.Map.{Map}
use loxtu_go.Base.Strings.{trim_space, hex_encode}
use loxtu_go.Middleware.Request.{Request, header, form_value, cookie}
use loxtu_go.Middleware.Csrf.{generate_csrf_token, next, check_token, validate, csrf}
use loxtu_go.Middleware.Csrf.Replay.{IsChecked, got, DrawsOther, run, replay_refused}

checks : Unit {0}
unfolding generate_csrf_token check_token validate csrf header form_value cookie trim_space
    hex_encode Map.lookup Map.insert Map.delete bytes str_eq has_prefix
checks = tt

abbrev ask : Str → Map Str → Map Str → Request
ask method headers cookies = record {
  method = method;
  path = bytes "/dashboard";
  remote_addr = bytes "9.9.9.9:1";
  is_tls = true;
  headers = headers;
  query = [];
  form = [];
  cookies = cookies;
}

abbrev page : Request
page = ask (bytes "GET") [] []

-- The bytes 0xab and 0x01, as the token "ab01".
abbrev drawn : Str
drawn = 171 ∷ 1 ∷ []

abbrev token : Str
token = bytes "ab01"

abbrev form : Request
form = ask (bytes "POST") ((bytes "X-CSRF-Token", token) ∷ []) ((bytes "loxtu_csrf", token) ∷ [])

abbrev issued : Map Bool
issued = (token, true) ∷ []

abbrev public_paths : List Str
public_paths = bytes "/auth/logout" ∷ bytes "/static/" ∷ []

form-IsChecked : IsChecked public_paths form
unfolding checks
form-IsChecked = (refl, refl, refl)

first_passes : (csrf public_paths issued form (9 ∷ [])).1 ≡ next (some (bytes "09"))
unfolding checks
first_passes = refl

draws_other : All (DrawsOther (got form)) ((form, 9 ∷ []) ∷ (page, 8 ∷ []) ∷ [])
unfolding checks
draws_other = (ne_of_str_eq (bytes "09") token refl, (ne_of_str_eq (bytes "08") token refl, tt))

replay_refused_example :
    (csrf public_paths
      (run public_paths issued ((form, 9 ∷ []) ∷ (page, 8 ∷ []) ∷ []))
      form
      (7 ∷ [])).1
    ≢ next (some (bytes "07"))
replay_refused_example =
    replay_refused public_paths issued form form (9 ∷ []) (7 ∷ []) ((page, 8 ∷ []) ∷ [])
      (some (bytes "09")) (some (bytes "07")) form-IsChecked form-IsChecked refl draws_other
      first_passes

-- ===== src/Handlers/Oauth.antt =====
-- internal/interfaces/http/handlers/oauth_handler.go: the flows through an external provider behind
-- HTTP. The provider of the path, the tenant of the context and the draws are arguments.
pub mod Bound
mod Tests
use loxtu_go.Base.{
  ℕ, Bool, true, false, Option, none, some, List, [], Str, bytes, str_eq, is_empty, map,
  if◌then◌else◌,
}
use loxtu_go.Base.Result.{Result, ok, err, panics}
use loxtu_go.Handlers.Auth.{CookieChange, kept, set_pair}
use loxtu_go.Handlers.Tenant.{tenant_or_public}
use loxtu_go.Identity.Oauth.{OauthService, OauthUserInfo, begin_auth, complete_auth}
use loxtu_go.Identity.Session.{Jwt, TokenPair, Call}
use loxtu_go.Identity.Token.{TokenService, issue_session, or_default}
use loxtu_go.Middleware.Request.{Request, header, cookie, query_value, form_value}

pub record OauthHandler (W : Type 0) : Type 0 where
  pub tokens : TokenService W
  pub resolve_by_domain : Option (Str → Option Str)

pub data Page : Type 0 where
  provider_required : Page
  not_available : Page
  to_provider : Str → Page
  code_required : Page
  invalid_state : Page
  oauth_failed : Page
  auth_failed : Page
  hx_redirected : Str → Page
  redirected : Str → Page
  panicked : Page

-- The cookie `oauth_state`.
pub data StateCookie : Type 0 where
  untouched : StateCookie
  set_state : Str → StateCookie
  removed : StateCookie

pub record Answer : Type 0 where
  pub page : Page
  pub state_cookie : StateCookie
  pub cookies : CookieChange

abbrev pub show : Page → Answer
show p = record { page = p; state_cookie = untouched; cookies = kept }

-- An answer behind the removal of the state's cookie.
abbrev pub cleared : Page → CookieChange → Answer
cleared p c = record { page = p; state_cookie = removed; cookies = c }

pub began : Result (Str × Str) → Answer
began (ok (url, state)) = record {
  page = to_provider url;
  state_cookie = set_state state;
  cookies = kept;
}
began (err e) = show not_available
began panics = show panicked

pub begin_auth_page :
    {W : Type 0} → OauthService W → Str → Str → Request → Str → Str → ℕ → OauthService W × Answer
begin_auth_page s provider ctx_tenant r first second now =
    if is_empty provider
    then (s, show provider_required)
    else (let (s', result) =
          begin_auth s provider ctx_tenant
            (or_default (bytes "/dashboard") (query_value r (bytes "redirect_uri"))) first second
            now in
        (s', began result))

-- The query's value, or else the form's.
pub query_or_form : Request → Str → Str
query_or_form r name = or_default (form_value r name) (query_value r name)

pub is_state_of : Option Str → Str → Bool
is_state_of none state = false
is_state_of (some v) state = str_eq v state

-- Where a login leads: the query may name any target.
pub target_page : Request → Page
target_page r =
    let target = or_default (bytes "/dashboard") (query_value r (bytes "redirect_uri")) in
    if str_eq (header r (bytes "HX-Request")) (bytes "true")
    then hx_redirected target
    else redirected target

pub entered : Request → Result TokenPair → Answer
entered r (ok pair) = cleared (target_page r) (set_pair pair)
entered r (err e) = cleared auth_failed kept
entered r panics = cleared panicked kept

module _ (sha256 : Str → Str) (jwt : Jwt) {W : Type 0} (h : OauthHandler W) where
  pub completed : Request → Call → W × Result (OauthUserInfo × Str) → W × Answer
  completed r call (w, err e) = (w, cleared oauth_failed kept)
  completed r call (w, panics) = (w, cleared panicked kept)
  completed r call (w, ok (info, user_id)) =
      let (w', result) =
        issue_session sha256 jwt h.tokens user_id (tenant_or_public h.resolve_by_domain info.email)
          (bytes "worker") [] call w in
      (w', entered r result)

  pub callback_matched :
      Str → Str → Str → Request → Call → OauthService W → W → OauthService W × (W × Answer)
  callback_matched provider state code r call s w =
      let (s', result) = complete_auth s provider state code call.now w in
      (s', completed r call result)

  pub callback_with :
      Str → Str → Str → Request → Call → OauthService W → W → OauthService W × (W × Answer)
  callback_with provider state code r call s w =
      if is_empty code
      then (s, (w, show code_required))
      else if is_state_of (cookie r (bytes "oauth_state")) state
      then callback_matched provider state code r call s w
      else (s, (w, show invalid_state))

  pub callback : Str → Request → Call → OauthService W → W → OauthService W × (W × Answer)
  callback provider r call s w =
      callback_with provider (query_or_form r (bytes "state")) (query_or_form r (bytes "code")) r
        call s w

-- Go lists the providers in any order.
pub get_providers : {W : Type 0} → OauthService W → List Str
get_providers s = map (λ p. p.0) s.providers

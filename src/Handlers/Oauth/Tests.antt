-- ===== src/Handlers/Oauth/Tests.antt =====
-- internal/interfaces/http/handlers/oauth_handler.go on a flow through a toy provider.
use loxtu_go.Base.{true, false, none, some, [], ◌∷◌, Str, bytes, str_eq, ◌≡◌, refl, is_empty}
use loxtu_go.Base.Map
use loxtu_go.Base.Result.{Result, ok, err, panics}
use loxtu_go.Base.Strings.{hex_encode}
use loxtu_go.Handlers.Auth.{set_pair}
use loxtu_go.Handlers.Oauth.{
  OauthHandler, query_or_form, is_state_of, target_page, entered, completed, callback_matched,
  callback_with, callback,
}
use loxtu_go.Handlers.Oauth.Bound.{callback_bound}
use loxtu_go.Handlers.Tenant.{tenant_or_public, resolve_tenant_by_email}
use loxtu_go.Identity.Oauth.{
  generate_state, begin_auth, begin_found, complete_auth, complete_found, complete_state,
  state_expired, exchanged, link_account, linked,
}
use loxtu_go.Identity.Oauth.Origin.{BeganLately, Some}
use loxtu_go.Identity.Oauth.State.{begin, after}
use loxtu_go.Identity.Oauth.State as Flow
use loxtu_go.Identity.Oauth.Toy.{World, service}
use loxtu_go.Identity.Session.{
  TokenPair, Call, signing_key, wrap, access_claims, issue_access_token, issue_refresh_token,
  issue_tokens,
}
use loxtu_go.Identity.Session.Codec.{toy_jwt}
use loxtu_go.Identity.Token.{or_default, issue, persist, persist_issued, issue_session}
use loxtu_go.Middleware.Request.{Request, header, cookie, query_value, form_value}

abbrev same : Str → Str
same s = s

abbrev a_handler : OauthHandler World
a_handler = record {
  tokens = record { users = none; sessions = none; access_ttl = 900 };
  resolve_by_domain = none;
}

abbrev first_call : Flow.Call
first_call = begin (103 ∷ []) (97 ∷ []) [] (1 ∷ []) (2 ∷ []) 100

-- "01", the state that the call draws
abbrev a_state : Str
a_state = 48 ∷ 49 ∷ []

abbrev a_request : Request
a_request = record {
  method = [];
  path = [];
  remote_addr = [];
  is_tls = true;
  headers = [];
  query = (bytes "state", a_state) ∷ (bytes "code", 7 ∷ []) ∷ [];
  form = [];
  cookies = (bytes "oauth_state", a_state) ∷ [];
}

abbrev a_call : Call
a_call = record { secret = 9 ∷ []; now = 200; random = ok (2 ∷ []) }

pair_of : Result TokenPair → TokenPair
pair_of (ok pair) = pair
pair_of (err e) = record {
  access_token = [];
  refresh_plain = [];
  refresh_hash = [];
  expires_at = 0;
}
pair_of panics = record { access_token = []; refresh_plain = []; refresh_hash = []; expires_at = 0 }

a_pair : TokenPair
a_pair =
    pair_of
      (issue_session same toy_jwt a_handler.tokens (9 ∷ []) (bytes "public") (bytes "worker") []
        a_call 0).1

signs_in :
    let x = after (first_call ∷ []) (service, 0) in
    (callback same toy_jwt a_handler (103 ∷ []) a_request a_call x.0 x.1).1.1.cookies
    ≡ set_pair a_pair
unfolding a_pair pair_of callback callback_with callback_matched completed entered target_page
    is_state_of query_or_form or_default header cookie query_value form_value Map.lookup Map.insert
    Map.delete str_eq bytes begin_auth begin_found complete_auth complete_found complete_state
    state_expired exchanged link_account linked generate_state hex_encode tenant_or_public
    resolve_tenant_by_email issue_session issue persist_issued persist issue_tokens
    issue_access_token signing_key wrap issue_refresh_token access_claims
signs_in = refl

callback_bound_example :
    (cookie a_request (bytes "oauth_state") ≡ some (query_or_form a_request (bytes "state")))
    × (is_empty (query_or_form a_request (bytes "code")) ≡ false)
    × Some (BeganLately (query_or_form a_request (bytes "state")) 200) (first_call ∷ [])
callback_bound_example =
    callback_bound same toy_jwt a_handler (103 ∷ []) a_request a_call service 0 (first_call ∷ [])
      a_pair refl signs_in

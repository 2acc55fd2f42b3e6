-- ===== src/Handlers/Oauth/Bound.antt =====
-- internal/interfaces/http/handlers/oauth_handler.go: which requests a callback signs in.
use loxtu_go.Base.{
  ◌≡◌, refl, ap, inl, inr, true, false, Option, none, some, List, [], Str, bytes, str_eq_iff,
  is_empty, Bool-cases,
}
use loxtu_go.Base.Result.{Result, ok, err, panics}
use loxtu_go.Handlers.Auth.{set_pair}
use loxtu_go.Handlers.Oauth.{
  OauthHandler, is_state_of, query_or_form, completed, callback_matched, callback_with, callback,
}
use loxtu_go.Identity.Oauth.{OauthService, OauthUserInfo, complete_auth}
use loxtu_go.Identity.Oauth.Origin.{BeganLately, Some, complete_began}
use loxtu_go.Identity.Oauth.State.{after}
use loxtu_go.Identity.Oauth.State as Flow
use loxtu_go.Identity.Session.{Jwt, TokenPair, Call}
use loxtu_go.Middleware.Request.{Request, cookie}

is_state_of-some : (c : Option Str) (state : Str) → is_state_of c state ≡ true → c ≡ some state
unfolding is_state_of
is_state_of-some none state e = absurd cc
is_state_of-some (some v) state e = ap some ((str_eq_iff v state).0 e)

module _ (sha256 : Str → Str) (jwt : Jwt) {W : Type 0} (h : OauthHandler W) where
  completed-set :
      (r : Request) (call : Call) (p : W × Result (OauthUserInfo × Str)) (pair : TokenPair)
      → (completed sha256 jwt h r call p).1.cookies ≡ set_pair pair
      → (x : OauthUserInfo × Str) × (p.1 ≡ ok x)
  unfolding completed
  completed-set r call (w, err e) pair set = absurd cc
  completed-set r call (w, panics) pair set = absurd cc
  completed-set r call (w, ok x) pair set = (x, refl)

  callback_with-set :
      (provider state code : Str) (r : Request) (call : Call) (s : OauthService W) (w : W)
      (pair : TokenPair)
      → (callback_with sha256 jwt h provider state code r call s w).1.1.cookies ≡ set_pair pair
      → (cookie r (bytes "oauth_state") ≡ some state)
        × (is_empty code ≡ false)
        × ((x : OauthUserInfo × Str) × ((complete_auth s provider state code call.now w).1.1
              ≡ ok x))
  unfolding callback_with callback_matched
  callback_with-set provider state code r call s w pair e = elim (Bool-cases (is_empty code)) [
    | inl t ↦ absurd (cc (rw t at e))
    | inr f ↦ elim (Bool-cases (is_state_of (cookie r (bytes "oauth_state")) state)) [
      | inr ne ↦ absurd (cc (rw (f, ne) at e))
      | inl same ↦ (
        is_state_of-some (cookie r (bytes "oauth_state")) state same,
        f,
        completed-set r call _ pair (rw (f, same) at e),
      )
    ]
  ]

  -- A callback signs in only the browser that began the flow, and only lately. After any calls from
  -- a service that keeps no state, it sets the cookies of a session only if the cookie `oauth_state`
  -- holds the state of the request, a code comes with it, and one of the calls of `BeginAuth` drew
  -- that state, at most ten minutes before.
  pub callback_bound :
      (provider : Str) (r : Request) (call : Call) (s : OauthService W) (w : W)
      (calls : List Flow.Call) (pair : TokenPair)
      → s.states ≡ []
      → let x = after calls (s, w) in
        (callback sha256 jwt h provider r call x.0 x.1).1.1.cookies ≡ set_pair pair
        → (cookie r (bytes "oauth_state") ≡ some (query_or_form r (bytes "state")))
          × (is_empty (query_or_form r (bytes "code")) ≡ false)
          × Some (BeganLately (query_or_form r (bytes "state")) call.now) calls
  unfolding callback
  callback_bound provider r call s w calls pair none_yet e =
      let x = after calls (s, w) in
      let (same, coded, (info, done)) = callback_with-set provider _ _ r call x.0 x.1 pair e in
      (same, coded, complete_began provider _ _ call.now s w calls info none_yet done)

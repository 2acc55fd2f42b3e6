-- ===== src/Identity/Oauth/Tests.antt =====
-- An OAuth flow through a toy provider.
use loxtu_go.Base.{[], ◌∷◌, some, Str, bytes, str_eq, ◌≡◌, refl}
use loxtu_go.Base.Map
use loxtu_go.Base.Result.{ok, err}
use loxtu_go.Base.Strings.{hex_encode}
use loxtu_go.Identity.Oauth.{
  OauthService, generate_state, begin_auth, begin_found, complete_auth, complete_found,
  complete_state, state_expired, exchanged, link_account, linked,
}
use loxtu_go.Identity.Oauth.State.{Call, begin, complete, step, after, state_single_use}
use loxtu_go.Identity.Oauth.Origin.{BeganLately, Some, complete_began}
use loxtu_go.Identity.Oauth.Toy.{World, an_info, google, service}

abbrev first_call : Call
first_call = begin (103 ∷ []) (97 ∷ []) [] (1 ∷ []) (2 ∷ []) 100

a_state : Str
a_state = generate_state (1 ∷ [])

abbrev begun : OauthService World × World
begun = after (first_call ∷ []) (service, 0)

known : Map.lookup (103 ∷ []) begun.0.providers ≡ some google
unfolding Map.lookup str_eq begin_auth begin_found
known = refl

state_single_use_example :
    let x = after [] (step (complete (103 ∷ []) a_state [] 200) begun) in
    complete_auth x.0 (103 ∷ []) a_state [] 300 x.1
    ≡ (x.0, (x.1, err (bytes "invalid or expired state")))
state_single_use_example =
    state_single_use (103 ∷ []) a_state [] [] google 200 300 begun.0 begun.1 [] known tt

flow_completes :
    let x = after (first_call ∷ []) (service, 0) in
    (complete_auth x.0 (103 ∷ []) a_state [] 200 x.1).1.1 ≡ ok (an_info, 9 ∷ [])
unfolding complete_auth complete_found complete_state state_expired exchanged link_account linked
    begin_auth begin_found a_state generate_state hex_encode Map.lookup Map.insert str_eq
flow_completes = refl

complete_began_example : Some (BeganLately a_state 200) (first_call ∷ [])
complete_began_example =
    complete_began (103 ∷ []) a_state [] 200 service 0 (first_call ∷ []) (an_info, 9 ∷ []) refl
      flow_completes

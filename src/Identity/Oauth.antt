-- ===== src/Identity/Oauth.antt =====
-- internal/core/identity/oauth_service.go: the OAuth flows through an external provider. A provider
-- and the store of account links are parameters; the mutex makes each access to `states` atomic.
pub mod State
pub mod Origin
pub mod Toy
pub mod Tests
use loxtu_go.Base.{
  ℕ, ◌*◌, ◌-◌, Bool, true, false, Option, none, some, List, [], ◌∷◌, Str, bytes, ◌++◌, ltb, map,
  if◌then◌else◌,
}
use loxtu_go.Base.Clock.{minute}
use loxtu_go.Base.Map
use loxtu_go.Base.Map.{Map}
use loxtu_go.Base.Result.{Result, ok, err, panics}
use loxtu_go.Base.Strings.{hex_encode}
use loxtu_go.Identity.Ports.{UserStore}

pub record OauthToken : Type 0 where
  pub access_token : Str
  pub refresh_token : Str
  pub id_token : Str
  pub expires_in : ℕ
  pub token_type : Str

pub record OauthUserInfo : Type 0 where
  pub provider : Str
  pub provider_sub : Str
  pub email : Str
  pub name : Str
  pub verified : Bool

pub record OauthAccount : Type 0 where
  pub id : Str
  pub user_id : Str
  pub tenant_id : Str
  pub provider : Str
  pub provider_sub : Str
  pub created_at : ℕ

pub record OauthProvider : Type 0 where
  pub name : Str
  pub auth_url : Str → Str → Str
  pub exchange_code : Str → Str → Result OauthToken
  pub get_user_info : Str → Result OauthUserInfo

-- The only operation of the store that the service calls.
pub record OauthAccountStore (W : Type 0) : Type 0 where
  pub link_or_create : OauthAccount → W → W × Result Str

pub record OauthState : Type 0 where
  pub created_at : ℕ
  pub code_challenge : Str
  pub tenant_id : Str
  pub redirect_uri : Str

pub record OauthService (W : Type 0) : Type 0 where
  pub providers : Map OauthProvider
  pub accounts : OauthAccountStore W
  pub users : UserStore W
  pub pepper : Str
  pub states : Map OauthState

-- The draw of sixteen bytes; the source drops the error of `rand.Read`.
unfoldable pub generate_state : Str → Str
generate_state b = hex_encode b

unfoldable pub state_expired : ℕ → OauthState → Bool
state_expired now st = ltb (10 * minute) (now - st.created_at)

module _ {W : Type 0} where
  pub new_oauth_service : OauthAccountStore W → UserStore W → Str → OauthService W
  new_oauth_service accounts users pepper = record {
    providers = [];
    accounts = accounts;
    users = users;
    pepper = pepper;
    states = [];
  }

  pub register_provider : OauthProvider → OauthService W → OauthService W
  register_provider p s = record s { providers = Map.insert p.name p s.providers }

  -- The two draws are the state and the challenge; the result is the URL and the state.
  unfoldable pub begin_found :
      OauthService W
      → Str
      → Str
      → Str
      → Str
      → ℕ
      → OauthProvider
      → OauthService W × Result (Str × Str)
  begin_found s tenant_id redirect_uri state challenge now p = (
    record s {
      states =
          Map.insert state
            (record {
              created_at = now;
              code_challenge = challenge;
              tenant_id = tenant_id;
              redirect_uri = redirect_uri;
            })
            s.states;
    },
    ok (p.auth_url state challenge, state),
  )

  unfoldable pub begin_auth :
      OauthService W → Str → Str → Str → Str → Str → ℕ → OauthService W × Result (Str × Str)
  begin_auth s provider_name tenant_id redirect_uri first second now =
      elim (Map.lookup provider_name s.providers) [
        | none ↦ (s, err (bytes "unknown provider: " ++ provider_name))
        | some p ↦
            begin_found s tenant_id redirect_uri (generate_state first) (generate_state second) now
              p
      ]

  unfoldable pub linked : OauthUserInfo → W × Result Str → W × Result (OauthUserInfo × Str)
  linked info (w, ok user_id) = (w, ok (info, user_id))
  linked info (w, err e) = (w, err (bytes "link account: " ++ e))
  linked info (w, panics) = (w, panics)

  unfoldable pub link_account :
      OauthAccountStore W
      → Str
      → OauthState
      → W
      → Result OauthUserInfo
      → W × Result (OauthUserInfo × Str)
  link_account accounts provider_name st w (ok info) = linked info (
      accounts.link_or_create
        (record {
          id = [];
          user_id = [];
          tenant_id = st.tenant_id;
          provider = provider_name;
          provider_sub = info.provider_sub;
          created_at = 0;
        })
        w)
  link_account accounts provider_name st w (err e) = (w, err (bytes "get user info: " ++ e))
  link_account accounts provider_name st w panics = (w, panics)

  unfoldable pub exchanged :
      OauthAccountStore W
      → OauthProvider
      → Str
      → OauthState
      → W
      → Result OauthToken
      → W × Result (OauthUserInfo × Str)
  exchanged accounts p provider_name st w (ok token) =
      link_account accounts provider_name st w (p.get_user_info token.access_token)
  exchanged accounts p provider_name st w (err e) = (w, err (bytes "exchange code: " ++ e))
  exchanged accounts p provider_name st w panics = (w, panics)

  -- What follows the removal of the state.
  unfoldable pub complete_state :
      OauthAccountStore W
      → OauthProvider
      → Str
      → Str
      → ℕ
      → W
      → OauthState
      → W × Result (OauthUserInfo × Str)
  complete_state accounts p provider_name code now w st =
      if state_expired now st
      then (w, err (bytes "state expired"))
      else exchanged accounts p provider_name st w (p.exchange_code code st.code_challenge)

  unfoldable pub complete_found :
      OauthService W
      → OauthProvider
      → Str
      → Str
      → Str
      → ℕ
      → W
      → Option OauthState
      → OauthService W × (W × Result (OauthUserInfo × Str))
  complete_found s p provider_name state code now w none =
      (s, (w, err (bytes "invalid or expired state")))
  complete_found s p provider_name state code now w (some st) = (
    record s { states = Map.delete state s.states },
    complete_state s.accounts p provider_name code now w st,
  )

  unfoldable pub complete_auth :
      OauthService W → Str → Str → Str → ℕ → W → OauthService W × (W × Result (OauthUserInfo × Str))
  complete_auth s provider_name state code now w = elim (Map.lookup provider_name s.providers) [
    | none ↦ (s, (w, err (bytes "unknown provider: " ++ provider_name)))
    | some p ↦ complete_found s p provider_name state code now w (Map.lookup state s.states)
  ]

-- ===== src/Identity/Oauth/Toy.antt =====
-- A toy provider and stores, for internal/core/identity/oauth_service.go.
use loxtu_go.Base.{ℕ, [], ◌∷◌, true, some, none}
use loxtu_go.Base.Result.{ok}
use loxtu_go.Identity.Ports.{UserStore}
use loxtu_go.Identity.Oauth.{OauthProvider, OauthAccountStore, OauthService, OauthUserInfo}

abbrev pub World : Type 0
World = ℕ

abbrev pub an_info : OauthUserInfo
an_info = record { provider = []; provider_sub = 5 ∷ []; email = []; name = []; verified = true }

abbrev pub google : OauthProvider
google = record {
  name = 103 ∷ [];
  auth_url = λ state challenge. state;
  exchange_code = λ code challenge. ok (record {
    access_token = code;
    refresh_token = [];
    id_token = [];
    expires_in = 60;
    token_type = [];
  });
  get_user_info = λ token. ok an_info;
}

abbrev pub accounts : OauthAccountStore World
accounts = record { link_or_create = λ a w. (w, ok (9 ∷ [])) }

abbrev pub users : UserStore World
users = record {
  create = λ u w. (w, some u);
  find_by_user_id = λ id w. none;
  find_by_email_hash = λ h w. none;
  find_by_user_id_hash = λ h w. none;
  update = λ u w. (w, true);
  erase = λ id w. (w, true);
}

abbrev pub service : OauthService World
service = record {
  providers = (103 ∷ [], google) ∷ [];
  accounts = accounts;
  users = users;
  pepper = [];
  states = [];
}

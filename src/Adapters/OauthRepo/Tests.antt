-- ===== src/Adapters/OauthRepo/Tests.antt =====
-- A table of links in memory, and a login through a toy provider over it.
use loxtu_go.Base.{
  Bool, true, Option, none, some, List, [], ◌∷◌, Str, bytes, str_eq, ◌≡◌, inl, inr, refl, ◌&&◌,
  if◌then◌else◌, Bool-cases,
}
use loxtu_go.Base.Map
use loxtu_go.Base.Map.{Map}
use loxtu_go.Base.Result.{ok}
use loxtu_go.Adapters.Rows.{Cell, Row, text_of, first_map}
use loxtu_go.Adapters.OauthRepo.{
  OauthTable, TimeText, account_of, created, find_by_provider, link_unless, link_or_create,
  oauth_repo,
}
use loxtu_go.Adapters.OauthRepo.Nobody.{IsAppending, NamesNobody, complete_auth-NamesNobody}
use loxtu_go.Identity.Oauth.{
  OauthService, OauthUserInfo, complete_auth, complete_found, complete_state, state_expired,
  exchanged, link_account, linked,
}
use loxtu_go.Identity.Oauth.Toy.{an_info, google}

-- The rows are the parameters of the statements that created them.
is_link : Str → Str → Map Cell → Bool
is_link provider sub vars =
    str_eq (text_of (Map.lookup (bytes "prov") vars)) provider
    && str_eq (text_of (Map.lookup (bytes "sub") vars)) sub

abbrev named : Option Cell → Map Cell
named none = []
named (some user) = (bytes "user_id", user) ∷ []

user_of_named : (o : Option Cell) → Map.lookup (bytes "user_id") (named o) ≡ o
unfolding Map.lookup bytes str_eq
user_of_named none = refl
user_of_named (some user) = refl

first_link : Str → Str → List (Map Cell) → List Row
first_link provider sub [] = []
first_link provider sub (vars ∷ rows) =
    let rest = first_link provider sub rows in
    if is_link provider sub vars then some (named (Map.lookup (bytes "uid") vars)) ∷ [] else rest

abbrev links : OauthTable (List (Map Cell))
links = record {
  select_link = λ provider sub w. some (first_link provider sub w);
  select_links = λ user_id w. none;
  create_link = λ vars w. (vars ∷ w, none);
  delete_link = λ user_id provider w. (w, none);
}

links-IsAppending : IsAppending links
unfolding first_link
links-IsAppending vars provider sub w = elim (Bool-cases (is_link provider sub vars)) [
  | inl t ↦ inl (
    named (Map.lookup (bytes "uid") vars),
    rw t refl,
    user_of_named (Map.lookup (bytes "uid") vars),
  )
  | inr f ↦ inr (rw f refl)
]

abbrev times : TimeText
times = record { parse = λ s. none; format = λ n. [] }

abbrev a_service : OauthService (List (Map Cell))
a_service = record {
  providers = (103 ∷ [], google) ∷ [];
  accounts = oauth_repo times 100 links;
  users = record {
    create = λ u w. (w, some u);
    find_by_user_id = λ id w. none;
    find_by_email_hash = λ h w. none;
    find_by_user_id_hash = λ h w. none;
    update = λ u w. (w, true);
    erase = λ id w. (w, true);
  };
  pepper = [];
  states =
      (8 ∷ [], record { created_at = 90; code_challenge = []; tenant_id = []; redirect_uri = [] })
      ∷ [];
}

nobody_yet : NamesNobody times 100 links links-IsAppending []
unfolding find_by_provider account_of first_map first_link
nobody_yet provider sub a e = absurd cc

login_succeeds : (complete_auth a_service (103 ∷ []) (8 ∷ []) [] 100 []).1.1 ≡ ok (an_info, [])
unfolding complete_auth complete_found complete_state state_expired exchanged link_account linked
    link_or_create link_unless created find_by_provider account_of first_map first_link is_link
    text_of Map.lookup str_eq bytes
login_succeeds = refl

complete_auth-NamesNobody_example :
    let p = (complete_auth a_service (103 ∷ []) (8 ∷ []) [] 100 []).1 in
    ((info : OauthUserInfo) (user_id : Str) → p.1 ≡ ok (info, user_id) → user_id ≡ [])
    × NamesNobody times 100 links links-IsAppending p.0
complete_auth-NamesNobody_example =
    complete_auth-NamesNobody times 100 links links-IsAppending a_service (103 ∷ []) (8 ∷ []) [] 100
      [] refl nobody_yet

-- ===== src/Identity/OauthManager/Tests.antt =====
-- Two logins of one address over a store of one user.
use loxtu_go.Base.{
  true, Option, none, some, [], ◌∷◌, Str, bytes, str_eq, str_eq_refl, ◌≡◌, ◌≢◌, refl, if◌then◌else◌,
}
use loxtu_go.Base.Result.{ok}
use loxtu_go.Base.Strings.{hex_encode}
use loxtu_go.Identity.Hash.{email_hash, hash_token}
use loxtu_go.Identity.Ports.{UserStore}
use loxtu_go.Identity.Session.{
  TokenPair, Call, access_token_ttl, access_claims, token_pair, issue_tokens, issue_access_token,
  signing_key, wrap, issue_refresh_token,
}
use loxtu_go.Identity.Session.Codec.{toy_jwt, put, encode}
use loxtu_go.Identity.Token.{or_default}
use loxtu_go.Identity.User.{User}
use loxtu_go.Identity.OauthManager.{
  ExternalIdentity, new_user, created, found_or_created, issued, issue_for_user, link_resolved,
  link_and_issue,
}
use loxtu_go.Identity.OauthManager.Laws.{KeepsCreated}

abbrev if_named : Str → Option User → Option User
if_named h none = none
if_named h (some u) = if str_eq u.email_hash h then some u else none

abbrev users : UserStore (Option User)
users = record {
  create = λ u w. (some u, some u);
  find_by_user_id = λ id w. w;
  find_by_email_hash = if_named;
  find_by_user_id_hash = λ h w. w;
  update = λ u w. (some u, true);
  erase = λ id w. (none, true);
}

some-injective : {a b : User} → some a ≡ some b → a ≡ b
some-injective e = cc

users-KeepsCreated : KeepsCreated users
users-KeepsCreated u stored w e = rw (← some-injective e, str_eq_refl u.email_hash) refl

abbrev toy_hash : Str → Str
toy_hash s = s

abbrev an_identity : ExternalIdentity
an_identity = record {
  provider = bytes "google";
  subject = [];
  email = 97 ∷ 64 ∷ 98 ∷ [];
  name = [];
  tenant_hint = [];
  groups = [];
}

abbrev first_call : Call
first_call = record { secret = 9 ∷ []; now = 100; random = ok (2 ∷ []) }

abbrev second_call : Call
second_call = record { secret = 9 ∷ []; now = 200; random = ok (3 ∷ []) }

secret_set : second_call.secret ≢ []
secret_set e = cc

abbrev a_hash : Str
a_hash = email_hash toy_hash an_identity.email

abbrev public : Str
public = or_default (bytes "public") []

abbrev worker : Str
worker = or_default (bytes "worker") []

abbrev a_user : User
a_user = new_user a_hash public worker 100

abbrev a_pair : TokenPair
a_pair =
    token_pair 100
      (1
        ∷ put (9 ∷ [])
            (encode (access_claims toy_hash a_user.user_id public worker [] access_token_ttl 100)))
      (hex_encode (2 ∷ []), hash_token toy_hash (hex_encode (2 ∷ [])))

first_ok :
    (link_and_issue toy_hash toy_jwt users [] an_identity [] first_call none).1
    ≡ ok (a_pair, a_user)
unfolding link_and_issue link_resolved found_or_created created issue_for_user issued issue_tokens
    issue_access_token signing_key wrap issue_refresh_token hash_token
first_ok = refl

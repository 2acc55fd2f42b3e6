-- ===== src/Handlers/Passkey/Tests.antt =====
-- internal/interfaces/http/handlers/passkey_handler.go with a toy WebAuthn library.
use loxtu_go.Base.{ℕ, true, none, some, [], ◌∷◌, Str, bytes, str_eq, ◌≡◌, ◌↔◌, refl, leb, length}
use loxtu_go.Base.Map
use loxtu_go.Base.Result.{Result, ok, err, panics}
use loxtu_go.Base.Strings.{hex_encode}
use loxtu_go.Handlers.Auth.{Post, set_pair}
use loxtu_go.Handlers.Passkey.{
  PasskeyHandler, entered, session_for, entered_with, note, registration_finished,
  finish_registration_page, skip,
}
use loxtu_go.Handlers.Passkey.Entry.{registration_session, skip_opens_session}
use loxtu_go.Identity.Hash.{sha256_hex}
use loxtu_go.Identity.Passkey.{CeremonySession, save_credential}
use loxtu_go.Identity.Passkey.Ceremony.{
  resolve_user_by_hash, finish_registration, finish_taken, create_for, registered, registering_user,
  take_session,
}
use loxtu_go.Identity.Passkey.Toy.{same, toy, service}
use loxtu_go.Identity.Session.{
  TokenPair, Call, signing_key, wrap, access_claims, issue_access_token, issue_refresh_token,
  issue_tokens,
}
use loxtu_go.Identity.Session.Codec.{toy_jwt}
use loxtu_go.Identity.Token.{or_default, issue, persist, persist_issued, issue_session}
use loxtu_go.Middleware.Request.{header, form_value}

abbrev a_handler : PasskeyHandler ℕ
a_handler = record {
  tokens = record { users = none; sessions = none; access_ttl = 900 };
  resolve_by_domain = none;
  audit = none;
}

abbrev a_post : Post
a_post = record {
  request = record {
    method = [];
    path = [];
    remote_addr = [];
    is_tls = true;
    headers = (bytes "X-WebAuthn-Challenge", 5 ∷ []) ∷ [];
    query = [];
    form = (bytes "user_id_hash", 1 ∷ 2 ∷ 3 ∷ 4 ∷ 5 ∷ 6 ∷ 7 ∷ 8 ∷ []) ∷ [];
    cookies = [];
  };
  is_parsed = true;
  code_values = [];
  client_ip = [];
  req_id = [];
}

abbrev a_call : Call
a_call = record { secret = 9 ∷ []; now = 200; random = ok (2 ∷ []) }

pair_of : Result TokenPair → TokenPair
pair_of (ok pair) = pair
pair_of (err e) = record {
  access_token = [];
  refresh_plain = [];
  refresh_hash = [];
  expires_at = 0;
}
pair_of panics = record { access_token = []; refresh_plain = []; refresh_hash = []; expires_at = 0 }

a_pair : TokenPair
a_pair = pair_of (session_for same toy_jwt a_handler (1 ∷ []) (9 ∷ []) a_call 0).1

registers :
    (finish_registration_page same same toy_jwt toy ℕ a_handler
      (λ p. [])
      a_post
      (some tt)
      a_call
      service
      0).1.1.cookies
    ≡ set_pair a_pair
unfolding a_pair pair_of finish_registration_page registration_finished entered_with entered
    session_for note or_default header form_value Map.lookup Map.delete str_eq bytes
    finish_registration finish_taken create_for registered registering_user take_session
    save_credential issue_session issue persist_issued persist issue_tokens issue_access_token
    signing_key wrap issue_refresh_token access_claims sha256_hex hex_encode
registers = refl

registration_session_example :
    (cs : CeremonySession Str) × (Map.lookup
        (or_default [] (header a_post.request (bytes "X-WebAuthn-Challenge")))
        service.sessions
      ≡ some cs)
    × ((w : ℕ) × ((session_for same toy_jwt a_handler cs.user_id cs.tenant_id a_call w).1
          ≡ ok a_pair))
registration_session_example =
    registration_session same same toy_jwt toy ℕ a_handler (λ p. []) a_post tt a_call service 0
      a_pair refl registers

skip_opens_session_example :
    ((skip same same toy_jwt toy ℕ a_handler a_post [] a_call service 0).1.cookies
      ≡ set_pair a_pair)
    ↔ ((a_post.is_parsed ≡ true)
        × (leb 8 (length (form_value a_post.request (bytes "user_id_hash"))) ≡ true)
        × ((user_id : Str) × (resolve_user_by_hash same same toy ℕ service
                (form_value a_post.request (bytes "user_id_hash"))
                0
              ≡ ok user_id)
            × ((session_for same toy_jwt a_handler user_id [] a_call 0).1 ≡ ok a_pair)))
skip_opens_session_example =
    skip_opens_session same same toy_jwt toy ℕ a_handler a_post [] a_call service 0 a_pair

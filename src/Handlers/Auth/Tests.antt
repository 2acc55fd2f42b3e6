-- ===== src/Handlers/Auth/Tests.antt =====
-- internal/interfaces/http/handlers/auth_handler.go on concrete requests.
use loxtu_go.Base.{
  ℕ, ◌≡◌, ◌↔◌, ◌≤◌, ◌<◌, refl, inl, true, false, Option, none, some, List, [], ◌∷◌, Str, bytes,
  str_eq, arith, replicate, length, leb,
}
use loxtu_go.Base.Map
use loxtu_go.Base.Map.{Map}
use loxtu_go.Base.Result.{ok}
use loxtu_go.Base.Strings.{trim_space, trim_left, trim_right, hex_encode}
use loxtu_go.Identity.User.{User}
use loxtu_go.Adapters.Audit.{SecurityEvent}
use loxtu_go.Adapters.RateLimit.{MemoryRateLimiter, allow, get_or_create, roll_window}
use loxtu_go.Handlers.Auth.{
  AuthHandler, Server, Post, Answer, otp_form, consent_form, set_pair, unauthorized, show, limited,
  log_security,
}
use loxtu_go.Handlers.Auth.Consent.{passkey_presence, is_filled_in, consent_accept}
use loxtu_go.Handlers.Auth.Consent.Presence.{IsEnrolled, noted, opened, consent_opens_session}
use loxtu_go.Handlers.Auth.Send.{
  is_delivered, known, find_or_create, sent_to, send_to, send_allowed, send_email, send_form,
  send_otp,
}
use loxtu_go.Handlers.Auth.Session.{refresh, logout}
use loxtu_go.Handlers.Auth.Session.Replay.{with_session_store, logout-refresh}
use loxtu_go.Handlers.Auth.SignIn.{send-verify}
use loxtu_go.Handlers.Auth.Verify.{
  join, refuse, judge, verify_allowed, verify_code, verify_form, verify_otp,
}
use loxtu_go.Handlers.Auth.Verify.Budget.{
  sends, checks, Action, act, told_wrong, all_refused, guess_budget,
}
use loxtu_go.Handlers.Auth.Verify.Guards.{consent_needs_code}
use loxtu_go.Identity.Hash.{sha256_hex, hash_token}
use loxtu_go.Identity.Otp.{
  OtpRecord, code_from, generate_code, deliver, send_code, send, compare_code, verify_record,
  verify, max_attempts,
}
use loxtu_go.Identity.Otp.Memory as Codes
use loxtu_go.Identity.Ports.{CredentialStore}
use loxtu_go.Identity.RateLimit.{rate_key_otp_fail, policy_otp}
use loxtu_go.Identity.Session.{AccessClaims, Call, TokenPair, Session, access_token_ttl}
use loxtu_go.Identity.Session.Codec.{toy_jwt}
use loxtu_go.Identity.Token.Memory.{
  Sessions, memory, find-create_memory, memory-IsReliable, a_user, directory,
}
use loxtu_go.Identity.Token.Laws.{with_sessions}
use loxtu_go.Middleware.Request.{Request, form_value, cookie}

abbrev toy_hash : Str → Str
toy_hash s = s

abbrev a_handler : AuthHandler Sessions
a_handler = record {
  otp = record { has_sender = false; has_store = true };
  tokens = with_sessions (some directory) memory access_token_ttl;
  users = directory;
  resolve_by_domain = none;
  audit = none;
  passkeys = some (λ tenant_id hash w. true);
  pepper = [];
}

abbrev a_hash : Str
a_hash = replicate 8 49

-- Every field that a handler reads.
abbrev a_request : Request
a_request = record {
  method = [];
  path = [];
  remote_addr = [];
  is_tls = true;
  headers = [];
  query = [];
  form =
      (bytes "email", 97 ∷ 64 ∷ 98 ∷ [])
      ∷ (bytes "user_id_hash", a_hash)
      ∷ (bytes "gdpr", 49 ∷ [])
      ∷ (bytes "nis2", 49 ∷ [])
      ∷ (bytes "soc2", 49 ∷ [])
      ∷ [];
  cookies = (bytes "loxtu_access", 1 ∷ []) ∷ (bytes "loxtu_refresh", 2 ∷ []) ∷ [];
}

abbrev post_with : List Str → Post
post_with codes = record {
  request = a_request;
  is_parsed = true;
  code_values = codes;
  client_ip = [];
  req_id = [];
}

abbrev the_code : Str
the_code = replicate 6 49

abbrev a_call : Call
a_call = record { secret = 9 ∷ []; now = 100; random = ok (2 ∷ []) }

abbrev empty_limiter : MemoryRateLimiter
empty_limiter = record { entries = [] }

abbrev start : Server (Map OtpRecord) Sessions
start = record { codes = []; world = λ h. none; limiter = some empty_limiter }

abbrev draw : ℕ → Option ℕ
draw i = some 1

after_send : Server (Map OtpRecord) Sessions × Answer
after_send = send_otp toy_hash Codes.memory a_handler (post_with []) draw 50 true start

shown : after_send.1.page ≡ otp_form (97 ∷ 64 ∷ 98 ∷ []) a_hash
unfolding after_send send_otp send_form send_email send_allowed send_to sent_to find_or_create known
    is_delivered limited allow get_or_create roll_window form_value Map.lookup str_eq bytes
    trim_space trim_left trim_right send generate_code code_from send_code deliver
shown = refl

typed : Post
typed = post_with (the_code ∷ [])

drawn : generate_code draw ≡ some the_code
unfolding generate_code code_from
drawn = refl

typed_code : trim_space (join typed.code_values) ≡ the_code
unfolding typed join trim_space trim_left trim_right
typed_code = refl

typed_hash : form_value typed.request (bytes "user_id_hash") ≡ a_hash
unfolding typed form_value Map.lookup str_eq bytes
typed_hash = refl

permitted : (limited after_send.0.limiter (rate_key_otp_fail a_hash) 100).1 ≡ true
unfolding after_send send_otp send_form send_email send_allowed send_to sent_to find_or_create known
    is_delivered limited allow get_or_create roll_window form_value Map.lookup Map.insert str_eq
    bytes trim_space trim_left trim_right send generate_code code_from send_code deliver
permitted = refl

send-verify_example :
    (verify_otp toy_hash toy_jwt Codes.memory a_handler typed a_call after_send.0).1.page
    ≡ consent_form a_hash
unfolding after_send typed
send-verify_example =
    send-verify toy_hash toy_jwt Codes.memory Codes.memory-IsReliable a_handler (post_with []) typed
      (97 ∷ 64 ∷ 98 ∷ []) a_hash the_code draw 50 true a_call a_user start refl shown drawn
      (omega arith) refl typed_hash typed_code (λ e. cc) (λ e. cc) permitted refl (λ e. cc)

consents :
    (verify_otp toy_hash toy_jwt Codes.memory a_handler typed a_call after_send.0).1.page
    ≡ consent_form a_hash
unfolding after_send typed
consents =
    send-verify toy_hash toy_jwt Codes.memory Codes.memory-IsReliable a_handler (post_with []) typed
      (97 ∷ 64 ∷ 98 ∷ []) a_hash the_code draw 50 true a_call a_user start refl shown drawn
      (omega arith) refl typed_hash typed_code (λ e. cc) (λ e. cc) permitted refl (λ e. cc)

consent_needs_code_example :
    (form_value typed.request (bytes "user_id_hash") ≡ a_hash)
    × ((r : OtpRecord) × (Codes.memory.get a_hash after_send.0.codes ≡ some r)
        × (100 ≤ r.expires_at)
        × (r.attempts < max_attempts)
        × (r.code_hash ≡ sha256_hex toy_hash (trim_space (join typed.code_values))))
consent_needs_code_example =
    consent_needs_code toy_hash toy_jwt Codes.memory a_handler typed a_hash a_call after_send.0
      consents

abbrev guesses : List Action
guesses =
    sends (post_with []) draw 50 true
    ∷ checks (post_with ((50 ∷ []) ∷ [])) a_call
    ∷ checks (post_with ((51 ∷ []) ∷ [])) a_call
    ∷ []

all_wrong : all_refused toy_hash toy_jwt Codes.memory a_handler a_hash guesses start ≡ true
unfolding all_refused act send_otp send_form send_email send_allowed send_to sent_to find_or_create
    known is_delivered limited allow get_or_create roll_window form_value Map.lookup Map.insert
    Map.delete str_eq bytes trim_space trim_left trim_right send generate_code code_from send_code
    deliver join verify_otp verify_form verify_code verify_allowed judge refuse verify verify_record
    compare_code sha256_hex hex_encode
all_wrong = refl

no_count : Map.lookup (rate_key_otp_fail a_hash) empty_limiter.entries ≡ none
unfolding Map.lookup
no_count = refl

guess_budget_example :
    told_wrong toy_hash toy_jwt Codes.memory a_handler a_hash guesses start
    ≤ policy_otp.max_attempts
guess_budget_example =
    guess_budget toy_hash toy_jwt Codes.memory a_handler a_hash 50 empty_limiter guesses start refl
      (inl no_count)
      ((omega arith, omega arith), ((omega arith, omega arith), ((omega arith, omega arith), tt)))
      all_wrong

abbrev a_pair : TokenPair
a_pair = record {
  access_token = 1 ∷ [];
  refresh_plain = 2 ∷ [];
  refresh_hash = 3 ∷ [];
  expires_at = 4;
}

abbrev no_creds : CredentialStore Sessions
no_creds = record {
  save_user = λ user_id handle tenant_id w. (w, true);
  save_credential = λ c w. (w, true);
  find_credentials_by_user_id = λ user_id w. none;
  find_credential_by_kid = λ kid w. none;
  find_user_by_handle = λ handle w. none;
  find_handle_by_user_id = λ user_id w. none;
  update_sign_count = λ user_id kid count w. (w, true);
}

-- The handler as the server wires it.
abbrev wired_handler : AuthHandler Sessions
wired_handler = record a_handler {
  passkeys = some (passkey_presence toy_hash [] directory no_creds);
}

consent_opens_session_example :
    ((consent_accept toy_hash toy_jwt wired_handler typed a_call start).1.cookies ≡ set_pair a_pair)
    ↔ ((is_filled_in typed.request ≡ true)
        × ((u : User) × (directory.find_by_user_id_hash
                (form_value typed.request (bytes "user_id_hash"))
                start.world
              ≡ some u)
            × (leb 8 (length (form_value typed.request (bytes "user_id_hash"))) ≡ true)
            × IsEnrolled toy_hash [] directory no_creds
                (form_value typed.request (bytes "user_id_hash"))
                (noted toy_hash toy_jwt wired_handler typed u start)
            × (opened toy_hash toy_jwt wired_handler typed u a_call start ≡ ok a_pair)))
consent_opens_session_example =
    consent_opens_session toy_hash toy_jwt wired_handler [] no_creds typed a_call start a_pair refl

abbrev a_session : Session
a_session = record {
  user_id = 1 ∷ [];
  token_hash = hash_token toy_hash (2 ∷ []);
  expires_at = 0;
  created_at = 0;
}

abbrev signed_in : Server (Map OtpRecord) Sessions
signed_in = record start { world = (memory.create a_session (λ h. none)).0 }

abbrev some_claims : AccessClaims
some_claims = record {
  issuer = [];
  subject = a_hash;
  issued_at = 0;
  expires_at = 0;
  user_id_hash = a_hash;
  tenant_id = [];
  role = [];
  permissions = [];
}

access_cookie : cookie a_request (bytes "loxtu_access") ≡ some (1 ∷ [])
unfolding cookie Map.lookup str_eq bytes
access_cookie = refl

refresh_cookie : cookie a_request (bytes "loxtu_refresh") ≡ some (2 ∷ [])
unfolding cookie Map.lookup str_eq bytes
refresh_cookie = refl

audit_apart :
    (e : SecurityEvent) (hash : Str) (w : Sessions)
    → memory.find_by_token_hash hash (log_security a_handler.audit e w)
      ≡ memory.find_by_token_hash hash w
unfolding log_security
audit_apart e hash w = refl

logout-refresh_example :
    let after =
      (logout
        (with_session_store (some directory) memory access_token_ttl a_handler)
        (λ raw. some some_claims)
        (post_with [])
        signed_in).0 in
    refresh toy_hash toy_jwt
      (with_session_store (some directory) memory access_token_ttl a_handler)
      (post_with [])
      a_call
      after
    ≡ (after, show unauthorized)
logout-refresh_example =
    logout-refresh toy_hash toy_jwt (some directory) memory memory-IsReliable access_token_ttl
      a_handler (λ raw. some some_claims) (post_with []) (post_with []) (1 ∷ []) (2 ∷ [])
      some_claims a_user a_session a_call signed_in audit_apart access_cookie refl (λ e. cc) refl
      refl (λ e. cc) refresh_cookie (find-create_memory a_session (λ h. none)) refl

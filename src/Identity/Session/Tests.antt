-- ===== src/Identity/Session/Tests.antt =====
-- Access tokens of a toy JWT library.
use loxtu_go.Base.{◌*◌, [], ◌∷◌, Str, bytes, ◌≡◌, ◌≢◌}
use loxtu_go.Base.Clock.{second}
use loxtu_go.Base.Result.{ok}
use loxtu_go.Identity.Session.{Call, issue_access_token, validate_access_token, access_token_ttl}
use loxtu_go.Identity.Session.Codec.{toy_jwt, toy_jwt-IsJwt}
use loxtu_go.Identity.Session.Laws.{accepted, in_time, claims_of, issue-validate}

abbrev toy_hash : Str → Str
toy_hash s = 7 ∷ s

abbrev a_call : Call
a_call = record { secret = 9 ∷ []; now = 100 * second; random = ok (1 ∷ 2 ∷ []) }

secret_set : a_call.secret ≢ []
secret_set e = cc

issue-validate_example :
    (raw : Str) × (issue_access_token toy_hash toy_jwt
        (bytes "u")
        (bytes "acme")
        (bytes "admin")
        []
        access_token_ttl
        a_call
      ≡ ok raw)
    × (accepted (validate_access_token toy_jwt a_call.secret (999 * second) raw)
        ≡ in_time (999 * second) (
            claims_of toy_hash
              (bytes "u")
              (bytes "acme")
              (bytes "admin")
              []
              access_token_ttl
              a_call.now))
issue-validate_example =
    issue-validate toy_hash toy_jwt toy_jwt-IsJwt (bytes "u") (bytes "acme") (bytes "admin") []
      access_token_ttl (999 * second) a_call secret_set

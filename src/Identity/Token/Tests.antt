-- ===== src/Identity/Token/Tests.antt =====
-- The token service over stores in memory: a session store is the function from hashes to sessions.
use loxtu_go.Base.{none, some, [], ◌∷◌, Str, bytes, ◌≡◌, ◌≢◌, refl}
use loxtu_go.Base.Result.{ok, err}
use loxtu_go.Base.Strings.{hex_encode}
use loxtu_go.Identity.Hash.{hash_token}
use loxtu_go.Identity.Session.{Session, Call, access_token_ttl}
use loxtu_go.Identity.Session.Codec.{toy_jwt}
use loxtu_go.Identity.Token.{rotate}
use loxtu_go.Identity.Token.Memory.{
  Sessions, memory, find-create_memory, memory-IsReliable, directory,
}
use loxtu_go.Identity.Token.Laws.{with_sessions, rotate-rotate}

abbrev toy_hash : Str → Str
toy_hash s = s

abbrev old_plain : Str
old_plain = hex_encode (1 ∷ [])

abbrev a_session : Session
a_session = record {
  user_id = 1 ∷ [];
  token_hash = hash_token toy_hash old_plain;
  expires_at = 0;
  created_at = 0;
}

abbrev at_first : Sessions
at_first = (memory.create a_session (λ h. none)).0

abbrev first_call : Call
first_call = record { secret = 9 ∷ []; now = 100; random = ok (2 ∷ []) }

abbrev second_call : Call
second_call = record { secret = 9 ∷ []; now = 200; random = ok (3 ∷ []) }

secret_set : first_call.secret ≢ []
secret_set e = cc

at_first_found : memory.find_by_token_hash (hash_token toy_hash old_plain) at_first ≡ some a_session
at_first_found = find-create_memory a_session (λ h. none)

fresh_hash : hash_token toy_hash old_plain ≢ hash_token toy_hash (hex_encode (2 ∷ []))
unfolding hash_token hex_encode
fresh_hash e = cc

rotate-rotate_example :
    let after =
      (rotate toy_hash toy_jwt
        (with_sessions (some directory) memory access_token_ttl)
        old_plain
        first_call
        at_first).0 in
    rotate toy_hash toy_jwt
      (with_sessions (some directory) memory access_token_ttl)
      old_plain
      second_call
      after
    ≡ (after, err (bytes "session not found"))
rotate-rotate_example =
    rotate-rotate toy_hash toy_jwt (some directory) memory memory-IsReliable access_token_ttl
      old_plain a_session first_call second_call (2 ∷ []) at_first at_first_found refl refl
      fresh_hash

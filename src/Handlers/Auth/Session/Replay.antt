-- ===== src/Handlers/Auth/Session/Replay.antt =====
-- internal/interfaces/http/handlers/auth_handler.go: refresh tokens that have been used or logged
-- out. The session store holds their hashes.
use loxtu_go.Base.{
  ℕ, ◌≡◌, ◌≢◌, refl, ap, ◌∙◌, Bool, true, false, Option, none, some, Str, bytes, [], ◌∷◌,
}
use loxtu_go.Base.Result.{Result, ok, err}
use loxtu_go.Base.Strings.{hex_encode}
use loxtu_go.Adapters.Audit.{SecurityEvent}
use loxtu_go.Handlers.Auth.{AuthHandler, Server, Post, unauthorized, show, log_security}
use loxtu_go.Handlers.Auth.Session.{
  id_or_empty, named_by, claims_of, refreshed, rotated, refresh_with, refresh, revoked, revoke_for,
  raw_id, logout,
}
use loxtu_go.Identity.Hash.{hash_token}
use loxtu_go.Identity.Ports.{UserStore, SessionStore, IsReliable}
use loxtu_go.Identity.Session.{Jwt, AccessClaims, Session, TokenPair, Call}
use loxtu_go.Identity.Token.{rotate}
use loxtu_go.Identity.Token.Laws.{with_sessions, rotate-IsGone, rotate-of_IsGone, revoke_all-IsGone}
use loxtu_go.Identity.User.{User}
use loxtu_go.Middleware.Request.{cookie}

-- The handler over a session store.
abbrev pub with_session_store :
    {W : Type 0} → Option (UserStore W) → SessionStore W → ℕ → AuthHandler W → AuthHandler W
with_session_store users sessions ttl h = record h { tokens = with_sessions users sessions ttl }

module _ (sha256 : Str → Str) (jwt : Jwt) {W : Type 0} (users : Option (UserStore W))
    (sessions : SessionStore W) (reliable : IsReliable sessions) (ttl : ℕ) (h : AuthHandler W) where
  revoked-gone :
      (post : Post) (key tenant_id hash : Str) (p : W × Bool)
      → ((e : SecurityEvent) (w : W)
          → sessions.find_by_token_hash hash (log_security h.audit e w)
            ≡ sessions.find_by_token_hash hash w)
      → sessions.find_by_token_hash hash p.0 ≡ none
      → sessions.find_by_token_hash hash
          (revoked (with_session_store users sessions ttl h) post key tenant_id p)
        ≡ none
  unfolding revoked
  revoked-gone post key tenant_id hash (w, true) apart gone = apart _ w ∙ gone
  revoked-gone post key tenant_id hash (w, false) apart gone = gone

  revoke_for-gone :
      (post : Post) (key tenant_id user_id hash : Str) (row : Session) (w : W)
      → ((e : SecurityEvent) (w : W)
          → sessions.find_by_token_hash hash (log_security h.audit e w)
            ≡ sessions.find_by_token_hash hash w)
      → user_id ≢ []
      → row.user_id ≡ user_id
      → sessions.find_by_token_hash hash w ≡ some row
      → (sessions.revoke_by_user_id user_id w).1 ≡ true
      → sessions.find_by_token_hash hash
          (revoke_for (with_session_store users sessions ttl h) post key tenant_id user_id w)
        ≡ none
  unfolding revoke_for
  revoke_for-gone post key tenant_id [] hash row w apart known own stored done = absurd (known refl)
  revoke_for-gone post key tenant_id (c ∷ cs) hash row w apart known own stored done =
      revoked-gone post key tenant_id hash _ apart (
        rw (← own) (
          revoke_all-IsGone sha256 jwt users sessions reliable ttl hash row w stored (rw own done)))

  raw_id_found :
      (key : Str) (u : User) (w : W)
      → key ≢ []
      → h.users.find_by_user_id_hash key w ≡ some u
      → raw_id (with_session_store users sessions ttl h) key w ≡ u.user_id
  unfolding raw_id id_or_empty
  raw_id_found [] u w ne found = absurd (ne refl)
  raw_id_found (c ∷ cs) u w ne found = rw found refl

module _ (sha256 : Str → Str) (jwt : Jwt) {S W : Type 0} (users : Option (UserStore W))
    (sessions : SessionStore W) (reliable : IsReliable sessions) (ttl : ℕ) (h : AuthHandler W) where
  refresh_plain :
      (post : Post) (plain : Str) (call : Call) (s : Server S W)
      → cookie post.request (bytes "loxtu_refresh") ≡ some plain
      → refresh sha256 jwt (with_session_store users sessions ttl h) post call s
        ≡ rotated sha256 jwt
            (with_session_store users sessions ttl h)
            s
            (rotate sha256 jwt (with_sessions users sessions ttl) plain call s.world)
  unfolding refresh refresh_with
  refresh_plain post plain call s e = rw e refl

  refused :
      (s : Server S W) (w : W) (p : W × Result TokenPair) (t : Str)
      → p ≡ (w, err t)
      → rotated sha256 jwt (with_session_store users sessions ttl h) s p
        ≡ (record s { world = w }, show unauthorized)
  unfolding rotated refreshed
  refused s w p t e = rw e refl

  refresh-world :
      (post : Post) (plain : Str) (call : Call) (s : Server S W)
      → cookie post.request (bytes "loxtu_refresh") ≡ some plain
      → (refresh sha256 jwt (with_session_store users sessions ttl h) post call s).0.world
        ≡ (rotate sha256 jwt (with_sessions users sessions ttl) plain call s.world).0
  unfolding rotated
  refresh-world post plain call s e = ap (λ r. r.0.world) (refresh_plain post plain call s e)

  -- The answer to a refresh token whose session is gone.
  refresh_gone :
      (post : Post) (plain : Str) (call : Call) (s : Server S W)
      → cookie post.request (bytes "loxtu_refresh") ≡ some plain
      → sessions.find_by_token_hash (hash_token sha256 plain) s.world ≡ none
      → refresh sha256 jwt (with_session_store users sessions ttl h) post call s
        ≡ (s, show unauthorized)
  refresh_gone post plain call s e gone =
      refresh_plain post plain call s e
      ∙ refused s s.world _ _
          (rotate-of_IsGone sha256 jwt users sessions reliable ttl plain call s.world gone)

  -- A refresh cookie is used once: after a refresh with a cookie that has a session, and whose
  -- revocation succeeded, the same cookie
  -- is answered 401 and changes nothing, unless the fresh token that was drawn has the same hash.
  pub refresh-refresh :
      (post : Post) (plain : Str) (row : Session) (call later : Call) (b : Str) (s : Server S W)
      → cookie post.request (bytes "loxtu_refresh") ≡ some plain
      → sessions.find_by_token_hash (hash_token sha256 plain) s.world ≡ some row
      → (sessions.revoke_by_user_id row.user_id s.world).1 ≡ true
      → call.random ≡ ok b
      → hash_token sha256 plain ≢ hash_token sha256 (hex_encode b)
      → let after = (refresh sha256 jwt (with_session_store users sessions ttl h) post call s).0 in
        refresh sha256 jwt (with_session_store users sessions ttl h) post later after
        ≡ (after, show unauthorized)
  refresh-refresh post plain row call later b s e found revoked_it drawn ne =
      refresh_gone post plain later _ e (
        rw (refresh-world post plain call s e) (
          rotate-IsGone sha256 jwt users sessions reliable ttl plain row call b s.world found
            revoked_it drawn ne))

  logout-world :
      (parse_unverified : Str → Option AccessClaims) (post : Post) (raw : Str)
      (claims : AccessClaims) (s : Server S W)
      → cookie post.request (bytes "loxtu_access") ≡ some raw
      → parse_unverified raw ≡ some claims
      → (logout (with_session_store users sessions ttl h) parse_unverified post s).0.world
        ≡ revoke_for
            (with_session_store users sessions ttl h)
            post
            claims.subject
            (named_by (some claims)).1
            (raw_id (with_session_store users sessions ttl h) claims.subject s.world)
            s.world
  unfolding logout claims_of named_by
  logout-world parse_unverified post raw claims s has parsed = rw (has, parsed) refl

  -- Logging out ends the refresh tokens of the user whom the access token names, if the revocation
  -- succeeds: a refresh cookie that has a session of this user is answered 401 afterwards and changes
  -- nothing. The hash in the token leads to a stored user with an identifier; the token's signature
  -- is not looked at. A revocation that succeeds removes the sessions of its user, and writing an
  -- audit event leaves the sessions alone. Logout goes on after a failed revocation: then this
  -- promises nothing.
  pub logout-refresh :
      (parse_unverified : Str → Option AccessClaims) (leaving post : Post) (raw plain : Str)
      (claims : AccessClaims) (u : User) (row : Session) (call : Call) (s : Server S W)
      → ((e : SecurityEvent) (hash : Str) (w : W)
          → sessions.find_by_token_hash hash (log_security h.audit e w)
            ≡ sessions.find_by_token_hash hash w)
      → cookie leaving.request (bytes "loxtu_access") ≡ some raw
      → parse_unverified raw ≡ some claims
      → claims.subject ≢ []
      → h.users.find_by_user_id_hash claims.subject s.world ≡ some u
      → row.user_id ≡ u.user_id
      → u.user_id ≢ []
      → cookie post.request (bytes "loxtu_refresh") ≡ some plain
      → sessions.find_by_token_hash (hash_token sha256 plain) s.world ≡ some row
      → (sessions.revoke_by_user_id u.user_id s.world).1 ≡ true
      → let after =
          (logout (with_session_store users sessions ttl h) parse_unverified leaving s).0 in
        refresh sha256 jwt (with_session_store users sessions ttl h) post call after
        ≡ (after, show unauthorized)
  logout-refresh parse_unverified leaving post raw plain claims u row call s apart has parsed ne
        found own known e stored done =
      refresh_gone post plain call _ e (
        rw
          (
            logout-world parse_unverified leaving raw claims s has parsed,
            raw_id_found sha256 jwt users sessions reliable ttl h claims.subject u s.world ne found,
          )
          (revoke_for-gone sha256 jwt users sessions reliable ttl h leaving claims.subject _
            u.user_id (hash_token sha256 plain) row s.world
            (λ ev w. apart ev (hash_token sha256 plain) w) known own stored done))

-- ===== src/Identity/Token/Renewal.antt =====
-- What an issued or rotated refresh token opens: internal/core/identity/token_service.go.
use loxtu_go.Base.{ℕ, ◌+◌, Bool, true, Option, some, List, [], Str, bytes, ◌≡◌, ◌≢◌, refl}
use loxtu_go.Base.Result.{Result, ok}
use loxtu_go.Base.Strings.{hex_encode}
use loxtu_go.Identity.Hash.{hash_token}
use loxtu_go.Identity.Ports.{UserStore, SessionStore, IsReliable}
use loxtu_go.Identity.Session.{Jwt, IsJwt, TokenPair, Session, Call, refresh_token_ttl, token_pair}
use loxtu_go.Identity.Session.Pair.{issue_tokens_total}
use loxtu_go.Identity.Token.{
  TokenService, or_default, issue, session_row, save_session, persist, persist_issued,
  issue_session, issue_for, renew, rotate_session, rotate,
}
use loxtu_go.Identity.Token.Laws.{with_sessions}
use loxtu_go.Identity.User.{User}

save_session-true :
    {W : Type 0} (pair : TokenPair) (p : W × Bool)
    → p.1 ≡ true
    → save_session pair p ≡ (p.0, ok pair)
unfolding save_session
save_session-true pair (w, flag) e = rw e refl

-- A pair of tokens was returned, which says that it runs for thirty days from the call, and its plain
-- refresh token leads to a session of the user.
abbrev pub Opens :
    {W : Type 0} → (Str → Str) → SessionStore W → Str → Call → W × Result TokenPair → Type 0
Opens sha256 sessions user_id call result =
    (pair : TokenPair) × (result.1 ≡ ok pair)
    × ((x : Session) × (sessions.find_by_token_hash (hash_token sha256 pair.refresh_plain) result.0
          ≡ some x)
        × (x.user_id ≡ user_id))
    × (pair.expires_at ≡ call.now + refresh_token_ttl)

module _ (sha256 : Str → Str) (jwt : Jwt) (jwt_laws : IsJwt jwt) {W : Type 0}
    (users : Option (UserStore W)) (sessions : SessionStore W) (reliable : IsReliable sessions)
    (saves : (s : Session) (x : W) → (sessions.create s x).1 ≡ true) (ttl : ℕ) where
  abbrev service : TokenService W
  service = with_sessions users sessions ttl

  -- A session is issued, and its token found, whenever there is a secret and a draw.
  issue_session_lem :
      (user_id tenant_id role : Str) (permissions : List Str) (call : Call) (b : Str) (w : W)
      → call.secret ≢ []
      → call.random ≡ ok b
      → Opens sha256 sessions user_id call
          (issue_session sha256 jwt service user_id tenant_id role permissions call w)
  unfolding issue_session issue persist_issued persist session_row
  issue_session_lem user_id tenant_id role permissions call b w h e =
      let tenant = or_default (bytes "public") tenant_id in
      let named = or_default (bytes "worker") role in
      let (access, issued) =
        issue_tokens_total sha256 jwt jwt_laws user_id tenant named permissions ttl call b h e in
      let pair = token_pair call.now access (hex_encode b, hash_token sha256 (hex_encode b)) in
      let row = session_row user_id pair call in
      let saved = save_session-true pair (sessions.create row w) (saves row w) in
      rw (issued, saved) (pair, refl, reliable.find-create row w (saves row w), refl)

module _ (sha256 : Str → Str) (jwt : Jwt) (jwt_laws : IsJwt jwt) {W : Type 0} (users : UserStore W)
    (sessions : SessionStore W) (reliable : IsReliable sessions)
    (saves : (s : Session) (x : W) → (sessions.create s x).1 ≡ true) (ttl : ℕ) where
  -- A rotation of a token that has a session, of a user who is stored, returns a pair whose refresh
  -- token leads to a new session of that user: the rotated token may be of any age, since the
  -- expiry of the old session is no condition.
  pub rotate_lem :
      (plain : Str) (old : Session) (u : User) (call : Call) (b : Str) (w : W)
      → sessions.find_by_token_hash (hash_token sha256 plain) w ≡ some old
      → users.find_by_user_id old.user_id (sessions.revoke_by_user_id old.user_id w).0 ≡ some u
      → call.secret ≢ []
      → call.random ≡ ok b
      → Opens sha256 sessions u.user_id call
          (rotate sha256 jwt (with_sessions (some users) sessions ttl) plain call w)
  unfolding rotate rotate_session renew issue_for
  rotate_lem plain old u call b w found user h e =
      rw (found, user)
        (issue_session_lem sha256 jwt jwt_laws (some users) sessions reliable saves ttl u.user_id
          u.tenant_id u.role u.permissions call b (sessions.revoke_by_user_id old.user_id w).0 h e)

  -- The refresh token of a login is good for a rotation: when a session has been issued and its
  -- user is still stored after the revocation, the rotation of the pair's plain token returns a
  -- fresh pair, which leads to a new session of that user.
  pub issue_session-rotate :
      (user_id tenant_id role : Str) (permissions : List Str) (u : User) (first later : Call)
      (b c : Str) (w : W)
      → first.secret ≢ []
      → first.random ≡ ok b
      → later.secret ≢ []
      → later.random ≡ ok c
      → let service = with_sessions (some users) sessions ttl in
        let issued =
          (issue_session sha256 jwt service user_id tenant_id role permissions first w).0 in
        users.find_by_user_id user_id (sessions.revoke_by_user_id user_id issued).0 ≡ some u
        → (pair : TokenPair) × ((issue_session sha256 jwt service user_id tenant_id role permissions
              first w).1
            ≡ ok pair)
          × Opens sha256 sessions u.user_id later
              (rotate sha256 jwt service pair.refresh_plain later issued)
  unfolding session_row
  issue_session-rotate user_id tenant_id role permissions u first later b c w h e h2 e2 user =
      let (pair, issued, (x, found, own), _) =
        issue_session_lem sha256 jwt jwt_laws (some users) sessions reliable saves ttl user_id
          tenant_id role permissions first b w h e in
      (pair, issued, rotate_lem pair.refresh_plain x u later c _ found (rw own user) h2 e2)

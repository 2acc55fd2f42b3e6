-- ===== src/Identity/Token/Laws.antt =====
-- The life of a refresh token: internal/core/identity/token_service.go. A token is an opaque text,
-- and the session store holds its hash.
use loxtu_go.Base.{
  ℕ, Bool, true, false, Option, none, some, List, Str, bytes, ◌≡◌, ◌≢◌, refl, ◌∙◌, Option-cases,
  inl, inr,
}
use loxtu_go.Base.Result.{Result, ok, err, panics}
use loxtu_go.Base.Strings.{hex_encode}
use loxtu_go.Identity.Hash.{hash_token}
use loxtu_go.Identity.Ports.{UserStore, SessionStore, IsReliable}
use loxtu_go.Identity.Session.{Jwt, Session, TokenPair, Call, issue_tokens}
use loxtu_go.Identity.Session.Pair.{issue_tokens-hash}
use loxtu_go.Identity.Token.{
  TokenService, or_default, issue, session_row, save_session, persist, persist_issued,
  issue_session, issue_for, renew, rotate_session, rotate, revoke_all_for_user,
}
use loxtu_go.Identity.User.{User}

save_session-0 : {W : Type 0} (pair : TokenPair) (p : W × Bool) → (save_session pair p).0 ≡ p.0
unfolding save_session
save_session-0 pair (w, true) = refl
save_session-0 pair (w, false) = refl

-- A service whose session port is set.
abbrev pub with_sessions : {W : Type 0} → Option (UserStore W) → SessionStore W → ℕ → TokenService W
with_sessions users sessions ttl = record {
  users = users;
  sessions = some sessions;
  access_ttl = ttl;
}

module _ (sha256 : Str → Str) (jwt : Jwt) {W : Type 0} (users : Option (UserStore W))
    (sessions : SessionStore W) (reliable : IsReliable sessions) (ttl : ℕ) where
  abbrev service : TokenService W
  service = with_sessions users sessions ttl

  abbrev pub IsGone : Str → W → Type 0
  IsGone h w = sessions.find_by_token_hash h w ≡ none

  create-IsGone :
      (row : Session) (h : Str) (w : W)
      → h ≢ row.token_hash
      → IsGone h w
      → IsGone h (sessions.create row w).0
  create-IsGone row h w ne e =
      elim (Option-cases (sessions.find_by_token_hash h (sessions.create row w).0)) [
        | inl n ↦ n
        | inr (x, f) ↦ let found = reliable.find-create_ne row x h w ne f in absurd cc
      ]

  persist-IsGone :
      (user_id : Str) (call : Call) (pair : TokenPair) (h : Str) (w : W)
      → h ≢ pair.refresh_hash
      → IsGone h w
      → IsGone h (persist service user_id call pair w).0
  unfolding persist session_row
  persist-IsGone user_id call pair h w ne e =
      rw (save_session-0 pair (sessions.create (session_row user_id pair call) w))
        (create-IsGone (session_row user_id pair call) h w ne e)

  persist_issued-IsGone :
      (user_id : Str) (call : Call) (r : Result TokenPair) (h : Str) (w : W)
      → ((pair : TokenPair) → r ≡ ok pair → h ≢ pair.refresh_hash)
      → IsGone h w
      → IsGone h (persist_issued service user_id call w r).0
  unfolding persist_issued
  persist_issued-IsGone user_id call (ok pair) h w ne e =
      persist-IsGone user_id call pair h w (ne pair refl) e
  persist_issued-IsGone user_id call (err t) h w ne e = e
  persist_issued-IsGone user_id call panics h w ne e = e

  -- A hash that is not the fresh one stays unknown when a session is issued.
  issue_session-IsGone :
      (user_id tenant_id role : Str) (permissions : List Str) (call : Call) (b h : Str) (w : W)
      → call.random ≡ ok b
      → h ≢ hash_token sha256 (hex_encode b)
      → IsGone h w
      → IsGone h (issue_session sha256 jwt service user_id tenant_id role permissions call w).0
  unfolding issue_session issue
  issue_session-IsGone user_id tenant_id role permissions call b h w e ne none_yet =
      let tenant = or_default (bytes "public") tenant_id in
      let named = or_default (bytes "worker") role in
      persist_issued-IsGone user_id call
        (issue_tokens sha256 jwt user_id tenant named permissions ttl call) h w
        (λ pair f same. ne (
          same ∙ issue_tokens-hash sha256 jwt user_id tenant named permissions ttl call b pair e f))
        none_yet

  issue_for-IsGone :
      (found : Option User) (call : Call) (b h : Str) (w : W)
      → call.random ≡ ok b
      → h ≢ hash_token sha256 (hex_encode b)
      → IsGone h w
      → IsGone h (issue_for sha256 jwt service call w found).0
  unfolding issue_for
  issue_for-IsGone none call b h w e ne none_yet = none_yet
  issue_for-IsGone (some u) call b h w e ne none_yet =
      issue_session-IsGone u.user_id u.tenant_id u.role u.permissions call b h w e ne none_yet

  renew-IsGone :
      (port : Option (UserStore W)) (user_id : Str) (call : Call) (b h : Str) (w : W)
      → call.random ≡ ok b
      → h ≢ hash_token sha256 (hex_encode b)
      → IsGone h w
      → IsGone h (renew sha256 jwt service user_id call w port).0
  unfolding renew
  renew-IsGone none user_id call b h w e ne none_yet = none_yet
  renew-IsGone (some port) user_id call b h w e ne none_yet =
      issue_for-IsGone (port.find_by_user_id user_id w) call b h w e ne none_yet

  pub rotate-IsGone :
      (plain : Str) (s : Session) (call : Call) (b : Str) (w : W)
      → sessions.find_by_token_hash (hash_token sha256 plain) w ≡ some s
      → (sessions.revoke_by_user_id s.user_id w).1 ≡ true
      → call.random ≡ ok b
      → hash_token sha256 plain ≢ hash_token sha256 (hex_encode b)
      → IsGone (hash_token sha256 plain) (rotate sha256 jwt service plain call w).0
  unfolding rotate rotate_session
  rotate-IsGone plain s call b w found revoked e ne = rw found (
      renew-IsGone users s.user_id call b (hash_token sha256 plain)
        (sessions.revoke_by_user_id s.user_id w).0 e ne
        (reliable.find-revoke (hash_token sha256 plain) s w found revoked))

  pub rotate-of_IsGone :
      (plain : Str) (call : Call) (w : W)
      → IsGone (hash_token sha256 plain) w
      → rotate sha256 jwt service plain call w ≡ (w, err (bytes "session not found"))
  unfolding rotate rotate_session
  rotate-of_IsGone plain call w e = rw e

  -- A refresh token is used once, over a session store in which a revocation that succeeds removes
  -- the sessions of its user and a creation brings no other session in. After a rotation of a token
  -- that has a session and whose revocation succeeded, whatever the rotation returned, a second one
  -- with the same token is answered "session not found" and changes nothing, unless the fresh token
  -- that was drawn has the same hash. The rotation drops the error of the revocation: when it fails,
  -- this promises nothing.
  pub rotate-rotate :
      (plain : Str) (s : Session) (call later : Call) (b : Str) (w : W)
      → sessions.find_by_token_hash (hash_token sha256 plain) w ≡ some s
      → (sessions.revoke_by_user_id s.user_id w).1 ≡ true
      → call.random ≡ ok b
      → hash_token sha256 plain ≢ hash_token sha256 (hex_encode b)
      → let after = (rotate sha256 jwt service plain call w).0 in
        rotate sha256 jwt service plain later after ≡ (after, err (bytes "session not found"))
  rotate-rotate plain s call later b w found revoked e ne =
      rotate-of_IsGone plain later _ (rotate-IsGone plain s call b w found revoked e ne)

  pub revoke_all-IsGone :
      (h : Str) (x : Session) (w : W)
      → sessions.find_by_token_hash h w ≡ some x
      → (sessions.revoke_by_user_id x.user_id w).1 ≡ true
      → IsGone h (revoke_all_for_user service x.user_id w).0
  unfolding revoke_all_for_user
  revoke_all-IsGone h x w found revoked = reliable.find-revoke h x w found revoked

  -- Revoking a user's sessions, if it succeeds, ends every refresh token that has a session of this user.
  pub revoke-rotate :
      (plain : Str) (s : Session) (call : Call) (w : W)
      → sessions.find_by_token_hash (hash_token sha256 plain) w ≡ some s
      → (sessions.revoke_by_user_id s.user_id w).1 ≡ true
      → let after = (revoke_all_for_user service s.user_id w).0 in
        rotate sha256 jwt service plain call after ≡ (after, err (bytes "session not found"))
  unfolding revoke_all_for_user
  revoke-rotate plain s call w found revoked =
      rotate-of_IsGone plain call _
        (reliable.find-revoke (hash_token sha256 plain) s w found revoked)

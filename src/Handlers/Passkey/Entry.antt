-- ===== src/Handlers/Passkey/Entry.antt =====
-- internal/interfaces/http/handlers/passkey_handler.go: whom a finished or a skipped registration
-- signs in.
use loxtu_go.Base.{
  ◌≡◌, ◌↔◌, refl, inl, inr, Bool, true, false, some, [], ◌∷◌, Str, bytes, leb, length, Bool-cases,
}
use loxtu_go.Base.Map
use loxtu_go.Base.Result.{Result, ok, err, panics}
use loxtu_go.Handlers.Auth.{Post, set_pair}
use loxtu_go.Handlers.Passkey.{
  PasskeyHandler, entered, session_for, entered_with, skip_resolved, note, registration_finished,
  finish_registration_page, skip_hashed, skip_form, skip,
}
use loxtu_go.Identity.Passkey.{Webauthn, CeremonySession}
use loxtu_go.Identity.Passkey.Ceremony.{Service, resolve_user_by_hash, finish_registration}
use loxtu_go.Identity.Passkey.Binding.{finish_registration_lem}
use loxtu_go.Identity.Session.{Jwt, TokenPair, Call}
use loxtu_go.Identity.Token.{or_default}
use loxtu_go.Identity.User.{PasskeyUser, WebauthnCredential}
use loxtu_go.Middleware.Request.{header, form_value}

entered_iff :
    (A : Type 0) (r : Result TokenPair) (pair : TokenPair)
    → ((entered {A = A} r).cookies ≡ set_pair pair) ↔ (r ≡ ok pair)
unfolding entered
entered_iff A (ok q) pair = ((λ e. cc), λ e. cc)
entered_iff A (err t) pair = ((λ e. absurd cc), λ e. absurd cc)
entered_iff A panics pair = ((λ e. absurd cc), λ e. absurd cc)

module _ (sha256 : Str → Str) (jwt : Jwt) {W : Type 0} (h : PasskeyHandler W) where
  entered_with_iff :
      (A : Type 0) (p : W × Result TokenPair) (pair : TokenPair)
      → ((entered_with sha256 jwt h {A = A} p).1.cookies ≡ set_pair pair) ↔ (p.1 ≡ ok pair)
  unfolding entered_with
  entered_with_iff A (w, r) pair = entered_iff A r pair

  registration_finished-set :
      (A : Type 0) (post : Post) (call : Call) (p : W × Result (WebauthnCredential × PasskeyUser))
      (pair : TokenPair)
      → (registration_finished sha256 jwt h {A = A} post call p).1.cookies ≡ set_pair pair
      → (cred : WebauthnCredential) × (u : PasskeyUser) × (p.1 ≡ ok (cred, u))
        × ((session_for sha256 jwt h u.user_id u.tenant_id call
              (note sha256 jwt h post u (bytes "passkey.register") p.0)).1
            ≡ ok pair)
  unfolding registration_finished
  registration_finished-set A post call (w, ok (cred, u)) pair e =
      (cred, u, refl, (entered_with_iff A _ pair).0 e)
  registration_finished-set A post call (w, err t) pair e = absurd cc
  registration_finished-set A post call (w, panics) pair e = absurd cc

  skip_resolved_iff :
      (A : Type 0) (user_id_hash tenant_id : Str) (call : Call) (w : W) (r : Result Str)
      (pair : TokenPair)
      → ((skip_resolved sha256 jwt h {A = A} user_id_hash tenant_id call w r).1.cookies
          ≡ set_pair pair)
        ↔ ((user_id : Str) × (r ≡ ok user_id)
            × ((session_for sha256 jwt h user_id tenant_id call w).1 ≡ ok pair))
  unfolding skip_resolved
  skip_resolved_iff A hash tenant_id call w (ok user_id) pair = (
    (λ e. (user_id, refl, (entered_with_iff A _ pair).0 e)),
    (λ q. let same : q.0 ≡ user_id = cc (q.1) in (entered_with_iff A _ pair).1 (rw same at q.2)),
  )
  skip_resolved_iff A hash tenant_id call w (err t) pair =
      ((λ e. absurd cc), λ q. absurd (cc (q.1)))
  skip_resolved_iff A hash tenant_id call w panics pair = ((λ e. absurd cc), λ q. absurd (cc (q.1)))

module _ (sha256 base64 : Str → Str) (jwt : Jwt) (lib : Webauthn) (W : Type 0)
    (h : PasskeyHandler W) where
  open lib use {SessionData, ParsedCreation}

  -- A finished registration signs in the user of its ceremony: when FinishRegistration sets the
  -- cookies of a session, the challenge of the request was kept with a ceremony, and the session is
  -- issued to the user of that ceremony in the tenant of the ceremony, whatever the authenticator
  -- says. The relying party is set.
  pub registration_session :
      (client_challenge : ParsedCreation → Str) (post : Post) (parsed : ParsedCreation)
      (call : Call) (s : Service sha256 base64 lib W) (w : W) (pair : TokenPair)
      → s.has_wa ≡ true
      → (finish_registration_page sha256 base64 jwt lib W h client_challenge post
          (some parsed)
          call
          s
          w).1.1.cookies
        ≡ set_pair pair
      → let challenge =
          or_default
            (client_challenge parsed)
            (header post.request (bytes "X-WebAuthn-Challenge")) in
        (cs : CeremonySession SessionData) × (Map.lookup challenge s.sessions ≡ some cs)
        × ((w' : W) × ((session_for sha256 jwt h cs.user_id cs.tenant_id call w').1 ≡ ok pair))
  unfolding finish_registration_page
  registration_session client_challenge post parsed call s w pair on e =
      let challenge =
        or_default (client_challenge parsed) (header post.request (bytes "X-WebAuthn-Challenge")) in
      let (cred, u, done, issued) =
        registration_finished-set sha256 jwt h _ post call
          (finish_registration sha256 base64 lib W s challenge parsed call.now w).1 pair e in
      let (cs, kept_under, (same_user, same_tenant, _)) =
        finish_registration_lem sha256 base64 lib W s challenge parsed call.now w cred u on done in
      (
        cs,
        kept_under,
        (
          note sha256 jwt h post u (bytes "passkey.register")
              (finish_registration sha256 base64 lib W s challenge parsed call.now w).1.0,
          rw (← same_user, ← same_tenant) issued,
        ),
      )

  skip_hashed_iff :
      (key ctx_tenant : Str) (call : Call) (s : Service sha256 base64 lib W) (w : W)
      (pair : TokenPair)
      → ((skip_hashed sha256 base64 jwt lib W h key ctx_tenant call s w).1.cookies ≡ set_pair pair)
        ↔ ((leb 8 (length key) ≡ true)
            × ((user_id : Str) × (resolve_user_by_hash sha256 base64 lib W s key w ≡ ok user_id)
                × ((session_for sha256 jwt h user_id ctx_tenant call w).1 ≡ ok pair)))
  unfolding skip_hashed
  skip_hashed_iff [] ctx_tenant call s w pair = ((λ e. absurd cc), λ q. absurd (cc (q.0)))
  skip_hashed_iff (c ∷ cs) ctx_tenant call s w pair = elim (Bool-cases (leb 8 (length (c ∷ cs)))) [
    | inl t ↦
        let (there, back) =
          skip_resolved_iff sha256 jwt h lib.Creation (c ∷ cs) ctx_tenant call w
            (resolve_user_by_hash sha256 base64 lib W s (c ∷ cs) w) pair in
        rw t ((λ e. (refl, there e)), λ q. back q.1)
    | inr f ↦ rw f ((λ e. absurd cc), λ q. absurd (cc (q.0)))
  ]

  skip_form_iff :
      (parsed : Bool) (post : Post) (ctx_tenant : Str) (call : Call)
      (s : Service sha256 base64 lib W) (w : W) (pair : TokenPair)
      → let key = form_value post.request (bytes "user_id_hash") in
        ((skip_form sha256 base64 jwt lib W h parsed post ctx_tenant call s w).1.cookies
          ≡ set_pair pair)
        ↔ ((parsed ≡ true)
            × (leb 8 (length key) ≡ true)
            × ((user_id : Str) × (resolve_user_by_hash sha256 base64 lib W s key w ≡ ok user_id)
                × ((session_for sha256 jwt h user_id ctx_tenant call w).1 ≡ ok pair)))
  unfolding skip_form
  skip_form_iff false post ctx_tenant call s w pair = ((λ e. absurd cc), λ q. absurd (cc (q.0)))
  skip_form_iff true post ctx_tenant call s w pair =
      let (there, back) =
        skip_hashed_iff (form_value post.request (bytes "user_id_hash")) ctx_tenant call s w pair in
      ((λ e. let q = there e in (refl, q.0, q.1)), λ q. back (q.1, q.2))

  -- Skipping signs in whoever has a hash: Skip sets the cookies of a session exactly if the form
  -- parses, the hash in it has eight bytes at least, a user with an identifier is found for it, and
  -- the tokens can be issued. No code, no passkey and no earlier session is looked at.
  pub skip_opens_session :
      (post : Post) (ctx_tenant : Str) (call : Call) (s : Service sha256 base64 lib W) (w : W)
      (pair : TokenPair)
      → let key = form_value post.request (bytes "user_id_hash") in
        ((skip sha256 base64 jwt lib W h post ctx_tenant call s w).1.cookies ≡ set_pair pair) ↔ (
          (post.is_parsed ≡ true)
          × (leb 8 (length key) ≡ true)
          × ((user_id : Str) × (resolve_user_by_hash sha256 base64 lib W s key w ≡ ok user_id)
              × ((session_for sha256 jwt h user_id ctx_tenant call w).1 ≡ ok pair)))
  unfolding skip
  skip_opens_session post ctx_tenant call s w pair =
      skip_form_iff post.is_parsed post ctx_tenant call s w pair

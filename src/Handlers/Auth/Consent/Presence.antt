-- ===== src/Handlers/Auth/Consent/Presence.antt =====
-- internal/interfaces/http/handlers/auth_handler.go: what ConsentAccept asks for before it opens a
-- session.
use loxtu_go.Base.{
  ◌≡◌, ◌≢◌, ◌↔◌, refl, sym, ap, ◌∙◌, inl, inr, true, Option, none, some, List, ◌∷◌, Str, bytes, [],
  length, leb, Bool-cases, Option-cases,
}
use loxtu_go.Base.Result.{Result, ok, err, panics}
use loxtu_go.Handlers.Auth.{
  AuthHandler, Server, Post, set_pair, tenant_or_public_of, event, log_security, issue_cookies,
}
use loxtu_go.Handlers.Auth.Consent.{
  to_dashboard, has_passkey, has_credentials, enrolled, passkey_presence, consented, enter,
  accept_user, is_filled_in, accept_hash, consent_accept,
}
use loxtu_go.Identity.Session.{Jwt, TokenPair, Call}
use loxtu_go.Identity.Ports.{UserStore, CredentialStore}
use loxtu_go.Identity.User.{User, PasskeyCredential}
use loxtu_go.Security.Crypto.{hash_email}
use loxtu_go.Middleware.Request.{form_value}

to_dashboard_iff :
    (r : Result TokenPair) (pair : TokenPair)
    → ((to_dashboard r).cookies ≡ set_pair pair) ↔ (r ≡ ok pair)
unfolding to_dashboard
to_dashboard_iff (ok q) pair = ((λ e. cc), λ e. cc)
to_dashboard_iff (err t) pair = ((λ e. absurd cc), λ e. absurd cc)
to_dashboard_iff panics pair = ((λ e. absurd cc), λ e. absurd cc)

module _ (sha256 : Str → Str) (jwt : Jwt) {S W : Type 0} (h : AuthHandler W) where
  consented_iff :
      (s : Server S W) (p : W × Result TokenPair) (pair : TokenPair)
      → ((consented sha256 jwt h s p).1.cookies ≡ set_pair pair) ↔ (p.1 ≡ ok pair)
  unfolding consented
  consented_iff s (w, r) pair = to_dashboard_iff r pair

  -- The state behind the event of the consent.
  abbrev pub noted : Post → User → Server S W → W
  noted post u s =
      log_security h.audit
        (event post u.user_id (tenant_or_public_of u) [] (bytes "auth.consent.accept")
          (bytes "success"))
        s.world

  -- The session that `issueCookies` makes for a user.
  abbrev pub opened : Post → User → Call → Server S W → Result TokenPair
  opened post u call s =
      (issue_cookies sha256 jwt h post u.user_id (tenant_or_public_of u)
        (bytes "auth.consent.accept") call (noted post u s)).1

  abbrev MayEnter : Post → Str → User → Call → Server S W → TokenPair → Type 0
  MayEnter post key u call s pair =
      (leb 8 (length key) ≡ true)
      × (has_passkey h.passkeys (tenant_or_public_of u) key (noted post u s) ≡ true)
      × (opened post u call s ≡ ok pair)

  accept_user_iff :
      (post : Post) (key : Str) (u : User) (call : Call) (s : Server S W) (pair : TokenPair)
      → ((accept_user sha256 jwt h post key call s (some u)).1.cookies ≡ set_pair pair)
        ↔ MayEnter post key u call s pair
  unfolding accept_user enter
  accept_user_iff post key u call s pair = elim (Bool-cases (leb 8 (length key))) [
    | inr f ↦ rw f ((λ e. absurd cc), λ q. absurd (cc (q.0)))
    | inl t ↦
        elim (Bool-cases (has_passkey h.passkeys (tenant_or_public_of u) key (noted post u s))) [
          | inr f ↦ rw (t, f) ((λ e. absurd cc), λ q. absurd (cc (q.1)))
          | inl p ↦
              rw (t, p)
                (
                  (λ e. (refl, refl, (consented_iff _ _ pair).0 e)),
                  (λ q. (consented_iff _ _ pair).1 q.2),
                )
        ]
  ]

  accept_none :
      (post : Post) (key : Str) (call : Call) (s : Server S W) (pair : TokenPair)
      → (accept_user sha256 jwt h post key call s none).1.cookies ≢ set_pair pair
  unfolding accept_user
  accept_none post key call s pair e = cc

  accept_hash_iff :
      (post : Post) (key : Str) (call : Call) (s : Server S W) (pair : TokenPair)
      → ((accept_hash sha256 jwt h post key call s).1.cookies ≡ set_pair pair) ↔ (
          (is_filled_in post.request ≡ true)
          × ((u : User) × (h.users.find_by_user_id_hash key s.world ≡ some u)
              × MayEnter post key u call s pair))
  unfolding accept_hash
  accept_hash_iff post key call s pair = elim (Bool-cases (is_filled_in post.request)) [
    | inr f ↦ rw f ((λ e. absurd cc), λ q. absurd (cc (q.0)))
    | inl t ↦ elim (Option-cases (h.users.find_by_user_id_hash key s.world)) [
      | inl n ↦
          rw (t, n) ((λ e. absurd (accept_none post key call s pair e)), (λ q. absurd (cc (q.1.1))))
      | inr (u, f) ↦
          rw (t, f)
            (
              (λ e. (refl, (u, refl, (accept_user_iff post key u call s pair).0 e))),
              (λ q.
                  let same : q.1.0 ≡ u = cc (q.1.1) in
                  (accept_user_iff post key u call s pair).1 (rw same at q.1.2)),
            )
    ]
  ]

-- A user with a passkey is stored under the hash of an address.
abbrev pub IsEnrolled :
    (Str → Str) → Str → {W : Type 0} → UserStore W → CredentialStore W → Str → W → Type 0
IsEnrolled sha256 pepper users creds email w =
    (v : User) × (c : PasskeyCredential) × (cs : List PasskeyCredential) × (users.find_by_email_hash
        (hash_email sha256 email pepper) w
      ≡ some v)
    × (creds.find_credentials_by_user_id v.user_id w ≡ some (c ∷ cs))

has_credentials-true :
    (o : Option (List PasskeyCredential))
    → has_credentials o ≡ true
    → (c : PasskeyCredential) × (cs : List PasskeyCredential) × (o ≡ some (c ∷ cs))
unfolding has_credentials
has_credentials-true none e = absurd cc
has_credentials-true (some []) e = absurd cc
has_credentials-true (some (c ∷ cs)) e = (c, cs, refl)

module _ (sha256 : Str → Str) (pepper : Str) {W : Type 0} (users : UserStore W)
    (creds : CredentialStore W) where
  passkey_presence-true :
      (tenant_id email : Str) (w : W)
      → passkey_presence sha256 pepper users creds tenant_id email w ≡ true
      → IsEnrolled sha256 pepper users creds email w
  unfolding passkey_presence enrolled
  passkey_presence-true tenant_id email w e =
      elim (Option-cases (users.find_by_email_hash (hash_email sha256 email pepper) w)) [
        | inl n ↦ absurd (cc (rw n at e))
        | inr (v, f) ↦
            let (c, cs, found) = has_credentials-true _ (rw f at e) in (v, c, cs, f, found)
      ]

  IsEnrolled-presence :
      (tenant_id email : Str) (w : W)
      → IsEnrolled sha256 pepper users creds email w
      → passkey_presence sha256 pepper users creds tenant_id email w ≡ true
  unfolding passkey_presence enrolled has_credentials
  IsEnrolled-presence tenant_id email w (v, c, cs, f, found) = rw (f, enrolled, found) refl

module _ (sha256 : Str → Str) (jwt : Jwt) {S W : Type 0} (h : AuthHandler W) (pepper : Str)
    (creds : CredentialStore W) where
  -- With the check for passkeys that the server is started with, ConsentAccept opens a session
  -- exactly if the four fields of the form are filled in, the user of the hash is found, the hash has
  -- eight bytes at least, the tokens can be issued, and a user with a passkey is stored under the
  -- hash of the submitted hash itself, taken as an address. The check takes an address and is given
  -- the hash of the user: whether the user who was found has a passkey is not looked at.
  pub consent_opens_session :
      (post : Post) (call : Call) (s : Server S W) (pair : TokenPair)
      → h.passkeys ≡ some (passkey_presence sha256 pepper h.users creds)
      → let key = form_value post.request (bytes "user_id_hash") in
        ((consent_accept sha256 jwt h post call s).1.cookies ≡ set_pair pair) ↔ (
          (is_filled_in post.request ≡ true)
          × ((u : User) × (h.users.find_by_user_id_hash key s.world ≡ some u)
              × (leb 8 (length key) ≡ true)
              × IsEnrolled sha256 pepper h.users creds key (noted sha256 jwt h post u s)
              × (opened sha256 jwt h post u call s ≡ ok pair)))
  unfolding consent_accept has_passkey
  consent_opens_session post call s pair wired =
      let key = form_value post.request (bytes "user_id_hash") in
      let (there, back) = accept_hash_iff sha256 jwt h post key call s pair in
      let asked : (u : User)
          → has_passkey h.passkeys (tenant_or_public_of u) key (noted sha256 jwt h post u s)
            ≡ passkey_presence sha256 pepper h.users creds (tenant_or_public_of u) key
                (noted sha256 jwt h post u s) =
        λ u.
          ap (λ o. has_passkey o (tenant_or_public_of u) key (noted sha256 jwt h post u s)) wired in
      (
        (λ e.
            let (filled, (u, found, (long, has, issued))) = there e in
            let by_address =
              passkey_presence-true sha256 pepper h.users creds (tenant_or_public_of u) key _
                (sym (asked u) ∙ has) in
            (filled, (u, found, long, by_address, issued))),
        (λ (filled, (u, found, long, has, issued)).
            let by_address =
              IsEnrolled-presence sha256 pepper h.users creds (tenant_or_public_of u) key _ has in
            back (filled, (u, found, (long, asked u ∙ by_address, issued)))),
      )

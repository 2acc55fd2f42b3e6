-- ===== src/Handlers/Guard/Laws.antt =====
-- Who passes the guard of internal/interfaces/http/handlers/auth_guard.go.
use loxtu_go.Base.{
  ℕ, ◌+◌, ◌*◌, ◌/◌, ltb, true, false, Option, none, some, List, [], ◌∷◌, Str, bytes, ◌≡◌, ◌≢◌, ◌⊎◌,
  inl, inr, refl, sym, ap, ◌∙◌, Bool-cases, str_eq, str_eq_iff, is_empty, not, ◌&&◌, if◌then◌else◌,
}
use loxtu_go.Base.Clock.{second}
use loxtu_go.Base.Strings.{hex_encode}
use loxtu_go.Base.Result.{Result, ok, err, panics}
use loxtu_go.Identity.Ports.{UserStore}
use loxtu_go.Identity.Session.{
  Jwt, IsJwt, AccessClaims, Call, issue_access_token, validate_access_token,
}
use loxtu_go.Identity.Session.Laws.{accepted, in_time, claims_of, issue-validate}
use loxtu_go.Handlers.Guard.{
  AuthContext, Guarded, admitted, forbidden, unauthorized, is_mismatch, context_of, raw_user_id,
  user_id_or, admit, guard_cookie, guard, is_public_path,
}
use loxtu_go.Identity.User.{User}
use loxtu_go.Middleware.Request.{Request, header, cookie}

is_empty-true : (s : Str) → is_empty s ≡ true → s ≡ []
is_empty-true [] e = refl
is_empty-true (c ∷ s) e = absurd cc

-- The context that a request goes on with.
abbrev pub context_given : Guarded → Option AuthContext
context_given (admitted c) = some c
context_given _ = none

context_given-unauthorized : (r : Request) → context_given (unauthorized r) ≡ none
unfolding unauthorized
context_given-unauthorized r =
    elim (Bool-cases (str_eq (header r (bytes "HX-Request")) (bytes "true"))) [
      | inl t ↦ rw (t, unauthorized) refl
      | inr f ↦ rw (f, unauthorized) refl
    ]

-- A tenant that is not set, or is that of the token.
abbrev pub IsSameTenant : Str → Str → Type 0
IsSameTenant tenant router_tenant =
    (tenant ≡ []) ⊎ ((router_tenant ≡ []) ⊎ (tenant ≡ router_tenant))

is_mismatch-false :
    (tenant router_tenant : Str)
    → is_mismatch tenant router_tenant ≡ false
    → IsSameTenant tenant router_tenant
unfolding is_mismatch
is_mismatch-false [] router_tenant e = inl refl
is_mismatch-false (c ∷ tenant) [] e = inr (inl refl)
is_mismatch-false (c ∷ tenant) (d ∷ router_tenant) e =
    elim (Bool-cases (str_eq (c ∷ tenant) (d ∷ router_tenant))) [
      | inl t ↦ inr (inr ((str_eq_iff _ _).0 t))
      | inr f ↦ absurd (cc (rw (f, is_mismatch) at e))
    ]

unauthorized-ne-admitted : (r : Request) (c : AuthContext) → unauthorized r ≢ admitted c
unfolding unauthorized
unauthorized-ne-admitted r c e =
    elim (Bool-cases (str_eq (header r (bytes "HX-Request")) (bytes "true"))) [
      | inl t ↦ cc (rw (t, unauthorized) at e)
      | inr f ↦ cc (rw (f, unauthorized) at e)
    ]

-- The context of claims, if there are any.
abbrev pub context_from :
    {W : Type 0} → Option (UserStore W) → W → Option AccessClaims → Option AuthContext
context_from users w none = none
context_from users w (some claims) = some (context_of users w [] claims)

ok-injective : {A : Type 0} {a b : A} → ok a ≡ ok b → a ≡ b
ok-injective e = cc

module _ (jwt : Jwt) {W : Type 0} (users : Option (UserStore W)) where
  admit-admitted :
      (router_tenant : Str) (w : W) (r : Request) (o : Result AccessClaims) (c : AuthContext)
      → admit jwt users router_tenant w r o ≡ admitted c
      → (claims : AccessClaims) × (o ≡ ok claims)
        × (c ≡ context_of users w router_tenant claims)
        × IsSameTenant claims.tenant_id router_tenant
  unfolding admit
  admit-admitted router_tenant w r (ok claims) c e =
      elim (Bool-cases (is_mismatch claims.tenant_id router_tenant)) [
        | inl t ↦ absurd (cc (rw (t, admit) at e))
        | inr f ↦ (claims, refl, cc (rw (f, admit) at e), is_mismatch-false _ _ f)
      ]
  admit-admitted router_tenant w r (err t) c e = absurd (unauthorized-ne-admitted r c e)
  admit-admitted router_tenant w r panics c e = absurd cc

  guard_cookie-admitted :
      (secret : Str) (now : ℕ) (router_tenant : Str) (w : W) (r : Request) (o : Option Str)
      (c : AuthContext)
      → guard_cookie jwt users secret now router_tenant w r o ≡ admitted c
      → (token : Str) × (claims : AccessClaims) × (o ≡ some token)
        × (validate_access_token jwt secret now token ≡ ok claims)
        × (c ≡ context_of users w router_tenant claims)
        × IsSameTenant claims.tenant_id router_tenant
  unfolding guard_cookie
  guard_cookie-admitted secret now router_tenant w r none c e =
      absurd (unauthorized-ne-admitted r c e)
  guard_cookie-admitted secret now router_tenant w r (some token) c e =
      let (claims, valid, same, tenant) =
        admit-admitted router_tenant w r (validate_access_token jwt secret now token) c e in
      (token, claims, refl, valid, same, tenant)

  -- Nobody passes the guard without a valid token. When a request is let through with a context,
  -- its path is not public, its access cookie holds a token that is valid at this moment, the
  -- context is the one of the token's claims, and the tenant of the claims is not at odds with a
  -- tenant that an outer middleware has set.
  pub guard_sound :
      (secret : Str) (now : ℕ) (router_tenant : Str) (w : W) (r : Request) (c : AuthContext)
      → guard jwt users secret now router_tenant w r ≡ admitted c
      → (is_public_path r.path ≡ false)
        × (token : Str) × (claims : AccessClaims) × (cookie r (bytes "loxtu_access") ≡ some token)
        × (validate_access_token jwt secret now token ≡ ok claims)
        × (c ≡ context_of users w router_tenant claims)
        × IsSameTenant claims.tenant_id router_tenant
  unfolding guard
  guard_sound secret now router_tenant w r c e = elim (Bool-cases (is_public_path r.path)) [
    | inl t ↦ absurd (cc (rw (t, guard) at e))
    | inr f ↦
        let (token, claims, sent, valid, same, tenant) =
          guard_cookie-admitted secret now router_tenant w r (cookie r (bytes "loxtu_access")) c
            (rw (f, guard) at e) in
        (f, token, claims, sent, valid, same, tenant)
  ]

  context_given-admit :
      (w : W) (r : Request) (o : Result AccessClaims)
      → context_given (admit jwt users [] w r o) ≡ context_from users w (accepted o)
  unfolding admit is_mismatch
  context_given-admit w r (ok claims) = go claims.tenant_id
    where
      go :
          (tenant : Str)
          → context_given (
              if not (is_empty tenant) && not true && not (str_eq tenant [])
              then forbidden
              else admitted (context_of users w [] claims))
            ≡ some (context_of users w [] claims)
      go [] = refl
      go (c ∷ tenant) = refl
  context_given-admit w r (err e) = context_given-unauthorized r
  context_given-admit w r panics = refl

  context_given-guard :
      (secret token : Str) (now : ℕ) (w : W) (r : Request)
      → is_public_path r.path ≡ false
      → cookie r (bytes "loxtu_access") ≡ some token
      → context_given (guard jwt users secret now [] w r)
        ≡ context_from users w (accepted (validate_access_token jwt secret now token))
  unfolding guard guard_cookie
  context_given-guard secret token now w r closed sent =
      rw (closed, sent, guard, guard_cookie)
        (context_given-admit w r (validate_access_token jwt secret now token))

is_empty-ne : (s : Str) → s ≢ [] → is_empty s ≡ false
is_empty-ne [] h = absurd (h refl)
is_empty-ne (c ∷ s) h = refl

is_empty-hex_encode : (s : Str) → s ≢ [] → is_empty (hex_encode s) ≡ false
unfolding hex_encode
is_empty-hex_encode [] h = absurd (h refl)
is_empty-hex_encode (c ∷ s) h = refl

-- What the handlers behind the guard find in the context of a stored user.
abbrev pub context_for : (Str → Str) → Str → Str → Str → User → AuthContext
context_for sha256 user_id tenant_id role u = record {
  tenant_id = tenant_id;
  user_id_hash = hex_encode (sha256 user_id);
  user_id = u.user_id;
  role = role;
}

context_of-claims_of :
    (sha256 : Str → Str) {W : Type 0} (users : UserStore W) (user_id tenant_id role : Str)
    (permissions : List Str) (ttl now : ℕ) (w : W) (u : User)
    → users.find_by_user_id_hash (hex_encode (sha256 user_id)) w ≡ some u
    → u.user_id ≢ []
    → tenant_id ≢ []
    → sha256 user_id ≢ []
    → context_of (some users) w [] (claims_of sha256 user_id tenant_id role permissions ttl now)
      ≡ context_for sha256 user_id tenant_id role u
unfolding context_of raw_user_id user_id_or
context_of-claims_of sha256 users user_id tenant_id role permissions ttl now w u found named tenant
      digest =
    rw
      (
        is_empty-ne tenant_id tenant,
        is_empty-hex_encode (sha256 user_id) digest,
        found,
        is_empty-ne u.user_id named,
      )
      refl

context_from-in_time :
    {W : Type 0} (users : UserStore W) (w : W) (now : ℕ) (claims : AccessClaims)
    → context_from (some users) w (in_time now claims) ≡ (
        if ltb now (claims.expires_at * second)
        then some (context_of (some users) w [] claims)
        else none)
context_from-in_time users w now claims = elim (Bool-cases (ltb now (claims.expires_at * second))) [
  | inl t ↦ rw t refl
  | inr f ↦ rw f refl
]

module _ (sha256 : Str → Str) (jwt : Jwt) (jwt_laws : IsJwt jwt) {W : Type 0}
    (users : UserStore W) where
  -- An access token opens the protected paths for its user as long as it lives. Let a token be issued
  -- for a user and a tenant, and let the user be stored under the hash of the identifier. A request
  -- to a path that is not public, with the token in its access cookie and no tenant from an outer
  -- middleware, goes on with the tenant, the role, the user's hash and the stored user's identifier
  -- in its context until the second in which the token's lifetime ends, and is not let through from
  -- then on. The library signs under any key and checks what it has signed; no identifier and no
  -- digest is empty.
  pub guard-issue :
      (user_id tenant_id role : Str) (permissions : List Str) (ttl now : ℕ) (call : Call)
      (raw : Str) (w : W) (r : Request) (u : User)
      → call.secret ≢ []
      → issue_access_token sha256 jwt user_id tenant_id role permissions ttl call ≡ ok raw
      → is_public_path r.path ≡ false
      → cookie r (bytes "loxtu_access") ≡ some raw
      → users.find_by_user_id_hash (hex_encode (sha256 user_id)) w ≡ some u
      → u.user_id ≢ []
      → tenant_id ≢ []
      → sha256 user_id ≢ []
      → context_given (guard jwt (some users) call.secret now [] w r) ≡ (
          if ltb now ((call.now + ttl) / second * second)
          then some (context_for sha256 user_id tenant_id role u)
          else none)
  guard-issue user_id tenant_id role permissions ttl now call raw w r u h issued closed sent found
        named tenant digest =
      let (token, e, life) =
        issue-validate sha256 jwt jwt_laws user_id tenant_id role permissions ttl now call h in
      let same : token ≡ raw = ok-injective (sym e ∙ issued) in
      context_given-guard jwt (some users) call.secret raw now w r closed sent
      ∙ ap (context_from (some users) w) (rw same at life)
      ∙ context_from-in_time users w now _
      ∙ ap (λ c. if ltb now ((call.now + ttl) / second * second) then some c else none)
          (context_of-claims_of sha256 users user_id tenant_id role permissions ttl call.now w u
            found named tenant digest)

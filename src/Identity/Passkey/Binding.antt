-- ===== src/Identity/Passkey/Binding.antt =====
-- Which user a finished ceremony of internal/core/identity/passkey_service.go is about.
use loxtu_go.Base.{
  ℕ, Bool, true, false, Option, none, some, List, [], ◌∷◌, Str, ◌≡◌, refl, ap, ◌∙◌, inl, inr,
  Option-cases, Bool-cases, is_empty,
}
use loxtu_go.Base.Map
use loxtu_go.Base.Result.{Result, ok, err, panics, ◌>>=◌}
use loxtu_go.Identity.Ports.{CredentialStore}
use loxtu_go.Identity.Passkey.{Webauthn, CeremonySession, or_nil}
use loxtu_go.Identity.Passkey.Ceremony.{
  Service, resolve_user_id, take_session, registering_user, registered, create_for, finish_taken,
  finish_registration, get_user, loaded_user,
}
use loxtu_go.Identity.Passkey.Enabled.{finish_registration_on, finish_login_on}
use loxtu_go.Identity.Passkey.Login.{
  Login, logged_in, known_login, login_known, login_taken, finish_login,
}
use loxtu_go.Identity.User.{PasskeyUser, PasskeyCredential, WebauthnCredential}

module _ (sha256 base64 : Str → Str) (lib : Webauthn) (W : Type 0) where
  open lib use {SessionData, ParsedCreation, ParsedAssertion}

  -- The user has the identity of the ceremony, and its handle.
  abbrev pub IsUserOf : CeremonySession SessionData → PasskeyUser → Type 0
  IsUserOf cs u =
      (u.user_id ≡ cs.user_id) × (u.tenant_id ≡ cs.tenant_id) × (u.handle ≡ cs.user_handle)

  registering_user_lem :
      (s : Service sha256 base64 lib W) (cs : CeremonySession SessionData) (w : W)
      → IsUserOf cs (registering_user sha256 base64 lib W s cs w)
  unfolding registering_user
  registering_user_lem s cs w =
      elim (Bool-cases (is_empty (or_nil (s.creds.find_handle_by_user_id cs.user_id w)))) [
        | inl t ↦ rw (t, registering_user) (refl, refl, refl)
        | inr f ↦ rw (f, registering_user) (refl, refl, refl)
      ]

  registered_lem :
      (u v : PasskeyUser) (cred kept : WebauthnCredential) (p : W × Bool)
      → (registered sha256 base64 lib W u cred p).1 ≡ ok (kept, v)
      → (v.user_id ≡ u.user_id) × (v.tenant_id ≡ u.tenant_id) × (v.handle ≡ u.handle)
  unfolding registered
  registered_lem u v cred kept (w, true) e = (cc, cc, cc)
  registered_lem u v cred kept (w, false) e = absurd cc

  create_for_lem :
      (s : Service sha256 base64 lib W) (u v : PasskeyUser) (kept : WebauthnCredential) (now : ℕ)
      (w : W) (r : Result WebauthnCredential)
      → (create_for sha256 base64 lib W s u now w r).1 ≡ ok (kept, v)
      → (v.user_id ≡ u.user_id) × (v.tenant_id ≡ u.tenant_id) × (v.handle ≡ u.handle)
  unfolding create_for
  create_for_lem s u v kept now w (ok cred) e = registered_lem u v cred kept _ e
  create_for_lem s u v kept now w (err t) e = absurd cc
  create_for_lem s u v kept now w panics e = absurd cc

  finish_taken_lem :
      (s : Service sha256 base64 lib W) (parsed : ParsedCreation) (now : ℕ) (w : W)
      (o : Option (CeremonySession SessionData)) (kept : WebauthnCredential) (v : PasskeyUser)
      → (finish_taken sha256 base64 lib W s parsed now w o).1 ≡ ok (kept, v)
      → (cs : CeremonySession SessionData) × (o ≡ some cs) × IsUserOf cs v
  unfolding finish_taken
  finish_taken_lem s parsed now w none kept v e = absurd cc
  finish_taken_lem s parsed now w (some cs) kept v e =
      let (a, b, c) =
        create_for_lem s (registering_user sha256 base64 lib W s cs w) v kept now w _ e in
      let (x, y, z) = registering_user_lem s cs w in (cs, refl, (a ∙ x, b ∙ y, c ∙ z))

  taken_lem :
      (challenge : Str) (s : Service sha256 base64 lib W) (cs : CeremonySession SessionData)
      → (take_session s challenge).1 ≡ some cs
      → Map.lookup challenge s.sessions ≡ some cs
  unfolding take_session
  taken_lem challenge s cs e = elim (Option-cases (Map.lookup challenge s.sessions)) [
    | inl f ↦ absurd (cc (rw (f, take_session) at e))
    | inr (x, f) ↦ f ∙ (rw (f, take_session) at e)
  ]

  -- A registration is of the user of its ceremony: when `FinishRegistration` succeeds, the challenge
  -- was kept with a ceremony, and the passkey user that is returned has the identifier, the tenant
  -- and the handle of that ceremony, whatever the response of the authenticator says.
  pub finish_registration_lem :
      (s : Service sha256 base64 lib W) (challenge : Str) (parsed : ParsedCreation) (now : ℕ)
      (w : W) (kept : WebauthnCredential) (u : PasskeyUser)
      → s.has_wa ≡ true
      → (finish_registration sha256 base64 lib W s challenge parsed now w).1.1 ≡ ok (kept, u)
      → (cs : CeremonySession SessionData) × (Map.lookup challenge s.sessions ≡ some cs)
        × IsUserOf cs u
  finish_registration_lem s challenge parsed now w kept u on e =
      let r = take_session s challenge in
      let (cs, found, same) =
        finish_taken_lem s parsed now w r.1 kept u
          (rw (finish_registration_on sha256 base64 lib W s challenge parsed now w on) at e) in
      (cs, taken_lem challenge s cs found, same)

  loaded_user_lem :
      (user_id email : Str) (creds : Option (List PasskeyCredential)) (u : PasskeyUser)
      → loaded_user user_id email creds ≡ ok u
      → u.tenant_id ≡ []
  unfolding loaded_user
  loaded_user_lem user_id email none u e = absurd cc
  loaded_user_lem user_id email (some []) u e = absurd cc
  loaded_user_lem user_id email (some (c ∷ cs)) u e = cc

  loaded_of :
      (email : Str) (s : Service sha256 base64 lib W) (w : W) (r : Result Str) (u : PasskeyUser)
      → (r >>= λ user_id. loaded_user user_id email (s.creds.find_credentials_by_user_id user_id w))
        ≡ ok u
      → u.tenant_id ≡ []
  loaded_of email s w (ok user_id) u e = loaded_user_lem user_id email _ u e
  loaded_of email s w (err t) u e = absurd cc
  loaded_of email s w panics u e = absurd cc

  get_user_lem :
      (s : Service sha256 base64 lib W) (email : Str) (w : W) (u : PasskeyUser)
      → get_user sha256 base64 lib W s email w ≡ ok u
      → u.tenant_id ≡ []
  unfolding get_user
  get_user_lem s email w u e =
      loaded_of email s w (resolve_user_id sha256 base64 lib W s email w) u e

  known_login_lem :
      (creds : CredentialStore W) (w : W) (u : PasskeyUser) (r : Result (Option WebauthnCredential))
      (login : Login)
      → (known_login creds w u r).1 ≡ ok login
      → login.0 ≡ u
  unfolding known_login logged_in
  known_login_lem creds w u (ok cred) login e = cc
  known_login_lem creds w u (err t) login e = absurd cc
  known_login_lem creds w u panics login e = absurd cc

  login_known_lem :
      (s : Service sha256 base64 lib W) (cs : CeremonySession SessionData)
      (parsed : ParsedAssertion) (w : W) (r : Result PasskeyUser) (login : Login)
      → ((u : PasskeyUser) → r ≡ ok u → u.tenant_id ≡ [])
      → (login_known sha256 base64 lib W s cs parsed w r).1 ≡ ok login
      → login.0.tenant_id ≡ []
  unfolding login_known
  login_known_lem s cs parsed w (ok u) login h e =
      ap (λ x. x.tenant_id) (known_login_lem s.creds w u _ login e) ∙ h u refl
  login_known_lem s cs parsed w (err t) login h e = absurd cc
  login_known_lem s cs parsed w panics login h e = absurd cc

  taken_some :
      (challenge : Str) (s : Service sha256 base64 lib W) (cs : CeremonySession SessionData)
      → Map.lookup challenge s.sessions ≡ some cs
      → (take_session s challenge).1 ≡ some cs
  unfolding take_session
  taken_some challenge s cs e = rw (e, take_session) refl

  -- A login that was begun for an address loses its tenant: when the ceremony of the challenge keeps
  -- an address and `FinishLogin` succeeds, the user that is returned has no tenant, whatever the
  -- tenant of the ceremony is.
  pub finish_login_tenant :
      (s : Service sha256 base64 lib W) (challenge : Str) (cs : CeremonySession SessionData)
      (parsed : ParsedAssertion) (w : W) (login : Login)
      → s.has_wa ≡ true
      → Map.lookup challenge s.sessions ≡ some cs
      → is_empty cs.user_email ≡ false
      → (finish_login sha256 base64 lib W s challenge parsed w).1.1 ≡ ok login
      → login.0.tenant_id ≡ []
  unfolding login_taken
  finish_login_tenant s challenge cs parsed w login on found addressed e =
      let taken = taken_some challenge s cs found in
      let e1 : (login_taken sha256 base64 lib W s parsed w (take_session s challenge).1).1
          ≡ ok login =
        rw (finish_login_on sha256 base64 lib W s challenge parsed w on) at e in
      login_known_lem s cs parsed w (get_user sha256 base64 lib W s cs.user_email w) login
        (get_user_lem s cs.user_email w) (rw (taken, addressed, login_taken) at e1)

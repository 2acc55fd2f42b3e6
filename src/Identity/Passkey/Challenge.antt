-- ===== src/Identity/Passkey/Challenge.antt =====
-- The challenges of internal/core/identity/passkey_service.go over any sequence of calls, the last
-- call first.
use loxtu_go.Base.{ℕ, Option, none, some, List, [], ◌∷◌, Str, bytes}
use loxtu_go.Base.Result.{Result, ok, err, panics}
use loxtu_go.Identity.Passkey.{Webauthn}
use loxtu_go.Identity.Passkey.Ceremony.{
  Draws, Service, begin_resolved, begin_registration_for, begin_for_user, begin_for_found,
  begin_registration_by_hash, begin_login_as, begin_login_for, begin_login_discoverable,
  finish_registration,
}
use loxtu_go.Identity.Passkey.Login.{finish_login}
use loxtu_go.Identity.User.{User, PasskeyUser}
use loxtu_go.Identity.Passkey.Spent.{Issues, Spent, begun-Spent, take_session-Spent}
use loxtu_go.Identity.Passkey.Enabled.{
  begin_registration_on, begin_hashed_on, begin_login_on, begin_discoverable_on,
  finish_registration_on, finish_login_on,
}

module _ (sha256 base64 : Str → Str) (lib : Webauthn) (W : Type 0) where
  open lib use {SessionData, Creation, Assertion, ParsedCreation, ParsedAssertion}

  abbrev pub State : Type 0
  State = Service sha256 base64 lib W × W

  -- A call of the service, with its draws and the clock.
  pub data Call : Type 0 where
    begin_registration : Str → Str → Draws → Call
    begin_registration_hashed : Str → Str → Draws → Call
    begin_login : Str → Str → Str → Call
    begin_discoverable : Str → Str → Call
    finish_registration_with : Str → ParsedCreation → ℕ → Call
    finish_login_with : Str → ParsedAssertion → Call

  abbrev pub step : Call → State → State
  step (begin_registration email tenant draws) (s, w) =
      let r = begin_registration_for sha256 base64 lib W s email tenant draws w in (r.0, r.1.0)
  step (begin_registration_hashed hash tenant draws) (s, w) =
      let r = begin_registration_by_hash sha256 base64 lib W s hash tenant draws w in (r.0, r.1.0)
  step (begin_login email tenant draw) (s, w) =
      ((begin_login_for sha256 base64 lib W s email tenant draw w).0, w)
  step (begin_discoverable tenant draw) (s, w) =
      ((begin_login_discoverable sha256 base64 lib W s tenant draw).0, w)
  step (finish_registration_with challenge parsed now) (s, w) =
      let r = finish_registration sha256 base64 lib W s challenge parsed now w in (r.0, r.1.0)
  step (finish_login_with challenge parsed) (s, w) =
      let r = finish_login sha256 base64 lib W s challenge parsed w in (r.0, r.1.0)

  -- The call, made in this state, issues the challenge.
  abbrev pub IssuesIn : Str → Call → State → Type 0
  IssuesIn challenge (begin_registration email tenant draws) (s, w) =
      Issues (begin_registration_for sha256 base64 lib W s email tenant draws w).1.1 challenge
  IssuesIn challenge (begin_registration_hashed hash tenant draws) (s, w) =
      Issues (begin_registration_by_hash sha256 base64 lib W s hash tenant draws w).1.1 challenge
  IssuesIn challenge (begin_login email tenant draw) (s, w) =
      Issues (begin_login_for sha256 base64 lib W s email tenant draw w).1 challenge
  IssuesIn challenge (begin_discoverable tenant draw) (s, w) =
      Issues (begin_login_discoverable sha256 base64 lib W s tenant draw).1 challenge
  IssuesIn challenge (finish_registration_with other parsed now) x = ⊥
  IssuesIn challenge (finish_login_with other parsed) x = ⊥

  abbrev pub after : List Call → State → State
  after [] x = x
  after (c ∷ calls) x = step c (after calls x)

  -- None of the calls issues the challenge.
  abbrev pub NeverIssues : Str → List Call → State → Type 0
  NeverIssues challenge [] x = Unit
  NeverIssues challenge (c ∷ calls) x =
      (¬ IssuesIn challenge c (after calls x)) × NeverIssues challenge calls x

  begin_resolved-Spent :
      (challenge tenant draw : Str) (s : Service sha256 base64 lib W) (r : W × Result PasskeyUser)
      → ¬ Issues (begin_resolved sha256 base64 lib W s tenant draw r).1.1 challenge
      → Spent challenge s
      → Spent challenge (begin_resolved sha256 base64 lib W s tenant draw r).0
  unfolding begin_resolved
  begin_resolved-Spent challenge tenant draw s (w, ok user) other h =
      begun-Spent lib.challenge_of challenge s (bytes "begin registration: ") user tenant
        (lib.begin_registration user draw) other h
  begin_resolved-Spent challenge tenant draw s (w, err e) other h = h
  begin_resolved-Spent challenge tenant draw s (w, panics) other h = h

  begin_for_user-Spent :
      (challenge tenant : Str) (draws : Draws) (s : Service sha256 base64 lib W) (u : User) (w : W)
      (r : Result Str)
      → ¬ Issues (begin_for_user sha256 base64 lib W s u tenant draws w r).1.1 challenge
      → Spent challenge s
      → Spent challenge (begin_for_user sha256 base64 lib W s u tenant draws w r).0
  unfolding begin_for_user
  begin_for_user-Spent challenge tenant draws s u w (ok email) other h =
      begin_resolved-Spent challenge tenant draws.challenge s _ other h
  begin_for_user-Spent challenge tenant draws s u w (err e) other h = h
  begin_for_user-Spent challenge tenant draws s u w panics other h = h

  begin_for_found-Spent :
      (challenge tenant : Str) (draws : Draws) (s : Service sha256 base64 lib W) (w : W)
      (found : Option User)
      → ¬ Issues (begin_for_found sha256 base64 lib W s tenant draws w found).1.1 challenge
      → Spent challenge s
      → Spent challenge (begin_for_found sha256 base64 lib W s tenant draws w found).0
  unfolding begin_for_found
  begin_for_found-Spent challenge tenant draws s w none other h = h
  begin_for_found-Spent challenge tenant draws s w (some u) other h =
      begin_for_user-Spent challenge tenant draws s u w _ other h

  begin_login_as-Spent :
      (challenge tenant draw : Str) (s : Service sha256 base64 lib W) (r : Result PasskeyUser)
      → ¬ Issues (begin_login_as sha256 base64 lib W s tenant draw r).1 challenge
      → Spent challenge s
      → Spent challenge (begin_login_as sha256 base64 lib W s tenant draw r).0
  unfolding begin_login_as
  begin_login_as-Spent challenge tenant draw s (ok user) other h =
      begun-Spent lib.challenge_of challenge s (bytes "begin login: ") user tenant
        (lib.begin_login user draw) other h
  begin_login_as-Spent challenge tenant draw s (err e) other h = h
  begin_login_as-Spent challenge tenant draw s panics other h = h

  -- Every call that does not issue a spent challenge leaves it spent.
  step-Spent :
      (challenge : Str) (c : Call) (s : Service sha256 base64 lib W) (w : W)
      → ¬ IssuesIn challenge c (s, w)
      → Spent challenge s
      → Spent challenge (step c (s, w)).0
  step-Spent challenge (begin_registration email tenant draws) s w other h =
      let e = begin_registration_on sha256 base64 lib W s email tenant draws w h.0 in
      rw e (begin_resolved-Spent challenge tenant draws.challenge s _ (rw e at other) h)
  step-Spent challenge (begin_registration_hashed hash tenant draws) s w other h =
      let e = begin_hashed_on sha256 base64 lib W s hash tenant draws w h.0 in
      rw e (begin_for_found-Spent challenge tenant draws s w _ (rw e at other) h)
  step-Spent challenge (begin_login email tenant draw) s w other h =
      let e = begin_login_on sha256 base64 lib W s email tenant draw w h.0 in
      rw e (begin_login_as-Spent challenge tenant draw s _ (rw e at other) h)
  step-Spent challenge (begin_discoverable tenant draw) s w other h =
      let e = begin_discoverable_on sha256 base64 lib W s tenant draw h.0 in
      rw e (begun-Spent lib.challenge_of challenge s _ _ tenant _ (rw e at other) h)
  step-Spent challenge (finish_registration_with taken parsed now) s w other h =
      rw (finish_registration_on sha256 base64 lib W s taken parsed now w h.0)
        (take_session-Spent challenge taken s h)
  step-Spent challenge (finish_login_with taken parsed) s w other h =
      rw (finish_login_on sha256 base64 lib W s taken parsed w h.0)
        (take_session-Spent challenge taken s h)

  pub after-Spent :
      (challenge : Str) (calls : List Call) (x : State)
      → NeverIssues challenge calls x
      → Spent challenge x.0
      → Spent challenge (after calls x).0
  after-Spent challenge [] x never h = h
  after-Spent challenge (c ∷ calls) x (other, never) h =
      step-Spent challenge c (after calls x).0 (after calls x).1 other
        (after-Spent challenge calls x never h)

-- ===== src/Identity/Passkey/SingleUse.antt =====
-- A challenge of internal/core/identity/passkey_service.go ends one ceremony at most.
use loxtu_go.Base.{ℕ, true, List, Str, bytes, ◌≡◌, ap, ◌∙◌}
use loxtu_go.Base.Result.{err}
use loxtu_go.Identity.Passkey.{Webauthn}
use loxtu_go.Identity.Passkey.Ceremony.{Service, finish_taken, finish_registration}
use loxtu_go.Identity.Passkey.Login.{finish_login, login_taken}
use loxtu_go.Identity.Passkey.Spent.{Spent, take_session-Spent_self, take_session-of_Spent}
use loxtu_go.Identity.Passkey.Enabled.{finish_registration_on, finish_login_on}
use loxtu_go.Identity.Passkey.Challenge.{
  State, Call, begin_registration, begin_registration_hashed, begin_login, begin_discoverable,
  finish_registration_with, finish_login_with, step, after, NeverIssues, after-Spent,
}

module _ (sha256 base64 : Str → Str) (lib : Webauthn) (W : Type 0) where
  abbrev Calls : Type 0
  Calls = Call sha256 base64 lib W

  -- The call presents this challenge to end a ceremony.
  abbrev pub Presents : Str → Calls → Type 0
  Presents challenge (finish_registration_with other parsed now) = other ≡ challenge
  Presents challenge (finish_login_with other parsed) = other ≡ challenge
  Presents challenge (begin_registration email tenant draws) = ⊥
  Presents challenge (begin_registration_hashed hash tenant draws) = ⊥
  Presents challenge (begin_login email tenant draw) = ⊥
  Presents challenge (begin_discoverable tenant draw) = ⊥

  -- Both ends of a ceremony answer "session not found" and change nothing.
  abbrev pub IsRefused : Str → State sha256 base64 lib W → Type 0
  IsRefused challenge (s, w) =
      ((parsed : lib.ParsedCreation) (now : ℕ)
        → finish_registration sha256 base64 lib W s challenge parsed now w
          ≡ (s, (w, err (bytes "session not found"))))
      × ((parsed : lib.ParsedAssertion)
          → finish_login sha256 base64 lib W s challenge parsed w
            ≡ (s, (w, err (bytes "session not found"))))

  IsRefused-of_Spent :
      (challenge : Str) (s : Service sha256 base64 lib W) (w : W)
      → Spent challenge s
      → IsRefused challenge (s, w)
  unfolding finish_taken login_taken
  IsRefused-of_Spent challenge s w h = (
    (λ parsed now.
        finish_registration_on sha256 base64 lib W s challenge parsed now w h.0
        ∙ ap (λ r. (r.0, finish_taken sha256 base64 lib W s parsed now w r.1))
            (take_session-of_Spent challenge s h)),
    (λ parsed.
        finish_login_on sha256 base64 lib W s challenge parsed w h.0
        ∙ ap (λ r. (r.0, login_taken sha256 base64 lib W s parsed w r.1))
            (take_session-of_Spent challenge s h)),
  )

  Presents-Spent :
      (challenge : Str) (c : Calls) (s : Service sha256 base64 lib W) (w : W)
      → s.has_wa ≡ true
      → Presents challenge c
      → Spent challenge (step sha256 base64 lib W c (s, w)).0
  Presents-Spent challenge (finish_registration_with other parsed now) s w on e =
      rw (finish_registration_on sha256 base64 lib W s other parsed now w on, e)
        (take_session-Spent_self challenge s on)
  Presents-Spent challenge (finish_login_with other parsed) s w on e =
      rw (finish_login_on sha256 base64 lib W s other parsed w on, e)
        (take_session-Spent_self challenge s on)
  Presents-Spent challenge (begin_registration email tenant draws) s w on e = absurd e
  Presents-Spent challenge (begin_registration_hashed hash tenant draws) s w on e = absurd e
  Presents-Spent challenge (begin_login email tenant draw) s w on e = absurd e
  Presents-Spent challenge (begin_discoverable tenant draw) s w on e = absurd e

  -- A challenge ends one ceremony at most. When the relying party is set, once a call has presented
  -- a challenge to end a registration or a login, whatever that call returned, and after any calls
  -- that do not issue the same challenge again, both ends of a ceremony answer the challenge with
  -- "session not found" and change nothing.
  pub challenge_single_use :
      (challenge : Str) (c : Calls) (calls : List Calls) (s : Service sha256 base64 lib W) (w : W)
      → s.has_wa ≡ true
      → Presents challenge c
      → NeverIssues sha256 base64 lib W challenge calls (step sha256 base64 lib W c (s, w))
      → IsRefused challenge (after sha256 base64 lib W calls (step sha256 base64 lib W c (s, w)))
  challenge_single_use challenge c calls s w on presented never =
      let x = step sha256 base64 lib W c (s, w) in
      IsRefused-of_Spent challenge (after sha256 base64 lib W calls x).0
        (after sha256 base64 lib W calls x).1
        (after-Spent sha256 base64 lib W challenge calls x never
          (Presents-Spent challenge c s w on presented))

-- ===== src/Identity/Passkey/Enabled.antt =====
-- The calls of internal/core/identity/passkey_service.go when the relying party is set.
use loxtu_go.Base.{ℕ, Bool, true, [], Str, bytes, ◌≡◌, refl, if◌then◌else◌}
use loxtu_go.Identity.Passkey.{Webauthn, fresh_user}
use loxtu_go.Identity.Passkey.Ceremony.{
  Draws, Service, begun, take_session, begin_resolved, begin_registration_for, begin_for_found,
  begin_registration_by_hash, begin_login_as, begin_login_for, begin_login_discoverable,
  finish_taken, finish_registration, find_or_create_passkey_user, get_user,
}
use loxtu_go.Identity.Passkey.Login.{finish_login, login_taken}

if_true : {A : Type 0} (b : Bool) (x y : A) → b ≡ true → (if b then x else y) ≡ x
if_true b x y e = rw e refl

module _ (sha256 base64 : Str → Str) (lib : Webauthn) (W : Type 0) where
  open lib use {ParsedCreation, ParsedAssertion}

  pub begin_registration_on :
      (s : Service sha256 base64 lib W) (email tenant : Str) (draws : Draws) (w : W)
      → s.has_wa ≡ true
      → begin_registration_for sha256 base64 lib W s email tenant draws w
        ≡ begin_resolved sha256 base64 lib W s tenant draws.challenge
            (find_or_create_passkey_user sha256 base64 lib W s email tenant draws.handle w)
  unfolding begin_registration_for
  begin_registration_on s email tenant draws w on = if_true s.has_wa _ _ on

  pub begin_hashed_on :
      (s : Service sha256 base64 lib W) (hash tenant : Str) (draws : Draws) (w : W)
      → s.has_wa ≡ true
      → begin_registration_by_hash sha256 base64 lib W s hash tenant draws w
        ≡ begin_for_found sha256 base64 lib W s tenant draws w (s.users.find_by_user_id_hash hash w)
  unfolding begin_registration_by_hash
  begin_hashed_on s hash tenant draws w on = if_true s.has_wa _ _ on

  pub begin_login_on :
      (s : Service sha256 base64 lib W) (email tenant draw : Str) (w : W)
      → s.has_wa ≡ true
      → begin_login_for sha256 base64 lib W s email tenant draw w
        ≡ begin_login_as sha256 base64 lib W s tenant draw (get_user sha256 base64 lib W s email w)
  unfolding begin_login_for
  begin_login_on s email tenant draw w on = if_true s.has_wa _ _ on

  pub begin_discoverable_on :
      (s : Service sha256 base64 lib W) (tenant draw : Str)
      → s.has_wa ≡ true
      → begin_login_discoverable sha256 base64 lib W s tenant draw
        ≡ begun lib.challenge_of s
            (bytes "begin discoverable login: ")
            (fresh_user [] [] [] [])
            tenant
            (lib.begin_discoverable_login draw)
  unfolding begin_login_discoverable
  begin_discoverable_on s tenant draw on = if_true s.has_wa _ _ on

  pub finish_registration_on :
      (s : Service sha256 base64 lib W) (challenge : Str) (parsed : ParsedCreation) (now : ℕ)
      (w : W)
      → s.has_wa ≡ true
      → finish_registration sha256 base64 lib W s challenge parsed now w ≡ (
          let r = take_session s challenge in
          (r.0, finish_taken sha256 base64 lib W s parsed now w r.1))
  unfolding finish_registration
  finish_registration_on s challenge parsed now w on = if_true s.has_wa _ _ on

  pub finish_login_on :
      (s : Service sha256 base64 lib W) (challenge : Str) (parsed : ParsedAssertion) (w : W)
      → s.has_wa ≡ true
      → finish_login sha256 base64 lib W s challenge parsed w ≡ (
          let r = take_session s challenge in (r.0, login_taken sha256 base64 lib W s parsed w r.1))
  unfolding finish_login
  finish_login_on s challenge parsed w on = if_true s.has_wa _ _ on

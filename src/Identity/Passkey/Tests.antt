-- ===== src/Identity/Passkey/Tests.antt =====
-- Ceremonies with a toy WebAuthn library, which accepts everything.
use loxtu_go.Base.{ℕ, false, some, [], ◌∷◌, str_eq, ◌≡◌, refl}
use loxtu_go.Base.Map
use loxtu_go.Base.Result.{ok}
use loxtu_go.Identity.Passkey.{
  save_credential, webauthn_creds_from_domain, webauthn_cred_from_domain, domain_credential,
}
use loxtu_go.Identity.Passkey.Ceremony.{
  take_session, user_id_of, resolve_user_id, get_user, loaded_user, registering_user, registered,
  create_for, finish_taken, finish_registration,
}
use loxtu_go.Identity.Passkey.Login.{
  finish_login, login_taken, login_known, known_login, logged_in, update_sign_count,
}
use loxtu_go.Identity.Passkey.Challenge.{finish_login_with, step, after}
use loxtu_go.Identity.Passkey.SingleUse.{IsRefused, challenge_single_use}
use loxtu_go.Identity.User.{PasskeyUser}
use loxtu_go.Identity.Passkey.Toy.{a_credential, toy, same, stored, a_ceremony, service}

challenge_single_use_example :
    IsRefused same same toy ℕ
      (5 ∷ [])
      (after same same toy ℕ [] (step same same toy ℕ (finish_login_with (5 ∷ []) tt) (service, 0)))
challenge_single_use_example =
    challenge_single_use same same toy ℕ (5 ∷ []) (finish_login_with (5 ∷ []) tt) [] service 0 refl
      refl tt

kept : Map.lookup (5 ∷ []) service.sessions ≡ some a_ceremony
unfolding Map.lookup str_eq
kept = refl

abbrev registered_user : PasskeyUser
registered_user = record {
  user_id = 1 ∷ [];
  tenant_id = 9 ∷ [];
  email = 8 ∷ [];
  handle = 6 ∷ [];
  credentials =
      record {
        id = 4 ∷ [];
        public_key = [];
        transport = [];
        sign_count = 0;
        aaguid = [];
        backup_eligible = false;
        backup_state = false;
      }
      ∷ a_credential
      ∷ [];
}

registers :
    (finish_registration same same toy ℕ service (5 ∷ []) tt 100 0).1.1
    ≡ ok (a_credential, registered_user)
unfolding finish_registration take_session finish_taken create_for registered registering_user
    Map.lookup str_eq webauthn_creds_from_domain webauthn_cred_from_domain save_credential
    domain_credential
registers = refl

abbrev logged_user : PasskeyUser
logged_user = record {
  user_id = 1 ∷ [];
  tenant_id = [];
  email = 8 ∷ [];
  handle = [];
  credentials = webauthn_creds_from_domain (some (stored ∷ []));
}

logs_in :
    (finish_login same same toy ℕ service (5 ∷ []) tt 0).1.1 ≡ ok (logged_user, some a_credential)
unfolding finish_login take_session login_taken login_known known_login logged_in get_user
    loaded_user resolve_user_id user_id_of update_sign_count Map.lookup str_eq
logs_in = refl

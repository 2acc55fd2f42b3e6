-- ===== src/Identity/Token/Memory.antt =====
-- Stores in memory, for internal/core/identity/token_service.go: a session store is the function
-- from hashes to sessions, and there is one user.
use loxtu_go.Base.{
  ◌≡◌, true, Option, none, replicate, some, [], ◌∷◌, Str, bytes, refl, if◌then◌else◌, str_eq,
  str_eq_refl, str_eq_iff, Bool-cases, inl, inr,
}
use loxtu_go.Identity.Ports.{UserStore, SessionStore, IsReliable}
use loxtu_go.Identity.Session.{Session}
use loxtu_go.Identity.User.{User, zero_user}

abbrev pub Sessions : Type 0
Sessions = Str → Option Session

-- The session, unless it is the user's.
abbrev pub unless_of : Str → Option Session → Option Session
unless_of user_id none = none
unless_of user_id (some x) = if str_eq x.user_id user_id then none else some x

abbrev pub memory : SessionStore Sessions
memory = record {
  create = λ s w. (λ h. if str_eq h s.token_hash then some s else w h, true);
  find_by_token_hash = λ h w. w h;
  revoke_by_user_id = λ u w. (λ h. unless_of u (w h), true);
  revoke_by_token_hash = λ t w. (λ h. if str_eq h t then none else w h, true);
  cleanup_expired = λ now w. (w, true);
}

pub find-create_memory :
    (s : Session) (w : Sessions)
    → memory.find_by_token_hash s.token_hash (memory.create s w).0 ≡ some s
find-create_memory s w = rw (str_eq_refl s.token_hash) refl

pub memory-IsReliable : IsReliable memory
memory-IsReliable = record {
  find-create = λ s w done. (s, find-create_memory s w, refl);
  find-create_ne = λ s x h w ne e. elim (Bool-cases (str_eq h s.token_hash)) [
    | inl t ↦ absurd (ne ((str_eq_iff h s.token_hash).0 t))
    | inr f ↦ rw f at e
  ];
  find-revoke = λ h x w e done. rw (e, str_eq_refl x.user_id) refl;
}

abbrev pub a_user : User
a_user = record zero_user {
  user_id = 1 ∷ [];
  user_id_hash = replicate 8 49;
  tenant_id = bytes "acme";
  role = bytes "admin";
}

abbrev pub directory : UserStore Sessions
directory = record {
  create = λ u w. (w, some u);
  find_by_user_id = λ id w. some a_user;
  find_by_email_hash = λ h w. some a_user;
  find_by_user_id_hash = λ h w. some a_user;
  update = λ u w. (w, true);
  erase = λ id w. (w, true);
}

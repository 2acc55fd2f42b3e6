-- ===== src/Adapters/SessionRepo.antt =====
-- internal/adapters/persistence/surrealdb/session_repo.go: the sessions over a table. What the
-- database makes of the five statements is a parameter.
pub mod OneSession
pub mod Reliable
mod Tests
use loxtu_go.Base.{ℕ, Bool, Option, none, some, List, Str, bytes, is_empty, if◌then◌else◌, ◌/◌}
use loxtu_go.Base.Clock.{second}
use loxtu_go.Base.Map
use loxtu_go.Base.Map.{Map}
use loxtu_go.Adapters.Rows.{Cell, Row, text_of, parsed_or_zero, parse_time, first_map}
use loxtu_go.Identity.Ports.{SessionStore}
use loxtu_go.Identity.Session.{Session}

-- The statements on `sessions`: a creation sets the user, the hash and the seconds of the expiry. The
-- flag of a write is false on an error, and a read is `none` on one.
pub record SessionTable (W : Type 0) : Type 0 where
  pub create_session : Str → Str → ℕ → W → W × Bool
  pub select_hash : Str → W → Option (List Row)
  pub delete_user : Str → W → W × Bool
  pub delete_hash : Str → W → W × Bool
  pub delete_expired : ℕ → W → W × Bool

unfoldable pub session_of : (Str → Option ℕ) → Str → Option (Map Cell) → Option Session
session_of parse token_hash none = none
session_of parse token_hash (some rm) = some (record {
  user_id = text_of (Map.lookup (bytes "user_id") rm);
  token_hash = token_hash;
  expires_at = parsed_or_zero (parse_time parse (Map.lookup (bytes "expires_at") rm));
  created_at = parsed_or_zero (parse_time parse (Map.lookup (bytes "created_at") rm));
})

module _ {W : Type 0} (parse : Str → Option ℕ) (table : SessionTable W) where
  unfoldable pub find_by_token_hash : Str → W → Option Session
  find_by_token_hash token_hash w =
      session_of parse token_hash (first_map (table.select_hash token_hash w))

  -- The error of a revocation is dropped.
  unfoldable pub revoked_first : Str → W → W
  revoked_first user_id w = if is_empty user_id then w else (table.delete_user user_id w).0

  -- `Unix()` cuts the expiry to whole seconds.
  unfoldable pub create : Session → W → W × Bool
  create s w =
      table.create_session s.user_id s.token_hash (s.expires_at / second)
        (revoked_first s.user_id w)

  -- A pool that is nil gives an error everywhere, as a failing query does, and is left out.
  abbrev pub session_repo : SessionStore W
  session_repo = record {
    create = create;
    find_by_token_hash = find_by_token_hash;
    revoke_by_user_id = table.delete_user;
    revoke_by_token_hash = table.delete_hash;
    cleanup_expired = table.delete_expired;
  }

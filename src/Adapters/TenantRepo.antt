-- ===== src/Adapters/TenantRepo.antt =====
-- internal/adapters/persistence/surrealdb/tenant_repo.go: the tenant of a domain, from the control
-- plane. What the database answers is a parameter.
mod Tests
use loxtu_go.Base.{Option, none, some, List, [], ◌∷◌, Str, bytes, is_empty, if◌then◌else◌}
use loxtu_go.Base.Map
use loxtu_go.Base.Map.{Map}
use loxtu_go.Base.Result.{Result, ok, err}
use loxtu_go.Base.Strings.{to_lower, trim_space}
use loxtu_go.Adapters.Rows.{Row, text_of}
use loxtu_go.Identity.Token.{or_default}

pub record TenantRepo : Type 0 where
  pub control_ns : Str
  pub control_db : Str

pub new_tenant_repo : TenantRepo
new_tenant_repo = record { control_ns = bytes "control_plane"; control_db = bytes "control_plane" }

-- The texts of the errors end with the cause and the type, which are left out.
unfoldable pub tenant_in : Option (List Row) → Result Str
tenant_in none = err (bytes "db query failed: ")
tenant_in (some []) = ok []
tenant_in (some (none ∷ rows)) = err (bytes "unexpected row type: ")
tenant_in (some (some rm ∷ rows)) = ok (text_of (Map.lookup (bytes "tenant_id") rm))

-- `select` asks in a namespace and a database for the tenant whose whitelist has the domain.
unfoldable pub resolve_normal :
    TenantRepo → (Str → Str → Str → Option (List Row)) → Str → Result Str
resolve_normal r select domain =
    if is_empty domain
    then ok []
    else tenant_in (
        select (or_default (bytes "control_plane") r.control_ns)
          (or_default (bytes "control_plane") r.control_db) domain)

unfoldable pub resolve_by_domain :
    TenantRepo → (Str → Str → Str → Option (List Row)) → Str → Result Str
resolve_by_domain r select domain = resolve_normal r select (to_lower (trim_space domain))

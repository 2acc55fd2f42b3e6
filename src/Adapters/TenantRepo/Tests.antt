-- ===== src/Adapters/TenantRepo/Tests.antt =====
-- internal/adapters/persistence/surrealdb/tenant_repo.go with one tenant.
use loxtu_go.Base.{Option, some, List, [], ◌∷◌, Str, bytes, str_eq, ◌≡◌, refl, if◌then◌else◌}
use loxtu_go.Base.Map
use loxtu_go.Base.Result.{ok}
use loxtu_go.Base.Strings.{to_lower, trim_space, trim_left, trim_right}
use loxtu_go.Adapters.Rows.{Row, string, text_of}
use loxtu_go.Adapters.TenantRepo.{TenantRepo, tenant_in, resolve_normal, resolve_by_domain}

abbrev a_repo : TenantRepo
a_repo = record { control_ns = []; control_db = [] }

one_tenant : Str → Str → Str → Option (List Row)
one_tenant ns db domain = some (
    if str_eq domain (bytes "loxtu.com")
    then some ((bytes "tenant_id", string (bytes "loxtu")) ∷ []) ∷ []
    else [])

known_domain : resolve_by_domain a_repo one_tenant (bytes " LOXTU.com") ≡ ok (bytes "loxtu")
unfolding resolve_by_domain resolve_normal tenant_in one_tenant to_lower trim_space trim_left
    trim_right text_of Map.lookup bytes str_eq
known_domain = refl

unknown_domain : resolve_by_domain a_repo one_tenant (bytes "unknown.com") ≡ ok []
unfolding resolve_by_domain resolve_normal tenant_in one_tenant to_lower trim_space trim_left
    trim_right bytes str_eq
unknown_domain = refl

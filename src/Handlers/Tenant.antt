-- ===== src/Handlers/Tenant.antt =====
-- internal/interfaces/http/handlers/tenant_resolver.go: the tenant of an address. The repository of
-- tenants is a parameter, `none` where it fails or knows no tenant.
pub mod Laws
pub mod Tests
use loxtu_go.Base.{
  ℕ, Bool, true, false, Option, none, some, List, [], ◌∷◌, Str, bytes, has_prefix, is_empty, length,
  ltb, not, ◌||◌, if◌then◌else◌,
}
use loxtu_go.Base.Strings.{trim_space, to_lower, split_first, contains_byte, has_suffix}

pub is_malformed : Str → Bool
is_malformed domain =
    not (contains_byte domain b'.')
    || has_prefix domain (bytes ".")
    || has_suffix domain (bytes ".")

pub domain_of_parts : Option (Str × Str) → Str
domain_of_parts none = []
domain_of_parts (some (local, domain)) =
    if is_empty local || is_empty domain
    then []
    else if is_malformed domain
    then []
    else to_lower domain

pub domain_of_trimmed : Str → Str
domain_of_trimmed email =
    if is_empty email || ltb 254 (length email)
    then []
    else domain_of_parts (split_first b'@' email)

-- The domain of an address, empty where it is malformed.
pub extract_domain : Str → Str
extract_domain email = domain_of_trimmed (trim_space email)

pub code_or_empty : Option Str → Str
code_or_empty none = []
code_or_empty (some code) = code

-- ResolveTenantByEmail; a resolver or a repository that is nil is `none`. It gives no error.
unfoldable pub resolve_tenant_by_email : Option (Str → Option Str) → Str → Str
resolve_tenant_by_email none email = []
resolve_tenant_by_email (some resolve_by_domain) email =
    let domain = extract_domain email in
    if is_empty domain then [] else code_or_empty (resolve_by_domain domain)

-- What SendOTP makes of it.
unfoldable pub tenant_or_public : Option (Str → Option Str) → Str → Str
tenant_or_public resolver email =
    let code = resolve_tenant_by_email resolver email in
    if is_empty code then bytes "public" else code

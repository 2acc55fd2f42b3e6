-- ===== src/Handlers/Tenant/Tests.antt =====
-- The tenant of a concrete address.
use loxtu_go.Base.{some, [], ◌∷◌, Option, Str, bytes, str_eq, has_prefix, ◌≡◌, ◌≢◌, refl}
use loxtu_go.Base.Strings.{trim_space, to_lower, split_first, has_suffix}
use loxtu_go.Handlers.Tenant.{
  is_malformed, domain_of_parts, domain_of_trimmed, extract_domain, code_or_empty,
  resolve_tenant_by_email,
}

-- " v@A.b"
abbrev an_email : Str
an_email = 32 ∷ 118 ∷ 64 ∷ 65 ∷ 46 ∷ 98 ∷ []

abbrev repository : Str → Option Str
repository domain = some domain

lower_domain : resolve_tenant_by_email (some repository) an_email ≡ 97 ∷ 46 ∷ 98 ∷ []
unfolding resolve_tenant_by_email extract_domain domain_of_trimmed domain_of_parts is_malformed
    code_or_empty trim_space to_lower split_first has_suffix bytes str_eq has_prefix
lower_domain = refl

has_tenant : resolve_tenant_by_email (some repository) an_email ≢ []
has_tenant e = cc (lower_domain, e)
